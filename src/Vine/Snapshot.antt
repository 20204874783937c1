-- ===== src/Vine/Snapshot.antt =====
-- About the compression of vine.py, over what zlib and NumPy promise.
use echo_veil.Base.{
  ℕ, ◌+◌, ◌*◌, ◌<◌, ◌≡◌, ap, sym, true, false, List, [], ◌∷◌, none, some, ok, arith, length,
}
use echo_veil.Base.Int.{pos}
use echo_veil.Base.Floats.{Float}
use echo_veil.Vectors.{Vector, as_vector}
use echo_veil.Vine.{Vine, Codec, compress, decompress, anchor_snapshot, restore, check_inflated}

-- The documented behaviour: eight bytes a component, `frombuffer` undoes `tobytes`, and a stream that
-- zlib made comes out whole under a limit that is larger than its content.
pub record IsLossless (F : Type 0) ⦃cd : Codec F⦄ : Type 0 where
  pub byte_length : (v : Vector F) → length (cd.to_bytes v) ≡ length v * 8
  pub from_to : (v : Vector F) → cd.from_buffer (cd.to_bytes v) ≡ v
  pub inflate :
      (bs : List ℕ) (limit : ℕ)
      → length bs < limit
      → cd.decompress (cd.compress bs) limit
        ≡ some (record { raw = bs; eof = true; unconsumed_tail = []; unused_data = [] })

module _ {F : Type 0} ⦃fl : Float F⦄ ⦃cd : Codec F⦄ where
  -- The vine with its anchor packed.
  abbrev pub packed : Vine F → Vine F
  packed v = record v {
    compressed = some (cd.compress (cd.to_bytes v.anchor));
    anchor_shape = some (length v.anchor ∷ []);
    anchor = [];
  }

  ratio_of : Vine F → F
  ratio_of v = fl.sub (fl.decimal 1 0) (
      fl.div (fl.of_int (pos (length (cd.compress (cd.to_bytes v.anchor)))))
        (fl.of_int (pos (length (cd.to_bytes v.anchor)))))

module _ {F : Type 0} ⦃fl : Float F⦄ ⦃cd : Codec F⦄ (lossless : IsLossless F) where
  restore_packed :
      (v : Vector F)
      → as_vector false v ≡ ok v
      → restore (cd.compress (cd.to_bytes v)) (some (length v ∷ [])) ≡ ok v
  unfolding restore as_vector check_inflated
  restore_packed v h =
      rw
        (lossless.inflate (cd.to_bytes v) (length v * 8 + 1)
          (omega (arith, lossless.byte_length v)))
        (ground (arith, lossless.byte_length v, lossless.from_to v))

  compress_valid :
      (v : Vine F) → as_vector false v.anchor ≡ ok v.anchor → compress v ≡ ok (ratio_of v, packed v)
  unfolding compress as_vector ratio_of
  compress_valid v h = ground arith

  same_vine :
      (v : Vine F)
      → v.compressed ≡ none
      → v.anchor_shape ≡ none
      → record v { compressed = none; anchor_shape = none } ≡ v
  same_vine v c n = λ i. record v { compressed = sym c i; anchor_shape = sym n i }

  -- Over a zlib and a NumPy that lose nothing: compressing a vine with a valid anchor and no compressed
  -- form succeeds, and decompressing what it leaves, the packed vine without its live array, gives back
  -- the vine.
  pub decompress-compress :
      (v : Vine F)
      → as_vector false v.anchor ≡ ok v.anchor
      → v.compressed ≡ none
      → v.anchor_shape ≡ none
      → (r : F) × (compress v ≡ ok (r, packed v)) × (decompress (packed v) ≡ ok v)
  unfolding decompress anchor_snapshot
  decompress-compress v h c n =
      (ratio_of v, compress_valid v h, rw (restore_packed v.anchor h) (ap ok (same_vine v c n)))
