-- ===== src/Vine.antt =====
-- src/echo_veil/vine.py: one unit of active memory.
pub mod Snapshot
use echo_veil.Base.{
  ℕ, ◌+◌, ◌*◌, ◌≡◌, Bool, true, false, not, ◌&&◌, ◌||◌, List, [], ◌∷◌, Option, none, some, String,
  Result, ok, err, ◌>>=◌, ◌>>◌, type_error, value_error, guard, eqb, if◌then◌else◌, length,
}
use echo_veil.Base.Int.{pos}
use echo_veil.Base.Texts.{is_blank}
use echo_veil.Base.Floats.{Float, Number, to_float, fmax}
use echo_veil.Vectors.{Vector, as_vector}

-- `VineState`
pub data VineState : Type 0 where
  active twilight evicted : VineState

-- A protected anchor: the attributes that the code reads of it with `getattr`, and what its
-- `to_json_bytes` returns, where it has one.
pub record Protected : Type 0 where
  pub shape : Option (List ℕ)
  pub key_id : Option String
  pub schema_version : Option ℕ
  pub record_id : Option String
  pub json : Option (List ℕ)

-- `Vine`
pub record Vine (F : Type 0) : Type 0 where
  pub topic : String
  pub anchor : Vector F
  pub vine_id : String
  pub created_at : F
  pub last_touched : F
  pub state : VineState
  pub locked : Bool
  pub score : F
  pub twilight_since : Option F
  pub protected_anchor : Option Protected
  pub compressed : Option (List ℕ)
  pub anchor_shape : Option (List ℕ)

-- What a `zlib.decompressobj` has after one bounded call of `decompress`.
pub record Inflated : Type 0 where
  pub raw : List ℕ
  pub eof : Bool
  pub unconsumed_tail : List ℕ
  pub unused_data : List ℕ

-- NumPy's float64 bytes and zlib: `tobytes`, `frombuffer`, `compress`, and `decompress` with its
-- limit, where `none` is `zlib.error`.
pub record Codec (F : Type 0) : Type 0 where
  pub to_bytes : Vector F → List ℕ
  pub from_buffer : List ℕ → Vector F
  pub compress : List ℕ → List ℕ
  pub decompress : List ℕ → ℕ → Option Inflated

abbrev pub is_none {ℓ} : {A : Type ℓ} → Option A → Bool
is_none none = true
is_none (some a) = false

-- The tests on the bytes that came out of zlib.
unfoldable pub check_inflated : ℕ → Option Inflated → Result (List ℕ)
check_inflated expected none = err value_error
check_inflated expected (some i) = do
  guard
      (eqb (length i.raw) expected
        && i.eof
        && eqb (length i.unconsumed_tail) 0
        && eqb (length i.unused_data) 0)
      value_error
  ok i.raw

module _ {F : Type 0} ⦃fl : Float F⦄ where
  -- `Vine._validate_timestamp`
  unfoldable pub validate_timestamp : Number F → Result F
  validate_timestamp value = do
    t ← to_float value
    guard (fl.is_finite t && not (fl.lt t (fl.decimal 0 0))) value_error
    ok t

  optional_timestamp : Option (Number F) → Result (Option F)
  optional_timestamp none = ok none
  optional_timestamp (some v) = do t ← validate_timestamp v; ok (some t)

  -- The constructor call: `__post_init__` on the given fields. A new vine is active, with score 1.
  unfoldable pub new_vine :
      (topic : String) (anchor : Vector F) (vine_id : String) (created_at last_touched : Number F)
      → VineState
      → Bool
      → (score : Number F) → (twilight_since : Option (Number F)) → Option Protected
      → Result (Vine F)
  unfolding optional_timestamp
  new_vine topic anchor vine_id created_at last_touched state locked score twilight_since
        protected =
      do
        guard (not (is_blank topic)) value_error
        guard (not (is_blank vine_id)) value_error
        created ← validate_timestamp created_at
        touched ← validate_timestamp last_touched
        since ← optional_timestamp twilight_since
        s ← to_float score
        guard (fl.is_finite s) value_error
        a ← as_vector (not (is_none protected)) anchor
        ok (record {
          topic = topic;
          anchor = a;
          vine_id = vine_id;
          created_at = created;
          last_touched = touched;
          state = state;
          locked = locked;
          score = s;
          twilight_since = since;
          protected_anchor = protected;
          compressed = none;
          anchor_shape = none;
        })

  -- `touch`, at the time that the caller read.
  unfoldable pub touch : Vine F → Number F → Result (Vine F)
  touch v now = do t ← validate_timestamp now; ok (record v { last_touched = t })

  -- `age_hours`
  unfoldable pub age_hours : Vine F → Number F → Result F
  age_hours v now = do
    ref ← validate_timestamp now
    touched ← validate_timestamp (Number.float v.last_touched)
    ok (fmax (fl.decimal 0 0) (fl.div (fl.sub ref touched) (fl.decimal 3600 0)))

  module _ ⦃cd : Codec F⦄ where
    -- `compress`: the achieved ratio and the vine with its live array released.
    unfoldable pub compress : Vine F → Result (F × Vine F)
    compress v = do
      guard (not (eqb (length v.anchor) 0)) value_error
      let raw = cd.to_bytes v.anchor
      let packed = cd.compress raw
      ok (
        fl.sub (fl.decimal 1 0)
            (fl.div (fl.of_int (pos (length packed))) (fl.of_int (pos (length raw)))),
        record v {
          compressed = some packed;
          anchor_shape = some (length v.anchor ∷ []);
          anchor = [];
        },
      )

    unfoldable pub restore : List ℕ → Option (List ℕ) → Result (Vector F)
    unfolding check_inflated
    restore packed none = err value_error
    restore packed (some []) = err value_error
    restore packed (some (n ∷ m ∷ ns)) = err value_error
    restore packed (some (n ∷ [])) = do
      guard (not (eqb n 0)) value_error
      raw ← check_inflated (n * 8) (cd.decompress packed (n * 8 + 1))
      as_vector false (cd.from_buffer raw)

    unfoldable pub snapshot_of : Vine F → Option (List ℕ) → Result (Vector F)
    unfolding restore
    snapshot_of v none = as_vector false v.anchor
    snapshot_of v (some packed) = restore packed v.anchor_shape

    -- `anchor_snapshot`
    unfoldable pub anchor_snapshot : Vine F → Result (Vector F)
    unfolding snapshot_of
    anchor_snapshot v = snapshot_of v v.compressed

    -- `decompress`
    unfoldable pub decompress : Vine F → Result (Vine F)
    decompress v = if is_none v.compressed then ok v else do
      a ← anchor_snapshot v
      ok (record v { anchor = a; compressed = none; anchor_shape = none })

  -- `archive_payload`
  unfoldable pub archive_payload : Vine F → Option (List ℕ)
  archive_payload v = v.compressed

  -- `clear_material`
  unfoldable pub clear_material : Vine F → Vine F
  clear_material v = record v {
    anchor = [];
    compressed = none;
    anchor_shape = none;
    protected_anchor = none;
  }
