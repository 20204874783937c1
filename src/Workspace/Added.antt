-- ===== src/Workspace/Added.antt =====
-- What `add` of workspace.py does to the vines that are there.
use echo_veil.Base.{
  ◌≡◌, ◌≢◌, refl, sym, inl, inr, Bool-cases, Result-cases, false, none, some, ok, String, arith,
}
use text.Mathlib.TextEquality.{eq_iff}
use echo_veil.Base.Dict.{lookup, has, put, lookup-put}
use echo_veil.Base.Floats.{Float}
use echo_veil.Vine.{Vine, Codec}
use echo_veil.Workspace.{Workspace, add, join_dimension, vine_dimension}
use echo_veil.Workspace.Kept.{Kept, Held, Held-Kept, added}

module _ {F : Type 0} where
  add-inv :
      (w : Workspace F) (v u : Vine F)
      → (add w v).0 ≡ ok u
      → (u ≡ v) × (has v.vine_id w.vines ≡ false) × ((add w v).1.vines ≡ put v.vine_id v w.vines)
  unfolding add
  add-inv w v u h = elim (Bool-cases (has v.vine_id w.vines)) [
    | inl e ↦ cc (rw e at h)
    | inr e ↦ elim (Result-cases (join_dimension w.dimension (vine_dimension v))) [
      | inl (d, p) ↦ (let same : v ≡ u = cc (rw (e, p) at h) in (sym same, e, rw (e, p) refl))
      | inr (x, p) ↦ cc (rw (e, p) at h)
    ]
  ]

module _ {F : Type 0} ⦃fl : Float F⦄ ⦃cd : Codec F⦄ where
  -- An `add` that returns, to a workspace that a program holds, gives the vine back, found nothing under
  -- its id, puts it there and leaves what every other id had; each vine still stands once, under its
  -- own id.
  pub add_once :
      {w : Workspace F} (v u : Vine F)
      → Held w
      → (add w v).0 ≡ ok u
      → (u ≡ v)
        × (lookup v.vine_id w.vines ≡ none)
        × (lookup v.vine_id (add w v).1.vines ≡ some v)
        × ((k : String) → k ≢ v.vine_id → lookup k (add w v).1.vines ≡ lookup k w.vines)
        × Kept (add w v).1.vines
  add_once {w} v u held h =
      let (same, absent, after) = add-inv w v u h in
      (
        same,
        ground arith,
        rw after
            (ground (arith, eq_iff v.vine_id v.vine_id, lookup-put v.vine_id v.vine_id v w.vines)),
        (λ k ne. rw after (ground (arith, eq_iff v.vine_id k, lookup-put v.vine_id k v w.vines))),
        Held-Kept (added v held),
      )
