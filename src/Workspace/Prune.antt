-- ===== src/Workspace/Prune.antt =====
-- What `prune_evicted` of workspace.py takes and leaves.
use echo_veil.Base.{
  ◌≡◌, refl, subst, inl, inr, Bool, true, false, not, ◌&&◌, List, [], ◌∷◌, Option, none, some,
  String, arith, filter, Bool-cases, and-eq-true, if◌then◌else◌,
}
use text.Mathlib.Text.{◌==◌}
use text.Mathlib.TextEquality.{eq_iff}
use echo_veil.Base.Dict.{Dict, lookup, without, lookup-without, Unique}
use echo_veil.Vine.{Vine, evicted}
use echo_veil.Workspace.{
  Workspace, state_eq, listed, without_all, prunable, prune_ids, prune_evicted,
}

-- What a sweep of `pop` leaves under a key.
pub lookup-without_all :
    {V : Type 0} (k : String) (ks : List String) (d : Dict V)
    → lookup k (without_all ks d) ≡ (if listed k ks then none else lookup k d)
unfolding without_all listed
lookup-without_all k [] d = refl
lookup-without_all k (j ∷ ks) d =
    ground (arith, lookup-without_all k ks (without j d), lookup-without j k d)

listed-filter :
    (k : String) (ids cs : List String)
    → listed k (filter (λ c. not (listed c ids)) cs) ≡ listed k cs && not (listed k ids)
unfolding listed
listed-filter k ids [] = refl
listed-filter k ids (c ∷ cs) = elim (Bool-cases (c == k)) [
  | inl e ↦ (let same = (eq_iff c k).0 e in ground (arith, listed-filter k ids cs))
  | inr e ↦ ground (arith, listed-filter k ids cs)
]

-- Whether the caller asked for the key, where it asked for any.
abbrev pub is_wanted : Option (List String) → String → Bool
is_wanted none k = true
is_wanted (some ids) k = listed k ids

module _ {F : Type 0} where
  -- Only vines that may go are listed.
  prune_ids-prunable :
      (requested : Option (List String)) (k : String) (d : Dict (Vine F))
      → Unique d
      → listed k (prune_ids requested d) ≡ true
      → (v : Vine F) × (lookup k d ≡ some v) × (prunable requested k v ≡ true)
  unfolding prune_ids listed lookup
  prune_ids-prunable requested k [] u h = cc
  prune_ids-prunable requested k ((j, w) ∷ d) u h = elim (Bool-cases (j == k)) [
    | inl e ↦ elim (Bool-cases (prunable requested j w)) [
      | inl p ↦ (w, rw e, subst (λ i. prunable requested i w ≡ true) ((eq_iff j k).0 e) p)
      | inr p ↦
          (let (v, f, q) = prune_ids-prunable requested k d u.1 (rw p at h) in
            let gone = subst (λ i. lookup i d ≡ none) ((eq_iff j k).0 e) u.0 in cc)
    ]
    | inr e ↦ elim (Bool-cases (prunable requested j w)) [
      | inl p ↦
          (let (v, f, q) = prune_ids-prunable requested k d u.1 (rw e at (rw p at h)) in
            (v, rw e f, q))
      | inr p ↦ (let (v, f, q) = prune_ids-prunable requested k d u.1 (rw p at h) in (v, rw e f, q))
    ]
  ]

  prunable_evicted :
      (requested : Option (List String)) (k : String) (v : Vine F)
      → prunable requested k v ≡ true
      → (state_eq v.state evicted ≡ true) × (is_wanted requested k ≡ true)
  unfolding prunable
  prunable_evicted none k v h = (h, refl)
  prunable_evicted (some ids) k v h = and-eq-true _ _ h

  -- In a workspace that keeps each vine once, pruning takes only evicted vines, of the requested ids
  -- where there are any, and leaves no counter and no crest of theirs; every other key keeps its vine,
  -- its counter and its crest.
  pub prune_evicted_clean :
      (w : Workspace F) (requested : Option (List String)) (k : String)
      → Unique w.vines
      → (listed k (prune_evicted w requested).0 ≡ true
          → ((v : Vine F) × (lookup k w.vines ≡ some v)
              × (state_eq v.state evicted ≡ true)
              × (is_wanted requested k ≡ true))
            × (lookup k (prune_evicted w requested).1.vines ≡ none)
            × (lookup k (prune_evicted w requested).1.twilight_cycles ≡ none)
            × (listed k (prune_evicted w requested).1.crests ≡ false))
        × (listed k (prune_evicted w requested).0 ≡ false
            → (lookup k (prune_evicted w requested).1.vines ≡ lookup k w.vines)
              × (lookup k (prune_evicted w requested).1.twilight_cycles
                  ≡ lookup k w.twilight_cycles)
              × (listed k (prune_evicted w requested).1.crests ≡ listed k w.crests))
  unfolding prune_evicted
  prune_evicted_clean w requested k u = (
    λ h. (
      (let (v, e, p) = prune_ids-prunable requested k w.vines u h in
          let q = prunable_evicted requested k v p in (v, e, q.0, q.1)),
      rw (lookup-without_all k (prune_ids requested w.vines) w.vines, h),
      rw (lookup-without_all k (prune_ids requested w.vines) w.twilight_cycles, h),
      ground (arith, listed-filter k (prune_ids requested w.vines) w.crests),
    ),
    λ h. (
      rw (lookup-without_all k (prune_ids requested w.vines) w.vines, h),
      rw (lookup-without_all k (prune_ids requested w.vines) w.twilight_cycles, h),
      ground (arith, listed-filter k (prune_ids requested w.vines) w.crests),
    ),
  )
