-- ===== src/Workspace/Locks.antt =====
-- About locked vines in a decay cycle of workspace.py.
use echo_veil.Base.{
  ℕ, ◌≡◌, ◌≢◌, refl, Result-cases, ◌∙◌, inl, inr, true, false, not, List, [], ◌∷◌, some, String,
  Result, arith, All, All-take, filter, Bool-cases, length, ◌-◌,
}
use text.Mathlib.Text.{◌==◌}
use text.Mathlib.TextEquality.{eq_iff}
use echo_veil.Base.Dict.{Dict, lookup, values, Unique, lookup-put}
use echo_veil.Base.Int.{ℤ}
use echo_veil.Base.Floats.{Float, Number}
use echo_veil.Vectors.{Vector}
use echo_veil.Vine.{Vine, Codec}
use echo_veil.Workspace.{Workspace, is_live}
use echo_veil.Workspace.Decay.{decays, decay_vine}
use echo_veil.Workspace.Rounds.{decay_vine_immune}
use echo_veil.Workspace.Cycle.{
  Report, Swept, sweep, note_outcome, sort_vines, insert_vine, key_lt, evict_all, pack_active,
  enforce_capacity, then_enforce, after_sweep, prepare_cycle, run_decay_cycle,
}
use echo_veil.Workspace.Keyed.{Keyed, unlocked_other, Keyed-sweep, Unique-sweep}

module _ {F : Type 0} ⦃fl : Float F⦄ ⦃cd : Codec F⦄ where
  -- The loop leaves a vine that it does not look at.
  lookup-sweep :
      (k : String) (v : Vine F) (now : F) (scores : Dict F) (caller : Dict ℕ) (d : Dict (Vine F))
      (cycles : Dict ℕ) (r : Report)
      → lookup k d ≡ some v
      → decays v ≡ false
      → lookup k (sweep now scores caller d cycles r).vines ≡ some v
  unfolding sweep lookup
  lookup-sweep k v now scores caller [] cycles r e h = cc
  lookup-sweep k v now scores caller ((j, u) ∷ d) cycles r e h =
      elim (Result-cases (decay_vine now scores caller u cycles).outcome) [
        | inl (o, p) ↦
            rw (p, sweep)
              (ground (
                arith,
                decay_vine_immune now scores caller u cycles,
                lookup-sweep k v now scores caller d (decay_vine now scores caller u cycles).cycles
                    (note_outcome o u.vine_id r),
              ))
        | inr (x, p) ↦ rw (p, sweep) (ground (arith, decay_vine_immune now scores caller u cycles))
      ]

  -- Evicting vines with other ids leaves the vine at this one.
  lookup-evict_all :
      (k : String) (vs : List (Vine F)) (d : Dict (Vine F)) (cycles : Dict ℕ) (r : Report)
      → All (λ u. u.vine_id ≢ k) vs
      → lookup k (evict_all vs d cycles r).vines ≡ lookup k d
  unfolding evict_all
  lookup-evict_all k [] d cycles r h = refl
  lookup-evict_all k (u ∷ vs) d cycles r h = elim (Result-cases (pack_active u)) [
    | inl (w, p) ↦
        rw (p, evict_all)
          (lookup-evict_all k vs _ _ _ h.1 ∙ rw lookup-put (rw (text_ne u.vine_id k h.0)))
    | inr (x, p) ↦ rw (p, evict_all)
  ]
    where
      text_ne : (i k : String) → i ≢ k → (i == k) ≡ false
      text_ne i k ne = ground (arith, eq_iff i k)

  All-insert :
      (P : Vine F → Type 0) (v : Vine F) (vs : List (Vine F))
      → P v
      → All P vs
      → All P (insert_vine v vs)
  unfolding insert_vine
  All-insert P v [] h hs = (h, tt)
  All-insert P v (u ∷ us) h hs = elim (Bool-cases (key_lt u v)) [
    | inl e ↦ rw (e, insert_vine) ((hs.0, All-insert P v us h hs.1))
    | inr e ↦ rw (e, insert_vine) ((h, hs))
  ]

  All-sort : (P : Vine F → Type 0) (vs : List (Vine F)) → All P vs → All P (sort_vines vs)
  unfolding sort_vines
  All-sort P [] hs = tt
  All-sort P (v ∷ vs) hs = All-insert P v (sort_vines vs) hs.0 (All-sort P vs hs.1)

  All-unlocked :
      (k : String) (vs : List (Vine F))
      → All (λ u. u.locked ≡ false → u.vine_id ≢ k) vs
      → All (λ u. u.vine_id ≢ k) (filter (λ v. not v.locked) (filter is_live vs))
  All-unlocked k [] h = tt
  All-unlocked k (v ∷ vs) h = elim (Bool-cases (is_live v)) [
    | inr e ↦ rw e (All-unlocked k vs h.1)
    | inl e ↦ elim (Bool-cases v.locked) [
      | inl l ↦ rw (e, l) (All-unlocked k vs h.1)
      | inr l ↦ rw (e, l) ((h.0 l, All-unlocked k vs h.1))
    ]
  ]

  lookup-enforce_capacity :
      (k : String) (v : Vine F) (capacity : ℕ) (d : Dict (Vine F)) (cycles : Dict ℕ) (r : Report)
      → Keyed d
      → Unique d
      → lookup k d ≡ some v
      → v.locked ≡ true
      → lookup k (enforce_capacity capacity d cycles r).vines ≡ some v
  unfolding enforce_capacity
  lookup-enforce_capacity k v capacity d cycles r h u e l = ground (
    arith,
    lookup-evict_all k _ d cycles r (
        All-take (λ u. u.vine_id ≢ k) (length (filter is_live (values d)) - capacity) _
          (All-sort (λ u. u.vine_id ≢ k) _ (All-unlocked k _ (unlocked_other k v d h u e l)))),
  )

  lookup-then_enforce :
      (k : String) (v : Vine F) (capacity : ℕ) (s : Swept F)
      → Keyed s.vines
      → Unique s.vines
      → lookup k s.vines ≡ some v
      → v.locked ≡ true
      → lookup k (then_enforce capacity s).vines ≡ some v
  unfolding then_enforce
  lookup-then_enforce k v capacity s h u e l = elim (Result-cases s.report) [
    | inl (r, p) ↦
        rw (p, then_enforce) (lookup-enforce_capacity k v capacity s.vines s.cycles r h u e l)
    | inr (x, p) ↦ rw (p, then_enforce) e
  ]

  -- A vine under an amber lock is as it was after any run of the decay cycle, whether the cycle
  -- reports or raises and whatever the scorer does, in a workspace that keeps each vine once, under
  -- its own id.
  pub run_decay_cycle_keeps_locked :
      (w : Workspace F) (intent : Vector F) (now : Number F) (cycles : List (String × ℤ))
      (score : Vector F → Vine F → F → Result F) (k : String) (v : Vine F)
      → Keyed w.vines
      → Unique w.vines
      → lookup k w.vines ≡ some v
      → v.locked ≡ true
      → lookup k (run_decay_cycle w intent now cycles score).1.vines ≡ some v
  unfolding run_decay_cycle after_sweep
  run_decay_cycle_keeps_locked w intent now cycles score k v h u e l =
      elim (Result-cases (prepare_cycle w intent now cycles score)) [
        | inl (x, p) ↦
            rw (p, run_decay_cycle)
              (lookup-then_enforce k v w.capacity _ (Keyed-sweep x.0 _ _ _ _ _ h)
                (Unique-sweep x.0 _ _ _ _ _ u)
                (lookup-sweep k v x.0 _ _ _ _ _ e (unfold decays in ground arith)) l)
        | inr (x, p) ↦ rw (p, run_decay_cycle) e
      ]
