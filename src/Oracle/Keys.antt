-- ===== src/Oracle/Keys.antt =====
-- The keys of the workspace through a decay cycle and a sweep of `pop`, for the proofs about oracle.py.
use echo_veil.Base.{
  ℕ, ◌≡◌, refl, ◌∙◌, inl, inr, true, false, not, String, Result, arith, List, [], ◌∷◌, Result-cases,
  take, filter, length, ◌-◌,
}
use text.Mathlib.TextEquality.{eq_iff}
use echo_veil.Base.Int.{ℤ}
use echo_veil.Base.Dict.{Dict, lookup, has, put, lookup-put, values}
use echo_veil.Base.Floats.{Float, Number}
use echo_veil.Vectors.{Vector}
use echo_veil.Vine.{Vine, Codec}
use echo_veil.Workspace.{Workspace, listed, is_live, without_all}
use echo_veil.Workspace.Decay.{decay_vine}
use echo_veil.Workspace.Cycle.{
  note_outcome, sort_vines, Report, Swept, sweep, evict_all, pack_active, enforce_capacity,
  then_enforce, after_sweep, prepare_cycle, run_decay_cycle,
}
use echo_veil.Workspace.Prune.{lookup-without_all}

module _ {V : Type 0} where
  pub has-put : (k j : String) (v : V) (d : Dict V) → has j d ≡ true → has j (put k v d) ≡ true
  has-put k j v d h = ground (arith, lookup-put k j v d)

  pub has-put_same : (k : String) (v : V) (d : Dict V) → has k (put k v d) ≡ true
  has-put_same k v d = ground (arith, eq_iff k k, lookup-put k k v d)

  pub has-without_all :
      (k : String) (ks : List String) (d : Dict V)
      → has k d ≡ true
      → listed k ks ≡ false
      → has k (without_all ks d) ≡ true
  has-without_all k ks d h e = ground (arith, lookup-without_all k ks d)

module _ {F : Type 0} ⦃fl : Float F⦄ ⦃cd : Codec F⦄ where
  -- A decay cycle drops no key.
  has-sweep :
      (k : String) (now : F) (scores : Dict F) (caller : Dict ℕ) (d : Dict (Vine F))
      (cycles : Dict ℕ) (r : Report)
      → has k (sweep now scores caller d cycles r).vines ≡ has k d
  unfolding sweep lookup
  has-sweep k now scores caller [] cycles r = refl
  has-sweep k now scores caller ((j, u) ∷ d) cycles r =
      elim (Result-cases (decay_vine now scores caller u cycles).outcome) [
        | inl (o, p) ↦
            rw (p, sweep)
              (ground (
                arith,
                has-sweep k now scores caller d (decay_vine now scores caller u cycles).cycles
                    (note_outcome o u.vine_id r),
              ))
        | inr (x, p) ↦ rw (p, sweep) (ground arith)
      ]

  has-evict_all :
      (k : String) (vs : List (Vine F)) (d : Dict (Vine F)) (cycles : Dict ℕ) (r : Report)
      → has k d ≡ true
      → has k (evict_all vs d cycles r).vines ≡ true
  unfolding evict_all
  has-evict_all k [] d cycles r h = h
  has-evict_all k (u ∷ vs) d cycles r h = elim (Result-cases (pack_active u)) [
    | inl (w, p) ↦ rw (p, evict_all) (has-evict_all k vs _ _ _ (has-put u.vine_id k _ d h))
    | inr (x, p) ↦ rw (p, evict_all) h
  ]

  has-enforce_capacity :
      (k : String) (capacity : ℕ) (d : Dict (Vine F)) (cycles : Dict ℕ) (r : Report)
      → has k d ≡ true
      → has k (enforce_capacity capacity d cycles r).vines ≡ true
  unfolding enforce_capacity
  has-enforce_capacity k capacity d cycles r h = ground (
    arith,
    has-evict_all k
        (take (length (filter is_live (values d)) - capacity)
          (sort_vines (filter (λ v. not v.locked) (filter is_live (values d)))))
        d cycles r h,
  )

  has-then_enforce :
      (k : String) (capacity : ℕ) (s : Swept F)
      → has k s.vines ≡ true
      → has k (then_enforce capacity s).vines ≡ true
  unfolding then_enforce
  has-then_enforce k capacity s h = elim (Result-cases s.report) [
    | inl (r, p) ↦ rw (p, then_enforce) (has-enforce_capacity k capacity s.vines s.cycles r h)
    | inr (x, p) ↦ rw (p, then_enforce) h
  ]

  pub has-run_decay_cycle :
      (k : String) (w : Workspace F) (intent : Vector F) (now : Number F)
      (cycles : List (String × ℤ)) (score : Vector F → Vine F → F → Result F)
      → has k w.vines ≡ true
      → has k (run_decay_cycle w intent now cycles score).1.vines ≡ true
  unfolding run_decay_cycle after_sweep
  has-run_decay_cycle k w intent now cycles score h =
      elim (Result-cases (prepare_cycle w intent now cycles score)) [
        | inl (x, p) ↦
            rw (p, run_decay_cycle)
              (has-then_enforce k w.capacity _ (has-sweep k x.0 _ _ w.vines _ _ ∙ h))
        | inr (x, p) ↦ rw (p, run_decay_cycle) h
      ]
