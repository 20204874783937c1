-- ===== src/Workspace/Kept.antt =====
-- The workspaces that calls of the methods of workspace.py leave, and the keys of their vines.
use echo_veil.Base.{
  ℕ, ◌≡◌, refl, sym, subst, ◌∙◌, ◌⊎◌, inl, inr, true, false, not, List, [], ◌∷◌, Option, some,
  String, Result, ok, arith, Result-cases, Option-cases, Bool-cases, ◌-◌, take, filter, length,
}
use text.Mathlib.TextEquality.{eq_iff}
use echo_veil.Base.Dict.{
  Dict, lookup, has, put, without, Unique, put-Unique, without-Unique, values,
}
use echo_veil.Base.Int.{ℤ}
use echo_veil.Base.Floats.{Float, Number}
use echo_veil.Vectors.{Vector}
use echo_veil.Vine.{Vine, VineState, active, twilight, evicted, Codec, touch, compress}
use echo_veil.Workspace.{
  is_live, Workspace, add, join_dimension, vine_dimension, remove, lock, lock_vine, unlock,
  prune_ids, prune_evicted, without_all,
}
use echo_veil.Workspace.Decay.{set_crests, reinforce, reinforce_twilight, touch_in, snap_back, wake}
use echo_veil.Workspace.Rounds.{wake-Keeps}
use echo_veil.Workspace.Cycle.{
  sort_vines, Report, Swept, evict_all, pack_active, enforce_capacity, then_enforce, after_sweep,
  prepare_cycle, run_decay_cycle,
}
use echo_veil.Workspace.Keyed.{Keyed, Keyed-put, Keyed-sweep, Unique-sweep}

VineState-cases : (s : VineState) → (s ≡ active) ⊎ ((s ≡ twilight) ⊎ (s ≡ evicted))
VineState-cases active = inl refl
VineState-cases twilight = inr (inl refl)
VineState-cases evicted = inr (inr refl)

module _ {F : Type 0} where
  -- Each vine once, under its own id.
  abbrev pub Kept : Dict (Vine F) → Type 0
  Kept d = Keyed d × Unique d

  Kept-put :
      (k : String) (v : Vine F) (d : Dict (Vine F)) → v.vine_id ≡ k → Kept d → Kept (put k v d)
  Kept-put k v d e h = (Keyed-put k v d e h.0, put-Unique k v d h.1)

  Keyed-without : (k : String) (d : Dict (Vine F)) → Keyed d → Keyed (without k d)
  unfolding without
  Keyed-without k [] h = tt
  Keyed-without k ((j, v) ∷ d) h = ground (arith, Keyed-without k d h.1)

  Kept-without : (k : String) (d : Dict (Vine F)) → Kept d → Kept (without k d)
  Kept-without k d h = (Keyed-without k d h.0, without-Unique k d h.1)

  Kept-without_all : (ks : List String) (d : Dict (Vine F)) → Kept d → Kept (without_all ks d)
  unfolding without_all
  Kept-without_all [] d h = h
  Kept-without_all (k ∷ ks) d h = Kept-without_all ks (without k d) (Kept-without k d h)

  -- The vine that stands under a key has the key as its id.
  id_of :
      (k : String) (v : Vine F) (d : Dict (Vine F)) → Keyed d → lookup k d ≡ some v → v.vine_id ≡ k
  unfolding lookup
  id_of k v [] h e = cc
  id_of k v ((j, u) ∷ d) h e = ground (arith, eq_iff j k, id_of k v d h.1)

  add-Kept : (w : Workspace F) (v : Vine F) → Kept w.vines → Kept (add w v).1.vines
  unfolding add
  add-Kept w v h = elim (Bool-cases (has v.vine_id w.vines)) [
    | inl e ↦ rw (e, add) h
    | inr e ↦ elim (Result-cases (join_dimension w.dimension (vine_dimension v))) [
      | inl (d, p) ↦ rw (e, p, add) (Kept-put v.vine_id v w.vines refl h)
      | inr (x, p) ↦ rw (e, p, add) h
    ]
  ]

  remove-Kept : (w : Workspace F) (k : String) → Kept w.vines → Kept (remove w k).1.vines
  unfolding remove
  remove-Kept w k h = ground (arith, Kept-without k w.vines h)

  lock_vine-Kept :
      (w : Workspace F) (k : String) (v : Vine F)
      → lookup k w.vines ≡ some v
      → Kept w.vines
      → Kept (lock_vine w k v).1.vines
  unfolding lock_vine
  lock_vine-Kept w k v e h =
      ground (arith, Kept-put k (record v { locked = true }) w.vines (id_of k v w.vines h.0 e) h)

  lock-Kept : (w : Workspace F) (k : String) → Kept w.vines → Kept (lock w k).1.vines
  unfolding lock
  lock-Kept w k h = elim (Option-cases (lookup k w.vines)) [
    | inl n ↦ rw (n, lock) h
    | inr (v, e) ↦ rw (e, lock) (lock_vine-Kept w k v e h)
  ]

  unlock-Kept : (w : Workspace F) (k : String) → Kept w.vines → Kept (unlock w k).1.vines
  unfolding unlock
  unlock-Kept w k h = elim (Option-cases (lookup k w.vines)) [
    | inl n ↦ rw (n, unlock) h
    | inr (v, e) ↦
        rw (e, unlock)
          (Kept-put k (record v { locked = false }) w.vines (id_of k v w.vines h.0 e) h)
  ]

  prune_evicted-Kept :
      (w : Workspace F) (ids : Option (List String))
      → Kept w.vines
      → Kept (prune_evicted w ids).1.vines
  unfolding prune_evicted
  prune_evicted-Kept w ids h = Kept-without_all (prune_ids ids w.vines) w.vines h

  set_crests-same : (w : Workspace F) (ids : List String) → (set_crests w ids).1.vines ≡ w.vines
  unfolding set_crests
  set_crests-same w ids = ground arith

module _ {F : Type 0} ⦃fl : Float F⦄ ⦃cd : Codec F⦄ where
  touch_id : (v u : Vine F) (now : Number F) → touch v now ≡ ok u → u.vine_id ≡ v.vine_id
  unfolding touch
  touch_id v u now h = ground arith

  touch_in-Kept :
      (k : String) (v : Vine F) (now : Number F) (w : Workspace F)
      → v.vine_id ≡ k
      → Kept w.vines
      → Kept (touch_in k v now w).1.vines
  unfolding touch_in
  touch_in-Kept k v now w e h = elim (Result-cases (touch v now)) [
    | inl (u, p) ↦ rw (p, touch_in) (Kept-put k u w.vines (touch_id v u now p ∙ e) h)
    | inr (x, p) ↦ rw (p, touch_in) h
  ]

  snap_back_id : (v : Vine F) → (snap_back v).vine_id ≡ v.vine_id
  unfolding snap_back
  snap_back_id v = refl

  reinforce_twilight-Kept :
      (k : String) (v : Vine F) (now : Number F) (w : Workspace F)
      → v.vine_id ≡ k
      → Kept w.vines
      → Kept (reinforce_twilight k v now w).1.vines
  unfolding reinforce_twilight
  reinforce_twilight-Kept k v now w e h = elim (Result-cases (wake v)) [
    | inl (u, p) ↦
        (let same = snap_back_id u ∙ ((wake-Keeps v u p).0.same_id ∙ e) in
          rw (p, reinforce_twilight)
            (touch_in-Kept k (snap_back u) now _ same (Kept-put k (snap_back u) w.vines same h)))
    | inr (x, p) ↦ rw (p, reinforce_twilight) h
  ]

  reinforce-Kept :
      (w : Workspace F) (k : String) (now : Number F)
      → Kept w.vines
      → Kept (reinforce w k now).1.vines
  unfolding reinforce
  reinforce-Kept w k now h = elim (Option-cases (lookup k w.vines)) [
    | inl n ↦ rw (n, reinforce) h
    | inr (v, e) ↦
        (let same = id_of k v w.vines h.0 e in
          elim (VineState-cases v.state) [
            | inl s ↦ rw (e, s, reinforce) (touch_in-Kept k v now w same h)
            | inr (inl s) ↦ rw (e, s, reinforce) (reinforce_twilight-Kept k v now w same h)
            | inr (inr s) ↦ rw (e, s, reinforce) h
          ])
  ]

  pack_active_id : (v u : Vine F) → pack_active v ≡ ok u → u.vine_id ≡ v.vine_id
  unfolding pack_active compress
  pack_active_id v u h = ground arith

  evict_all-Kept :
      (vs : List (Vine F)) (d : Dict (Vine F)) (cycles : Dict ℕ) (r : Report)
      → Kept d
      → Kept (evict_all vs d cycles r).vines
  unfolding evict_all
  evict_all-Kept [] d cycles r h = h
  evict_all-Kept (u ∷ vs) d cycles r h = elim (Result-cases (pack_active u)) [
    | inl (w, p) ↦
        rw (p, evict_all)
          (evict_all-Kept vs _ _ _
            (Kept-put u.vine_id (record w { state = evicted }) d (pack_active_id u w p) h))
    | inr (x, p) ↦ rw (p, evict_all) h
  ]

  enforce_capacity-Kept :
      (capacity : ℕ) (d : Dict (Vine F)) (cycles : Dict ℕ) (r : Report)
      → Kept d
      → Kept (enforce_capacity capacity d cycles r).vines
  unfolding enforce_capacity
  enforce_capacity-Kept capacity d cycles r h = ground (
    arith,
    evict_all-Kept
        (take (length (filter is_live (values d)) - capacity)
          (sort_vines (filter (λ v. not v.locked) (filter is_live (values d)))))
        d cycles r h,
  )

  then_enforce-Kept :
      (capacity : ℕ) (s : Swept F) → Kept s.vines → Kept (then_enforce capacity s).vines
  unfolding then_enforce
  then_enforce-Kept capacity s h = elim (Result-cases s.report) [
    | inl (r, p) ↦ rw (p, then_enforce) (enforce_capacity-Kept capacity s.vines s.cycles r h)
    | inr (x, p) ↦ rw (p, then_enforce) h
  ]

  run_decay_cycle-Kept :
      (w : Workspace F) (intent : Vector F) (now : Number F) (cycles : List (String × ℤ))
      (score : Vector F → Vine F → F → Result F)
      → Kept w.vines
      → Kept (run_decay_cycle w intent now cycles score).1.vines
  unfolding run_decay_cycle after_sweep
  run_decay_cycle-Kept w intent now cycles score h =
      elim (Result-cases (prepare_cycle w intent now cycles score)) [
        | inl (x, p) ↦
            rw (p, run_decay_cycle)
              (then_enforce-Kept w.capacity _
                (Keyed-sweep x.0 _ _ _ _ _ h.0, Unique-sweep x.0 _ _ _ _ _ h.1))
        | inr (x, p) ↦ rw (p, run_decay_cycle) h
      ]

  -- The workspaces that a program can hold: an empty one, and what any method leaves, whether it
  -- returns or raises.
  pub data Held : Workspace F → Type 0 where
    empty : (w : Workspace F) → w.vines ≡ [] → Held w
    added : {w : Workspace F} (v : Vine F) → Held w → Held (add w v).1
    removed : {w : Workspace F} (k : String) → Held w → Held (remove w k).1
    locked : {w : Workspace F} (k : String) → Held w → Held (lock w k).1
    unlocked : {w : Workspace F} (k : String) → Held w → Held (unlock w k).1
    crested : {w : Workspace F} (ids : List String) → Held w → Held (set_crests w ids).1
    reinforced :
        {w : Workspace F} (k : String) (now : Number F) → Held w → Held (reinforce w k now).1
    decayed :
        {w : Workspace F} (intent : Vector F) (now : Number F) (cycles : List (String × ℤ))
        (score : Vector F → Vine F → F → Result F)
        → Held w
        → Held (run_decay_cycle w intent now cycles score).1
    pruned : {w : Workspace F} (ids : Option (List String)) → Held w → Held (prune_evicted w ids).1

  pub Held-Kept : {w : Workspace F} → Held w → Kept w.vines
  Held-Kept (empty w e) = subst Kept (sym e) (tt, tt)
  Held-Kept (added v i) = add-Kept _ v (Held-Kept i)
  Held-Kept (removed k i) = remove-Kept _ k (Held-Kept i)
  Held-Kept (locked k i) = lock-Kept _ k (Held-Kept i)
  Held-Kept (unlocked k i) = unlock-Kept _ k (Held-Kept i)
  Held-Kept (crested {w} ids i) = subst Kept (sym (set_crests-same w ids)) (Held-Kept i)
  Held-Kept (reinforced k now i) = reinforce-Kept _ k now (Held-Kept i)
  Held-Kept (decayed intent now cycles score i) =
      run_decay_cycle-Kept _ intent now cycles score (Held-Kept i)
  Held-Kept (pruned ids i) = prune_evicted-Kept _ ids (Held-Kept i)
