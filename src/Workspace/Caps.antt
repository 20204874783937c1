-- ===== src/Workspace/Caps.antt =====
-- The lock cap of workspace.py.
use echo_veil.Base.{
  ℕ, suc, ◌≤◌, ◌≡◌, refl, inl, inr, Bool, true, [], ◌∷◌, some, String, Result, ok, arith, count,
  Bool-cases, Option-cases, leb,
}
use text.Mathlib.TextEquality.{eq_iff}
use echo_veil.Base.Dict.{Dict, lookup, put, values, lookup-put}
use echo_veil.Vine.{Vine, evicted}
use echo_veil.Workspace.{Workspace, max_amber_locks, lock, lock_vine, state_eq}

module _ {F : Type 0} where
  -- The vines under an amber lock.
  abbrev pub locked_count : Workspace F → ℕ
  locked_count w = count (λ v. v.locked) (values w.vines)

  -- A value put in the place of another counts for one more at most.
  count-put :
      (p : Vine F → Bool) (k : String) (v u : Vine F) (d : Dict (Vine F))
      → lookup k d ≡ some u
      → count p (values (put k v d)) ≤ suc (count p (values d))
  unfolding lookup put values
  count-put p k v u [] h = cc
  count-put p k v u ((j, w) ∷ d) h = ground (arith, count-put p k v u d)

  -- The result of locking: the cap holds, and a call that returns leaves the vine locked.
  abbrev pub Locked : String → Result (Unit {0}) × Workspace F → Type 0
  Locked k r =
      (locked_count r.1 ≤ max_amber_locks)
      × (r.0 ≡ ok tt → (v : Vine F) × (lookup k r.1.vines ≡ some v) × (v.locked ≡ true))

  lock_vine-Locked :
      (w : Workspace F) (k : String) (v : Vine F)
      → lookup k w.vines ≡ some v
      → locked_count w ≤ max_amber_locks
      → Locked k (lock_vine w k v)
  unfolding lock_vine
  lock_vine-Locked w k v e h = elim (Bool-cases (state_eq v.state evicted)) [
    | inl s ↦ rw (s, lock_vine) ((h, λ x. cc x))
    | inr s ↦ elim (Bool-cases v.locked) [
      | inl l ↦ rw (s, l, lock_vine) ((h, λ x. (v, e, l)))
      | inr l ↦ elim (Bool-cases (leb max_amber_locks (locked_count w))) [
        | inl m ↦ rw (s, l, m, lock_vine) ((h, λ x. cc x))
        | inr m ↦
            rw (s, l, m, lock_vine)
              ((
                ground
                    (arith, count-put (λ u. u.locked) k (record v { locked = true }) v w.vines e),
                λ x. (
                  record v { locked = true },
                  ground (arith, eq_iff k k, lookup-put k k (record v { locked = true }) w.vines),
                  refl,
                ),
              ))
      ]
    ]
  ]

  -- From a workspace with at most twelve amber locks a call of `lock` leaves one with at most twelve,
  -- and after a call that returns the vine is there and locked.
  pub lock-Locked :
      (w : Workspace F) (k : String) → locked_count w ≤ max_amber_locks → Locked k (lock w k)
  unfolding lock
  lock-Locked w k h = elim (Option-cases (lookup k w.vines)) [
    | inl n ↦ rw (n, lock) ((h, λ x. cc x))
    | inr (v, e) ↦ rw (e, lock) (lock_vine-Locked w k v e h)
  ]
