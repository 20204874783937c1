-- ===== src/Workspace/Rounds.antt =====
-- What one round of the decay loop does to one vine: the state machine of workspace.py.
use echo_veil.Base.{
  ℕ, ◌≤◌, ◌≡◌, refl, sym, subst, inl, inr, Bool, true, false, Option, none, some, Result, ok, err,
  key_error, arith, Bool-cases,
}
use echo_veil.Base.Dict.{Dict, lookup}
use echo_veil.Base.Floats.{Float, float, to_float}
use echo_veil.Vine.{
  Vine, VineState, active, twilight, evicted, Codec, touch, compress, decompress,
  validate_timestamp,
}
use echo_veil.Workspace.{state_eq, twilight_minutes, twilight_threshold}
use echo_veil.Workspace.Decay.{
  wake, snap_back, pack, twilight_expired, decays, Outcome, Round, rouse, demote, wane, waning,
  conclude, by_state, decay_vine, next_count,
}

module _ {F : Type 0} ⦃fl : Float F⦄ ⦃cd : Codec F⦄ where
  -- What a call keeps of a vine: who it is and whether it is locked.
  pub record Keeps (v u : Vine F) : Type 0 where
    pub same_id : u.vine_id ≡ v.vine_id
    pub same_lock : u.locked ≡ v.locked
    pub same_protected : u.protected_anchor ≡ v.protected_anchor

  pub wake-Keeps :
      (v u : Vine F) → wake v ≡ ok u → Keeps v u × (u.state ≡ v.state) × (u.score ≡ v.score)
  unfolding wake decompress
  wake-Keeps v u h = ground arith

  pub pack-Keeps : (v u : Vine F) → pack v ≡ ok u → Keeps v u × (u.state ≡ v.state)
  unfolding pack compress
  pack-Keeps v u h = ground arith

  pub touch-Keeps :
      (v u : Vine F) (now : F) → touch v (float now) ≡ ok u → Keeps v u × (u.state ≡ v.state)
  unfolding touch
  touch-Keeps v u now h = ground arith

  rouse-Keeps : (now : F) (v : Vine F) (cycles : Dict ℕ) → Keeps v (rouse now v cycles).vine
  unfolding rouse snap_back wake decompress touch
  rouse-Keeps now v cycles = ground arith

  demote-Keeps : (now : F) (v : Vine F) (cycles : Dict ℕ) → Keeps v (demote now v cycles).vine
  unfolding demote pack compress
  demote-Keeps now v cycles = ground arith

  wane-Keeps :
      (now : F) (caller : Dict ℕ) (v : Vine F) (cycles : Dict ℕ)
      → Keeps v (wane now caller v cycles).vine
  unfolding wane waning conclude
  wane-Keeps now caller v cycles = ground arith

  by_state-Keeps :
      (now : F) (caller : Dict ℕ) (st : VineState) (v : Vine F) (cycles : Dict ℕ)
      → Keeps v (by_state now caller st v cycles).vine
  unfolding by_state
  by_state-Keeps now caller active v cycles = ground (arith, demote-Keeps now v cycles)
  by_state-Keeps now caller twilight v cycles =
      ground (arith, rouse-Keeps now v cycles, wane-Keeps now caller v cycles)
  by_state-Keeps now caller evicted v cycles = ground arith

  -- A round keeps the id, the lock and the protected anchor of the vine, whether or not it raises.
  pub decay_vine-Keeps :
      (now : F) (scores : Dict F) (caller : Dict ℕ) (v : Vine F) (cycles : Dict ℕ)
      → Keeps v (decay_vine now scores caller v cycles).vine
  unfolding decay_vine
  decay_vine-Keeps now scores caller v cycles = elim (Bool-cases (decays v)) [
    | inl d ↦ rw d (scored (lookup v.vine_id scores))
    | inr n ↦ rw n (record { same_id = refl; same_lock = refl; same_protected = refl })
  ]
    where
      scored :
          (o : Option F)
          → Keeps v
              (let r : Round F = elim o [
                | none ↦ record { outcome = err key_error; vine = v; cycles = cycles }
                | some s ↦ by_state now caller v.state (record v { score = s }) cycles
              ] in
                r).vine
      scored none = record { same_id = refl; same_lock = refl; same_protected = refl }
      scored (some s) =
          let k = by_state-Keeps now caller v.state (record v { score = s }) cycles in
          record { same_id = k.same_id; same_lock = k.same_lock; same_protected = k.same_protected }

  -- A vine that is locked or evicted is left as it is.
  pub decay_vine_immune :
      (now : F) (scores : Dict F) (caller : Dict ℕ) (v : Vine F) (cycles : Dict ℕ)
      → decays v ≡ false
      → (decay_vine now scores caller v cycles).vine ≡ v
  unfolding decay_vine
  decay_vine_immune now scores caller v cycles h = rw h

  -- The start of the twilight: a vine without one starts now.
  abbrev pub started : F → Option F → F
  started now none = now
  started now (some t) = t

  -- The moves of a vine's life cycle in one round, with the score it gets and its new counter.
  pub data Life (now : F) (v : Vine F) (score : F) (n : ℕ) : VineState → VineState → Type 0 where
    thrive : fl.lt score twilight_threshold ≡ false → Life now v score n active active
    fade : fl.lt score twilight_threshold ≡ true → Life now v score n active twilight
    return : fl.le twilight_threshold score ≡ true → Life now v score n twilight active
    linger : fl.le twilight_threshold score ≡ false → Life now v score n twilight twilight
    dissolve :
        fl.le twilight_threshold score ≡ false
        → 5 ≤ n
        → fl.le
            (fl.decimal twilight_minutes 0)
            (fl.div (fl.sub now (started now v.twilight_since)) (fl.decimal 60 0))
          ≡ true
        → Life now v score n twilight evicted

  expired_needs :
      (v : Vine F) (now since : F) (n : ℕ)
      → v.twilight_since ≡ some since
      → twilight_expired v now n ≡ ok true
      → (5 ≤ n)
        × (fl.le (fl.decimal twilight_minutes 0) (fl.div (fl.sub now since) (fl.decimal 60 0))
            ≡ true)
  unfolding twilight_expired validate_timestamp to_float
  expired_needs v now since n e h = ground arith

  since_waning :
      (now : F) (v : Vine F) → (waning now v).twilight_since ≡ some (started now v.twilight_since)
  unfolding waning
  since_waning now v = ground arith

  Life-concluded :
      (now : F) (v w : Vine F) (score : F) (n : ℕ) (counted : Dict ℕ) (r : Result Bool)
      (o : Outcome)
      → fl.le twilight_threshold score ≡ false
      → w.state ≡ twilight
      → (r ≡ ok true
          → (5 ≤ n)
            × (fl.le
                  (fl.decimal twilight_minutes 0)
                  (fl.div (fl.sub now (started now v.twilight_since)) (fl.decimal 60 0))
                ≡ true))
      → (conclude r w counted).outcome ≡ ok o
      → Life now v score n twilight (conclude r w counted).vine.state
  unfolding conclude
  Life-concluded now v w score n counted (err e) o h t x k = cc
  Life-concluded now v w score n counted (ok true) o h t x k = dissolve h (x refl).0 (x refl).1
  Life-concluded now v w score n counted (ok false) o h t x k = rw t (linger h)

  Life-wane :
      (now : F) (caller : Dict ℕ) (v : Vine F) (score : F) (cycles : Dict ℕ) (o : Outcome)
      → fl.le twilight_threshold score ≡ false
      → v.state ≡ twilight
      → (wane now caller (record v { score = score }) cycles).outcome ≡ ok o
      → Life now v score
          (next_count caller v.vine_id cycles)
          twilight
          (wane now caller (record v { score = score }) cycles).vine.state
  unfolding wane
  Life-wane now caller v score cycles o h t k =
      Life-concluded now v (waning now u) score n _ _ o h (unfold waning in t)
        (expired_needs (waning now u) now (started now v.twilight_since) n (since_waning now u)) k
    where
      u : Vine F
      u = record v { score = score }

      n : ℕ
      n = next_count caller v.vine_id cycles

  roused :
      (now : F) (u : Vine F) (cycles : Dict ℕ) (o : Outcome)
      → (rouse now u cycles).outcome ≡ ok o
      → (rouse now u cycles).vine.state ≡ active
  unfolding rouse snap_back touch
  roused now u cycles o k = ground arith

  faded :
      (now : F) (u : Vine F) (cycles : Dict ℕ) (o : Outcome)
      → (demote now u cycles).outcome ≡ ok o
      → (demote now u cycles).vine.state ≡ twilight
  unfolding demote pack compress
  faded now u cycles o k = ground arith

  Life-by_state :
      (now : F) (caller : Dict ℕ) (st : VineState) (v : Vine F) (score : F) (cycles : Dict ℕ)
      (o : Outcome)
      → v.state ≡ st
      → state_eq st evicted ≡ false
      → (by_state now caller st (record v { score = score }) cycles).outcome ≡ ok o
      → Life now v score
          (next_count caller v.vine_id cycles)
          st
          (by_state now caller st (record v { score = score }) cycles).vine.state
  unfolding by_state
  Life-by_state now caller active v score cycles o e l k =
      elim (Bool-cases (fl.lt score twilight_threshold)) [
        | inl h ↦ rw h (
            subst (λ st. Life now v score (next_count caller v.vine_id cycles) active st)
              (sym (faded now _ cycles o (rw h at k))) (fade h))
        | inr h ↦ rw h (rw e (thrive h))
      ]
  Life-by_state now caller twilight v score cycles o e l k =
      elim (Bool-cases (fl.le twilight_threshold score)) [
        | inl h ↦ rw h (
            subst (λ st. Life now v score (next_count caller v.vine_id cycles) twilight st)
              (sym (roused now _ cycles o (rw h at k))) (return h))
        | inr h ↦ rw h (Life-wane now caller v score cycles o h e (rw h at k))
      ]
  Life-by_state now caller evicted v score cycles o e l k = unfold state_eq in cc

  not_evicted : (v : Vine F) → decays v ≡ true → state_eq v.state evicted ≡ false
  unfolding decays
  not_evicted v d = ground arith

  -- A round of the decay loop that raises nothing moves a vine that is neither locked nor evicted, and
  -- has a score, along its life cycle and along nothing else: below the threshold an active vine fades,
  -- at or above it a vine in twilight returns, and a vine in twilight dissolves only after five cycles
  -- and thirty minutes.
  pub decay_vine-Life :
      (now : F) (scores : Dict F) (caller : Dict ℕ) (v : Vine F) (cycles : Dict ℕ) (score : F)
      (o : Outcome)
      → decays v ≡ true
      → lookup v.vine_id scores ≡ some score
      → (decay_vine now scores caller v cycles).outcome ≡ ok o
      → Life now v score
          (next_count caller v.vine_id cycles)
          v.state
          (decay_vine now scores caller v cycles).vine.state
  unfolding decay_vine
  decay_vine-Life now scores caller v cycles score o d e h = rw d (
      rw e (
        Life-by_state now caller v.state v score cycles o refl (not_evicted v d)
          (rw e at (rw d at h))))
