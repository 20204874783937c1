-- ===== src/Workspace/Decay.antt =====
-- The decay loop of src/echo_veil/workspace.py: `set_crests`, `reinforce` and the body of the
-- loop in `run_decay_cycle`.
use echo_veil.Base.{
  ℕ, ◌+◌, Bool, true, false, not, ◌&&◌, List, [], ◌∷◌, Option, none, some, String, Result, ok, err,
  ◌>>=◌, ◌>>◌, value_error, key_error, guard, eqb, leb, ltb, if◌then◌else◌, length, all,
}
use text.Mathlib.Text.{◌==◌}
use echo_veil.Base.Dict.{Dict, lookup, put, without}
use echo_veil.Base.Floats.{Float, Number, to_float, float, fmin}
use echo_veil.Vectors.{Vector, Numpy, proximity_score}
use echo_veil.Vine.{
  Vine, VineState, active, twilight, evicted, Codec, is_none, touch, compress, decompress,
  anchor_snapshot, age_hours, validate_timestamp,
}
use echo_veil.Workspace.{
  Workspace, Run, state_eq, listed, crestable, twilight_cycles_limit, twilight_minutes, max_crests,
  twilight_threshold, reinforcement_bonus,
}

-- `len(set(ids)) == len(ids)`
unfoldable pub distinct : List String → Bool
unfolding listed
distinct [] = true
distinct (k ∷ ks) = not (listed k ks) && distinct ks

unfoldable pub not_empty : String → Bool
not_empty s = not (s == "")

module _ {F : Type 0} where
  -- `set_crests`
  unfoldable pub set_crests : Workspace F → List String → Run F (Unit {0})
  unfolding not_empty
  set_crests w ids =
      if not (all not_empty ids)
      then (err value_error, w)
      else if ltb max_crests (length ids)
      then (err value_error, w)
      else if not (distinct ids)
      then (err value_error, w)
      else elim (crestable w.vines ids) [
        | err e ↦ (err e, w)
        | ok u ↦ (ok tt, record w { crests = ids })
      ]

-- A caller's scorer, where there is one; its result is checked.
abbrev pub Scorer : Type 0 → Type 0
Scorer F = Vector F → Vine F → F → Result (Number F)

-- What one round of the loop does to a vine, beside its new counter.
pub data Outcome : Type 0 where
  stays demoted dissolved : Outcome

pub record Round (F : Type 0) : Type 0 where
  pub outcome : Result Outcome
  pub vine : Vine F
  pub cycles : Dict ℕ

-- The counter of a vine in twilight after this cycle: a caller's count overrides it.
unfoldable pub next_count : Dict ℕ → String → Dict ℕ → ℕ
next_count caller k cycles = elim (lookup k caller) [
  | some n ↦ n
  | none ↦ elim (lookup k cycles) [ none ↦ 1 | some n ↦ n + 1 ]
]

module _ {F : Type 0} ⦃fl : Float F⦄ ⦃cd : Codec F⦄ where
  -- `if vine.protected_anchor is None: vine.decompress()`
  unfoldable pub wake : Vine F → Result (Vine F)
  wake v = if is_none v.protected_anchor then decompress v else ok v

  -- The vine back in the active state, with the snap-back bonus.
  unfoldable pub snap_back : Vine F → Vine F
  snap_back v = record v {
    state = active;
    twilight_since = none;
    score = fmin (fl.decimal 1 0) (fl.add v.score reinforcement_bonus);
  }

  -- The end of `reinforce`: what was done before `touch` raises stays done.
  unfoldable pub touch_in : String → Vine F → Number F → Workspace F → Run F (Unit {0})
  touch_in k v now w = elim (touch v now) [
    | err e ↦ (err e, w)
    | ok u ↦ (ok tt, record w { vines = put k u w.vines })
  ]

  unfoldable pub reinforce_twilight : String → Vine F → Number F → Workspace F → Run F (Unit {0})
  unfolding touch_in
  reinforce_twilight k v now w = elim (wake v) [
    | err e ↦ (err e, w)
    | ok u ↦ touch_in k (snap_back u) now (record w {
      vines = put k (snap_back u) w.vines;
      twilight_cycles = without k w.twilight_cycles;
    })
  ]

  -- `reinforce`, at the time that the caller read.
  unfoldable pub reinforce : Workspace F → String → Number F → Run F (Unit {0})
  unfolding touch_in reinforce_twilight
  reinforce w k now = elim (lookup k w.vines) [
    | none ↦ (err key_error, w)
    | some v ↦ elim v.state [
      | evicted ↦ (err value_error, w)
      | twilight ↦ reinforce_twilight k v now w
      | active ↦ touch_in k v now w
    ]
  ]

  -- `_twilight_expired`: both the cycles and the minutes have passed.
  unfoldable pub twilight_expired : Vine F → F → ℕ → Result Bool
  twilight_expired v now cycles = elim v.twilight_since [
    | none ↦ ok false
    | some since ↦ (do
      start ← validate_timestamp (float since)
      let minutes = fl.div (fl.sub now start) (fl.decimal 60 0)
      ok (leb twilight_cycles_limit cycles && fl.le (fl.decimal twilight_minutes 0) minutes))
  ]

  module _ ⦃np : Numpy F⦄ where
    checked_score : Result (Number F) → Result F
    checked_score r = do
      raw ← r
      score ← to_float raw
      guard (fl.is_finite score) value_error
      ok score

    own_score : F → Vector F → Vine F → F → Result (Number F)
    own_score time_constant intent v now =
        if not (is_none v.protected_anchor) && eqb (length v.anchor) 0
        then ok (float v.score)
        else do
          anchor ← if state_eq v.state twilight then anchor_snapshot v else ok v.anchor
          age ← age_hours v (float now)
          score ← proximity_score intent anchor age time_constant
          ok (float score)

    -- `_score_active_vine`
    unfoldable pub score_active_vine : F → Option (Scorer F) → Vector F → Vine F → F → Result F
    unfolding checked_score own_score
    score_active_vine time_constant none intent v now =
        checked_score (own_score time_constant intent v now)
    score_active_vine time_constant (some score_fn) intent v now =
        checked_score (score_fn intent v now)

  -- Whether the decay loop looks at the vine.
  unfoldable pub decays : Vine F → Bool
  decays v = not (state_eq v.state evicted) && not v.locked

  -- `live_scores`: every score is there before any vine changes.
  unfoldable pub live_scores : (Vine F → Result F) → Dict (Vine F) → Result (Dict F)
  live_scores score [] = ok []
  live_scores score ((k, v) ∷ d) =
      let rest = live_scores score d in
      if decays v then (do s ← score v; ss ← rest; ok ((v.vine_id, s) ∷ ss)) else rest

  -- `if vine.protected_anchor is None: vine.compress()`
  unfoldable pub pack : Vine F → Result (Vine F)
  pack v = if is_none v.protected_anchor then (do r ← compress v; ok r.1) else ok v

  -- The vine's score is at the threshold or above it, in twilight.
  unfoldable pub rouse : F → Vine F → Dict ℕ → Round F
  rouse now v cycles = elim (wake v) [
    | err e ↦ record { outcome = err e; vine = v; cycles = cycles }
    | ok u ↦ elim (touch (snap_back u) (float now)) [
      | err e ↦ record { outcome = err e; vine = snap_back u; cycles = cycles }
      | ok t ↦ record { outcome = ok stays; vine = t; cycles = without v.vine_id cycles }
    ]
  ]

  -- The vine's score is below the threshold, while active.
  unfoldable pub demote : F → Vine F → Dict ℕ → Round F
  demote now v cycles =
      let dimmed = record v { state = twilight; twilight_since = some now } in
      elim (pack dimmed) [
        | err e ↦ record { outcome = err e; vine = dimmed; cycles = cycles }
        | ok u ↦ record { outcome = ok demoted; vine = u; cycles = put v.vine_id 0 cycles }
      ]

  -- The vine in twilight, with the start of its twilight set.
  unfoldable pub waning : F → Vine F → Vine F
  waning now v = record v {
    twilight_since = elim v.twilight_since [ none ↦ some now | some t ↦ some t ];
  }

  unfoldable pub conclude : Result Bool → Vine F → Dict ℕ → Round F
  conclude (err e) v counted = record { outcome = err e; vine = v; cycles = counted }
  conclude (ok true) v counted = record {
    outcome = ok dissolved;
    vine = record v { state = evicted };
    cycles = counted;
  }
  conclude (ok false) v counted = record { outcome = ok stays; vine = v; cycles = counted }

  unfoldable pub wane : F → Dict ℕ → Vine F → Dict ℕ → Round F
  wane now caller v cycles =
      let n = next_count caller v.vine_id cycles in
      conclude (twilight_expired (waning now v) now n) (waning now v) (put v.vine_id n cycles)

  unfoldable pub by_state : F → Dict ℕ → VineState → Vine F → Dict ℕ → Round F
  by_state now caller twilight v cycles =
      if fl.le twilight_threshold v.score then rouse now v cycles else wane now caller v cycles
  by_state now caller active v cycles =
      if fl.lt v.score twilight_threshold
      then demote now v cycles
      else record { outcome = ok stays; vine = v; cycles = cycles }
  by_state now caller evicted v cycles = record { outcome = ok stays; vine = v; cycles = cycles }

  -- The body of the loop in `run_decay_cycle`.
  unfoldable pub decay_vine : F → Dict F → Dict ℕ → Vine F → Dict ℕ → Round F
  decay_vine now scores caller v cycles =
      if not (decays v)
      then record { outcome = ok stays; vine = v; cycles = cycles }
      else elim (lookup v.vine_id scores) [
        | none ↦ record { outcome = err key_error; vine = v; cycles = cycles }
        | some s ↦ by_state now caller v.state (record v { score = s }) cycles
      ]
