-- ===== src/Workspace/Cycle.antt =====
-- `run_decay_cycle` and `_enforce_capacity` of src/echo_veil/workspace.py.
use echo_veil.Base.{
  ℕ, ◌-◌, Bool, true, false, not, ◌&&◌, List, [], ◌∷◌, ◌++◌, Option, none, some, String, Result, ok,
  err, ◌>>=◌, ◌>>◌, value_error, guard, eqb, leb, if◌then◌else◌, length, all, filter, take,
}
use echo_veil.Base.Dict.{Dict, put, without, values}
use echo_veil.Base.Int.{ℤ, pos, negsuc}
use echo_veil.Base.Floats.{Float, Number}
use echo_veil.Vectors.{Vector, as_vector, feq}
use echo_veil.Vine.{Vine, active, evicted, Codec, is_none, compress, validate_timestamp}
use echo_veil.Workspace.{Workspace, Run, state_eq, listed, is_live}
use echo_veil.Workspace.Decay.{
  not_empty, live_scores, Outcome, stays, demoted, dissolved, decay_vine,
}

-- The report of a cycle: the ids that moved.
pub record Report : Type 0 where
  pub demoted_ids : List String
  pub evicted_ids : List String

unfoldable pub note_outcome : Outcome → String → Report → Report
note_outcome stays k r = r
note_outcome demoted k r = record r { demoted_ids = r.demoted_ids ++ k ∷ [] }
note_outcome dissolved k r = record r { evicted_ids = r.evicted_ids ++ k ∷ [] }

-- What the loop leaves: the report, or the exception that ended it, the vines and the counters.
pub record Swept (F : Type 0) : Type 0 where
  pub report : Result Report
  pub vines : Dict (Vine F)
  pub cycles : Dict ℕ

unfoldable pub note_evicted : String → Report → Report
note_evicted k r =
    if listed k r.evicted_ids then r else record r { evicted_ids = r.evicted_ids ++ k ∷ [] }

-- `_validate_cycle_overrides` on the counts of a mapping.
unfoldable pub validate_cycles : List (String × ℤ) → Result (Dict ℕ)
validate_cycles [] = ok []
validate_cycles ((k, negsuc n) ∷ rest) = err value_error
validate_cycles ((k, pos n) ∷ rest) = do
  guard (not_empty k) value_error
  d ← validate_cycles rest
  ok ((k, n) ∷ d)

-- `sorted(key=...)` on pairs of floats: the tuple order, and a stable sort.
unfoldable pub key_lt : {F : Type 0} ⦃fl : Float F⦄ → Vine F → Vine F → Bool
key_lt ⦃fl⦄ u v =
    if feq u.score v.score then fl.lt u.last_touched v.last_touched else fl.lt u.score v.score

module _ {F : Type 0} ⦃fl : Float F⦄ where
  unfoldable pub insert_vine : Vine F → List (Vine F) → List (Vine F)
  insert_vine v [] = v ∷ []
  insert_vine v (u ∷ us) = if key_lt u v then u ∷ insert_vine v us else v ∷ u ∷ us

  unfoldable pub sort_vines : List (Vine F) → List (Vine F)
  unfolding insert_vine
  sort_vines [] = []
  sort_vines (v ∷ vs) = insert_vine v (sort_vines vs)

module _ {F : Type 0} ⦃fl : Float F⦄ ⦃cd : Codec F⦄ where
  -- The loop of `run_decay_cycle`: an exception ends it, and what came before stays done.
  unfoldable pub sweep : F → Dict F → Dict ℕ → Dict (Vine F) → Dict ℕ → Report → Swept F
  sweep now scores caller [] cycles report = record {
    report = ok report;
    vines = [];
    cycles = cycles;
  }
  sweep now scores caller ((k, v) ∷ d) cycles report =
      let round = decay_vine now scores caller v cycles in
      elim round.outcome [
        | err e ↦ record { report = err e; vines = (k, round.vine) ∷ d; cycles = round.cycles }
        | ok o ↦
            (let rest = sweep now scores caller d round.cycles (note_outcome o v.vine_id report) in
              record rest { vines = (k, round.vine) ∷ rest.vines })
      ]

  -- The vine as `_enforce_capacity` leaves it.
  unfoldable pub pack_active : Vine F → Result (Vine F)
  pack_active v =
      if state_eq v.state active && is_none v.protected_anchor
      then (do r ← compress v; ok r.1)
      else ok v

  -- The loop of `_enforce_capacity` over the candidates beyond the capacity.
  unfoldable pub evict_all : List (Vine F) → Dict (Vine F) → Dict ℕ → Report → Swept F
  evict_all [] vines cycles report = record { report = ok report; vines = vines; cycles = cycles }
  evict_all (v ∷ vs) vines cycles report = elim (pack_active v) [
    | err e ↦ record { report = err e; vines = vines; cycles = cycles }
    | ok u ↦
        evict_all vs (put v.vine_id (record u { state = evicted }) vines) (without v.vine_id cycles)
          (note_evicted v.vine_id report)
  ]

  -- `_enforce_capacity`
  unfoldable pub enforce_capacity : ℕ → Dict (Vine F) → Dict ℕ → Report → Swept F
  enforce_capacity capacity vines cycles report =
      let live = filter is_live (values vines) in
      let overflow = length live - capacity in
      let candidates = filter (λ v. not v.locked) live in
      if leb (length live) capacity
      then record { report = ok report; vines = vines; cycles = cycles }
      else if not (all (λ v. fl.is_finite v.score) candidates)
      then record { report = err value_error; vines = vines; cycles = cycles }
      else evict_all (take overflow (sort_vines candidates)) vines cycles report

  unfoldable pub after_sweep : Workspace F → Swept F → Run F Report
  after_sweep w s = (s.report, record w { vines = s.vines; twilight_cycles = s.cycles })

  unfoldable pub then_enforce : ℕ → Swept F → Swept F
  then_enforce capacity s = elim s.report [
    | err e ↦ s
    | ok r ↦ enforce_capacity capacity s.vines s.cycles r
  ]

  unfoldable pub fits_dimension : Option ℕ → Vector F → Bool
  fits_dimension none v = true
  fits_dimension (some n) v = eqb (length v) n

  -- What `run_decay_cycle` computes before it changes anything: the intent, the overrides, the scores.
  unfoldable pub prepare_cycle :
      Workspace F
      → Vector F
      → Number F
      → List (String × ℤ)
      → (Vector F → Vine F → F → Result F)
      → Result (F × Dict ℕ × Dict F)
  prepare_cycle w intent now cycles score = do
    current ← validate_timestamp now
    vector ← as_vector false intent
    caller ← validate_cycles cycles
    guard (fits_dimension w.dimension vector) value_error
    scores ← live_scores (λ v. score vector v current) w.vines
    ok (current, caller, scores)

  -- `run_decay_cycle`, with the scorer as an argument; `now` is what the caller gave or read.
  unfoldable pub run_decay_cycle :
      Workspace F
      → Vector F
      → Number F
      → List (String × ℤ)
      → (Vector F → Vine F → F → Result F)
      → Run F Report
  unfolding after_sweep
  run_decay_cycle w intent now cycles score = elim (prepare_cycle w intent now cycles score) [
    | err e ↦ (err e, w)
    | ok (current, caller, scores) ↦ after_sweep w (
        then_enforce w.capacity (
          sweep current scores caller w.vines w.twilight_cycles
            (record { demoted_ids = []; evicted_ids = [] })))
  ]
