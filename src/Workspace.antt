-- ===== src/Workspace.antt =====
-- src/echo_veil/workspace.py: the active pool of vines. A method takes the workspace and returns
-- its result, or the exception, beside the workspace that the call leaves.
pub mod Decay
pub mod Cycle
pub mod Rounds
pub mod Keyed
pub mod Locks
pub mod Caps
pub mod Kept
pub mod Added
pub mod Prune
use echo_veil.Base.{
  ℕ, zero, suc, ◌+◌, ◌-◌, ◌≡◌, Bool, true, false, not, ◌&&◌, ◌||◌, List, [], ◌∷◌, ◌++◌, Option,
  none, some, String, Error, Result, ok, err, ◌>>=◌, ◌>>◌, type_error, value_error, key_error,
  runtime_error, guard, eqb, leb, ltb, if◌then◌else◌, length, any, all, filter, count,
}
use text.Mathlib.Text.{◌==◌}
use echo_veil.Base.Dict.{Dict, lookup, has, put, without, keys, values}
unfoldable pub use echo_veil.Base.Dict.{listed}
use echo_veil.Base.Texts.{is_blank}
use echo_veil.Base.Int.{ℤ, pos, negsuc}
use echo_veil.Base.Floats.{Float, Number, fmin}
use echo_veil.Vine.{
  Vine, VineState, active, twilight, evicted, Protected, Codec, is_none, touch, decompress,
  anchor_snapshot,
}

abbrev pub twilight_cycles_limit : ℕ
twilight_cycles_limit = 5

abbrev pub twilight_minutes : ℕ
twilight_minutes = 30

abbrev pub max_amber_locks : ℕ
max_amber_locks = 12

abbrev pub max_crests : ℕ
max_crests = 3

module _ {F : Type 0} ⦃fl : Float F⦄ where
  abbrev pub twilight_threshold : F
  twilight_threshold = fl.decimal 42 2

  abbrev pub reinforcement_bonus : F
  reinforcement_bonus = fl.decimal 8 2

-- `Workspace`, with the capacity and the time constant of its configuration.
pub record Workspace (F : Type 0) : Type 0 where
  pub capacity : ℕ
  pub time_constant : F
  pub vines : Dict (Vine F)
  pub crests : List String
  pub twilight_cycles : Dict ℕ
  pub dimension : Option ℕ

-- A method's result and the state that it leaves.
abbrev pub Run : Type 0 → Type 0 → Type 0
Run F A = Result A × Workspace F

unfoldable pub state_eq : VineState → VineState → Bool
state_eq active active = true
state_eq twilight twilight = true
state_eq evicted evicted = true
state_eq _ _ = false

-- The dimension that a protected anchor's shape states.
unfoldable pub shape_dimension : Option (List ℕ) → Option ℕ
shape_dimension (some (n ∷ [])) = if eqb n 0 then none else some n
shape_dimension _ = none

abbrev pub protected_dimension : Option Protected → Option ℕ
protected_dimension none = none
protected_dimension (some p) = shape_dimension p.shape

-- The dimension after a vine of the given dimension is added.
unfoldable pub join_dimension : Option ℕ → Option ℕ → Result (Option ℕ)
join_dimension own none = ok own
join_dimension none (some n) = ok (some n)
join_dimension (some m) (some n) = if eqb n m then ok (some m) else err value_error

unfoldable pub without_all : {V : Type 0} → List String → Dict V → Dict V
without_all [] d = d
without_all (k ∷ ks) d = without_all ks (without k d)

module _ {F : Type 0} where
  unfoldable pub vine_dimension : Vine F → Option ℕ
  unfolding shape_dimension
  vine_dimension v =
      if eqb (length v.anchor) 0
      then protected_dimension v.protected_anchor
      else some (length v.anchor)

  -- `add`
  unfoldable pub add : Workspace F → Vine F → Run F (Vine F)
  add w v =
      if has v.vine_id w.vines
      then (err value_error, w)
      else elim (join_dimension w.dimension (vine_dimension v)) [
        | err e ↦ (err e, w)
        | ok d ↦ (ok v, record w { dimension = d; vines = put v.vine_id v w.vines })
      ]

  -- `get`
  unfoldable pub get : Workspace F → String → Option (Vine F)
  get w k = lookup k w.vines

  -- `remove`
  unfoldable pub remove : Workspace F → String → Run F (Option (Vine F))
  remove w k = if is_blank k then (err value_error, w) else (
    ok (lookup k w.vines),
    record w {
      vines = without k w.vines;
      twilight_cycles = without k w.twilight_cycles;
      crests = filter (λ c. not (c == k)) w.crests;
    },
  )

  unfoldable pub is_live : Vine F → Bool
  unfolding state_eq
  is_live v = not (state_eq v.state evicted)

  -- `active`
  unfoldable pub active_vines : Workspace F → List (Vine F)
  active_vines w = filter (λ v. state_eq v.state active) (values w.vines)

  -- The number of vines that are not evicted, the numerator of `pressure`.
  unfoldable pub live_count : Workspace F → ℕ
  live_count w = count is_live (values w.vines)

  -- Whether `prune_evicted` takes the vine with this key.
  unfoldable pub prunable : Option (List String) → String → Vine F → Bool
  prunable none k v = state_eq v.state evicted
  prunable (some ids) k v = state_eq v.state evicted && listed k ids

  unfoldable pub prune_ids : Option (List String) → Dict (Vine F) → List String
  prune_ids requested [] = []
  prune_ids requested ((k, v) ∷ d) =
      let rest = prune_ids requested d in if prunable requested k v then k ∷ rest else rest

  -- `prune_evicted`
  unfoldable pub prune_evicted : Workspace F → Option (List String) → List String × Workspace F
  unfolding prune_ids without_all listed
  prune_evicted w requested =
      let ids = prune_ids requested w.vines in
      (
        ids,
        record w {
          vines = without_all ids w.vines;
          twilight_cycles = without_all ids w.twilight_cycles;
          crests = filter (λ c. not (listed c ids)) w.crests;
        },
      )

  -- `lock` on the vine that it finds.
  unfoldable pub lock_vine : Workspace F → String → Vine F → Run F (Unit {0})
  lock_vine w k v =
      if state_eq v.state evicted
      then (err value_error, w)
      else if v.locked
      then (ok tt, w)
      else if leb max_amber_locks (count (λ u. u.locked) (values w.vines))
      then (err value_error, w)
      else (ok tt, record w { vines = put k (record v { locked = true }) w.vines })

  -- `lock`
  unfoldable pub lock : Workspace F → String → Run F (Unit {0})
  lock w k = elim (lookup k w.vines) [ none ↦ (err key_error, w) | some v ↦ lock_vine w k v ]

  -- `unlock`
  unfoldable pub unlock : Workspace F → String → Run F (Unit {0})
  unlock w k = elim (lookup k w.vines) [
    | none ↦ (err key_error, w)
    | some v ↦ (ok tt, record w { vines = put k (record v { locked = false }) w.vines })
  ]

  unfoldable pub crestable : Dict (Vine F) → List String → Result (Unit {0})
  crestable d [] = ok tt
  crestable d (k ∷ ks) =
      let rest = crestable d ks in
      elim (lookup k d) [
        | none ↦ err key_error
        | some v ↦ if state_eq v.state evicted then err value_error else rest
      ]
