-- ===== src/Drift.antt =====
-- src/echo_veil/drift.py: the drift detector. `recent` is the deque, oldest first.
pub mod Window
pub mod Hysteresis
use echo_veil.Base.{
  ℕ, zero, suc, ◌+◌, Bool, true, false, List, [], ◌∷◌, ◌++◌, Option, none, some, Result, ok, err,
  ◌>>=◌, ◌>>◌, type_error, value_error, guard, ltb, eqb, if◌then◌else◌, length,
}
use echo_veil.Base.Int.{ℤ, pos, negsuc}
use echo_veil.Base.Floats.{Float, Number, boolean, float, integer, other}
use echo_veil.Vectors.{Vector, Numpy, as_vector, centroid, cosine_similarity}

-- `DriftDetector`
pub record DriftDetector (F : Type 0) : Type 0 where
  pub window : ℕ
  pub recent : List (Vector F)
  pub drifting : Bool
  pub dimension : Option ℕ

module _ {F : Type 0} where
  -- `__init__`
  unfoldable pub new_detector : Number F → Result (DriftDetector F)
  new_detector (integer (pos (suc n))) =
      ok (record { window = suc n; recent = []; drifting = false; dimension = none })
  new_detector (integer (pos zero)) = err value_error
  new_detector (integer (negsuc n)) = err value_error
  new_detector (boolean b) = err type_error
  new_detector (float x) = err type_error
  new_detector other = err type_error

  abbrev pub drop_first : List (Vector F) → List (Vector F)
  drop_first [] = []
  drop_first (v ∷ vs) = vs

  -- `deque(maxlen=window).append`
  unfoldable pub append : ℕ → List (Vector F) → Vector F → List (Vector F)
  append window vs v =
      let longer = vs ++ v ∷ [] in if ltb window (length longer) then drop_first longer else longer

  abbrev pub fits : Option ℕ → Vector F → Bool
  fits none v = true
  fits (some n) v = eqb (length v) n

  -- `reset`
  unfoldable pub reset : DriftDetector F → DriftDetector F
  reset d = record d { recent = []; drifting = false; dimension = none }

abbrev pub or_else : Option ℕ → ℕ → ℕ
or_else none n = n
or_else (some m) n = m

module _ {F : Type 0} ⦃fl : Float F⦄ where
  -- `observe`
  unfoldable pub observe : DriftDetector F → Vector F → Result (DriftDetector F)
  observe d intent = do
    vector ← as_vector false intent
    guard (fits d.dimension vector) value_error
    ok (record d {
      dimension = some (or_else d.dimension (length vector));
      recent = append d.window d.recent vector;
    })

  -- `DRIFT_THRESHOLD - HYSTERESIS` and `DRIFT_THRESHOLD + HYSTERESIS`
  abbrev pub lower_edge : F
  lower_edge = fl.sub (fl.decimal 38 2) (fl.decimal 8 2)

  abbrev pub upper_edge : F
  upper_edge = fl.add (fl.decimal 38 2) (fl.decimal 8 2)

  -- The flag after a measured drift.
  unfoldable pub latch : Bool → F → Bool
  latch true x = if fl.lt x lower_edge then false else true
  latch false x = if fl.lt upper_edge x then true else false

  module _ ⦃np : Numpy F⦄ where
    -- `moving_average`
    unfoldable pub moving_average : DriftDetector F → Result (Option (Vector F))
    moving_average d =
        if eqb (length d.recent) 0 then ok none else (do avg ← centroid d.recent; ok (some avg))

    against : Vector F → Option (Vector F) → Result F
    against garden none = ok (fl.decimal 0 0)
    against garden (some avg) = do
      similarity ← cosine_similarity avg garden
      ok (fl.sub (fl.decimal 1 0) similarity)

    -- `drift`
    unfoldable pub drift : DriftDetector F → Vector F → Result F
    unfolding against
    drift d garden = do avg ← moving_average d; against garden avg

    -- `is_drifting`: the flag, and the detector that holds it.
    unfoldable pub is_drifting : DriftDetector F → Vector F → Result (Bool × DriftDetector F)
    is_drifting d garden = do
      x ← drift d garden
      ok (latch d.drifting x, record d { drifting = latch d.drifting x })
