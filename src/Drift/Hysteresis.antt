-- ===== src/Drift/Hysteresis.antt =====
-- The alarm of drift.py: the flag that `is_drifting` latches.
use echo_veil.Base.{
  ◌≡◌, refl, sym, Bool, true, false, List, [], ◌∷◌, ok, arith, >>=-eq-ok, guard, value_error, ◌∙◌,
  along, if◌then◌else◌,
}
use echo_veil.Base.Floats.{Float, Number, boolean, float, integer, other}
use echo_veil.Base.Int.{pos, negsuc}
use echo_veil.Base.{suc, zero}
use echo_veil.Vectors.{Vector, Numpy, as_vector}
use echo_veil.Drift.{DriftDetector, new_detector, reset, observe, drift, latch, is_drifting, fits}

-- No float lies above 0.38 + 0.08 and below 0.38 - 0.08.
abbrev pub HasBand : (F : Type 0) ⦃fl : Float F⦄ → Type 0
HasBand F ⦃fl⦄ =
    (x : F)
    → fl.lt (fl.add (fl.decimal 38 2) (fl.decimal 8 2)) x ≡ true
    → fl.lt x (fl.sub (fl.decimal 38 2) (fl.decimal 8 2)) ≡ false

module _ {F : Type 0} ⦃fl : Float F⦄ where
  -- What measured drifts say, the last one first: the first that is outside the dead band decides, and
  -- where there is none there is no alarm.
  unfoldable pub verdict : List F → Bool
  verdict [] = false
  verdict (x ∷ xs) =
      let before = verdict xs in
      if fl.lt (fl.add (fl.decimal 38 2) (fl.decimal 8 2)) x
      then true
      else if fl.lt x (fl.sub (fl.decimal 38 2) (fl.decimal 8 2))
      then false
      else before

  module _ ⦃np : Numpy F⦄ where
    -- A detector with the drifts that its questions measured since it was made or reset.
    pub data Watched : DriftDetector F → List F → Type 0 where
      made : (window : Number F) {d : DriftDetector F} → new_detector window ≡ ok d → Watched d []
      observed :
          (intent : Vector F) {d e : DriftDetector F} {xs : List F}
          → Watched d xs
          → observe d intent ≡ ok e
          → Watched e xs
      asked :
          {d : DriftDetector F} {r : Bool × DriftDetector F} {xs : List F} (garden : Vector F)
          (x : F)
          → Watched d xs
          → drift d garden ≡ ok x
          → is_drifting d garden ≡ ok r
          → Watched r.1 (x ∷ xs)
      cleared : {d : DriftDetector F} {xs : List F} → Watched d xs → Watched (reset d) []

    made_quiet : (w : Number F) (d : DriftDetector F) → new_detector w ≡ ok d → d.drifting ≡ false
    unfolding new_detector
    made_quiet (integer (pos (suc n))) d h = along (λ e. e.drifting ≡ false) h refl
    made_quiet (integer (pos zero)) d h = cc
    made_quiet (integer (negsuc n)) d h = cc
    made_quiet (boolean b) d h = cc
    made_quiet (float x) d h = cc
    made_quiet other d h = cc

    observe_same :
        (d e : DriftDetector F) (intent : Vector F)
        → observe d intent ≡ ok e
        → e.drifting ≡ d.drifting
    unfolding observe
    observe_same d e intent h =
        let (v, valid, k) = >>=-eq-ok (as_vector false intent) _ h in
        let (u, g, m) = >>=-eq-ok (guard (fits d.dimension v) value_error) _ k in
        along (λ x. x.drifting ≡ d.drifting) m refl

    asked_latch :
        (d : DriftDetector F) (garden : Vector F) (x : F) (r : Bool × DriftDetector F)
        → drift d garden ≡ ok x
        → is_drifting d garden ≡ ok r
        → (r.0 ≡ latch d.drifting x) × (r.1.drifting ≡ latch d.drifting x)
    unfolding is_drifting
    asked_latch d garden x r e h =
        along (λ q. (q.0 ≡ latch d.drifting x) × (q.1.drifting ≡ latch d.drifting x)) (rw e at h)
          (refl, refl)

    latch-verdict :
        HasBand F → (b : Bool) (x : F) (xs : List F) → b ≡ verdict xs → latch b x ≡ verdict (x ∷ xs)
    unfolding latch verdict
    latch-verdict band true x xs h = ground (arith, band x)
    latch-verdict band false x xs h = ground (arith, band x)

    Watched-verdict :
        HasBand F → {d : DriftDetector F} {xs : List F} → Watched d xs → d.drifting ≡ verdict xs
    unfolding verdict reset
    Watched-verdict band (made w h) = made_quiet w _ h
    Watched-verdict band (observed i p h) = observe_same _ _ i h ∙ Watched-verdict band p
    Watched-verdict band (asked {d} g x p e h) =
        (asked_latch _ g x _ e h).1 ∙ latch-verdict band d.drifting x _ (Watched-verdict band p)
    Watched-verdict band (cleared p) = refl

    -- Where no float lies both above 0.38 + 0.08 and below 0.38 - 0.08, whatever a detector observed and
    -- was asked since it was made or reset: the next question raises the alarm exactly when the last
    -- drift that was outside these edges, the new one included, lay above the upper one, and the
    -- detector keeps the flag that it returns.
    pub is_drifting-verdict :
        HasBand F
        → (garden : Vector F) (x : F) {d : DriftDetector F} {xs : List F}
          {r : Bool × DriftDetector F}
        → Watched d xs
        → drift d garden ≡ ok x
        → is_drifting d garden ≡ ok r
        → (r.0 ≡ verdict (x ∷ xs)) × (r.1.drifting ≡ r.0)
    is_drifting-verdict band garden x {d} {xs} {r} p e h =
        let (flag, kept) = asked_latch d garden x r e h in
        (flag ∙ latch-verdict band d.drifting x xs (Watched-verdict band p), kept ∙ sym flag)
