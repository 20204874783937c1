-- ===== src/Confidence.antt =====
-- src/echo_veil/confidence.py: the bands of the confidence matrix and `classify`.
pub mod Gate
use echo_veil.Base.{
  ℕ, ◌≡◌, Bool, true, false, not, ◌&&◌, List, [], ◌∷◌, String, Result, ok, err, ◌>>=◌, ◌>>◌,
  value_error, guard, if◌then◌else◌,
}
use echo_veil.Base.Floats.{Float, Number, to_float, fmin, fmax, fneg}

-- `ConfidenceBand`
pub data ConfidenceBand : Type 0 where
  solid coherent fragmented inferential obscurity : ConfidenceBand

-- `BandPolicy`
pub record BandPolicy (F : Type 0) : Type 0 where
  pub band : ConfidenceBand
  pub min_score : F
  pub indicator : String
  pub behavior : String
  pub gates_generation : Bool

module _ {F : Type 0} ⦃fl : Float F⦄ where
  -- The last policy, which is also the fallback.
  abbrev pub hard_stop : BandPolicy F
  hard_stop = record {
    band = obscurity;
    min_score = fl.decimal 0 0;
    indicator = "Data Obscurity Fault";
    behavior = "Hard stop. Surface the 3-pronged escalation menu.";
    gates_generation = true;
  }

  -- `_POLICIES`
  abbrev pub policies : List (BandPolicy F)
  policies =
      (record {
        band = solid;
        min_score = fl.decimal 85 2;
        indicator = "Solid Vine Integration";
        behavior = "Seamless, authoritative delivery.";
        gates_generation = false;
      })
      ∷ (record {
        band = coherent;
        min_score = fl.decimal 70 2;
        indicator = "Coherent Assembly";
        behavior = "Standard delivery; minor context gaps noted in footer.";
        gates_generation = false;
      })
      ∷ (record {
        band = fragmented;
        min_score = fl.decimal 50 2;
        indicator = "Fragmented Synthesis";
        behavior = "Micro-Vine Assembly layout; notes inferential leaps.";
        gates_generation = false;
      })
      ∷ (record {
        band = inferential;
        min_score = fl.decimal 35 2;
        indicator = "High Inferential Leaps";
        behavior = "Speculative reconstruction; requires explicit user override.";
        gates_generation = true;
      })
      ∷ hard_stop
      ∷ []

  -- The loop of `classify` over the policies.
  unfoldable pub first_reached : F → List (BandPolicy F) → BandPolicy F
  first_reached s [] = hard_stop
  first_reached s (p ∷ ps) =
      let rest = first_reached s ps in if fl.le p.min_score s then p else rest

  -- `min(1.0, max(0.0, score))`
  abbrev pub clamp : F → F
  clamp s = fmin (fl.decimal 1 0) (fmax (fl.decimal 0 0) s)

  -- `classify`
  unfoldable pub classify : Number F → Result (BandPolicy F)
  classify value = do
    score ← to_float value
    guard
        (fl.is_finite score
          && (fl.le (fneg (fl.decimal 1 0)) score && fl.le score (fl.decimal 115 2)))
        value_error
    ok (first_reached (clamp score) policies)
