-- ===== src/Samples/Stores.antt =====
-- Runs of confidence.py, drift.py and archive.py over whole thousandths, and the theorems at them.
use mathlib.Core.List.{Perm}
use echo_veil.Base.{
  map, ◌++◌, ℕ, ◌≡◌, ◌≢◌, arith, refl, Bool, true, false, not, List, [], ◌∷◌, none, some, ok, err,
  String, value_error, leb, if◌then◌else◌, All,
}
use echo_veil.Base.Dict.{lookup, put, without, values}
use echo_veil.Base.Texts.{is_blank, is_space}
use echo_veil.Base.Int.{ℤ, pos}
use echo_veil.Base.Floats.{fixed_point, fixed_point-IsOrdered, float, integer, to_float}
use echo_veil.Samples.{small}
use echo_veil.Vectors.{Vector, as_vector, cosine_similarity, clip, centroid, prepare, mean_of}
use echo_veil.Confidence.{BandPolicy, fragmented, inferential, classify, first_reached}
use echo_veil.Oracle.{check_generation_gate, is_obscurity}
use echo_veil.Oracle.Gate.{check_generation_gate_safe}
use echo_veil.Confidence.Gate.{IsScale, classify_gates}
use echo_veil.Drift.{
  DriftDetector, new_detector, observe, append, moving_average, drift, latch, is_drifting, reset,
}
use echo_veil.Drift.Window.{Held, made, observed, moving_average_total, Held-Steady, Steady}
use echo_veil.Archive.{
  MetadataIndex, IndexEntry, plain, size, search, score_entries, sort_scores, insert_score,
  result_count, scorer, is_none_scorer, similarity, as_anchor, valid_key,
}
use echo_veil.Drift.Hysteresis.{Watched, verdict, is_drifting-verdict}
use echo_veil.Archive.Search.{search-BestFirst, BestFirst, IsScored}
use echo_veil.Archive.Cold.{store, fetch, fetch-store}

program : Unit {0}
unfolding to_float lookup put without values as_vector cosine_similarity clip centroid prepare
    mean_of classify first_reached new_detector observe append moving_average drift latch
    is_drifting reset size search score_entries sort_scores insert_score result_count scorer
    is_none_scorer is_blank is_space
program = tt

scale : IsScale ℤ
scale = record {
  zero_finite = refl;
  inferential_finite = refl;
  fragmented_finite = refl;
  coherent_finite = refl;
  solid_finite = refl;
  one_finite = refl;
  below_inferential = refl;
  below_fragmented = refl;
  below_coherent = refl;
  below_solid = refl;
  below_one = refl;
}

half_policy : BandPolicy ℤ
half_policy = record {
  band = fragmented;
  min_score = pos 500;
  indicator = "Fragmented Synthesis";
  behavior = "Micro-Vine Assembly layout; notes inferential leaps.";
  gates_generation = false;
}

half_classified : classify (float (pos 500)) ≡ ok half_policy
unfolding program half_policy
half_classified = refl

classify_gates_example :
    (s : ℤ) × (to_float (float (pos 500)) ≡ ok s)
    × (half_policy.gates_generation ≡ not (fixed_point.le (fixed_point.decimal 50 2) s))
classify_gates_example =
    classify_gates fixed_point-IsOrdered scale (float (pos 500)) half_policy half_classified

abbrev watching : DriftDetector ℤ
watching = record {
  window = 2;
  recent = (pos 1000 ∷ pos 0 ∷ []) ∷ [];
  drifting = false;
  dimension = some 2;
}

abbrev fresh : DriftDetector ℤ
fresh = record { window = 2; recent = []; drifting = false; dimension = none }

fresh_made : new_detector {F = ℤ} (integer (pos 2)) ≡ ok fresh
unfolding program
fresh_made = refl

watching_observed : observe fresh (pos 1000 ∷ pos 0 ∷ []) ≡ ok watching
unfolding program
watching_observed = refl

watching-Held : Held watching
watching-Held =
    observed (pos 1000 ∷ pos 0 ∷ []) (made (integer (pos 2)) fresh_made) watching_observed

Held-Steady_example : Steady watching
Held-Steady_example = Held-Steady watching-Held

moving_average_total_example :
    moving_average watching ≡ ok (some (small.mean ((pos 1000 ∷ pos 0 ∷ []) ∷ [])))
moving_average_total_example = moving_average_total watching-Held

abbrev drifted : Bool × DriftDetector ℤ
drifted = (true, record watching { drifting = true })

-- At a right angle to the garden the drift is 1, above the upper edge.
drift_seen : is_drifting watching (pos 0 ∷ pos 1000 ∷ []) ≡ ok drifted
unfolding program
drift_seen = refl

drift_measured : drift watching (pos 0 ∷ pos 1000 ∷ []) ≡ ok (pos 1000)
unfolding program
drift_measured = refl

is_drifting-verdict_example :
    (drifted.0 ≡ verdict (pos 1000 ∷ [])) × (drifted.1.drifting ≡ drifted.0)
is_drifting-verdict_example =
    is_drifting-verdict (λ x h. ground arith) (pos 0 ∷ pos 1000 ∷ []) (pos 1000)
      (Watched.observed (pos 1000 ∷ pos 0 ∷ []) (Watched.made (integer (pos 2)) fresh_made)
        watching_observed)
      drift_measured drift_seen

abbrev entry : String → Vector ℤ → IndexEntry ℤ
entry k v = record { key = k; anchor = plain v; kind = "anchor" }

abbrev index : MetadataIndex ℤ
index = record {
  entries =
      ("a", entry "a" (pos 0 ∷ pos 1000 ∷ []))
      ∷ ("b", entry "b" (pos 1000 ∷ pos 0 ∷ []))
      ∷ ("c", entry "c" (pos 500 ∷ pos 500 ∷ []))
      ∷ [];
  dimension = some 2;
}

best_two :
    search index (pos 1000 ∷ pos 0 ∷ []) (integer (pos 2)) none
    ≡ ok (("b", pos 1000) ∷ ("c", pos 500) ∷ [])
unfolding program similarity as_anchor
best_two = refl

abbrev best : List (String × ℤ)
best = ("b", pos 1000) ∷ ("c", pos 500) ∷ []

search-BestFirst_example :
    (n : ℕ) × (scored : List (String × ℤ)) × (left_out : List (String × ℤ)) × (result_count {F = ℤ}
        (integer (pos 2))
      ≡ ok n)
    × (score_entries (scorer none (pos 1000 ∷ pos 0 ∷ [])) index.entries ≡ ok scored)
    × (map (λ p. p.0) scored ≡ "a" ∷ "b" ∷ "c" ∷ [])
    × Perm (best ++ left_out) scored
    × (2 ≡ (if leb n (size index) then n else size index))
    × All IsScored best
    × BestFirst best
    × All (λ q. All (λ p. fixed_point.le q.1 p.1 ≡ true) best) left_out
unfolding values
search-BestFirst_example =
    search-BestFirst fixed_point-IsOrdered index (pos 1000 ∷ pos 0 ∷ []) (integer (pos 2)) none best
      best_two

key_valid : valid_key "a" ≡ true
unfolding program
key_valid = refl

fetch-store_example :
    ((store [] "a" (7 ∷ [])).0 ≡ ok tt)
    × (fetch (store [] "a" (7 ∷ [])).1 "a" ≡ ok (some (7 ∷ [])))
    × ((j : String) → j ≢ "a" → fetch (store [] "a" (7 ∷ [])).1 j ≡ fetch [] j)
    × (store [] "a" [] ≡ (err value_error, []))
fetch-store_example = fetch-store [] "a" 7 [] key_valid

-- A score of 0.4 passes with an override.
abbrev leaps : BandPolicy ℤ
leaps = record {
  band = inferential;
  min_score = pos 350;
  indicator = "High Inferential Leaps";
  behavior = "Speculative reconstruction; requires explicit user override.";
  gates_generation = true;
}

overridden : check_generation_gate (float (pos 400)) true ≡ ok leaps
unfolding program check_generation_gate
overridden = refl

check_generation_gate_safe_example :
    (s : ℤ) × (to_float (float (pos 400)) ≡ ok s)
    × (fixed_point.le (fixed_point.decimal 50 2) s ≡ false
        → (true ≡ true) × (is_obscurity leaps.band ≡ false))
check_generation_gate_safe_example =
    check_generation_gate_safe fixed_point-IsOrdered scale (float (pos 400)) true leaps overridden
