-- ===== src/Samples/Oracles.antt =====
-- Runs of oracle.py over whole thousandths, and the theorems at them.
use echo_veil.Base.{◌≡◌, ◌≢◌, refl, inl, true, false, ◌||◌, [], ◌∷◌, none, some, ok, String}
use echo_veil.Base.Dict.{lookup, has}
use echo_veil.Base.Texts.{is_blank, is_space}
use echo_veil.Base.Int.{ℤ, pos}
use echo_veil.Base.Floats.{fixed_point, float}
use echo_veil.Samples.{small, plain_codec}
use echo_veil.Vine.{Vine, active}
use echo_veil.Archive.{valid_key}
use echo_veil.Oracle.{Oracle, Shield, observe_intent, forget}
use echo_veil.Oracle.Forget.{forget_everywhere}
use echo_veil.Oracle.Keeping.{Keeps, observe_intent-Keeps}

-- A shield that finds nothing similar and reveals nothing.
instance abbrev blind : Shield ℤ
blind = record { similarity = λ intent p. ok (float (pos 0)); reveal = λ p. ok none }

abbrev vine : String → Vine ℤ
vine k = record {
  topic = "a topic";
  anchor = pos 600 ∷ pos 800 ∷ [];
  vine_id = k;
  created_at = pos 0;
  last_touched = pos 0;
  state = active;
  locked = false;
  score = pos 1000;
  twilight_since = none;
  protected_anchor = none;
  compressed = none;
  anchor_shape = none;
}

-- An oracle whose workspace has room for one of its two vines.
abbrev oracle : Oracle ℤ
oracle = record {
  workspace = record {
    capacity = 1;
    time_constant = pos 12000;
    vines = ("a", vine "a") ∷ ("b", vine "b") ∷ [];
    crests = [];
    twilight_cycles = [];
    dimension = some 2;
  };
  index = record { entries = []; dimension = none };
  archive = [];
  drift = record { window = 3; recent = []; drifting = false; dimension = none };
  conflicts = [];
  fossils = [];
  dimension = some 2;
}

has_a : has "a" oracle.workspace.vines ≡ true
unfolding lookup
has_a = refl

observe_intent-Keeps_example :
    Keeps "a" (observe_intent oracle (pos 600 ∷ pos 800 ∷ []) (float (pos 5000)) []).1
observe_intent-Keeps_example =
    observe_intent-Keeps oracle (pos 600 ∷ pos 800 ∷ []) (float (pos 5000)) [] "a" (inl has_a)

key_valid : valid_key "a" ≡ true
unfolding is_blank is_space
key_valid = refl

forget_everywhere_example :
    ((forget oracle "a").0
      ≡ ok (
          has "a" oracle.index.entries || has "a" oracle.archive || has "a" oracle.workspace.vines))
    × (lookup "a" (forget oracle "a").1.workspace.vines ≡ none)
    × (lookup "a" (forget oracle "a").1.workspace.twilight_cycles ≡ none)
    × (lookup "a" (forget oracle "a").1.index.entries ≡ none)
    × (lookup "a" (forget oracle "a").1.archive ≡ none)
    × ((j : String)
        → j ≢ "a"
        → (lookup j (forget oracle "a").1.workspace.vines ≡ lookup j oracle.workspace.vines)
          × (lookup j (forget oracle "a").1.index.entries ≡ lookup j oracle.index.entries)
          × (lookup j (forget oracle "a").1.archive ≡ lookup j oracle.archive))
forget_everywhere_example = forget_everywhere oracle "a" key_valid
