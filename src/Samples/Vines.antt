-- ===== src/Samples/Vines.antt =====
-- Runs of vine.py and workspace.py over whole thousandths, and the theorems at them.
use echo_veil.Base.{
  ◌≢◌, arith, ◌≡◌, refl, Bool, true, false, [], ◌∷◌, Option, none, some, ok, String,
}
use echo_veil.Base.Dict.{lookup, put, without, values, Unique}
use echo_veil.Base.Int.{ℤ, pos}
use echo_veil.Base.Floats.{fixed_point, float, to_float}
use echo_veil.Samples.{small, plain_codec, plain-IsLossless}
use echo_veil.Vectors.{as_vector}
use echo_veil.Vine.{
  evicted, Vine, VineState, active, twilight, compress, decompress, anchor_snapshot, touch,
  validate_timestamp, check_inflated,
}
use echo_veil.Vine.Snapshot.{packed, decompress-compress}
use echo_veil.Workspace.{
  join_dimension, vine_dimension, add, lock, prune_evicted, Workspace, state_eq, listed,
}
use echo_veil.Workspace.Decay.{
  decays, decay_vine, next_count, by_state, demote, rouse, wane, waning, conclude, twilight_expired,
  dissolved, pack, wake, snap_back,
}
use echo_veil.Workspace.Caps.{Locked, lock-Locked}
use echo_veil.Workspace.Prune.{prune_evicted_clean}
use echo_veil.Workspace.Kept.{Kept, added, empty}
use echo_veil.Workspace.Added.{add_once}
use echo_veil.Workspace.Rounds.{Life, decay_vine-Life}
use echo_veil.Workspace.Locks.{run_decay_cycle_keeps_locked}
use echo_veil.Workspace.Cycle.{run_decay_cycle}

-- All that a round calls.
program : Unit {0}
unfolding to_float lookup put without values as_vector compress decompress anchor_snapshot touch
    validate_timestamp check_inflated state_eq listed decays decay_vine next_count by_state demote
    rouse wane waning conclude twilight_expired pack wake snap_back
program = tt

abbrev vine : String → VineState → Bool → Option ℤ → Vine ℤ
vine k st locked since = record {
  topic = "a topic";
  anchor = pos 600 ∷ pos 800 ∷ [];
  vine_id = k;
  created_at = pos 0;
  last_touched = pos 0;
  state = st;
  locked = locked;
  score = pos 1000;
  twilight_since = since;
  protected_anchor = none;
  compressed = none;
  anchor_shape = none;
}

valid : as_vector false (pos 600 ∷ pos 800 ∷ []) ≡ ok (pos 600 ∷ pos 800 ∷ [])
unfolding as_vector
valid = refl

decompress-compress_example :
    (r : ℤ) × (compress (vine "a" active false none) ≡ ok (r, packed (vine "a" active false none)))
    × (decompress (packed (vine "a" active false none)) ≡ ok (vine "a" active false none))
decompress-compress_example =
    decompress-compress plain-IsLossless (vine "a" active false none) valid refl refl

-- A vine in twilight for 1,801 s, in its sixth cycle, with a score of 0.1.
fading :
    (decay_vine
      (pos 1801000)
      (("a", pos 100) ∷ [])
      []
      (vine "a" twilight false (some (pos 0)))
      (("a", 5) ∷ [])).outcome
    ≡ ok dissolved
unfolding program
fading = refl

found : lookup "a" (("a", pos 100) ∷ []) ≡ some (pos 100)
unfolding lookup
found = refl

looked_at : decays (vine "a" twilight false (some (pos 0))) ≡ true
unfolding program
looked_at = refl

decay_vine-Life_example :
    Life
      (pos 1801000)
      (vine "a" twilight false (some (pos 0)))
      (pos 100)
      (next_count [] "a" (("a", 5) ∷ []))
      twilight
      (decay_vine
        (pos 1801000)
        (("a", pos 100) ∷ [])
        []
        (vine "a" twilight false (some (pos 0)))
        (("a", 5) ∷ [])).vine.state
decay_vine-Life_example =
    decay_vine-Life (pos 1801000) (("a", pos 100) ∷ []) [] (vine "a" twilight false (some (pos 0)))
      (("a", 5) ∷ []) (pos 100) dissolved looked_at found fading

-- A workspace with room for one vine that holds a locked one and another.
abbrev garden : Workspace ℤ
garden = record {
  capacity = 1;
  time_constant = pos 1000;
  vines = ("a", vine "a" active true none) ∷ ("b", vine "b" active false none) ∷ [];
  crests = [];
  twilight_cycles = [];
  dimension = some 2;
}

kept_once : Unique garden.vines
unfolding lookup
kept_once = (refl, (refl, tt))

locked_found : lookup "a" garden.vines ≡ some (vine "a" active true none)
unfolding lookup
locked_found = refl

run_decay_cycle_keeps_locked_example :
    lookup "a"
      (run_decay_cycle garden
        (pos 1000 ∷ pos 0 ∷ [])
        (float (pos 5000))
        []
        (λ intent v now. ok (pos 900))).1.vines
    ≡ some (vine "a" active true none)
run_decay_cycle_keeps_locked_example =
    run_decay_cycle_keeps_locked garden (pos 1000 ∷ pos 0 ∷ []) (float (pos 5000)) []
      (λ intent v now. ok (pos 900)) "a" (vine "a" active true none) (refl, (refl, tt)) kept_once
      locked_found refl

lock-Locked_example : Locked "b" (lock garden "b")
unfolding values
lock-Locked_example = lock-Locked garden "b" (omega arith)

prune_evicted_clean_example :
    (listed "a" (prune_evicted garden none).0 ≡ true
      → ((v : Vine ℤ) × (lookup "a" garden.vines ≡ some v)
          × (state_eq v.state evicted ≡ true)
          × (true ≡ true))
        × (lookup "a" (prune_evicted garden none).1.vines ≡ none)
        × (lookup "a" (prune_evicted garden none).1.twilight_cycles ≡ none)
        × (listed "a" (prune_evicted garden none).1.crests ≡ false))
    × (listed "a" (prune_evicted garden none).0 ≡ false
        → (lookup "a" (prune_evicted garden none).1.vines ≡ lookup "a" garden.vines)
          × (lookup "a" (prune_evicted garden none).1.twilight_cycles
              ≡ lookup "a" garden.twilight_cycles)
          × (listed "a" (prune_evicted garden none).1.crests ≡ listed "a" garden.crests))
prune_evicted_clean_example = prune_evicted_clean garden none "a" kept_once

-- An empty workspace, and one with a vine added.
abbrev clearing : Workspace ℤ
clearing = record garden { vines = []; dimension = none }

abbrev first : Vine ℤ
first = vine "a" active true none

abbrev second : Vine ℤ
second = vine "b" active false none

abbrev with_first : Workspace ℤ
with_first = (add clearing first).1

second_added : (add with_first second).0 ≡ ok second
unfolding program add join_dimension vine_dimension
second_added = refl

add_once_example :
    (second ≡ second)
    × (lookup "b" with_first.vines ≡ none)
    × (lookup "b" (add with_first second).1.vines ≡ some second)
    × ((k : String)
        → k ≢ "b"
        → lookup k (add with_first second).1.vines ≡ lookup k with_first.vines)
    × Kept (add with_first second).1.vines
add_once_example = add_once second second (added first (empty clearing refl)) second_added
