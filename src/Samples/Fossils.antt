-- ===== src/Samples/Fossils.antt =====
-- Runs of conflict.py over whole thousandths, and the theorems at them.
use echo_veil.Base.{◌≡◌, refl, ◌⊎◌, true, false, [], Error, ok, err, value_error}
use echo_veil.Base.Texts.{codes, is_space}
use echo_veil.Base.Int.{ℤ, pos}
use echo_veil.Base.Floats.{fixed_point, float, to_float}
use echo_veil.Json.{to_items}
use echo_veil.Json.Print.{print, utf8}
use echo_veil.Conflict.{
  ConflictVine, FossilizedEcho, Format, non_empty_text, strength, timestamp, payload_bytes,
  serialize, new_echo, append_event, commit_event, record_event, fossilize,
}
use echo_veil.Conflict.Fossils.{
  Recorded, Fits, made, recorded, Held-Fits, record_event-Recorded, fossilize_once,
}

program : Unit {0}
unfolding is_space to_float to_items print utf8 non_empty_text strength timestamp payload_bytes
    serialize new_echo append_event commit_event record_event
program = tt

instance abbrev plain_format : Format ℤ
plain_format = record { fixed3 = fixed_point.repr }

abbrev tea : FossilizedEcho ℤ
tea = record { topic = codes "tea"; summary = codes "green"; timeline = []; created_at = pos 5000 }

tea_made : new_echo (codes "tea") (codes "green") [] (float (pos 5000)) ≡ ok tea
unfolding program
tea_made = refl

Held-Fits_example : Fits (record_event (pos 6000) tea (codes "seen") []).1
Held-Fits_example = Held-Fits (
    recorded (pos 6000) (codes "seen") []
      (made (codes "tea") (codes "green") [] (float (pos 5000)) tea_made))

record_event-Recorded_example :
    Recorded (pos 6000) tea (codes "seen") [] (record_event (pos 6000) tea (codes "seen") [])
record_event-Recorded_example = record_event-Recorded (pos 6000) tea (codes "seen") []

abbrev quarrel : ConflictVine ℤ
quarrel = record {
  topic = codes "tea";
  claim_a = codes "green";
  claim_b = codes "black";
  strength_a = pos 600;
  strength_b = pos 500;
  created_at = pos 5000;
  resolved = false;
}

fossilize_once_example :
    (((e : FossilizedEcho ℤ) × ((fossilize (pos 6000) (pos 7000) quarrel (codes "both")).0 ≡ ok e)
        × (false ≡ false)
        × ((fossilize (pos 6000) (pos 7000) quarrel (codes "both")).1
            ≡ record quarrel { resolved = true }))
      ⊎ ((x : Error) × (fossilize (pos 6000) (pos 7000) quarrel (codes "both") ≡ (err x, quarrel))))
    × (false ≡ true
        → fossilize (pos 6000) (pos 7000) quarrel (codes "both") ≡ (err value_error, quarrel))
fossilize_once_example = fossilize_once (pos 6000) (pos 7000) quarrel (codes "both")
