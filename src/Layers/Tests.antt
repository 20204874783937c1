-- ===== src/Layers/Tests.antt =====
-- Runs of the layer policy over whole thousandths and the ASCII tables, and the theorems at them.
use echo_veil.Base.{
  ℕ, ◌+◌, ◌≡◌, refl, true, false, ◌&&◌, [], ◌∷◌, map, Option, none, some, ok, err, leb, ltb,
  if◌then◌else◌, value_error, String,
}
use echo_veil.Base.Texts.{codes, is_space, text_eq}
use echo_veil.Base.Int.{ℤ, pos}
use echo_veil.Base.Floats.{fixed_point, fixed_point-IsOrdered}
use echo_veil.Json.{
  Value, text, null, real, live, short_term, long_term, contextual_logic, causal_chain,
  contradiction_resolution, decision, principle,
}
use echo_veil.Json.{elem, same_set, items, to_items, member, names}
use echo_veil.Json.Print.{print, sort_keys, utf8}
use echo_veil.Layers.Words.{normalize, words, strip, join}
use echo_veil.Layers.Validate.{
  layer_value, kind_value, layer_of_value, kind_of_value, no_repeats, check_timestamp,
  validate_timestamp, validate_optional_timestamp, resolve_now, expiration_or_default,
  live_expiration, validate_contract_version, texts, parse_layer, parse_logic_kind, is_bounded,
  validate_bounded_text, validate_texts, validate_provenance, validate_related_ids, starts_with,
  has_durable_provenance, Unicode,
}
use echo_veil.Layers.Contract.{
  layer_eq, actual_transitions, allowed_transitions, is_allowed, in_order, optional_timestamp,
  times_fit, logic_fits, optional_real, evidence_dict, logic_dict, as_dict, to_json_bytes,
  is_expired, check_history, construct, Contract, Evidence,
}
use echo_veil.Layers.Moves.{
  dedupe, may_promote, additional_provenance, review_after, promote, refresh_live, new_history,
  new_expiration, new_logic, given_provenance, new_memory_contract,
}
use echo_veil.Layers.Decode.{
  required, expected_fields, legacy_fields, history_items, decode_event, decode_events,
  decode_logic, from_fields,
}
use echo_veil.Layers.Reach.{
  Issued, Issued-WellFormed, Issued-durable, Issued-chain, LongTermChain, fresh, promoted,
}
use echo_veil.Layers.Issued.{new_memory_contract-WellFormed}
use echo_veil.Layers.Form.{WellFormed}
use echo_veil.Layers.Roundtrip.{LowerKeeps, from_fields-as_dict_issued}
use echo_veil.Layers.Window.{Window, refresh_live-Window, new_memory_contract-Window, Window-expiry}
use echo_veil.Layers.Steps.{Moved, promote_one_up}

abbrev lower_char : ℕ → ℕ
lower_char c = if leb b'A' c && leb c b'Z' then c + 32 else c

instance abbrev ascii : Unicode
ascii = record {
  is_printable = λ c. leb 0x20 c && ltb c 0x7f;
  lower = map lower_char;
  casefold = map lower_char;
}

-- All that a run calls.
program : Unit {0}
unfolding elem same_set items to_items member names print sort_keys utf8 normalize words strip join
    layer_value kind_value layer_of_value kind_of_value no_repeats check_timestamp
    validate_timestamp validate_optional_timestamp resolve_now expiration_or_default live_expiration
    validate_contract_version texts parse_layer parse_logic_kind is_bounded validate_bounded_text
    validate_texts validate_provenance validate_related_ids starts_with has_durable_provenance
    layer_eq actual_transitions allowed_transitions is_allowed in_order optional_timestamp times_fit
    logic_fits optional_real evidence_dict logic_dict as_dict to_json_bytes is_expired check_history
    construct dedupe may_promote additional_provenance review_after promote refresh_live new_history
    new_expiration new_logic given_provenance new_memory_contract required expected_fields
    legacy_fields history_items decode_event decode_events decode_logic from_fields text_eq is_space
program = tt

abbrev word : String → Value ℤ
word s = text (codes s)

abbrev sources : Value ℤ
sources = texts (codes "ticket  42" ∷ [])

abbrev note_at : ℤ → Option ℤ → Contract ℤ
note_at t e = record {
  layer = live;
  provenance = codes "ticket 42" ∷ [];
  expires_at = e;
  review_at = none;
  promotion_history = [];
  logic_kind = none;
  related_ids = [];
  version = 1;
}

-- A live note at 5 s, its promotion at 6 s and that at 7 s.
abbrev note : Contract ℤ
note = note_at (pos 5000) (some (pos 1805000))

abbrev first : Evidence ℤ
first = record { source_layer = live; promoted_at = pos 6000; reason = codes "keep it" }

abbrev second : Evidence ℤ
second = record { source_layer = short_term; promoted_at = pos 7000; reason = codes "reviewed" }

abbrev short_note : Contract ℤ
short_note = record note {
  layer = short_term;
  expires_at = none;
  review_at = some (pos 604806000);
  promotion_history = first ∷ [];
}

abbrev long_note : Contract ℤ
long_note = record note {
  layer = long_term;
  expires_at = none;
  promotion_history = first ∷ second ∷ [];
}

note_made :
    new_memory_contract (pos 5000) (word " Live ") sources null null null null null ≡ ok note
unfolding program
note_made = refl

short_note_made :
    promote (pos 6000) note (word "short_term") (word " keep  it ") null null ≡ ok short_note
unfolding program
short_note_made = refl

long_note_made :
    promote (pos 0) short_note (word "long_term") (word "reviewed") sources (real (pos 7000))
    ≡ ok long_note
unfolding program
long_note_made = refl

long_note_issued : Issued long_note
long_note_issued =
    promoted (pos 0) (word "long_term") (word "reviewed") sources (real (pos 7000))
      (promoted (pos 6000) (word "short_term") (word " keep  it ") null null
        (fresh (pos 5000) (word " Live ") sources null null null null null note_made)
        short_note_made)
      long_note_made

-- Long-term memory cannot be written directly, and short-term memory cannot be promoted twice.
direct_refused :
    new_memory_contract (pos 5000) (word "long_term") sources null null null null null
    ≡ err value_error
unfolding program
direct_refused = refl

lower_keeps : LowerKeeps ascii
unfolding program
lower_keeps = record {
  layers = elim [ live ↦ refl | short_term ↦ refl | long_term ↦ refl | contextual_logic ↦ refl ];
  kinds = elim [
    | causal_chain ↦ refl
    | contradiction_resolution ↦ refl
    | decision ↦ refl
    | principle ↦ refl
  ];
}

Issued-WellFormed_example : WellFormed long_note
Issued-WellFormed_example = Issued-WellFormed long_note_issued

Issued-durable_example : has_durable_provenance long_note.provenance ≡ true
Issued-durable_example = Issued-durable long_note_issued tt

Issued-chain_example : LongTermChain long_note.promotion_history
Issued-chain_example = Issued-chain long_note_issued refl

from_fields-as_dict_example : from_fields (as_dict long_note) ≡ ok long_note
from_fields-as_dict_example = from_fields-as_dict_issued lower_keeps long_note_issued

promote_one_up_example : Moved (pos 0) short_note (real (pos 7000)) long_note
promote_one_up_example =
    promote_one_up (pos 0) short_note (word "long_term") (word "reviewed") sources (real (pos 7000))
      long_note_made

note_renewed :
    refresh_live (pos 8005000) note null null null ≡ ok (note_at (pos 0) (some (pos 9805000)))
unfolding program
note_renewed = refl

refresh_live-Window_example :
    (note.layer ≡ live)
    × ((current : ℤ) × (resolve_now (pos 8005000) null ≡ ok current)
        × Window current (note_at (pos 0) (some (pos 9805000))))
refresh_live-Window_example = refresh_live-Window (pos 8005000) note null null null note_renewed

new_memory_contract-Window_example :
    (current : ℤ) × (resolve_now (pos 5000) null ≡ ok current) × Window current note
new_memory_contract-Window_example =
    new_memory_contract-Window (pos 5000) (word " Live ") sources null null null null null note_made
      refl

Window-expiry_example :
    (is_expired (pos 0) (real (pos 5000)) note ≡ ok false)
    × (is_expired (pos 0) (real (pos 90000000)) note ≡ ok true)
unfolding program
Window-expiry_example =
    Window-expiry fixed_point-IsOrdered (pos 0) (pos 5000) (pos 90000000) note
      (new_memory_contract-WellFormed (pos 5000) (word " Live ") sources null null null null null
        note_made)
      (record {
        expiry = pos 1805000;
        is_live = refl;
        expires = refl;
        future = refl;
        within = refl;
      })
      refl refl refl
