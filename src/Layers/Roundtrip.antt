-- ===== src/Layers/Roundtrip.antt =====
-- Decoding the dictionary of `as_dict` in memory_layers.py; the JSON text between the two is left out.
use echo_veil.Base.{
  ◌≤◌, ◌≡◌, refl, sym, ap, true, List, [], ◌∷◌, map, Option, none, some, ok, arith, All, length,
  length-map,
}
use echo_veil.Base.Texts.{Text, is_space, text_eq}
use echo_veil.Base.Floats.{Float}
use echo_veil.Json.{
  Value, text, items-to_items, LogicKind, MemoryLayer, live, contextual_logic, causal_chain, member,
  names, same_set,
}
use echo_veil.Layers.Words.{strip}
use echo_veil.Layers.Validate.{
  Unicode, layer_value, kind_value, layer_of_value, kind_of_value, parse_layer, parse_logic_kind,
  validate_timestamp, validate_optional_timestamp, validate_contract_version,
  max_promotion_reason_chars, max_related_id_chars, no_repeats,
}
use echo_veil.Layers.Contract.{
  Evidence, Contract, construct, as_dict, evidence_dict, logic_dict, optional_real, logic_fits,
}
use echo_veil.Layers.Decode.{
  decode_event, decode_events, decode_logic, from_fields, history_items, required, expected_fields,
}
use echo_veil.Layers.Clean.{Clean, bounded_text_again, provenance_again, related_ids_again}
use echo_veil.Layers.Reach.{Issued, Issued-WellFormed, Issued-constructed}
use echo_veil.Layers.Form.{WellFormed, IsEvent, IsOptionalTime}

-- What is relied on of `str.lower`: it keeps the values of the enumerations, which are lower case.
pub record LowerKeeps (uc : Unicode) : Type 0 where
  pub layers : (l : MemoryLayer) → uc.lower (layer_value l) ≡ layer_value l
  pub kinds : (k : LogicKind) → uc.lower (kind_value k) ≡ kind_value k

strip_layer : (l : MemoryLayer) → strip (layer_value l) ≡ layer_value l
unfolding strip layer_value is_space
strip_layer live = refl
strip_layer _ = refl

strip_kind : (k : LogicKind) → strip (kind_value k) ≡ kind_value k
unfolding strip kind_value is_space
strip_kind causal_chain = refl
strip_kind _ = refl

layer_back : (l : MemoryLayer) → layer_of_value (layer_value l) ≡ ok l
unfolding layer_of_value
layer_back live = refl
layer_back _ = refl

kind_back : (k : LogicKind) → kind_of_value (kind_value k) ≡ ok k
unfolding kind_of_value
kind_back causal_chain = refl
kind_back _ = refl

module _ (F : Type 0) ⦃uc : Unicode⦄ (keeps : LowerKeeps uc) where
  layer_again : (l : MemoryLayer) → parse_layer (let v : Value F = text (layer_value l) in v) ≡ ok l
  unfolding parse_layer
  layer_again l = rw (strip_layer l) (rw (keeps.layers l) (layer_back l))

  kind_again :
      (k : LogicKind) → parse_logic_kind (let v : Value F = text (kind_value k) in v) ≡ ok k
  unfolding parse_logic_kind
  kind_again k = rw (strip_kind k) (rw (keeps.kinds k) (kind_back k))

no_kind_no_ids :
    (role : MemoryLayer) (k : Option LogicKind) (ids : List Text)
    → logic_fits role k ids ≡ true
    → k ≡ none
    → ids ≡ []
unfolding logic_fits
no_kind_no_ids live none [] h e = refl
no_kind_no_ids contextual_logic none ids h e = cc
no_kind_no_ids _ none [] h e = refl
no_kind_no_ids _ none (i ∷ ids) h e = cc
no_kind_no_ids _ (some k) ids h e = cc

module _ (F : Type 0) ⦃fl : Float F⦄ ⦃uc : Unicode⦄ (keeps : LowerKeeps uc) where
  logic_again :
      (k : Option LogicKind) (ids : List Text)
      → (k ≡ none → ids ≡ [])
      → All (Clean max_related_id_chars) ids
      → no_repeats ids ≡ true
      → length ids ≤ 8
      → decode_logic (let v : Value F = logic_dict k ids in v) ≡ ok (k, ids)
  unfolding decode_logic logic_dict required member names same_set text_eq
  logic_again none ids e c u l = ap (λ r. ok (none, r)) (sym (e refl))
  logic_again (some k) ids e c u l = rw (kind_again F keeps k) (rw (related_ids_again F ids c u l))

module _ {F : Type 0} ⦃fl : Float F⦄ where
  optional_again :
      (o : Option F) → IsOptionalTime o → validate_optional_timestamp (optional_real o) ≡ ok o
  unfolding validate_optional_timestamp validate_timestamp optional_real
  optional_again none h = refl
  optional_again (some t) h = rw h

  module _ ⦃uc : Unicode⦄ (keeps : LowerKeeps uc) where
    event_again : (e : Evidence F) → IsEvent e → decode_event (evidence_dict e) ≡ ok e
    unfolding decode_event evidence_dict validate_timestamp required member names same_set text_eq
    event_again e h =
        rw (layer_again F keeps e.source_layer)
          (rw h.0 (rw (bounded_text_again F max_promotion_reason_chars e.reason h.1)))

    events_again :
        (es : List (Evidence F)) → All IsEvent es → decode_events (map evidence_dict es) ≡ ok es
    unfolding decode_events
    events_again [] h = refl
    events_again (e ∷ es) h = rw (event_again e h.0) (rw (events_again es h.1))

    -- The parser's part: a contract that is well formed and was constructed comes back from its
    -- dictionary form.
    from_fields-as_dict :
        (c : Contract F) → WellFormed c → construct c ≡ ok c → from_fields (as_dict c) ≡ ok c
    unfolding from_fields as_dict required history_items member names same_set text_eq
        expected_fields validate_contract_version
    from_fields-as_dict c w built = rw items-to_items (
        ground (
          arith,
          events_again c.promotion_history w.events_valid,
          length-map evidence_dict c.promotion_history,
          w.events_capped,
          logic_again F keeps c.logic_kind c.related_ids
              (no_kind_no_ids c.layer c.logic_kind c.related_ids w.logic) w.related_clean
              w.related_unique w.related_capped,
          layer_again F keeps c.layer,
          provenance_again F c.provenance w.provenance_clean w.provenance_unique w.provenance_some
              w.provenance_capped,
          optional_again c.expires_at w.expiry_valid,
          optional_again c.review_at w.review_valid,
          w.version_one,
          built,
        ))

-- Reading the dictionary form of a contract that was issued gives back the contract, where the case
-- mapping keeps the names of the layers and of the relationship types.
pub from_fields-as_dict_issued :
    {F : Type 0} ⦃fl : Float F⦄ ⦃uc : Unicode⦄ (keeps : LowerKeeps uc) {c : Contract F}
    → Issued c
    → from_fields (as_dict c) ≡ ok c
from_fields-as_dict_issued keeps {c} i =
    from_fields-as_dict keeps c (Issued-WellFormed i) (Issued-constructed i)
