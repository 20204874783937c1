-- ===== src/Layers/Decode.antt =====
-- `MemoryLayerContract.from_json_bytes` of src/echo_veil/memory_layers.py. The JSON parser is an
-- argument: `loads` is `strict_json_loads`.
use echo_veil.Base.{
  ℕ, false, not, ◌&&◌, ◌||◌, List, [], ◌∷◌, Option, none, some, Result, ok, err, ◌>>=◌, ◌>>◌,
  value_error, key_error, guard, leb, eqb, length,
}
use echo_veil.Base.Texts.{Text, codes}
use echo_veil.Base.Floats.{Float}
use echo_veil.Json.{LogicKind, Value, null, seq, dict, Fields, items, member, names, same_set}
use echo_veil.Layers.Validate.{
  Unicode, max_memory_contract_bytes, max_promotion_events, max_promotion_reason_chars,
  validate_timestamp, validate_optional_timestamp, validate_contract_version, parse_layer,
  parse_logic_kind, validate_bounded_text, validate_provenance, validate_related_ids,
}
use echo_veil.Layers.Contract.{Evidence, Contract, construct}

unfoldable pub expected_fields : List Text
expected_fields =
    codes "contract_version"
    ∷ codes "expires_at"
    ∷ codes "layer"
    ∷ codes "logic"
    ∷ codes "promotion_history"
    ∷ codes "provenance"
    ∷ codes "review_at"
    ∷ []

unfoldable pub legacy_fields : List Text
legacy_fields =
    codes "contract_version"
    ∷ codes "expires_at"
    ∷ codes "layer"
    ∷ codes "logic"
    ∷ codes "promotion"
    ∷ codes "provenance"
    ∷ codes "review_at"
    ∷ []

module _ {F : Type 0} where
  -- `decoded[key]`
  unfoldable pub required : Text → Fields F → Result (Value F)
  required k fs = elim (member k fs) [ none ↦ err key_error | some v ↦ ok v ]

  -- The `promotion` of a legacy contract as a history.
  legacy_history : Option (Value F) → Result (List (Value F))
  legacy_history none = err value_error
  legacy_history (some null) = ok []
  legacy_history (some v) = ok (v ∷ [])

  -- `history_raw`: what is no list raises.
  unfoldable pub history_items : Option (Value F) → Option (Value F) → Result (List (Value F))
  unfolding legacy_history
  history_items none promotion = legacy_history promotion
  history_items (some null) promotion = legacy_history promotion
  history_items (some (seq vs)) promotion = ok (items vs)
  history_items (some _) promotion = err value_error

module _ {F : Type 0} ⦃fl : Float F⦄ ⦃uc : Unicode⦄ where
  unfoldable pub decode_event : Value F → Result (Evidence F)
  decode_event (dict fs) = do
    guard (same_set (names fs) (codes "at" ∷ codes "from" ∷ codes "reason" ∷ [])) value_error
    from_raw ← required (codes "from") fs
    source ← parse_layer from_raw
    at_raw ← required (codes "at") fs
    promoted_at ← validate_timestamp at_raw
    reason_raw ← required (codes "reason") fs
    reason ← validate_bounded_text max_promotion_reason_chars reason_raw
    ok (record { source_layer = source; promoted_at = promoted_at; reason = reason })
  decode_event _ = err value_error

  unfoldable pub decode_events : List (Value F) → Result (List (Evidence F))
  decode_events [] = ok []
  decode_events (v ∷ vs) = do e ← decode_event v; rest ← decode_events vs; ok (e ∷ rest)

  unfoldable pub decode_logic : Value F → Result (Option LogicKind × List Text)
  decode_logic null = ok (none, [])
  decode_logic (dict fs) = do
    guard (same_set (names fs) (codes "kind" ∷ codes "related_ids" ∷ [])) value_error
    kind_raw ← required (codes "kind") fs
    k ← parse_logic_kind kind_raw
    ids_raw ← required (codes "related_ids") fs
    ids ← validate_related_ids ids_raw
    ok (some k, ids)
  decode_logic _ = err value_error

  -- The part of `from_json_bytes` behind the parser.
  unfoldable pub from_fields : Fields F → Result (Contract F)
  from_fields decoded = do
    guard (same_set (names decoded) expected_fields || same_set (names decoded) legacy_fields)
        value_error
    history_raw ←
        history_items (member (codes "promotion_history") decoded)
          (member (codes "promotion") decoded)
    guard (leb (length history_raw) max_promotion_events) value_error
    history ← decode_events history_raw
    logic_raw ← required (codes "logic") decoded
    logic ← decode_logic logic_raw
    layer_raw ← required (codes "layer") decoded
    layer ← parse_layer layer_raw
    provenance_raw ← required (codes "provenance") decoded
    provenance ← validate_provenance false provenance_raw
    expires_raw ← required (codes "expires_at") decoded
    expires_at ← validate_optional_timestamp expires_raw
    review_raw ← required (codes "review_at") decoded
    review_at ← validate_optional_timestamp review_raw
    version_raw ← required (codes "contract_version") decoded
    version ← validate_contract_version version_raw
    construct (record {
      layer = layer;
      provenance = provenance;
      expires_at = expires_at;
      review_at = review_at;
      promotion_history = history;
      logic_kind = logic.0;
      related_ids = logic.1;
      version = version;
    })

  from_value : Value F → Result (Contract F)
  from_value (dict fs) = from_fields fs
  from_value _ = err value_error

  -- `from_json_bytes`: whatever the parser raises is a `ValueError`.
  unfoldable pub from_json_bytes : (List ℕ → Result (Value F)) → List ℕ → Result (Contract F)
  unfolding from_value
  from_json_bytes loads payload = do
    guard (not (eqb (length payload) 0) && leb (length payload) max_memory_contract_bytes)
        value_error
    decoded ← elim (loads payload) [ ok v ↦ ok v | err e ↦ err value_error ]
    from_value decoded
