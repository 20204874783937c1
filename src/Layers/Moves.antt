-- ===== src/Layers/Moves.antt =====
-- What makes a contract in src/echo_veil/memory_layers.py: `new_memory_contract`, `promote`,
-- `refresh_live` and `migrated_short_term_contract`. `clock` is the reading of `time.time()`.
pub mod Dedupe
use echo_veil.Base.{
  Bool, true, false, not, ◌&&◌, ◌||◌, List, [], ◌∷◌, ◌++◌, Option, none, some, Result, ok, err,
  ◌>>=◌, ◌>>◌, type_error, value_error, guard, leb, if◌then◌else◌, length,
}
use echo_veil.Base.Texts.{Text, codes}
use echo_veil.Base.Floats.{Float}
use echo_veil.Json.{
  MemoryLayer, live, short_term, long_term, contextual_logic, LogicKind, Value, null, real, elem,
}
use echo_veil.Layers.Validate.{
  Unicode, max_provenance_items, max_promotion_reason_chars, short_term_review_seconds, resolve_now,
  validate_timestamp, live_expiration, parse_layer, parse_logic_kind, validate_bounded_text,
  validate_provenance, validate_related_ids, has_durable_provenance, texts,
}
use echo_veil.Layers.Contract.{Evidence, Contract, layer_eq, construct}

-- `tuple(dict.fromkeys(...))`: the first of equal items stays.
dedupe_from : List Text → List Text → List Text
dedupe_from seen [] = []
dedupe_from seen (s ∷ ss) =
    let fresh = s ∷ dedupe_from (s ∷ seen) ss in
    let again = dedupe_from seen ss in if elem s seen then again else fresh

unfoldable pub dedupe : List Text → List Text
unfolding dedupe_from elem
dedupe ss = dedupe_from [] ss

-- `allowed.get(self.layer) != target_layer`, negated
unfoldable pub may_promote : MemoryLayer → MemoryLayer → Bool
may_promote live short_term = true
may_promote short_term long_term = true
may_promote _ _ = false

module _ {F : Type 0} where
  abbrev pub is_null : Value F → Bool
  is_null null = true
  is_null _ = false

module _ {F : Type 0} ⦃fl : Float F⦄ ⦃uc : Unicode⦄ where
  -- `() if provenance is None else _validate_provenance(provenance, explicit_required=True)`
  unfoldable pub additional_provenance : Value F → Result (List Text)
  additional_provenance null = ok []
  additional_provenance v = validate_provenance true v

  -- `promotion_review` and the review of new short-term memory: seven days on.
  unfoldable pub review_after : MemoryLayer → F → Option F
  review_after short_term now = some (fl.add now (fl.decimal short_term_review_seconds 0))
  review_after _ now = none

  -- `MemoryLayerContract.promote`
  unfoldable pub promote :
      F → Contract F → (target reason provenance now : Value F) → Result (Contract F)
  promote clock c target reason provenance now = do
    target_layer ← parse_layer target
    guard (may_promote c.layer target_layer) value_error
    clean_reason ← validate_bounded_text max_promotion_reason_chars reason
    promoted_at ← resolve_now clock now
    additional ← additional_provenance provenance
    let combined = dedupe (c.provenance ++ additional)
    guard (leb (length combined) max_provenance_items) value_error
    guard (not (layer_eq target_layer long_term) || has_durable_provenance combined) value_error
    construct (record {
      layer = target_layer;
      provenance = combined;
      expires_at = none;
      review_at = review_after target_layer promoted_at;
      promotion_history =
          c.promotion_history
          ++ record { source_layer = c.layer; promoted_at = promoted_at; reason = clean_reason }
            ∷ [];
      logic_kind = none;
      related_ids = [];
      version = 1;
    })

  -- `MemoryLayerContract.refresh_live`
  unfoldable pub refresh_live :
      F → Contract F → (provenance expires_at now : Value F) → Result (Contract F)
  refresh_live clock c provenance expires_at now = do
    guard (layer_eq c.layer live) value_error
    current ← resolve_now clock now
    additional ← additional_provenance provenance
    let combined = dedupe (c.provenance ++ additional)
    guard (leb (length combined) max_provenance_items) value_error
    expiration ← live_expiration expires_at current
    construct (record {
      layer = live;
      provenance = combined;
      expires_at = some expiration;
      review_at = none;
      promotion_history = [];
      logic_kind = none;
      related_ids = [];
      version = 1;
    })

  -- The history of a new contract: one event for contextual logic, which needs a reason and
  -- provenance beyond the caller; no reason elsewhere.
  unfoldable pub new_history :
      F
      → MemoryLayer
      → (provenance : Value F) → List Text
      → (reason : Value F) → Result (List (Evidence F))
  new_history current contextual_logic provenance clean reason = do
    guard (not (is_null provenance) && has_durable_provenance clean) value_error
    clean_reason ← validate_bounded_text max_promotion_reason_chars reason
    ok (record { source_layer = short_term; promoted_at = current; reason = clean_reason } ∷ [])
  new_history current _ provenance clean reason = do guard (is_null reason) value_error; ok []

  unfoldable pub new_expiration : F → MemoryLayer → Value F → Result (Option F)
  new_expiration current live expires_at = do e ← live_expiration expires_at current; ok (some e)
  new_expiration current _ expires_at = do guard (is_null expires_at) value_error; ok none

  unfoldable pub new_logic :
      MemoryLayer → (logic_kind related_ids : Value F) → Result (Option LogicKind × List Text)
  new_logic contextual_logic logic_kind related_ids = do
    k ← parse_logic_kind logic_kind
    ids ← validate_related_ids related_ids
    guard (not (leb (length ids) 0)) value_error
    ok (some k, ids)
  new_logic _ logic_kind related_ids = do
    guard (is_null logic_kind && is_null related_ids) value_error
    ok (none, [])

  unfoldable pub given_provenance : Value F → Value F
  given_provenance null = texts (codes "caller:unspecified" ∷ [])
  given_provenance v = v

  -- `new_memory_contract`
  unfoldable pub new_memory_contract :
      F
      → (role provenance promotion_reason expires_at logic_kind related_ids now : Value F)
      → Result (Contract F)
  new_memory_contract clock role provenance promotion_reason expires_at logic_kind related_ids now =
      do
        current ← resolve_now clock now
        clean_layer ← parse_layer role
        guard (not (layer_eq clean_layer long_term)) value_error
        clean_provenance ←
            validate_provenance (layer_eq clean_layer contextual_logic)
              (given_provenance provenance)
        history ← new_history current clean_layer provenance clean_provenance promotion_reason
        expiration ← new_expiration current clean_layer expires_at
        logic ← new_logic clean_layer logic_kind related_ids
        construct (record {
          layer = clean_layer;
          provenance = clean_provenance;
          expires_at = expiration;
          review_at = review_after clean_layer current;
          promotion_history = history;
          logic_kind = logic.0;
          related_ids = logic.1;
          version = 1;
        })

  -- `migrated_short_term_contract`
  unfoldable pub migrated_short_term_contract : Value F → Result (Contract F)
  migrated_short_term_contract created_at = do
    timestamp ← validate_timestamp created_at
    construct (record {
      layer = short_term;
      provenance = codes "migration:pre-layer-contract" ∷ [];
      expires_at = none;
      review_at = some (fl.add timestamp (fl.decimal short_term_review_seconds 0));
      promotion_history = [];
      logic_kind = none;
      related_ids = [];
      version = 1;
    })
