-- ===== src/Layers/Contract.antt =====
-- `PromotionEvidence` and `MemoryLayerContract` of src/echo_veil/memory_layers.py: the checks that
-- construction makes, the dictionary form and its bytes, expiry and recommendations.
use echo_veil.Base.{
  ℕ, Bool, true, false, not, ◌&&◌, List, [], ◌∷◌, map, Option, none, some, Result, ok, ◌>>=◌, ◌>>◌,
  value_error, guard, leb, eqb, if◌then◌else◌, any, length,
}
use echo_veil.Base.Texts.{Text, codes}
use echo_veil.Base.Int.{pos}
use echo_veil.Base.Floats.{Float}
use echo_veil.Json.{
  MemoryLayer, live, short_term, long_term, contextual_logic, LogicKind, Value, null, integer, real,
  text, seq, dict, Fields, end, field, to_items,
}
use echo_veil.Json.Print.{print, utf8, sort_fields}
use echo_veil.Layers.Validate.{
  Unicode, max_memory_contract_bytes, max_promotion_reason_chars, max_promotion_events, layer_value,
  kind_value, check_timestamp, validate_provenance, validate_related_ids, validate_bounded_text,
  texts, resolve_now,
}

-- `PromotionEvidence`
pub record Evidence (F : Type 0) : Type 0 where
  pub source_layer : MemoryLayer
  pub promoted_at : F
  pub reason : Text

-- `MemoryLayerContract`
pub record Contract (F : Type 0) : Type 0 where
  pub layer : MemoryLayer
  pub provenance : List Text
  pub expires_at : Option F
  pub review_at : Option F
  pub promotion_history : List (Evidence F)
  pub logic_kind : Option LogicKind
  pub related_ids : List Text
  pub version : ℕ

unfoldable pub layer_eq : MemoryLayer → MemoryLayer → Bool
layer_eq live live = true
layer_eq short_term short_term = true
layer_eq long_term long_term = true
layer_eq contextual_logic contextual_logic = true
layer_eq _ _ = false

abbrev pub Transition : Type 0
Transition = MemoryLayer × MemoryLayer

transitions_eq : List Transition → List Transition → Bool
unfolding layer_eq
transitions_eq [] [] = true
transitions_eq ((a, b) ∷ s) ((c, d) ∷ t) = (layer_eq a c && layer_eq b d) && transitions_eq s t
transitions_eq _ _ = false

-- `allowed_transitions`
unfoldable pub allowed_transitions : MemoryLayer → List (List Transition)
allowed_transitions live = [] ∷ []
allowed_transitions short_term = [] ∷ ((live, short_term) ∷ []) ∷ []
allowed_transitions long_term =
    ((short_term, long_term) ∷ []) ∷ ((live, short_term) ∷ (short_term, long_term) ∷ []) ∷ []
allowed_transitions contextual_logic = ((short_term, contextual_logic) ∷ []) ∷ []

module _ {F : Type 0} where
  -- `actual_transitions`: the last event leads to the layer, the others to short term.
  unfoldable pub actual_transitions : MemoryLayer → List (Evidence F) → List Transition
  actual_transitions role [] = []
  actual_transitions role (e ∷ []) = (e.source_layer, role) ∷ []
  actual_transitions role (e ∷ f ∷ es) =
      (e.source_layer, short_term) ∷ actual_transitions role (f ∷ es)

  unfoldable pub is_allowed : MemoryLayer → List (Evidence F) → Bool
  unfolding transitions_eq allowed_transitions actual_transitions
  is_allowed role history =
      any (transitions_eq (actual_transitions role history)) (allowed_transitions role)

-- The tests on the logic kind and the related ids.
unfoldable pub logic_fits : MemoryLayer → Option LogicKind → List Text → Bool
logic_fits contextual_logic none ids = false
logic_fits contextual_logic (some k) [] = false
logic_fits contextual_logic (some k) (i ∷ ids) = true
logic_fits _ none [] = true
logic_fits _ _ _ = false

module _ {F : Type 0} ⦃fl : Float F⦄ where
  -- `any(left.promoted_at > right.promoted_at ...)`, negated
  unfoldable pub in_order : List (Evidence F) → Bool
  in_order [] = true
  in_order (e ∷ []) = true
  in_order (e ∷ f ∷ es) = not (fl.lt f.promoted_at e.promoted_at) && in_order (f ∷ es)

  unfoldable pub optional_timestamp : Option F → Result (Unit {0})
  optional_timestamp none = ok tt
  optional_timestamp (some t) = do check_timestamp t; ok tt

  -- The two tests on `expires_at` and `review_at`.
  unfoldable pub times_fit : MemoryLayer → Option F → Option F → Bool
  times_fit live (some e) none = true
  times_fit short_term none (some r) = true
  times_fit long_term none none = true
  times_fit contextual_logic none none = true
  times_fit _ _ _ = false

  unfoldable pub optional_real : Option F → Value F
  optional_real none = null
  optional_real (some t) = real t

  -- `PromotionEvidence.as_dict`
  unfoldable pub evidence_dict : Evidence F → Value F
  evidence_dict e = dict (
      field (codes "from") (text (layer_value e.source_layer))
        (field (codes "at") (real e.promoted_at) (field (codes "reason") (text e.reason) end)))

  unfoldable pub logic_dict : Option LogicKind → List Text → Value F
  logic_dict none ids = null
  logic_dict (some k) ids =
      dict
        (field (codes "kind") (text (kind_value k)) (field (codes "related_ids") (texts ids) end))

  -- `as_dict`
  unfoldable pub as_dict : Contract F → Fields F
  as_dict c = field (codes "contract_version") (integer (pos c.version)) (
      field (codes "layer") (text (layer_value c.layer)) (
        field (codes "provenance") (texts c.provenance) (
          field (codes "expires_at") (optional_real c.expires_at) (
            field (codes "review_at") (optional_real c.review_at) (
              field (codes "promotion_history")
                (seq (to_items (map evidence_dict c.promotion_history)))
                (field (codes "logic") (logic_dict c.logic_kind c.related_ids) end))))))

  -- `to_json_bytes`
  unfoldable pub to_json_bytes : Contract F → Result (List ℕ)
  to_json_bytes c = do s ← print false (dict (sort_fields (as_dict c))); utf8 s

  -- `is_expired`
  unfoldable pub is_expired : F → Value F → Contract F → Result Bool
  unfolding resolve_now
  is_expired clock now c = do
    current ← resolve_now clock now
    ok (elim c.expires_at [ none ↦ false | some e ↦ fl.le e current ])

  module _ ⦃uc : Unicode⦄ where
    unfoldable pub check_history : List (Evidence F) → Result (Unit {0})
    check_history [] = ok tt
    check_history (e ∷ es) = do
      check_timestamp e.promoted_at
      validate_bounded_text max_promotion_reason_chars (let v : Value F = text e.reason in v)
      check_history es

    -- `__post_init__`, and with it the constructor call: the contract, or the error that it raises.
    unfoldable pub construct : Contract F → Result (Contract F)
    construct c = do
      guard (eqb c.version 1) value_error
      validate_provenance false (let v : Value F = texts c.provenance in v)
      optional_timestamp c.expires_at
      optional_timestamp c.review_at
      guard (leb (length c.promotion_history) max_promotion_events) value_error
      check_history c.promotion_history
      validate_related_ids (let v : Value F = texts c.related_ids in v)
      guard (times_fit c.layer c.expires_at c.review_at) value_error
      guard (is_allowed c.layer c.promotion_history) value_error
      guard (in_order c.promotion_history) value_error
      guard (logic_fits c.layer c.logic_kind c.related_ids) value_error
      encoded ← to_json_bytes c
      guard (leb (length encoded) max_memory_contract_bytes) value_error
      ok c

-- The two entries of `recommendations`: the state of a live memory, and whether review is due.
pub data Advice : Type 0 where
  live_expired live_active : Advice
  review_due retain_until_review : Advice
  already_long_term : Advice
  derived_not_promoted : Advice

module _ {F : Type 0} ⦃fl : Float F⦄ where
  advice : MemoryLayer → Option F → F → Bool → Advice
  advice live review current expired = if expired then live_expired else live_active
  advice short_term none current expired = retain_until_review
  advice short_term (some r) current expired =
      if fl.le r current then review_due else retain_until_review
  advice long_term review current expired = already_long_term
  advice contextual_logic review current expired = derived_not_promoted

  -- `recommendations`
  unfoldable pub recommendations : F → Value F → Contract F → Result Advice
  unfolding advice
  recommendations clock now c = do
    current ← resolve_now clock now
    expired ← is_expired clock (real current) c
    ok (advice c.layer c.review_at current expired)
