-- ===== src/Layers/Validate.antt =====
-- The validators of src/echo_veil/memory_layers.py and its limits.
use echo_veil.Base.{
  ℕ, ◌*◌, Bool, true, false, not, ◌&&◌, ◌||◌, List, [], ◌∷◌, map, Option, none, some, Result, ok,
  err, ◌>>=◌, ◌>>◌, type_error, value_error, guard, ltb, leb, eqb, if◌then◌else◌, any, all, length,
}
use echo_veil.Base.Texts.{Text, codes, text_eq}
use echo_veil.Base.Int.{pos, negsuc}
use echo_veil.Base.Floats.{Float}
use echo_veil.Json.{
  MemoryLayer, live, short_term, long_term, contextual_logic, LogicKind, causal_chain,
  contradiction_resolution, decision, principle, Value, null, integer, real, text, layer, kind, seq,
  items, to_items, elem,
}
use echo_veil.Layers.Words.{normalize, strip}

-- The character tables of the Unicode database that Python's `str` methods read.
pub record Unicode : Type 0 where
  pub is_printable : ℕ → Bool
  pub lower : Text → Text
  pub casefold : Text → Text

abbrev pub max_memory_contract_bytes : ℕ
max_memory_contract_bytes = 1024

abbrev pub max_provenance_items : ℕ
max_provenance_items = 4

abbrev pub max_provenance_chars : ℕ
max_provenance_chars = 160

abbrev pub max_promotion_reason_chars : ℕ
max_promotion_reason_chars = 240

abbrev pub max_promotion_events : ℕ
max_promotion_events = 2

abbrev pub max_related_ids : ℕ
max_related_ids = 8

abbrev pub max_related_id_chars : ℕ
max_related_id_chars = 128

abbrev pub default_live_ttl_seconds : ℕ
default_live_ttl_seconds = 30 * 60

abbrev pub max_live_ttl_seconds : ℕ
max_live_ttl_seconds = 24 * 60 * 60

abbrev pub short_term_review_seconds : ℕ
short_term_review_seconds = 7 * 24 * 60 * 60

-- The values of the enumerations.
unfoldable pub layer_value : MemoryLayer → Text
layer_value live = codes "live"
layer_value short_term = codes "short_term"
layer_value long_term = codes "long_term"
layer_value contextual_logic = codes "contextual_logic"

unfoldable pub kind_value : LogicKind → Text
kind_value causal_chain = codes "causal_chain"
kind_value contradiction_resolution = codes "contradiction_resolution"
kind_value decision = codes "decision"
kind_value principle = codes "principle"

-- `MemoryLayer(value)` and `LogicKind(value)`
unfoldable pub layer_of_value : Text → Result MemoryLayer
unfolding layer_value text_eq
layer_of_value s =
    if text_eq s (layer_value live)
    then ok live
    else if text_eq s (layer_value short_term)
    then ok short_term
    else if text_eq s (layer_value long_term)
    then ok long_term
    else if text_eq s (layer_value contextual_logic)
    then ok contextual_logic
    else err value_error

unfoldable pub kind_of_value : Text → Result LogicKind
unfolding kind_value text_eq
kind_of_value s =
    if text_eq s (kind_value causal_chain)
    then ok causal_chain
    else if text_eq s (kind_value contradiction_resolution)
    then ok contradiction_resolution
    else if text_eq s (kind_value decision)
    then ok decision
    else if text_eq s (kind_value principle)
    then ok principle
    else err value_error

-- `len(set(cleaned)) == len(cleaned)`
unfoldable pub no_repeats : List Text → Bool
no_repeats [] = true
no_repeats (s ∷ ss) = not (elem s ss) && no_repeats ss

module _ {F : Type 0} ⦃fl : Float F⦄ where
  unfoldable pub check_timestamp : F → Result F
  check_timestamp t =
      if not (fl.is_finite t) || fl.lt t (fl.decimal 0 0) then err value_error else ok t

  -- `_validate_timestamp`
  unfoldable pub validate_timestamp : Value F → Result F
  validate_timestamp (integer n) = check_timestamp (fl.of_int n)
  validate_timestamp (real x) = check_timestamp x
  validate_timestamp _ = err type_error

  -- `_validate_optional_timestamp`
  unfoldable pub validate_optional_timestamp : Value F → Result (Option F)
  validate_optional_timestamp null = ok none
  validate_optional_timestamp v = do t ← validate_timestamp v; ok (some t)

  -- `time.time() if now is None else _validate_timestamp(now, "now")`; `clock` is the reading.
  unfoldable pub resolve_now : F → Value F → Result F
  resolve_now clock null = ok clock
  resolve_now clock v = validate_timestamp v

  unfoldable pub expiration_or_default : Value F → F → Result F
  expiration_or_default null now = ok (fl.add now (fl.decimal default_live_ttl_seconds 0))
  expiration_or_default v now = validate_timestamp v

  -- `_live_expiration`
  unfoldable pub live_expiration : Value F → F → Result F
  live_expiration value now = do
    expiration ← expiration_or_default value now
    guard
        (fl.lt now expiration && fl.le expiration (fl.add now (fl.decimal max_live_ttl_seconds 0)))
        value_error
    ok expiration

-- The test of `_validate_bounded_text` on the cleaned text.
unfoldable pub is_bounded : ⦃uc : Unicode⦄ → ℕ → Text → Bool
is_bounded ⦃uc⦄ limit clean =
    not (eqb (length clean) 0)
    && leb (length clean) limit
    && all uc.is_printable clean
    && not (any (λ c. ltb c 0x20) clean)

module _ {F : Type 0} where
  -- `_validate_contract_version`
  unfoldable pub validate_contract_version : Value F → Result ℕ
  validate_contract_version (integer (pos n)) = if eqb n 1 then ok n else err value_error
  validate_contract_version (integer (negsuc n)) = err value_error
  validate_contract_version _ = err type_error

  -- `None`, or a list or tuple of texts.
  unfoldable pub texts : List Text → Value F
  texts ss = seq (to_items (map text ss))

  module _ ⦃uc : Unicode⦄ where
    -- `_parse_layer`
    unfoldable pub parse_layer : Value F → Result MemoryLayer
    unfolding layer_of_value
    parse_layer (layer l) = ok l
    parse_layer (text s) = layer_of_value (uc.lower (strip s))
    parse_layer (kind k) = layer_of_value (uc.lower (strip (kind_value k)))
    parse_layer _ = err type_error

    -- `_parse_logic_kind`
    unfoldable pub parse_logic_kind : Value F → Result LogicKind
    unfolding kind_of_value
    parse_logic_kind (kind k) = ok k
    parse_logic_kind (text s) = kind_of_value (uc.lower (strip s))
    parse_logic_kind (layer l) = kind_of_value (uc.lower (strip (layer_value l)))
    parse_logic_kind _ = err type_error

    -- `_validate_bounded_text`
    unfoldable pub validate_bounded_text : ℕ → Value F → Result Text
    validate_bounded_text limit (text s) =
        let clean = normalize s in if is_bounded limit clean then ok clean else err value_error
    validate_bounded_text limit (layer l) =
        let clean = normalize (layer_value l) in
        if is_bounded limit clean then ok clean else err value_error
    validate_bounded_text limit (kind k) =
        let clean = normalize (kind_value k) in
        if is_bounded limit clean then ok clean else err value_error
    validate_bounded_text limit _ = err type_error

    -- A generator over the items: the first error ends it.
    unfoldable pub validate_texts : ℕ → List (Value F) → Result (List Text)
    validate_texts limit [] = ok []
    validate_texts limit (v ∷ vs) = do
      s ← validate_bounded_text limit v
      rest ← validate_texts limit vs
      ok (s ∷ rest)

    -- `_validate_provenance`
    unfoldable pub validate_provenance : Bool → Value F → Result (List Text)
    validate_provenance explicit_required (seq vs) = do
      guard (not (eqb (length (items vs)) 0 && explicit_required)) value_error
      guard (leb 1 (length (items vs)) && leb (length (items vs)) max_provenance_items) value_error
      cleaned ← validate_texts max_provenance_chars (items vs)
      guard (no_repeats cleaned) value_error
      ok cleaned
    validate_provenance explicit_required _ = err type_error

    -- `_validate_related_ids`
    unfoldable pub validate_related_ids : Value F → Result (List Text)
    validate_related_ids null = ok []
    validate_related_ids (seq vs) = do
      guard (leb (length (items vs)) max_related_ids) value_error
      cleaned ← validate_texts max_related_id_chars (items vs)
      guard (no_repeats cleaned) value_error
      ok cleaned
    validate_related_ids _ = err type_error

-- `str.startswith`
unfoldable pub starts_with : Text → Text → Bool
starts_with [] s = true
starts_with (a ∷ p) [] = false
starts_with (a ∷ p) (c ∷ s) = eqb a c && starts_with p s

-- `_has_durable_provenance`
unfoldable pub has_durable_provenance : ⦃uc : Unicode⦄ → List Text → Bool
unfolding starts_with
has_durable_provenance ⦃uc⦄ ss = any (λ s. not (starts_with (codes "caller:") (uc.casefold s))) ss
