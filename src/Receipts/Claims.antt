-- ===== src/Receipts/Claims.antt =====
-- How the verifier of preflight_receipt.py compares the claims of a receipt with the turn.
use echo_veil.Base.{Bool, true, false, not, ◌&&◌, List, [], ◌∷◌, eqb, if◌then◌else◌}
use echo_veil.Base.Int.{pos}
use echo_veil.Base.Texts.{Text, codes, text_eq}
use echo_veil.Base.Floats.{Float}
use echo_veil.Json.{
  Value, Items, Fields, null, boolean, integer, real, text, seq, dict, nil, cons, end,
}
use echo_veil.Receipts.{Bound, entry, preflight_receipt_schema}

-- The texts that the claims must have.
unfoldable pub expected_claims : Text → Bound → List (Text × Text)
expected_claims authority b =
    (codes "artifact_authority_id", b.artifact_authority_id)
    ∷ (codes "authority", codes "echo-veil")
    ∷ (codes "authority_id", authority)
    ∷ (codes "context_digest", b.context_digest)
    ∷ (codes "host", b.host)
    ∷ (codes "embedding_model_digest", b.embedding_model_digest)
    ∷ (codes "model_digest", b.model_digest)
    ∷ (codes "profile", b.profile)
    ∷ (codes "query_digest", b.query_digest)
    ∷ (codes "query_source", b.query_source)
    ∷ (codes "schema", preflight_receipt_schema)
    ∷ (codes "scope", b.scope)
    ∷ (codes "semantic_mode", codes "semantic")
    ∷ (codes "session_id", b.session_id)
    ∷ (codes "tool_manifest_digest", b.tool_manifest_digest)
    ∷ (codes "turn_id", b.turn_id)
    ∷ []

module _ {F : Type 0} ⦃fl : Float F⦄ where
  -- `claim == expected` for a bool, which equals the numbers 0 and 1.
  unfoldable pub is_bool : Bool → Value F → Bool
  is_bool true (boolean c) = c
  is_bool false (boolean c) = not c
  is_bool true (integer (pos n)) = eqb n 1
  is_bool false (integer (pos n)) = eqb n 0
  is_bool true (real x) = fl.le x (fl.decimal 1 0) && fl.le (fl.decimal 1 0) x
  is_bool false (real x) = fl.le x (fl.decimal 0 0) && fl.le (fl.decimal 0 0) x
  is_bool b value = false

module _ {F : Type 0} where
  -- `claim == expected` for a text and for a list of texts; a claim is JSON, so that a `seq` is a list.
  unfoldable pub is_text : Text → Value F → Bool
  is_text s (text t) = text_eq t s
  is_text s value = false

  unfoldable pub are_texts : List Text → Items F → Bool
  unfolding is_text
  are_texts [] nil = true
  are_texts (s ∷ ss) (cons v vs) = is_text s v && are_texts ss vs
  are_texts ss vs = false

  unfoldable pub is_text_list : List Text → Value F → Bool
  unfolding are_texts
  is_text_list ss (seq vs) = are_texts ss vs
  is_text_list ss value = false

  -- `recall.get(key) is True`
  unfoldable pub is_true : Value F → Bool
  is_true (boolean b) = b
  is_true value = false

  unfoldable pub is_null : Value F → Bool
  is_null null = true
  is_null value = false

  unfoldable pub claims_match : Fields F → List (Text × Text) → Bool
  unfolding is_text
  claims_match claims [] = true
  claims_match claims ((k, s) ∷ rest) = is_text s (entry k claims) && claims_match claims rest

-- `dict(context) if isinstance(context, Mapping) else {}`
unfoldable pub evidence_of : {F : Type 0} → Value F → Fields F
evidence_of (dict fs) = fs
evidence_of context = end

-- What the context of the turn lets the model do.
unfoldable pub context_capabilities : {F : Type 0} → Fields F → List Text
unfolding is_null
context_capabilities evidence =
    if is_null (entry (codes "contextual_logic") evidence)
    then codes "semantic_recall" ∷ []
    else codes "semantic_recall" ∷ codes "contextual_logic" ∷ []
