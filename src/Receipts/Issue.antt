-- ===== src/Receipts/Issue.antt =====
-- `PreflightReceiptAuthority.issue` of preflight_receipt.py.
use echo_veil.Base.{
  Bool, ◌&&◌, List, Option, none, some, map, Result, ok, err, ◌>>=◌, ◌>>◌, guard, type_error,
  value_error,
}
use echo_veil.Base.Int.{ℤ, pos, ◌+ℤ◌}
use echo_veil.Base.Texts.{Text, codes}
use echo_veil.Base.Floats.{Float}
use echo_veil.Json.{Value, Fields, boolean, integer, real, text, seq, dict, end, field, to_items}
use echo_veil.Receipts.{
  Bytes, Crypto, Rounding, Binding, Bound, bind, digest, check_capabilities, sort_texts,
  preflight_receipt_schema,
}
use echo_veil.Receipts.Encoding.{canonical_json, b64, authority_id}

-- The arguments of `issue` beside the binding.
pub record Request (F : Type 0) : Type 0 where
  pub binding : Binding F
  pub query_digest : Value F
  pub context_digest : Value F
  pub ambiguity : Value F
  pub conflict : Value F
  pub allowed_capabilities : Value F
  pub lifetime_seconds : Value F

module _ {F : Type 0} ⦃fl : Float F⦄ where
  -- `float(value)` of an int or a float that is no bool.
  unfoldable pub seconds : Value F → Option F
  seconds (integer n) = some (fl.of_int n)
  seconds (real x) = some x
  seconds value = none

module _ {F : Type 0} where
  unfoldable pub flag : Value F → Result Bool
  flag (boolean b) = ok b
  flag value = err type_error

  unfoldable pub binding_claims : Bound → Fields F
  binding_claims b = field (codes "profile") (text b.profile) (
      field (codes "query_digest") (text b.query_digest) (
        field (codes "query_source") (text b.query_source) (
          field (codes "schema") (text preflight_receipt_schema) (
            field (codes "scope") (text b.scope) (
              field (codes "semantic_mode") (text (codes "semantic")) (
                field (codes "session_id") (text b.session_id) (
                  field (codes "tool_manifest_digest") (text b.tool_manifest_digest)
                    (field (codes "turn_id") (text b.turn_id) end))))))))

  -- The claims that a receipt makes, in the order of the source.
  unfoldable pub claims_of : Text → Bound → Bool → Bool → List Text → ℤ → ℤ → Text → Text → Fields F
  unfolding binding_claims
  claims_of authority b ambiguous conflicting capabilities issued expires nonce id =
      field (codes "allowed_capabilities") (seq (to_items (map text (sort_texts capabilities)))) (
        field (codes "ambiguity") (boolean ambiguous) (
          field (codes "artifact_authority_id") (text b.artifact_authority_id) (
            field (codes "authority") (text (codes "echo-veil")) (
              field (codes "authority_id") (text authority) (
                field (codes "conflict") (boolean conflicting) (
                  field (codes "context_digest") (text b.context_digest) (
                    field (codes "embedding_model_digest") (text b.embedding_model_digest) (
                      field (codes "expires_at_ms") (integer expires) (
                        field (codes "host") (text b.host) (
                          field (codes "issued_at_ms") (integer issued) (
                            field (codes "model_digest") (text b.model_digest) (
                              field (codes "nonce_b64") (text nonce) (
                                field (codes "preflight_id") (text id)
                                  (binding_claims b))))))))))))))

module _ {F : Type 0} ⦃fl : Float F⦄ ⦃rounding : Rounding F⦄ ⦃cr : Crypto⦄ where
  -- The milliseconds of a lifetime in seconds, at most 120.
  unfoldable pub lifetime_ms : Value F → Result ℤ
  unfolding seconds
  lifetime_ms value = elim (seconds value) [
    | none ↦ err value_error
    | some x ↦
        guard (fl.lt (fl.decimal 0 0) x && fl.le x (fl.decimal 120 0)) value_error
        >> ok (rounding.ceil (fl.mul x (fl.of_int (pos 1000))))
  ]

  -- `int(self._clock() * 1_000)` at a reading of the clock.
  abbrev pub clock_ms : F → ℤ
  clock_ms now = rounding.truncate (fl.mul now (fl.of_int (pos 1000)))

  -- A receipt over its claims.
  unfoldable pub sign_claims : Bytes → Fields F → Result (Fields F)
  sign_claims key claims = do
    encoded ← canonical_json (dict claims)
    ok (
        field (codes "claims") (dict claims) (
          field (codes "public_key_b64") (text (b64 (cr.public_bytes key)))
            (field (codes "signature_b64") (text (b64 (cr.sign key encoded))) end)))

  -- `issue` with the signing key, at a reading of the clock, with 32 random bytes and the
  -- hexadecimal form of 16.
  unfoldable pub issue : Bytes → F → Bytes → Text → Request F → Result (Fields F)
  unfolding lifetime_ms flag sign_claims claims_of
  issue key now nonce id r = do
    lifetime ← lifetime_ms r.lifetime_seconds
    ambiguous ← flag r.ambiguity
    conflicting ← flag r.conflict
    capabilities ← check_capabilities r.allowed_capabilities
    bound ← bind (digest r.context_digest) (digest r.query_digest) r.binding
    sign_claims key (
        claims_of (authority_id (cr.public_bytes key)) bound ambiguous conflicting capabilities
          (clock_ms now) (clock_ms now +ℤ lifetime) (b64 nonce) id)
