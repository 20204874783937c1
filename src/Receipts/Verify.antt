-- ===== src/Receipts/Verify.antt =====
-- `PreflightReceiptVerifier` of preflight_receipt.py: the checks of a receipt and its context come
-- before the replay cache is read; whether the cache is full is asked after expired receipts are dropped.
use echo_veil.Base.{
  Bool, not, ◌||◌, List, [], ◌∷◌, Option, none, some, Result, ok, err, ◌>>=◌, ◌>>◌, guard,
  value_error, runtime_error, leb, eqb, if◌then◌else◌, length,
}
use echo_veil.Base.Int.{ℤ, pos, ◌+ℤ◌, ◌-ℤ◌, leb_ℤ, ltb_ℤ}
use echo_veil.Base.Texts.{Text, codes, text_eq}
use echo_veil.Base.Floats.{Float}
use echo_veil.Layers.Words.{strip}
use echo_veil.Json.{Value, Fields, text, dict, names, same_set}
use echo_veil.Receipts.{
  Bytes, Crypto, Rounding, Binding, bind, digest, entry, as_mapping, timestamp_ms, matches_hex,
  check_capabilities, claim_fields, max_receipt_bytes, max_consumed_receipts, sort_texts,
}
use echo_veil.Receipts.Encoding.{
  canonical_json, decode_b64, sha256_bytes, sha256_text, authority_id,
}
use echo_veil.Receipts.Issue.{clock_ms}
use echo_veil.Receipts.Claims.{
  expected_claims, is_bool, is_text_list, is_true, claims_match, evidence_of, context_capabilities,
}

-- Issued at most five seconds after now, and not expired, with a lifetime of at most 120 seconds.
unfoldable pub in_window : ℤ → ℤ → ℤ → Bool
in_window now issued expires = not (
    ltb_ℤ (now +ℤ pos 5000) issued
    || leb_ℤ expires now
    || ltb_ℤ expires issued
    || ltb_ℤ (pos 120000) (expires -ℤ issued))

-- `PreflightReceiptVerifier`: its key, the authority with that key, and the receipts that it consumed,
-- each with its expiry.
pub record Verifier : Type 0 where
  pub public_key : Bytes
  pub authority : Text
  pub consumed : List (Text × ℤ)

unfoldable pub consumed_at : Text → List (Text × ℤ) → Option ℤ
consumed_at k [] = none
consumed_at k ((j, e) ∷ d) = if text_eq j k then some e else consumed_at k d

-- `self._consumed[preflight_id] = expires_at_ms`
unfoldable pub consume : Text → ℤ → List (Text × ℤ) → List (Text × ℤ)
consume k e [] = (k, e) ∷ []
consume k e ((j, f) ∷ d) = if text_eq j k then (j, e) ∷ d else (j, f) ∷ consume k e d

-- The receipts that are not expired.
unfoldable pub unexpired : ℤ → List (Text × ℤ) → List (Text × ℤ)
unexpired now [] = []
unexpired now ((j, e) ∷ d) =
    let rest = unexpired now d in if ltb_ℤ now e then (j, e) ∷ rest else rest

-- A call of `verify_and_consume`, with the reading of the clock.
pub record Attempt (F : Type 0) : Type 0 where
  pub now : F
  pub value : Value F
  pub context : Value F
  pub query : Text
  pub binding : Binding F

-- What the checks read off a receipt that they pass.
pub record Checked (F : Type 0) : Type 0 where
  pub preflight_id : Text
  pub expires_at_ms : ℤ
  pub claims : Fields F

module _ {F : Type 0} ⦃fl : Float F⦄ ⦃rounding : Rounding F⦄ ⦃cr : Crypto⦄ where
  -- The claims of a receipt that the authority signed.
  unfoldable pub authentic : Bytes → Value F → Result (Fields F)
  authentic key value = do
    receipt ← as_mapping value
    guard
        (same_set (names receipt)
          (codes "claims" ∷ codes "public_key_b64" ∷ codes "signature_b64" ∷ []))
        value_error
    presented ← decode_b64 (entry (codes "public_key_b64") receipt) 32
    guard (text_eq presented key) value_error
    claims ← as_mapping (entry (codes "claims") receipt)
    guard (same_set (names claims) claim_fields) value_error
    encoded ← canonical_json (dict claims)
    guard (leb (length encoded) max_receipt_bytes) value_error
    signature ← decode_b64 (entry (codes "signature_b64") receipt) 64
    guard (cr.verifies key signature encoded) value_error
    ok claims

  -- The expiry of claims that are in force.
  unfoldable pub in_force : ℤ → Fields F → Result ℤ
  unfolding in_window
  in_force now claims = do
    issued ← timestamp_ms (entry (codes "issued_at_ms") claims)
    expires ← timestamp_ms (entry (codes "expires_at_ms") claims)
    guard (in_window now issued expires) value_error
    ok expires

  -- What the claims say of the context.
  unfoldable pub check_context : Value F → Fields F → Result (Unit {0})
  unfolding evidence_of
  check_context context claims = do
    let evidence = evidence_of context
    recall ← as_mapping (entry (codes "recall") evidence)
    guard
        (is_bool (is_true (entry (codes "ranking_ambiguous") recall))
          (entry (codes "ambiguity") claims))
        value_error
    guard
        (is_bool (is_true (entry (codes "competing_memory_detected") recall))
          (entry (codes "conflict") claims))
        value_error
    guard
        (is_text_list (sort_texts (context_capabilities evidence))
          (entry (codes "allowed_capabilities") claims))
        value_error

  -- The identifier of a receipt.
  unfoldable pub receipt_id : Value F → Result Text
  receipt_id (text s) = guard (matches_hex 32 s) value_error >> ok s
  receipt_id value = err value_error

  -- The claims bind the turn.
  unfoldable pub check_binding : Verifier → Attempt F → Fields F → Result (Unit {0})
  check_binding v a claims = do
    bound ←
        bind (do raw ← canonical_json a.context; ok (sha256_bytes raw))
          (sha256_text (strip a.query)) a.binding
    guard (claims_match claims (expected_claims v.authority bound)) value_error

  -- The nonce and the capabilities have their forms.
  unfoldable pub check_forms : Fields F → Result (Unit {0})
  check_forms claims = do
    nonce ← decode_b64 (entry (codes "nonce_b64") claims) 32
    capabilities ← check_capabilities (entry (codes "allowed_capabilities") claims)
    ok tt

  -- Every check before the replay cache.
  unfoldable pub check : Verifier → Attempt F → Result (Checked F)
  check v a = do
    claims ← authentic v.public_key a.value
    expires ← in_force (clock_ms a.now) claims
    check_binding v a claims
    check_context a.context claims
    id ← receipt_id (entry (codes "preflight_id") claims)
    check_forms claims
    ok (record { preflight_id = id; expires_at_ms = expires; claims = claims })

  -- The replay cache: expired receipts are dropped, and one that is new to it is noted.
  unfoldable pub spend_new : Verifier → Checked F → List (Text × ℤ) → Result (Fields F) × Verifier
  spend_new v c kept =
      if leb max_consumed_receipts (length kept)
      then (err runtime_error, record v { consumed = kept })
      else (ok c.claims, record v { consumed = consume c.preflight_id c.expires_at_ms kept })

  unfoldable pub spend : Verifier → ℤ → Checked F → Option ℤ → Result (Fields F) × Verifier
  unfolding spend_new
  spend v now c (some _) = (err value_error, v)
  spend v now c none = spend_new v c (unexpired now v.consumed)

  unfoldable pub accept : Verifier → ℤ → Result (Checked F) → Result (Fields F) × Verifier
  unfolding spend
  accept v now (err e) = (err e, v)
  accept v now (ok c) = spend v now c (consumed_at c.preflight_id v.consumed)

  -- `verify_and_consume`
  unfoldable pub verify_and_consume : Verifier → Attempt F → Result (Fields F) × Verifier
  unfolding accept
  verify_and_consume v a = accept v (clock_ms a.now) (check v a)

  -- The verifier that a sequence of calls leaves.
  unfoldable pub after_attempts : List (Attempt F) → Verifier → Verifier
  unfolding verify_and_consume
  after_attempts [] v = v
  after_attempts (a ∷ rest) v = after_attempts rest (verify_and_consume v a).1

  -- `PreflightReceiptVerifier.__init__`
  unfoldable pub new_verifier : Bytes → Value F → Result Verifier
  new_verifier key expected = do
    guard (eqb (length key) 32) value_error
    named ← digest expected
    guard (text_eq (authority_id key) named) value_error
    ok (record { public_key = key; authority = authority_id key; consumed = [] })
