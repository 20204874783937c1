-- ===== src/Receipts/Accepted.antt =====
-- About `issue` and `verify_and_consume` of preflight_receipt.py, one after the other.
use echo_veil.Base.{
  ℕ, ◌+◌, ◌≤◌, ◌<◌, ◌≡◌, refl, sym, Bool, true, List, map, none, arith, ok, ◌>>=◌, >>=-eq-ok,
  ok-injective, length,
}
use echo_veil.Base.Int.{ℤ, pos, ◌+ℤ◌}
use echo_veil.Base.Texts.{Text, codes}
use echo_veil.Base.Floats.{Float}
use echo_veil.Layers.Words.{strip}
use echo_veil.Json.{Fields, text, boolean, seq, dict, to_items}
use echo_veil.Receipts.{
  Bytes, Crypto, Rounding, Bound, bind, digest, entry, check_capabilities, max_receipt_bytes,
  max_consumed_receipts, matches_hex,
}
use echo_veil.Receipts.Encoding.{canonical_json, sha256_bytes, sha256_text, b64, authority_id}
use echo_veil.Receipts.Issue.{Request, clock_ms, lifetime_ms, issue}
use echo_veil.Receipts.Verify.{
  Verifier, Attempt, Checked, consumed_at, unexpired, authentic, in_window, in_force, check_context,
  receipt_id, check_binding, check_forms, check, verify_and_consume,
}
use echo_veil.Receipts.Claims.{
  is_true, evidence_of, context_capabilities, expected_claims, claims_match,
}
use echo_veil.Receipts.Forms.{
  IsEncoded, issued_claims, receipt_entries, signed_receipt, claims_of-fields, claims_of-match,
  in_force-claims, receipt_id-claims, check_context-claims, check_forms-claims, authentic-signed,
  context_capabilities-check,
}

window-of_lifetime :
    (n m t : ℕ)
    → n ≤ t + 5000
    → t < n + m
    → m ≤ 120000
    → in_window (pos t) (pos n) (pos (n + m)) ≡ true
unfolding in_window
window-of_lifetime n m t early late short = ground arith

pos-add : (n m : ℕ) → pos n +ℤ pos m ≡ pos (n + m)
pos-add n m = ground arith

module _ ⦃cr : Crypto⦄ where
  -- What the libraries do for a signing key: its public key has 32 bytes, its signatures have 64 and
  -- verify, and the base64 texts of both decode.
  pub record IsSigner (key : Bytes) : Type 0 where
    pub public_text : IsEncoded (cr.public_bytes key)
    pub public_size : length (cr.public_bytes key) ≡ 32
    pub signature_text : (message : Bytes) → IsEncoded (cr.sign key message)
    pub signature_size : (message : Bytes) → length (cr.sign key message) ≡ 64
    pub verifies :
        (message : Bytes) → cr.verifies (cr.public_bytes key) (cr.sign key message) message ≡ true

module _ {F : Type 0} ⦃fl : Float F⦄ ⦃rounding : Rounding F⦄ ⦃cr : Crypto⦄ where
  -- A new receipt that passes the checks is accepted where the cache has room.
  accept_new :
      (v : Verifier) (a : Attempt F) (c : Checked F)
      → check v a ≡ ok c
      → consumed_at c.preflight_id v.consumed ≡ none
      → length (unexpired (clock_ms a.now) v.consumed) < max_consumed_receipts
      → (verify_and_consume v a).0 ≡ ok c.claims
  unfolding verify_and_consume
  accept_new v a c e new room = rw (e, new) (ground arith)

  -- A call of the verifier is for the turn of a request: the same binding, the context and the query
  -- with its digests, and flags and capabilities that follow from the context.
  pub record IsTurnOf (r : Request F) (recall : Fields F) (a : Attempt F) : Type 0 where
    pub binding : a.binding ≡ r.binding
    pub context :
        (canonical_json a.context >>= λ raw. ok (sha256_bytes raw)) ≡ digest r.context_digest
    pub query : sha256_text (strip a.query) ≡ digest r.query_digest
    pub recalled : entry (codes "recall") (evidence_of a.context) ≡ dict recall
    pub ambiguity : r.ambiguity ≡ boolean (is_true (entry (codes "ranking_ambiguous") recall))
    pub conflict : r.conflict ≡ boolean (is_true (entry (codes "competing_memory_detected") recall))
    pub capabilities :
        r.allowed_capabilities
        ≡ seq (to_items (map text (context_capabilities (evidence_of a.context))))

  -- What `issue` returns, with what it read off the request.
  issue_inversion :
      (key nonce : Bytes) (id : Text) (now : F) (r : Request F) {receipt : Fields F} (life : ℤ)
      (ambiguous conflicting : Bool) (names : List Text)
      → issue key now nonce id r ≡ ok receipt
      → lifetime_ms r.lifetime_seconds ≡ ok life
      → r.ambiguity ≡ boolean ambiguous
      → r.conflict ≡ boolean conflicting
      → check_capabilities r.allowed_capabilities ≡ ok names
      → (bound : Bound) × (encoded : Bytes) × (bind
            (digest r.context_digest)
            (digest r.query_digest)
            r.binding
          ≡ ok bound)
        × (let claims =
              issued_claims F
                (authority_id (cr.public_bytes key))
                bound
                ambiguous
                conflicting
                names
                (clock_ms now)
                (clock_ms now +ℤ life)
                (b64 nonce)
                id in
            (canonical_json (dict claims) ≡ ok encoded)
            × (receipt ≡ signed_receipt key claims encoded))
  unfolding issue
  issue_inversion key nonce id now r life ambiguous conflicting names h e1 e2 e3 e4 =
      let (bound, e5, r5) =
        >>=-eq-ok (bind (digest r.context_digest) (digest r.query_digest) r.binding) _
          (rw (e1, e2, e3, e4) at h) in
      let (encoded, json, r6) = >>=-eq-ok (canonical_json (dict _)) _ r5 in
      (bound, encoded, e5, (json, sym (ok-injective r6)))

  check_passes :
      (v : Verifier) (a : Attempt F) (claims : Fields F) (expires : ℤ) (id : Text)
      → authentic v.public_key a.value ≡ ok claims
      → in_force (clock_ms a.now) claims ≡ ok expires
      → check_binding v a claims ≡ ok tt
      → check_context a.context claims ≡ ok tt
      → receipt_id (entry (codes "preflight_id") claims) ≡ ok id
      → check_forms claims ≡ ok tt
      → check v a ≡ ok (record { preflight_id = id; expires_at_ms = expires; claims = claims })
  unfolding check
  check_passes v a claims expires id e1 e2 e3 e4 e5 e6 = rw (e1, e2, e3, e4, e5, e6) refl

  check_binding-turn :
      (v : Verifier) (a : Attempt F) (r : Request F) (recall claims : Fields F) (bound : Bound)
      → IsTurnOf r recall a
      → bind (digest r.context_digest) (digest r.query_digest) r.binding ≡ ok bound
      → claims_match claims (expected_claims v.authority bound) ≡ true
      → check_binding v a claims ≡ ok tt
  unfolding check_binding
  check_binding-turn v a r recall claims bound turn bindings same =
      rw (turn.context, turn.query, turn.binding, bindings, same) refl

  -- The verifier of the authority accepts what the authority issued, and returns the claims, for the
  -- turn that it was issued for, while it is in force, its identifier is new and the replay cache has
  -- room. The key signs as documented, the nonce has 32 bytes and its base64 text decodes, the claims
  -- have at most 32,768 bytes, and the clock readings and the lifetime of at most 120,000 are
  -- milliseconds from zero on, with the verifier's clock at most 5,000 behind.
  pub verify_and_consume-issue :
      (key nonce : Bytes) (id : Text) (now : F) (r : Request F) (receipt : Fields F) (v : Verifier)
      (a : Attempt F) (recall : Fields F) (n m t : ℕ)
      → issue key now nonce id r ≡ ok receipt
      → IsSigner key
      → IsTurnOf r recall a
      → a.value ≡ dict receipt
      → v.public_key ≡ cr.public_bytes key
      → v.authority ≡ authority_id (cr.public_bytes key)
      → clock_ms now ≡ pos n
      → lifetime_ms r.lifetime_seconds ≡ ok (pos m)
      → clock_ms a.now ≡ pos t
      → n ≤ t + 5000
      → t < n + m
      → m ≤ 120000
      → matches_hex 32 id ≡ true
      → IsEncoded nonce
      → length nonce ≡ 32
      → ((encoded : Bytes)
          → canonical_json (entry (codes "claims") receipt) ≡ ok encoded
          → length encoded ≤ max_receipt_bytes)
      → consumed_at id v.consumed ≡ none
      → length (unexpired (clock_ms a.now) v.consumed) < max_consumed_receipts
      → (c : Fields F) × (entry (codes "claims") receipt ≡ dict c)
        × ((verify_and_consume v a).0 ≡ ok c)
  verify_and_consume-issue key nonce id now r receipt v a recall n m t issued signer turn value own
        auth clock life later early late short hex plain size fits new room =
      let names = context_capabilities (evidence_of a.context) in
      let (allowed, kept) = context_capabilities-check F (evidence_of a.context) in
      let amb = is_true (entry (codes "ranking_ambiguous") recall) in
      let conf = is_true (entry (codes "competing_memory_detected") recall) in
      let (bound, encoded, bindings, (json, form)) =
        issue_inversion key nonce id now r (pos m) amb conf names issued life turn.ambiguity
          turn.conflict (rw turn.capabilities allowed) in
      let self = authority_id (cr.public_bytes key) in
      let start = clock_ms now in
      let stop = clock_ms now +ℤ pos m in
      let text64 = b64 nonce in
      let claims = issued_claims F self bound amb conf names start stop text64 id in
      let whole : entry (codes "claims") receipt ≡ dict claims =
        rw form (receipt_entries key claims encoded).1 in
      let signed : authentic v.public_key a.value ≡ ok claims =
        rw (own, value, form)
          (authentic-signed key claims encoded
            (claims_of-fields F self bound amb conf names start stop text64 id) json
            (fits encoded (rw whole json)) signer.public_text signer.public_size
            (signer.signature_text encoded) (signer.signature_size encoded)
            (signer.verifies encoded)) in
      let force =
        in_force-claims F self bound amb conf names start stop text64 id (clock_ms a.now) n (n + m)
          clock (rw clock (pos-add n m)) (rw later (window-of_lifetime n m t early late short)) in
      let bound_ok =
        check_binding-turn v a r recall claims bound turn bindings
          (rw auth (claims_of-match F self bound amb conf names start stop text64 id)) in
      let context_ok =
        check_context-claims F self bound amb conf names start stop text64 id a.context recall
          turn.recalled refl refl refl in
      let id_ok = receipt_id-claims F self bound amb conf names start stop text64 id hex in
      let forms_ok =
        check_forms-claims F self bound amb conf names start stop text64 id nonce
          (evidence_of a.context) refl plain size refl in
      (
        claims,
        whole,
        accept_new v a _
            (check_passes v a claims (pos (n + m)) id signed force bound_ok context_ok id_ok
              forms_ok)
            new room,
      )
