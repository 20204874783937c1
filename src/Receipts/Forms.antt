-- ===== src/Receipts/Forms.antt =====
-- About the forms of the claims and receipts that preflight_receipt.py issues.
use echo_veil.Base.{
  ℕ, ◌-◌, ◌%◌, ◌≤◌, ◌≡◌, refl, inl, inr, Bool, true, false, List, [], ◌∷◌, ◌++◌, map, some, arith,
  ok, Bool-cases, leb, ltb, eqb, le→leb, length, any, all,
}
use echo_veil.Base.Int.{ℤ, pos}
use echo_veil.Base.Texts.{Text, codes, text_eq, text_eq_iff}
use echo_veil.Base.Floats.{Float}
use echo_veil.Json.{
  Value, Fields, text, boolean, seq, dict, field, end, member, names, same_set, to_items,
}
use echo_veil.Json.{items, elem}
use echo_veil.Json.Print.{text_lt}
use echo_veil.Receipts.{
  Bytes, Crypto, Rounding, Bound, entry, as_mapping, timestamp_ms, check_capabilities, claim_fields,
  max_receipt_bytes, matches_hex, sort_texts,
}
use echo_veil.Receipts.Encoding.{
  canonical_json, b64, padding, decode_text, check_decoded, decode_b64,
}
use echo_veil.Receipts.Issue.{claims_of}
use echo_veil.Receipts.Verify.{
  authentic, in_window, in_force, check_context, receipt_id, check_forms,
}
use echo_veil.Receipts.Claims.{
  is_bool, is_text_list, is_true, are_texts, is_null, evidence_of, context_capabilities,
  expected_claims, claims_match,
}

eqb_self : (n : ℕ) → eqb n n ≡ true
eqb_self n = ground arith

pub text_eq_self : (s : Text) → text_eq s s ≡ true
text_eq_self s = (text_eq_iff s s).1 refl

module _ ⦃cr : Crypto⦄ where
  -- The base64 text of some bytes is short and plain, and decodes to them.
  pub record IsEncoded (raw : Bytes) : Type 0 where
    pub some_text : ltb 0 (length (b64 raw)) ≡ true
    pub unpadded : any (λ c. eqb c b'=') (b64 raw) ≡ false
    pub short : leb (length (b64 raw)) 512 ≡ true
    pub ascii : all (λ c. ltb c 128) (b64 raw) ≡ true
    pub decodes : cr.b64decode (b64 raw ++ padding ((4 - length (b64 raw) % 4) % 4)) ≡ some raw

  pub decode_text-b64 :
      (raw : Bytes) (n : ℕ) → IsEncoded raw → length raw ≡ n → decode_text (b64 raw) n ≡ ok raw
  unfolding decode_text check_decoded
  decode_text-b64 raw n h size =
      rw
        (
          h.some_text,
          h.unpadded,
          h.short,
          h.ascii,
          h.decodes,
          text_eq_self (b64 raw),
          size,
          eqb_self n,
        )
        refl

pub is_bool-boolean : (F : Type 0) ⦃fl : Float F⦄ (b : Bool) → is_bool {F = F} b (boolean b) ≡ true
unfolding is_bool
is_bool-boolean F true = refl
is_bool-boolean F false = refl

are_texts-texts :
    (F : Type 0) (ss : List Text) → are_texts {F = F} ss (to_items (map text ss)) ≡ true
unfolding are_texts to_items
are_texts-texts F [] = refl
are_texts-texts F (s ∷ ss) = rw (text_eq_self s) (are_texts-texts F ss)

pub context_capabilities-check :
    (F : Type 0) (evidence : Fields F)
    → let names = context_capabilities evidence in
      (check_capabilities {F = F} (seq (to_items (map text names))) ≡ ok names)
      × (check_capabilities {F = F} (seq (to_items (map text (sort_texts names))))
          ≡ ok (sort_texts names))
unfolding check_capabilities context_capabilities sort_texts to_items items elem text_eq text_lt
context_capabilities-check F evidence =
    elim (Bool-cases (is_null (entry (codes "contextual_logic") evidence))) [
      | inl e ↦ rw e (refl, refl)
      | inr e ↦ rw e (refl, refl)
    ]

module _ (F : Type 0) where
  module _ (authority : Text) (b : Bound) (ambiguous conflicting : Bool) (capabilities : List Text)
      (issued expires : ℤ) (nonce id : Text) where
    abbrev pub issued_claims : Fields F
    issued_claims = claims_of authority b ambiguous conflicting capabilities issued expires nonce id

    pub claims_of-fields : same_set (names issued_claims) claim_fields ≡ true
    unfolding claims_of names same_set text_eq
    claims_of-fields = refl

    pub claims_of-match : claims_match issued_claims (expected_claims authority b) ≡ true
    unfolding claims_of claims_match expected_claims entry member text_eq
    claims_of-match = simp text_eq_self

    pub in_force-claims :
        ⦃fl : Float F⦄ ⦃rounding : Rounding F⦄ ⦃cr : Crypto⦄
        → (now : ℤ) (n e : ℕ) → issued ≡ pos n
        → expires ≡ pos e
        → in_window now (pos n) (pos e) ≡ true
        → in_force now issued_claims ≡ ok (pos e)
    unfolding claims_of in_force timestamp_ms entry member text_eq
    in_force-claims now n e i x h = rw (i, x, h) refl

    pub receipt_id-claims :
        ⦃fl : Float F⦄ ⦃rounding : Rounding F⦄ ⦃cr : Crypto⦄
        → matches_hex 32 id ≡ true
        → receipt_id (entry (codes "preflight_id") issued_claims) ≡ ok id
    unfolding claims_of receipt_id entry member text_eq
    receipt_id-claims h = rw h refl

    entry-flags :
        (entry (codes "ambiguity") issued_claims ≡ boolean ambiguous)
        × (entry (codes "conflict") issued_claims ≡ boolean conflicting)
    unfolding claims_of entry member text_eq
    entry-flags = (refl, refl)

    entry-forms :
        (entry (codes "nonce_b64") issued_claims ≡ text nonce)
        × (entry (codes "allowed_capabilities") issued_claims
            ≡ seq (to_items (map text (sort_texts capabilities))))
    unfolding claims_of entry member text_eq
    entry-forms = (refl, refl)

    pub check_context-claims :
        ⦃fl : Float F⦄ ⦃rounding : Rounding F⦄ ⦃cr : Crypto⦄
        → (context : Value F) (recall : Fields F)
        → entry (codes "recall") (evidence_of context) ≡ dict recall
        → ambiguous ≡ is_true (entry (codes "ranking_ambiguous") recall)
        → conflicting ≡ is_true (entry (codes "competing_memory_detected") recall)
        → capabilities ≡ context_capabilities (evidence_of context)
        → check_context context issued_claims ≡ ok tt
    unfolding check_context as_mapping is_text_list evidence_of
    check_context-claims context recall e m c names =
        rw
          (
            e,
            entry-flags.0,
            entry-flags.1,
            entry-forms.1,
            ← m,
            ← c,
            ← names,
            is_bool-boolean F ambiguous,
            is_bool-boolean F conflicting,
            are_texts-texts F (sort_texts capabilities),
          )
          refl

    pub check_forms-claims :
        ⦃fl : Float F⦄ ⦃rounding : Rounding F⦄ ⦃cr : Crypto⦄
        → (raw : Bytes) (evidence : Fields F) → nonce ≡ b64 raw
        → IsEncoded raw
        → length raw ≡ 32
        → capabilities ≡ context_capabilities evidence
        → check_forms issued_claims ≡ ok tt
    unfolding check_forms decode_b64
    check_forms-claims raw evidence e h size names =
        rw
          (
            entry-forms.0,
            entry-forms.1,
            e,
            names,
            decode_text-b64 raw 32 h size,
            (context_capabilities-check F evidence).1,
          )
          refl

module _ {F : Type 0} ⦃fl : Float F⦄ ⦃rounding : Rounding F⦄ ⦃cr : Crypto⦄ (key : Bytes) where
  abbrev pub signed_receipt : Fields F → Bytes → Fields F
  signed_receipt claims encoded = field (codes "claims") (dict claims) (
      field (codes "public_key_b64") (text (b64 (cr.public_bytes key)))
        (field (codes "signature_b64") (text (b64 (cr.sign key encoded))) end))

  pub receipt_entries :
      (claims : Fields F) (encoded : Bytes)
      → (same_set
            (names (signed_receipt claims encoded))
            (codes "claims" ∷ codes "public_key_b64" ∷ codes "signature_b64" ∷ [])
          ≡ true)
        × (entry (codes "claims") (signed_receipt claims encoded) ≡ dict claims)
        × (entry (codes "public_key_b64") (signed_receipt claims encoded)
            ≡ text (b64 (cr.public_bytes key)))
        × (entry (codes "signature_b64") (signed_receipt claims encoded)
            ≡ text (b64 (cr.sign key encoded)))
  unfolding names same_set entry member text_eq
  receipt_entries claims encoded = (refl, refl, refl, refl)

  pub authentic-signed :
      (claims : Fields F) (encoded : Bytes)
      → same_set (names claims) claim_fields ≡ true
      → canonical_json (dict claims) ≡ ok encoded
      → length encoded ≤ max_receipt_bytes
      → IsEncoded (cr.public_bytes key)
      → length (cr.public_bytes key) ≡ 32
      → IsEncoded (cr.sign key encoded)
      → length (cr.sign key encoded) ≡ 64
      → cr.verifies (cr.public_bytes key) (cr.sign key encoded) encoded ≡ true
      → authentic (cr.public_bytes key) (dict (signed_receipt claims encoded)) ≡ ok claims
  unfolding authentic as_mapping decode_b64
  authentic-signed claims encoded fields json fits pub_text pub_size sig_text sig_size valid =
      let parts = receipt_entries claims encoded in
      rw
        (
          parts.0,
          parts.1,
          parts.2,
          parts.3,
          fields,
          json,
          decode_text-b64 (cr.public_bytes key) 32 pub_text pub_size,
          decode_text-b64 (cr.sign key encoded) 64 sig_text sig_size,
          text_eq_self (cr.public_bytes key),
          le→leb _ _ fits,
          valid,
        )
        refl
