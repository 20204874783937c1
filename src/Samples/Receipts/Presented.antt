-- ===== src/Samples/Receipts/Presented.antt =====
-- The theorems of preflight_receipt.py at the receipt of the toy scheme.
use echo_veil.Base.{
  ℕ, ◌≤◌, ◌≡◌, refl, true, [], ◌∷◌, Result, Error, ok, err, value_error, runtime_error, ◌⊎◌,
  ok-injective, subst, length, arith,
}
use echo_veil.Base.Int.{ℤ, pos}
use echo_veil.Base.Texts.{codes, text_eq}
use echo_veil.Base.Floats.{fixed_point}
use echo_veil.Json.{Fields, null, boolean, dict, field, end}
use echo_veil.Json.{items, elem, to_items, member}
use echo_veil.Json.Print.{print, sort_keys}
use echo_veil.Receipts.{
  Bytes, max_receipt_bytes, max_consumed_receipts, check_capabilities, bind, digest, matches_digest,
  bounded_id, matches_id, matches_hex, entry, as_mapping, sort_texts,
}
use echo_veil.Receipts.Encoding.{b64, authority_id, canonical_json, canonical_value}
use echo_veil.Receipts.Issue.{clock_ms, issue, lifetime_ms}
use echo_veil.Receipts.Accepted.{verify_and_consume-issue}
use echo_veil.Receipts.Spent.{InOrder}
use echo_veil.Receipts.Once.{accepted_once}
use echo_veil.Receipts.Cache.{attempts-bounded, refused_keeps}
use echo_veil.Receipts.Verify.{
  consumed_at, unexpired, check, authentic, Attempt, verify_and_consume, after_attempts,
}
use echo_veil.Samples.Receipts.{
  repeat, toy, whole, turn, remembered, request, contents, receipt, verifier, presented,
  issued_receipt, signer, for_turn, nonce_text,
}

bytes_of : Result Bytes → Bytes
bytes_of (ok raw) = raw
bytes_of (err e) = []

length-bytes_of :
    (r : Result Bytes) (n : ℕ)
    → length (bytes_of r) ≤ n
    → (raw : Bytes) → r ≡ ok raw
    → length raw ≤ n
unfolding bytes_of
length-bytes_of (ok b) n h raw e = subst (λ (x : Bytes). length x ≤ n) (ok-injective e) h
length-bytes_of (err e) n h raw f = cc

claims_size :
    length (bytes_of (canonical_json (entry (codes "claims") receipt))) ≤ max_receipt_bytes
unfolding bytes_of canonical_json canonical_value entry member text_eq receipt print sort_keys
    contents issue repeat check_capabilities items elem bind digest matches_digest bounded_id
    matches_id to_items sort_texts toy authority_id b64
claims_size = omega arith

claims_fit :
    (encoded : Bytes)
    → canonical_json (entry (codes "claims") receipt) ≡ ok encoded
    → length encoded ≤ max_receipt_bytes
claims_fit =
    length-bytes_of (canonical_json (entry (codes "claims") receipt)) max_receipt_bytes claims_size

hex_id : matches_hex 32 (repeat 32 0x61) ≡ true
unfolding matches_hex repeat
hex_id = refl

own_key : verifier.public_key ≡ toy.public_bytes (repeat 32 7)
unfolding verifier toy
own_key = refl

own_authority : verifier.authority ≡ authority_id (toy.public_bytes (repeat 32 7))
unfolding verifier toy authority_id
own_authority = refl

nonce_size : length (repeat 32 0x43) ≡ 32
unfolding repeat
nonce_size = refl

lifetime : lifetime_ms request.lifetime_seconds ≡ ok (pos 90000)
unfolding lifetime_ms
lifetime = refl

accepted_first :
    (c : Fields ℤ) × (entry (codes "claims") receipt ≡ dict c)
    × ((verify_and_consume verifier (presented 8000)).0 ≡ ok c)
unfolding consumed_at verifier unexpired
accepted_first =
    verify_and_consume-issue (repeat 32 7) (repeat 32 0x43) (repeat 32 0x61) (pos 5000) request
      receipt verifier (presented 8000) (field (codes "ranking_ambiguous") (boolean true) end) 5000
      90000 8000 issued_receipt signer for_turn refl own_key own_authority refl lifetime refl
      (omega arith) (omega arith) (omega arith) hex_id nonce_text nonce_size claims_fit refl
      (omega arith)

verify_and_consume-issue_example :
    (c : Fields ℤ) × (entry (codes "claims") receipt ≡ dict c)
    × ((verify_and_consume verifier (presented 8000)).0 ≡ ok c)
unfolding consumed_at verifier unexpired
verify_and_consume-issue_example =
    verify_and_consume-issue (repeat 32 7) (repeat 32 0x43) (repeat 32 0x61) (pos 5000) request
      receipt verifier (presented 8000) (field (codes "ranking_ambiguous") (boolean true) end) 5000
      90000 8000 issued_receipt signer for_turn refl own_key own_authority refl lifetime refl
      (omega arith) (omega arith) (omega arith) hex_id nonce_text nonce_size claims_fit refl
      (omega arith)

in_order : InOrder (pos 8000) (presented 8500 ∷ presented 9000 ∷ [])
in_order = (refl, (refl, tt))

accepted_once_example :
    (e : Error) × ((verify_and_consume
        (after_attempts (presented 8500 ∷ []) (verify_and_consume verifier (presented 8000)).1)
        (presented 9000)).0
      ≡ err e)
accepted_once_example =
    accepted_once verifier (presented 8000) (presented 8500 ∷ []) (presented 9000) accepted_first.0
      accepted_first.2 refl in_order

empty_cache : length verifier.consumed ≤ max_consumed_receipts
unfolding verifier
empty_cache = omega arith

attempts-bounded_example :
    length (after_attempts (presented 8000 ∷ presented 8500 ∷ []) verifier).consumed
    ≤ max_consumed_receipts
attempts-bounded_example =
    attempts-bounded verifier (presented 8000 ∷ presented 8500 ∷ []) empty_cache

-- No mapping at all.
abbrev scribble : Attempt ℤ
scribble = record {
  now = pos 8000;
  value = null;
  context = remembered;
  query = codes "hi";
  binding = turn;
}

scribble_refused : (verify_and_consume verifier scribble).0 ≡ err value_error
unfolding verify_and_consume check authentic as_mapping
scribble_refused = refl

refused_keeps_example :
    ((verify_and_consume verifier scribble).1 ≡ verifier)
    ⊎ ((value_error ≡ runtime_error)
        × (max_consumed_receipts
            ≤ length (unexpired (clock_ms {F = ℤ} (pos 8000)) verifier.consumed))
        × ((verify_and_consume verifier scribble).1 ≡ record verifier {
          consumed = unexpired (clock_ms {F = ℤ} (pos 8000)) verifier.consumed;
        }))
refused_keeps_example = refused_keeps verifier scribble value_error scribble_refused
