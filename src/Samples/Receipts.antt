-- ===== src/Samples/Receipts.antt =====
-- A toy signature scheme and base64, a receipt made with them, and the theorems of
-- preflight_receipt.py at it.
mod Presented
use echo_veil.Base.{
  ℕ, zero, suc, ◌+◌, ◌/◌, ◌%◌, ◌≤◌, ◌≡◌, refl, Bool, true, false, List, [], ◌∷◌, ◌++◌, none, some,
  Result, Error, ok, err, value_error, runtime_error, ◌⊎◌, ok-injective, subst, length, eqb,
  if◌then◌else◌, arith,
}
use echo_veil.Base.Int.{ℤ, pos, pos_part}
use echo_veil.Base.Texts.{Text, is_space, codes, text_eq, text_eq_iff}
use echo_veil.Base.Floats.{fixed_point}
use echo_veil.Json.{Value, Fields, null, boolean, integer, text, seq, dict, nil, cons, field, end}
use echo_veil.Json.{items, elem, to_items, member}
use echo_veil.Layers.Words.{strip}
use echo_veil.Json.Print.{print, sort_keys, utf8}
use echo_veil.Receipts.{
  Bytes, Crypto, Rounding, Binding, max_receipt_bytes, max_consumed_receipts, check_capabilities,
  bind, digest, matches_digest, bounded_id, matches_id, matches_hex, after_prefix, entry,
  as_mapping, sort_texts,
}
use echo_veil.Receipts.Encoding.{
  b64, padding, authority_id, canonical_json, canonical_value, sha256_bytes, sha256_text,
}
use echo_veil.Receipts.Issue.{Request, clock_ms, issue, lifetime_ms}
use echo_veil.Receipts.Forms.{IsEncoded}
use echo_veil.Receipts.Accepted.{IsSigner, IsTurnOf, verify_and_consume-issue}
use echo_veil.Receipts.Spent.{InOrder}
use echo_veil.Receipts.Once.{accepted_once}
use echo_veil.Receipts.Cache.{attempts-bounded, refused_keeps}
use echo_veil.Receipts.Verify.{
  consumed_at, unexpired, check, authentic, Verifier, Attempt, verify_and_consume, after_attempts,
}
use echo_veil.Receipts.Claims.{evidence_of, is_true, context_capabilities}

unfoldable pub repeat : ℕ → ℕ → List ℕ
repeat zero c = []
repeat (suc n) c = c ∷ repeat n c

unfoldable pub unpadded : Text → Text
unpadded [] = []
unpadded (c ∷ s) = if eqb c b'=' then [] else c ∷ unpadded s

unfoldable pub letter : Bool → ℕ
letter true = 0x41
letter false = 0x44

unfoldable pub mark : Bytes → ℕ
unfolding letter
mark message = letter (eqb (length message % 2) 0)

-- Each text is its own base64 text, a signature tells whether its message has an even length, and a
-- digest names the length.
instance abbrev pub toy : Crypto
unfolding repeat unpadded mark
toy = record {
  hexdigest = λ raw. (0x30 + length raw % 10) ∷ repeat 63 0x61;
  public_bytes = λ key. repeat 32 0x41;
  sign = λ key message. mark message ∷ repeat 63 0x42;
  verifies = λ key signature message. text_eq signature (mark message ∷ repeat 63 0x42);
  b64encode = λ raw. raw;
  b64decode = λ s. some (unpadded s);
}

-- A whole number of thousandths.
instance abbrev pub whole : Rounding ℤ
whole = record {
  exact = λ x. if eqb (pos_part x % 1000) 0 then some (pos (pos_part x / 1000)) else none;
  truncate = λ x. pos (pos_part x / 1000);
  ceil = λ x. pos (pos_part x / 1000);
}

abbrev pub name : Value ℤ
name = text (codes "a1")

abbrev pub some_digest : ℕ → Value ℤ
unfolding repeat
some_digest c = text (codes "sha256:" ++ c ∷ repeat 63 0x61)

abbrev pub turn : Binding ℤ
turn = record {
  host = name;
  profile = name;
  scope = name;
  session_id = name;
  turn_id = name;
  query_source = name;
  embedding_model_digest = some_digest 0x30;
  model_digest = some_digest 0x30;
  tool_manifest_digest = some_digest 0x30;
  artifact_authority_id = some_digest 0x30;
}

-- {"recall":{"ranking_ambiguous":true}}
abbrev pub remembered : Value ℤ
remembered =
    dict (field (codes "recall") (dict (field (codes "ranking_ambiguous") (boolean true) end)) end)

abbrev pub request : Request ℤ
request = record {
  binding = turn;
  query_digest = some_digest 0x32;
  context_digest = some_digest 0x37;
  ambiguity = boolean true;
  conflict = boolean false;
  allowed_capabilities = seq (cons (text (codes "semantic_recall")) nil);
  lifetime_seconds = integer (pos 90);
}

unfoldable pub contents : Result (Fields ℤ) → Fields ℤ
contents (ok fs) = fs
contents (err e) = end

abbrev pub receipt : Fields ℤ
unfolding contents issue repeat
receipt = contents (issue (repeat 32 7) (pos 5000) (repeat 32 0x43) (repeat 32 0x61) request)

abbrev pub verifier : Verifier
unfolding repeat authority_id
verifier = record {
  public_key = repeat 32 0x41;
  authority = authority_id (repeat 32 0x41);
  consumed = [];
}

-- Presented three seconds after it was issued, and once more.
abbrev pub presented : ℕ → Attempt ℤ
presented now = record {
  now = pos now;
  value = dict receipt;
  context = remembered;
  query = codes " hi";
  binding = turn;
}

pub issued_receipt :
    issue (repeat 32 7) (pos 5000) (repeat 32 0x43) (repeat 32 0x61) request ≡ ok receipt
unfolding contents issue repeat check_capabilities items elem text_eq bind digest matches_digest
    bounded_id matches_id canonical_json canonical_value to_items sort_texts print sort_keys
issued_receipt = refl

pub signature_plain : (b : Bool) → IsEncoded (letter b ∷ repeat 63 0x42)
unfolding repeat unpadded b64 toy padding letter
signature_plain true = record {
  some_text = refl;
  unpadded = refl;
  short = refl;
  ascii = refl;
  decodes = refl;
}
signature_plain false = record {
  some_text = refl;
  unpadded = refl;
  short = refl;
  ascii = refl;
  decodes = refl;
}

pub signer : IsSigner (repeat 32 7)
unfolding repeat b64 toy padding mark
signer = record {
  public_text = record {
    some_text = refl;
    unpadded = refl;
    short = refl;
    ascii = refl;
    decodes = refl;
  };
  public_size = refl;
  signature_text = λ m. signature_plain (eqb (length m % 2) 0);
  signature_size = λ m. refl;
  verifies = λ m. (text_eq_iff (toy.sign (repeat 32 7) m) _).1 refl;
}

pub for_turn :
    IsTurnOf request (field (codes "ranking_ambiguous") (boolean true) end) (presented 8000)
unfolding repeat toy digest canonical_json canonical_value print sort_keys matches_digest
    matches_hex after_prefix sha256_bytes sha256_text strip utf8 entry member text_eq is_space
    evidence_of is_true context_capabilities to_items
for_turn = record {
  binding = refl;
  context = refl;
  query = refl;
  recalled = refl;
  ambiguity = refl;
  conflict = refl;
  capabilities = refl;
}

pub nonce_text : IsEncoded (repeat 32 0x43)
unfolding repeat b64 toy padding
nonce_text = record {
  some_text = refl;
  unpadded = refl;
  short = refl;
  ascii = refl;
  decodes = refl;
}
