-- ===== src/Receipts.antt =====
-- src/echo_veil/preflight_receipt.py: the parts that issuing and verifying a receipt share. SHA-256,
-- Ed25519 and the base64 module are a parameter; bytes and texts are lists of numbers.
pub mod Encoding
pub mod Issue
pub mod Claims
pub mod Verify
pub mod Spent
pub mod Once
pub mod Forms
pub mod Accepted
pub mod Cache
use echo_veil.Base.{
  ℕ, zero, suc, ◌+◌, ◌-◌, ◌*◌, ◌%◌, Bool, true, false, not, ◌&&◌, ◌||◌, List, [], ◌∷◌, ◌++◌, Option,
  none, some, Result, ok, err, ◌>>=◌, ◌>>◌, guard, type_error, value_error, leb, ltb, eqb,
  if◌then◌else◌, length, all, any,
}
use echo_veil.Base.Int.{ℤ, pos, negsuc}
use echo_veil.Base.Texts.{Text, codes, text_eq}
use echo_veil.Base.Floats.{Float}
use echo_veil.Json.{
  Value, Items, Fields, null, boolean, integer, real, text, layer, kind, seq, dict, nil, cons, end,
  field, member, elem, items,
}
use echo_veil.Json.Print.{print, sort_keys, utf8, text_lt}

abbrev pub Bytes : Type 0
Bytes = List ℕ

-- `hashlib.sha256(x).hexdigest()`, the Ed25519 keys of the cryptography package, and
-- `urlsafe_b64encode` and `urlsafe_b64decode`, which raises at none.
pub record Crypto : Type 0 where
  pub hexdigest : Bytes → Text
  pub public_bytes : Bytes → Bytes
  pub sign : Bytes → Bytes → Bytes
  pub verifies : Bytes → Bytes → Bytes → Bool
  pub b64encode : Bytes → Text
  pub b64decode : Text → Option Bytes

-- Floats and whole numbers: `int(x)` where `x.is_integer()`, `int(x)` and `math.ceil(x)`.
pub record Rounding (F : Type 0) : Type 0 where
  pub exact : F → Option ℤ
  pub truncate : F → ℤ
  pub ceil : F → ℤ

abbrev pub max_receipt_bytes : ℕ
max_receipt_bytes = 32768

abbrev pub max_consumed_receipts : ℕ
max_consumed_receipts = 4096

abbrev pub preflight_receipt_schema : Text
preflight_receipt_schema = codes "echo-veil-preflight-v2"

abbrev pub receipt_capabilities : List Text
receipt_capabilities =
    codes "semantic_recall"
    ∷ codes "contextual_logic"
    ∷ codes "mutations_allowed"
    ∷ codes "inferential_recall"
    ∷ []

abbrev pub claim_fields : List Text
claim_fields =
    codes "allowed_capabilities"
    ∷ codes "ambiguity"
    ∷ codes "artifact_authority_id"
    ∷ codes "authority"
    ∷ codes "authority_id"
    ∷ codes "conflict"
    ∷ codes "context_digest"
    ∷ codes "embedding_model_digest"
    ∷ codes "expires_at_ms"
    ∷ codes "host"
    ∷ codes "issued_at_ms"
    ∷ codes "model_digest"
    ∷ codes "nonce_b64"
    ∷ codes "preflight_id"
    ∷ codes "profile"
    ∷ codes "query_digest"
    ∷ codes "query_source"
    ∷ codes "schema"
    ∷ codes "scope"
    ∷ codes "semantic_mode"
    ∷ codes "session_id"
    ∷ codes "tool_manifest_digest"
    ∷ codes "turn_id"
    ∷ []

-- `[A-Za-z0-9]`, and the classes of the patterns for the rest.
unfoldable pub is_alphanumeric : ℕ → Bool
is_alphanumeric c =
    (leb b'A' c && leb c b'Z') || (leb b'a' c && leb c b'z') || (leb b'0' c && leb c b'9')

unfoldable pub is_id_char : ℕ → Bool
unfolding is_alphanumeric
is_id_char c =
    is_alphanumeric c
    || elem (c ∷ []) (codes "." ∷ codes "_" ∷ codes ":" ∷ codes "@" ∷ codes "/" ∷ codes "-" ∷ [])

unfoldable pub is_hex : ℕ → Bool
is_hex c = (leb b'0' c && leb c b'9') || (leb b'a' c && leb c b'f')

-- `_ID.fullmatch`
unfoldable pub matches_id : Text → Bool
unfolding is_id_char is_alphanumeric
matches_id [] = false
matches_id (c ∷ s) = is_alphanumeric c && all is_id_char s && leb (length s) 255

-- What follows a prefix of a text, if it starts with it.
unfoldable pub after_prefix : Text → Text → Option Text
after_prefix [] s = some s
after_prefix (c ∷ p) [] = none
after_prefix (c ∷ p) (d ∷ s) = if eqb c d then after_prefix p s else none

-- `_DIGEST.fullmatch` and `_HEX_ID.fullmatch`
unfoldable pub matches_hex : ℕ → Text → Bool
unfolding is_hex
matches_hex n s = all is_hex s && eqb (length s) n

unfoldable pub matches_digest : Text → Bool
unfolding after_prefix matches_hex
matches_digest s = elim (after_prefix (codes "sha256:") s) [
  | none ↦ false
  | some rest ↦ matches_hex 64 rest
]

module _ {F : Type 0} where
  -- `_bounded_id`
  unfoldable pub bounded_id : Value F → Result Text
  bounded_id (text s) = guard (matches_id s) value_error >> ok s
  bounded_id value = err value_error

  -- `_digest`
  unfoldable pub digest : Value F → Result Text
  digest (text s) = guard (matches_digest s) value_error >> ok s
  digest value = err value_error

  -- `_timestamp_ms`
  unfoldable pub timestamp_ms : Value F → Result ℤ
  timestamp_ms (integer (pos n)) = ok (pos n)
  timestamp_ms value = err value_error

  -- `mapping[key]` where the key is there, and `mapping.get(key)`
  unfoldable pub entry : Text → Fields F → Value F
  entry k fs = elim (member k fs) [ none ↦ null | some v ↦ v ]

  unfoldable pub as_mapping : Value F → Result (Fields F)
  as_mapping (dict fs) = ok fs
  as_mapping value = err value_error

  -- Whether `set` refuses a value.
  unfoldable pub is_unhashable : Value F → Bool
  is_unhashable (seq vs) = true
  is_unhashable (dict fs) = true
  is_unhashable value = false

  -- Each a capability of the receipts, none twice.
  unfoldable pub capability_names : List (Value F) → Option (List Text)
  capability_names [] = some []
  capability_names (text s ∷ vs) = elim (capability_names vs) [
    | none ↦ none
    | some ss ↦ if elem s receipt_capabilities && not (elem s ss) then some (s ∷ ss) else none
  ]
  capability_names (v ∷ vs) = none

  -- The check that both sides make of a list of capabilities. A receipt and its context are JSON, whose
  -- arrays are lists, so that a `seq` is a list here.
  unfoldable pub check_capabilities : Value F → Result (List Text)
  unfolding capability_names is_unhashable
  check_capabilities (seq vs) = do
    guard (leb (length (items vs)) 4) value_error
    guard (not (any is_unhashable (items vs))) type_error
    elim (capability_names (items vs)) [ none ↦ err value_error | some ss ↦ ok ss ]
  check_capabilities value = err value_error

-- `sorted`
unfoldable pub insert_text : Text → List Text → List Text
insert_text s [] = s ∷ []
insert_text s (t ∷ ts) = if text_lt t s then t ∷ insert_text s ts else s ∷ t ∷ ts

unfoldable pub sort_texts : List Text → List Text
unfolding insert_text
sort_texts [] = []
sort_texts (s ∷ ss) = insert_text s (sort_texts ss)

-- The texts that a receipt binds a turn to, as the caller gives them.
pub record Binding (F : Type 0) : Type 0 where
  pub host : Value F
  pub profile : Value F
  pub scope : Value F
  pub session_id : Value F
  pub turn_id : Value F
  pub query_source : Value F
  pub embedding_model_digest : Value F
  pub model_digest : Value F
  pub tool_manifest_digest : Value F
  pub artifact_authority_id : Value F

-- The texts of a binding that passed its checks, and the digests of what they go with.
pub record Bound : Type 0 where
  pub host : Text
  pub profile : Text
  pub scope : Text
  pub session_id : Text
  pub turn_id : Text
  pub query_source : Text
  pub embedding_model_digest : Text
  pub model_digest : Text
  pub tool_manifest_digest : Text
  pub artifact_authority_id : Text
  pub context_digest : Text
  pub query_digest : Text

module _ {F : Type 0} where
  -- The checks of both sides, with the digests as each side finds them.
  unfoldable pub bind : Result Text → Result Text → Binding F → Result Bound
  bind context_digest query_digest b = do
    artifact ← digest b.artifact_authority_id
    context ← context_digest
    host ← bounded_id b.host
    embedding ← digest b.embedding_model_digest
    model ← digest b.model_digest
    profile ← bounded_id b.profile
    query ← query_digest
    source ← bounded_id b.query_source
    scope ← bounded_id b.scope
    session ← bounded_id b.session_id
    manifest ← digest b.tool_manifest_digest
    turn ← bounded_id b.turn_id
    ok (record {
      host = host;
      profile = profile;
      scope = scope;
      session_id = session;
      turn_id = turn;
      query_source = source;
      embedding_model_digest = embedding;
      model_digest = model;
      tool_manifest_digest = manifest;
      artifact_authority_id = artifact;
      context_digest = context;
      query_digest = query;
    })
