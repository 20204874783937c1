-- ===== src/Receipts/Encoding.antt =====
-- Canonical JSON, digests and base64 texts of preflight_receipt.py.
use echo_veil.Base.{
  ℕ, zero, suc, ◌-◌, ◌%◌, true, not, ◌&&◌, [], ◌∷◌, ◌++◌, Option, none, some, Result, ok, err,
  ◌>>=◌, ◌>>◌, guard, value_error, leb, ltb, eqb, if◌then◌else◌, length, all, any,
}
use echo_veil.Base.Texts.{Text, codes, text_eq}
use echo_veil.Base.Floats.{Float}
use echo_veil.Json.{
  Value, Items, Fields, null, boolean, integer, real, text, layer, kind, seq, dict, nil, cons, end,
  field,
}
use echo_veil.Layers.Validate.{layer_value, kind_value}
use echo_veil.Json.Print.{print, sort_keys, utf8}
use echo_veil.Receipts.{Bytes, Crypto, Rounding}

module _ {F : Type 0} ⦃fl : Float F⦄ ⦃rounding : Rounding F⦄ where
  unfoldable mutual
    -- `_canonical_value`
    pub canonical_value : Value F → Result (Value F)
    canonical_value null = ok null
    canonical_value (boolean b) = ok (boolean b)
    canonical_value (integer n) = ok (integer n)
    canonical_value (text s) = ok (text s)
    canonical_value (real x) =
        if fl.is_finite x
        then ok (elim (rounding.exact x) [ none ↦ real x | some n ↦ integer n ])
        else err value_error
    canonical_value (layer l) = ok (text (layer_value l))
    canonical_value (kind k) = ok (text (kind_value k))
    canonical_value (seq vs) = do vs' ← canonical_items vs; ok (seq vs')
    canonical_value (dict fs) = do fs' ← canonical_fields fs; ok (dict fs')

    pub canonical_items : Items F → Result (Items F)
    canonical_items nil = ok nil
    canonical_items (cons v vs) = do
      v' ← canonical_value v
      vs' ← canonical_items vs
      ok (cons v' vs')

    pub canonical_fields : Fields F → Result (Fields F)
    canonical_fields end = ok end
    canonical_fields (field k v fs) = do
      v' ← canonical_value v
      fs' ← canonical_fields fs
      ok (field k v' fs')

  -- `canonical_json`
  unfoldable pub canonical_json : Value F → Result Bytes
  canonical_json value = do v ← canonical_value value; print true (sort_keys v)

module _ ⦃cr : Crypto⦄ where
  -- `sha256_digest` of bytes and of a text.
  unfoldable pub sha256_bytes : Bytes → Text
  sha256_bytes raw = codes "sha256:" ++ cr.hexdigest raw

  unfoldable pub sha256_text : Text → Result Text
  unfolding sha256_bytes
  sha256_text value = do raw ← utf8 value; ok (sha256_bytes raw)

  unfoldable pub strip_padding : Text → Text
  strip_padding [] = []
  strip_padding (c ∷ s) =
      let rest = strip_padding s in if eqb c b'=' && eqb (length rest) 0 then [] else c ∷ rest

  -- `_b64`
  unfoldable pub b64 : Bytes → Text
  unfolding strip_padding
  b64 raw = strip_padding (cr.b64encode raw)

  unfoldable pub padding : ℕ → Text
  padding zero = []
  padding (suc n) = b'=' ∷ padding n

  -- What `_decode_b64` asks of the bytes that it decoded.
  unfoldable pub check_decoded : Text → ℕ → Option Bytes → Result Bytes
  unfolding b64
  check_decoded s size none = err value_error
  check_decoded s size (some raw) = do
    guard (text_eq (b64 raw) s) value_error
    guard (eqb (length raw) size) value_error
    ok raw

  -- `_decode_b64` of a text, with the size that it must have.
  unfoldable pub decode_text : Text → ℕ → Result Bytes
  unfolding check_decoded padding
  decode_text s size = do
    guard (ltb 0 (length s) && not (any (λ c. eqb c b'=') s) && leb (length s) 512) value_error
    guard (all (λ c. ltb c 128) s) value_error
    check_decoded s size (cr.b64decode (s ++ padding ((4 - length s % 4) % 4)))

  unfoldable pub decode_b64 : {F : Type 0} → Value F → ℕ → Result Bytes
  unfolding decode_text
  decode_b64 (text s) size = decode_text s size
  decode_b64 value size = err value_error

  -- The identifier of the authority with a public key.
  unfoldable pub authority_id : Bytes → Text
  unfolding sha256_bytes
  authority_id key = sha256_bytes (codes "echo-veil-preflight-authority-v2" ++ 0 ∷ key)
