-- ===== src/Json/Print.antt =====
-- `json.dumps(value, separators=(",", ":"), allow_nan=False)`, with the `ensure_ascii` and
-- `sort_keys` of its callers in memory_layers.py and conflict.py, and `.encode("utf-8")`.
use echo_veil.Base.{
  ℕ, zero, suc, ◌+◌, ◌-◌, ◌/◌, ◌%◌, Bool, true, false, not, ◌&&◌, ◌||◌, [], ◌∷◌, ◌++◌, Result, ok,
  err, ◌>>=◌, value_error, type_error, ltb, leb, eqb, if◌then◌else◌,
}
use echo_veil.Base.Texts.{Text, codes}
use echo_veil.Base.Int.{ℤ, pos, negsuc}
use echo_veil.Base.Floats.{Float}
use echo_veil.Json.{
  Value, null, boolean, integer, real, text, layer, kind, seq, dict, Items, nil, cons, Fields, end,
  field,
}

-- `str(n)`, a digit for each round.
decimal_loop : ℕ → ℕ → Text → Text
decimal_loop zero n acc = acc
decimal_loop (suc f) n acc =
    let rest = decimal_loop f (n / 10) ((48 + n % 10) ∷ acc) in
    if ltb n 10 then (48 + n) ∷ acc else rest

unfoldable pub decimal_text : ℤ → Text
unfolding decimal_loop
decimal_text (pos n) = decimal_loop (suc n) n []
decimal_text (negsuc n) = b'-' ∷ decimal_loop (suc (suc n)) (suc n) []

hex_digit : ℕ → ℕ
hex_digit d = if ltb d 10 then 48 + d else 87 + d

-- `\uXXXX`
unicode_escape : ℕ → Text
unfolding hex_digit
unicode_escape c =
    0x5c
    ∷ b'u'
    ∷ hex_digit (c / 4096 % 16)
    ∷ hex_digit (c / 256 % 16)
    ∷ hex_digit (c / 16 % 16)
    ∷ hex_digit (c % 16)
    ∷ []

-- One character of a string literal. `ascii` is `ensure_ascii`.
escape_char : Bool → ℕ → Text
unfolding unicode_escape
escape_char ascii c =
    if eqb c 0x22
    then codes "\\\""
    else if eqb c 0x5c
    then codes "\\\\"
    else if eqb c 0x0a
    then codes "\\n"
    else if eqb c 0x0d
    then codes "\\r"
    else if eqb c 0x09
    then codes "\\t"
    else if eqb c 0x0c
    then codes "\\f"
    else if eqb c 0x08
    then codes "\\b"
    else if ltb c 0x20
    then unicode_escape c
    else if not ascii || ltb c 0x7f
    then c ∷ []
    else if ltb c 0x10000
    then unicode_escape c
    else unicode_escape (0xd800 + (c - 0x10000) / 1024 % 1024)
      ++ unicode_escape (0xdc00 + (c - 0x10000) % 1024)

escape : Bool → Text → Text
unfolding escape_char
escape ascii [] = []
escape ascii (c ∷ s) = escape_char ascii c ++ escape ascii s

quote : Bool → Text → Text
unfolding escape
quote ascii s = b'"' ∷ (escape ascii s ++ b'"' ∷ [])

-- `sort_keys=True`: by code points.
unfoldable pub text_lt : Text → Text → Bool
text_lt [] [] = false
text_lt [] (b ∷ t) = true
text_lt (a ∷ s) [] = false
text_lt (a ∷ s) (b ∷ t) = ltb a b || (eqb a b && text_lt s t)

module _ {F : Type 0} where
  insert_field : Text → Value F → Fields F → Fields F
  insert_field k v end = field k v end
  insert_field k v (field j w fs) =
      if text_lt k j then field k v (field j w fs) else field j w (insert_field k v fs)

  -- Nested objects are sorted too.
  unfoldable mutual
    unfolding insert_field text_lt

    pub sort_keys : Value F → Value F
    sort_keys null = null
    sort_keys (boolean b) = boolean b
    sort_keys (integer n) = integer n
    sort_keys (real x) = real x
    sort_keys (text s) = text s
    sort_keys (layer l) = layer l
    sort_keys (kind k) = kind k
    sort_keys (seq vs) = seq (sort_items vs)
    sort_keys (dict fs) = dict (sort_fields fs)

    pub sort_items : Items F → Items F
    sort_items nil = nil
    sort_items (cons v vs) = cons (sort_keys v) (sort_items vs)

    pub sort_fields : Fields F → Fields F
    sort_fields end = end
    sort_fields (field k v fs) = insert_field k (sort_keys v) (sort_fields fs)

module _ {F : Type 0} ⦃fl : Float F⦄ where
  unfoldable mutual
    unfolding decimal_text quote

    pub print : Bool → Value F → Result Text
    print ascii null = ok (codes "null")
    print ascii (boolean true) = ok (codes "true")
    print ascii (boolean false) = ok (codes "false")
    print ascii (integer n) = ok (decimal_text n)
    print ascii (real x) = if fl.is_finite x then ok (fl.repr x) else err value_error
    print ascii (text s) = ok (quote ascii s)
    print ascii (layer l) = err type_error
    print ascii (kind k) = err type_error
    print ascii (seq vs) = do s ← print_items ascii vs; ok (b'[' ∷ (s ++ b']' ∷ []))
    print ascii (dict fs) = do s ← print_fields ascii fs; ok (b'{' ∷ (s ++ b'}' ∷ []))

    pub print_items : Bool → Items F → Result Text
    print_items ascii nil = ok []
    print_items ascii (cons v nil) = print ascii v
    print_items ascii (cons v (cons w vs)) = do
      s ← print ascii v
      rest ← print_items ascii (cons w vs)
      ok (s ++ b',' ∷ rest)

    pub print_fields : Bool → Fields F → Result Text
    print_fields ascii end = ok []
    print_fields ascii (field k v end) = do s ← print ascii v; ok (quote ascii k ++ b':' ∷ s)
    print_fields ascii (field k v (field j w fs)) = do
      s ← print ascii v
      rest ← print_fields ascii (field j w fs)
      ok (quote ascii k ++ b':' ∷ (s ++ b',' ∷ rest))

-- `str.encode("utf-8")`: a lone surrogate raises.
utf8_char : ℕ → Result Text
utf8_char c =
    if ltb c 0x80
    then ok (c ∷ [])
    else if ltb c 0x800
    then ok ((0xc0 + c / 64) ∷ (0x80 + c % 64) ∷ [])
    else if leb 0xd800 c && leb c 0xdfff
    then err value_error
    else if ltb c 0x10000
    then ok ((0xe0 + c / 4096) ∷ (0x80 + c / 64 % 64) ∷ (0x80 + c % 64) ∷ [])
    else ok
        ((0xf0 + c / 262144) ∷ (0x80 + c / 4096 % 64) ∷ (0x80 + c / 64 % 64) ∷ (0x80 + c % 64) ∷ [])

unfoldable pub utf8 : Text → Result Text
unfolding utf8_char
utf8 [] = ok []
utf8 (c ∷ s) = do b ← utf8_char c; rest ← utf8 s; ok (b ++ rest)
