-- ===== src/Layers/Clean.antt =====
-- About the texts that the validators of memory_layers.py accept and return.
use echo_veil.Base.{
  ℕ, suc, ◌≤◌, ◌≡◌, refl, ap, ◌∙◌, Bool, true, false, List, [], ◌∷◌, map, ok, arith, All, length,
}
use echo_veil.Base.Texts.{Text}
use echo_veil.Json.{layer, kind, Value, text, seq, items, items-to_items}
use echo_veil.Layers.Words.{normalize, normalize_idem}
use echo_veil.Layers.Validate.{
  layer_value, kind_value, Unicode, is_bounded, validate_bounded_text, validate_texts,
  validate_provenance, validate_related_ids, no_repeats, texts, max_provenance_chars,
  max_related_id_chars,
}

module _ ⦃uc : Unicode⦄ where
  -- A text that is normal and within its bound.
  abbrev pub Clean : ℕ → Text → Type 0
  Clean limit s = (normalize s ≡ s) × (is_bounded limit s ≡ true)

module _ {F : Type 0} ⦃uc : Unicode⦄ where
  pub bounded_text-Clean :
      (limit : ℕ) (v : Value F) {s : Text} → validate_bounded_text limit v ≡ ok s → Clean limit s
  unfolding validate_bounded_text
  bounded_text-Clean limit (text t) h = ground (arith, normalize_idem t)
  bounded_text-Clean limit (layer l) h = ground (arith, normalize_idem (layer_value l))
  bounded_text-Clean limit (kind k) h = ground (arith, normalize_idem (kind_value k))
  bounded_text-Clean limit _ h = cc

  pub texts-Clean :
      (limit : ℕ) (vs : List (Value F)) {ss : List Text}
      → validate_texts limit vs ≡ ok ss
      → All (Clean limit) ss × (length ss ≡ length vs)
  unfolding validate_texts
  texts-Clean limit [] {ss = []} h = (tt, refl)
  texts-Clean limit [] {ss = s ∷ ss} h = cc
  texts-Clean limit (v ∷ vs) {ss = []} h = ground arith
  texts-Clean limit (v ∷ vs) {ss = s ∷ ss} h =
      ground (arith, bounded_text-Clean limit v {s = s}, texts-Clean limit vs {ss = ss})

  pub provenance-Clean :
      (explicit : Bool) (v : Value F) {ss : List Text}
      → validate_provenance explicit v ≡ ok ss
      → All (Clean max_provenance_chars) ss
        × (no_repeats ss ≡ true)
        × (1 ≤ length ss)
        × (length ss ≤ 4)
  unfolding validate_provenance
  provenance-Clean explicit (seq vs) {ss} h =
      ground (arith, texts-Clean max_provenance_chars (items vs) {ss = ss})
  provenance-Clean explicit _ h = cc

  pub related_ids-Clean :
      (v : Value F) {ss : List Text}
      → validate_related_ids v ≡ ok ss
      → All (Clean max_related_id_chars) ss × (no_repeats ss ≡ true) × (length ss ≤ 8)
  unfolding validate_related_ids no_repeats
  related_ids-Clean Value.null {ss = []} h = (tt, refl, omega arith)
  related_ids-Clean Value.null {ss = s ∷ ss} h = cc
  related_ids-Clean (seq vs) {ss} h =
      ground (arith, texts-Clean max_related_id_chars (items vs) {ss = ss})
  related_ids-Clean _ h = cc

module _ (F : Type 0) ⦃uc : Unicode⦄ where
  abbrev text_value : Text → Value F
  text_value s = text s

  pub bounded_text_again :
      (limit : ℕ) (s : Text) → Clean limit s → validate_bounded_text limit (text_value s) ≡ ok s
  unfolding validate_bounded_text
  bounded_text_again limit s h = rw h.0 (rw h.1)

  texts_again :
      (limit : ℕ) (ss : List Text)
      → All (Clean limit) ss
      → validate_texts limit (map text_value ss) ≡ ok ss
  unfolding validate_texts
  texts_again limit [] h = refl
  texts_again limit (s ∷ ss) h = rw (bounded_text_again limit s h.0) (rw (texts_again limit ss h.1))

  length-map_texts : (ss : List Text) → length (map text_value ss) ≡ length ss
  length-map_texts [] = refl
  length-map_texts (s ∷ ss) = ap suc (length-map_texts ss)

  pub provenance_again :
      (ss : List Text)
      → All (Clean max_provenance_chars) ss
      → no_repeats ss ≡ true
      → 1 ≤ length ss
      → length ss ≤ 4
      → validate_provenance false (let v : Value F = texts ss in v) ≡ ok ss
  unfolding validate_provenance texts
  provenance_again ss clean unique low high =
      rw items-to_items
        (ground (arith, length-map_texts ss, texts_again max_provenance_chars ss clean))

  pub related_ids_again :
      (ss : List Text)
      → All (Clean max_related_id_chars) ss
      → no_repeats ss ≡ true
      → length ss ≤ 8
      → validate_related_ids (let v : Value F = texts ss in v) ≡ ok ss
  unfolding validate_related_ids texts
  related_ids_again ss clean unique high =
      rw items-to_items
        (ground (arith, length-map_texts ss, texts_again max_related_id_chars ss clean))

  -- Texts that are normal are accepted as they are, if at all.
  texts_same :
      (limit : ℕ) (ss : List Text) {ts : List Text}
      → All (λ s. normalize s ≡ s) ss
      → validate_texts limit (map text_value ss) ≡ ok ts
      → ts ≡ ss
  unfolding validate_texts validate_bounded_text
  texts_same limit [] h k = cc
  texts_same limit (s ∷ ss) {ts = []} h k = ground arith
  texts_same limit (s ∷ ss) {ts = t ∷ ts} h k =
      ground (arith, h.0, texts_same limit ss {ts = ts} h.1)

  provenance_same :
      (explicit : Bool) (ss : List Text) {ts : List Text}
      → All (λ s. normalize s ≡ s) ss
      → validate_provenance explicit (let v : Value F = texts ss in v) ≡ ok ts
      → ts ≡ ss
  unfolding validate_provenance texts
  provenance_same explicit ss {ts} h k =
      let k' = rw items-to_items at k in
      ground (arith, texts_same max_provenance_chars ss {ts = ts} h)

  pub provenance_accepts :
      (explicit : Bool) (ss : List Text) {ts : List Text}
      → All (λ s. normalize s ≡ s) ss
      → validate_provenance explicit (let v : Value F = texts ss in v) ≡ ok ts
      → validate_provenance explicit (let v : Value F = texts ss in v) ≡ ok ss
  provenance_accepts explicit ss h k = k ∙ ap ok (provenance_same explicit ss h k)
