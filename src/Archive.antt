-- ===== src/Archive.antt =====
-- src/echo_veil/archive.py: the in-memory metadata index (level 2) and cold archive (level 3). A
-- method takes the store and returns its result, or the exception, beside the store it leaves.
pub mod Search
pub mod Cold
use echo_veil.Base.{
  ℕ, zero, suc, ◌+◌, Bool, true, false, not, ◌&&◌, ◌||◌, List, [], ◌∷◌, Option, none, some, String,
  Result, ok, err, ◌>>=◌, ◌>>◌, type_error, value_error, guard, eqb, if◌then◌else◌, length, any,
  take,
}
use text.Mathlib.Text.{◌==◌}
use echo_veil.Base.Dict.{Dict, lookup, has, put, without, values}
use echo_veil.Base.Texts.{is_blank}
use echo_veil.Base.Int.{ℤ, pos, negsuc}
use echo_veil.Base.Floats.{Float, Number, boolean, float, integer, other, to_float}
use echo_veil.Vectors.{Vector, Numpy, as_vector, cosine_similarity}
use echo_veil.Vine.{Protected}
use echo_veil.Workspace.{shape_dimension}

-- What a caller stores: an embedding, or a protected anchor.
pub data Anchor (F : Type 0) : Type 0 where
  plain : Vector F → Anchor F
  shielded : Protected → Anchor F

-- `IndexEntry`
pub record IndexEntry (F : Type 0) : Type 0 where
  pub key : String
  pub anchor : Anchor F
  pub kind : String

-- `MetadataIndex`
pub record MetadataIndex (F : Type 0) : Type 0 where
  pub entries : Dict (IndexEntry F)
  pub dimension : Option ℕ

-- `_validate_key`
abbrev pub valid_key : String → Bool
valid_key k = not (is_blank k)

abbrev pub new_dimension : Option ℕ → Option ℕ → Option ℕ
new_dimension own none = own
new_dimension none (some n) = some n
new_dimension (some m) (some n) = some m

abbrev pub agrees : Option ℕ → Option ℕ → Bool
agrees own none = true
agrees none (some n) = true
agrees (some m) (some n) = eqb n m

module _ {F : Type 0} where
  abbrev pub empty_index : MetadataIndex F
  empty_index = record { entries = []; dimension = none }

  -- `MetadataIndex.remove`
  unfoldable pub remove : MetadataIndex F → String → Result Bool × MetadataIndex F
  remove m k =
      if valid_key k
      then (ok (has k m.entries), record m { entries = without k m.entries })
      else (err value_error, m)

  -- `__len__`
  unfoldable pub size : MetadataIndex F → ℕ
  size m = length m.entries

  -- `getattr(anchor, "shape")`, of an array or of a protected anchor.
  shape_of : Anchor F → Option (List ℕ)
  shape_of (plain v) = some (length v ∷ [])
  shape_of (shielded p) = p.shape

module _ {F : Type 0} ⦃fl : Float F⦄ where
  -- `as_vector` on what a caller passes: an object that is no array of numbers raises.
  unfoldable pub as_anchor : Anchor F → Result (Vector F)
  as_anchor (plain v) = as_vector false v
  as_anchor (shielded p) = err value_error

  -- The anchor as it is stored, and the dimension it shows.
  unfoldable pub stored_anchor : String → Anchor F → Result (Anchor F × Option ℕ)
  unfolding as_anchor shape_of shape_dimension
  stored_anchor kind anchor =
      if kind == "anchor" || kind == "fossil"
      then (do v ← as_anchor anchor; ok (Anchor.plain v, some (length v)))
      else ok (anchor, shape_dimension (shape_of anchor))

  -- What `upsert` computes before it changes the index.
  unfoldable pub entry_for :
      MetadataIndex F → String → Anchor F → String → Result (Anchor F × Option ℕ)
  entry_for m key anchor kind = do
    guard (valid_key key) value_error
    guard (kind == "anchor" || kind == "fossil" || kind == "protected_anchor") value_error
    s ← stored_anchor kind anchor
    guard (agrees m.dimension s.1) value_error
    ok s

  -- `MetadataIndex.upsert`
  unfoldable pub upsert :
      MetadataIndex F → String → Anchor F → String → Result (Unit {0}) × MetadataIndex F
  upsert m key anchor kind = elim (entry_for m key anchor kind) [
    | err e ↦ (err e, m)
    | ok (a, d) ↦ (
      ok tt,
      record {
        entries = put key (record { key = key; anchor = a; kind = kind }) m.entries;
        dimension = new_dimension m.dimension d;
      },
    )
  ]

  -- `scored.sort(key=lambda kv: kv[1], reverse=True)`: stable, best first.
  unfoldable pub insert_score : String × F → List (String × F) → List (String × F)
  insert_score p [] = p ∷ []
  insert_score p (q ∷ qs) = if fl.lt p.1 q.1 then q ∷ insert_score p qs else p ∷ q ∷ qs

  unfoldable pub sort_scores : List (String × F) → List (String × F)
  unfolding insert_score
  sort_scores [] = []
  sort_scores (p ∷ ps) = insert_score p (sort_scores ps)

  -- The loop of `search`.
  unfoldable pub score_entries :
      (IndexEntry F → Result (Number F)) → Dict (IndexEntry F) → Result (List (String × F))
  score_entries score [] = ok []
  score_entries score ((k, e) ∷ d) = do
    raw ← score e
    s ← to_float raw
    guard (fl.is_finite s) value_error
    rest ← score_entries score d
    ok ((e.key, s) ∷ rest)

  -- `top_k`
  unfoldable pub result_count : Number F → Result ℕ
  result_count (integer (pos n)) = ok n
  result_count (integer (negsuc n)) = err value_error
  result_count (boolean b) = err type_error
  result_count (float x) = err type_error
  result_count other = err type_error

  module _ ⦃np : Numpy F⦄ where
    unfoldable pub similarity : Vector F → Anchor F → Result (Number F)
    unfolding as_anchor
    similarity query a = do v ← as_anchor a; s ← cosine_similarity query v; ok (float s)

    unfoldable pub scorer :
        Option (Vector F → IndexEntry F → Result (Number F))
        → Vector F
        → IndexEntry F
        → Result (Number F)
    unfolding similarity
    scorer none query e = similarity query e.anchor
    scorer (some f) query e = f query e

    unfoldable pub is_none_scorer : Option (Vector F → IndexEntry F → Result (Number F)) → Bool
    is_none_scorer none = true
    is_none_scorer (some f) = false

    -- `MetadataIndex.search`
    unfoldable pub search :
        MetadataIndex F
        → Vector F
        → Number F
        → Option (Vector F → IndexEntry F → Result (Number F))
        → Result (List (String × F))
    unfolding scorer is_none_scorer
    search m query top_k score_fn = do
      n ← result_count top_k
      q ← as_vector false query
      guard (agrees m.dimension (some (length q))) value_error
      guard
          (not
            (is_none_scorer score_fn && any (λ e. e.kind == "protected_anchor") (values m.entries)))
          type_error
      scored ← score_entries (scorer score_fn q) m.entries
      ok (take n (sort_scores scored))
