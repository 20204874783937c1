-- ===== src/Archive/Search.antt =====
-- About `MetadataIndex.search` of archive.py.
use echo_veil.Base.{
  ℕ, zero, suc, ◌≡◌, refl, sym, ◌++◌, map, ap, subst, ◌∙◌, inl, inr, true, false, not, ◌&&◌, List,
  [], ◌∷◌, Option, some, String, Result, ok, ◌>>=◌, arith, guard, value_error, type_error, leb,
  if◌then◌else◌, length, take, any, All, All-map, All-take, Bool-cases, along, >>=-eq-ok,
  guard-eq-ok,
}
use mathlib.Core.List.{Perm}
use mathlib.Core.List.Perm
use text.Mathlib.Text.{◌==◌}
use echo_veil.Base.Dict.{Dict, values}
use echo_veil.Base.Floats.{Float, IsOrdered, Number, to_float}
use echo_veil.Vectors.{Vector, Numpy, as_vector}
use echo_veil.Archive.{
  MetadataIndex, IndexEntry, agrees, insert_score, sort_scores, score_entries, result_count, search,
  scorer, is_none_scorer, size,
}

-- What `take n` leaves out.
abbrev skip {ℓ} : {A : Type ℓ} → ℕ → List A → List A
skip zero xs = xs
skip (suc n) [] = []
skip (suc n) (x ∷ xs) = skip n xs

take-skip {ℓ} : {A : Type ℓ} (n : ℕ) (xs : List A) → take n xs ++ skip n xs ≡ xs
take-skip zero xs = refl
take-skip (suc n) [] = refl
take-skip (suc n) (x ∷ xs) = ap (λ ys. x ∷ ys) (take-skip n xs)

All-skip {ℓ κ} : {A : Type ℓ} (P : A → Type κ) (n : ℕ) (xs : List A) → All P xs → All P (skip n xs)
All-skip P zero xs h = h
All-skip P (suc n) [] h = tt
All-skip P (suc n) (x ∷ xs) h = All-skip P n xs h.1

All-trivial {ℓ} : {A : Type ℓ} (xs : List A) → All {ℓ, 0} (λ x. Unit {0}) xs
All-trivial [] = tt
All-trivial (x ∷ xs) = (tt, All-trivial xs)

All-both {ℓ κ} :
    {A : Type ℓ} (P Q : A → Type κ) (xs : List A) → All P xs → All Q xs → All (λ x. P x × Q x) xs
All-both P Q [] h k = tt
All-both P Q (x ∷ xs) h k = ((h.0, k.0), All-both P Q xs h.1 k.1)

module _ {F : Type 0} ⦃fl : Float F⦄ where
  abbrev pub IsScored : String × F → Type 0
  IsScored p = fl.is_finite p.1 ≡ true

  -- No score lies above one that stands before it.
  abbrev pub BestFirst : List (String × F) → Type 0
  BestFirst [] = Unit
  BestFirst (p ∷ ps) = All (λ q. fl.le q.1 p.1 ≡ true) ps × BestFirst ps

  All-insert_score :
      (P : String × F → Type 0) (p : String × F) (ps : List (String × F))
      → P p
      → All P ps
      → All P (insert_score p ps)
  unfolding insert_score
  All-insert_score P p [] h hs = (h, tt)
  All-insert_score P p (q ∷ qs) h hs = elim (Bool-cases (fl.lt p.1 q.1)) [
    | inl e ↦ rw (e, insert_score) ((hs.0, All-insert_score P p qs h hs.1))
    | inr e ↦ rw (e, insert_score) ((h, hs))
  ]

  All-sort_scores :
      (P : String × F → Type 0) (ps : List (String × F)) → All P ps → All P (sort_scores ps)
  unfolding sort_scores
  All-sort_scores P [] h = tt
  All-sort_scores P (p ∷ ps) h =
      All-insert_score P p (sort_scores ps) h.0 (All-sort_scores P ps h.1)

  length-insert_score :
      (p : String × F) (ps : List (String × F)) → length (insert_score p ps) ≡ suc (length ps)
  unfolding insert_score
  length-insert_score p [] = refl
  length-insert_score p (q ∷ qs) = ground (arith, length-insert_score p qs)

  length-sort_scores : (ps : List (String × F)) → length (sort_scores ps) ≡ length ps
  unfolding sort_scores
  length-sort_scores [] = refl
  length-sort_scores (p ∷ ps) =
      length-insert_score p (sort_scores ps) ∙ ap suc (length-sort_scores ps)

  BestFirst-take : (n : ℕ) (ps : List (String × F)) → BestFirst ps → BestFirst (take n ps)
  BestFirst-take zero ps h = tt
  BestFirst-take (suc n) [] h = tt
  BestFirst-take (suc n) (p ∷ ps) h =
      (All-take (λ q. fl.le q.1 p.1 ≡ true) n ps h.0, BestFirst-take n ps h.1)

  score_entries-IsScored :
      (score : IndexEntry F → Result (Number F)) (d : Dict (IndexEntry F)) (ps : List (String × F))
      → score_entries score d ≡ ok ps
      → All IsScored ps × (length ps ≡ length d)
  unfolding score_entries
  score_entries-IsScored score [] ps h = along (λ q. All IsScored q × (length q ≡ 0)) h (tt, refl)
  score_entries-IsScored score ((k, e) ∷ d) ps h =
      let (raw, _, h1) = >>=-eq-ok (score e) _ h in
      let (s, _, h2) = >>=-eq-ok (to_float raw) _ h1 in
      let (_, g, h3) = >>=-eq-ok (guard (fl.is_finite s) value_error) _ h2 in
      let (rest, r, h4) = >>=-eq-ok (score_entries score d) _ h3 in
      let later = score_entries-IsScored score d rest r in
      along (λ q. All IsScored q × (length q ≡ suc (length d))) h4
        ((guard-eq-ok _ _ g, later.0), ap suc later.1)

  insert_score-perm : (p : String × F) (ps : List (String × F)) → Perm (insert_score p ps) (p ∷ ps)
  unfolding insert_score
  insert_score-perm p [] = Perm.refl (p ∷ [])
  insert_score-perm p (q ∷ qs) = elim (Bool-cases (fl.lt p.1 q.1)) [
    | inl e ↦
        rw (e, insert_score) (Perm.trans (Perm.cons q (insert_score-perm p qs)) (Perm.swap p q qs))
    | inr e ↦ rw (e, insert_score) (Perm.refl (p ∷ q ∷ qs))
  ]

  sort_scores-perm : (ps : List (String × F)) → Perm (sort_scores ps) ps
  unfolding sort_scores
  sort_scores-perm [] = Perm.refl []
  sort_scores-perm (p ∷ ps) =
      Perm.trans (insert_score-perm p (sort_scores ps)) (Perm.cons p (sort_scores-perm ps))

  score_entries-keys :
      (score : IndexEntry F → Result (Number F)) (d : Dict (IndexEntry F)) (ps : List (String × F))
      → score_entries score d ≡ ok ps
      → map (λ p. p.0) ps ≡ map (λ e. e.key) (values d)
  unfolding score_entries values
  score_entries-keys score [] ps h = along (λ q. map (λ p. p.0) q ≡ []) h refl
  score_entries-keys score ((k, e) ∷ d) ps h =
      let (raw, _, h1) = >>=-eq-ok (score e) _ h in
      let (s, _, h2) = >>=-eq-ok (to_float raw) _ h1 in
      let (_, g, h3) = >>=-eq-ok (guard (fl.is_finite s) value_error) _ h2 in
      let (rest, r, h4) = >>=-eq-ok (score_entries score d) _ h3 in
      along (λ q. map (λ p. p.0) q ≡ e.key ∷ map (λ e. e.key) (values d)) h4
        (ap (λ ks. e.key ∷ ks) (score_entries-keys score d rest r))

  as_vector_same : (v u : Vector F) → as_vector false v ≡ ok u → u ≡ v
  unfolding as_vector
  as_vector_same v u h = ground arith

module _ {F : Type 0} ⦃fl : Float F⦄ (ordered : IsOrdered F) where
  BestFirst-insert :
      (p : String × F) (ps : List (String × F))
      → IsScored p
      → All IsScored ps
      → BestFirst ps
      → BestFirst (insert_score p ps)
  unfolding insert_score
  BestFirst-insert p [] hp hs b = (tt, tt)
  BestFirst-insert p (q ∷ qs) hp hs b = elim (Bool-cases (fl.lt p.1 q.1)) [
    | inl e ↦
        rw (e, insert_score)
          ((
            All-insert_score (λ r. fl.le r.1 q.1 ≡ true) p qs (below e) b.0,
            BestFirst-insert p qs hp hs.1 b.1,
          ))
    | inr e ↦
        rw (e, insert_score)
          (((above e, All-map _ _ qs (λ r x. ordered.le_trans r.1 q.1 p.1 x (above e)) b.0), b))
  ]
    where
      below : fl.lt p.1 q.1 ≡ true → fl.le p.1 q.1 ≡ true
      below e = ground (arith, ordered.lt-eq p.1 q.1 hp hs.0, ordered.le_total p.1 q.1 hp hs.0)

      above : fl.lt p.1 q.1 ≡ false → fl.le q.1 p.1 ≡ true
      above e = ground (arith, ordered.lt-eq p.1 q.1 hp hs.0)

  BestFirst-sort : (ps : List (String × F)) → All IsScored ps → BestFirst (sort_scores ps)
  unfolding sort_scores
  BestFirst-sort [] h = tt
  BestFirst-sort (p ∷ ps) h =
      BestFirst-insert p (sort_scores ps) h.0 (All-sort_scores IsScored ps h.1)
        (BestFirst-sort ps h.1)

  length-take_eq :
      (n : ℕ) (ps : List (String × F))
      → length (take n ps) ≡ (if leb n (length ps) then n else length ps)
  length-take_eq zero ps = ground arith
  length-take_eq (suc n) [] = ground arith
  length-take_eq (suc n) (p ∷ ps) = ground (arith, length-take_eq n ps)

  BestFirst-split :
      (n : ℕ) (ps : List (String × F))
      → BestFirst ps
      → All (λ q. All (λ p. fl.le q.1 p.1 ≡ true) (take n ps)) (skip n ps)
  BestFirst-split zero ps h = All-trivial ps
  BestFirst-split (suc n) [] h = tt
  BestFirst-split (suc n) (p ∷ ps) h =
      All-both (λ q. fl.le q.1 p.1 ≡ true) _ (skip n ps) (All-skip _ n ps h.0)
        (BestFirst-split n ps h.1)

  -- Over ordered floats, and for any scorer: a search that returns has scored every entry of the index,
  -- each with a finite score, under the entry's key. Its results are the best of these, best first: as
  -- many as were asked for, or all if there are fewer, and none that is left out has a score above one
  -- of theirs.
  pub search-BestFirst :
      ⦃np : Numpy F⦄ (m : MetadataIndex F) (query : Vector F) (top_k : Number F)
      (score_fn : Option (Vector F → IndexEntry F → Result (Number F))) (rs : List (String × F))
      → search m query top_k score_fn ≡ ok rs
      → (n : ℕ) × (scored : List (String × F)) × (left_out : List (String × F)) × (result_count
            top_k
          ≡ ok n)
        × (score_entries (scorer score_fn query) m.entries ≡ ok scored)
        × (map (λ p. p.0) scored ≡ map (λ e. e.key) (values m.entries))
        × Perm (rs ++ left_out) scored
        × (length rs ≡ (if leb n (size m) then n else size m))
        × All IsScored rs
        × BestFirst rs
        × All (λ q. All (λ p. fl.le q.1 p.1 ≡ true) rs) left_out
  unfolding search size
  search-BestFirst m query top_k score_fn rs h =
      let (n, c, h1) = >>=-eq-ok (result_count top_k) _ h in
      let (q, v, h2) = >>=-eq-ok (as_vector false query) _ h1 in
      let (_, _, h3) = >>=-eq-ok (guard (agrees m.dimension (some (length q))) value_error) _ h2 in
      let (_, _, h4) =
        >>=-eq-ok
          (guard
            (not (
              is_none_scorer score_fn
              && any (λ x. x.kind == "protected_anchor") (values m.entries)))
            type_error)
          (λ _. score_entries (scorer score_fn q) m.entries >>= λ ps. ok (take n (sort_scores ps)))
          h3 in
      let (ps, e, h5) = >>=-eq-ok (score_entries (scorer score_fn q) m.entries) _ h4 in
      let found = score_entries-IsScored (scorer score_fn q) m.entries ps e in
      let sorted = sort_scores ps in
      let best = BestFirst-sort ps found.0 in
      (
        n,
        ps,
        skip n sorted,
        c,
        subst (λ x. score_entries (scorer score_fn x) m.entries ≡ ok ps) (as_vector_same query q v)
            e,
        score_entries-keys (scorer score_fn q) m.entries ps e,
        along (λ r. Perm (r ++ skip n sorted) ps) h5
            (subst (λ x. Perm x ps) (sym (take-skip n sorted)) (sort_scores-perm ps)),
        along (λ r. length r ≡ (if leb n (length m.entries) then n else length m.entries)) h5
            (subst (λ k. length (take n sorted) ≡ (if leb n k then n else k))
              (length-sort_scores ps ∙ found.1) (length-take_eq n sorted)),
        along (All IsScored) h5 (All-take IsScored n sorted (All-sort_scores IsScored ps found.0)),
        along BestFirst h5 (BestFirst-take n sorted best),
        along (λ r. All (λ q. All (λ p. fl.le q.1 p.1 ≡ true) r) (skip n sorted)) h5
            (BestFirst-split n sorted best),
      )
