-- ===== src/Layers/Moves/Dedupe.antt =====
-- About `dict.fromkeys` on a list of texts.
use echo_veil.Base.{
  ◌≤◌, ◌≡◌, refl, ◌||◌, ◌++◌, true, false, List, [], ◌∷◌, arith, All, length, Bool-cases, inl, inr,
}
use echo_veil.Base.Texts.{Text, text_eq, text_eq_iff}
use echo_veil.Json.{elem}
use echo_veil.Layers.Validate.{no_repeats}
use echo_veil.Layers.Moves.{dedupe, dedupe_from}

elem-cons : (t s : Text) (ss : List Text) → elem t (s ∷ ss) ≡ (text_eq s t || elem t ss)
unfolding elem
elem-cons t s ss = refl

-- What was seen is left out.
dedupe_from-seen :
    (t : Text) (seen ss : List Text) → elem t seen ≡ true → elem t (dedupe_from seen ss) ≡ false
unfolding dedupe_from
dedupe_from-seen t seen [] h = unfold elem in refl
dedupe_from-seen t seen (s ∷ ss) h = ground (
  arith,
  elem-cons t s (dedupe_from (s ∷ seen) ss),
  elem-cons t s seen,
  text_eq_iff s t,
  dedupe_from-seen t seen ss,
  dedupe_from-seen t (s ∷ seen) ss,
)

dedupe_from-no_repeats : (seen ss : List Text) → no_repeats (dedupe_from seen ss) ≡ true
unfolding dedupe_from no_repeats
dedupe_from-no_repeats seen [] = refl
dedupe_from-no_repeats seen (s ∷ ss) = ground (
  arith,
  elem-cons s s seen,
  text_eq_iff s s,
  dedupe_from-seen s (s ∷ seen) ss,
  dedupe_from-no_repeats seen ss,
  dedupe_from-no_repeats (s ∷ seen) ss,
)

module _ (P : Text → Type 0) where
  dedupe_from-All : (seen ss : List Text) → All P ss → All P (dedupe_from seen ss)
  unfolding dedupe_from
  dedupe_from-All seen [] h = tt
  dedupe_from-All seen (s ∷ ss) h = elim (Bool-cases (elem s seen)) [
    | inl e ↦ rw e (dedupe_from-All seen ss h.1)
    | inr e ↦ rw e ((h.0, dedupe_from-All (s ∷ seen) ss h.1))
  ]

  pub dedupe-All : (ss : List Text) → All P ss → All P (dedupe ss)
  unfolding dedupe
  dedupe-All = dedupe_from-All []

pub dedupe-no_repeats : (ss : List Text) → no_repeats (dedupe ss) ≡ true
unfolding dedupe
dedupe-no_repeats = dedupe_from-no_repeats []

pub dedupe_nonempty : (ss ts : List Text) → 1 ≤ length ss → 1 ≤ length (dedupe (ss ++ ts))
unfolding dedupe dedupe_from elem
dedupe_nonempty [] ts h = elim h [ ]
dedupe_nonempty (s ∷ ss) ts h = omega arith
