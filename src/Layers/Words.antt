-- ===== src/Layers/Words.antt =====
-- `" ".join(value.strip().split())` of memory_layers.py: `strip` and `split` drop white space.
use echo_veil.Base.{
  ℕ, ◌≡◌, refl, ap, ◌∙◌, Bool, true, false, ◌&&◌, List, [], ◌∷◌, ◌++◌, arith, if◌then◌else◌,
  Bool-cases, inl, inr, All,
}
use echo_veil.Base.Texts.{Text, is_space}

-- `str.strip()`
lstrip : Text → Text
lstrip [] = []
lstrip (c ∷ s) = let rest = lstrip s in if is_space c then rest else c ∷ s

abbrev is_empty {ℓ} : {A : Type ℓ} → List A → Bool
is_empty [] = true
is_empty (x ∷ xs) = false

rstrip : Text → Text
rstrip [] = []
rstrip (c ∷ s) = let rest = rstrip s in if is_space c && is_empty rest then [] else c ∷ rest

unfoldable pub strip : Text → Text
unfolding lstrip rstrip
strip s = rstrip (lstrip s)

-- Whether a word that ends here is complete: the text is at its end or at white space.
at_boundary : Text → Bool
at_boundary [] = true
at_boundary (c ∷ s) = is_space c

-- Puts one more character in front, as a word of its own or into the first word.
glue : ℕ → Bool → List Text → List Text
glue c true ws = (c ∷ []) ∷ ws
glue c false [] = (c ∷ []) ∷ []
glue c false (w ∷ ws) = (c ∷ w) ∷ ws

-- `str.split()`
unfoldable pub words : Text → List Text
unfolding at_boundary glue
words [] = []
words (c ∷ s) = let rest = words s in if is_space c then rest else glue c (at_boundary s) rest

-- `" ".join(ws)`
unfoldable pub join : List Text → Text
join [] = []
join (w ∷ []) = w
join (w ∷ v ∷ ws) = w ++ (0x20 ∷ join (v ∷ ws))

unfoldable pub normalize : Text → Text
unfolding words strip join
normalize s = join (words (strip s))

-- A word of a split text is not empty and has no white space.
abbrev NoSpace : Text → Type 0
NoSpace [] = Unit
NoSpace (c ∷ s) = (is_space c ≡ false) × NoSpace s

abbrev IsWord : Text → Type 0
IsWord [] = ⊥
IsWord (c ∷ s) = (is_space c ≡ false) × NoSpace s

NoSpace-of_word : (w : Text) → IsWord w → NoSpace w
NoSpace-of_word [] h = absurd h
NoSpace-of_word (c ∷ w) h = h

glue-words :
    (c : ℕ) (b : Bool) (ws : List Text)
    → is_space c ≡ false
    → All IsWord ws
    → All IsWord (glue c b ws)
unfolding glue
glue-words c true ws h g = ((h, tt), g)
glue-words c false [] h g = ((h, tt), tt)
glue-words c false (w ∷ ws) h g = ((h, NoSpace-of_word w g.0), g.1)

words-IsWord : (s : Text) → All IsWord (words s)
unfolding words
words-IsWord [] = tt
words-IsWord (c ∷ s) = elim (Bool-cases (is_space c)) [
  | inl e ↦ rw e (words-IsWord s)
  | inr e ↦ rw e (glue-words c (at_boundary s) (words s) e (words-IsWord s))
]

-- Neither end of `strip` changes the words.
words-lstrip : (s : Text) → words (lstrip s) ≡ words s
unfolding words lstrip
words-lstrip [] = refl
words-lstrip (c ∷ s) = elim (Bool-cases (is_space c)) [
  | inl e ↦ rw e (words-lstrip s)
  | inr e ↦ rw e (rw e)
]

-- What `rstrip` leaves is at a boundary where the text is.
boundary-rstrip : (s : Text) → at_boundary (rstrip s) ≡ at_boundary s
unfolding at_boundary rstrip
boundary-rstrip [] = refl
boundary-rstrip (c ∷ s) = ground arith

rstrip-empty : (s : Text) → is_empty (rstrip s) ≡ true → words s ≡ []
unfolding words rstrip
rstrip-empty [] h = refl
rstrip-empty (c ∷ s) h = ground (arith, rstrip-empty s)

words-rstrip : (s : Text) → words (rstrip s) ≡ words s
unfolding words rstrip
words-rstrip [] = refl
words-rstrip (c ∷ s) = ground (arith, words-rstrip s, boundary-rstrip s, rstrip-empty s)

words-strip : (s : Text) → words (strip s) ≡ words s
unfolding strip
words-strip s = words-rstrip (lstrip s) ∙ words-lstrip s

-- A word, and a word before a space, is the first word of the text.
words-word : (w : Text) → IsWord w → words w ≡ w ∷ []
unfolding words at_boundary glue
words-word [] h = absurd h
words-word (c ∷ []) h = rw h.0
words-word (c ∷ d ∷ w) h =
    rw h.0 (rw h.1.0 (ap (glue c false) (rw h.1.0 at (words-word (d ∷ w) (h.1.0, h.1.1)))))

words-append : (w t : Text) → IsWord w → words (w ++ (0x20 ∷ t)) ≡ w ∷ words t
unfolding words at_boundary glue is_space
words-append [] t h = absurd h
words-append (c ∷ []) t h = rw h.0
words-append (c ∷ d ∷ w) t h =
    rw h.0 (rw h.1.0 (ap (glue c false) (rw h.1.0 at (words-append (d ∷ w) t (h.1.0, h.1.1)))))

words-join : (ws : List Text) → All IsWord ws → words (join ws) ≡ ws
unfolding join
words-join [] h = unfold words in refl
words-join (w ∷ []) h = words-word w h.0
words-join (w ∷ v ∷ ws) h =
    words-append w (join (v ∷ ws)) h.0 ∙ ap (λ r. w ∷ r) (words-join (v ∷ ws) h.1)

-- Normalising a text that is normal already changes nothing.
pub normalize_idem : (s : Text) → normalize (normalize s) ≡ normalize s
unfolding normalize
normalize_idem s =
    ap join
      (words-strip (join (words (strip s))) ∙ words-join (words (strip s)) (words-IsWord (strip s)))
