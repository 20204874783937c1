-- ===== src/Receipts/Spent.antt =====
-- What a call of the verifier of preflight_receipt.py does to a receipt that its cache holds.
use echo_veil.Base.{
  ◌≡◌, refl, ◌∙◌, ◌⊎◌, inl, inr, true, List, [], ◌∷◌, ◌++◌, none, some, arith, Result, ok, err,
  Bool-cases, Option-cases, if◌then◌else◌,
}
use echo_veil.Base.Int.{ℤ, leb_ℤ, ltb_ℤ}
use echo_veil.Base.Texts.{Text, text_eq, text_eq_iff}
use echo_veil.Base.Floats.{Float}
use echo_veil.Json.{Fields}
use echo_veil.Receipts.{Crypto, Rounding}
use echo_veil.Receipts.Issue.{clock_ms}
use echo_veil.Receipts.Verify.{
  Verifier, Attempt, Checked, consumed_at, consume, unexpired, check, spend_new, accept,
  verify_and_consume, after_attempts,
}

consumed_at-consume :
    (k j : Text) (e : ℤ) (d : List (Text × ℤ))
    → consumed_at j (consume k e d) ≡ (if text_eq k j then some e else consumed_at j d)
unfolding consumed_at consume
consumed_at-consume k j e [] = refl
consumed_at-consume k j e ((i, f) ∷ d) =
    ground (arith, text_eq_iff k j, text_eq_iff i k, text_eq_iff i j, consumed_at-consume k j e d)

-- A receipt whose expiry is noted keeps it, or is expired.
unexpired-keeps :
    (now : ℤ) (k : Text) (e : ℤ) (d : List (Text × ℤ))
    → consumed_at k d ≡ some e
    → ltb_ℤ now e ≡ true
    → consumed_at k (unexpired now d) ≡ some e
unfolding consumed_at unexpired
unexpired-keeps now k e [] h l = cc
unexpired-keeps now k e ((j, f) ∷ d) h l = elim (Bool-cases (text_eq j k)) [
  | inl same ↦ ground (arith, unexpired-keeps now k e d)
  | inr other ↦ ground (arith, unexpired-keeps now k e d)
]

-- A receipt that the cache holds until its expiry, which may be past.
abbrev pub IsSpent : Text → ℤ → ℤ → Verifier → Type 0
IsSpent k e now v = (consumed_at k v.consumed ≡ some e) ⊎ (leb_ℤ e now ≡ true)

abbrev pub NotBefore : ℤ → ℤ → Type 0
NotBefore now later = leb_ℤ now later ≡ true

pub IsSpent-later :
    (k : Text) (e now later : ℤ) (v : Verifier)
    → NotBefore now later
    → IsSpent k e now v
    → IsSpent k e later v
IsSpent-later k e now later v le (inl h) = inl h
IsSpent-later k e now later v le (inr h) = inr (ground arith)

module _ {F : Type 0} ⦃fl : Float F⦄ ⦃rounding : Rounding F⦄ ⦃cr : Crypto⦄ where
  -- The clock does not go back from one call to the next.
  abbrev pub InOrder : F → List (Attempt F) → Type 0
  InOrder now [] = Unit
  InOrder now (a ∷ later) = NotBefore (clock_ms now) (clock_ms a.now) × InOrder a.now later

  spend_new-IsSpent :
      (k : Text) (e now : ℤ) (v : Verifier) (c : Checked F)
      → IsSpent k e now v
      → consumed_at c.preflight_id v.consumed ≡ none
      → IsSpent k e now (spend_new v c (unexpired now v.consumed)).1
  unfolding spend_new
  spend_new-IsSpent k e now v c (inr h) absent = inr h
  spend_new-IsSpent k e now v c (inl h) absent = elim (Bool-cases (leb_ℤ e now)) [
    | inl past ↦ inr past
    | inr ahead ↦
        (let kept = unexpired-keeps now k e v.consumed h (ground arith) in
          inl (
            ground (
              arith,
              consumed_at-consume c.preflight_id k c.expires_at_ms (unexpired now v.consumed),
              text_eq_iff c.preflight_id k,
            )))
  ]

  pub accept-IsSpent :
      (k : Text) (e now : ℤ) (v : Verifier) (r : Result (Checked F))
      → IsSpent k e now v
      → IsSpent k e now (accept v now r).1
  unfolding accept
  accept-IsSpent k e now v (err raised) h = h
  accept-IsSpent k e now v (ok c) h = elim (Option-cases (consumed_at c.preflight_id v.consumed)) [
    | inl absent ↦ rw absent (spend_new-IsSpent k e now v c h absent)
    | inr (f, old) ↦ rw old h
  ]

  pub verify-IsSpent :
      (k : Text) (e : ℤ) (before : F) (v : Verifier) (a : Attempt F)
      → NotBefore (clock_ms before) (clock_ms a.now)
      → IsSpent k e (clock_ms before) v
      → IsSpent k e (clock_ms a.now) (verify_and_consume v a).1
  unfolding verify_and_consume
  verify-IsSpent k e before v a le h =
      accept-IsSpent k e (clock_ms a.now) v (check v a)
        (IsSpent-later k e (clock_ms before) (clock_ms a.now) v le h)

  pub accept-key :
      (now : ℤ) (v : Verifier) (r : Result (Checked F))
      → (accept v now r).1.public_key ≡ v.public_key
  unfolding accept
  accept-key now v (err raised) = refl
  accept-key now v (ok c) = elim (Option-cases (consumed_at c.preflight_id v.consumed)) [
    | inl absent ↦ rw absent (ground arith)
    | inr (f, old) ↦ rw old refl
  ]

  spend_new_notes :
      (v : Verifier) (c : Checked F) (kept : List (Text × ℤ)) (claims : Fields F)
      → (spend_new v c kept).0 ≡ ok claims
      → consumed_at c.preflight_id (spend_new v c kept).1.consumed ≡ some c.expires_at_ms
  unfolding spend_new
  spend_new_notes v c kept claims h = ground (
    arith,
    consumed_at-consume c.preflight_id c.preflight_id c.expires_at_ms kept,
    text_eq_iff c.preflight_id c.preflight_id,
  )

  -- A call that accepts a receipt notes it.
  accept_notes :
      (now : ℤ) (v : Verifier) (r : Result (Checked F)) (claims : Fields F)
      → (accept v now r).0 ≡ ok claims
      → (c : Checked F) × (r ≡ ok c)
        × (consumed_at c.preflight_id v.consumed ≡ none)
        × (consumed_at c.preflight_id (accept v now r).1.consumed ≡ some c.expires_at_ms)
  unfolding accept
  accept_notes now v (err raised) claims h = cc
  accept_notes now v (ok c) claims h = elim (Option-cases (consumed_at c.preflight_id v.consumed)) [
    | inl absent ↦ (
      c,
      refl,
      absent,
      rw absent (spend_new_notes v c (unexpired now v.consumed) claims (rw absent at h)),
    )
    | inr (f, old) ↦ cc (rw old at h)
  ]

  pub verify_notes :
      (v : Verifier) (a : Attempt F) (claims : Fields F)
      → (verify_and_consume v a).0 ≡ ok claims
      → (c : Checked F) × (check v a ≡ ok c)
        × (consumed_at c.preflight_id v.consumed ≡ none)
        × (consumed_at c.preflight_id (verify_and_consume v a).1.consumed ≡ some c.expires_at_ms)
  unfolding verify_and_consume
  verify_notes v a claims h = accept_notes (clock_ms a.now) v (check v a) claims h

  pub verify-key :
      (v : Verifier) (a : Attempt F) → (verify_and_consume v a).1.public_key ≡ v.public_key
  unfolding verify_and_consume
  verify-key v a = accept-key (clock_ms a.now) v (check v a)

  pub attempts-IsSpent :
      (k : Text) (e : ℤ) (before : F) (v : Verifier) (later : List (Attempt F)) (last : Attempt F)
      → InOrder before (later ++ last ∷ [])
      → IsSpent k e (clock_ms before) v
      → IsSpent k e (clock_ms last.now) (after_attempts later v)
        × ((after_attempts later v).public_key ≡ v.public_key)
  unfolding after_attempts
  attempts-IsSpent k e before v [] last order h =
      (IsSpent-later k e (clock_ms before) (clock_ms last.now) v order.0 h, refl)
  attempts-IsSpent k e before v (a ∷ later) last order h =
      let next = verify-IsSpent k e before v a order.0 h in
      let (spent, key) =
        attempts-IsSpent k e a.now (verify_and_consume v a).1 later last order.1 next in
      (spent, key ∙ verify-key v a)
