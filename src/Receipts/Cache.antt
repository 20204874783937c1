-- ===== src/Receipts/Cache.antt =====
-- The replay cache of preflight_receipt.py: its size, and what a refused receipt does to it.
use echo_veil.Base.{
  suc, ◌≤◌, ◌≡◌, refl, ◌⊎◌, inl, inr, List, [], ◌∷◌, arith, Result, Error, ok, err, runtime_error,
  Option-cases, Bool-cases, leb, leb→le, length,
}
use echo_veil.Base.Int.{ℤ}
use echo_veil.Base.Texts.{Text}
use echo_veil.Base.Floats.{Float}
use echo_veil.Receipts.{Crypto, Rounding, max_consumed_receipts}
use echo_veil.Receipts.Issue.{clock_ms}
use echo_veil.Receipts.Verify.{
  Verifier, Attempt, Checked, consumed_at, consume, unexpired, check, accept, verify_and_consume,
  after_attempts,
}

length-unexpired : (now : ℤ) (d : List (Text × ℤ)) → length (unexpired now d) ≤ length d
unfolding unexpired
length-unexpired now [] = omega arith
length-unexpired now ((j, e) ∷ d) = ground (arith, length-unexpired now d)

length-consume : (k : Text) (e : ℤ) (d : List (Text × ℤ)) → length (consume k e d) ≤ suc (length d)
unfolding consume
length-consume k e [] = omega arith
length-consume k e ((j, f) ∷ d) = ground (arith, length-consume k e d)

abbrev IsBounded : Verifier → Type 0
IsBounded v = length v.consumed ≤ max_consumed_receipts

module _ {F : Type 0} ⦃fl : Float F⦄ ⦃rounding : Rounding F⦄ ⦃cr : Crypto⦄ where
  accept-IsBounded :
      (now : ℤ) (v : Verifier) (r : Result (Checked F)) → IsBounded v → IsBounded (accept v now r).1
  unfolding accept
  accept-IsBounded now v (err e) h = h
  accept-IsBounded now v (ok c) h = elim (Option-cases (consumed_at c.preflight_id v.consumed)) [
    | inr (f, old) ↦ rw old h
    | inl new ↦ rw new (
        ground (
          arith,
          length-unexpired now v.consumed,
          length-consume c.preflight_id c.expires_at_ms (unexpired now v.consumed),
        ))
  ]

  -- The replay cache holds at most 4,096 receipts, whatever is presented and however the clock runs.
  pub attempts-bounded :
      (v : Verifier) (rest : List (Attempt F))
      → length v.consumed ≤ max_consumed_receipts
      → length (after_attempts rest v).consumed ≤ max_consumed_receipts
  unfolding after_attempts
  attempts-bounded v [] h = h
  attempts-bounded v (a ∷ rest) h =
      attempts-bounded (verify_and_consume v a).1 rest
        (unfold verify_and_consume in accept-IsBounded (clock_ms a.now) v (check v a) h)

  accept_refused :
      (now : ℤ) (v : Verifier) (r : Result (Checked F)) (e : Error)
      → (accept v now r).0 ≡ err e
      → ((accept v now r).1 ≡ v)
        ⊎ ((e ≡ runtime_error)
            × (max_consumed_receipts ≤ length (unexpired now v.consumed))
            × ((accept v now r).1 ≡ record v { consumed = unexpired now v.consumed }))
  unfolding accept
  accept_refused now v (err raised) e h = inl refl
  accept_refused now v (ok c) e h = elim (Option-cases (consumed_at c.preflight_id v.consumed)) [
    | inr (f, old) ↦ inl (rw old refl)
    | inl new ↦ elim (Bool-cases (leb max_consumed_receipts (length (unexpired now v.consumed)))) [
      | inl full ↦ inr (cc (rw (new, full) at h), leb→le _ _ full, rw (new, full) refl)
      | inr room ↦ cc (rw (new, room) at h)
    ]
  ]

  -- A receipt that is refused leaves the verifier as it was, except where the cache is full of
  -- receipts that are not expired: then the call raises RuntimeError and drops the expired ones only.
  pub refused_keeps :
      (v : Verifier) (a : Attempt F) (e : Error)
      → (verify_and_consume v a).0 ≡ err e
      → ((verify_and_consume v a).1 ≡ v)
        ⊎ ((e ≡ runtime_error)
            × (max_consumed_receipts ≤ length (unexpired (clock_ms a.now) v.consumed))
            × ((verify_and_consume v a).1
                ≡ record v { consumed = unexpired (clock_ms a.now) v.consumed }))
  unfolding verify_and_consume
  refused_keeps v a e h = accept_refused (clock_ms a.now) v (check v a) e h
