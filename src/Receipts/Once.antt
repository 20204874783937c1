-- ===== src/Receipts/Once.antt =====
-- About presenting a receipt of preflight_receipt.py again, after other calls.
use echo_veil.Base.{
  ◌≡◌, ◌≢◌, sym, subst, ◌∙◌, inl, inr, true, false, List, [], ◌∷◌, ◌++◌, arith, Error, ok, err,
  guard, >>=-eq-ok, >>-eq-ok, guard-eq-ok, ok-injective, Result-cases, value_error,
}
use echo_veil.Base.Int.{ℤ, leb_ℤ}
use echo_veil.Base.Texts.{codes}
use echo_veil.Base.Floats.{Float}
use echo_veil.Json.{Fields}
use echo_veil.Receipts.{Crypto, Rounding, timestamp_ms, entry}
use echo_veil.Receipts.Issue.{clock_ms}
use echo_veil.Receipts.Verify.{
  Verifier, Attempt, Checked, in_window, authentic, in_force, receipt_id, check, check_binding,
  check_context, check_forms, verify_and_consume, after_attempts,
}
use echo_veil.Receipts.Spent.{IsSpent, InOrder, verify_notes, verify-key, attempts-IsSpent}

window-ahead :
    (now issued expires : ℤ) → in_window now issued expires ≡ true → leb_ℤ expires now ≡ false
unfolding in_window
window-ahead now issued expires h = ground arith

module _ {F : Type 0} ⦃fl : Float F⦄ ⦃rounding : Rounding F⦄ ⦃cr : Crypto⦄ where
  in_force_ahead :
      (now : ℤ) (claims : Fields F) (e : ℤ)
      → in_force now claims ≡ ok e
      → (timestamp_ms (entry (codes "expires_at_ms") claims) ≡ ok e) × (leb_ℤ e now ≡ false)
  unfolding in_force
  in_force_ahead now claims e h =
      let (issued, i, r) = >>=-eq-ok (timestamp_ms (entry (codes "issued_at_ms") claims)) _ h in
      let (expires, x, q) = >>=-eq-ok (timestamp_ms (entry (codes "expires_at_ms") claims)) _ r in
      let (u, g, last) = >>=-eq-ok (guard (in_window now issued expires) value_error) _ q in
      let t =
        window-ahead now issued expires
          (guard-eq-ok (in_window now issued expires) value_error g) in
      let same : expires ≡ e = ok-injective last in
      (x ∙ last, subst (λ n. leb_ℤ n now ≡ false) same t)

  -- What the checks read is a function of the key and the receipt, and they pass only before the
  -- expiry.
  check_reads :
      (v : Verifier) (a : Attempt F) (c : Checked F)
      → check v a ≡ ok c
      → (authentic v.public_key a.value ≡ ok c.claims)
        × (timestamp_ms (entry (codes "expires_at_ms") c.claims) ≡ ok c.expires_at_ms)
        × (leb_ℤ c.expires_at_ms (clock_ms a.now) ≡ false)
        × (receipt_id (entry (codes "preflight_id") c.claims) ≡ ok c.preflight_id)
  unfolding check
  check_reads v a c h =
      let (claims, e1, r1) = >>=-eq-ok (authentic v.public_key a.value) _ h in
      let (expires, e2, r2) = >>=-eq-ok (in_force (clock_ms a.now) claims) _ r1 in
      let r3 = >>-eq-ok (check_binding v a claims) _ r2 in
      let r4 = >>-eq-ok (check_context a.context claims) _ r3 in
      let (id, e6, r5) = >>=-eq-ok (receipt_id (entry (codes "preflight_id") claims)) _ r4 in
      let r8 = >>-eq-ok (check_forms claims) _ r5 in
      let (stamp, ahead) = in_force_ahead (clock_ms a.now) claims expires e2 in
      subst
        (λ (d : Checked F).
          (authentic v.public_key a.value ≡ ok d.claims)
          × (timestamp_ms (entry (codes "expires_at_ms") d.claims) ≡ ok d.expires_at_ms)
          × (leb_ℤ d.expires_at_ms (clock_ms a.now) ≡ false)
          × (receipt_id (entry (codes "preflight_id") d.claims) ≡ ok d.preflight_id))
        (ok-injective r8) (e1, stamp, ahead, e6)

  -- A verifier with the same key refuses a receipt that it knows or that is expired.
  spent_refuses :
      (v w : Verifier) (first again : Attempt F) (c : Checked F)
      → check v first ≡ ok c
      → w.public_key ≡ v.public_key
      → again.value ≡ first.value
      → IsSpent c.preflight_id c.expires_at_ms (clock_ms again.now) w
      → (claims : Fields F) → (verify_and_consume w again).0 ≢ ok claims
  spent_refuses v w first again c e key same spent claims h =
      let (d, f, absent, noted) = verify_notes w again claims h in
      let mine = check_reads v first c e in
      let its = check_reads w again d f in
      let body : c.claims ≡ d.claims = ok-injective (sym mine.0 ∙ cc (key, same, its.0)) in
      let expiry : c.expires_at_ms ≡ d.expires_at_ms =
        ok-injective (sym mine.1 ∙ cc (body, its.1)) in
      let id : c.preflight_id ≡ d.preflight_id = ok-injective (sym mine.3 ∙ cc (body, its.3)) in
      elim spent [ inl known ↦ cc (known, absent, id) | inr past ↦ cc (past, its.2, expiry) ]

  -- A receipt that was accepted is refused from then on: at every later call with the same receipt,
  -- whatever the calls in between and their context, as long as the clock does not go back.
  pub accepted_once :
      (v : Verifier) (first : Attempt F) (later : List (Attempt F)) (again : Attempt F)
      (claims : Fields F)
      → (verify_and_consume v first).0 ≡ ok claims
      → again.value ≡ first.value
      → InOrder first.now (later ++ again ∷ [])
      → (e : Error) × ((verify_and_consume
            (after_attempts later (verify_and_consume v first).1)
            again).0
          ≡ err e)
  accepted_once v first later again claims h same order =
      let v1 = (verify_and_consume v first).1 in
      let v2 = after_attempts later v1 in
      let (c, e, absent, noted) = verify_notes v first claims h in
      let (spent, key) =
        attempts-IsSpent c.preflight_id c.expires_at_ms first.now v1 later again order
          (inl noted) in
      let key1 = verify-key v first in
      elim (Result-cases (verify_and_consume v2 again).0) [
        | inr refused ↦ refused
        | inl (others, accepted) ↦
            absurd (spent_refuses v v2 first again c e (key ∙ key1) same spent others accepted)
      ]
