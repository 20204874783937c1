-- ===== src/Readiness/Consistent.antt =====
-- About the consistency checks of protocol_compat.py on the report of local_readiness.py.
use echo_veil.Base.{◌≡◌, refl, ◌∙◌, inl, inr, true, false, Bool-cases}
use echo_veil.Base.Texts.{text_eq}
use echo_veil.Json.{member, elem, items, to_items}
use echo_veil.Receipts.{entry}
use echo_veil.Receipts.Claims.{is_true, is_text, is_null}
use echo_veil.Readiness.{State, deployment_modes, readiness_failures, is_enclave_ready}
use echo_veil.Readiness.Parse.{
  is_false, is_empty_list, starts_text, common_ready, no_remediations, local_consistent,
  enclave_consistent, blocked_consistent, is_consistent,
}
use echo_veil.Readiness.Report.{is_local_ready, protection_tier, runtime_exposure, texts, report}
use echo_veil.Readiness.Facts.{
  elem-all, enclave_facts, local_facts, local_gate_facts, empty_of_length,
}
use echo_veil.Readiness.Tiers.{
  tier_enclave, tier_local, blocked_tiers, other_tier, tier_blocked, enclave_not_local,
}
use echo_veil.Readiness.Shape.{report_values}

module _ (F : Type 0) where
  local_consistent-report :
      (s : State) → is_local_ready s ≡ true → local_consistent (report {F = F} s) ≡ true
  unfolding local_consistent report entry member text_eq is_true is_false is_text common_ready
      no_remediations is_null is_empty_list runtime_exposure texts to_items items
  local_consistent-report s h =
      let (outside, none_left) = local_facts s h in
      let f = local_gate_facts s none_left in
      rw
        (
          outside,
          empty_of_length (readiness_failures s) none_left,
          tier_local s outside h,
          f.0,
          f.1,
          f.2,
          f.3,
          f.4,
          f.5,
          f.6,
          f.7,
        )
        refl

  enclave_consistent-report :
      (s : State) → is_enclave_ready s ≡ true → enclave_consistent (report {F = F} s) ≡ true
  unfolding enclave_consistent report entry member text_eq is_true is_false is_text common_ready
      no_remediations is_null is_empty_list starts_text runtime_exposure texts to_items items
  enclave_consistent-report s h =
      let f = enclave_facts s h in
      rw (h, tier_enclave s h, f.0, f.1, f.2, f.3, f.4, f.5, f.6, f.7) refl

  blocked_consistent-report :
      (s : State)
      → is_enclave_ready s ≡ false
      → is_local_ready s ≡ false
      → elem s.configured_mode deployment_modes ≡ true
      → blocked_consistent (report {F = F} s) ≡ true
  unfolding blocked_consistent report entry member text_eq is_false is_text
  blocked_consistent-report s h l m =
      rw (h, elem-all other_tier (protection_tier s) blocked_tiers (tier_blocked s h l m) refl) refl

  pub is_consistent-report :
      (s : State)
      → elem s.configured_mode deployment_modes ≡ true
      → is_consistent (report {F = F} s) ≡ true
  is_consistent-report s m = elim (Bool-cases (is_enclave_ready s)) [
    | inl e ↦
        (let outside : is_local_ready s ≡ false = enclave_not_local s e in
          report_values F s ∙ rw (outside, e) (enclave_consistent-report s e))
    | inr e ↦ elim (Bool-cases (is_local_ready s)) [
      | inl l ↦ report_values F s ∙ rw (l, e) (local_consistent-report s l)
      | inr l ↦ report_values F s ∙ rw (l, e) (blocked_consistent-report s e l m)
    ]
  ]
