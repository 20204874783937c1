-- ===== src/Readiness/Accepts.antt =====
-- About the readiness report of local_readiness.py and its own validation by protocol_compat.py.
use echo_veil.Base.{◌≡◌, ◌↔◌, refl, sym, ◌∙◌, true, false, [], some, ok}
use echo_veil.Base.Texts.{codes}
use echo_veil.Json.{Fields, dict}
use echo_veil.Receipts.{entry}
use echo_veil.Receipts.Claims.{is_true}
use echo_veil.Readiness.{State, new_state, rollback_tiers, readiness_failures, is_enclave_ready}
use echo_veil.Readiness.Parse.{optionally, is_report, parse_capabilities}
use echo_veil.Readiness.Report.{report, build_capabilities}
use echo_veil.Readiness.Facts.{
  elem-all, fits, new_state_valid, custody_fits, fits-protection_tier, local_facts, empty_of_length,
}
use echo_veil.Readiness.Tiers.{local_ready_of_gate, fits-runtime_exposure}
use echo_veil.Readiness.Shape.{
  report_shape, report_texts, limitations_bounded, remediations_bounded, report_ready,
}
use echo_veil.Readiness.Consistent.{is_consistent-report}

module _ (F : Type 0) where
  is_report-report : (s : State) → new_state s ≡ ok s → is_report (report {F = F} s) ≡ true
  unfolding is_report optionally
  is_report-report s h =
      let (custody, rollback, mode) = new_state_valid s h in
      let shape = report_shape F s in
      rw
        (
          shape.0,
          shape.1,
          shape.2,
          report_texts F s,
          custody_fits s.evidence.key_custody custody,
          fits-protection_tier s mode,
          elem-all fits s.evidence.rollback_detection rollback_tiers rollback refl,
          fits-runtime_exposure (is_enclave_ready s),
          shape.3,
          shape.4,
          limitations_bounded F (is_enclave_ready s),
          shape.5,
          remediations_bounded F s (is_enclave_ready s),
          is_consistent-report F s mode,
        )
        refl

pub report_parses :
    {F : Type 0} (s : State)
    → new_state s ≡ ok s
    → parse_capabilities (dict (report {F = F} s)) ≡ ok (some (report s))
unfolding parse_capabilities
report_parses {F} s h = rw (is_report-report F s h) refl

-- The report of any state that passes its checks passes its own validation. It says that the profile
-- is ready for local production exactly when no readiness check fails and the enclave class is not
-- active, and that it is ready for production exactly when the enclave class is.
pub build_capabilities-report :
    {F : Type 0} (s : State)
    → new_state s ≡ ok s
    → (c : Fields F) × (build_capabilities s ≡ ok c)
      × ((is_true (entry (codes "local_production_ready") c) ≡ true)
          ↔ ((readiness_failures s ≡ []) × (is_enclave_ready s ≡ false)))
      × (is_true (entry (codes "production_ready") c) ≡ is_enclave_ready s)
unfolding build_capabilities parse_capabilities
build_capabilities-report {F} s h = (
  report s,
  rw (is_report-report F s h) refl,
  (
    λ ready.
        (let (outside, none_left) = local_facts s (sym (report_ready F s).0 ∙ ready) in
          (empty_of_length (readiness_failures s) none_left, outside)),
    λ facts. (report_ready F s).0 ∙ local_ready_of_gate s facts.0 facts.1,
  ),
  (report_ready F s).1,
)
