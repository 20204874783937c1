-- ===== src/Readiness/Shape.antt =====
-- The fields of the readiness report of local_readiness.py, read back.
use echo_veil.Base.{
  ◌≤◌, ◌≡◌, refl, Bool, true, false, ◌&&◌, List, [], ◌∷◌, map, none, some, arith, if◌then◌else◌,
  le→leb, length-map, length, all,
}
use echo_veil.Base.Texts.{Text, codes, text_eq}
use echo_veil.Json.{Value, text, member, names, elem, items-to_items}
use echo_veil.Receipts.{entry}
use echo_veil.Receipts.Claims.{is_true, is_text}
use echo_veil.Readiness.{State, readiness_failures, is_enclave_ready}
use echo_veil.Readiness.Parse.{
  boolean_fields, text_fields, capabilities_schema, is_boolean, is_bounded, is_bounded_list,
  local_consistent, enclave_consistent, blocked_consistent, is_consistent, has_fields,
}
use echo_veil.Readiness.Report.{
  is_local_ready, protection_tier, runtime_exposure, limitations, texts, report,
}
use echo_veil.Readiness.Facts.{fits}
use echo_veil.Readiness.Tiers.{fits-readiness_failures, length-readiness_failures}

module _ (F : Type 0) where
  abbrev text_value : Text → Value F
  text_value t = text t

  all_bounded : (ss : List Text) → all fits ss ≡ true → all is_bounded (map text_value ss) ≡ true
  unfolding is_bounded
  all_bounded [] h = refl
  all_bounded (t ∷ ss) h = ground (arith, all_bounded ss)

  texts_bounded :
      (ss : List Text)
      → length ss ≤ 64
      → all fits ss ≡ true
      → is_bounded_list (texts {F = F} ss) ≡ true
  unfolding texts is_bounded_list
  texts_bounded ss n h =
      rw (items-to_items (map text_value ss), length-map text_value ss, le→leb _ _ n)
        (all_bounded ss h)

  pub report_shape :
      (s : State)
      → (has_fields (report {F = F} s) ≡ true)
        × (is_text capabilities_schema (entry (codes "schema") (report {F = F} s)) ≡ true)
        × (all (λ k. is_boolean (entry k (report {F = F} s))) boolean_fields ≡ true)
        × (member (codes "generated_at_ms") (report {F = F} s) ≡ none)
        × (member (codes "limitations") (report {F = F} s)
            ≡ some (texts (limitations (is_enclave_ready s))))
        × (member (codes "remediation_codes") (report {F = F} s)
            ≡ some (texts (if is_enclave_ready s then [] else readiness_failures s)))
  unfolding has_fields report elem names entry member text_eq is_text is_boolean
  report_shape s = (refl, refl, refl, refl, refl, refl)

  pub report_texts :
      (s : State)
      → all (λ k. is_bounded (entry k (report {F = F} s))) text_fields ≡ (
          fits s.evidence.key_custody
          && (fits (protection_tier s)
              && (fits s.evidence.rollback_detection
                  && (fits (runtime_exposure (is_enclave_ready s)) && true))))
  unfolding report entry member text_eq is_bounded
  report_texts s = refl

  pub report_values :
      (s : State)
      → is_consistent (report {F = F} s) ≡ (
          if is_local_ready s && is_enclave_ready s
          then false
          else if is_local_ready s
          then local_consistent (report {F = F} s)
          else if is_enclave_ready s
          then enclave_consistent (report {F = F} s)
          else blocked_consistent (report {F = F} s))
  unfolding is_consistent report entry member text_eq is_true
  report_values s = refl

  pub limitations_bounded :
      (enclave : Bool) → is_bounded_list (texts {F = F} (limitations enclave)) ≡ true
  unfolding limitations
  limitations_bounded true = texts_bounded [] (omega arith) refl
  limitations_bounded false = texts_bounded (limitations false) (omega arith) refl

  pub remediations_bounded :
      (s : State) (enclave : Bool)
      → is_bounded_list (texts {F = F} (if enclave then [] else readiness_failures s)) ≡ true
  remediations_bounded s true = texts_bounded [] (omega arith) refl
  remediations_bounded s false =
      texts_bounded (readiness_failures s) (length-readiness_failures s) (fits-readiness_failures s)

  pub report_ready :
      (s : State)
      → (is_true (entry (codes "local_production_ready") (report {F = F} s)) ≡ is_local_ready s)
        × (is_true (entry (codes "production_ready") (report {F = F} s)) ≡ is_enclave_ready s)
  unfolding report entry member text_eq is_true
  report_ready s = (refl, refl)
