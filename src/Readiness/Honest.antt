-- ===== src/Readiness/Honest.antt =====
-- About the reports that `parse_capabilities_v1` of protocol_compat.py accepts.
use echo_veil.Base.{
  ◌≡◌, refl, subst, inl, inr, true, false, ◌&&◌, some, arith, ok, ok-injective, Bool-cases,
  and-eq-true,
}
use echo_veil.Base.Texts.{codes}
use echo_veil.Json.{Value, Fields, null, boolean, integer, real, text, layer, kind, seq, dict}
use echo_veil.Receipts.{entry}
use echo_veil.Receipts.Claims.{is_true}
use echo_veil.Readiness.Parse.{
  is_false, local_consistent, enclave_consistent, blocked_consistent, is_consistent, is_report,
  parse_capabilities,
}

some_injective {ℓ} : {A : Type ℓ} {a b : A} → some a ≡ some b → a ≡ b
some_injective h = cc

module _ {F : Type 0} where
  is_false_not_true : (v : Value F) → is_false v ≡ true → is_true v ≡ false
  unfolding is_false is_true
  is_false_not_true (boolean b) h = ground arith
  is_false_not_true null h = refl
  is_false_not_true (integer n) h = refl
  is_false_not_true (real x) h = refl
  is_false_not_true (text s) h = refl
  is_false_not_true (layer l) h = refl
  is_false_not_true (kind k) h = refl
  is_false_not_true (seq vs) h = refl
  is_false_not_true (dict fs) h = refl

  -- What a report says of the protections is what it says of the enclave class.
  abbrev pub IsHonest : Fields F → Type 0
  IsHonest c =
      ((is_true (entry (codes "local_production_ready") c)
          && is_true (entry (codes "production_ready") c))
        ≡ false)
      × (is_true (entry (codes "hardware_isolated") c)
          ≡ is_true (entry (codes "production_ready") c))
      × (is_true (entry (codes "remotely_attested") c)
          ≡ is_true (entry (codes "production_ready") c))
      × (is_true (entry (codes "host_compromise_protected") c)
          ≡ is_true (entry (codes "production_ready") c))

  local_honest :
      (c : Fields F)
      → local_consistent c ≡ true
      → (is_true (entry (codes "hardware_isolated") c) ≡ false)
        × (is_true (entry (codes "remotely_attested") c) ≡ false)
        × (is_true (entry (codes "host_compromise_protected") c) ≡ false)
  unfolding local_consistent
  local_honest c h =
      let remediations = and-eq-true _ _ h in
      let host = and-eq-true _ _ remediations.0 in
      let remote = and-eq-true _ _ host.0 in
      let hardware = and-eq-true _ _ remote.0 in
      (
        is_false_not_true (entry (codes "hardware_isolated") c) hardware.1,
        is_false_not_true (entry (codes "remotely_attested") c) remote.1,
        is_false_not_true (entry (codes "host_compromise_protected") c) host.1,
      )

  blocked_honest :
      (c : Fields F)
      → blocked_consistent c ≡ true
      → (is_true (entry (codes "hardware_isolated") c) ≡ false)
        × (is_true (entry (codes "remotely_attested") c) ≡ false)
        × (is_true (entry (codes "host_compromise_protected") c) ≡ false)
  unfolding blocked_consistent
  blocked_honest c h =
      let host = and-eq-true _ _ h in
      let remote = and-eq-true _ _ host.0 in
      let hardware = and-eq-true _ _ remote.0 in
      (
        is_false_not_true (entry (codes "hardware_isolated") c) hardware.1,
        is_false_not_true (entry (codes "remotely_attested") c) remote.1,
        is_false_not_true (entry (codes "host_compromise_protected") c) host.1,
      )

  enclave_honest :
      (c : Fields F)
      → enclave_consistent c ≡ true
      → (is_true (entry (codes "hardware_isolated") c) ≡ true)
        × (is_true (entry (codes "remotely_attested") c) ≡ true)
        × (is_true (entry (codes "host_compromise_protected") c) ≡ true)
  unfolding enclave_consistent
  enclave_honest c h =
      let remediations = and-eq-true _ _ h in
      let host = and-eq-true _ _ remediations.0 in
      let remote = and-eq-true _ _ host.0 in
      let hardware = and-eq-true _ _ remote.0 in (hardware.1, remote.1, host.1)

  is_consistent-IsHonest : (c : Fields F) → is_consistent c ≡ true → IsHonest c
  unfolding is_consistent
  is_consistent-IsHonest c h =
      elim (Bool-cases (is_true (entry (codes "local_production_ready") c))) [
        | inl l ↦ elim (Bool-cases (is_true (entry (codes "production_ready") c))) [
          | inl p ↦ cc (rw (l, p) at h)
          | inr p ↦ (let k = local_honest c (rw (l, p) at h) in rw (l, p) (refl, k.0, k.1, k.2))
        ]
        | inr l ↦ elim (Bool-cases (is_true (entry (codes "production_ready") c))) [
          | inl p ↦ (let k = enclave_honest c (rw (l, p) at h) in rw (l, p) (refl, k.0, k.1, k.2))
          | inr p ↦ (let k = blocked_honest c (rw (l, p) at h) in rw (l, p) (refl, k.0, k.1, k.2))
        ]
      ]

  is_report-IsHonest : (c : Fields F) → is_report c ≡ true → IsHonest c
  unfolding is_report
  is_report-IsHonest c h = is_consistent-IsHonest c (and-eq-true _ _ h).1

  -- A readiness report that the parser accepts never claims both production classes, and claims
  -- hardware isolation, remote attestation and protection from a compromised host exactly when it
  -- claims the enclave class.
  pub parse_capabilities-IsHonest :
      (v : Value F) (c : Fields F) → parse_capabilities v ≡ ok (some c) → IsHonest c
  unfolding parse_capabilities
  parse_capabilities-IsHonest (dict d) c h = elim (Bool-cases (is_report d)) [
    | inl e ↦ subst IsHonest (some_injective (ok-injective (rw e at h))) (is_report-IsHonest d e)
    | inr e ↦ cc (rw e at h)
  ]
  parse_capabilities-IsHonest null c h = cc
  parse_capabilities-IsHonest (boolean b) c h = cc
  parse_capabilities-IsHonest (integer n) c h = cc
  parse_capabilities-IsHonest (real x) c h = cc
  parse_capabilities-IsHonest (text s) c h = cc
  parse_capabilities-IsHonest (layer l) c h = cc
  parse_capabilities-IsHonest (kind k) c h = cc
  parse_capabilities-IsHonest (seq vs) c h = cc
