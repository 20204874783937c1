-- ===== src/Readiness/Tiers.antt =====
-- The protection tier of a readiness report of local_readiness.py, and the bounds of its texts.
use echo_veil.Base.{
  ◌≤◌, ◌≡◌, refl, inl, inr, Bool, true, false, not, ◌||◌, List, [], ◌∷◌, arith, length, all,
  Bool-cases,
}
use echo_veil.Base.Texts.{Text, codes, text_eq}
use echo_veil.Json.{elem}
use echo_veil.Readiness.{
  State, deployment_modes, readiness_checks, readiness_failures, is_enclave_ready,
  local_production_mode,
}
use echo_veil.Readiness.Report.{is_local_ready, protection_tier, runtime_exposure}
use echo_veil.Readiness.Facts.{fits, length-failed, fits-failed}

pub tier_enclave :
    (s : State) → is_enclave_ready s ≡ true → protection_tier s ≡ codes "attested-enclave"
unfolding protection_tier
tier_enclave s h = rw h refl

pub tier_local :
    (s : State)
    → is_enclave_ready s ≡ false
    → is_local_ready s ≡ true
    → protection_tier s ≡ codes "host-trusted-local"
unfolding protection_tier
tier_local s h l = rw (h, l) refl

abbrev pub blocked_tiers : List Text
blocked_tiers = codes "local-production-blocked" ∷ deployment_modes

-- Neither of the tiers that claim a protection.
abbrev pub other_tier : Text → Bool
other_tier t = not (text_eq t (codes "host-trusted-local") || text_eq t (codes "attested-enclave"))

tier_here :
    (s : State)
    → is_enclave_ready s ≡ false
    → is_local_ready s ≡ false
    → text_eq s.configured_mode local_production_mode ≡ true
    → protection_tier s ≡ codes "local-production-blocked"
unfolding protection_tier
tier_here s h l e = rw (h, l, e) refl

tier_elsewhere :
    (s : State)
    → is_enclave_ready s ≡ false
    → is_local_ready s ≡ false
    → text_eq s.configured_mode local_production_mode ≡ false
    → protection_tier s ≡ s.configured_mode
unfolding protection_tier
tier_elsewhere s h l e = rw (h, l, e) refl

or_right : (t u : Bool) → u ≡ true → t || u ≡ true
or_right true u h = refl
or_right false u h = h

pub tier_blocked :
    (s : State)
    → is_enclave_ready s ≡ false
    → is_local_ready s ≡ false
    → elem s.configured_mode deployment_modes ≡ true
    → elem (protection_tier s) blocked_tiers ≡ true
unfolding elem text_eq
tier_blocked s h l m = elim (Bool-cases (text_eq s.configured_mode local_production_mode)) [
  | inl e ↦ rw (tier_here s h l e) refl
  | inr e ↦ rw (tier_elsewhere s h l e) (or_right _ _ m)
]

pub enclave_not_local : (s : State) → is_enclave_ready s ≡ true → is_local_ready s ≡ false
unfolding is_local_ready
enclave_not_local s h = ground arith

pub local_ready_of_gate :
    (s : State) → readiness_failures s ≡ [] → is_enclave_ready s ≡ false → is_local_ready s ≡ true
unfolding is_local_ready
local_ready_of_gate s h e = rw (h, e) refl

pub fits-runtime_exposure : (enclave : Bool) → fits (runtime_exposure enclave) ≡ true
unfolding runtime_exposure
fits-runtime_exposure true = refl
fits-runtime_exposure false = refl

pub fits-readiness_failures : (s : State) → all fits (readiness_failures s) ≡ true
unfolding readiness_failures readiness_checks
fits-readiness_failures s = fits-failed (readiness_checks s) refl

pub length-readiness_failures : (s : State) → length (readiness_failures s) ≤ 64
unfolding readiness_failures readiness_checks
length-readiness_failures s = omega (arith, length-failed (readiness_checks s))
