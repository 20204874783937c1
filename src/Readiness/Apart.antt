-- ===== src/Readiness/Apart.antt =====
-- About the preflight responses that the parsers of protocol_compat.py accept.
use echo_veil.Base.{
  ◌≡◌, refl, ap, inl, inr, true, false, List, ok, err, value_error, ok-injective, Bool-cases,
  and-eq-true, all, subst,
}
use echo_veil.Base.Texts.{Text, codes, text_eq, text_eq_iff}
use echo_veil.Json.{
  Value, Fields, null, boolean, integer, real, text, layer, kind, seq, dict, names, elem, same_set,
}
use echo_veil.Receipts.{entry}
use echo_veil.Receipts.Claims.{is_text}
use echo_veil.Readiness.Facts.{elem-all}
use echo_veil.Readiness.Responses.{
  Expected, response_fields, legacy_response_fields, binds, is_response, is_legacy_response,
  parse_preflight_response, parse_legacy_response,
}

-- A legacy response does not list its schema, which a response does.
names_apart :
    (ks : List Text) → elem (codes "schema") ks ≡ true → same_set ks legacy_response_fields ≡ false
unfolding same_set elem text_eq
names_apart ks h = elim (Bool-cases (all (λ k. elem k legacy_response_fields) ks)) [
  | inl e ↦ cc (elem-all (λ k. elem k legacy_response_fields) (codes "schema") ks h e)
  | inr e ↦ rw e refl
]

module _ {F : Type 0} where
  is_text-text : (s : Text) (v : Value F) → is_text s v ≡ true → v ≡ text s
  unfolding is_text
  is_text-text s (text t) h = ap text ((text_eq_iff t s).0 h)
  is_text-text s (boolean b) h = cc
  is_text-text s null h = cc
  is_text-text s (integer n) h = cc
  is_text-text s (real x) h = cc
  is_text-text s (layer l) h = cc
  is_text-text s (kind k) h = cc
  is_text-text s (seq vs) h = cc
  is_text-text s (dict fs) h = cc

  -- The response names what the caller expects.
  abbrev pub IsBound : Expected → Fields F → Type 0
  IsBound x r =
      (entry (codes "host") r ≡ text x.expected_host)
      × (entry (codes "profile") r ≡ text x.expected_profile)
      × (entry (codes "scope") r ≡ text x.expected_scope)
      × (entry (codes "query_source") r ≡ text x.expected_query_source)

  binds-IsBound : (x : Expected) (r : Fields F) → binds x r ≡ true → IsBound x r
  unfolding binds
  binds-IsBound x r h =
      let source = and-eq-true _ _ (and-eq-true _ _ h).0 in
      let scope = and-eq-true _ _ source.0 in
      let profile = and-eq-true _ _ scope.0 in
      let host = and-eq-true _ _ profile.0 in
      (
        is_text-text x.expected_host (entry (codes "host") r) host.1,
        is_text-text x.expected_profile (entry (codes "profile") r) profile.1,
        is_text-text x.expected_scope (entry (codes "scope") r) scope.1,
        is_text-text x.expected_query_source (entry (codes "query_source") r) source.1,
      )

  response_facts :
      (x : Expected) (r : Fields F)
      → is_response x r ≡ true
      → (elem (codes "schema") (names r) ≡ true) × (binds x r ≡ true)
  unfolding is_response elem text_eq
  response_facts x r h =
      let telemetry = and-eq-true _ _ (and-eq-true _ _ h).0 in
      let receipt = and-eq-true _ _ telemetry.0 in
      let evidence = and-eq-true _ _ receipt.0 in
      let mutated = and-eq-true _ _ evidence.0 in
      let bound = and-eq-true _ _ mutated.0 in
      let schema = and-eq-true _ _ bound.0 in
      let known = and-eq-true _ _ schema.0 in
      (elem-all (λ k. elem k (names r)) (codes "schema") response_fields refl known.0, bound.1)

  legacy_apart :
      (y : Expected) (r : Fields F)
      → elem (codes "schema") (names r) ≡ true
      → is_legacy_response y r ≡ false
  unfolding is_legacy_response
  legacy_apart y r h = rw (names_apart (names r) h) refl

  -- A preflight response that its parser accepts names the host, the profile, the scope and the query
  -- source that the caller expects, and the parser of legacy responses refuses it, whatever the caller
  -- of that one expects.
  pub parse_preflight_response-IsBound :
      (x y : Expected) (v : Value F) (r : Fields F)
      → parse_preflight_response x v ≡ ok r
      → IsBound x r × (parse_legacy_response y v ≡ err value_error)
  unfolding parse_preflight_response parse_legacy_response
  parse_preflight_response-IsBound x y (dict d) r h = elim (Bool-cases (is_response x d)) [
    | inl e ↦
        (let (listed, bound) = response_facts x d e in
          (
            subst (IsBound x) (ok-injective (rw e at h)) (binds-IsBound x d bound),
            rw (legacy_apart y d listed) refl,
          ))
    | inr e ↦ cc (rw e at h)
  ]
  parse_preflight_response-IsBound x y null r h = cc
  parse_preflight_response-IsBound x y (boolean b) r h = cc
  parse_preflight_response-IsBound x y (integer n) r h = cc
  parse_preflight_response-IsBound x y (real q) r h = cc
  parse_preflight_response-IsBound x y (text s) r h = cc
  parse_preflight_response-IsBound x y (layer l) r h = cc
  parse_preflight_response-IsBound x y (kind k) r h = cc
  parse_preflight_response-IsBound x y (seq vs) r h = cc
