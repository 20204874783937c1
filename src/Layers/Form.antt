-- ===== src/Layers/Form.antt =====
-- The well-formed contracts of memory_layers.py, and what `MemoryLayerContract(...)` checks of them.
use echo_veil.Base.{
  ◌≤◌, ◌≡◌, sym, subst, true, List, [], ◌∷◌, Option, none, some, ok, arith, All, length, leb, eqb,
  >>=-eq-ok, leb→le, eqb_iff,
}
use echo_veil.Base.Floats.{Float}
use echo_veil.Json.{Value, text}
use echo_veil.Layers.Validate.{
  Unicode, check_timestamp, validate_bounded_text, no_repeats, max_provenance_chars,
  max_related_id_chars, max_promotion_reason_chars, max_promotion_events,
}
use echo_veil.Layers.Contract.{
  Evidence, Contract, is_allowed, in_order, times_fit, logic_fits, construct, check_history,
  optional_timestamp,
}
use echo_veil.Layers.Clean.{Clean}

module _ {F : Type 0} ⦃fl : Float F⦄ where
  -- A finite timestamp that is not negative.
  abbrev pub IsTime : F → Type 0
  IsTime t = check_timestamp t ≡ ok t

  abbrev pub IsOptionalTime : Option F → Type 0
  IsOptionalTime none = Unit
  IsOptionalTime (some t) = IsTime t

module _ {F : Type 0} ⦃fl : Float F⦄ ⦃uc : Unicode⦄ where
  abbrev pub IsEvent : Evidence F → Type 0
  IsEvent e = IsTime e.promoted_at × Clean max_promotion_reason_chars e.reason

  -- What the dataclass promises of its fields.
  pub record WellFormed (c : Contract F) : Type 0 where
    pub version_one : c.version ≡ 1
    pub provenance_clean : All (Clean max_provenance_chars) c.provenance
    pub provenance_unique : no_repeats c.provenance ≡ true
    pub provenance_some : 1 ≤ length c.provenance
    pub provenance_capped : length c.provenance ≤ 4
    pub expiry_valid : IsOptionalTime c.expires_at
    pub review_valid : IsOptionalTime c.review_at
    pub events_capped : length c.promotion_history ≤ 2
    pub events_valid : All IsEvent c.promotion_history
    pub related_clean : All (Clean max_related_id_chars) c.related_ids
    pub related_unique : no_repeats c.related_ids ≡ true
    pub related_capped : length c.related_ids ≤ 8
    pub times : times_fit c.layer c.expires_at c.review_at ≡ true
    pub allowed : is_allowed c.layer c.promotion_history ≡ true
    pub ordered : in_order c.promotion_history ≡ true
    pub logic : logic_fits c.layer c.logic_kind c.related_ids ≡ true

  -- The checks that construction makes whatever the texts are.
  pub record Checked (c : Contract F) : Type 0 where
    pub version_one : eqb c.version 1 ≡ true
    pub expiry_valid : optional_timestamp c.expires_at ≡ ok tt
    pub review_valid : optional_timestamp c.review_at ≡ ok tt
    pub events_capped : leb (length c.promotion_history) max_promotion_events ≡ true
    pub times : times_fit c.layer c.expires_at c.review_at ≡ true
    pub allowed : is_allowed c.layer c.promotion_history ≡ true
    pub ordered : in_order c.promotion_history ≡ true
    pub logic : logic_fits c.layer c.logic_kind c.related_ids ≡ true

  pub construct-same : (c : Contract F) {d : Contract F} → construct c ≡ ok d → d ≡ c
  unfolding construct
  construct-same c h = ground arith

  pub construct-Checked : (c : Contract F) {d : Contract F} → construct c ≡ ok d → Checked c
  unfolding construct
  construct-Checked c h = ground arith

  IsTime-of_check : (t : F) {u : F} → check_timestamp t ≡ ok u → IsTime t
  unfolding check_timestamp
  IsTime-of_check t h = ground arith

  IsOptionalTime-of_check : (o : Option F) → optional_timestamp o ≡ ok tt → IsOptionalTime o
  unfolding optional_timestamp
  IsOptionalTime-of_check none h = tt
  IsOptionalTime-of_check (some t) h =
      let (u, e, k) = >>=-eq-ok (check_timestamp t) _ h in IsTime-of_check t e

  construct-history :
      (c : Contract F) {d : Contract F}
      → construct c ≡ ok d
      → check_history c.promotion_history ≡ ok tt
  unfolding construct
  construct-history c h = ground arith

  -- With clean reasons a checked history consists of events.
  history-events :
      (es : List (Evidence F))
      → All (λ e. Clean max_promotion_reason_chars e.reason) es
      → check_history es ≡ ok tt
      → All IsEvent es
  unfolding check_history
  history-events [] g h = tt
  history-events (e ∷ es) g h =
      let (t, p, k) = >>=-eq-ok (check_timestamp e.promoted_at) _ h in
      let (r, q, m) =
        >>=-eq-ok
          (validate_bounded_text max_promotion_reason_chars (let v : Value F = text e.reason in v))
          _ k in
      ((IsTime-of_check e.promoted_at p, g.0), history-events es g.1 m)

  -- A contract that is constructed from clean texts is well formed.
  pub construct-WellFormed :
      (c : Contract F) {d : Contract F}
      → construct c ≡ ok d
      → All (Clean max_provenance_chars) c.provenance
      → no_repeats c.provenance ≡ true
      → 1 ≤ length c.provenance
      → length c.provenance ≤ 4
      → All (λ e. Clean max_promotion_reason_chars e.reason) c.promotion_history
      → All (Clean max_related_id_chars) c.related_ids
      → no_repeats c.related_ids ≡ true
      → length c.related_ids ≤ 8
      → WellFormed d
  construct-WellFormed c h pc pu ps pl er rc ru rl =
      let k = construct-Checked c h in
      subst WellFormed (sym (construct-same c h)) (record {
        version_one = (eqb_iff c.version 1).0 k.version_one;
        provenance_clean = pc;
        provenance_unique = pu;
        provenance_some = ps;
        provenance_capped = pl;
        expiry_valid = IsOptionalTime-of_check c.expires_at k.expiry_valid;
        review_valid = IsOptionalTime-of_check c.review_at k.review_valid;
        events_capped = leb→le _ _ k.events_capped;
        events_valid = history-events c.promotion_history er (construct-history c h);
        related_clean = rc;
        related_unique = ru;
        related_capped = rl;
        times = k.times;
        allowed = k.allowed;
        ordered = k.ordered;
        logic = k.logic;
      })
