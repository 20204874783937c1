-- ===== src/Layers/Inversion.antt =====
-- What a successful call of a function of memory_layers.py has computed on its way.
use echo_veil.Base.{
  ◌≤◌, ◌≡◌, refl, true, false, not, ◌&&◌, ◌||◌, List, [], ◌∷◌, ◌++◌, Option, none, some, ok,
  value_error, guard, arith, All, length, and-eq-true, leb, eqb, along, >>=-eq-ok, >>-eq-ok,
  guard-eq-ok,
}
use echo_veil.Base.Texts.{Text}
use echo_veil.Base.Floats.{Float}
use echo_veil.Json.{Value, LogicKind, MemoryLayer, live, long_term, contextual_logic}
use echo_veil.Layers.Validate.{
  Unicode, parse_layer, resolve_now, live_expiration, has_durable_provenance, validate_bounded_text,
  validate_provenance, no_repeats, max_related_id_chars, max_promotion_reason_chars,
  max_provenance_items, texts,
}
use echo_veil.Layers.Contract.{Evidence, Contract, construct, layer_eq}
use echo_veil.Layers.Clean.{Clean, related_ids-Clean, bounded_text-Clean}
use echo_veil.Layers.Moves.{
  is_null, given_provenance, new_history, new_expiration, new_logic, promote, refresh_live,
  new_memory_contract, may_promote, dedupe, additional_provenance, review_after,
}

module _ {F : Type 0} ⦃fl : Float F⦄ ⦃uc : Unicode⦄ where
  abbrev pub promoted : Contract F → MemoryLayer → Text → F → List Text → Contract F
  promoted c target reason at combined = record {
    layer = target;
    provenance = combined;
    expires_at = none;
    review_at = review_after target at;
    promotion_history =
        c.promotion_history
        ++ record { source_layer = c.layer; promoted_at = at; reason = reason } ∷ [];
    logic_kind = none;
    related_ids = [];
    version = 1;
  }

  -- What a successful promotion has computed.
  pub record Promotion (clock : F) (c d : Contract F) (target reason provenance now : Value F)
      : Type 0 where
    pub to : MemoryLayer
    pub words : Text
    pub at : F
    pub extra : List Text
    pub to_eq : parse_layer target ≡ ok to
    pub allowed : may_promote c.layer to ≡ true
    pub words_eq : validate_bounded_text max_promotion_reason_chars reason ≡ ok words
    pub at_eq : resolve_now clock now ≡ ok at
    pub extra_eq : additional_provenance provenance ≡ ok extra
    pub capped : leb (length (dedupe (c.provenance ++ extra))) max_provenance_items ≡ true
    pub durable :
        (not (layer_eq to long_term) || has_durable_provenance (dedupe (c.provenance ++ extra)))
        ≡ true
    pub built : construct (promoted c to words at (dedupe (c.provenance ++ extra))) ≡ ok d

  pub promote-inv :
      (clock : F) (c : Contract F) {d : Contract F} (target reason provenance now : Value F)
      → promote clock c target reason provenance now ≡ ok d
      → Promotion clock c d target reason provenance now
  unfolding promote
  promote-inv clock c target reason provenance now h =
      let (l, e1, h1) = >>=-eq-ok (parse_layer target) _ h in
      let (u2, e2, h2) = >>=-eq-ok (guard (may_promote c.layer l) value_error) _ h1 in
      let (w, e3, h3) = >>=-eq-ok (validate_bounded_text max_promotion_reason_chars reason) _ h2 in
      let (t, e4, h4) = >>=-eq-ok (resolve_now clock now) _ h3 in
      let (x, e5, h5) = >>=-eq-ok (additional_provenance provenance) _ h4 in
      let (u6, e6, h6) =
        >>=-eq-ok
          (guard (leb (length (dedupe (c.provenance ++ x))) max_provenance_items) value_error) _
          h5 in
      let (u7, e7, h7) =
        >>=-eq-ok
          (guard (not (layer_eq l long_term) || has_durable_provenance (dedupe (c.provenance ++ x)))
            value_error)
          _ h6 in
      record {
        to = l;
        words = w;
        at = t;
        extra = x;
        to_eq = e1;
        allowed = guard-eq-ok _ _ e2;
        words_eq = e3;
        at_eq = e4;
        extra_eq = e5;
        capped = guard-eq-ok _ _ e6;
        durable = guard-eq-ok _ _ e7;
        built = h7;
      }

  abbrev pub refreshed : List Text → F → Contract F
  refreshed combined expiration = record {
    layer = live;
    provenance = combined;
    expires_at = some expiration;
    review_at = none;
    promotion_history = [];
    logic_kind = none;
    related_ids = [];
    version = 1;
  }

  -- What a successful refresh has computed.
  pub record Refresh (clock : F) (c d : Contract F) (provenance expires_at now : Value F)
      : Type 0 where
    pub current : F
    pub extra : List Text
    pub expiration : F
    pub was_live : layer_eq c.layer live ≡ true
    pub current_eq : resolve_now clock now ≡ ok current
    pub extra_eq : additional_provenance provenance ≡ ok extra
    pub capped : leb (length (dedupe (c.provenance ++ extra))) max_provenance_items ≡ true
    pub expiration_eq : live_expiration expires_at current ≡ ok expiration
    pub built : construct (refreshed (dedupe (c.provenance ++ extra)) expiration) ≡ ok d

  pub Refresh-inv :
      (clock : F) (c : Contract F) {d : Contract F} (provenance expires_at now : Value F)
      → refresh_live clock c provenance expires_at now ≡ ok d
      → Refresh clock c d provenance expires_at now
  unfolding refresh_live
  Refresh-inv clock c provenance expires_at now h =
      let (u1, e1, h1) = >>=-eq-ok (guard (layer_eq c.layer live) value_error) _ h in
      let (t, e2, h2) = >>=-eq-ok (resolve_now clock now) _ h1 in
      let (x, e3, h3) = >>=-eq-ok (additional_provenance provenance) _ h2 in
      let (u4, e4, h4) =
        >>=-eq-ok
          (guard (leb (length (dedupe (c.provenance ++ x))) max_provenance_items) value_error) _
          h3 in
      let (e, e5, h5) = >>=-eq-ok (live_expiration expires_at t) _ h4 in
      record {
        current = t;
        extra = x;
        expiration = e;
        was_live = guard-eq-ok _ _ e1;
        current_eq = e2;
        extra_eq = e3;
        capped = guard-eq-ok _ _ e4;
        expiration_eq = e5;
        built = h5;
      }

  history-Clean :
      (current : F) (role : MemoryLayer) (provenance : Value F) (clean : List Text)
      (reason : Value F) {es : List (Evidence F)}
      → new_history current role provenance clean reason ≡ ok es
      → All (λ e. Clean max_promotion_reason_chars e.reason) es
  unfolding new_history
  history-Clean current contextual_logic provenance clean reason {es} h =
      let (u, e1, h1) =
        >>=-eq-ok (guard (not (is_null provenance) && has_durable_provenance clean) value_error) _
          h in
      let (w, e2, h2) = >>=-eq-ok (validate_bounded_text max_promotion_reason_chars reason) _ h1 in
      along (All (λ e. Clean max_promotion_reason_chars e.reason)) h2
        ((bounded_text-Clean max_promotion_reason_chars reason e2, tt))
  history-Clean current _ provenance clean reason {es = []} h = tt
  history-Clean current _ provenance clean reason {es = e ∷ es} h = ground arith

  history-durable :
      (current : F) (role : MemoryLayer) (provenance : Value F) (clean : List Text)
      (reason : Value F) {es : List (Evidence F)}
      → new_history current role provenance clean reason ≡ ok es
      → layer_eq role contextual_logic ≡ true
      → has_durable_provenance clean ≡ true
  unfolding new_history layer_eq
  history-durable current contextual_logic provenance clean reason h k =
      let (u, e1, h1) =
        >>=-eq-ok (guard (not (is_null provenance) && has_durable_provenance clean) value_error) _
          h in
      (and-eq-true _ _ (guard-eq-ok _ _ e1)).1
  history-durable current _ provenance clean reason h k = cc

  logic-Clean :
      (role : MemoryLayer) (logic_kind related_ids : Value F) {r : Option LogicKind × List Text}
      → new_logic role logic_kind related_ids ≡ ok r
      → All (Clean max_related_id_chars) r.1 × (no_repeats r.1 ≡ true) × (length r.1 ≤ 8)
  unfolding new_logic no_repeats
  logic-Clean contextual_logic logic_kind related_ids {r} h =
      ground (arith, related_ids-Clean related_ids {ss = r.1})
  logic-Clean _ logic_kind related_ids h =
      along {A = Option LogicKind × List Text}
        (λ r. All (Clean max_related_id_chars) r.1 × (no_repeats r.1 ≡ true) × (length r.1 ≤ 8))
        (>>-eq-ok (guard (is_null logic_kind && is_null related_ids) value_error) _ h)
        (tt, refl, omega arith)

  -- What a successful `new_memory_contract` has computed.
  pub record Fresh (clock : F) (d : Contract F) (role provenance expires_at now : Value F)
      : Type 0 where
    pub current : F
    pub layer : MemoryLayer
    pub clean : List Text
    pub history : List (Evidence F)
    pub expiration : Option F
    pub logic : Option LogicKind × List Text
    pub current_eq : resolve_now clock now ≡ ok current
    pub layer_eqn : parse_layer role ≡ ok layer
    pub not_long : not (layer_eq layer long_term) ≡ true
    pub clean_eq :
        validate_provenance (layer_eq layer contextual_logic) (given_provenance provenance)
        ≡ ok clean
    pub events_clean : All (λ e. Clean max_promotion_reason_chars e.reason) history
    pub knowledge_durable :
        layer_eq layer contextual_logic ≡ true → has_durable_provenance clean ≡ true
    pub expiration_eq : new_expiration current layer expires_at ≡ ok expiration
    pub related_clean :
        All (Clean max_related_id_chars) logic.1
        × (no_repeats logic.1 ≡ true)
        × (length logic.1 ≤ 8)
    pub built :
        construct (record {
          layer = layer;
          provenance = clean;
          expires_at = expiration;
          review_at = review_after layer current;
          promotion_history = history;
          logic_kind = logic.0;
          related_ids = logic.1;
          version = 1;
        })
        ≡ ok d

  pub new-inv :
      (clock : F) {d : Contract F}
      (role provenance promotion_reason expires_at logic_kind related_ids now : Value F)
      → new_memory_contract clock role provenance promotion_reason expires_at logic_kind related_ids
          now
        ≡ ok d
      → Fresh clock d role provenance expires_at now
  unfolding new_memory_contract
  new-inv clock role provenance promotion_reason expires_at logic_kind related_ids now h =
      let (t, e1, h1) = >>=-eq-ok (resolve_now clock now) _ h in
      let (l, e2, h2) = >>=-eq-ok (parse_layer role) _ h1 in
      let (u3, e3, h3) = >>=-eq-ok (guard (not (layer_eq l long_term)) value_error) _ h2 in
      let (p, e4, h4) =
        >>=-eq-ok (validate_provenance (layer_eq l contextual_logic) (given_provenance provenance))
          _ h3 in
      let (es, e5, h5) = >>=-eq-ok (new_history t l provenance p promotion_reason) _ h4 in
      let (x, e6, h6) = >>=-eq-ok (new_expiration t l expires_at) _ h5 in
      let (r, e7, h7) = >>=-eq-ok (new_logic l logic_kind related_ids) _ h6 in
      record {
        current = t;
        layer = l;
        clean = p;
        history = es;
        expiration = x;
        logic = r;
        current_eq = e1;
        layer_eqn = e2;
        not_long = guard-eq-ok _ _ e3;
        clean_eq = e4;
        knowledge_durable = history-durable t l provenance p promotion_reason e5;
        events_clean = history-Clean t l provenance p promotion_reason e5;
        expiration_eq = e6;
        related_clean = logic-Clean l logic_kind related_ids e7;
        built = h7;
      }

  pub construct-provenance :
      (c : Contract F) {d : Contract F}
      → construct c ≡ ok d
      → (ss : List Text) × (validate_provenance false (let v : Value F = texts c.provenance in v)
          ≡ ok ss)
  unfolding construct
  construct-provenance c h =
      let (u1, e1, h1) = >>=-eq-ok (guard (eqb c.version 1) value_error) _ h in
      let (ss, e2, h2) =
        >>=-eq-ok (validate_provenance false (let v : Value F = texts c.provenance in v)) _ h1 in
      (ss, e2)
