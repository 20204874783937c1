-- ===== src/Layers/Window.antt =====
-- The life of a Live contract: what `new_memory_contract` and `refresh_live` give it, and `is_expired`.
use echo_veil.Base.{
  ◌≡◌, refl, sym, subst, ap, ◌∙◌, true, false, ◌&&◌, Option, some, ok, value_error, guard, arith,
  and-eq-true, >>=-eq-ok, guard-eq-ok, along,
}
use echo_veil.Base.Floats.{Float, IsOrdered}
use echo_veil.Json.{Value, real, MemoryLayer, live}
use echo_veil.Layers.Validate.{
  Unicode, live_expiration, expiration_or_default, resolve_now, validate_timestamp, check_timestamp,
  max_live_ttl_seconds,
}
use echo_veil.Layers.Contract.{Contract, is_expired, layer_eq}
use echo_veil.Layers.Form.{WellFormed, construct-same, IsTime, IsOptionalTime}
use echo_veil.Layers.Inversion.{Refresh-inv, new-inv}
use echo_veil.Layers.Moves.{refresh_live, new_memory_contract, new_expiration}

live_of : (l : MemoryLayer) → layer_eq l live ≡ true → l ≡ live
unfolding layer_eq
live_of live h = refl
live_of _ h = cc

module _ {F : Type 0} ⦃fl : Float F⦄ where
  -- The contract is live, and ends after `now` and at most 24 hours later.
  pub record Window (now : F) (c : Contract F) : Type 0 where
    pub expiry : F
    pub is_live : c.layer ≡ live
    pub expires : c.expires_at ≡ some expiry
    pub future : fl.lt now expiry ≡ true
    pub within : fl.le expiry (fl.add now (fl.decimal max_live_ttl_seconds 0)) ≡ true

  expiration_window :
      (value : Value F) (now : F) {e : F}
      → live_expiration value now ≡ ok e
      → (fl.lt now e && fl.le e (fl.add now (fl.decimal max_live_ttl_seconds 0))) ≡ true
  unfolding live_expiration
  expiration_window value now h =
      let (x, e1, h1) = >>=-eq-ok (expiration_or_default value now) _ h in
      let (u, e2, h2) =
        >>=-eq-ok
          (guard (fl.lt now x && fl.le x (fl.add now (fl.decimal max_live_ttl_seconds 0)))
            value_error)
          _ h1 in
      along (λ e. (fl.lt now e && fl.le e (fl.add now (fl.decimal max_live_ttl_seconds 0))) ≡ true)
        h2 (guard-eq-ok _ _ e2)

  module _ ⦃uc : Unicode⦄ where
    -- A refresh that succeeds was of a live contract, and its result is live from the given time for at
    -- most 24 hours.
    pub refresh_live-Window :
        (clock : F) (c : Contract F) {d : Contract F} (provenance expires_at now : Value F)
        → refresh_live clock c provenance expires_at now ≡ ok d
        → (c.layer ≡ live)
          × ((current : F) × (resolve_now clock now ≡ ok current) × Window current d)
    refresh_live-Window clock c provenance expires_at now h =
        let r = Refresh-inv clock c provenance expires_at now h in
        let w = and-eq-true _ _ (expiration_window expires_at r.current r.expiration_eq) in
        (
          live_of c.layer r.was_live,
          (
            r.current,
            r.current_eq,
            subst (Window r.current) (sym (construct-same _ r.built)) (record {
              expiry = r.expiration;
              is_live = refl;
              expires = refl;
              future = w.0;
              within = w.1;
            }),
          ),
        )

    new_window :
        (role : MemoryLayer) (current : F) (expires_at : Value F) {o : Option F}
        → new_expiration current role expires_at ≡ ok o
        → role ≡ live
        → (e : F) × (o ≡ some e) × (live_expiration expires_at current ≡ ok e)
    unfolding new_expiration
    new_window live current expires_at h l =
        let (e, p, k) = >>=-eq-ok (live_expiration expires_at current) _ h in (e, cc k, p)
    new_window _ current expires_at h l = cc

    -- A live contract that `new_memory_contract` makes is live from the given time for at most 24 hours.
    pub new_memory_contract-Window :
        (clock : F) {d : Contract F}
        (role provenance promotion_reason expires_at logic_kind related_ids now : Value F)
        → new_memory_contract clock role provenance promotion_reason expires_at logic_kind
            related_ids now
          ≡ ok d
        → d.layer ≡ live
        → (current : F) × (resolve_now clock now ≡ ok current) × Window current d
    new_memory_contract-Window clock role provenance promotion_reason expires_at logic_kind
          related_ids now h l =
        let f =
          new-inv clock role provenance promotion_reason expires_at logic_kind related_ids now h in
        let same = construct-same _ f.built in
        let l' = sym (ap (λ c. c.layer) same) ∙ l in
        let (e, p, q) = new_window f.layer f.current expires_at f.expiration_eq l' in
        let w = and-eq-true _ _ (expiration_window expires_at f.current q) in
        (
          f.current,
          f.current_eq,
          record {
            expiry = e;
            is_live = l;
            expires = ap (λ c. c.expires_at) same ∙ p;
            future = w.0;
            within = w.1;
          },
        )

    finite_of_time : (t : F) → IsTime t → fl.is_finite t ≡ true
    unfolding check_timestamp
    finite_of_time t h = ground arith

    past_excluded :
        (ordered : IsOrdered F) (now e : F)
        → IsTime now
        → IsTime e
        → fl.lt now e ≡ true
        → fl.le e now ≡ false
    past_excluded ordered now e t u h =
        ground (arith, ordered.lt-eq now e (finite_of_time now t) (finite_of_time e u))

    -- Over comparisons of floats that are ordered: a well-formed contract that is live from a valid time
    -- for at most 24 hours is not expired at that time, and it is at any valid time 24 hours after it or
    -- later.
    pub Window-expiry :
        (ordered : IsOrdered F) (clock now later : F) (c : Contract F)
        → WellFormed c
        → Window now c
        → IsTime now
        → IsTime later
        → fl.le (fl.add now (fl.decimal max_live_ttl_seconds 0)) later ≡ true
        → (is_expired clock (real now) c ≡ ok false) × (is_expired clock (real later) c ≡ ok true)
    unfolding is_expired resolve_now validate_timestamp
    Window-expiry ordered clock now later c wf w t u h =
        let valid : IsTime w.expiry = subst IsOptionalTime w.expires wf.expiry_valid in
        let before = past_excluded ordered now w.expiry t valid w.future in
        let after = ordered.le_trans w.expiry _ later w.within h in
        (rw t (rw w.expires (rw before)), rw u (rw w.expires (rw after)))
