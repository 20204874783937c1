-- ===== src/Layers/Steps.antt =====
-- About `promote` of memory_layers.py: the layers and the history before and after.
use echo_veil.Base.{◌≡◌, refl, sym, subst, true, [], ◌∷◌, ◌++◌, none, ok}
use echo_veil.Base.Floats.{Float}
use echo_veil.Json.{Value, MemoryLayer, live, short_term, long_term, contextual_logic}
use echo_veil.Layers.Validate.{Unicode, resolve_now}
use echo_veil.Layers.Contract.{Evidence, Contract}
use echo_veil.Layers.Form.{construct-same}
use echo_veil.Layers.Inversion.{promote-inv}
use echo_veil.Layers.Moves.{promote, may_promote, review_after}

-- The two promotions that there are.
pub data OneUp : MemoryLayer → MemoryLayer → Type 0 where
  to_short : OneUp live short_term
  to_long : OneUp short_term long_term

one_up : (a b : MemoryLayer) → may_promote a b ≡ true → OneUp a b
unfolding may_promote
one_up live short_term h = to_short
one_up short_term long_term h = to_long
one_up live live h = cc
one_up live long_term h = cc
one_up live contextual_logic h = cc
one_up short_term live h = cc
one_up short_term short_term h = cc
one_up short_term contextual_logic h = cc
one_up long_term _ h = cc
one_up contextual_logic _ h = cc

module _ {F : Type 0} ⦃fl : Float F⦄ ⦃uc : Unicode⦄ where
  -- What a promotion at the time `now` makes of a contract.
  abbrev pub Moved : F → Contract F → Value F → Contract F → Type 0
  Moved clock c now d =
      OneUp c.layer d.layer
      × ((e : Evidence F) × (d.promotion_history ≡ c.promotion_history ++ e ∷ [])
          × (e.source_layer ≡ c.layer)
          × (resolve_now clock now ≡ ok e.promoted_at)
          × (d.review_at ≡ review_after d.layer e.promoted_at))
      × (d.expires_at ≡ none)
      × (d.logic_kind ≡ none)
      × (d.related_ids ≡ [])

  -- A promotion that succeeds goes from live to short-term or from short-term to long-term memory,
  -- keeps the earlier events and adds one that names the old layer and the time that was given. The
  -- result does not expire, has a review only in short-term memory, and no logic metadata.
  pub promote_one_up :
      (clock : F) (c : Contract F) {d : Contract F} (target reason provenance now : Value F)
      → promote clock c target reason provenance now ≡ ok d
      → Moved clock c now d
  promote_one_up clock c target reason provenance now h =
      let p = promote-inv clock c target reason provenance now h in
      let same = construct-same _ p.built in
      subst (Moved clock c now) (sym same)
        (one_up c.layer p.to p.allowed, (_, refl, refl, p.at_eq, refl), refl, refl, refl)
