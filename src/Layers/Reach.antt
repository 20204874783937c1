-- ===== src/Layers/Reach.antt =====
-- The contracts that the functions of memory_layers.py issue, and what promotes and refreshes them:
-- those that were decoded or constructed directly are not among them.
use echo_veil.Base.{
  ◌≡◌, refl, sym, subst, ap, ◌∙◌, Bool, true, not, ◌||◌, List, [], ◌∷◌, ok, arith, >>=-eq-ok,
}
use echo_veil.Base.Texts.{Text}
use echo_veil.Base.Floats.{Float}
use echo_veil.Json.{Value, MemoryLayer, live, short_term, long_term, contextual_logic}
use echo_veil.Layers.Validate.{Unicode, validate_timestamp, has_durable_provenance}
use echo_veil.Layers.Contract.{Evidence, Contract, construct, layer_eq, is_allowed}
use echo_veil.Layers.Form.{WellFormed, construct-same}
use echo_veil.Layers.Moves.{
  promote, refresh_live, new_memory_contract, migrated_short_term_contract, may_promote,
}
use echo_veil.Layers.Inversion.{promote-inv, Refresh-inv, new-inv}
use echo_veil.Layers.Issued.{
  promote-WellFormed, refresh_live-WellFormed, new_memory_contract-WellFormed, migrated-WellFormed,
}

-- The layers whose memories are kept as knowledge.
abbrev pub IsKnowledge : MemoryLayer → Type 0
IsKnowledge long_term = Unit
IsKnowledge contextual_logic = Unit
IsKnowledge _ = ⊥

module _ ⦃uc : Unicode⦄ where
  durable_fresh :
      (role : MemoryLayer) (ss : List Text)
      → not (layer_eq role long_term) ≡ true
      → (layer_eq role contextual_logic ≡ true → has_durable_provenance ss ≡ true)
      → IsKnowledge role
      → has_durable_provenance ss ≡ true
  unfolding layer_eq
  durable_fresh live ss n d k = absurd k
  durable_fresh short_term ss n d k = absurd k
  durable_fresh long_term ss n d k = cc
  durable_fresh contextual_logic ss n d k = d refl

durable_promoted :
    (from to : MemoryLayer) (b : Bool)
    → may_promote from to ≡ true
    → (not (layer_eq to long_term) || b) ≡ true
    → IsKnowledge to
    → b ≡ true
unfolding layer_eq may_promote
durable_promoted live live b m d k = absurd k
durable_promoted live short_term b m d k = absurd k
durable_promoted live long_term b m d k = cc
durable_promoted live contextual_logic b m d k = cc
durable_promoted short_term long_term b m d k = d
durable_promoted short_term contextual_logic b m d k = cc
durable_promoted short_term _ b m d k = absurd k
durable_promoted _ _ b m d k = cc

module _ {F : Type 0} ⦃fl : Float F⦄ ⦃uc : Unicode⦄ where
  -- The contracts that come out of the four functions, one call after another.
  pub data Issued : Contract F → Type 0 where
    fresh :
        {c : Contract F} (clock : F)
        (role provenance promotion_reason expires_at logic_kind related_ids now : Value F)
        → new_memory_contract clock role provenance promotion_reason expires_at logic_kind
            related_ids now
          ≡ ok c
        → Issued c
    migrated :
        {c : Contract F} (created_at : Value F)
        → migrated_short_term_contract created_at ≡ ok c
        → Issued c
    promoted :
        {c d : Contract F} (clock : F) (target reason provenance now : Value F)
        → Issued c
        → promote clock c target reason provenance now ≡ ok d
        → Issued d
    refreshed :
        {c d : Contract F} (clock : F) (provenance expires_at now : Value F)
        → Issued c
        → refresh_live clock c provenance expires_at now ≡ ok d
        → Issued d

  -- Every contract that can be issued is well formed.
  pub Issued-WellFormed : {c : Contract F} → Issued c → WellFormed c
  Issued-WellFormed (fresh clock r p w x l i now h) =
      new_memory_contract-WellFormed clock r p w x l i now h
  Issued-WellFormed (migrated t h) = migrated-WellFormed t h
  Issued-WellFormed (promoted clock t r p now i h) =
      promote-WellFormed clock _ t r p now (Issued-WellFormed i) h
  Issued-WellFormed (refreshed clock p x now i h) =
      refresh_live-WellFormed clock _ p x now (Issued-WellFormed i) h

  -- The promotion chains that end in long-term memory.
  pub data LongTermChain : List (Evidence F) → Type 0 where
    direct : (e : Evidence F) → e.source_layer ≡ short_term → LongTermChain (e ∷ [])
    through :
        (e f : Evidence F)
        → e.source_layer ≡ live
        → f.source_layer ≡ short_term
        → LongTermChain (e ∷ f ∷ [])

  chain : (es : List (Evidence F)) → is_allowed long_term es ≡ true → LongTermChain es
  unfolding is_allowed layer_eq
  chain [] h = cc
  chain (e ∷ []) h = direct e (ground arith)
  chain (e ∷ f ∷ []) h = through e f (ground arith) (ground arith)
  chain (e ∷ f ∷ g ∷ es) h = ground arith

  abbrev KnowledgeDurable : Contract F → Type 0
  KnowledgeDurable c = IsKnowledge c.layer → has_durable_provenance c.provenance ≡ true

  -- Every long-term or contextual-logic contract that can be issued has provenance beyond the
  -- transport identity of its caller.
  pub Issued-durable :
      {c : Contract F} → Issued c → IsKnowledge c.layer → has_durable_provenance c.provenance ≡ true
  unfolding migrated_short_term_contract
  Issued-durable (fresh clock r p w x l i now h) =
      let f = new-inv clock r p w x l i now h in
      subst KnowledgeDurable (sym (construct-same _ f.built))
        (durable_fresh f.layer f.clean f.not_long f.knowledge_durable)
  Issued-durable (migrated t h) =
      let (at, e, k) = >>=-eq-ok (validate_timestamp t) _ h in
      subst KnowledgeDurable (sym (construct-same _ k)) (λ k. absurd k)
  Issued-durable (promoted {c} clock t r p now i h) =
      let f = promote-inv clock c t r p now h in
      subst KnowledgeDurable (sym (construct-same _ f.built))
        (durable_promoted c.layer f.to _ f.allowed f.durable)
  Issued-durable (refreshed {c} clock p x now i h) =
      let f = Refresh-inv clock c p x now h in
      subst KnowledgeDurable (sym (construct-same _ f.built)) (λ k. absurd k)

  -- A long-term contract that can be issued was promoted from short-term memory, as its last event
  -- and at most one promotion from live memory before it record.
  pub Issued-chain :
      {c : Contract F} → Issued c → c.layer ≡ long_term → LongTermChain c.promotion_history
  Issued-chain {c} i e =
      chain c.promotion_history
        (subst (λ l. is_allowed l c.promotion_history ≡ true) e (Issued-WellFormed i).allowed)

  constructed : (c : Contract F) {d : Contract F} → construct c ≡ ok d → construct d ≡ ok d
  constructed c h =
      subst (λ d. construct d ≡ ok d) (sym (construct-same c h)) (h ∙ ap ok (construct-same c h))

  -- A contract that was issued passes the checks of its construction again.
  pub Issued-constructed : {c : Contract F} → Issued c → construct c ≡ ok c
  unfolding migrated_short_term_contract
  Issued-constructed (fresh clock r p w x l i now h) =
      constructed _ (new-inv clock r p w x l i now h).built
  Issued-constructed (migrated t h) =
      let (at, e, k) = >>=-eq-ok (validate_timestamp t) _ h in constructed _ k
  Issued-constructed (promoted {c} clock t r p now i h) =
      constructed _ (promote-inv clock c t r p now h).built
  Issued-constructed (refreshed {c} clock p x now i h) =
      constructed _ (Refresh-inv clock c p x now h).built
