-- ===== src/Workspace/Keyed.antt =====
-- The vines of the workspace under their ids, and the loop of `run_decay_cycle` of workspace.py on them.
use echo_veil.Base.{
  ℕ, ◌≡◌, ◌≢◌, refl, sym, subst, Result-cases, ◌∙◌, inl, inr, true, false, [], ◌∷◌, none, some,
  String, arith, All, All-map, Bool-cases,
}
use text.Mathlib.Text.{◌==◌}
use text.Mathlib.TextEquality.{eq_iff}
use echo_veil.Base.Dict.{Dict, lookup, put, values, Unique}
use echo_veil.Base.Floats.{Float}
use echo_veil.Vine.{Vine, Codec}
use echo_veil.Workspace.Decay.{decay_vine}
use echo_veil.Workspace.Rounds.{decay_vine-Keeps}
use echo_veil.Workspace.Cycle.{Report, sweep, note_outcome}

module _ {F : Type 0} where
  -- Every vine stands under its own id.
  abbrev pub Keyed : Dict (Vine F) → Type 0
  Keyed [] = Unit
  Keyed ((k, v) ∷ d) = (v.vine_id ≡ k) × Keyed d

  pub Keyed-put :
      (k : String) (v : Vine F) (d : Dict (Vine F)) → v.vine_id ≡ k → Keyed d → Keyed (put k v d)
  unfolding put
  Keyed-put k v [] e h = (e, tt)
  Keyed-put k v ((j, u) ∷ d) e h = ground (arith, eq_iff j k, Keyed-put k v d e h.1)

  pub absent_other :
      (k : String) (d : Dict (Vine F))
      → Keyed d
      → lookup k d ≡ none
      → All (λ u. u.vine_id ≢ k) (values d)
  unfolding lookup values
  absent_other k [] h e = tt
  absent_other k ((j, w) ∷ d) h e =
      let (ne, rest) = split_absent in ((λ p. ne (sym h.0 ∙ p)), absent_other k d h.1 rest)
    where
      split_absent : (j ≢ k) × (lookup k d ≡ none)
      split_absent = ground (arith, eq_iff j k)

  -- The vines that are not locked have other ids than a vine that is.
  pub unlocked_other :
      (k : String) (v : Vine F) (d : Dict (Vine F))
      → Keyed d
      → Unique d
      → lookup k d ≡ some v
      → v.locked ≡ true
      → All (λ u. u.locked ≡ false → u.vine_id ≢ k) (values d)
  unfolding lookup values
  unlocked_other k v [] h u e l = tt
  unlocked_other k v ((j, w) ∷ d) h u e l = elim (Bool-cases (j == k)) [
    | inl y ↦ (
      (λ q. let same : some w ≡ some v = rw y at e in cc),
      All-map (λ u. u.vine_id ≢ k) (λ u. u.locked ≡ false → u.vine_id ≢ k) (values d) (λ x n _. n)
          (absent_other k d h.1 (subst (λ i. lookup i d ≡ none) ((eq_iff j k).0 y) u.0)),
    )
    | inr n ↦ (
      (λ q p. let ne : (j == k) ≡ true = (eq_iff j k).1 (sym h.0 ∙ p) in cc),
      unlocked_other k v d h.1 u.1 (rw n at e) l,
    )
  ]

module _ {F : Type 0} ⦃fl : Float F⦄ ⦃cd : Codec F⦄ where
  pub Keyed-sweep :
      (now : F) (scores : Dict F) (caller : Dict ℕ) (d : Dict (Vine F)) (cycles : Dict ℕ)
      (r : Report)
      → Keyed d
      → Keyed (sweep now scores caller d cycles r).vines
  unfolding sweep
  Keyed-sweep now scores caller [] cycles r h = tt
  Keyed-sweep now scores caller ((j, u) ∷ d) cycles r h =
      let same = (decay_vine-Keeps now scores caller u cycles).same_id ∙ h.0 in
      elim (Result-cases (decay_vine now scores caller u cycles).outcome) [
        | inl (o, p) ↦ rw (p, sweep) ((same, Keyed-sweep now scores caller d _ _ h.1))
        | inr (x, p) ↦ rw (p, sweep) ((same, h.1))
      ]

  absent-sweep :
      (k : String) (now : F) (scores : Dict F) (caller : Dict ℕ) (d : Dict (Vine F))
      (cycles : Dict ℕ) (r : Report)
      → lookup k d ≡ none
      → lookup k (sweep now scores caller d cycles r).vines ≡ none
  unfolding sweep lookup
  absent-sweep k now scores caller [] cycles r h = refl
  absent-sweep k now scores caller ((j, u) ∷ d) cycles r h =
      elim (Result-cases (decay_vine now scores caller u cycles).outcome) [
        | inl (o, p) ↦
            rw (p, sweep)
              (ground (
                arith,
                absent-sweep k now scores caller d (decay_vine now scores caller u cycles).cycles
                    (note_outcome o u.vine_id r),
              ))
        | inr (x, p) ↦ rw (p, sweep) (ground arith)
      ]

  pub Unique-sweep :
      (now : F) (scores : Dict F) (caller : Dict ℕ) (d : Dict (Vine F)) (cycles : Dict ℕ)
      (r : Report)
      → Unique d
      → Unique (sweep now scores caller d cycles r).vines
  unfolding sweep
  Unique-sweep now scores caller [] cycles r h = tt
  Unique-sweep now scores caller ((j, u) ∷ d) cycles r h =
      elim (Result-cases (decay_vine now scores caller u cycles).outcome) [
        | inl (o, p) ↦
            rw (p, sweep)
              ((
                absent-sweep j now scores caller d _ _ h.0,
                Unique-sweep now scores caller d _ _ h.1,
              ))
        | inr (x, p) ↦ rw (p, sweep) h
      ]
