-- ===== src/Broker/Lanes.antt =====
-- How the operations on the callers' jobs, in the order of service, keep them in order and count.
use echo_veil.Base.{
  ℕ, ◌+◌, ◌≡◌, refl, sym, subst, inl, inr, List, [], ◌∷◌, ◌++◌, none, some, String, arith, length,
  Bool-cases,
}
use text.Mathlib.Text.{◌==◌}
use text.Mathlib.TextEquality.{eq_iff}
use echo_veil.Base.Dict.{Dict, lookup, put, without, Unique}
use echo_veil.Broker.{Job, lane}
use echo_veil.Broker.Turns.{total, Lane, Lanes}

-- A new key goes to the end.
pub put-append {ℓ} :
    {V : Type ℓ} (k : String) (v : V) (d : Dict V)
    → lookup k d ≡ none
    → put k v d ≡ d ++ (k, v) ∷ []
unfolding put lookup
put-append k v [] h = refl
put-append k v ((j, w) ∷ d) h = ground (arith, put-append k v d)

some-injective {ℓ} : {A : Type ℓ} {a b : A} → some a ≡ some b → a ≡ b
some-injective h = cc

module _ {F : Type 0} where
  pub lane_absent : (k : String) (d : Dict (List (Job F))) → lookup k d ≡ none → lane k d ≡ []
  unfolding lane
  lane_absent k d h = ground arith

  pub lane_present :
      (k : String) (jobs : List (Job F)) (d : Dict (List (Job F)))
      → lookup k d ≡ some jobs
      → lane k d ≡ jobs
  unfolding lane
  lane_present k jobs d h = ground arith

  pub total-append : (d e : Dict (List (Job F))) → total (d ++ e) ≡ total d + total e
  unfolding total
  total-append [] e = omega arith
  total-append ((k, jobs) ∷ d) e = omega (arith, total-append d e)

  pub total-put :
      (k : String) (jobs : List (Job F)) (d : Dict (List (Job F)))
      → total (put k jobs d) + length (lane k d) ≡ total d + length jobs
  unfolding total put lane lookup
  total-put k jobs [] = omega arith
  total-put k jobs ((j, v) ∷ d) = ground (arith, total-put k jobs d)

  without_absent : (k : String) (d : Dict (List (Job F))) → lookup k d ≡ none → without k d ≡ d
  unfolding without lookup
  without_absent k [] h = refl
  without_absent k ((j, v) ∷ d) h = ground (arith, without_absent k d)

  pub total-without :
      (k : String) (d : Dict (List (Job F)))
      → Unique d
      → total (without k d) + length (lane k d) ≡ total d
  unfolding total without lane lookup
  total-without k [] u = refl
  total-without k ((j, v) ∷ d) u =
      ground (arith, eq_iff j k, total-without k d u.1, without_absent k d)

  pub Lanes-put :
      (quota : ℕ) (k : String) (jobs : List (Job F)) (d : Dict (List (Job F)))
      → Lane quota k jobs
      → Lanes quota d
      → Lanes quota (put k jobs d)
  unfolding put
  Lanes-put quota k jobs [] l h = (l, tt)
  Lanes-put quota k jobs ((j, v) ∷ d) l h = elim (Bool-cases (j == k)) [
    | inl e ↦ rw e (subst (λ i. Lane quota i jobs) (sym ((eq_iff j k).0 e)) l, h.1)
    | inr e ↦ rw e (h.0, Lanes-put quota k jobs d l h.1)
  ]

  pub Lanes-without :
      (quota : ℕ) (k : String) (d : Dict (List (Job F))) → Lanes quota d → Lanes quota (without k d)
  unfolding without
  Lanes-without quota k [] h = tt
  Lanes-without quota k ((j, v) ∷ d) h = elim (Bool-cases (j == k)) [
    | inl e ↦ rw e (Lanes-without quota k d h.1)
    | inr e ↦ rw e (h.0, Lanes-without quota k d h.1)
  ]

  pub Lanes-append :
      (quota : ℕ) (d e : Dict (List (Job F))) → Lanes quota d → Lanes quota e → Lanes quota (d ++ e)
  Lanes-append quota [] e h g = g
  Lanes-append quota ((k, v) ∷ d) e h g = (h.0, Lanes-append quota d e h.1 g)

  pub Lanes-lookup :
      (quota : ℕ) (k : String) (jobs : List (Job F)) (d : Dict (List (Job F)))
      → Lanes quota d
      → lookup k d ≡ some jobs
      → Lane quota k jobs
  unfolding lookup
  Lanes-lookup quota k jobs [] h e = cc
  Lanes-lookup quota k jobs ((j, v) ∷ d) h e = elim (Bool-cases (j == k)) [
    | inl same ↦
        subst (λ i. Lane quota i jobs) ((eq_iff j k).0 same)
          (subst (Lane quota j) (some-injective (rw same at e)) h.0)
    | inr other ↦ Lanes-lookup quota k jobs d h.1 (rw other at e)
  ]
