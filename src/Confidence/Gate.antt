-- ===== src/Confidence/Gate.antt =====
-- About the bands of confidence.py as a whole: the gates and the ranks of scores.
use echo_veil.Base.{
  ◌≡◌, true, false, not, ok, arith, guard, value_error, ◌∙◌, ap, along, >>=-eq-ok, guard-eq-ok,
  and-eq-true,
}
use echo_veil.Base.Floats.{Float, IsOrdered, Number, to_float}
use echo_veil.Confidence.{BandPolicy, policies, first_reached, clamp, classify}

-- What the code relies on for its literals: 0, 0.35, 0.50, 0.70, 0.85 and 1 are finite, and in this
-- order.
pub record IsScale (F : Type 0) ⦃fl : Float F⦄ : Type 0 where
  pub zero_finite : fl.is_finite (fl.decimal 0 0) ≡ true
  pub inferential_finite : fl.is_finite (fl.decimal 35 2) ≡ true
  pub fragmented_finite : fl.is_finite (fl.decimal 50 2) ≡ true
  pub coherent_finite : fl.is_finite (fl.decimal 70 2) ≡ true
  pub solid_finite : fl.is_finite (fl.decimal 85 2) ≡ true
  pub one_finite : fl.is_finite (fl.decimal 1 0) ≡ true
  pub below_inferential : fl.lt (fl.decimal 0 0) (fl.decimal 35 2) ≡ true
  pub below_fragmented : fl.lt (fl.decimal 35 2) (fl.decimal 50 2) ≡ true
  pub below_coherent : fl.lt (fl.decimal 50 2) (fl.decimal 70 2) ≡ true
  pub below_solid : fl.lt (fl.decimal 70 2) (fl.decimal 85 2) ≡ true
  pub below_one : fl.lt (fl.decimal 85 2) (fl.decimal 1 0) ≡ true

module _ {F : Type 0} ⦃fl : Float F⦄ (ordered : IsOrdered F) (scale : IsScale F) where
  not_le :
      (x y : F)
      → fl.is_finite x ≡ true
      → fl.is_finite y ≡ true
      → fl.lt x y ≡ true
      → fl.le y x ≡ false
  not_le x y hx hy h = ground (arith, ordered.lt-eq x y hx hy)

  -- A literal between 0, excluded, and 1 lies below the clamped score if it lies below the score.
  le-clamp :
      (b s : F)
      → fl.is_finite b ≡ true
      → fl.is_finite s ≡ true
      → fl.lt (fl.decimal 0 0) b ≡ true
      → fl.le b (fl.decimal 1 0) ≡ true
      → fl.le b (clamp s) ≡ fl.le b s
  le-clamp b s hb hs h0 h1 = ground (
    arith,
    not_le (fl.decimal 0 0) b scale.zero_finite hb h0,
    ordered.lt-eq (fl.decimal 0 0) s scale.zero_finite hs,
    ordered.lt-eq s (fl.decimal 1 0) hs scale.one_finite,
    ordered.lt-eq (fl.decimal 0 0) (fl.decimal 1 0) scale.zero_finite scale.one_finite,
    ordered.le_trans b (fl.decimal 1 0) s,
    ordered.le_trans b s (fl.decimal 0 0),
    ordered.le_trans b (fl.decimal 1 0) (fl.decimal 0 0),
    ordered.le_total s (fl.decimal 0 0) hs scale.zero_finite,
    ordered.le_total s (fl.decimal 1 0) hs scale.one_finite,
  )

  step_le :
      (x y : F)
      → fl.is_finite x ≡ true
      → fl.is_finite y ≡ true
      → fl.lt x y ≡ true
      → fl.le x y ≡ true
  step_le x y hx hy h = ground (arith, not_le x y hx hy h, ordered.le_total x y hx hy)

  half_le_one : fl.le (fl.decimal 50 2) (fl.decimal 1 0) ≡ true
  half_le_one = ground (
    arith,
    step_le (fl.decimal 50 2) (fl.decimal 70 2) scale.fragmented_finite scale.coherent_finite
        scale.below_coherent,
    step_le (fl.decimal 70 2) (fl.decimal 85 2) scale.coherent_finite scale.solid_finite
        scale.below_solid,
    step_le (fl.decimal 85 2) (fl.decimal 1 0) scale.solid_finite scale.one_finite scale.below_one,
    ordered.le_trans (fl.decimal 50 2) (fl.decimal 70 2) (fl.decimal 1 0),
    ordered.le_trans (fl.decimal 70 2) (fl.decimal 85 2) (fl.decimal 1 0),
  )

  -- Half lies above 0.
  half_positive : fl.lt (fl.decimal 0 0) (fl.decimal 50 2) ≡ true
  half_positive = ground (
    arith,
    scale.below_inferential,
    scale.below_fragmented,
    scale.zero_finite,
    scale.inferential_finite,
    scale.fragmented_finite,
    not_le (fl.decimal 0 0) (fl.decimal 35 2) scale.zero_finite scale.inferential_finite
        scale.below_inferential,
    step_le (fl.decimal 35 2) (fl.decimal 50 2) scale.inferential_finite scale.fragmented_finite
        scale.below_fragmented,
    ordered.lt-eq (fl.decimal 0 0) (fl.decimal 50 2) scale.zero_finite scale.fragmented_finite,
    ordered.le_trans (fl.decimal 35 2) (fl.decimal 50 2) (fl.decimal 0 0),
  )

  -- Of the policies that a score reaches, those of 0.50 and above do not gate.
  gates_first :
      (c : F) → (first_reached c policies).gates_generation ≡ not (fl.le (fl.decimal 50 2) c)
  unfolding first_reached
  gates_first c = ground (
    arith,
    step_le (fl.decimal 50 2) (fl.decimal 70 2) scale.fragmented_finite scale.coherent_finite
        scale.below_coherent,
    step_le (fl.decimal 70 2) (fl.decimal 85 2) scale.coherent_finite scale.solid_finite
        scale.below_solid,
    ordered.le_trans (fl.decimal 50 2) (fl.decimal 70 2) c,
    ordered.le_trans (fl.decimal 70 2) (fl.decimal 85 2) c,
  )

  -- Over ordered floats, with the literals finite and in their order: a value that `classify` accepts is a number,
  -- and the policy it gets gates generation exactly when 0.50 does not lie at or below it.
  pub classify_gates :
      (value : Number F) (p : BandPolicy F)
      → classify value ≡ ok p
      → (s : F) × (to_float value ≡ ok s) × (p.gates_generation ≡ not (fl.le (fl.decimal 50 2) s))
  unfolding classify
  classify_gates value p h =
      let (s, e, k) = >>=-eq-ok (to_float value) _ h in
      let (u, g, m) = >>=-eq-ok (guard _ value_error) _ k in
      let hs = (and-eq-true _ _ (guard-eq-ok _ _ g)).0 in
      (
        s,
        e,
        along (λ q. q.gates_generation ≡ not (fl.le (fl.decimal 50 2) s)) m
            (gates_first (clamp s)
              ∙ ap not (
                  le-clamp (fl.decimal 50 2) s scale.fragmented_finite hs half_positive
                    half_le_one)),
      )
