-- ===== src/Oracle/Gate.antt =====
-- About the generation gate of oracle.py.
use echo_veil.Base.{
  ◌≡◌, Bool, true, false, not, ◌&&◌, ◌||◌, ok, arith, gated, guard, >>=-eq-ok, guard-eq-ok, along,
}
use echo_veil.Base.Floats.{Float, IsOrdered, Number, to_float}
use echo_veil.Confidence.{BandPolicy, classify}
use echo_veil.Confidence.Gate.{IsScale, classify_gates}
use echo_veil.Oracle.{is_obscurity, check_generation_gate}

module _ {F : Type 0} ⦃fl : Float F⦄ (ordered : IsOrdered F) (scale : IsScale F) where
  passed :
      (gates obscure override : Bool)
      → not (gates && (obscure || not override)) ≡ true
      → (gates ≡ true → (override ≡ true) × (obscure ≡ false))
  passed gates obscure override h g = ground arith

  -- Over ordered floats, with the literals finite and in their order: a score that the gate lets through is a number,
  -- and where 0.50 does not lie at or below it the caller overrides the gate and the policy is not the
  -- hard stop.
  pub check_generation_gate_safe :
      (score : Number F) (override : Bool) (p : BandPolicy F)
      → check_generation_gate score override ≡ ok p
      → (s : F) × (to_float score ≡ ok s)
        × (fl.le (fl.decimal 50 2) s ≡ false → (override ≡ true) × (is_obscurity p.band ≡ false))
  unfolding check_generation_gate
  check_generation_gate_safe score override p h =
      let (q, c, k) = >>=-eq-ok (classify score) _ h in
      let (_, g, m) =
        >>=-eq-ok (guard (not (q.gates_generation && (is_obscurity q.band || not override))) gated)
          _ k in
      let (s, e, gates) = classify_gates ordered scale score q c in
      (
        s,
        e,
        λ below.
            along (λ r. (override ≡ true) × (is_obscurity r.band ≡ false)) m
              (passed q.gates_generation (is_obscurity q.band) override (guard-eq-ok _ _ g)
                (rw (gates, below))),
      )
