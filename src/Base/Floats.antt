-- ===== src/Base/Floats.antt =====
-- The Python floats as the code uses them: a type with its operations, and the facts of IEEE 754
-- about them. A whole number of thousandths is the concrete case that examples run on.
use Prim.Native.Nat.{ℕ, ◌+◌, ◌*◌, ◌/◌, ◌^◌}
use mathlib.Core.Path.{◌≡◌}
use mathlib.Core.Bool.{Bool, true, not, ◌||◌}
use native.Mathlib.Omega.{arith}
use echo_veil.Base.Tests.{if◌then◌else◌, leb, leb→le, le→leb}
use echo_veil.Base.Results.{Result, ok, err, type_error}
use mathlib.Core.List.{[], ◌∷◌}
use echo_veil.Base.Texts.{Text}
use echo_veil.Base.Int.{ℤ, pos, ◌+ℤ◌, ◌-ℤ◌, ◌*ℤ◌, ltb_ℤ, leb_ℤ, pos_part, neg_part}

-- `decimal m k` is the literal m * 10 ^ -k. `lt` and `le` are `<` and `<=`, false at NaN.
pub record Float (F : Type 0) : Type 0 where
  pub decimal : ℕ → ℕ → F
  pub of_int : ℤ → F
  pub is_finite : F → Bool
  pub lt : F → F → Bool
  pub le : F → F → Bool
  pub add : F → F → F
  pub sub : F → F → F
  pub mul : F → F → F
  pub div : F → F → F
  pub exp : F → F
  pub repr : F → Text

-- What holds of the comparisons of floats.
pub record IsOrdered (F : Type 0) ⦃fl : Float F⦄ : Type 0 where
  pub le_refl : (x : F) → fl.is_finite x ≡ true → fl.le x x ≡ true
  pub le_trans : (x y z : F) → fl.le x y ≡ true → fl.le y z ≡ true → fl.le x z ≡ true
  pub lt-eq :
      (x y : F) → fl.is_finite x ≡ true → fl.is_finite y ≡ true → fl.lt x y ≡ not (fl.le y x)
  pub le_total :
      (x y : F) → fl.is_finite x ≡ true → fl.is_finite y ≡ true → (fl.le x y || fl.le y x) ≡ true

module _ {F : Type 0} ⦃fl : Float F⦄ where
  -- Python's `min` and `max` return their first argument unless the second beats it.
  abbrev pub fmin : F → F → F
  fmin a b = if fl.lt b a then b else a

  abbrev pub fmax : F → F → F
  fmax a b = if fl.lt a b then b else a

  abbrev pub fneg : F → F
  fneg a = fl.sub (fl.decimal 0 0) a

  abbrev pub fabs : F → F
  fabs a = if fl.lt a (fl.decimal 0 0) then fneg a else a

-- An argument where the code asks `isinstance(value, Real)`: a `bool`, a `float`, an `int`, or
-- an object that is no number.
pub data Number (F : Type 0) : Type 0 where
  boolean : Bool → Number F
  float : F → Number F
  integer : ℤ → Number F
  other : Number F

module _ {F : Type 0} ⦃fl : Float F⦄ where
  -- `isinstance(value, bool) or not isinstance(value, Real)` raises; else `float(value)`.
  unfoldable pub to_float : Number F → Result F
  to_float (boolean b) = err type_error
  to_float (float x) = ok x
  to_float (integer n) = ok (fl.of_int n)
  to_float other = err type_error

abbrev thousandths : ℕ → ℕ → ℤ
thousandths m k = pos (m * 1000 / 10 ^ k)

instance abbrev pub fixed_point : Float ℤ
fixed_point = record {
  decimal = thousandths;
  of_int = λ n. n *ℤ pos 1000;
  is_finite = λ x. true;
  lt = ltb_ℤ;
  le = leb_ℤ;
  add = ◌+ℤ◌;
  sub = ◌-ℤ◌;
  mul = λ a b.
      if leb (neg_part a + neg_part b) 0 then pos (pos_part a * pos_part b / 1000) else pos 0;
  div = λ a b.
      if leb (neg_part a) 0
      then pos (pos_part a * 1000 / pos_part b)
      else pos 0 -ℤ pos (neg_part a * 1000 / pos_part b);
  exp = λ x. if leb (pos_part x) 0 then pos 1000 else pos 2718;
  repr = λ x. pos_part x ∷ neg_part x ∷ [];
}

pub fixed_point-IsOrdered : IsOrdered ℤ
fixed_point-IsOrdered = record {
  le_refl = λ x h. ground arith;
  le_trans = λ x y z h k. omega (arith, leb→le, le→leb);
  lt-eq = λ x y h k. ground arith;
  le_total = λ x y h k. ground arith;
}
