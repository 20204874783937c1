-- ===== src/Samples.antt =====
-- Concrete parameters over whole thousandths, for the runs and the theorems at fixed inputs below:
-- sums for NumPy, one marked list of eight numbers a component for its bytes, and no compression.
mod Vines
mod Stores
mod Fossils
mod Oracles
mod Brokers
mod Receipts
mod Readings
mod Responses
mod Evidence
use echo_veil.Base.{
  ℕ, zero, suc, ◌+◌, ◌-◌, ◌*◌, ◌<◌, ◌≡◌, refl, ap, Bool, true, false, List, [], ◌∷◌, ◌++◌, map,
  Option, none, some, arith, length, ltb, if◌then◌else◌, lt→ltb,
}
use echo_veil.Base.Int.{ℤ, pos, negsuc, ◌+ℤ◌}
use echo_veil.Base.Floats.{Float, fixed_point, fabs}
use echo_veil.Vectors.{Vector, Numpy}
use echo_veil.Vine.{Codec, Inflated}
use echo_veil.Vine.Snapshot.{IsLossless}

abbrev total : Vector ℤ → ℤ
total [] = pos 0
total (x ∷ xs) = x +ℤ total xs

abbrev products : Vector ℤ → Vector ℤ → Vector ℤ
products [] ys = []
products (x ∷ xs) [] = []
products (x ∷ xs) (y ∷ ys) = fixed_point.mul x y ∷ products xs ys

abbrev sums : Vector ℤ → Vector ℤ → Vector ℤ
sums [] ys = ys
sums (x ∷ xs) [] = x ∷ xs
sums (x ∷ xs) (y ∷ ys) = (x +ℤ y) ∷ sums xs ys

abbrev all_sums : List (Vector ℤ) → Vector ℤ
all_sums [] = []
all_sums (v ∷ vs) = sums v (all_sums vs)

-- The norm is that of the sum of the components' sizes.
instance abbrev pub small : Numpy ℤ
small = record {
  norm = λ v. total (map (λ x. fabs x) v);
  dot = λ a b. total (products a b);
  scale = λ v n. map (λ x. fixed_point.div x n) v;
  mean = λ vs. map (λ x. fixed_point.div x (pos (length vs * 1000))) (all_sums vs);
}

abbrev eight : ℤ → List ℕ
eight (pos n) = 0 ∷ n ∷ 0 ∷ 0 ∷ 0 ∷ 0 ∷ 0 ∷ 0 ∷ []
eight (negsuc n) = 1 ∷ n ∷ 0 ∷ 0 ∷ 0 ∷ 0 ∷ 0 ∷ 0 ∷ []

abbrev to_eights : Vector ℤ → List ℕ
to_eights [] = []
to_eights (x ∷ xs) = eight x ++ to_eights xs

abbrev from_eights : List ℕ → Vector ℤ
from_eights (zero ∷ n ∷ _ ∷ _ ∷ _ ∷ _ ∷ _ ∷ _ ∷ rest) = pos n ∷ from_eights rest
from_eights (suc s ∷ n ∷ _ ∷ _ ∷ _ ∷ _ ∷ _ ∷ _ ∷ rest) = negsuc n ∷ from_eights rest
from_eights _ = []

abbrev inflate_all : List ℕ → ℕ → Option Inflated
inflate_all bs limit =
    if ltb (length bs) limit
    then some (record { raw = bs; eof = true; unconsumed_tail = []; unused_data = [] })
    else none

instance abbrev pub plain_codec : Codec ℤ
plain_codec = record {
  to_bytes = to_eights;
  from_buffer = from_eights;
  compress = λ bs. bs;
  decompress = inflate_all;
}

length-to_eights : (v : Vector ℤ) → length (to_eights v) ≡ length v * 8
length-to_eights [] = refl
length-to_eights (pos n ∷ xs) = omega (arith, length-to_eights xs)
length-to_eights (negsuc n ∷ xs) = omega (arith, length-to_eights xs)

from_eights-to_eights : (v : Vector ℤ) → from_eights (to_eights v) ≡ v
from_eights-to_eights [] = refl
from_eights-to_eights (pos n ∷ xs) = ap (λ ys. pos n ∷ ys) (from_eights-to_eights xs)
from_eights-to_eights (negsuc n ∷ xs) = ap (λ ys. negsuc n ∷ ys) (from_eights-to_eights xs)

pub plain-IsLossless : IsLossless ℤ
plain-IsLossless = record {
  byte_length = length-to_eights;
  from_to = from_eights-to_eights;
  inflate = λ bs limit h. rw (lt→ltb (length bs) limit h);
}
