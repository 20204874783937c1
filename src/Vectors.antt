-- ===== src/Vectors.antt =====
-- src/echo_veil/vectors.py and proximity.py. A vector is the list of its components; the sums and
-- norms of NumPy are arguments.
use echo_veil.Base.{
  Bool, false, not, ◌&&◌, ◌||◌, List, [], ◌∷◌, Result, ok, err, ◌>>=◌, ◌>>◌, value_error, guard,
  eqb, if◌then◌else◌, all, length,
}
use echo_veil.Base.Floats.{Float, Number, to_float, fmin, fmax, fneg}

abbrev pub Vector : Type 0 → Type 0
Vector F = List F

-- `np.linalg.norm`, `np.dot`, `arr / norm` and the mean over the rows of a matrix.
pub record Numpy (F : Type 0) : Type 0 where
  pub norm : Vector F → F
  pub dot : Vector F → Vector F → F
  pub scale : Vector F → F → Vector F
  pub mean : List (Vector F) → Vector F

module _ {F : Type 0} ⦃fl : Float F⦄ where
  -- `==` on floats
  abbrev pub feq : F → F → Bool
  feq a b = fl.le a b && fl.le b a

  -- `as_vector`
  unfoldable pub as_vector : Bool → Vector F → Result (Vector F)
  as_vector allow_empty values = do
    guard (allow_empty || not (eqb (length values) 0)) value_error
    guard (all fl.is_finite values) value_error
    ok values

  -- `np.clip(x, -1.0, 1.0)`
  unfoldable pub clip : F → F
  clip x = fmin (fmax x (fneg (fl.decimal 1 0))) (fl.decimal 1 0)

  module _ ⦃np : Numpy F⦄ where
    -- `normalize`
    unfoldable pub normalize : Vector F → Result (Vector F)
    normalize vec = do
      arr ← as_vector false vec
      ok (if feq (np.norm arr) (fl.decimal 0 0) then arr else np.scale arr (np.norm arr))

    -- `cosine_similarity`
    unfoldable pub cosine_similarity : Vector F → Vector F → Result F
    cosine_similarity a b = do
      va ← as_vector false a
      vb ← as_vector false b
      guard (eqb (length va) (length vb)) value_error
      ok (
          if feq (np.norm va) (fl.decimal 0 0) || feq (np.norm vb) (fl.decimal 0 0)
          then fl.decimal 0 0
          else clip (fl.div (np.dot va vb) (fl.mul (np.norm va) (np.norm vb))))

    unfoldable pub prepare : List (Vector F) → Result (List (Vector F))
    prepare [] = ok []
    prepare (v ∷ vs) = do x ← as_vector false v; xs ← prepare vs; ok (x ∷ xs)

    unfoldable pub mean_of : List (Vector F) → Result (Vector F)
    mean_of [] = err value_error
    mean_of (v ∷ vs) = do
      guard (all (λ w. eqb (length w) (length v)) vs) value_error
      ok (np.mean (v ∷ vs))

    -- `centroid`
    unfoldable pub centroid : List (Vector F) → Result (Vector F)
    unfolding prepare mean_of
    centroid vectors = do prepared ← prepare vectors; mean_of prepared

  -- `ProximityConfig`
  unfoldable pub proximity_config : Number F → Result F
  proximity_config hours = do
    value ← to_float hours
    guard (fl.is_finite value && fl.lt (fl.decimal 0 0) value) value_error
    ok value

  -- `time_decay`: 0.15 * e ^ (-age / time_constant)
  unfoldable pub time_decay : F → F → Result F
  time_decay age_hours time_constant = do
    guard (fl.is_finite age_hours) value_error
    let age = fmax (fl.decimal 0 0) age_hours
    ok (fl.mul (fl.decimal 15 2) (fl.exp (fl.div (fneg age) time_constant)))

  -- `proximity_score`
  unfoldable pub proximity_score : ⦃np : Numpy F⦄ → Vector F → Vector F → F → F → Result F
  proximity_score intent anchor age_hours time_constant = do
    similarity ← cosine_similarity intent anchor
    recency ← time_decay age_hours time_constant
    ok (fl.add similarity recency)
