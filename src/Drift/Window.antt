-- ===== src/Drift/Window.antt =====
-- What holds of a detector of drift.py after any calls of its methods.
use echo_veil.Base.{
  ℕ, zero, suc, ◌≤◌, ◌≡◌, refl, sym, subst, ◌∙◌, Bool, true, false, List, [], ◌∷◌, ◌++◌, Option,
  none, some, ok, arith, guard, value_error, eqb, length, All, All-append, all, length-append,
  >>=-eq-ok, guard-eq-ok, along,
}
use echo_veil.Base.Int.{pos, negsuc}
use echo_veil.Base.Floats.{Float, Number, boolean, float, integer, other}
use echo_veil.Vectors.{Vector, Numpy, as_vector, centroid, prepare, mean_of}
use echo_veil.Drift.{
  DriftDetector, new_detector, append, drop_first, fits, reset, observe, or_else, moving_average,
  drift, is_drifting,
}

module _ {F : Type 0} ⦃fl : Float F⦄ ⦃np : Numpy F⦄ where
  -- The detectors that a program can hold: a new one, and what the methods leave.
  pub data Held : DriftDetector F → Type 0 where
    made : (window : Number F) {d : DriftDetector F} → new_detector window ≡ ok d → Held d
    observed :
        (intent : Vector F) {d e : DriftDetector F} → Held d → observe d intent ≡ ok e → Held e
    asked :
        (garden : Vector F) {d : DriftDetector F} {r : Bool × DriftDetector F}
        → Held d
        → is_drifting d garden ≡ ok r
        → Held r.1
    cleared : {d : DriftDetector F} → Held d → Held (reset d)

  -- A retained vector is a valid one of the detector's dimension.
  abbrev pub Retained : Option ℕ → Vector F → Type 0
  Retained o v = (as_vector false v ≡ ok v) × (o ≡ some (length v))

  -- No more vectors than the window holds, all valid and of one dimension.
  pub record Steady (d : DriftDetector F) : Type 0 where
    pub room : 1 ≤ d.window
    pub bounded : length d.recent ≤ d.window
    pub retained : All (Retained d.dimension) d.recent

  as_vector_same : (v u : Vector F) → as_vector false v ≡ ok u → u ≡ v
  unfolding as_vector
  as_vector_same v u h = ground arith

  new_detector-Steady : (w : Number F) (d : DriftDetector F) → new_detector w ≡ ok d → Steady d
  unfolding new_detector
  new_detector-Steady (integer (pos (suc n))) d h =
      along Steady h (record { room = omega arith; bounded = omega arith; retained = tt })
  new_detector-Steady (integer (pos zero)) d h = cc
  new_detector-Steady (integer (negsuc n)) d h = cc
  new_detector-Steady (boolean b) d h = cc
  new_detector-Steady (float x) d h = cc
  new_detector-Steady other d h = cc

  All-drop_first : (P : Vector F → Type 0) (vs : List (Vector F)) → All P vs → All P (drop_first vs)
  All-drop_first P [] h = tt
  All-drop_first P (v ∷ vs) h = h.1

  length-drop_first :
      (n : ℕ) (vs : List (Vector F)) → length vs ≤ suc n → length (drop_first vs) ≤ n
  length-drop_first n [] h = omega arith
  length-drop_first n (v ∷ vs) h = omega arith

  All-append_window :
      (P : Vector F → Type 0) (n : ℕ) (vs : List (Vector F)) (v : Vector F)
      → All P vs
      → P v
      → All P (append n vs v)
  unfolding append
  All-append_window P n vs v h p =
      let longer : All P (vs ++ v ∷ []) = All-append P vs (v ∷ []) h (p, tt) in
      ground (arith, All-drop_first P (vs ++ v ∷ []) longer)

  length-append_window :
      (n : ℕ) (vs : List (Vector F)) (v : Vector F) → length vs ≤ n → length (append n vs v) ≤ n
  unfolding append
  length-append_window n vs v h =
      ground (arith, length-append vs (v ∷ []), length-drop_first n (vs ++ v ∷ []))

  Retained-after :
      (o : Option ℕ) (v : Vector F) (vs : List (Vector F))
      → fits o v ≡ true
      → All (Retained o) vs
      → All (Retained (some (or_else o (length v)))) vs
  Retained-after none v [] f h = tt
  Retained-after none v (u ∷ us) f h = let e = h.0.1 in cc
  Retained-after (some n) v vs f h = h

  fits_after :
      (o : Option ℕ) (v : Vector F)
      → fits o v ≡ true
      → some (or_else o (length v)) ≡ some (length v)
  fits_after none v f = refl
  fits_after (some n) v f = ground arith

  observe-Steady :
      (d e : DriftDetector F) (intent : Vector F) → Steady d → observe d intent ≡ ok e → Steady e
  unfolding observe
  observe-Steady d e intent s h =
      let (v, valid, k) = >>=-eq-ok (as_vector false intent) _ h in
      let (u, g, m) = >>=-eq-ok (guard (fits d.dimension v) value_error) _ k in
      let f = guard-eq-ok _ _ g in
      along Steady m (record {
        room = s.room;
        bounded = length-append_window d.window d.recent v s.bounded;
        retained =
            All-append_window (Retained (some (or_else d.dimension (length v)))) d.window d.recent v
              (Retained-after d.dimension v d.recent f s.retained)
              (
                subst (λ x. as_vector false x ≡ ok v) (sym (as_vector_same intent v valid)) valid,
                fits_after d.dimension v f,
              );
      })

  is_drifting-Steady :
      (d : DriftDetector F) (garden : Vector F) (r : Bool × DriftDetector F)
      → Steady d
      → is_drifting d garden ≡ ok r
      → Steady r.1
  unfolding is_drifting
  is_drifting-Steady d garden r s h =
      let (x, e, k) = >>=-eq-ok (drift d garden) _ h in
      along (λ q. Steady q.1) k
        (record { room = s.room; bounded = s.bounded; retained = s.retained })

  -- A detector holds at most a window's worth of vectors, all valid and of its dimension.
  pub Held-Steady : {d : DriftDetector F} → Held d → Steady d
  unfolding reset
  Held-Steady (made w h) = new_detector-Steady w _ h
  Held-Steady (observed i held h) = observe-Steady _ _ i (Held-Steady held) h
  Held-Steady (asked g held h) = is_drifting-Steady _ g _ (Held-Steady held) h
  Held-Steady (cleared held) = record {
    room = (Held-Steady held).room;
    bounded = omega arith;
    retained = tt;
  }

  prepare_valid : (o : Option ℕ) (vs : List (Vector F)) → All (Retained o) vs → prepare vs ≡ ok vs
  unfolding prepare
  prepare_valid o [] h = refl
  prepare_valid o (v ∷ vs) h = rw (h.0.0, prepare_valid o vs h.1)

  same_lengths :
      (o : Option ℕ) (v : Vector F) (vs : List (Vector F))
      → o ≡ some (length v)
      → All (Retained o) vs
      → all (λ w. eqb (length w) (length v)) vs ≡ true
  same_lengths o v [] e h = refl
  same_lengths o v (u ∷ us) e h =
      let same : some (length u) ≡ some (length v) = sym h.0.1 ∙ e in
      ground (arith, same_lengths o v us e h.1)

  centroid_total :
      (o : Option ℕ) (v : Vector F) (vs : List (Vector F))
      → All (Retained o) (v ∷ vs)
      → centroid (v ∷ vs) ≡ ok (np.mean (v ∷ vs))
  unfolding centroid mean_of
  centroid_total o v vs h = rw (prepare_valid o (v ∷ vs) h) (rw (same_lengths o v vs h.0.1 h.1))

  average_of :
      (n : ℕ) (vs : List (Vector F)) (b : Bool) (o : Option ℕ)
      → All (Retained o) vs
      → moving_average (record { window = n; recent = vs; drifting = b; dimension = o })
        ≡ ok (elim vs [ [] ↦ none | v ∷ us ↦ some (np.mean (v ∷ us)) ])
  unfolding moving_average
  average_of n [] b o h = refl
  average_of n (v ∷ vs) b o h = rw (centroid_total o v vs h) (ground arith)

  -- The moving average of a detector that a program holds never raises: it is the mean of what the
  -- window keeps, and `None` only when that is nothing.
  pub moving_average_total :
      {d : DriftDetector F}
      → Held d
      → moving_average d ≡ ok (elim d.recent [ [] ↦ none | v ∷ us ↦ some (np.mean (v ∷ us)) ])
  moving_average_total {d} held =
      average_of d.window d.recent d.drifting d.dimension (Held-Steady held).retained
