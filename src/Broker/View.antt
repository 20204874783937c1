-- ===== src/Broker/View.antt =====
-- The queue of agent_broker.py seen as what it promises: the callers of the deque, each with the jobs
-- that the dictionary keeps for it.
use echo_veil.Base.{
  ◌≡◌, refl, subst, inl, inr, true, false, not, ◌&&◌, ◌||◌, List, [], ◌∷◌, ◌++◌, none, some, String,
  arith, if◌then◌else◌, filter, Bool-cases,
}
use text.Mathlib.Text.{◌==◌}
use text.Mathlib.TextEquality.{eq_iff}
use echo_veil.Base.Dict.{Dict, lookup, put, without, listed, lookup-put, lookup-without}
use echo_veil.Broker.{Job, lane}

-- No caller stands twice.
abbrev pub NoRepeat : List String → Type 0
NoRepeat [] = Unit
NoRepeat (k ∷ ks) = (listed k ks ≡ false) × NoRepeat ks

pub listed-append :
    (k : String) (xs ys : List String) → listed k (xs ++ ys) ≡ listed k xs || listed k ys
unfolding listed
listed-append k [] ys = refl
listed-append k (x ∷ xs) ys = ground (arith, listed-append k xs ys)

pub listed-filter_ne :
    (k j : String) (xs : List String)
    → listed k (filter (λ i. not (i == j)) xs) ≡ listed k xs && not (j == k)
unfolding listed
listed-filter_ne k j [] = refl
listed-filter_ne k j (x ∷ xs) =
    ground (arith, eq_iff x j, eq_iff x k, eq_iff j k, listed-filter_ne k j xs)

pub append-NoRepeat :
    (k : String) (ks : List String) → NoRepeat ks → listed k ks ≡ false → NoRepeat (ks ++ k ∷ [])
unfolding listed
append-NoRepeat k [] n h = (refl, tt)
append-NoRepeat k (x ∷ xs) n h =
    ground (arith, eq_iff x k, eq_iff k x, listed-append x xs (k ∷ []), append-NoRepeat k xs n.1)

pub filter-NoRepeat :
    (j : String) (ks : List String) → NoRepeat ks → NoRepeat (filter (λ i. not (i == j)) ks)
filter-NoRepeat j [] n = tt
filter-NoRepeat j (x ∷ xs) n = ground (arith, listed-filter_ne x j xs, filter-NoRepeat j xs n.1)

module _ {F : Type 0} where
  unfoldable pub view : List String → Dict (List (Job F)) → Dict (List (Job F))
  view [] d = []
  view (k ∷ ks) d = (k, lane k d) ∷ view ks d

  pub lookup-view :
      (k : String) (ks : List String) (d : Dict (List (Job F)))
      → lookup k (view ks d) ≡ (if listed k ks then some (lane k d) else none)
  unfolding lookup view listed
  lookup-view k [] d = refl
  lookup-view k (j ∷ ks) d = elim (Bool-cases (j == k)) [
    | inl e ↦ rw ((eq_iff j k).0 e) (ground (arith, eq_iff k k))
    | inr e ↦ rw (e, ◌||◌) (lookup-view k ks d)
  ]

  pub lane-put :
      (k j : String) (jobs : List (Job F)) (d : Dict (List (Job F)))
      → lane j (put k jobs d) ≡ (if k == j then jobs else lane j d)
  unfolding lane
  lane-put k j jobs d = ground (arith, lookup-put k j jobs d)

  pub lane-without :
      (k j : String) (d : Dict (List (Job F)))
      → lane j (without k d) ≡ (if k == j then [] else lane j d)
  unfolding lane
  lane-without k j d = ground (arith, lookup-without k j d)

  pub view-put_other :
      (k : String) (jobs : List (Job F)) (ks : List String) (d : Dict (List (Job F)))
      → listed k ks ≡ false
      → view ks (put k jobs d) ≡ view ks d
  unfolding view listed
  view-put_other k jobs [] d h = refl
  view-put_other k jobs (j ∷ ks) d h =
      ground (arith, eq_iff j k, eq_iff k j, lane-put k j jobs d, view-put_other k jobs ks d)

  pub view-put :
      (k : String) (jobs : List (Job F)) (ks : List String) (d : Dict (List (Job F)))
      → NoRepeat ks
      → listed k ks ≡ true
      → view ks (put k jobs d) ≡ put k jobs (view ks d)
  unfolding view listed put
  view-put k jobs [] d n h = cc
  view-put k jobs (j ∷ ks) d n h = elim (Bool-cases (j == k)) [
    | inl e ↦
        (let same = (eq_iff j k).0 e in
          rw same (
            ground (
              arith,
              eq_iff k k,
              lane-put k k jobs d,
              view-put_other k jobs ks d (subst (λ i. listed i ks ≡ false) same n.0),
            )))
    | inr e ↦ ground (arith, eq_iff j k, eq_iff k j, lane-put k j jobs d, view-put k jobs ks d n.1)
  ]

  pub view-without_other :
      (k : String) (ks : List String) (d : Dict (List (Job F)))
      → listed k ks ≡ false
      → view ks (without k d) ≡ view ks d
  unfolding view listed
  view-without_other k [] d h = refl
  view-without_other k (j ∷ ks) d h =
      ground (arith, eq_iff j k, eq_iff k j, lane-without k j d, view-without_other k ks d)

  pub view-filter :
      (k : String) (ks : List String) (d : Dict (List (Job F)))
      → view (filter (λ j. not (j == k)) ks) (without k d) ≡ without k (view ks d)
  unfolding view without
  view-filter k [] d = refl
  view-filter k (j ∷ ks) d =
      ground (arith, eq_iff j k, eq_iff k j, lane-without k j d, view-filter k ks d)

  pub view-append :
      (k : String) (ks : List String) (d : Dict (List (Job F)))
      → view (ks ++ k ∷ []) d ≡ view ks d ++ (k, lane k d) ∷ []
  unfolding view
  view-append k [] d = refl
  view-append k (j ∷ ks) d = cc (view-append k ks d)
