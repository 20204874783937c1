-- ===== src/Broker/Jobs.antt =====
-- Jobs of one caller in a list: which objects it holds, and what appending and dropping one does.
use echo_veil.Base.{
  suc, ◌≤◌, ◌≡◌, refl, sym, ap, ◌∙◌, inl, inr, true, false, ◌||◌, List, [], ◌∷◌, ◌++◌, String,
  arith, length, All, Bool-cases,
}
use echo_veil.Broker.{Job, same_job, drop_job}
use echo_veil.Broker.Turns.{holds_job, Single}

module _ {F : Type 0} where
  holds_job-append :
      (job : Job F) (xs ys : List (Job F))
      → holds_job job (xs ++ ys) ≡ holds_job job xs || holds_job job ys
  holds_job-append job [] ys = refl
  holds_job-append job (x ∷ xs) ys = ground (arith, holds_job-append job xs ys)

  pub Single-append :
      (job : Job F) (jobs : List (Job F))
      → Single jobs
      → holds_job job jobs ≡ false
      → Single (jobs ++ job ∷ [])
  Single-append job [] s h = (refl, tt)
  Single-append job (j ∷ jobs) s h = (
    ground (arith, holds_job-append j jobs (job ∷ [])),
    Single-append job jobs s.1 (ground arith),
  )

  -- The same object is held by the same lists.
  holds_job_same :
      (a b : Job F) (jobs : List (Job F))
      → same_job a b ≡ true
      → holds_job a jobs ≡ holds_job b jobs
  holds_job_same a b [] h = refl
  holds_job_same a b (j ∷ jobs) h = ground (arith, holds_job_same a b jobs)

  pub drop_job_absent :
      (job : Job F) (jobs : List (Job F)) → holds_job job jobs ≡ false → drop_job job jobs ≡ jobs
  unfolding drop_job
  drop_job_absent job [] h = refl
  drop_job_absent job (j ∷ jobs) h = ground (arith, drop_job_absent job jobs)

  pub length-drop_job :
      (job : Job F) (jobs : List (Job F))
      → Single jobs
      → holds_job job jobs ≡ true
      → suc (length (drop_job job jobs)) ≡ length jobs
  unfolding drop_job
  length-drop_job job [] s h = cc
  length-drop_job job (j ∷ jobs) s h = elim (Bool-cases (same_job j job)) [
    | inl e ↦
        (let gone = drop_job_absent job jobs (sym (holds_job_same j job jobs e) ∙ s.0) in
          ground (arith, ap length gone))
    | inr e ↦ ground (arith, length-drop_job job jobs s.1)
  ]

  holds_job-drop_job :
      (a job : Job F) (jobs : List (Job F))
      → holds_job a jobs ≡ false
      → holds_job a (drop_job job jobs) ≡ false
  unfolding drop_job
  holds_job-drop_job a job [] h = refl
  holds_job-drop_job a job (j ∷ jobs) h = ground (arith, holds_job-drop_job a job jobs)

  pub drop_job-Single :
      (job : Job F) (jobs : List (Job F)) → Single jobs → Single (drop_job job jobs)
  unfolding drop_job
  drop_job-Single job [] s = tt
  drop_job-Single job (j ∷ jobs) s =
      ground (arith, holds_job-drop_job j job jobs, drop_job-Single job jobs s.1)

  pub drop_job-All :
      (k : String) (job : Job F) (jobs : List (Job F))
      → All (λ j. j.caller ≡ k) jobs
      → All (λ j. j.caller ≡ k) (drop_job job jobs)
  unfolding drop_job
  drop_job-All k job [] h = tt
  drop_job-All k job (j ∷ jobs) h = ground (arith, drop_job-All k job jobs h.1)

  pub length-drop_job_le :
      (job : Job F) (jobs : List (Job F)) → length (drop_job job jobs) ≤ length jobs
  unfolding drop_job
  length-drop_job_le job [] = omega arith
  length-drop_job_le job (j ∷ jobs) = ground (arith, length-drop_job_le job jobs)
