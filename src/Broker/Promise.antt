-- ===== src/Broker/Promise.antt =====
-- The invariant of the abstract contents of the queue of agent_broker.py.
use echo_veil.Base.{
  ℕ, suc, ◌≤◌, ◌≡◌, refl, subst, ap, inl, inr, false, List, [], ◌∷◌, ◌++◌, String, arith, leb,
  length, All, All-append, length-append, Bool-cases, Option-cases,
}
use echo_veil.Base.Dict.{Dict, lookup, Unique, put-Unique, without-Unique}
use echo_veil.Broker.{Job, lane, drop_job, Call, submitting, cancelling, getting, closing}
use echo_veil.Broker.Turns.{
  Turns, total, enqueue, admit, serve, settle, holds_job, withdraw, reply, IsNew, Single, Lanes,
  IsFair,
}
use echo_veil.Broker.Jobs.{Single-append, drop_job-Single, drop_job-All, length-drop_job_le}
use echo_veil.Broker.Lanes.{
  lane_absent, lane_present, put-append, total-append, total-put, total-without, Lanes-put,
  Lanes-without, Lanes-append, Lanes-lookup,
}

module _ {F : Type 0} where
  -- A waiting caller's jobs, or none at all, fit the quota.
  pub lane_fits :
      (quota : ℕ) (k : String) (d : Dict (List (Job F)))
      → Lanes quota d
      → (length (lane k d) ≤ quota) × All (λ j. j.caller ≡ k) (lane k d) × Single (lane k d)
  lane_fits quota k d h = elim (Option-cases (lookup k d)) [
    | inl e ↦ rw (lane_absent k d e) (omega arith, tt, tt)
    | inr (jobs, e) ↦
        (let fits = Lanes-lookup quota k jobs d h e in
          rw (lane_present k jobs d e) (fits.1, fits.2, fits.3))
  ]

  enqueue-Lanes :
      (quota : ℕ) (job : Job F) (d : Dict (List (Job F)))
      → leb quota (length (lane job.caller d)) ≡ false
      → holds_job job (lane job.caller d) ≡ false
      → Lanes quota d
      → Lanes quota (enqueue job d)
  unfolding enqueue
  enqueue-Lanes quota job d room new h =
      let fits = lane_fits quota job.caller d h in
      Lanes-put quota job.caller (lane job.caller d ++ job ∷ []) d
        (
          omega (arith, length-append (lane job.caller d) (job ∷ [])),
          ground (arith, length-append (lane job.caller d) (job ∷ [])),
          All-append (λ j. j.caller ≡ job.caller) (lane job.caller d) (job ∷ []) fits.1 (refl, tt),
          Single-append job (lane job.caller d) fits.2 new,
        )
        h

  pub total-enqueue :
      (job : Job F) (d : Dict (List (Job F))) → total (enqueue job d) ≡ suc (total d)
  unfolding enqueue
  total-enqueue job d = omega (
    arith,
    total-put job.caller (lane job.caller d ++ job ∷ []) d,
    length-append (lane job.caller d) (job ∷ []),
  )

  admit-IsFair :
      (job : Job F) (s : Turns F)
      → holds_job job (lane job.caller s.lanes) ≡ false
      → IsFair s
      → IsFair (admit s job).1
  unfolding admit
  admit-IsFair job s new h = elim (Bool-cases s.closed) [
    | inl e ↦ rw e h
    | inr e ↦ elim (Bool-cases (leb s.depth (total s.lanes))) [
      | inl f ↦ rw (e, f) h
      | inr f ↦ elim (Bool-cases (leb s.quota (length (lane job.caller s.lanes)))) [
        | inl g ↦ rw (e, f, g) h
        | inr g ↦
            rw (e, f, g)
              (
                put-Unique job.caller (lane job.caller s.lanes ++ job ∷ []) s.lanes h.0,
                enqueue-Lanes s.quota job s.lanes g new h.1,
                ground (arith, total-enqueue job s.lanes),
              )
      ]
    ]
  ]

  serve-Lanes :
      (quota : ℕ) (d : Dict (List (Job F)))
      → Unique d
      → Lanes quota d
      → Unique (serve d).1 × Lanes quota (serve d).1 × (total (serve d).1 ≤ total d)
  unfolding serve total
  serve-Lanes quota [] u h = (tt, tt, omega arith)
  serve-Lanes quota ((k, []) ∷ d) u h = (u.1, h.1, omega arith)
  serve-Lanes quota ((k, job ∷ []) ∷ d) u h = (u.1, h.1, omega arith)
  serve-Lanes quota ((k, job ∷ next ∷ rest) ∷ d) u h = (
    subst Unique (put-append k (next ∷ rest) d u.0) (put-Unique k (next ∷ rest) d u.1),
    Lanes-append quota d ((k, next ∷ rest) ∷ []) h.1
        ((omega arith, omega arith, h.0.2.1, h.0.3.1), tt),
    omega (arith, total-append d ((k, next ∷ rest) ∷ [])),
  )

  settle-IsFair :
      (quota : ℕ) (job : Job F) (jobs : List (Job F)) (d : Dict (List (Job F)))
      → lane job.caller d ≡ jobs
      → Unique d
      → Lanes quota d
      → (left : List (Job F)) → drop_job job jobs ≡ left
      → Unique (settle job.caller left d)
        × Lanes quota (settle job.caller left d)
        × (total (settle job.caller left d) ≤ total d)
  unfolding settle
  settle-IsFair quota job jobs d e u h [] f = (
    without-Unique job.caller d u,
    Lanes-without quota job.caller d h,
    omega (arith, total-without job.caller d u),
  )
  settle-IsFair quota job jobs d e u h (j ∷ left) f =
      let fits = rw e at (lane_fits quota job.caller d h) in
      (
        put-Unique job.caller (j ∷ left) d u,
        Lanes-put quota job.caller (j ∷ left) d
            (
              omega arith,
              omega (arith, ap length f, length-drop_job_le job jobs),
              subst (All (λ i. i.caller ≡ job.caller)) f (drop_job-All job.caller job jobs fits.1),
              subst Single f (drop_job-Single job jobs fits.2),
            )
            h,
        omega (
          arith,
          total-put job.caller (j ∷ left) d,
          ap length e,
          ap length f,
          length-drop_job_le job jobs,
        ),
      )

  withdraw-IsFair :
      (quota : ℕ) (job : Job F) (d : Dict (List (Job F)))
      → Unique d
      → Lanes quota d
      → Unique (withdraw job d).1
        × Lanes quota (withdraw job d).1
        × (total (withdraw job d).1 ≤ total d)
  unfolding withdraw
  withdraw-IsFair quota job d u h = elim (Bool-cases (holds_job job (lane job.caller d))) [
    | inl e ↦ rw e (
        settle-IsFair quota job (lane job.caller d) d refl u h (drop_job job (lane job.caller d))
          refl)
    | inr e ↦ rw e (u, h, omega arith)
  ]

  -- Whatever is called, and answered, the order stays fair.
  pub reply-IsFair : (c : Call F) (s : Turns F) → IsNew c s → IsFair s → IsFair (reply c s).1
  unfolding reply
  reply-IsFair (submitting job) s new h = admit-IsFair job s new h
  reply-IsFair (cancelling job) s new h =
      let kept = withdraw-IsFair s.quota job s.lanes h.0 h.1 in (kept.0, kept.1, omega arith)
  reply-IsFair getting s new h =
      let kept = serve-Lanes s.quota s.lanes h.0 h.1 in (kept.0, kept.1, omega arith)
  reply-IsFair closing s new h = (tt, tt, unfold total in omega arith)
