-- ===== src/Broker/Serve.antt =====
-- About `get`, `cancel` and `close` of the queue of agent_broker.py, against the abstract round robin.
use echo_veil.Base.{
  ℕ, suc, ◌≡◌, refl, subst, ap, ◌∙◌, inl, inr, Bool, true, false, List, [], ◌∷◌, ◌++◌, some, String,
  arith, eqb, length, Bool-cases, Option-cases,
}
use text.Mathlib.TextEquality.{eq_iff}
use echo_veil.Base.Dict.{Dict, lookup, has, put, without, listed, lookup-put, lookup-without}
use echo_veil.Broker.{Job, FairQueue, drop_job, get, retain, cancel, cancelling, getting, respond}
use echo_veil.Broker.Turns.{total, serve, settle, holds_job, withdraw, reply, IsFair, Lanes, Single}
use echo_veil.Broker.Lanes.{lane_absent, lane_present, total-append, total-put, total-without}
use echo_veil.Broker.Promise.{lane_fits}
use echo_veil.Broker.Jobs.{length-drop_job, drop_job_absent}
use echo_veil.Broker.View.{
  listed-append, append-NoRepeat, view, lane-put, view-put, view-put_other, view-without_other,
  view-filter, view-append,
}
use echo_veil.Broker.Refine.{
  promise, Agree, IsLinked, Simulates, lane-view, without-Agree, put_old-Agree,
}

eqb_same : (n : ℕ) → eqb n n ≡ true
eqb_same n = ground arith

module _ {F : Type 0} where
  has-some :
      (k : String) (jobs : List (Job F)) (d : Dict (List (Job F)))
      → lookup k d ≡ some jobs
      → has k d ≡ true
  has-some k jobs d e = ground arith

  total-pos :
      (quota : ℕ) (k : String) (jobs : List (Job F)) (d : Dict (List (Job F)))
      → Lanes quota ((k, jobs) ∷ d)
      → eqb (total ((k, jobs) ∷ d)) 0 ≡ false
  unfolding total
  total-pos quota k jobs d h = ground arith

  -- The queue of the caller at the head has a job.
  head_lane :
      (quota : ℕ) (k : String) (ks : List String) (d : Dict (List (Job F)))
      → Agree (k ∷ ks) d
      → Lanes quota (view (k ∷ ks) d)
      → (job : Job F) × (rest : List (Job F)) × (lookup k d ≡ some (job ∷ rest))
  unfolding view listed
  head_lane quota k ks d agree h = elim (Option-cases (lookup k d)) [
    | inl e ↦ absurd (ground (arith, agree.1 k, eq_iff k k))
    | inr ([], e) ↦ absurd (ground (arith, lane_present k [] d e, h.0.0))
    | inr (job ∷ rest, e) ↦ (job, rest, e)
  ]

  take-Agree :
      (k : String) (ks : List String) (d : Dict (List (Job F)))
      → Agree (k ∷ ks) d
      → Agree ks (without k d)
  unfolding listed
  take-Agree k ks d agree =
      (agree.0.1, λ j. ground (arith, agree.1 j, agree.0.0, eq_iff k j, lookup-without k j d))

  rotate-Agree :
      (k : String) (jobs : List (Job F)) (ks : List String) (d : Dict (List (Job F)))
      → Agree (k ∷ ks) d
      → Agree (ks ++ k ∷ []) (put k jobs d)
  unfolding listed
  rotate-Agree k jobs ks d agree = (
    append-NoRepeat k ks agree.0.1 agree.0.0,
    λ j. ground (arith, agree.1 j, eq_iff k j, listed-append j ks (k ∷ []), lookup-put k j jobs d),
  )

  rotate-view :
      (k : String) (jobs : List (Job F)) (ks : List String) (d : Dict (List (Job F)))
      → listed k ks ≡ false
      → view (ks ++ k ∷ []) (put k jobs d) ≡ view ks d ++ (k, jobs) ∷ []
  rotate-view k jobs ks d h =
      view-append k ks (put k jobs d)
      ∙ rw (view-put_other k jobs ks d h, lane-put k k jobs d, (eq_iff k k).1 refl) refl

  take-Simulates :
      (depth quota : ℕ) (k : String) (ks : List String) (d : Dict (List (Job F))) (n : ℕ)
      (shut : Bool) (job : Job F) (rest : List (Job F))
      → Agree (k ∷ ks) d
      → n ≡ total (view (k ∷ ks) d)
      → lookup k d ≡ some (job ∷ rest)
      → let q : FairQueue F = record {
        depth = depth;
        per_caller_quota = quota;
        queues = d;
        callers = k ∷ ks;
        queued = n;
        closed = shut;
      } in
        Simulates getting q
  unfolding respond get reply serve view total
  take-Simulates depth quota k ks d n shut job [] agree count e =
      let jobs = lane_present k (job ∷ []) d e in
      let same = view-without_other k ks d agree.0.0 in
      let some_left : eqb n 0 ≡ false = ground (arith, ap length jobs) in
      rw (some_left, e, jobs)
        (
          refl,
          rw same refl,
          (take-Agree k ks d agree, omega (arith, count, ap length jobs, ap total same)),
        )
  take-Simulates depth quota k ks d n shut job (next ∷ rest) agree count e =
      let jobs = lane_present k (job ∷ next ∷ rest) d e in
      let same = rotate-view k (next ∷ rest) ks d agree.0.0 in
      let sums = total-append (view ks d) ((k, next ∷ rest) ∷ []) in
      let some_left : eqb n 0 ≡ false = ground (arith, ap length jobs) in
      rw (some_left, e, jobs)
        (
          refl,
          rw same refl,
          (
            rotate-Agree k (next ∷ rest) ks d agree,
            omega (arith, count, ap length jobs, ap total same, sums),
          ),
        )

  get_in_turn :
      (depth quota : ℕ) (ks : List String) (d : Dict (List (Job F))) (n : ℕ) (shut : Bool)
      → Agree ks d × (n ≡ total (view ks d))
      → Lanes quota (view ks d)
      → let q : FairQueue F = record {
        depth = depth;
        per_caller_quota = quota;
        queues = d;
        callers = ks;
        queued = n;
        closed = shut;
      } in
        Simulates getting q
  unfolding respond get reply serve view total
  get_in_turn depth quota [] d n shut linked lanes = rw (linked.1) (refl, refl, (linked.0, refl))
  get_in_turn depth quota (k ∷ ks) d n shut linked lanes =
      let (job, rest, e) = head_lane quota k ks d linked.0 lanes in
      take-Simulates depth quota k ks d n shut job rest linked.0 linked.1 e

  pub get-Simulates : (q : FairQueue F) → IsLinked q → IsFair (promise q) → Simulates getting q
  get-Simulates q linked fair =
      get_in_turn q.depth q.per_caller_quota q.callers q.queues q.queued q.closed linked fair.1

  module _ (q : FairQueue F) (job : Job F) (linked : IsLinked q) (fair : IsFair (promise q)) where
    cancel_lane :
        (jobs left : List (Job F))
        → lookup job.caller q.queues ≡ some jobs
        → suc (length left) ≡ length jobs
        → (promise (retain q job.caller left)
            ≡ record (promise q) { lanes = settle job.caller left (promise q).lanes })
          × IsLinked (retain q job.caller left)
    unfolding retain settle
    cancel_lane jobs [] e h =
        let same = view-filter job.caller q.callers q.queues in
        let mine =
          lane-view q.callers q.queues linked.0 job.caller
          ∙ lane_present job.caller jobs q.queues e in
        (
          ap (λ l. record (promise q) { lanes = l }) same,
          (
            without-Agree q.callers q.queues linked.0 job.caller,
            omega (
              arith,
              linked.1,
              ap total same,
              ap length mine,
              total-without job.caller (view q.callers q.queues) fair.0,
            ),
          ),
        )
    cancel_lane jobs (j ∷ left) e h =
        let waits = linked.0.1 job.caller ∙ has-some job.caller jobs q.queues e in
        let same = view-put job.caller (j ∷ left) q.callers q.queues linked.0.0 waits in
        let mine =
          lane-view q.callers q.queues linked.0 job.caller
          ∙ lane_present job.caller jobs q.queues e in
        (
          ap (λ l. record (promise q) { lanes = l }) same,
          (
            put_old-Agree q.callers q.queues linked.0 job.caller (j ∷ left) waits,
            omega (
              arith,
              linked.1,
              ap total same,
              ap length mine,
              total-put job.caller (j ∷ left) (view q.callers q.queues),
            ),
          ),
        )

    pub cancel-Simulates : Simulates (cancelling job) q
    unfolding respond cancel reply withdraw
    cancel-Simulates = elim (Option-cases (lookup job.caller q.queues)) [
      | inl e ↦
          (let mine =
              lane-view q.callers q.queues linked.0 job.caller
              ∙ lane_absent job.caller q.queues e in
            rw (e, mine) (refl, refl, linked))
      | inr (jobs, e) ↦
          (let mine =
              lane-view q.callers q.queues linked.0 job.caller
              ∙ lane_present job.caller jobs q.queues e in
            let once =
              subst Single mine
                (lane_fits q.per_caller_quota job.caller (view q.callers q.queues) fair.1).2 in
            elim (Bool-cases (holds_job job jobs)) [
              | inl h ↦
                  (let shorter = length-drop_job job jobs once h in
                    let fewer : eqb (length (drop_job job jobs)) (length jobs) ≡ false =
                      ground arith in
                    let (same, after) = cancel_lane jobs (drop_job job jobs) e shorter in
                    rw (e, mine, h, fewer) (refl, same, after))
              | inr h ↦
                  rw (e, mine, h, drop_job_absent job jobs h, eqb_same (length jobs))
                    (refl, refl, linked)
            ])
    ]
