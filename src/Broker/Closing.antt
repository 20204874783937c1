-- ===== src/Broker/Closing.antt =====
-- About the list that `close` of the queue of agent_broker.py returns.
use echo_veil.Base.{
  ℕ, ◌≡◌, refl, sym, subst, ap, ◌∙◌, inl, inr, false, List, [], ◌∷◌, ◌++◌, Option, none, some,
  String, arith, if◌then◌else◌, filter, All, Bool-cases,
}
use text.Mathlib.Text.{◌==◌}
use text.Mathlib.TextEquality.{eq_iff}
use echo_veil.Base.Dict.{Dict, lookup, Unique, put-Unique, without-Unique}
use echo_veil.Broker.{
  Job, FairQueue, new_queue, lane, all_jobs, close, submit, enlist, get, take_job, take_caller,
  cancel, drop_job, cancel_in, retain, Call, submitting, cancelling, getting, closing, respond,
  after,
}
use echo_veil.Broker.Turns.{AreNew}
use echo_veil.Broker.Lanes.{lane_absent}
use echo_veil.Broker.Promise.{lane_fits}
use echo_veil.Broker.Refine.{promise, lane-view}
use echo_veil.Broker.Answers.{after-Held, new_queue-IsLinked, new_queue-IsFair}

module _ {F : Type 0} where
  -- The jobs of one caller in a list.
  abbrev pub jobs_of : String → List (Job F) → List (Job F)
  jobs_of k jobs = filter (λ j. j.caller == k) jobs

  jobs_of-append :
      (k : String) (xs ys : List (Job F)) → jobs_of k (xs ++ ys) ≡ jobs_of k xs ++ jobs_of k ys
  jobs_of-append k [] ys = refl
  jobs_of-append k (x ∷ xs) ys = ground (arith, jobs_of-append k xs ys)

  jobs_of_own :
      (k i : String) (jobs : List (Job F))
      → All (λ j. j.caller ≡ i) jobs
      → jobs_of k jobs ≡ (if i == k then jobs else [])
  jobs_of_own k i [] h = ground arith
  jobs_of_own k i (x ∷ xs) h = rw (h.0) (ground (arith, jobs_of_own k i xs h.1))

  -- Each queue of a dictionary holds jobs of its own caller.
  abbrev pub Own : Dict (List (Job F)) → Type 0
  Own d = (k : String) → All (λ j. j.caller ≡ k) (lane k d)

  lane_head :
      (k : String) (jobs : List (Job F)) (d : Dict (List (Job F))) → lane k ((k, jobs) ∷ d) ≡ jobs
  unfolding lane lookup
  lane_head k jobs d = ground (arith, eq_iff k k)

  lane_other :
      (i k : String) (jobs : List (Job F)) (d : Dict (List (Job F)))
      → (i == k) ≡ false
      → lane k ((i, jobs) ∷ d) ≡ lane k d
  unfolding lane lookup
  lane_other i k jobs d h = ground arith

  Own-tail :
      (i : String) (jobs : List (Job F)) (d : Dict (List (Job F)))
      → lookup i d ≡ none
      → Own ((i, jobs) ∷ d)
      → Own d
  Own-tail i jobs d absent own k = elim (Bool-cases (i == k)) [
    | inl e ↦
        subst (λ l. All (λ j. j.caller ≡ k) l)
          (sym (lane_absent k d (subst (λ j. lookup j d ≡ none) ((eq_iff i k).0 e) absent))) tt
    | inr e ↦ subst (λ l. All (λ j. j.caller ≡ k) l) (lane_other i k jobs d e) (own k)
  ]

  append-nil : (xs : List (Job F)) → xs ++ [] ≡ xs
  append-nil [] = refl
  append-nil (x ∷ xs) = ap (λ ys. x ∷ ys) (append-nil xs)

  jobs_of-all_jobs :
      (k : String) (d : Dict (List (Job F))) → Unique d → Own d → jobs_of k (all_jobs d) ≡ lane k d
  unfolding all_jobs
  jobs_of-all_jobs k [] u own = unfold lane in unfold lookup in refl
  jobs_of-all_jobs k ((i, jobs) ∷ d) u own =
      let mine = subst (λ l. All (λ j. j.caller ≡ i) l) (lane_head i jobs d) (own i) in
      let rest = jobs_of-all_jobs k d u.1 (Own-tail i jobs d u.0 own) in
      jobs_of-append k jobs (all_jobs d)
      ∙ rw (jobs_of_own k i jobs mine, rest)
          (elim (Bool-cases (i == k)) [
            | inl e ↦
                let same = (eq_iff i k).0 e in
                let nobody = lane_absent k d (subst (λ j. lookup j d ≡ none) same u.0) in
                rw (e, nobody)
                  (append-nil jobs
                    ∙ sym (
                        subst (λ j. lane k ((j, jobs) ∷ d) ≡ jobs) (sym same) (lane_head k jobs d)))
            | inr e ↦ rw e (sym (lane_other i k jobs d e))
          ])

  take_job-Unique :
      (q : FairQueue F) (k : String) (found : Option (List (Job F)))
      → Unique q.queues
      → Unique (take_job q k found).1.queues
  unfolding take_job
  take_job-Unique q k none u = u
  take_job-Unique q k (some []) u = u
  take_job-Unique q k (some (job ∷ [])) u = without-Unique k q.queues u
  take_job-Unique q k (some (job ∷ next ∷ rest)) u = put-Unique k (next ∷ rest) q.queues u

  take_caller-Unique :
      (q : FairQueue F) (ks : List String) → Unique q.queues → Unique (take_caller q ks).1.queues
  unfolding take_caller
  take_caller-Unique q [] u = u
  take_caller-Unique q (k ∷ ks) u =
      take_job-Unique (record q { callers = ks }) k (lookup k q.queues) u

  retain-Unique :
      (q : FairQueue F) (k : String) (jobs : List (Job F))
      → Unique q.queues
      → Unique (retain q k jobs).queues
  unfolding retain
  retain-Unique q k [] u = without-Unique k q.queues u
  retain-Unique q k (job ∷ jobs) u = put-Unique k (job ∷ jobs) q.queues u

  cancel_in-Unique :
      (q : FairQueue F) (job : Job F) (found : Option (List (Job F)))
      → Unique q.queues
      → Unique (cancel_in q job found).1.queues
  unfolding cancel_in
  cancel_in-Unique q job none u = u
  cancel_in-Unique q job (some jobs) u =
      ground (arith, retain-Unique q job.caller (drop_job job jobs) u)

  submit-Unique : (q : FairQueue F) (job : Job F) → Unique q.queues → Unique (submit q job).1.queues
  unfolding submit enlist
  submit-Unique q job u =
      ground (arith, put-Unique job.caller (lane job.caller q.queues ++ job ∷ []) q.queues u)

  get-Unique : (q : FairQueue F) → Unique q.queues → Unique (get q).1.queues
  unfolding get
  get-Unique q u = ground (arith, take_caller-Unique q q.callers u)

  respond-Unique : (c : Call F) (q : FairQueue F) → Unique q.queues → Unique (respond c q).1.queues
  unfolding respond close cancel
  respond-Unique (submitting job) q u = submit-Unique q job u
  respond-Unique (cancelling job) q u = cancel_in-Unique q job (lookup job.caller q.queues) u
  respond-Unique getting q u = get-Unique q u
  respond-Unique closing q u = tt

  after-Unique :
      (cs : List (Call F)) (q : FairQueue F) → Unique q.queues → Unique (after cs q).queues
  unfolding after
  after-Unique [] q u = u
  after-Unique (c ∷ cs) q u = after-Unique cs (respond c q).1 (respond-Unique c q u)

  -- After any calls from a new queue, no job submitted while it waits: `close` returns, for every
  -- caller, the jobs that wait for it, each as often and in the order as they wait, and no other jobs.
  pub close-waiting :
      (depth quota : ℕ) (cs : List (Call F)) (k : String)
      → AreNew cs (promise (new_queue depth quota))
      → let q = after cs (new_queue depth quota) in jobs_of k (close q).0 ≡ lane k q.queues
  unfolding close
  close-waiting depth quota cs k new =
      let q = after cs (new_queue depth quota) in
      let held =
        after-Held cs (new_queue depth quota) (new_queue-IsLinked F depth quota)
          (new_queue-IsFair F depth quota) new in
      jobs_of-all_jobs k q.queues (after-Unique cs (new_queue depth quota) (unfold new_queue in tt))
        (λ i.
          subst (λ l. All (λ j. j.caller ≡ i) l) (lane-view q.callers q.queues held.0.0 i)
            (lane_fits (promise q).quota i (promise q).lanes held.1.1).1)
