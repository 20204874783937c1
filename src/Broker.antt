-- ===== src/Broker.antt =====
-- src/echo_veil/agent_broker.py: the queue between the connections of the local broker and its
-- single worker, `_FairRequestQueue`. The methods hold the queue's lock, so that a call is one step;
-- `get` releases it while it waits, and is a step from the moment it stops waiting.
pub mod Turns
pub mod Jobs
pub mod Lanes
pub mod Promise
pub mod View
pub mod Refine
pub mod Serve
pub mod Answers
pub mod Waiting
pub mod Closing
use echo_veil.Base.{
  ℕ, zero, suc, ◌+◌, ◌-◌, Bool, true, false, not, List, [], ◌∷◌, ◌++◌, Option, none, some, String,
  Result, ok, err, key_error, index_error, eqb, leb, if◌then◌else◌, length, any, filter,
}
use text.Mathlib.Text.{◌==◌}
use echo_veil.Base.Dict.{Dict, lookup, has, put, without}
use echo_veil.Json.{Fields}

-- `_BrokerJob`, with the identity of the object as a number.
pub record Job (F : Type 0) : Type 0 where
  pub handle : ℕ
  pub request_id : String
  pub caller : String
  pub action : String
  pub arguments : Fields F
  pub accepted_at : F

-- `_FairRequestQueue`
pub record FairQueue (F : Type 0) : Type 0 where
  pub depth : ℕ
  pub per_caller_quota : ℕ
  pub queues : Dict (List (Job F))
  pub callers : List String
  pub queued : ℕ
  pub closed : Bool

-- A call of one of the methods, and its answer.
pub data Call (F : Type 0) : Type 0 where
  submitting cancelling : Job F → Call F
  getting closing : Call F

pub data Answer (F : Type 0) : Type 0 where
  submitted : Option String → Answer F
  got : Result (Option (Job F)) → Answer F
  cancelled : Bool → Answer F
  stopped : Answer F

module _ {F : Type 0} where
  -- `_FairRequestQueue.__init__`
  unfoldable pub new_queue : ℕ → ℕ → FairQueue F
  new_queue depth quota = record {
    depth = depth;
    per_caller_quota = quota;
    queues = [];
    callers = [];
    queued = 0;
    closed = false;
  }

  -- `a is b`
  abbrev pub same_job : Job F → Job F → Bool
  same_job a b = eqb a.handle b.handle

  -- `self._queues.get(caller)`, where a missing queue counts as an empty one.
  unfoldable pub lane : String → Dict (List (Job F)) → List (Job F)
  lane k d = elim (lookup k d) [ none ↦ [] | some jobs ↦ jobs ]

  -- `submit`, past its refusals.
  unfoldable pub enlist : FairQueue F → Job F → FairQueue F
  enlist q job = record q {
    queues = put job.caller (lane job.caller q.queues ++ job ∷ []) q.queues;
    callers = if has job.caller q.queues then q.callers else q.callers ++ job.caller ∷ [];
    queued = q.queued + 1;
  }

  -- `submit`: the reason of a refusal, or none.
  unfoldable pub submit : FairQueue F → Job F → Option String × FairQueue F
  unfolding enlist
  submit q job =
      if q.closed
      then (some "broker_stopping", q)
      else if leb q.depth q.queued
      then (some "saturated", q)
      else if leb q.per_caller_quota (length (lane job.caller q.queues))
      then (some "caller_quota_exceeded", q)
      else (none, enlist q job)

  -- What `get` does after it took the caller at the head, on that caller's queue.
  unfoldable pub take_job :
      FairQueue F → String → Option (List (Job F)) → Result (Option (Job F)) × FairQueue F
  take_job q k none = (err key_error, q)
  take_job q k (some []) = (err index_error, q)
  take_job q k (some (job ∷ [])) =
      (ok (some job), record q { queues = without k q.queues; queued = q.queued - 1 })
  take_job q k (some (job ∷ next ∷ rest)) = (
    ok (some job),
    record q {
      queues = put k (next ∷ rest) q.queues;
      callers = q.callers ++ k ∷ [];
      queued = q.queued - 1;
    },
  )

  unfoldable pub take_caller : FairQueue F → List String → Result (Option (Job F)) × FairQueue F
  unfolding take_job
  take_caller q [] = (err index_error, q)
  take_caller q (k ∷ ks) = take_job (record q { callers = ks }) k (lookup k q.queues)

  -- `get`, from the moment it stops waiting.
  unfoldable pub get : FairQueue F → Result (Option (Job F)) × FairQueue F
  unfolding take_caller
  get q = if eqb q.queued 0 then (ok none, q) else take_caller q q.callers

  unfoldable pub all_jobs : Dict (List (Job F)) → List (Job F)
  all_jobs [] = []
  all_jobs ((k, jobs) ∷ d) = jobs ++ all_jobs d

  -- `close`
  unfoldable pub close : FairQueue F → List (Job F) × FairQueue F
  unfolding all_jobs
  close q = (all_jobs q.queues, record q { queues = []; callers = []; queued = 0; closed = true })

  unfoldable pub drop_job : Job F → List (Job F) → List (Job F)
  drop_job job jobs = filter (λ j. not (same_job j job)) jobs

  -- `cancel`, with what its comprehension retained.
  unfoldable pub retain : FairQueue F → String → List (Job F) → FairQueue F
  retain q k [] = record q {
    queues = without k q.queues;
    callers = filter (λ j. not (j == k)) q.callers;
    queued = q.queued - 1;
  }
  retain q k (job ∷ jobs) = record q { queues = put k (job ∷ jobs) q.queues; queued = q.queued - 1 }

  -- `cancel`, on the queue that it finds.
  unfoldable pub cancel_in : FairQueue F → Job F → Option (List (Job F)) → Bool × FairQueue F
  unfolding retain drop_job
  cancel_in q job none = (false, q)
  cancel_in q job (some jobs) =
      if eqb (length (drop_job job jobs)) (length jobs)
      then (false, q)
      else (true, retain q job.caller (drop_job job jobs))

  -- `cancel`
  unfoldable pub cancel : FairQueue F → Job F → Bool × FairQueue F
  unfolding cancel_in
  cancel q job = cancel_in q job (lookup job.caller q.queues)

  -- A call as a step. The list that `close` returns, in the order of the dictionary, is not part of the
  -- answer; Closing is about it.
  unfoldable pub respond : Call F → FairQueue F → Answer F × FairQueue F
  unfolding submit get cancel close
  respond (submitting job) q = (submitted (submit q job).0, (submit q job).1)
  respond (cancelling job) q = (cancelled (cancel q job).0, (cancel q job).1)
  respond getting q = (got (get q).0, (get q).1)
  respond closing q = (stopped, (close q).1)

  unfoldable pub answers : List (Call F) → FairQueue F → List (Answer F)
  unfolding respond
  answers [] q = []
  answers (c ∷ cs) q = (respond c q).0 ∷ answers cs (respond c q).1

  -- The queue that a sequence of calls leaves.
  unfoldable pub after : List (Call F) → FairQueue F → FairQueue F
  unfolding respond
  after [] q = q
  after (c ∷ cs) q = after cs (respond c q).1
