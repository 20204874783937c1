-- ===== src/Broker/Turns.antt =====
-- What the queue of agent_broker.py promises: the jobs of each waiting caller, in the order in which
-- the callers are served. The head is served next, and goes behind the others if it still waits.
use echo_veil.Base.{
  ℕ, ◌+◌, ◌≤◌, ◌<◌, ◌≡◌, Bool, true, false, List, [], ◌∷◌, ◌++◌, Option, none, some, String, ok,
  leb, if◌then◌else◌, length, any, All,
}
use echo_veil.Base.Dict.{Dict, put, without, Unique}
use echo_veil.Broker.{
  Job, same_job, lane, drop_job, Call, Answer, submitting, cancelling, getting, closing, submitted,
  got, cancelled, stopped,
}

pub record Turns (F : Type 0) : Type 0 where
  pub depth : ℕ
  pub quota : ℕ
  pub lanes : Dict (List (Job F))
  pub closed : Bool

module _ {F : Type 0} where
  unfoldable pub total : Dict (List (Job F)) → ℕ
  total [] = 0
  total ((k, jobs) ∷ d) = length jobs + total d

  unfoldable pub enqueue : Job F → Dict (List (Job F)) → Dict (List (Job F))
  enqueue job d = put job.caller (lane job.caller d ++ job ∷ []) d

  unfoldable pub admit : Turns F → Job F → Option String × Turns F
  unfolding enqueue
  admit s job =
      if s.closed
      then (some "broker_stopping", s)
      else if leb s.depth (total s.lanes)
      then (some "saturated", s)
      else if leb s.quota (length (lane job.caller s.lanes))
      then (some "caller_quota_exceeded", s)
      else (none, record s { lanes = enqueue job s.lanes })

  unfoldable pub serve : Dict (List (Job F)) → Option (Job F) × Dict (List (Job F))
  serve [] = (none, [])
  serve ((k, []) ∷ d) = (none, d)
  serve ((k, job ∷ []) ∷ d) = (some job, d)
  serve ((k, job ∷ next ∷ rest) ∷ d) = (some job, d ++ (k, next ∷ rest) ∷ [])

  -- The jobs of a caller, none of whom leaves no place in the order.
  unfoldable pub settle : String → List (Job F) → Dict (List (Job F)) → Dict (List (Job F))
  settle k [] d = without k d
  settle k (job ∷ jobs) d = put k (job ∷ jobs) d

  abbrev pub holds_job : Job F → List (Job F) → Bool
  holds_job job jobs = any (λ j. same_job j job) jobs

  unfoldable pub withdraw : Job F → Dict (List (Job F)) → Bool × Dict (List (Job F))
  unfolding settle
  withdraw job d =
      if holds_job job (lane job.caller d)
      then (true, settle job.caller (drop_job job (lane job.caller d)) d)
      else (false, d)

  unfoldable pub reply : Call F → Turns F → Answer F × Turns F
  unfolding admit serve withdraw
  reply (submitting job) s = (submitted (admit s job).0, (admit s job).1)
  reply (cancelling job) s =
      (cancelled (withdraw job s.lanes).0, record s { lanes = (withdraw job s.lanes).1 })
  reply getting s = (got (ok (serve s.lanes).0), record s { lanes = (serve s.lanes).1 })
  reply closing s = (stopped, record s { lanes = []; closed = true })

  unfoldable pub replies : List (Call F) → Turns F → List (Answer F)
  unfolding reply
  replies [] s = []
  replies (c ∷ cs) s = (reply c s).0 ∷ replies cs (reply c s).1

  -- No job object is submitted while it still waits.
  abbrev pub IsNew : Call F → Turns F → Type 0
  IsNew (submitting job) s = holds_job job (lane job.caller s.lanes) ≡ false
  IsNew (cancelling job) s = Unit
  IsNew getting s = Unit
  IsNew closing s = Unit

  abbrev pub AreNew : List (Call F) → Turns F → Type 0
  AreNew [] s = Unit
  AreNew (c ∷ cs) s = IsNew c s × AreNew cs (reply c s).1

  -- No job stands twice.
  abbrev pub Single : List (Job F) → Type 0
  Single [] = Unit
  Single (job ∷ jobs) = (holds_job job jobs ≡ false) × Single jobs

  abbrev pub Lane : ℕ → String → List (Job F) → Type 0
  Lane quota k jobs =
      (0 < length jobs) × (length jobs ≤ quota) × All (λ j. j.caller ≡ k) jobs × Single jobs

  abbrev pub Lanes : ℕ → Dict (List (Job F)) → Type 0
  Lanes quota [] = Unit
  Lanes quota ((k, jobs) ∷ d) = Lane quota k jobs × Lanes quota d

  -- Every caller stands once, with jobs of its own, each once and no more than its quota, and there
  -- are no more jobs than the depth.
  abbrev pub IsFair : Turns F → Type 0
  IsFair s = Unique s.lanes × Lanes s.quota s.lanes × (total s.lanes ≤ s.depth)
