-- ===== src/Broker/Answers.antt =====
-- Sequences of calls of the queue of agent_broker.py, in the order in which they take its lock.
use echo_veil.Base.{ℕ, ◌≤◌, ◌≡◌, refl, subst, sym, ap, ◌∙◌, List, [], ◌∷◌, arith}
use echo_veil.Base.Dict.{lookup, listed}
use echo_veil.Broker.{
  FairQueue, new_queue, Call, submitting, cancelling, getting, closing, respond, answers, after,
  close,
}
use echo_veil.Broker.Turns.{Turns, total, admit, reply, replies, AreNew, IsFair, Lanes}
use echo_veil.Broker.Promise.{reply-IsFair}
use echo_veil.Broker.View.{view}
use echo_veil.Broker.Refine.{promise, Agree, IsLinked, Simulates, submit-Simulates}
use echo_veil.Broker.Serve.{get-Simulates, cancel-Simulates}

module _ (F : Type 0) where
  pub new_queue-IsLinked : (depth quota : ℕ) → IsLinked (new_queue {F = F} depth quota)
  unfolding new_queue view total listed lookup
  new_queue-IsLinked depth quota = ((tt, λ k. refl), refl)

  pub new_queue-IsFair : (depth quota : ℕ) → IsFair (promise (new_queue {F = F} depth quota))
  unfolding new_queue view total
  new_queue-IsFair depth quota = (tt, tt, omega arith)

module _ {F : Type 0} where
  respond-Simulates :
      (c : Call F) (q : FairQueue F) → IsLinked q → IsFair (promise q) → Simulates c q
  unfolding view lookup listed total
  respond-Simulates (submitting job) q linked fair = submit-Simulates q job linked
  respond-Simulates (cancelling job) q linked fair = cancel-Simulates q job linked fair
  respond-Simulates getting q linked fair = get-Simulates q linked fair
  respond-Simulates closing q linked fair =
      unfold respond in unfold close in unfold reply in (refl, refl, ((tt, λ k. refl), refl))

  pub run-promised :
      (cs : List (Call F)) (q : FairQueue F)
      → IsLinked q
      → IsFair (promise q)
      → AreNew cs (promise q)
      → answers cs q ≡ replies cs (promise q)
  unfolding answers replies
  run-promised [] q linked fair new = refl
  run-promised (c ∷ cs) q linked fair new =
      let (said, left, kept) = respond-Simulates c q linked fair in
      let next = subst (AreNew cs) (sym left) new.1 in
      let order = subst IsFair (sym left) (reply-IsFair c (promise q) new.0 fair) in
      cc (said, left, run-promised cs (respond c q).1 kept order next)

  -- Whatever the callers submit and cancel, and however the worker's calls come in between, the queue
  -- answers like a round-robin order of the waiting callers with the same bounds, as long as no job is
  -- submitted while it waits.
  pub answers-promised :
      (depth quota : ℕ) (cs : List (Call F))
      → AreNew cs (promise (new_queue depth quota))
      → answers cs (new_queue depth quota) ≡ replies cs (promise (new_queue depth quota))
  answers-promised depth quota cs new =
      run-promised cs (new_queue depth quota) (new_queue-IsLinked F depth quota)
        (new_queue-IsFair F depth quota) new

  limits-reply :
      (c : Call F) (s : Turns F) → ((reply c s).1.depth ≡ s.depth) × ((reply c s).1.quota ≡ s.quota)
  unfolding reply admit
  limits-reply (submitting job) s = ground arith
  limits-reply (cancelling job) s = (refl, refl)
  limits-reply getting s = (refl, refl)
  limits-reply closing s = (refl, refl)

  limits-respond :
      (c : Call F) (q : FairQueue F)
      → IsLinked q
      → IsFair (promise q)
      → ((respond c q).1.depth ≡ q.depth) × ((respond c q).1.per_caller_quota ≡ q.per_caller_quota)
  limits-respond c q linked fair =
      let left = (respond-Simulates c q linked fair).1 in
      (
        ap (λ s. s.depth) left ∙ (limits-reply c (promise q)).0,
        ap (λ s. s.quota) left ∙ (limits-reply c (promise q)).1,
      )

  pub after-Held :
      (cs : List (Call F)) (q : FairQueue F)
      → IsLinked q
      → IsFair (promise q)
      → AreNew cs (promise q)
      → IsLinked (after cs q)
        × IsFair (promise (after cs q))
        × ((after cs q).depth ≡ q.depth)
        × ((after cs q).per_caller_quota ≡ q.per_caller_quota)
  unfolding after
  after-Held [] q linked fair new = (linked, fair, refl, refl)
  after-Held (c ∷ cs) q linked fair new =
      let (said, left, kept) = respond-Simulates c q linked fair in
      let order = subst IsFair (sym left) (reply-IsFair c (promise q) new.0 fair) in
      let same = limits-respond c q linked fair in
      let rest = after-Held cs (respond c q).1 kept order (subst (AreNew cs) (sym left) new.1) in
      (rest.0, rest.1, rest.2 ∙ same.0, rest.3 ∙ same.1)

  -- After any calls from a new queue, no job submitted while it waits: the deque names each caller with
  -- a queue in the dictionary once and no other, the counter is the number of jobs in the queues, at
  -- most the depth, and each of these callers has at least one job and at most the quota, its own and
  -- each once.
  pub after-bounds :
      (depth quota : ℕ) (cs : List (Call F))
      → AreNew cs (promise (new_queue depth quota))
      → let q = after cs (new_queue depth quota) in
        Agree q.callers q.queues
        × (q.queued ≡ total (view q.callers q.queues))
        × (q.queued ≤ depth)
        × Lanes quota (view q.callers q.queues)
  unfolding new_queue
  after-bounds depth quota cs new =
      let q = after cs (new_queue depth quota) in
      let held =
        after-Held cs (new_queue depth quota) (new_queue-IsLinked F depth quota)
          (new_queue-IsFair F depth quota) new in
      (
        held.0.0,
        held.0.1,
        omega (arith, held.0.1, held.1.2, held.2),
        subst (λ n. Lanes n (view q.callers q.queues)) held.3 held.1.1,
      )
