-- ===== src/Broker/Waiting.antt =====
-- About the place of a waiting caller in the order of the queue of agent_broker.py.
use echo_veil.Base.{
  ℕ, suc, ◌≤◌, ◌<◌, ◌≡◌, refl, ap, ◌⊎◌, inl, inr, Bool, true, false, not, ◌||◌, List, [], ◌∷◌, ◌++◌,
  some, String, ok, arith, if◌then◌else◌, length, any, count, All, Bool-cases,
}
use text.Mathlib.Text.{◌==◌}
use text.Mathlib.TextEquality.{eq_iff}
use echo_veil.Base.Dict.{Dict, lookup, has, put, without}
use echo_veil.Broker.{
  Job, lane, drop_job, Call, Answer, submitting, cancelling, getting, closing, got, new_queue,
  after, answers,
}
use echo_veil.Broker.Turns.{
  Turns, enqueue, admit, serve, settle, withdraw, reply, replies, AreNew, IsFair, Lanes,
}
use echo_veil.Broker.Promise.{reply-IsFair}
use echo_veil.Broker.View.{view, lookup-view}
use echo_veil.Broker.Refine.{promise}
use echo_veil.Broker.Answers.{run-promised, after-Held, new_queue-IsLinked, new_queue-IsFair}

-- How many keys stand before one.
unfoldable pub place {ℓ} : {V : Type ℓ} → String → Dict V → ℕ
place k [] = 0
place k ((j, v) ∷ d) = let further = suc (place k d) in if j == k then 0 else further

module _ {ℓ} {V : Type ℓ} where
  place-put :
      (k j : String) (v : V) (d : Dict V)
      → has k d ≡ true
      → (place k (put j v d) ≡ place k d) × (has k (put j v d) ≡ true)
  unfolding place put lookup
  place-put k j v [] h = cc
  place-put k j v ((i, w) ∷ d) h = ground (arith, eq_iff i k, eq_iff i j, place-put k j v d)

  place-append :
      (k : String) (d e : Dict V)
      → has k d ≡ true
      → (place k (d ++ e) ≡ place k d) × (has k (d ++ e) ≡ true)
  unfolding place lookup
  place-append k [] e h = cc
  place-append k ((i, w) ∷ d) e h = ground (arith, place-append k d e)

  place-without :
      (k j : String) (d : Dict V)
      → has k d ≡ true
      → j == k ≡ false
      → (place k (without j d) ≤ place k d) × (has k (without j d) ≡ true)
  unfolding place without lookup
  place-without k j [] h n = cc
  place-without k j ((i, w) ∷ d) h n =
      ground (arith, eq_iff i k, eq_iff i j, eq_iff j k, place-without k j d)

  place-lt-length : (k : String) (d : Dict V) → has k d ≡ true → place k d < length d
  unfolding place lookup
  place-lt-length k [] h = cc
  place-lt-length k ((i, w) ∷ d) h = ground (arith, place-lt-length k d)

or_right : (t u : Bool) → u ≡ true → t || u ≡ true
or_right true u h = refl
or_right false u h = h

module _ {F : Type 0} where
  -- A call that neither closes the queue nor cancels a job of the caller.
  unfoldable pub spares : String → Call F → Bool
  spares k (submitting job) = true
  spares k (cancelling job) = not (job.caller == k)
  spares k getting = true
  spares k closing = false

  unfoldable pub is_get : Call F → Bool
  is_get (submitting job) = false
  is_get (cancelling job) = false
  is_get getting = true
  is_get closing = false

  -- The answer is a job of the caller.
  unfoldable pub serves : String → Answer F → Bool
  serves k (got (ok (some job))) = job.caller == k
  serves k _ = false

  length-view : (ks : List String) (d : Dict (List (Job F))) → length (view ks d) ≡ length ks
  unfolding view
  length-view [] d = refl
  length-view (k ∷ ks) d = ap suc (length-view ks d)

  settle-place :
      (k j : String) (jobs : List (Job F)) (d : Dict (List (Job F)))
      → has k d ≡ true
      → j == k ≡ false
      → (place k (settle j jobs d) ≤ place k d) × (has k (settle j jobs d) ≡ true)
  unfolding settle
  settle-place k j [] d h n = place-without k j d h n
  settle-place k j (job ∷ jobs) d h n = ground (arith, place-put k j (job ∷ jobs) d)

  withdraw-place :
      (k : String) (job : Job F) (d : Dict (List (Job F)))
      → has k d ≡ true
      → job.caller == k ≡ false
      → (place k (withdraw job d).1 ≤ place k d) × (has k (withdraw job d).1 ≡ true)
  unfolding withdraw
  withdraw-place k job d h n =
      ground (arith, settle-place k job.caller (drop_job job (lane job.caller d)) d h n)

  admit-place :
      (k : String) (job : Job F) (s : Turns F)
      → has k s.lanes ≡ true
      → (place k (admit s job).1.lanes ≡ place k s.lanes) × (has k (admit s job).1.lanes ≡ true)
  unfolding admit enqueue
  admit-place k job s h =
      ground (arith, place-put k job.caller (lane job.caller s.lanes ++ job ∷ []) s.lanes h)

  -- The head is served, and the others come nearer.
  serve-place :
      (quota : ℕ) (k : String) (d : Dict (List (Job F)))
      → Lanes quota d
      → has k d ≡ true
      → (serves k (got (ok (serve d).0)) ≡ true)
        ⊎ ((suc (place k (serve d).1) ≡ place k d) × (has k (serve d).1 ≡ true))
  unfolding serve serves place lookup
  serve-place quota k [] l h = cc
  serve-place quota k ((j, []) ∷ d) l h = absurd (omega (arith, l.0.0))
  serve-place quota k ((j, job ∷ []) ∷ d) l h = elim (Bool-cases (j == k)) [
    | inl e ↦ inl (rw l.0.2.0 e)
    | inr e ↦ inr (ground arith)
  ]
  serve-place quota k ((j, job ∷ next ∷ rest) ∷ d) l h = elim (Bool-cases (j == k)) [
    | inl e ↦ inl (rw l.0.2.0 e)
    | inr e ↦ inr (ground (arith, place-append k d ((j, next ∷ rest) ∷ [])))
  ]

  replies-serve :
      (k : String) (cs : List (Call F)) (s : Turns F)
      → IsFair s
      → AreNew cs s
      → has k s.lanes ≡ true
      → All (λ c. spares k c ≡ true) cs
      → place k s.lanes < count is_get cs
      → any (serves k) (replies cs s) ≡ true
  unfolding replies spares is_get serves
  replies-serve k [] s fair new h calm enough = absurd (omega arith)
  replies-serve k (submitting job ∷ cs) s fair new h calm enough =
      let (same, still) = admit-place k job s h in
      let order = reply-IsFair (submitting job) s new.0 fair in
      replies-serve k cs (reply (submitting job) s).1 order new.1 still calm.1 (omega arith)
  replies-serve k (cancelling job ∷ cs) s fair new h calm enough =
      let other : job.caller == k ≡ false = ground arith in
      let (nearer, still) = withdraw-place k job s.lanes h other in
      let order = reply-IsFair (cancelling job) s new.0 fair in
      replies-serve k cs (reply (cancelling job) s).1 order new.1 still calm.1 (omega arith)
  replies-serve k (getting ∷ cs) s fair new h calm enough =
      let order = reply-IsFair getting s new.0 fair in
      elim (serve-place s.quota k s.lanes fair.1 h) [
        | inl e ↦ rw e refl
        | inr (nearer, still) ↦
            or_right _ _
              (replies-serve k cs (reply getting s).1 order new.1 still calm.1 (omega arith))
      ]
  replies-serve k (closing ∷ cs) s fair new h calm enough = cc (calm.0)

  -- A caller with a job in the queue is served: among calls that neither close the queue nor cancel
  -- one of its jobs, and submit no job that still waits, as many calls of `get` as there are callers
  -- in the deque bring it a job, whatever is submitted and cancelled in between.
  pub answers-serve :
      (depth quota : ℕ) (past cs : List (Call F)) (k : String)
      → AreNew past (promise (new_queue depth quota))
      → AreNew cs (promise (after past (new_queue depth quota)))
      → has k (after past (new_queue depth quota)).queues ≡ true
      → All (λ c. spares k c ≡ true) cs
      → length (after past (new_queue depth quota)).callers ≤ count is_get cs
      → any (serves k) (answers cs (after past (new_queue depth quota))) ≡ true
  answers-serve depth quota past cs k before new h calm enough =
      let q = after past (new_queue depth quota) in
      let held =
        after-Held past (new_queue depth quota) (new_queue-IsLinked F depth quota)
          (new_queue-IsFair F depth quota) before in
      let waits : has k (view q.callers q.queues) ≡ true =
        ground (arith, lookup-view k q.callers q.queues, held.0.0.1 k) in
      rw (run-promised cs q held.0 held.1 new) (
        replies-serve k cs (promise q) held.1 new waits calm (
          omega (
            arith,
            place-lt-length k (view q.callers q.queues) waits,
            length-view q.callers q.queues,
          )))
