-- ===== src/Broker/Refine.antt =====
-- About `submit` of the queue of agent_broker.py, against the abstract round robin of Promise.
use echo_veil.Base.{
  ◌≡◌, refl, sym, ap, ◌∙◌, inl, inr, Bool, true, false, not, List, [], ◌∷◌, ◌++◌, Option, none,
  String, arith, if◌then◌else◌, leb, length, filter, Bool-cases,
}
use text.Mathlib.Text.{◌==◌}
use text.Mathlib.TextEquality.{eq_iff}
use echo_veil.Base.Dict.{Dict, lookup, has, put, without, listed, lookup-put, lookup-without}
use echo_veil.Broker.{
  Job, FairQueue, lane, submit, enlist, Call, Answer, submitting, respond, submitted,
}
use echo_veil.Broker.Turns.{Turns, total, enqueue, admit, reply}
use echo_veil.Broker.Lanes.{lane_absent, lane_present, put-append}
use echo_veil.Broker.Promise.{total-enqueue}
use echo_veil.Broker.View.{
  NoRepeat, listed-append, listed-filter_ne, append-NoRepeat, filter-NoRepeat, view, lookup-view,
  lane-put, view-put, view-put_other, view-append,
}

module _ {F : Type 0} where
  -- What a queue promises: the jobs of its callers, in their order.
  abbrev pub promise : FairQueue F → Turns F
  promise q = record {
    depth = q.depth;
    quota = q.per_caller_quota;
    lanes = view q.callers q.queues;
    closed = q.closed;
  }

  -- The deque of callers and the dictionary of queues agree.
  abbrev pub Agree : List String → Dict (List (Job F)) → Type 0
  Agree ks d = NoRepeat ks × ((k : String) → listed k ks ≡ has k d)

  abbrev pub IsLinked : FairQueue F → Type 0
  IsLinked q = Agree q.callers q.queues × (q.queued ≡ total (view q.callers q.queues))

  module _ (ks : List String) (d : Dict (List (Job F))) (agree : Agree ks d) where
    pub absent : (k : String) → listed k ks ≡ false → lookup k d ≡ none
    absent k h = ground (arith, agree.1 k)

    pub lane-view : (k : String) → lane k (view ks d) ≡ lane k d
    lane-view k = elim (Bool-cases (listed k ks)) [
      | inl e ↦ lane_present k (lane k d) (view ks d) (rw e at (lookup-view k ks d))
      | inr e ↦
          lane_absent k (view ks d) (rw e at (lookup-view k ks d))
          ∙ sym (lane_absent k d (absent k e))
    ]

    -- A job of a caller who did not wait, and of one who did.
    view_new :
        (job : Job F)
        → listed job.caller ks ≡ false
        → view (ks ++ job.caller ∷ []) (put job.caller (lane job.caller d ++ job ∷ []) d)
          ≡ enqueue job (view ks d)
    unfolding enqueue
    view_new job h =
        let jobs : List (Job F) = lane job.caller d ++ job ∷ [] in
        let unknown = rw h at (lookup-view job.caller ks d) in
        view-append job.caller ks (put job.caller jobs d)
        ∙ rw
            (
              view-put_other job.caller jobs ks d h,
              lane-put job.caller job.caller jobs d,
              (eq_iff job.caller job.caller).1 refl,
              lane-view job.caller,
            )
            (sym (put-append job.caller jobs (view ks d) unknown))

    view_old :
        (job : Job F)
        → listed job.caller ks ≡ true
        → view ks (put job.caller (lane job.caller d ++ job ∷ []) d) ≡ enqueue job (view ks d)
    unfolding enqueue
    view_old job h =
        rw (lane-view job.caller)
          (view-put job.caller (lane job.caller d ++ job ∷ []) ks d agree.0 h)

    put_new-Agree :
        (k : String) (jobs : List (Job F))
        → listed k ks ≡ false
        → Agree (ks ++ k ∷ []) (put k jobs d)
    unfolding listed
    put_new-Agree k jobs h = (
      append-NoRepeat k ks agree.0 h,
      λ j. ground (arith, agree.1 j, listed-append j ks (k ∷ []), lookup-put k j jobs d),
    )

    pub put_old-Agree :
        (k : String) (jobs : List (Job F)) → listed k ks ≡ true → Agree ks (put k jobs d)
    put_old-Agree k jobs h =
        (agree.0, λ j. ground (arith, agree.1 j, agree.1 k, eq_iff k j, lookup-put k j jobs d))

    pub without-Agree : (k : String) → Agree (filter (λ j. not (j == k)) ks) (without k d)
    without-Agree k = (
      filter-NoRepeat k ks agree.0,
      λ j. ground (arith, agree.1 j, listed-filter_ne j k ks, lookup-without k j d),
    )

  -- One call has the answer that is promised, and leaves the queue as promised.
  abbrev pub Simulates : Call F → FairQueue F → Type 0
  Simulates c q =
      ((respond c q).0 ≡ (reply c (promise q)).0)
      × (promise (respond c q).1 ≡ (reply c (promise q)).1)
      × IsLinked (respond c q).1

  enlist_lem :
      (q : FairQueue F) (job : Job F)
      → IsLinked q
      → (promise (enlist q job) ≡ record (promise q) { lanes = enqueue job (promise q).lanes })
        × IsLinked (enlist q job)
  unfolding enlist
  enlist_lem q job linked = elim (Bool-cases (listed job.caller q.callers)) [
    | inl e ↦
        (let known = sym (linked.0.1 job.caller) ∙ e in
          let same = view_old q.callers q.queues linked.0 job e in
          let count = total-enqueue job (view q.callers q.queues) in
          rw known (
            ap (λ l. record (promise q) { lanes = l }) same,
            (
              put_old-Agree q.callers q.queues linked.0 job.caller
                  (lane job.caller q.queues ++ job ∷ []) e,
              omega (arith, linked.1, count, ap total same),
            ),
          ))
    | inr e ↦
        (let unknown = sym (linked.0.1 job.caller) ∙ e in
          let same = view_new q.callers q.queues linked.0 job e in
          let count = total-enqueue job (view q.callers q.queues) in
          rw unknown (
            ap (λ l. record (promise q) { lanes = l }) same,
            (
              put_new-Agree q.callers q.queues linked.0 job.caller
                  (lane job.caller q.queues ++ job ∷ []) e,
              omega (arith, linked.1, count, ap total same),
            ),
          ))
  ]

  -- An outcome and the promised one.
  abbrev SameSubmit : Option String × FairQueue F → Option String × Turns F → Type 0
  SameSubmit r s =
      (◌≡◌ {A = Answer F} (submitted r.0) (submitted s.0)) × (promise r.1 ≡ s.1) × IsLinked r.1

  same_branch :
      (t u : Bool)
      → t ≡ u
      → (a b : Option String × FairQueue F) (c d : Option String × Turns F) → SameSubmit a c
      → SameSubmit b d
      → SameSubmit (if t then a else b) (if u then c else d)
  same_branch true true e a b c d h k = h
  same_branch true false e a b c d h k = cc
  same_branch false true e a b c d h k = cc
  same_branch false false e a b c d h k = k

  pub submit-Simulates : (q : FairQueue F) (job : Job F) → IsLinked q → Simulates (submitting job) q
  unfolding respond submit reply admit
  submit-Simulates q job linked =
      let (same, after) = enlist_lem q job linked in
      let jobs = sym (lane-view q.callers q.queues linked.0 job.caller) in
      same_branch q.closed q.closed refl _ _ _ _ (refl, refl, linked)
        (same_branch (leb q.depth q.queued) _ (ap (leb q.depth) linked.1) _ _ _ _
          (refl, refl, linked)
          (same_branch (leb q.per_caller_quota (length (lane job.caller q.queues))) _
            (ap (λ l. leb q.per_caller_quota (length l)) jobs) _ _ _ _ (refl, refl, linked)
            (refl, same, after)))
