-- ===== src/Oracle/Keeping.antt =====
-- About the keys of the three tiers of oracle.py, workspace, index and archive, through
-- `observe_intent` and what it calls.
use echo_veil.Base.{
  ℕ, ◌≡◌, refl, sym, subst, ◌⊎◌, inl, inr, true, false, some, String, Result, ok, err, arith, All,
  List, [], ◌∷◌, map, Bool-cases, Result-cases,
}
use text.Mathlib.Text.{◌==◌}
use text.Mathlib.TextEquality.{eq_iff}
use echo_veil.Base.Int.{ℤ}
use echo_veil.Base.Dict.{Dict, has}
use echo_veil.Base.Floats.{Float, Number}
use echo_veil.Vectors.{Vector, Numpy, as_vector}
use echo_veil.Vine.{Vine, Codec}
use echo_veil.Workspace.{Workspace, listed, prunable, prune_ids, prune_evicted}
use echo_veil.Workspace.Cycle.{Report}
use echo_veil.Drift.{DriftDetector}
use echo_veil.Archive.{MetadataIndex, upsert, entry_for}
use echo_veil.Archive.Cold.{store}
use echo_veil.Oracle.{
  Oracle, EvictionRecord, Shield, finish_transfer, transfer, fits_oracle, prune_archived,
  archive_prepared, archive_pending_evictions, note_drift, after_cycle, observe_vector,
  observe_intent,
}
use echo_veil.Oracle.Keys.{has-put, has-put_same, has-without_all, has-run_decay_cycle}

-- What a transfer of records does to the oracle: the workspace stays, the lower tiers drop nothing, and
-- where it raises nothing each record stands in both.
pub record Transferred {F : Type 0} (rs : List (EvictionRecord F)) (o : Oracle F)
    (r : Result (Unit {0}) × Oracle F) : Type 0 where
  pub same_workspace : r.1.workspace ≡ o.workspace
  pub keeps_archive : (k : String) → has k o.archive ≡ true → has k r.1.archive ≡ true
  pub keeps_index : (k : String) → has k o.index.entries ≡ true → has k r.1.index.entries ≡ true
  pub complete :
      r.0 ≡ ok tt
      → All (λ x. (has x.key r.1.archive ≡ true) × (has x.key r.1.index.entries ≡ true)) rs

has-store :
    (k key : String) (payload : List ℕ) (d : Dict (List ℕ))
    → has k d ≡ true
    → has k (store d key payload).1 ≡ true
unfolding store
has-store k key payload d h = ground (arith, has-put key k payload d h)

has-store_same :
    (key : String) (payload : List ℕ) (d : Dict (List ℕ)) (u : Unit {0})
    → (store d key payload).0 ≡ ok u
    → has key (store d key payload).1 ≡ true
unfolding store
has-store_same key payload d u h = ground (arith, has-put_same key payload d)

-- The oracle holds the memory: in the workspace, or in the archive and in the index.
abbrev pub Keeps : {F : Type 0} → String → Oracle F → Type 0
Keeps k o =
    (has k o.workspace.vines ≡ true) ⊎ ((has k o.archive ≡ true) × (has k o.index.entries ≡ true))

-- Only requested ids are pruned.
pruned_requested :
    {F : Type 0} (k : String) (ids : List String) (d : Dict (Vine F))
    → listed k (prune_ids (some ids) d) ≡ true
    → listed k ids ≡ true
unfolding prune_ids prunable listed
pruned_requested k ids [] h = cc
pruned_requested k ids ((j, v) ∷ d) h = elim (Bool-cases (prunable (some ids) j v)) [
  | inr e ↦ pruned_requested k ids d (rw e at h)
  | inl e ↦ elim (Bool-cases (j == k)) [
    | inl q ↦ (let same = (eq_iff j k).0 q in ground arith)
    | inr q ↦ pruned_requested k ids d (rw q at (rw e at h))
  ]
]

requested_stored :
    {F : Type 0} (k : String) (o : Oracle F) (rs : List (EvictionRecord F))
    → listed k (map (λ r. r.key) rs) ≡ true
    → All (λ x. (has x.key o.archive ≡ true) × (has x.key o.index.entries ≡ true)) rs
    → (has k o.archive ≡ true) × (has k o.index.entries ≡ true)
unfolding listed
requested_stored k o [] h a = cc
requested_stored k o (x ∷ rs) h a = elim (Bool-cases (x.key == k)) [
  | inl q ↦
      subst (λ j. (has j o.archive ≡ true) × (has j o.index.entries ≡ true)) ((eq_iff x.key k).0 q)
        a.0
  | inr q ↦ requested_stored k o rs (rw q at h) a.1
]

prune_archived-Keeps :
    {F : Type 0} ⦃fl : Float F⦄ ⦃np : Numpy F⦄ ⦃cd : Codec F⦄ ⦃sh : Shield F⦄ (k : String)
    (rs : List (EvictionRecord F)) (o : Oracle F) (r : Result (Unit {0}) × Oracle F)
    → Transferred rs o r
    → Keeps k o
    → Keeps k (prune_archived (map (λ x. x.key) rs) r).1
unfolding prune_archived prune_evicted
prune_archived-Keeps k rs o r t (inr (a, i)) = inr (archive_kept, index_kept)
  where
    archive_kept : has k (prune_archived (map (λ x. x.key) rs) r).1.archive ≡ true
    archive_kept = ground (arith, t.keeps_archive k a)

    index_kept : has k (prune_archived (map (λ x. x.key) rs) r).1.index.entries ≡ true
    index_kept = ground (arith, t.keeps_index k i)
prune_archived-Keeps k rs o (err e, p) t (inl h) =
    inl (subst (λ w. has k w.vines ≡ true) (sym t.same_workspace) h)
prune_archived-Keeps k rs o (ok u, p) t (inl h) = elim (Bool-cases (listed k ids)) [
  | inl e ↦
      inr (requested_stored k p rs (pruned_requested k _ p.workspace.vines e) (t.complete refl))
  | inr e ↦ inl (has-without_all k ids p.workspace.vines here e)
]
  where
    ids : List String
    ids = prune_ids (some (map (λ x. x.key) rs)) p.workspace.vines

    here : has k p.workspace.vines ≡ true
    here = subst (λ w. has k w.vines ≡ true) (sym t.same_workspace) h

module _ {F : Type 0} ⦃fl : Float F⦄ ⦃np : Numpy F⦄ ⦃cd : Codec F⦄ ⦃sh : Shield F⦄ where
  has-upsert :
      (k : String) (m : MetadataIndex F) (x : EvictionRecord F)
      → has k m.entries ≡ true
      → has k (upsert m x.key x.anchor x.kind).1.entries ≡ true
  unfolding upsert
  has-upsert k m x h = elim (Result-cases (entry_for m x.key x.anchor x.kind)) [
    | inl (s, p) ↦ rw (p, upsert) (has-put x.key k _ m.entries h)
    | inr (e, p) ↦ rw (p, upsert) h
  ]

  has-upsert_same :
      (m : MetadataIndex F) (x : EvictionRecord F) (u : Unit {0})
      → (upsert m x.key x.anchor x.kind).0 ≡ ok u
      → has x.key (upsert m x.key x.anchor x.kind).1.entries ≡ true
  unfolding upsert
  has-upsert_same m x u h = elim (Result-cases (entry_for m x.key x.anchor x.kind)) [
    | inl (s, p) ↦ rw (p, upsert) (has-put_same x.key _ m.entries)
    | inr (e, p) ↦ (let h' = rw (p, upsert) at h in cc)
  ]

  finish-Transferred :
      (rs : List (EvictionRecord F)) (o p : Oracle F) (r : Result (Unit {0}))
      (next : Oracle F → Result (Unit {0}) × Oracle F)
      → p.workspace ≡ o.workspace
      → ((k : String) → has k o.archive ≡ true → has k p.archive ≡ true)
      → ((k : String) → has k o.index.entries ≡ true → has k p.index.entries ≡ true)
      → ((u : Unit {0}) → r ≡ ok u → Transferred rs o (next p))
      → Transferred rs o (finish_transfer r p next)
  unfolding finish_transfer
  finish-Transferred rs o p (err e) next w a i h = record {
    same_workspace = w;
    keeps_archive = a;
    keeps_index = i;
    complete = λ c. cc c;
  }
  finish-Transferred rs o p (ok u) next w a i h = h u refl

  transfer-Transferred :
      (rs : List (EvictionRecord F)) (o : Oracle F) → Transferred rs o (transfer rs o)
  unfolding transfer
  transfer-Transferred [] o = record {
    same_workspace = refl;
    keeps_archive = λ k h. h;
    keeps_index = λ k h. h;
    complete = λ c. tt;
  }
  transfer-Transferred (x ∷ rs) o =
      finish-Transferred (x ∷ rs) o p _ _ refl (λ k h. has-store k x.key x.payload o.archive h)
        (λ k h. h)
        (λ u stored.
          finish-Transferred (x ∷ rs) o q _ _ refl (λ k h. has-store k x.key x.payload o.archive h)
            (λ k h. has-upsert k o.index x h)
            (λ v indexed.
              let t = transfer-Transferred rs q in
              record {
                same_workspace = t.same_workspace;
                keeps_archive = λ k h. t.keeps_archive k (has-store k x.key x.payload o.archive h);
                keeps_index = λ k h. t.keeps_index k (has-upsert k o.index x h);
                complete = λ c. (
                  (
                    t.keeps_archive x.key (has-store_same x.key x.payload o.archive u stored),
                    t.keeps_index x.key (has-upsert_same o.index x v indexed),
                  ),
                  t.complete c,
                );
              }))
    where
      p : Oracle F
      p = record o { archive = (store o.archive x.key x.payload).1 }

      q : Oracle F
      q = record p { index = (upsert o.index x.key x.anchor x.kind).1 }

  archive_prepared-Keeps :
      (k : String) (o : Oracle F) (r : Result (List (EvictionRecord F)))
      → Keeps k o
      → Keeps k (archive_prepared r o).1
  unfolding archive_prepared
  archive_prepared-Keeps k o (err e) h = h
  archive_prepared-Keeps k o (ok rs) h =
      prune_archived-Keeps k rs o (transfer rs o) (transfer-Transferred rs o) h

  note_drift-Keeps :
      (k : String) (o : Oracle F) (r : Result (DriftDetector F))
      → Keeps k o
      → Keeps k (note_drift r o).1
  unfolding note_drift archive_pending_evictions
  note_drift-Keeps k o (err e) h = h
  note_drift-Keeps k o (ok d) h = archive_prepared-Keeps k (record o { drift = d }) _ h

  after_cycle-Keeps :
      (k : String) (intent : Vector F) (r : Result Report × Workspace F) (o : Oracle F)
      → Keeps k (record o { workspace = r.1 })
      → Keeps k (after_cycle intent r o).1
  unfolding after_cycle
  after_cycle-Keeps k intent (err e, w) o h = h
  after_cycle-Keeps k intent (ok report, w) o h =
      note_drift-Keeps k (record o { workspace = w }) _ h

  observe_vector-Keeps :
      (o : Oracle F) (r : Result (Vector F)) (now : Number F) (cycles : List (String × ℤ))
      (k : String)
      → Keeps k o
      → Keeps k (observe_vector r o now cycles).1
  unfolding observe_vector
  observe_vector-Keeps o (err e) now cycles k h = h
  observe_vector-Keeps o (ok v) now cycles k h = elim (Bool-cases (fits_oracle o.dimension v)) [
    | inr e ↦ rw (e, observe_vector) h
    | inl e ↦
        rw (e, observe_vector)
          (after_cycle-Keeps k v _ _ (elim h [
            | inl here ↦ inl (has-run_decay_cycle k o.workspace v now cycles _ here)
            | inr below ↦ inr below
          ]))
  ]

  -- Observing an intent loses no memory: a key that the oracle held before, in the workspace or in both
  -- lower tiers, it holds after, whether the call returns a report or raises anywhere on its way.
  pub observe_intent-Keeps :
      (o : Oracle F) (intent : Vector F) (now : Number F) (cycles : List (String × ℤ)) (k : String)
      → Keeps k o
      → Keeps k (observe_intent o intent now cycles).1
  unfolding observe_intent
  observe_intent-Keeps o intent now cycles k h =
      observe_vector-Keeps o (as_vector false intent) now cycles k h
