-- ===== src/Oracle.antt =====
-- src/echo_veil/oracle.py, with the in-memory index and archive, and caretaker.py. The shield is a
-- parameter. A method takes the oracle and returns its result, or the exception, beside the oracle
-- that the call leaves.
pub mod Forget
pub mod Gate
pub mod Keys
pub mod Keeping
use echo_veil.Base.{
  ℕ, Bool, true, false, not, ◌&&◌, ◌||◌, List, [], ◌∷◌, Option, none, some, String, Result, ok, err,
  ◌>>=◌, ◌>>◌, gated, type_error, value_error, runtime_error, guard, eqb, if◌then◌else◌, length,
  count, map,
}
use echo_veil.Base.Dict.{Dict, lookup, has, values}
use echo_veil.Base.Int.{ℤ, pos}
use echo_veil.Base.Floats.{Float, Number, float, to_float, fmin, fmax, fneg}
use echo_veil.Vectors.{
  Vector, Numpy, as_vector, centroid, cosine_similarity, proximity_score, time_decay,
}
use echo_veil.Vine.{
  Vine, Protected, Codec, VineState, active, twilight, evicted, anchor_snapshot, archive_payload,
  age_hours, is_none,
}
use echo_veil.Workspace.Decay.{score_active_vine}
use echo_veil.Workspace.{Workspace, state_eq, prune_evicted, active_vines, live_count}
use echo_veil.Workspace.Cycle.{Report, run_decay_cycle}
use echo_veil.Drift.{DriftDetector, observe, is_drifting}
use echo_veil.Archive.{
  MetadataIndex, IndexEntry, Anchor, plain, shielded, upsert, search, valid_key,
}
use echo_veil.Archive.Cold.{store, discard}
use echo_veil.Confidence.{BandPolicy, ConfidenceBand, obscurity, classify}
use echo_veil.Conflict.{ConflictVine, FossilizedEcho}

-- A `CryptoShield`: its similarity, and its `reveal` where it has one.
pub record Shield (F : Type 0) : Type 0 where
  pub similarity : Vector F → Protected → Result (Number F)
  pub reveal : Protected → Result (Option (Vector F))

-- `Oracle`, without a storage backend.
pub record Oracle (F : Type 0) : Type 0 where
  pub workspace : Workspace F
  pub index : MetadataIndex F
  pub archive : Dict (List ℕ)
  pub drift : DriftDetector F
  pub conflicts : List (ConflictVine F)
  pub fossils : List (FossilizedEcho F)
  pub dimension : Option ℕ

-- `EvictionRecord`, as far as the in-memory tiers read it.
pub record EvictionRecord (F : Type 0) : Type 0 where
  pub key : String
  pub anchor : Anchor F
  pub kind : String
  pub payload : List ℕ

abbrev pub is_obscurity : ConfidenceBand → Bool
is_obscurity obscurity = true
is_obscurity _ = false

-- `_serialize_protected_payload`
unfoldable pub serialize_protected : Protected → Result (List ℕ)
serialize_protected p = elim p.json [
  | none ↦ err type_error
  | some bytes ↦ if eqb (length bytes) 0 then err value_error else ok bytes
]

-- `_validate_dimension`
unfoldable pub fits_oracle : {F : Type 0} → Option ℕ → Vector F → Bool
fits_oracle none v = true
fits_oracle (some n) v = eqb (length v) n

unfoldable pub establish : {F : Type 0} → Option ℕ → Vector F → Option ℕ
establish none v = some (length v)
establish (some n) v = some n

-- `GardenersReport`
pub record GardenersReport (F : Type 0) : Type 0 where
  pub thriving_vines : ℕ
  pub twilight_grove : ℕ
  pub knotted_branches : ℕ
  pub ancient_rings : ℕ
  pub memory_pressure : F

module _ {F : Type 0} ⦃fl : Float F⦄ where
  -- `Workspace.pressure`
  unfoldable pub pressure : Workspace F → F
  pressure w = fl.div (fl.of_int (pos (live_count w))) (fl.of_int (pos w.capacity))

  -- `gardeners_report`
  unfoldable pub gardeners_report :
      Workspace F → List (ConflictVine F) → List (FossilizedEcho F) → GardenersReport F
  gardeners_report w conflicts fossils = record {
    thriving_vines = count (λ v. state_eq v.state active) (values w.vines);
    twilight_grove = count (λ v. state_eq v.state twilight) (values w.vines);
    knotted_branches = count (λ c. not c.resolved) conflicts;
    ancient_rings = length fossils;
    memory_pressure = pressure w;
  }

  -- `check_generation_gate`
  unfoldable pub check_generation_gate : Number F → Bool → Result (BandPolicy F)
  check_generation_gate score override = do
    policy ← classify score
    guard (not (policy.gates_generation && (is_obscurity policy.band || not override))) gated
    ok policy

  -- `_protected_similarity`
  unfoldable pub protected_similarity : ⦃sh : Shield F⦄ → Vector F → Protected → Result F
  protected_similarity ⦃sh⦄ intent p = do
    raw ← sh.similarity intent p
    s ← to_float raw
    guard (fl.is_finite s) value_error
    guard
        (not (fl.lt s (fl.sub (fneg (fl.decimal 1 0)) (fl.decimal 1 12)))
          && not (fl.lt (fl.add (fl.decimal 1 0) (fl.decimal 1 12)) s))
        value_error
    ok (fmin (fl.decimal 1 0) (fmax (fneg (fl.decimal 1 0)) s))

  module _ ⦃np : Numpy F⦄ ⦃cd : Codec F⦄ ⦃sh : Shield F⦄ where
    -- `_score_vine`
    unfoldable pub score_vine : F → Vector F → Vine F → F → Result F
    score_vine time_constant intent v now = elim v.protected_anchor [
      | some p ↦ (do
        s ← protected_similarity intent p
        age ← age_hours v (float now)
        recency ← time_decay age time_constant
        ok (fl.add s recency))
      | none ↦ (do
        anchor ← if state_eq v.state twilight then anchor_snapshot v else ok v.anchor
        age ← age_hours v (float now)
        proximity_score intent anchor age time_constant)
    ]

    -- The record of an evicted vine.
    unfoldable pub prepare_record : Vine F → Result (EvictionRecord F)
    prepare_record v = elim v.protected_anchor [
      | some p ↦ (do
        payload ← serialize_protected p
        hint ← sh.reveal p
        ok (record {
          key = v.vine_id;
          anchor = shielded p;
          kind = "protected_anchor";
          payload = payload;
        }))
      | none ↦ (do
        a ← anchor_snapshot v
        ok (record {
          key = v.vine_id;
          anchor = plain a;
          kind = "anchor";
          payload = elim (archive_payload v) [
            | some bytes ↦ bytes
            | none ↦ cd.compress (cd.to_bytes a)
          ];
        }))
    ]

    unfoldable pub prepare_all : List (Vine F) → Result (List (EvictionRecord F))
    prepare_all [] = ok []
    prepare_all (v ∷ vs) =
        let rest = prepare_all vs in
        if state_eq v.state evicted then (do r ← prepare_record v; rs ← rest; ok (r ∷ rs)) else rest

    unfoldable pub finish_transfer :
        Result (Unit {0})
        → Oracle F
        → (Oracle F → Result (Unit {0}) × Oracle F)
        → Result (Unit {0}) × Oracle F
    finish_transfer (err e) o next = (err e, o)
    finish_transfer (ok u) o next = next o

    -- The loop that writes the prepared records to the archive and the index.
    unfoldable pub transfer : List (EvictionRecord F) → Oracle F → Result (Unit {0}) × Oracle F
    transfer [] o = (ok tt, o)
    transfer (r ∷ rs) o =
        let stored = store o.archive r.key r.payload in
        finish_transfer stored.0 (record o { archive = stored.1 })
          (λ p.
            let indexed = upsert p.index r.key r.anchor r.kind in
            finish_transfer indexed.0 (record p { index = indexed.1 }) (transfer rs))

    unfoldable pub prune_archived :
        List String → Result (Unit {0}) × Oracle F → Result (Unit {0}) × Oracle F
    prune_archived ids (err e, o) = (err e, o)
    prune_archived ids (ok u, o) =
        (ok u, record o { workspace = (prune_evicted o.workspace (some ids)).1 })

    unfoldable pub archive_prepared :
        Result (List (EvictionRecord F)) → Oracle F → Result (Unit {0}) × Oracle F
    archive_prepared (err e) o = (err e, o)
    archive_prepared (ok rs) o = prune_archived (map (λ r. r.key) rs) (transfer rs o)

    -- `_archive_pending_evictions`
    unfoldable pub archive_pending_evictions : Oracle F → Result (Unit {0}) × Oracle F
    archive_pending_evictions o = archive_prepared (prepare_all (values o.workspace.vines)) o

    -- `self.drift.observe(intent_vector)`
    unfoldable pub note_drift : Result (DriftDetector F) → Oracle F → Result (Unit {0}) × Oracle F
    note_drift (err e) o = (err e, o)
    note_drift (ok d) o = archive_pending_evictions (record o { drift = d })

    unfoldable pub after_cycle :
        Vector F → Result Report × Workspace F → Oracle F → Result Report × Oracle F
    after_cycle intent (err e, w) o = (err e, record o { workspace = w })
    after_cycle intent (ok report, w) o =
        let r = note_drift (observe o.drift intent) (record o { workspace = w }) in
        ((do done ← r.0; ok report), r.1)

    unfoldable pub observe_vector :
        Result (Vector F) → Oracle F → Number F → List (String × ℤ) → Result Report × Oracle F
    observe_vector (err e) o now cycles = (err e, o)
    observe_vector (ok intent) o now cycles =
        if not (fits_oracle o.dimension intent)
        then (err value_error, o)
        else after_cycle intent
            (run_decay_cycle o.workspace intent now cycles (
              score_active_vine o.workspace.time_constant
                (some (λ i v t. do s ← score_vine o.workspace.time_constant i v t; ok (float s)))))
            (record o { dimension = establish o.dimension intent })

    -- `observe`, at the time that the caller gave or the workspace read.
    unfoldable pub observe_intent :
        Oracle F → Vector F → Number F → List (String × ℤ) → Result Report × Oracle F
    observe_intent o intent now cycles = observe_vector (as_vector false intent) o now cycles

    -- `garden_centroid`: the anchors of the active vines, revealed where they are protected.
    unfoldable pub revealed_anchors : List (Vine F) → Result (List (Vector F))
    revealed_anchors [] = ok []
    revealed_anchors (v ∷ vs) = do
      a ←
          if is_none v.protected_anchor || not (eqb (length v.anchor) 0)
          then ok (some v.anchor)
          else elim v.protected_anchor [ none ↦ ok none | some p ↦ sh.reveal p ]
      rest ← revealed_anchors vs
      ok (elim a [ none ↦ rest | some x ↦ x ∷ rest ])

    unfoldable pub garden_centroid : Oracle F → Result (Option (Vector F))
    garden_centroid o = do
      anchors ← revealed_anchors (active_vines o.workspace)
      if eqb (length anchors) 0 then ok none else (do c ← centroid anchors; ok (some c))

  -- `forget`, where `live is not None` is that the workspace has the key. The material of the vine that the workspace gives up is cleared at the end, which no
  -- store sees.
  unfoldable pub forget : Oracle F → String → Result Bool × Oracle F
  forget o k = if not (valid_key k) then (err value_error, o) else (
    (do
      removed_index ← (echo_veil.Archive.remove o.index k).0
      removed_archive ← (discard o.archive k).0
      removed ← (echo_veil.Workspace.remove o.workspace k).0
      ok (removed_index || removed_archive || has k o.workspace.vines)),
    record o {
      index = (echo_veil.Archive.remove o.index k).1;
      archive = (discard o.archive k).1;
      workspace = (echo_veil.Workspace.remove o.workspace k).1;
    },
  )
