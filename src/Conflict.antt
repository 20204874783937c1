-- ===== src/Conflict.antt =====
-- src/echo_veil/conflict.py: conflicts, fossils and their resurrection. The times that the code reads
-- are arguments; a method that changes its object returns it beside the result.
pub mod Fossils
use echo_veil.Base.{
  ℕ, Bool, true, false, not, ◌&&◌, ◌||◌, List, [], ◌∷◌, ◌++◌, map, Result, ok, err, ◌>>=◌, ◌>>◌,
  value_error, guard, leb, if◌then◌else◌, length, all,
}
use echo_veil.Base.Texts.{Text, codes, is_space}
use echo_veil.Base.Floats.{Float, Number, float, to_float, fabs}
use echo_veil.Json.{Value, Fields, text, real, seq, dict, field, end, to_items}
use echo_veil.Json.Print.{print, utf8}
use echo_veil.Vectors.{feq}

abbrev pub fossil_max_bytes : ℕ
fossil_max_bytes = 2048

-- `format(x, ".3f")`
pub record Format (F : Type 0) : Type 0 where
  pub fixed3 : F → Text

-- `ConflictVine`
pub record ConflictVine (F : Type 0) : Type 0 where
  pub topic : Text
  pub claim_a : Text
  pub claim_b : Text
  pub strength_a : F
  pub strength_b : F
  pub created_at : F
  pub resolved : Bool

-- `FossilizedEcho`
pub record FossilizedEcho (F : Type 0) : Type 0 where
  pub topic : Text
  pub summary : Text
  pub timeline : List (Fields F)
  pub created_at : F

-- `_non_empty_text`
unfoldable pub non_empty_text : Text → Result Text
non_empty_text s = do guard (not (all is_space s)) value_error; ok s

module _ {F : Type 0} ⦃fl : Float F⦄ where
  abbrev pub baseline : F
  baseline = fl.decimal 55 2

  -- `_strength`
  unfoldable pub strength : Number F → Result F
  strength value = do
    x ← to_float value
    guard (fl.is_finite x && (fl.le (fl.decimal 0 0) x && fl.le x (fl.decimal 1 0))) value_error
    ok x

  -- `_timestamp`
  unfoldable pub timestamp : Number F → Result F
  timestamp value = do
    x ← to_float value
    guard (fl.is_finite x && not (fl.lt x (fl.decimal 0 0))) value_error
    ok x

  -- `ConflictVine.__post_init__`
  unfoldable pub new_conflict :
      (topic claim_a claim_b : Text) (strength_a strength_b created_at : Number F) (resolved : Bool)
      → Result (ConflictVine F)
  new_conflict topic claim_a claim_b strength_a strength_b created_at resolved = do
    t ← non_empty_text topic
    a ← non_empty_text claim_a
    b ← non_empty_text claim_b
    x ← strength strength_a
    y ← strength strength_b
    at_time ← timestamp created_at
    ok (record {
      topic = t;
      claim_a = a;
      claim_b = b;
      strength_a = x;
      strength_b = y;
      created_at = at_time;
      resolved = resolved;
    })

  -- `delta`
  unfoldable pub delta : ConflictVine F → F
  delta c = fabs (fl.sub c.strength_a c.strength_b)

  -- `_payload_bytes`
  unfoldable pub payload_bytes : FossilizedEcho F → Result (List ℕ)
  payload_bytes e = do
    s ← print true (
        dict (
          field (codes "topic") (text e.topic) (
            field (codes "summary") (text e.summary) (
              field (codes "timeline") (seq (to_items (map dict e.timeline)))
                (field (codes "created_at") (real e.created_at) end)))))
    utf8 s

  -- `serialize`
  unfoldable pub serialize : FossilizedEcho F → Result (List ℕ)
  serialize e = do
    payload ← payload_bytes e
    guard (leb (length payload) fossil_max_bytes) value_error
    ok payload

  -- `FossilizedEcho.__post_init__`
  unfoldable pub new_echo :
      (topic summary : Text) → List (Fields F) → (created_at : Number F) → Result (FossilizedEcho F)
  new_echo topic summary timeline created_at = do
    t ← non_empty_text topic
    s ← non_empty_text summary
    at_time ← timestamp created_at
    let e : FossilizedEcho F = record {
      topic = t;
      summary = s;
      timeline = timeline;
      created_at = at_time;
    }
    payload ← serialize e
    ok e

  -- The entry that `record_event` appends.
  abbrev pub entry : F → Text → Text → Fields F
  entry now event detail =
      field (codes "t") (real now)
        (field (codes "event") (text event) (field (codes "detail") (text detail) end))

  -- The entry is taken out again if the fossil does not serialize with it.
  unfoldable pub commit_event :
      FossilizedEcho F → FossilizedEcho F → Result (List ℕ) → Result (Unit {0}) × FossilizedEcho F
  commit_event e longer (err x) = (err x, e)
  commit_event e longer (ok payload) = (ok tt, longer)

  unfoldable pub append_event :
      F → FossilizedEcho F → Text → Result Text → Result (Unit {0}) × FossilizedEcho F
  append_event now e detail (err x) = (err x, e)
  append_event now e detail (ok event) =
      let longer = record e { timeline = e.timeline ++ entry now event detail ∷ [] } in
      commit_event e longer (serialize longer)

  -- `record_event`
  unfoldable pub record_event :
      F → FossilizedEcho F → Text → Text → Result (Unit {0}) × FossilizedEcho F
  record_event now e event detail = append_event now e detail (non_empty_text event)

  -- `math.isclose(a, b, abs_tol=1e-9)`, with its relative tolerance of 1e-09, on finite floats.
  unfoldable pub is_close : F → F → Bool
  is_close a b =
      let diff = fabs (fl.sub b a) in
      feq a b
      || fl.le diff (fabs (fl.mul (fl.decimal 1 9) b))
      || fl.le diff (fabs (fl.mul (fl.decimal 1 9) a))
      || fl.le diff (fl.decimal 1 9)

  -- `in_peer_review_zone`
  unfoldable pub in_peer_review_zone : Number F → Number F → Result Bool
  in_peer_review_zone strength_a strength_b = do
    a ← strength strength_a
    b ← strength strength_b
    let apart = fabs (fl.sub a b)
    ok (if is_close apart (fl.decimal 15 2) then true else fl.le apart (fl.decimal 15 2))

  -- `open_conflict`, at the time that the constructor reads.
  unfoldable pub open_conflict :
      F
      → (topic claim_a claim_b : Text) → (strength_a strength_b : Number F)
      → Result (ConflictVine F)
  open_conflict now topic claim_a claim_b strength_a strength_b =
      new_conflict topic claim_a claim_b strength_a strength_b (float now) false

  -- The fossil of an open conflict, with its first event.
  unfoldable pub settle :
      ⦃fm : Format F⦄ → F → F → ConflictVine F → Text → Result (FossilizedEcho F)
  settle ⦃fm⦄ made now c summary = do
    guard (not c.resolved) value_error
    e ← new_echo c.topic summary [] (float made)
    let r = record_event now e (codes "fossilized") (codes "delta=" ++ fm.fixed3 (delta c))
    done ← r.0
    ok r.1

  -- `fossilize`: the conflict is resolved only after the fossil is made.
  unfoldable pub fossilize :
      ⦃fm : Format F⦄ → F → F → ConflictVine F → Text → Result (FossilizedEcho F) × ConflictVine F
  fossilize made now c summary = elim (settle made now c summary) [
    | err x ↦ (err x, c)
    | ok e ↦ (ok e, record c { resolved = true })
  ]

  -- `resurrect`: the event is recorded on the fossil, then a conflict at the baseline opens.
  unfoldable pub resurrect : F → F → FossilizedEcho F → Result (ConflictVine F) × FossilizedEcho F
  resurrect now made e =
      let r = record_event now e (codes "resurrected") (codes "baseline=" ++ fl.repr baseline) in
      (
        (do
          done ← r.0
          new_conflict r.1.topic (codes "[historical] " ++ r.1.summary)
              (codes "[incoming] (pending)") (float baseline) (float baseline) (float made) false),
        r.1,
      )
