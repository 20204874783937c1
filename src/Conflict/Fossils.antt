-- ===== src/Conflict/Fossils.antt =====
-- About the fossils and conflicts of conflict.py after any calls.
use echo_veil.Base.{
  ℕ, ◌≤◌, ◌≡◌, refl, ap, ◌⊎◌, inl, inr, true, false, not, List, [], ◌∷◌, ◌++◌, Error, Result, ok,
  err, value_error, guard, leb, leb→le, arith, length, along, >>=-eq-ok, guard-eq-ok,
}
use echo_veil.Base.Texts.{Text}
use echo_veil.Base.Floats.{Float, Number}
use echo_veil.Json.{Fields}
use echo_veil.Conflict.{
  ConflictVine, FossilizedEcho, Format, non_empty_text, timestamp, payload_bytes, serialize,
  new_echo, entry, record_event, settle, fossilize, resurrect, commit_event, append_event,
  fossil_max_bytes,
}

non_empty_same : (s t : Text) → non_empty_text s ≡ ok t → t ≡ s
unfolding non_empty_text
non_empty_same s t h = ground arith

module _ {F : Type 0} ⦃fl : Float F⦄ where
  -- The fossils that a program can hold: a new one, and what a recorded event or a resurrection
  -- leaves, whether or not it raises.
  pub data Held : FossilizedEcho F → Type 0 where
    made :
        (topic summary : Text) (timeline : List (Fields F)) (created_at : Number F)
        {e : FossilizedEcho F}
        → new_echo topic summary timeline created_at ≡ ok e
        → Held e
    recorded :
        (now : F) (event detail : Text) {e : FossilizedEcho F}
        → Held e
        → Held (record_event now e event detail).1
    revived : (now at_time : F) {e : FossilizedEcho F} → Held e → Held (resurrect now at_time e).1

  -- The fossil serializes, within its bytes.
  abbrev pub Fits : FossilizedEcho F → Type 0
  Fits e = (payload : List ℕ) × (serialize e ≡ ok payload) × (length payload ≤ fossil_max_bytes)

  serialized-Fits : (e : FossilizedEcho F) (payload : List ℕ) → serialize e ≡ ok payload → Fits e
  unfolding serialize
  serialized-Fits e payload h =
      let (bs, _, k) = >>=-eq-ok (payload_bytes e) _ h in
      let (_, g, m) = >>=-eq-ok (guard (leb (length bs) fossil_max_bytes) value_error) _ k in
      (payload, h, along (λ p. length p ≤ fossil_max_bytes) m (leb→le _ _ (guard-eq-ok _ _ g)))

  new_echo-Fits :
      (topic summary : Text) (timeline : List (Fields F)) (created_at : Number F)
      (e : FossilizedEcho F)
      → new_echo topic summary timeline created_at ≡ ok e
      → Fits e
  unfolding new_echo
  new_echo-Fits topic summary timeline created_at e h =
      let (t, _, h1) = >>=-eq-ok (non_empty_text topic) _ h in
      let (s, _, h2) = >>=-eq-ok (non_empty_text summary) _ h1 in
      let (at_time, _, h3) = >>=-eq-ok (timestamp created_at) _ h2 in
      let (payload, k, h4) = >>=-eq-ok (serialize _) _ h3 in
      along Fits h4 (serialized-Fits _ payload k)

  -- The outcome of recording an event: the fossil with one more entry at the end of its timeline,
  -- which fits, or an exception and the fossil as it was.
  pub data Recorded (now : F) (e : FossilizedEcho F) (event detail : Text)
      : Result (Unit {0}) × FossilizedEcho F → Type 0 where
    appended :
        (longer : FossilizedEcho F)
        → longer ≡ record e { timeline = e.timeline ++ entry now event detail ∷ [] }
        → Fits longer
        → Recorded now e event detail (ok tt, longer)
    refused : (x : Error) → Recorded now e event detail (err x, e)

  committed :
      (now : F) (e longer : FossilizedEcho F) (event detail : Text) (r : Result (List ℕ))
      → longer ≡ record e { timeline = e.timeline ++ entry now event detail ∷ [] }
      → serialize longer ≡ r
      → Recorded now e event detail (commit_event e longer r)
  unfolding commit_event
  committed now e longer event detail (err x) same h = refused x
  committed now e longer event detail (ok payload) same h =
      appended longer same (serialized-Fits longer payload h)

  named_event :
      (now : F) (e : FossilizedEcho F) (event detail : Text) (r : Result Text)
      → non_empty_text event ≡ r
      → Recorded now e event detail (append_event now e detail r)
  unfolding append_event
  named_event now e event detail (err x) h = refused x
  named_event now e event detail (ok named) h =
      committed now e _ event detail (serialize _)
        (ap (λ s. record e { timeline = e.timeline ++ entry now s detail ∷ [] })
          (non_empty_same event named h))
        refl

  -- Recording an event is all or nothing: either the entry ends the timeline of a fossil that fits,
  -- or the call raises and the fossil is as it was.
  pub record_event-Recorded :
      (now : F) (e : FossilizedEcho F) (event detail : Text)
      → Recorded now e event detail (record_event now e event detail)
  unfolding record_event
  record_event-Recorded now e event detail =
      named_event now e event detail (non_empty_text event) refl

  Recorded-Fits :
      {now : F} {e : FossilizedEcho F} {event detail : Text}
      {r : Result (Unit {0}) × FossilizedEcho F}
      → Recorded now e event detail r
      → Fits e
      → Fits r.1
  Recorded-Fits (appended longer same fits) h = fits
  Recorded-Fits (refused x) h = h

  -- A fossil that a program holds serializes, in at most 2048 bytes, after any sequence of recorded
  -- events and resurrections, the refused ones among them.
  pub Held-Fits : {e : FossilizedEcho F} → Held e → Fits e
  unfolding resurrect
  Held-Fits (made topic summary timeline created_at h) =
      new_echo-Fits topic summary timeline created_at _ h
  Held-Fits (recorded now event detail held) =
      Recorded-Fits (record_event-Recorded now _ event detail) (Held-Fits held)
  Held-Fits (revived now at_time held) =
      Recorded-Fits (record_event-Recorded now _ _ _) (Held-Fits held)

  module _ ⦃fm : Format F⦄ where
    settle_open :
        (opened now : F) (c : ConflictVine F) (summary : Text) (e : FossilizedEcho F)
        → settle opened now c summary ≡ ok e
        → c.resolved ≡ false
    unfolding settle
    settle_open opened now c summary e h =
        let (_, g, _) = >>=-eq-ok (guard (not c.resolved) value_error) _ h in
        let open_yet = guard-eq-ok _ _ g in ground arith

    -- `fossilize` resolves the conflict exactly when it returns a fossil, which it does only for an
    -- open one; where it raises the conflict is as it was, and a resolved conflict is refused.
    pub fossilize_once :
        (opened now : F) (c : ConflictVine F) (summary : Text)
        → (((e : FossilizedEcho F) × ((fossilize opened now c summary).0 ≡ ok e)
              × (c.resolved ≡ false)
              × ((fossilize opened now c summary).1 ≡ record c { resolved = true }))
            ⊎ ((x : Error) × (fossilize opened now c summary ≡ (err x, c))))
          × (c.resolved ≡ true → fossilize opened now c summary ≡ (err value_error, c))
    unfolding fossilize
    fossilize_once opened now c summary =
        (outcome (settle opened now c summary) refl, λ t. unfold settle in rw t)
      where
        outcome :
            (r : Result (FossilizedEcho F))
            → settle opened now c summary ≡ r
            → ((e : FossilizedEcho F) × ((fossilize opened now c summary).0 ≡ ok e)
                × (c.resolved ≡ false)
                × ((fossilize opened now c summary).1 ≡ record c { resolved = true }))
              ⊎ ((x : Error) × (fossilize opened now c summary ≡ (err x, c)))
        outcome (ok e) h =
            inl (e, rw (h, fossilize), settle_open opened now c summary e h, rw (h, fossilize))
        outcome (err x) h = inr (x, rw (h, fossilize))
