-- ===== src/Archive/Cold.antt =====
-- `ColdArchive` of src/echo_veil/archive.py: its store of payloads, each a list of bytes.
use echo_veil.Base.{
  ℕ, ◌≡◌, Bool, true, not, ◌≢◌, List, [], ◌∷◌, Option, some, String, Result, ok, err, value_error,
  eqb, if◌then◌else◌, length, arith,
}
use text.Mathlib.TextEquality.{eq_iff}
use echo_veil.Base.Dict.{Dict, lookup, has, put, without, lookup-put}
use echo_veil.Archive.{valid_key}

-- `put` on a bytes-like payload.
unfoldable pub store : Dict (List ℕ) → String → List ℕ → Result (Unit {0}) × Dict (List ℕ)
store d key payload =
    if not (valid_key key)
    then (err value_error, d)
    else if eqb (length payload) 0
    then (err value_error, d)
    else (ok tt, put key payload d)

-- `get`
unfoldable pub fetch : Dict (List ℕ) → String → Result (Option (List ℕ))
fetch d key = if valid_key key then ok (lookup key d) else err value_error

-- `remove`
unfoldable pub discard : Dict (List ℕ) → String → Result Bool × Dict (List ℕ)
discard d key = if valid_key key then (ok (has key d), without key d) else (err value_error, d)

-- Storing a payload under a key that is not blank succeeds exactly when it is not empty; then the
-- archive gives it back, and gives what it gave at every other key.
pub fetch-store :
    (d : Dict (List ℕ)) (key : String) (b : ℕ) (bs : List ℕ)
    → valid_key key ≡ true
    → ((store d key (b ∷ bs)).0 ≡ ok tt)
      × (fetch (store d key (b ∷ bs)).1 key ≡ ok (some (b ∷ bs)))
      × ((j : String) → j ≢ key → fetch (store d key (b ∷ bs)).1 j ≡ fetch d j)
      × (store d key [] ≡ (err value_error, d))
unfolding store fetch
fetch-store d key b bs v = (
  ground arith,
  ground (arith, eq_iff key key, lookup-put key key (b ∷ bs) d),
  (λ j ne. ground (arith, eq_iff key j, lookup-put key j (b ∷ bs) d)),
  ground arith,
)
