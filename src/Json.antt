-- ===== src/Json.antt =====
-- Dynamic values and their JSON text: what memory_layers.py and conflict.py hand to
-- `json.dumps(..., separators=(",", ":"), allow_nan=False).encode("utf-8")`, and the object hooks of
-- src/echo_veil/_json.py.
pub mod Print
use echo_veil.Base.{
  ℕ, zero, suc, ◌+◌, ◌-◌, ◌*◌, ◌/◌, ◌%◌, ◌^◌, ◌≡◌, refl, Bool, true, false, ◌&&◌, ◌||◌, List, [],
  ◌∷◌, ◌++◌, String, Option, none, some, Result, ok, err, ◌>>=◌, ◌>>◌, Error, value_error,
  type_error, guard, ltb, leb, eqb, if◌then◌else◌, any, all,
}
use echo_veil.Base.Texts.{Text, codes, text_eq}
use echo_veil.Base.Int.{ℤ, pos, negsuc}
use echo_veil.Base.Floats.{Float}

-- The four semantic layers (`MemoryLayer`) and the relationship types (`LogicKind`).
pub data MemoryLayer : Type 0 where
  live short_term long_term contextual_logic : MemoryLayer

pub data LogicKind : Type 0 where
  causal_chain contradiction_resolution decision principle : LogicKind

-- A Python object as the validators see it. `seq` is a list or a tuple.
mutual
  pub data Value (F : Type 0) : Type 0 where
    null : Value F
    boolean : Bool → Value F
    integer : ℤ → Value F
    real : F → Value F
    text : Text → Value F
    layer : MemoryLayer → Value F
    kind : LogicKind → Value F
    seq : Items F → Value F
    dict : Fields F → Value F

  pub data Items (F : Type 0) : Type 0 where
    nil : Items F
    cons : Value F → Items F → Items F

  pub data Fields (F : Type 0) : Type 0 where
    end : Fields F
    field : Text → Value F → Fields F → Fields F

module _ {F : Type 0} where
  unfoldable pub items : Items F → List (Value F)
  items nil = []
  items (cons v vs) = v ∷ items vs

  unfoldable pub to_items : List (Value F) → Items F
  to_items [] = nil
  to_items (v ∷ vs) = cons v (to_items vs)

  pub items-to_items : (vs : List (Value F)) → items (to_items vs) ≡ vs
  unfolding items to_items
  items-to_items [] = refl
  items-to_items (v ∷ vs) = cc (items-to_items vs)

  -- `decoded[key]` and `decoded.get(key)`
  unfoldable pub member : Text → Fields F → Option (Value F)
  member k end = none
  member k (field j v fs) = if text_eq j k then some v else member k fs

  unfoldable pub names : Fields F → List Text
  names end = []
  names (field k v fs) = k ∷ names fs

-- `k in ks`, and `set(a) == set(b)`
unfoldable pub elem : Text → List Text → Bool
elem k ks = any (λ j. text_eq j k) ks

unfoldable pub same_set : List Text → List Text → Bool
unfolding elem
same_set a b = all (λ k. elem k b) a && all (λ k. elem k a) b

module _ {F : Type 0} where
  -- `require_exact_keys`
  unfoldable pub require_exact_keys : Fields F → List Text → Result (Unit {0})
  unfolding same_set names
  require_exact_keys value expected = guard (same_set (names value) expected) value_error

  -- `_unique_object`: the pairs in order, and an error at the first key that came before.
  unique_from : List Text → Fields F → Result (Fields F)
  unique_from seen end = ok end
  unique_from seen (field k v rest) =
      let later = unique_from (k ∷ seen) rest in
      if elem k seen then err value_error else (do out ← later; ok (field k v out))

  unfoldable pub unique_object : Fields F → Result (Fields F)
  unfolding unique_from elem
  unique_object pairs = unique_from [] pairs
