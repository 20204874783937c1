-- ===== src/Oracle/Forget.antt =====
-- About `forget` of oracle.py and the tiers that it visits.
use echo_veil.Base.{◌≡◌, ◌≢◌, true, ◌||◌, none, String, ok, arith}
use text.Mathlib.TextEquality.{eq_iff}
use echo_veil.Base.Dict.{lookup, has, lookup-without}
use echo_veil.Base.Floats.{Float}
use echo_veil.Workspace.{remove}
use echo_veil.Archive.{MetadataIndex, valid_key}
use echo_veil.Archive.Cold.{discard}
use echo_veil.Oracle.{Oracle, forget}

module _ {F : Type 0} ⦃fl : Float F⦄ where
  -- Forgetting a key that is not blank removes it from the workspace, with its twilight counter, from
  -- the index and from the archive, and leaves every other key there; its result tells whether any of
  -- the three held it.
  pub forget_everywhere :
      (o : Oracle F) (k : String)
      → valid_key k ≡ true
      → ((forget o k).0 ≡ ok (has k o.index.entries || has k o.archive || has k o.workspace.vines))
        × (lookup k (forget o k).1.workspace.vines ≡ none)
        × (lookup k (forget o k).1.workspace.twilight_cycles ≡ none)
        × (lookup k (forget o k).1.index.entries ≡ none)
        × (lookup k (forget o k).1.archive ≡ none)
        × ((j : String)
            → j ≢ k
            → (lookup j (forget o k).1.workspace.vines ≡ lookup j o.workspace.vines)
              × (lookup j (forget o k).1.index.entries ≡ lookup j o.index.entries)
              × (lookup j (forget o k).1.archive ≡ lookup j o.archive))
  unfolding forget discard remove echo_veil.Archive.remove
  forget_everywhere o k v = (
    ground arith,
    ground (arith, eq_iff k k, lookup-without k k o.workspace.vines),
    ground (arith, eq_iff k k, lookup-without k k o.workspace.twilight_cycles),
    ground (arith, eq_iff k k, lookup-without k k o.index.entries),
    ground (arith, eq_iff k k, lookup-without k k o.archive),
    λ j ne. (
      ground (arith, eq_iff k j, lookup-without k j o.workspace.vines),
      ground (arith, eq_iff k j, lookup-without k j o.index.entries),
      ground (arith, eq_iff k j, lookup-without k j o.archive),
    ),
  )
