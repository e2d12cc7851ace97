-- ===== src/Base/Dict.antt =====
-- Go's maps with string keys, as association lists: the first entry of a key counts. Where the
-- program ranges over a map it does not rely on the order, or it sorts the keys first.
use mathlib.Core.Path.{◌≡◌, refl}
use mathlib.Core.Bool.{Bool, true, false}
use mathlib.Core.Logic.{◌↔◌}
use mathlib.Core.Option.{Option, none, some}
use mathlib.Core.List.{List, [], ◌∷◌}
use Prim.Native.String.{String}
use native.Mathlib.Omega.{arith}
use text.Mathlib.Text.{◌==◌}
use text.Mathlib.TextEquality.{eq_iff}
use rootline.Base.Tests.{if◌then◌else◌}
use rootline.Base.Lists.{In}

abbrev pub Dict {ℓ} : Type ℓ → Type ℓ
Dict V = List (String × V)

module _ {ℓ} {V : Type ℓ} where
  -- v, ok := m[k]
  unfoldable pub lookup : String → Dict V → Option V
  lookup key [] = none
  lookup key (entry ∷ rest) = if entry.0 == key then some entry.1 else lookup key rest

  -- _, ok := m[k]
  unfoldable pub has : String → Dict V → Bool
  has key [] = false
  has key (entry ∷ rest) = if entry.0 == key then true else has key rest

  -- m[k] = v
  unfoldable pub insert : String → V → Dict V → Dict V
  insert key value [] = (key, value) ∷ []
  insert key value (entry ∷ rest) =
      if entry.0 == key then (key, value) ∷ rest else entry ∷ insert key value rest

  abbrev pub keys : Dict V → List String
  keys [] = []
  keys ((j, v) ∷ m) = j ∷ keys m

  -- After a write, the key written holds the new value, and the others what they held.
  pub lookup-insert :
      (written read : String) (value : V) (dict : Dict V)
      → lookup read (insert written value dict)
        ≡ (if written == read then some value else lookup read dict)
  unfolding lookup insert
  lookup-insert written read value [] = refl
  lookup-insert written read value (entry ∷ rest) = ground (
    arith,
    lookup-insert written read value rest,
    eq_iff entry.0 written,
    eq_iff entry.0 read,
    eq_iff written read,
  )

  pub has-insert :
      (written read : String) (value : V) (dict : Dict V)
      → has read (insert written value dict) ≡ (if written == read then true else has read dict)
  unfolding has insert
  has-insert written read value [] = refl
  has-insert written read value (entry ∷ rest) = ground (
    arith,
    has-insert written read value rest,
    eq_iff entry.0 written,
    eq_iff entry.0 read,
    eq_iff written read,
  )

  -- A key is present exactly where looking it up finds a value.
  pub has-lookup : (k : String) (m : Dict V) → (has k m ≡ false) ↔ (lookup k m ≡ none)
  unfolding has lookup
  has-lookup k [] = ground arith
  has-lookup k ((j, v) ∷ m) = ground (arith, has-lookup k m)

  pub has_of_lookup : (k : String) (v : V) (m : Dict V) → lookup k m ≡ some v → has k m ≡ true
  unfolding has lookup
  has_of_lookup k v [] h = ground arith
  has_of_lookup k v ((j, w) ∷ m) h = ground (arith, has_of_lookup k v m)

  pub has-keys : (k : String) (m : Dict V) → (has k m ≡ true) ↔ In k (keys m)
  unfolding has
  has-keys k [] = ground arith
  has-keys k ((j, v) ∷ m) = ground (arith, has-keys k m, eq_iff j k)

  -- Each key stands once, as in a Go map.
  abbrev pub IsDict : Dict V → Type ℓ
  IsDict [] = Unit
  IsDict ((k, v) ∷ m) = (lookup k m ≡ none) × IsDict m
