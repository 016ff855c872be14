-- ===== src/Maps.antt =====
-- A JavaScript `Map` with string keys as the list of its entries in insertion order: `set` keeps the
-- place of a key that is there, and puts a new one at the end.
pub mod Laws
use hunsu.Base.{
  ◌≡◌, String, Bool, true, false, ◌==◌, Option, none, some, List, [], ◌∷◌, if◌then◌else◌,
}

abbrev pub Entries {ℓ} : Type ℓ → Type ℓ
Entries V = List (String × V)

module _ {ℓ} {V : Type ℓ} where
  -- `map.get(key)`
  abbrev pub get : String → Entries V → Option V
  get key [] = none
  get key ((k, v) ∷ entries) = if k == key then some v else get key entries

  -- `map.set(key, value)`
  unfoldable pub set : String → V → Entries V → Entries V
  set key value [] = (key, value) ∷ []
  set key value ((k, v) ∷ entries) =
      let rest = set key value entries in if k == key then (k, value) ∷ entries else (k, v) ∷ rest

  -- `map.delete(key)`
  unfoldable pub delete : String → Entries V → Entries V
  delete key [] = []
  delete key ((k, v) ∷ entries) =
      let rest = delete key entries in if k == key then rest else (k, v) ∷ rest

  -- The loop `for (const [k, v] of map) if (!keeps(v)) map.delete(k)`
  unfoldable pub retain : (V → Bool) → Entries V → Entries V
  retain keeps [] = []
  retain keeps ((k, v) ∷ entries) =
      let rest = retain keeps entries in if keeps v then (k, v) ∷ rest else rest

  -- The keys are distinct, as they are in a `Map`.
  abbrev pub HasKeysOnce : Entries V → Type ℓ
  HasKeysOnce [] = Unit
  HasKeysOnce ((k, _) ∷ entries) = (get k entries ≡ none) × HasKeysOnce entries

  -- What a key gives when the entries that a test refuses are dropped.
  abbrev pub kept : (V → Bool) → Option V → Option V
  kept keeps none = none
  kept keeps (some v) = if keeps v then some v else none
