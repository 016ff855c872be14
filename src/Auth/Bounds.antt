-- ===== src/Auth/Bounds.antt =====
-- The sizes of the maps of `InMemoryEphemeralStateStore` in
-- apps/api/src/auth/in-memory-ephemeral-store.ts, and the runs of its operations.
use hunsu.Base.{
  ◌≡◌, refl, arith, suc, ◌≤◌, String, Bool, ◌==◌, Bool-cases, inl, inr, some, [], ◌∷◌, ==_iff,
}
use hunsu.Lists.{length}
use hunsu.Maps
use hunsu.Maps.{Entries, HasKeysOnce}
use hunsu.Maps.Laws.{get-set}
use hunsu.Auth.Memory.{maximum_records, trim_map}

module _ {ℓ} {V : Type ℓ} where
  pub length-trim_map : (xs : Entries V) → length (trim_map xs) ≤ maximum_records
  unfolding trim_map
  length-trim_map [] = omega arith
  length-trim_map (x ∷ xs) = ground (arith, length-trim_map xs)

  pub trim_map_short : (xs : Entries V) → length xs ≤ maximum_records → trim_map xs ≡ xs
  unfolding trim_map
  trim_map_short [] h = refl
  trim_map_short (x ∷ xs) h = ground arith

  pub trim_map-HasKeysOnce : (xs : Entries V) → HasKeysOnce xs → HasKeysOnce (trim_map xs)
  unfolding trim_map
  trim_map-HasKeysOnce [] once = tt
  trim_map-HasKeysOnce (x ∷ xs) (new, once) = ground (arith, trim_map-HasKeysOnce xs once)

  pub length-delete : (key : String) (xs : Entries V) → length (Maps.delete key xs) ≤ length xs
  unfolding Maps.delete
  length-delete key [] = omega arith
  length-delete key ((k, v) ∷ xs) = ground (arith, length-delete key xs)

  pub length-retain :
      (keeps : V → Bool) (xs : Entries V) → length (Maps.retain keeps xs) ≤ length xs
  unfolding Maps.retain
  length-retain keeps [] = omega arith
  length-retain keeps ((k, v) ∷ xs) = ground (arith, length-retain keeps xs)

  -- Setting a key that is there keeps the size.
  pub length-set_present :
      (key : String) (value old : V) (xs : Entries V)
      → Maps.get key xs ≡ some old
      → length (Maps.set key value xs) ≡ length xs
  unfolding Maps.set
  length-set_present key value old [] h = cc
  length-set_present key value old ((k, v) ∷ xs) h =
      ground (arith, length-set_present key value old xs)

  pub length-set :
      (key : String) (value : V) (xs : Entries V) → length (Maps.set key value xs) ≤ suc (length xs)
  unfolding Maps.set
  length-set key value [] = omega arith
  length-set key value ((k, v) ∷ xs) = ground (arith, length-set key value xs)

  -- The entry that has just been set is not the one that is trimmed.
  pub get-trim_map-set :
      (key : String) (value : V) (xs : Entries V)
      → length xs ≤ maximum_records
      → Maps.get key (trim_map (Maps.set key value xs)) ≡ some value
  unfolding Maps.set trim_map maximum_records
  get-trim_map-set key value [] h = ground (arith, ==_iff key key)
  get-trim_map-set key value ((k, v) ∷ xs) h = elim (Bool-cases (k == key)) [
    | inl same ↦ ground (arith, same)
    | inr other ↦
        let set_here = get-set key key value xs in
        let short = length-set key value xs in
        let kept = trim_map_short (Maps.set key value xs) in ground (arith, other, ==_iff key key)
  ]
