-- ===== src/Maps/Laws.antt =====
-- Laws of the entries of a JavaScript `Map`: what a key gives after an operation on another or the
-- same key.
use hunsu.Base.{
  ◌≡◌, refl, arith, String, Bool, ◌==◌, ==_iff, eq_of_==, Bool-cases, inl, inr, none, some, [], ◌∷◌,
  if◌then◌else◌,
}
use hunsu.Maps.{Entries, get, set, delete, retain, HasKeysOnce, kept}

module _ {ℓ} {V : Type ℓ} where
  pub get-set :
      (key other : String) (value : V) (entries : Entries V)
      → get other (set key value entries) ≡ (if key == other then some value else get other entries)
  unfolding set
  get-set key other value [] = refl
  get-set key other value ((k, v) ∷ entries) =
      ground
        (arith, ==_iff k key, ==_iff key other, ==_iff k other, get-set key other value entries)

  pub get-delete :
      (key other : String) (entries : Entries V)
      → get other (delete key entries) ≡ (if key == other then none else get other entries)
  unfolding delete
  get-delete key other [] = ground arith
  get-delete key other ((k, v) ∷ entries) =
      ground (arith, ==_iff k key, ==_iff key other, ==_iff k other, get-delete key other entries)

  pub set-HasKeysOnce :
      (key : String) (value : V) (entries : Entries V)
      → HasKeysOnce entries
      → HasKeysOnce (set key value entries)
  unfolding set
  set-HasKeysOnce key value [] once = (refl, tt)
  set-HasKeysOnce key value ((k, v) ∷ entries) (new, once) = elim (Bool-cases (k == key)) [
    | inl same ↦ rw same (new, once)
    | inr other ↦
        let rest = set-HasKeysOnce key value entries once in
        let still : get k (set key value entries) ≡ none =
          rw get-set (ground (arith, ==_iff k key, ==_iff key k)) in
        rw other (still, rest)
  ]

  get-delete_absent :
      (key other : String) (entries : Entries V)
      → get other entries ≡ none
      → get other (delete key entries) ≡ none
  get-delete_absent key other entries h = rw get-delete (ground arith)

  pub delete-HasKeysOnce :
      (key : String) (entries : Entries V) → HasKeysOnce entries → HasKeysOnce (delete key entries)
  unfolding delete
  delete-HasKeysOnce key [] once = tt
  delete-HasKeysOnce key ((k, v) ∷ entries) (new, once) =
      ground (arith, get-delete_absent key k entries new, delete-HasKeysOnce key entries once)

  get-retain_absent :
      (keeps : V → Bool) (key : String) (entries : Entries V)
      → get key entries ≡ none
      → get key (retain keeps entries) ≡ none
  unfolding retain
  get-retain_absent keeps key [] h = refl
  get-retain_absent keeps key ((k, v) ∷ entries) h =
      ground (arith, get-retain_absent keeps key entries)

  pub retain-HasKeysOnce :
      (keeps : V → Bool) (entries : Entries V)
      → HasKeysOnce entries
      → HasKeysOnce (retain keeps entries)
  unfolding retain
  retain-HasKeysOnce keeps [] once = tt
  retain-HasKeysOnce keeps ((k, v) ∷ entries) (new, once) =
      ground (arith, get-retain_absent keeps k entries new, retain-HasKeysOnce keeps entries once)

  -- Keys are distinct, so a key that is kept gives what it gave.
  pub get-retain :
      (keeps : V → Bool) (key : String) (entries : Entries V)
      → HasKeysOnce entries
      → get key (retain keeps entries) ≡ kept keeps (get key entries)
  unfolding retain
  get-retain keeps key [] once = refl
  get-retain keeps key ((k, v) ∷ entries) (new, once) = elim (Bool-cases (k == key)) [
    | inr other ↦ ground (arith, other, get-retain keeps key entries once)
    | inl same ↦
        let gone : get key (retain keeps entries) ≡ none =
          rw (← eq_of_== k key same) (get-retain_absent keeps k entries new) in
        ground (arith, same, gone)
  ]
