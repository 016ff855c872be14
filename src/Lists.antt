-- ===== src/Lists.antt =====
-- Array methods with Boolean tests, a JavaScript `Set` of strings as the list of its members in
-- insertion order, and the laws of appending one item.
pub mod Laws
use hunsu.Base.{
  ℕ, suc, String, Bool, true, false, ◌&&◌, ◌||◌, Option, none, some, List, [], ◌∷◌, ◌++◌, ◌==◌,
  nat_eq, if◌then◌else◌,
}

module _ {ℓ} {A : Type ℓ} where
  abbrev pub length : List A → ℕ
  length [] = 0
  length (_ ∷ xs) = suc (length xs)

  -- `xs.some(p)`
  abbrev pub any : (A → Bool) → List A → Bool
  any p [] = false
  any p (x ∷ xs) = p x || any p xs

  -- `xs.every(p)`
  abbrev pub every : (A → Bool) → List A → Bool
  every p [] = true
  every p (x ∷ xs) = p x && every p xs

  -- `xs.find(p)`
  abbrev pub find : (A → Bool) → List A → Option A
  find p [] = none
  find p (x ∷ xs) = if p x then some x else find p xs

  -- `xs.filter(p)`
  abbrev pub filter : (A → Bool) → List A → List A
  filter p [] = []
  filter p (x ∷ xs) = let rest = filter p xs in if p x then x ∷ rest else rest

  -- `[...xs, x]`
  abbrev pub push : List A → A → List A
  push xs x = xs ++ x ∷ []

  abbrev pub is_empty : List A → Bool
  is_empty [] = true
  is_empty (_ ∷ _) = false

  abbrev pub is_some : Option A → Bool
  is_some none = false
  is_some (some _) = true

module _ {ℓ κ} {A : Type ℓ} (P : A → Type κ) where
  abbrev pub All : List A → Type κ
  All [] = Unit
  All (x ∷ xs) = P x × All xs

-- `xs.includes(x)`
abbrev pub includes : List String → String → Bool
includes xs x = any (λ y. y == x) xs

-- `new Set(xs)`, as the list of its members in insertion order
unfoldable pub set_from : List String → List String → List String
set_from seen [] = seen
set_from seen (x ∷ xs) = set_from (if includes seen x then seen else push seen x) xs

unfoldable pub set_of : List String → List String
unfolding set_from
set_of xs = set_from [] xs

-- `new Set(xs).size === xs.length`
unfoldable pub all_unique : List String → Bool
all_unique xs = nat_eq (length (set_of xs)) (length xs)
