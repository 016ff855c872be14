-- ===== src/Base.antt =====
-- The names that every module shares: the libraries', passed on, and helpers for the JavaScript
-- idioms of packages/core/src/engine.ts (`===` on strings, array methods, template strings).

pub use Prim.Native.Nat.{ℕ, zero, suc, ◌+◌, ◌-◌, ◌≤◌, ◌<◌}
pub use Prim.Native.String.{String}
pub use mathlib.Core.Path.{◌≡◌, refl, sym, ap, subst, ◌∙◌}
pub use mathlib.Core.Logic.{◌≢◌, ◌↔◌, ◌⊎◌, inl, inr}
pub use mathlib.Core.Bool.{Bool, true, false, not, ◌&&◌, ◌||◌}
pub use mathlib.Core.Option.{Option, none, some}
pub use mathlib.Core.List.{List, [], ◌∷◌, ◌++◌, map, append_assoc, append-nil}
pub use native.Mathlib.Omega.{arith}
use Prim.Native.Nat.{compare, Ordering}
use Prim.Native.String.{◌++◌ as text_append}
use text.Mathlib.Text.{◌==◌ as str_eq}
use text.Mathlib.TextEquality.{eq_iff}
use text.Mathlib.TextPositions.{eq_refl}

abbrev pub ⊤ : Type 0
⊤ = Unit

abbrev pub ltb : ℕ → ℕ → Bool
ltb a b = elim (compare a b) [ Ordering.lt ↦ true | _ ↦ false ]

abbrev pub nat_eq : ℕ → ℕ → Bool
nat_eq a b = elim (compare a b) [ Ordering.eq ↦ true | _ ↦ false ]

infix 1 if◌then◌else◌
abbrev pub if◌then◌else◌ {ℓ} : {A : Type ℓ} → Bool → A → A → A
if true then x else _ = x
if false then _ else y = y

-- `===` on strings; shut, so that a proof sees one Boolean.
infix 50 ◌==◌ ◌!=◌
unfoldable pub ◌==◌ : String → String → Bool
a == b = str_eq a b

abbrev pub ◌!=◌ : String → String → Bool
a != b = not (a == b)

pub ==_iff : (a b : String) → ((a == b) ≡ true) ↔ (a ≡ b)
unfolding ◌==◌
==_iff a b = eq_iff a b

pub ==_refl : (a : String) → (a == a) ≡ true
unfolding ◌==◌
==_refl a = eq_refl a

pub eq_of_== : (a b : String) → (a == b) ≡ true → a ≡ b
eq_of_== a b h = (==_iff a b).0 h

pub ==_of_eq : (a b : String) → a ≡ b → (a == b) ≡ true
==_of_eq a b h = (==_iff a b).1 h

pub Bool-cases : (b : Bool) → (b ≡ true) ⊎ (b ≡ false)
Bool-cases true = inl refl
Bool-cases false = inr refl

pub ==_comm : (a b : String) → (a == b) ≡ (b == a)
==_comm a b = elim (Bool-cases (a == b)) [
  | inl same ↦ rw (same, ==_of_eq b a (sym (eq_of_== a b same)))
  | inr other ↦ elim (Bool-cases (b == a)) [
    | inl same ↦ rw (==_of_eq a b (sym (eq_of_== b a same)), same)
    | inr also ↦ rw (other, also)
  ]
]

-- A template string, part by part.
unfoldable pub template : List String → String
template [] = ""
template (part ∷ parts) = text_append part (template parts)

-- `parts.join(separator)`
unfoldable pub join : String → List String → String
join separator [] = ""
join separator (part ∷ []) = part
join separator (part ∷ parts) = text_append part (text_append separator (join separator parts))

pub Option-cases {ℓ} : {A : Type ℓ} (o : Option A) → (o ≡ none) ⊎ ((a : A) × (o ≡ some a))
Option-cases none = inl refl
Option-cases (some a) = inr (a, refl)

-- What holds of the states that both branches leave holds of the one that the `if` leaves.
pub if_both {ℓ κ μ} :
    {A : Type ℓ} {S : Type κ} (P : S → Type μ) (b : Bool) (x y : A × S)
    → P x.1
    → P y.1
    → P (if b then x else y).1
if_both P true x y p q = p
if_both P false x y p q = q
