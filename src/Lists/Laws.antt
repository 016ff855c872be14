-- ===== src/Lists/Laws.antt =====
-- Laws of the array methods of Lists: filters, appending one item, and what a found item satisfies.
use hunsu.Base.{
  ◌≡◌, refl, Bool, true, false, List, [], ◌∷◌, ◌++◌, arith, none, some, Bool-cases, inl, inr, ◌||◌,
  map,
}
use hunsu.Lists.{any, every, find, filter, push}

module _ {ℓ} {A : Type ℓ} (p : A → Bool) where
  pub filter_holds_head :
      (xs : List A) {x : A} {rest : List A} → filter p xs ≡ x ∷ rest → p x ≡ true
  filter_holds_head [] h = cc
  filter_holds_head (y ∷ xs) h = elim (Bool-cases (p y)) [
    | inl yes_y ↦ ground (arith, yes_y)
    | inr no_y ↦ filter_holds_head xs (rw no_y at h)
  ]

  pub any-append : (xs ys : List A) → any p (xs ++ ys) ≡ (any p xs || any p ys)
  any-append [] ys = refl
  any-append (x ∷ xs) ys = ground (arith, any-append xs ys)

  pub any-push : (xs : List A) (x : A) → any p (push xs x) ≡ (any p xs || p x)
  any-push [] x = ground arith
  any-push (y ∷ xs) x = ground (arith, any-push xs x)

  pub every-push :
      (xs : List A) (x : A) → every p xs ≡ true → p x ≡ true → every p (push xs x) ≡ true
  every-push [] x h hx = ground arith
  every-push (y ∷ xs) x h hx = ground (arith, every-push xs x)

  pub find-holds : (xs : List A) (x : A) → find p xs ≡ some x → p x ≡ true
  find-holds [] x h = cc
  find-holds (y ∷ xs) x h = ground (arith, find-holds xs x)

  pub find-none-any : (xs : List A) → find p xs ≡ none → any p xs ≡ false
  find-none-any [] h = refl
  find-none-any (y ∷ xs) h = ground (arith, find-none-any xs)

  pub any-find-none : (xs : List A) → any p xs ≡ false → find p xs ≡ none
  any-find-none [] h = refl
  any-find-none (y ∷ xs) h = ground (arith, any-find-none xs)

  pub find-some-any : (xs : List A) (x : A) → find p xs ≡ some x → any p xs ≡ true
  find-some-any [] x h = cc
  find-some-any (y ∷ xs) x h = ground (arith, find-some-any xs x)

  pub find-append_none : (xs ys : List A) → find p xs ≡ none → find p (xs ++ ys) ≡ find p ys
  find-append_none [] ys h = refl
  find-append_none (x ∷ xs) ys h = ground (arith, find-append_none xs ys)

  pub find-append_some : (xs ys : List A) (x : A) → find p xs ≡ some x → find p (xs ++ ys) ≡ some x
  find-append_some [] ys x h = cc
  find-append_some (y ∷ xs) ys x h = ground (arith, find-append_some xs ys x)

module _ {ℓ} {A : Type ℓ} (p q : A → Bool) where
  -- What no item satisfies, no stronger test finds.
  pub any-false_mono :
      (xs : List A) → ((x : A) → q x ≡ true → p x ≡ true) → any p xs ≡ false → any q xs ≡ false
  any-false_mono [] imp h = refl
  any-false_mono (x ∷ xs) imp h = ground (arith, imp x, any-false_mono xs imp)

-- A map that keeps the answer of the test keeps what is found, but for the map.
pub find-map {ℓ} :
    {A : Type ℓ} (p : A → Bool) (f : A → A) (xs : List A) (x : A)
    → ((y : A) → p (f y) ≡ p y)
    → find p xs ≡ some x
    → find p (map f xs) ≡ some (f x)
find-map p f [] x keeps h = cc
find-map p f (y ∷ xs) x keeps h = ground (arith, keeps y, keeps x, find-map p f xs x keeps)
