-- ===== src/Protocol/Results.antt =====
-- packages/protocol/src/result.ts: fallible results as values.

pub data Result {ℓ κ} (Value : Type ℓ) (Error : Type κ) : Type (ℓ ⊔ κ) where
  ok : Value → Result Value Error
  err : Error → Result Value Error

module _ {ℓ κ μ} {Value : Type ℓ} {Next : Type κ} {Error : Type μ} where
  -- `map`
  abbrev pub map_ok : (Value → Next) → Result Value Error → Result Next Error
  map_ok transform (ok value) = ok (transform value)
  map_ok transform (err error) = err error

  infixl 5 ◌>>=◌ ◌>>◌
  -- `flatMap`; the early returns of the source, `if (!r.ok) return r`, are this bind.
  abbrev pub ◌>>=◌ : Result Value Error → (Value → Result Next Error) → Result Next Error
  ok value >>= transform = transform value
  err error >>= transform = err error

  abbrev pub ◌>>◌ : Result Value Error → Result Next Error → Result Next Error
  first >> second = first >>= λ _. second
