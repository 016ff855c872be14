-- ===== src/Engine/Outcomes.antt =====
-- Inversion of successful outcomes: what a chain of early returns has passed when it ends in `ok`.
use hunsu.Base.{◌≡◌, refl, Bool, true, false, ⊤, String, ◌⊎◌, inl, inr}
use hunsu.Protocol.{ok, err, ◌>>=◌, ◌>>◌}
use hunsu.Engine.Errors.{
  Outcome, ProjectDomainError, ProjectDomainErrorCode, refuse_if, refuse_duplicate_if, admit,
  when_ok, invalid_unless_ok, map_void,
}

pub Outcome-cases {ℓ} :
    {A : Type ℓ} (m : Outcome A) → ((a : A) × (m ≡ ok a)) ⊎ ((e : ProjectDomainError) × (m ≡ err e))
Outcome-cases (ok a) = inl (a, refl)
Outcome-cases (err e) = inr (e, refl)

module _ {ℓ κ} {A : Type ℓ} {B : Type κ} where
  pub admit-eq-ok :
      (m : Outcome A) (f : A → B) {b : B} → admit m f ≡ ok b → (a : A) × (m ≡ ok a) × (f a ≡ b)
  admit-eq-ok (ok a) f h = (a, refl, cc)
  admit-eq-ok (err e) f h = cc

  pub when_ok-eq-ok :
      (m : Outcome A) (f : A → B) {b : B} → when_ok m f ≡ ok b → (a : A) × (m ≡ ok a) × (f a ≡ b)
  when_ok-eq-ok (ok a) f h = (a, refl, cc)
  when_ok-eq-ok (err e) f h = cc

-- Both parts of a chain have passed.
module _ {κ} {B : Type κ} where
  pub >>=-eq-ok {ℓ} :
      {A : Type ℓ} (tested : Outcome A) (continue_with : A → Outcome B) {result : B}
      → (tested >>= continue_with) ≡ ok result
      → (passed : A) × (tested ≡ ok passed) × (continue_with passed ≡ ok result)
  >>=-eq-ok (err error) continue_with h = cc
  >>=-eq-ok (ok passed) continue_with h = (passed, refl, h)

  pub >>-eq-ok :
      (m : Outcome ⊤) (k : Outcome B) {b : B} → (m >> k) ≡ ok b → (m ≡ ok tt) × (k ≡ ok b)
  >>-eq-ok (ok tt) k h = (refl, h)
  >>-eq-ok (err e) k h = cc

  pub invalid_unless_ok-eq-ok : (m : Outcome B) {b : B} → invalid_unless_ok m ≡ ok b → m ≡ ok b
  invalid_unless_ok-eq-ok (ok a) h = h
  invalid_unless_ok-eq-ok (err e) h = cc

  pub map_void-eq-ok : (m : Outcome B) → map_void m ≡ ok tt → (b : B) × (m ≡ ok b)
  map_void-eq-ok (ok a) h = (a, refl)
  map_void-eq-ok (err e) h = cc

pub refuse_if-eq-ok :
    (b : Bool) (code : ProjectDomainErrorCode) (message : String)
    → refuse_if b code message ≡ ok tt
    → b ≡ false
refuse_if-eq-ok true code message h = cc
refuse_if-eq-ok false code message h = refl

pub refuse_duplicate_if-eq-ok :
    (b : Bool) (kind id : String) → refuse_duplicate_if b kind id ≡ ok tt → b ≡ false
refuse_duplicate_if-eq-ok true kind id h = cc
refuse_duplicate_if-eq-ok false kind id h = refl

pub ok_injective {ℓ} : {A : Type ℓ} {a b : A} → ◌≡◌ {A = Outcome A} (ok a) (ok b) → a ≡ b
ok_injective h = cc
