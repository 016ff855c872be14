-- ===== src/Codec/Sound/Steps.antt =====
-- The early returns of packages/protocol/src/serialization.ts: what a decoding that returns a value has
-- passed.
use hunsu.Base.{
  ◌≡◌, ◌⊎◌, refl, subst, ℕ, suc, String, Bool, true, false, List, [], ◌∷◌, inl, inr, arith,
  if◌then◌else◌,
}
use hunsu.Lists.{All, length, is_empty}
use hunsu.Text.{leb, is_safe_integer}
use hunsu.Protocol.{Result, ok, err, ◌>>=◌, ◌>>◌, natural, other_number}
use hunsu.Codec.Values.{
  Unknown, undefined, null, boolean, string, number, negative_zero, not_finite, array, object,
  Items, no_items, item, Decoded, invalid, decode_array, decode_items, at_index, Fields, at,
  property,
}
use hunsu.Codec.Makers.{make_text}
use hunsu.Codec.Fields.{
  Decoder, at_key, primitive, require, decode_natural, require_some, require_two,
}

module _ {ℓ κ} {A : Type ℓ} {B : Type κ} where
  pub bind_ok :
      (r : Decoded A) (k : A → Decoded B) (y : B)
      → (r >>= k) ≡ ok y
      → (x : A) × (r ≡ ok x) × (k x ≡ ok y)
  bind_ok (ok x) k y h = (x, refl, h)
  bind_ok (err e) k y h = absurd (ground arith)

pub Result-cases {ℓ κ} :
    {A : Type ℓ} {E : Type κ} (r : Result A E) → ((x : A) × (r ≡ ok x)) ⊎ ((e : E) × (r ≡ err e))
Result-cases (ok x) = inl (x, refl)
Result-cases (err e) = inr (e, refl)

pub ok_eq {ℓ} : {A : Type ℓ} (x y : A) → Path (Decoded A) (ok x) (ok y) → x ≡ y
ok_eq x y h = cc

-- What a decoder returns has the property.
pub record IsSound {ℓ κ} {A : Type ℓ} (decode : Decoder A) (P : A → Type κ) : Type (ℓ ⊔ κ) where
  pub sound : (value : Unknown) (path : String) (x : A) → decode value path ≡ ok x → P x

-- One field that is read, and what follows.
pub read {ℓ κ μ} :
    {A : Type ℓ} {B : Type μ} {decode : Decoder A} {P : A → Type κ}
    → IsSound decode P
    → (key : String) (fields : Fields) (path : String) (k : A → Decoded B) (y : B)
    → (at_key decode key fields path >>= k) ≡ ok y
    → (x : A) × P x × (k x ≡ ok y)
read {decode = decode} s key fields path k y h =
    let (x, of_x, rest) = bind_ok (at_key decode key fields path) k y h in
    (x, s.sound (property key fields) (at path key) x of_x, rest)

pub then_ok {ℓ κ} :
    {A : Type ℓ} {B : Type κ} (r : Decoded A) (rest : Decoded B) (y : B)
    → (r >> rest) ≡ ok y
    → (x : A) × (r ≡ ok x) × (rest ≡ ok y)
then_ok r rest y h = bind_ok r (λ _. rest) y h

-- Every value that a result can hold has the property.
pub record Gives {ℓ κ} {A : Type ℓ} (P : A → Type κ) (r : Decoded A) : Type (ℓ ⊔ κ) where
  pub gives : (x : A) → r ≡ ok x → P x

module _ {ℓ κ} {A : Type ℓ} {P : A → Type κ} where
  pub refusal : (path message : String) → Gives P (invalid path message)
  refusal path message = record { gives = λ x h. absurd (ground arith) }

  pub value-Gives : (x : A) → P x → Gives P (ok x)
  value-Gives x p = record { gives = λ y h. subst P (ok_eq x y h) p }

  pub if_Gives : (b : Bool) (x y : Decoded A) → Gives P x → Gives P y → Gives P (if b then x else y)
  if_Gives true x y p q = p
  if_Gives false x y p q = q

  pub sound_of :
      (decode : Decoder A)
      → ((value : Unknown) (path : String) → Gives P (decode value path))
      → IsSound decode P
  sound_of decode g = record { sound = λ value path x h. (g value path).gives x h }

  pub bind-Gives {μ} :
      {B : Type μ} (r : Decoded B) (k : B → Decoded A)
      → ((x : B) → r ≡ ok x → Gives P (k x))
      → Gives P (r >>= k)
  bind-Gives r k g = record {
    gives = λ y h. let (x, of_x, rest) = bind_ok r k y h in (g x of_x).gives y rest;
  }

-- A decoder whose value may be anything.
pub any-IsSound {ℓ} : {A : Type ℓ} (decode : Decoder A) → IsSound decode (λ _. Unit {0})
any-IsSound decode = record { sound = λ value path x h. tt }

pub require_ok {ℓ} :
    {B : Type ℓ} (test : Bool) (path message : String) (rest : Decoded B) (y : B)
    → (require test path message >> rest) ≡ ok y
    → (test ≡ true) × (rest ≡ ok y)
require_ok true path message rest y h = (refl, h)
require_ok false path message rest y h = absurd (ground arith)

pub make_text_ok :
    (accepts : String → Bool) (message field path : String) (value : Unknown) (text : String)
    → primitive (make_text accepts message value field) path ≡ ok text
    → accepts text ≡ true
make_text_ok accepts message field path (string other) text h = ground arith
make_text_ok accepts message field path undefined text h = absurd (ground arith)
make_text_ok accepts message field path null text h = absurd (ground arith)
make_text_ok accepts message field path (boolean _) text h = absurd (ground arith)
make_text_ok accepts message field path (number _) text h = absurd (ground arith)
make_text_ok accepts message field path negative_zero text h = absurd (ground arith)
make_text_ok accepts message field path not_finite text h = absurd (ground arith)
make_text_ok accepts message field path (array _) text h = absurd (ground arith)
make_text_ok accepts message field path (object _) text h = absurd (ground arith)

pub decode_natural_ok :
    (value : Unknown) (path : String) (n : ℕ)
    → decode_natural value path ≡ ok n
    → is_safe_integer n ≡ true
decode_natural_ok (string _) path n h = absurd (ground arith)
decode_natural_ok undefined path n h = absurd (ground arith)
decode_natural_ok null path n h = absurd (ground arith)
decode_natural_ok (boolean _) path n h = absurd (ground arith)
decode_natural_ok (number (natural m)) path n h = ground arith
decode_natural_ok (number (other_number _)) path n h = absurd (ground arith)
decode_natural_ok negative_zero path n h = ground arith
decode_natural_ok not_finite path n h = absurd (ground arith)
decode_natural_ok (array _) path n h = absurd (ground arith)
decode_natural_ok (object _) path n h = absurd (ground arith)

module _ {ℓ} {A : Type ℓ} where
  pub require_some_ok :
      (xs ys : List A) (path : String)
      → require_some xs path ≡ ok ys
      → (is_empty ys ≡ false) × (xs ≡ ys)
  require_some_ok [] ys path h = absurd (ground arith)
  require_some_ok (x ∷ xs) ys path h = ground arith

  pub require_two_ok :
      (xs ys : List A) (path : String)
      → require_two xs path ≡ ok ys
      → (leb 2 (length ys) ≡ true) × (xs ≡ ys)
  require_two_ok xs ys path h = ground arith

module _ {ℓ κ} {A : Type ℓ} {P : A → Type κ} {decode : Decoder A} (s : IsSound decode P) where
  decode_items_ok :
      (items : Items) (path : String) (index : ℕ) (xs : List A)
      → decode_items decode path index items ≡ ok xs
      → All P xs
  decode_items_ok no_items path index [] h = tt
  decode_items_ok no_items path index (x ∷ xs) h = absurd (ground arith)
  decode_items_ok (item value items) path index xs h =
      let (first, of_first, h1) = bind_ok (decode value (at_index path index)) _ xs h in
      let (rest, of_rest, h2) = bind_ok (decode_items decode path (suc index) items) _ xs h1 in
      let all : All P (first ∷ rest) = (
        s.sound value (at_index path index) first of_first,
        decode_items_ok items path (suc index) rest of_rest,
      ) in
      subst (All P) (ok_eq (first ∷ rest) xs h2) all

  decode_array_ok :
      (value : Unknown) (path : String) (xs : List A)
      → decode_array decode value path ≡ ok xs
      → All P xs
  unfolding decode_array
  decode_array_ok (array items) path xs h = decode_items_ok items path 0 xs h
  decode_array_ok (string _) path xs h = absurd (ground arith)
  decode_array_ok undefined path xs h = absurd (ground arith)
  decode_array_ok null path xs h = absurd (ground arith)
  decode_array_ok (boolean _) path xs h = absurd (ground arith)
  decode_array_ok (number _) path xs h = absurd (ground arith)
  decode_array_ok negative_zero path xs h = absurd (ground arith)
  decode_array_ok not_finite path xs h = absurd (ground arith)
  decode_array_ok (object _) path xs h = absurd (ground arith)

  pub decode_array-IsSound : IsSound (decode_array decode) (All P)
  decode_array-IsSound = record { sound = decode_array_ok }
