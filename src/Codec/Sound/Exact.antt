-- ===== src/Codec/Sound/Exact.antt =====
-- `exactRecord` of packages/protocol/src/serialization.ts.
use hunsu.Base.{◌≡◌, refl, subst, String, Bool, true, false, not, arith, List, [], ◌∷◌, ⊤}
use hunsu.Lists.{every, filter, includes, is_empty}
use hunsu.Protocol.{ok}
use hunsu.Codec.Values.{
  Unknown, Fields, undefined, null, boolean, string, number, negative_zero, not_finite, array,
  object, keys_of, insert_key, sort_keys, reject_keys, exact_record,
}
use hunsu.Codec.Sound.Steps.{then_ok, ok_eq}

insert_key_some : (key : String) (keys : List String) → is_empty (insert_key key keys) ≡ false
insert_key_some key [] = refl
insert_key_some key (first ∷ keys) = ground arith

sort_keys_empty : (keys : List String) → is_empty (sort_keys keys) ≡ true → is_empty keys ≡ true
unfolding sort_keys
sort_keys_empty [] h = refl
sort_keys_empty (key ∷ keys) h =
    let some = insert_key_some key (sort_keys keys) in absurd (ground arith)

reject_keys_ok :
    (path message : String) (keys : List String) (u : ⊤)
    → reject_keys path message keys ≡ ok u
    → is_empty keys ≡ true
reject_keys_ok path message [] u h = refl
reject_keys_ok path message (key ∷ keys) u h = absurd (ground arith)

filter_empty :
    (p : String → Bool) (keys : List String)
    → is_empty (filter (λ (key : String). not (p key)) keys) ≡ true
    → every p keys ≡ true
filter_empty p [] h = refl
filter_empty p (key ∷ keys) h = ground (arith, filter_empty p keys)

-- The record that is read is the object itself, and its keys are exactly those that are allowed: every
-- key of the object is in the list, and every key of the list is in the object.
pub exact_record-every :
    (value : Unknown) (path : String) (keys : List String) (result : Fields)
    → exact_record value path keys ≡ ok result
    → (value ≡ object result)
      × (every (includes keys) (keys_of result) ≡ true)
      × (every (includes (keys_of result)) keys ≡ true)
unfolding exact_record
exact_record-every (object found) path keys result h =
    let unknown = filter (λ (key : String). not (includes keys key)) (keys_of found) in
    let missed = filter (λ (key : String). not (includes (keys_of found) key)) keys in
    let (u, of_unknown, h1) =
      then_ok (reject_keys path "unsupported keys: " (sort_keys unknown)) _ result h in
    let (w, of_missed, h2) = then_ok (reject_keys path "missing keys: " missed) _ result h1 in
    let none_unknown =
      sort_keys_empty unknown (reject_keys_ok _ _ (sort_keys unknown) u of_unknown) in
    let none_missed = reject_keys_ok _ _ missed w of_missed in
    let is = ok_eq found result h2 in
    subst
      (λ (f : Fields).
        (object found ≡ object f)
        × (every (includes keys) (keys_of f) ≡ true)
        × (every (includes (keys_of f)) keys ≡ true))
      is
      (
        refl,
        filter_empty (includes keys) (keys_of found) none_unknown,
        filter_empty (includes (keys_of found)) keys none_missed,
      )
exact_record-every undefined path keys result h = absurd (ground arith)
exact_record-every null path keys result h = absurd (ground arith)
exact_record-every (boolean _) path keys result h = absurd (ground arith)
exact_record-every (string _) path keys result h = absurd (ground arith)
exact_record-every (number _) path keys result h = absurd (ground arith)
exact_record-every negative_zero path keys result h = absurd (ground arith)
exact_record-every not_finite path keys result h = absurd (ground arith)
exact_record-every (array _) path keys result h = absurd (ground arith)
