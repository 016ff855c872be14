-- ===== src/Codec/Order.antt =====
-- The order of the keys in `stringifyCanonical` of packages/protocol/src/serialization.ts: a text does
-- not depend on the order in which the properties of a value stand.
use hunsu.Base.{
  ℕ, nat_eq, String, ◌≡◌, ◌≢◌, refl, sym, ◌∙◌, arith, true, false, Bool-cases, inl, inr, List, [],
  ◌∷◌,
}
use hunsu.Text.{units_before, utf16}
use hunsu.Protocol.{CanonicalJsonValue, JsonItems, JsonFields}
use hunsu.Codec.Canonical.{stringify_canonical, stringify_items, sorted_entries, insert_entry}

units_before_asym : (a b : List ℕ) → units_before a b ≡ true → units_before b a ≡ false
units_before_asym [] [] h = refl
units_before_asym [] (y ∷ b) h = refl
units_before_asym (x ∷ a) [] h = cc
units_before_asym (x ∷ a) (y ∷ b) h = ground (arith, units_before_asym a b)

units_before_trans :
    (a b c : List ℕ) → units_before a b ≡ true → units_before b c ≡ true → units_before a c ≡ true
units_before_trans [] [] c h k = k
units_before_trans [] (y ∷ b) [] h k = cc
units_before_trans [] (y ∷ b) (z ∷ c) h k = refl
units_before_trans (x ∷ a) [] c h k = cc
units_before_trans (x ∷ a) (y ∷ b) [] h k = cc
units_before_trans (x ∷ a) (y ∷ b) (z ∷ c) h k = ground (arith, units_before_trans a b c)

units_before_total : (a b : List ℕ) → a ≢ b → units_before a b ≡ false → units_before b a ≡ true
units_before_total [] [] apart h = absurd (apart refl)
units_before_total [] (y ∷ b) apart h = cc
units_before_total (x ∷ a) [] apart h = refl
units_before_total (x ∷ a) (y ∷ b) apart h = elim (Bool-cases (nat_eq x y)) [
  | inl same ↦
      let here : x ≡ y = ground arith in
      let deeper = units_before_total a b (λ e. apart (rw (here, e) refl)) in ground (arith, deeper)
  | inr other ↦ ground arith
]

-- Two properties of different keys are inserted in either order.
insert_entry-swap :
    (k l : String) (v w : String) (entries : List (String × String))
    → units_before (utf16 k) (utf16 l) ≡ true
    → insert_entry k v (insert_entry l w entries) ≡ insert_entry l w (insert_entry k v entries)
insert_entry-swap k l v w [] first = rw (first, units_before_asym (utf16 k) (utf16 l) first) refl
insert_entry-swap k l v w ((other, text) ∷ entries) first =
    let second = units_before_asym (utf16 k) (utf16 l) first in
    let ih = insert_entry-swap k l v w entries first in
    let through = units_before_trans (utf16 other) (utf16 k) (utf16 l) in
    elim (Bool-cases (units_before (utf16 other) (utf16 k))) [
      | inl before_k ↦ rw (before_k, through before_k first, before_k, ih) refl
      | inr behind_k ↦ elim (Bool-cases (units_before (utf16 other) (utf16 l))) [
        | inl before_l ↦ rw (behind_k, before_l, first, behind_k) refl
        | inr behind_l ↦ rw (behind_k, behind_l, second, first) refl
      ]
    ]

insert_entry_commutes :
    (k l : String) (v w : String) (entries : List (String × String))
    → utf16 k ≢ utf16 l
    → insert_entry k v (insert_entry l w entries) ≡ insert_entry l w (insert_entry k v entries)
insert_entry_commutes k l v w entries apart = elim (Bool-cases (units_before (utf16 k) (utf16 l))) [
  | inl first ↦ insert_entry-swap k l v w entries first
  | inr behind ↦
      sym (insert_entry-swap l k w v entries (units_before_total (utf16 k) (utf16 l) apart behind))
]

-- Two values that differ in the order of the properties of their objects, at any depth. Keys that
-- change places differ in their UTF-16 units.
mutual
  pub data Reorders : CanonicalJsonValue → CanonicalJsonValue → Type 0 where
    unchanged : (v : CanonicalJsonValue) → Reorders v v
    in_array :
        (xs ys : JsonItems)
        → ReordersItems xs ys
        → Reorders (CanonicalJsonValue.array xs) (CanonicalJsonValue.array ys)
    in_object :
        (xs ys : JsonFields)
        → ReordersFields xs ys
        → Reorders (CanonicalJsonValue.object xs) (CanonicalJsonValue.object ys)

  pub data ReordersItems : JsonItems → JsonItems → Type 0 where
    no_change : ReordersItems JsonItems.no_items JsonItems.no_items
    each_item :
        (v w : CanonicalJsonValue) (xs ys : JsonItems)
        → Reorders v w
        → ReordersItems xs ys
        → ReordersItems (JsonItems.item v xs) (JsonItems.item w ys)

  pub data ReordersFields : JsonFields → JsonFields → Type 0 where
    nothing_left : ReordersFields JsonFields.no_fields JsonFields.no_fields
    each_field :
        (key : String) (v w : CanonicalJsonValue) (xs ys : JsonFields)
        → Reorders v w
        → ReordersFields xs ys
        → ReordersFields (JsonFields.field key v xs) (JsonFields.field key w ys)
    swapped :
        (k l : String) (v w : CanonicalJsonValue) (xs : JsonFields)
        → utf16 k ≢ utf16 l
        → ReordersFields
            (JsonFields.field k v (JsonFields.field l w xs))
            (JsonFields.field l w (JsonFields.field k v xs))
    then_more :
        (xs ys zs : JsonFields) → ReordersFields xs ys → ReordersFields ys zs → ReordersFields xs zs

mutual
  unfolding stringify_canonical

  reordered_text :
      (v w : CanonicalJsonValue) → Reorders v w → stringify_canonical v ≡ stringify_canonical w
  reordered_text v _ (unchanged _) = refl
  reordered_text _ _ (in_array xs ys h) = rw (reordered_items xs ys h) refl
  reordered_text _ _ (in_object xs ys h) = rw (reordered_fields xs ys h) refl

  reordered_items :
      (xs ys : JsonItems) → ReordersItems xs ys → stringify_items xs ≡ stringify_items ys
  reordered_items _ _ no_change = refl
  reordered_items _ _ (each_item v w xs ys first others) =
      rw (reordered_text v w first, reordered_items xs ys others) refl

  reordered_fields :
      (xs ys : JsonFields) → ReordersFields xs ys → sorted_entries xs ≡ sorted_entries ys
  reordered_fields _ _ nothing_left = refl
  reordered_fields _ _ (each_field key v w xs ys first others) =
      rw (reordered_text v w first, reordered_fields xs ys others) refl
  reordered_fields _ _ (swapped k l v w xs apart) =
      insert_entry_commutes k l (stringify_canonical v) (stringify_canonical w) (sorted_entries xs)
        apart
  reordered_fields _ _ (then_more xs ys zs first second) =
      reordered_fields xs ys first ∙ reordered_fields ys zs second

-- Values that differ in the order in which the properties of their objects stand, at any depth, have
-- the same canonical text, if the keys that change places differ in their UTF-16 units.
pub stringify_canonical-Reorders :
    (v w : CanonicalJsonValue) → Reorders v w → stringify_canonical v ≡ stringify_canonical w
stringify_canonical-Reorders v w h = reordered_text v w h
