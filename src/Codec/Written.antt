-- ===== src/Codec/Written.antt =====
-- `stringifyCanonical` of packages/protocol/src/serialization.ts writes JSON texts of its values.
use Prim.Native.Char.{Char, code}
use Prim.Native.Nat.{◌/◌, ◌%◌}
use Prim.Native.String.{String}
use hunsu.Base.{
  ltb, nat_eq, ◌≡◌, refl, sym, arith, Bool, true, false, Bool-cases, inl, inr, template, List, [],
  ◌∷◌, ◌++◌, if◌then◌else◌, subst,
}
use hunsu.Text.{units_before, utf16}
use hunsu.Protocol.{CanonicalJsonValue, JsonItems, JsonFields, JsonNumber, natural, other_number}
use hunsu.Codec.Canonical.{
  stringify_canonical, stringify_items, sorted_entries, insert_entry, entry_texts, escape,
  escape_all, quote, unknown_of, unknown_items, unknown_fields, stringify_number,
}
use hunsu.Codec.Values.{Unknown, Fields, field, number}
use hunsu.Codec.Grammar.{
  CharText, plain, quotation_mark, backslash, backspace, form_feed, line_feed, carriage_return, tab,
  unicode, StringText, none_left, one_more, QuotedText, quoted, Denotes, null_text, true_text,
  false_text, string_text, natural_text, number_text, array_text, object_text, DenoteItems,
  no_texts, item_text, DenoteFields, no_members, member, IsDocumentOf, line,
}

-- What holds of both branches holds of the `if`.
either {ℓ κ} :
    {A : Type ℓ} (P : A → Type κ) (b : Bool) {x y : A}
    → (b ≡ true → P x)
    → (b ≡ false → P y)
    → P (if b then x else y)
either P true p q = p refl
either P false p q = q refl

escape-CharText : (c : Char) → CharText c (escape c)
escape-CharText c =
    let P = CharText c in
    let n = code c in
    either P (nat_eq n 34) (λ h. quotation_mark c (ground arith))
      (λ not_quote.
        either P (nat_eq n 92) (λ h. backslash c (ground arith))
          (λ not_slash.
            either P (nat_eq n 8) (λ h. backspace c (ground arith))
              (λ _.
                either P (nat_eq n 12) (λ h. form_feed c (ground arith))
                  (λ _.
                    either P (nat_eq n 10) (λ h. line_feed c (ground arith))
                      (λ _.
                        either P (nat_eq n 13) (λ h. carriage_return c (ground arith))
                          (λ _.
                            either P (nat_eq n 9) (λ h. tab c (ground arith))
                              (λ _.
                                either P (ltb n 32)
                                  (λ low.
                                    unicode c (n / 16) (n % 16) (ground arith) (ground arith)
                                      (ground arith))
                                  (λ high.
                                    plain c (ground arith) (ground arith) (ground arith)))))))))

escape_all-StringText : (text : String) → StringText text (escape_all text)
escape_all-StringText String.[] = none_left
escape_all-StringText (String.◌∷◌ c text) =
    one_more c text (escape c) (escape_all text) (escape-CharText c) (escape_all-StringText text)

quote-QuotedText : (text : String) → QuotedText text (quote text)
unfolding quote
quote-QuotedText text = quoted text (escape_all text) (escape_all-StringText text)

number-Denotes : (n : JsonNumber) → Denotes (stringify_number n) (number n)
number-Denotes (natural n) = natural_text n
number-Denotes (other_number text) = number_text text

-- The property that is inserted stands somewhere among the others.
insert_entry-splits :
    (key text : String) (entries : List (String × String))
    → (before : List String) × (after : List String) × (entry_texts (insert_entry key text entries)
        ≡ before ++ (template (quote key ∷ ":" ∷ text ∷ []) ∷ after))
      × (before ++ after ≡ entry_texts entries)
insert_entry-splits key text [] = ([], [], refl, refl)
insert_entry-splits key text ((other, written) ∷ entries) =
    let (before, after, here, same) = insert_entry-splits key text entries in
    let first = template (quote other ∷ ":" ∷ written ∷ []) in
    elim (Bool-cases (units_before (utf16 other) (utf16 key))) [
      | inl h ↦ (first ∷ before, after, rw (h, here) refl, rw same refl)
      | inr h ↦ ([], first ∷ entry_texts entries, rw h refl, refl)
    ]

fields_with :
    (key text : String) (entries : List (String × String)) (value : Unknown) (fields : Fields)
    → Denotes text value
    → DenoteFields (entry_texts entries) fields
    → DenoteFields (entry_texts (insert_entry key text entries)) (field key value fields)
fields_with key text entries value fields denotes others =
    let (before, after, here, same) = insert_entry-splits key text entries in
    subst (λ texts. DenoteFields texts (field key value fields)) (sym here)
      (member before after key (quote key) text value fields (quote-QuotedText key) denotes
        (subst (λ texts. DenoteFields texts fields) (sym same) others))

mutual
  unfolding stringify_canonical unknown_of

  -- The text of a canonical value denotes it.
  stringify_canonical-Denotes :
      (v : CanonicalJsonValue) → Denotes (stringify_canonical v) (unknown_of v)
  stringify_canonical-Denotes CanonicalJsonValue.null = null_text
  stringify_canonical-Denotes (CanonicalJsonValue.boolean true) = true_text
  stringify_canonical-Denotes (CanonicalJsonValue.boolean false) = false_text
  stringify_canonical-Denotes (CanonicalJsonValue.string text) =
      string_text text (quote text) (quote-QuotedText text)
  stringify_canonical-Denotes (CanonicalJsonValue.number n) = number-Denotes n
  stringify_canonical-Denotes (CanonicalJsonValue.array items) =
      array_text (stringify_items items) (unknown_items items) (items-Denote items)
  stringify_canonical-Denotes (CanonicalJsonValue.object fields) =
      object_text (entry_texts (sorted_entries fields)) (unknown_fields fields)
        (fields-Denote fields)

  items-Denote : (items : JsonItems) → DenoteItems (stringify_items items) (unknown_items items)
  items-Denote JsonItems.no_items = no_texts
  items-Denote (JsonItems.item value items) =
      item_text (stringify_canonical value) (stringify_items items) (unknown_of value)
        (unknown_items items) (stringify_canonical-Denotes value) (items-Denote items)

  fields-Denote :
      (fields : JsonFields)
      → DenoteFields (entry_texts (sorted_entries fields)) (unknown_fields fields)
  fields-Denote JsonFields.no_fields = no_members
  fields-Denote (JsonFields.field key value fields) =
      fields_with key (stringify_canonical value) (sorted_entries fields) (unknown_of value)
        (unknown_fields fields) (stringify_canonical-Denotes value) (fields-Denote fields)

-- The text of a canonical value and a line end are its document.
pub stringify_canonical-IsDocumentOf :
    (v : CanonicalJsonValue)
    → IsDocumentOf (unknown_of v) (template (stringify_canonical v ∷ "\n" ∷ []))
stringify_canonical-IsDocumentOf v =
    line (unknown_of v) (stringify_canonical v) (stringify_canonical-Denotes v)
