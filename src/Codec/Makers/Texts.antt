-- ===== src/Codec/Makers/Texts.antt =====
-- packages/protocol/src/primitives.ts: times, texts, Runner types, base64, numbers and arrays.
use Prim.Native.Nat.{◌%◌}
use hunsu.Base.{ℕ, String, Bool, ◌&&◌, ◌||◌, not, ltb, nat_eq, List, [], ◌∷◌, if◌then◌else◌}
use hunsu.Lists.{length, is_empty}
use hunsu.Text.{
  leb, is_between, is_digit, is_lower, is_upper, is_alphanumeric, is_safe_integer, text_length,
  has_part, is_blank,
}
use hunsu.Regex.{
  Regex, one_of, chain, either, many, optional, some_of, up_to, exactly, literal, sequence, matches,
}
use hunsu.Protocol.{ok, natural}
use hunsu.Codec.Values.{Unknown, number, negative_zero}
use hunsu.Codec.Makers.Ids.{Made, make_text, refused, in_dashed}

-- The platform's `Date.parse`: whether it reads a text as a finite time.
pub record Dates : Type 0 where
  pub is_finite_date : String → Bool

abbrev digits : ℕ → Regex
digits n = exactly n (one_of is_digit)

abbrev letter : ℕ → Regex
letter c = one_of (nat_eq c)

-- `/^\d{4}-\d{2}-\d{2}T\d{2}:\d{2}:\d{2}(?:\.\d{1,9})?(?:Z|[+-]\d{2}:\d{2})$/u`
abbrev timestamp_pattern : Regex
timestamp_pattern = sequence (
    digits 4
    ∷ letter b'-'
    ∷ digits 2
    ∷ letter b'-'
    ∷ digits 2
    ∷ letter b'T'
    ∷ digits 2
    ∷ letter b':'
    ∷ digits 2
    ∷ letter b':'
    ∷ digits 2
    ∷ optional (sequence (letter b'.' ∷ digits 1 ∷ up_to 8 (one_of is_digit) ∷ []))
    ∷ either (letter b'Z')
        (sequence (either (letter b'+') (letter b'-') ∷ digits 2 ∷ letter b':' ∷ digits 2 ∷ []))
    ∷ [])

module _ ⦃dates : Dates⦄ where
  unfoldable pub is_timestamp : String → Bool
  is_timestamp text = matches timestamp_pattern text && dates.is_finite_date text

  abbrev pub make_iso_timestamp : Unknown → String → Made String
  make_iso_timestamp value field =
      make_text is_timestamp " must be a valid RFC 3339 timestamp" value field

-- `value.trim() !== ""`
unfoldable pub is_filled : String → Bool
is_filled text = not (is_blank text)

-- `makeNonEmptyText`, and `makeTextBrand`, which is the same
abbrev pub make_non_empty_text : Unknown → String → Made String
make_non_empty_text value field = make_text is_filled " must be non-empty text" value field

abbrev in_origin : ℕ → Bool
in_origin c = is_lower c || (is_digit c || (nat_eq c b'.' || (nat_eq c b'_' || nat_eq c b'-')))

abbrev is_lower_or_digit : ℕ → Bool
is_lower_or_digit c = is_lower c || is_digit c

-- `/^[a-z0-9](?:[a-z0-9._-]{0,127})$/u`
unfoldable pub is_origin : String → Bool
is_origin text = matches (chain (one_of is_lower_or_digit) (up_to 127 (one_of in_origin))) text

abbrev pub make_runner_type_origin : Unknown → String → Made String
make_runner_type_origin value field =
    make_text is_origin " must be a lowercase committed origin" value field

abbrev in_type_key : ℕ → Bool
in_type_key c = in_origin c || nat_eq c b'/'

-- `/^[a-z0-9](?:[a-z0-9._/-]*[a-z0-9])?$/u`
unfoldable pub is_type_key : String → Bool
is_type_key text =
    not (ltb 192 (text_length text))
    && (matches
          (chain (one_of is_lower_or_digit)
            (optional (chain (many (one_of in_type_key)) (one_of is_lower_or_digit))))
          text
        && not (has_part text "//"))

abbrev pub make_runner_type_key : Unknown → String → Made String
make_runner_type_key value field =
    make_text is_type_key " must be a lowercase stable type key" value field

-- `[A-Za-z-]`
abbrev is_letter_or_dash : ℕ → Bool
is_letter_or_dash c = is_upper c || (is_lower c || nat_eq c b'-')

-- `0|[1-9]\d*`
abbrev version_number : Regex
version_number =
    either (letter b'0') (chain (one_of (is_between b'1' b'9')) (many (one_of is_digit)))

-- `0|[1-9]\d*|\d*[A-Za-z-][0-9A-Za-z-]*`
abbrev pre_release : Regex
pre_release =
    either version_number
      (sequence (many (one_of is_digit) ∷ one_of is_letter_or_dash ∷ many (one_of in_dashed) ∷ []))

-- `SEMVER`
unfoldable pub is_semantic_version : String → Bool
is_semantic_version text =
    matches
      (sequence (
        version_number
        ∷ letter b'.'
        ∷ version_number
        ∷ letter b'.'
        ∷ version_number
        ∷ optional
            (sequence (letter b'-' ∷ pre_release ∷ many (chain (letter b'.') pre_release) ∷ []))
        ∷ optional (
            sequence (
              letter b'+'
              ∷ some_of (one_of in_dashed)
              ∷ many (chain (letter b'.') (some_of (one_of in_dashed)))
              ∷ []))
        ∷ []))
      text

abbrev pub make_runner_schema_version : Unknown → String → Made String
make_runner_schema_version value field =
    make_text is_semantic_version " must be an exact semantic version" value field

abbrev in_base64 : ℕ → Bool
in_base64 c = is_alphanumeric c || (nat_eq c b'+' || nat_eq c b'/')

-- `/^(?:[A-Za-z0-9+/]{4})*(?:[A-Za-z0-9+/]{2}==|[A-Za-z0-9+/]{3}=)?$/u`
unfoldable pub is_base64 : String → Bool
is_base64 text =
    not (nat_eq (text_length text) 0 || not (nat_eq (text_length text % 4) 0))
    && matches
        (chain (many (exactly 4 (one_of in_base64))) (
          optional (
            either (chain (exactly 2 (one_of in_base64)) (literal "=="))
              (chain (exactly 3 (one_of in_base64)) (literal "=")))))
        text

abbrev pub make_base64_payload : Unknown → String → Made String
make_base64_payload value field = make_text is_base64 " must be canonical padded base64" value field

abbrev make_natural : ℕ → String → Made ℕ
make_natural n field =
    if is_safe_integer n then ok n else refused field " must be a non-negative safe integer"

-- A negative zero passes for 0.
abbrev pub make_non_negative_integer : Unknown → String → Made ℕ
make_non_negative_integer (number (natural n)) field = make_natural n field
make_non_negative_integer negative_zero field = ok 0
make_non_negative_integer _ field = refused field " must be a non-negative safe integer"

module _ {ℓ} {A : Type ℓ} where
  abbrev pub make_non_empty_array : List A → String → Made (List A)
  make_non_empty_array values field =
      if is_empty values then refused field " must contain at least one item" else ok values

  abbrev pub make_at_least_two : List A → String → Made (List A)
  make_at_least_two values field =
      if leb 2 (length values) then ok values else refused field " must contain at least two items"
