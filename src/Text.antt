-- ===== src/Text.antt =====
-- Texts as lists of code points, for the regular expressions of the source.
use Prim.Native.Char.{code}
use Prim.Native.Nat.{◌/◌, ◌%◌}
use Prim.Native.String.{String, slice, ◌++◌ as text_append}
use hunsu.Base.{
  ℕ, zero, suc, ◌+◌, ◌-◌, Bool, true, false, ◌&&◌, ◌||◌, not, ltb, nat_eq, List, [], ◌∷◌, ◌++◌,
  if◌then◌else◌,
}
use hunsu.Lists.{length, every}

-- The code points of a text, which `for (const symbol of text)` visits.
abbrev pub codes : String → List ℕ
codes String.[] = []
codes (String.◌∷◌ c s) = code c ∷ codes s

-- `a <= b` on numbers
abbrev pub leb : ℕ → ℕ → Bool
leb a b = not (ltb b a)

abbrev pub is_between : ℕ → ℕ → ℕ → Bool
is_between low high c = leb low c && leb c high

-- `[0-9]`, `[a-z]`, `[A-Z]`
unfoldable pub is_digit : ℕ → Bool
is_digit c = is_between b'0' b'9' c

unfoldable pub is_lower : ℕ → Bool
is_lower c = is_between b'a' b'z' c

unfoldable pub is_upper : ℕ → Bool
is_upper c = is_between b'A' b'Z' c

-- `[A-Za-z0-9]`
unfoldable pub is_alphanumeric : ℕ → Bool
unfolding is_digit is_lower is_upper
is_alphanumeric c = is_upper c || (is_lower c || is_digit c)

-- `[A-Za-z0-9_-]`
unfoldable pub is_token : ℕ → Bool
unfolding is_alphanumeric
is_token c = is_alphanumeric c || (nat_eq c b'_' || nat_eq c b'-')

-- `[0-9a-f]`
unfoldable pub is_hex : ℕ → Bool
unfolding is_digit
is_hex c = is_digit c || is_between b'a' b'f' c

-- `^[class]{n}$`
unfoldable pub has_exactly : ℕ → (ℕ → Bool) → String → Bool
has_exactly n class text = every class (codes text) && nat_eq (length (codes text)) n

-- `Number.isSafeInteger`, on numbers that are not negative
abbrev pub is_safe_integer : ℕ → Bool
is_safe_integer n = leb n 9_007_199_254_740_991

-- The UTF-16 units of a code point: strings are measured, cut and sorted by them.
abbrev utf16_of : ℕ → List ℕ
utf16_of c =
    if ltb c 65536 then c ∷ [] else (55296 + (c - 65536) / 1024) ∷ (56320 + (c - 65536) % 1024) ∷ []

abbrev utf16_of_all : List ℕ → List ℕ
utf16_of_all [] = []
utf16_of_all (c ∷ cs) = utf16_of c ++ utf16_of_all cs

unfoldable pub utf16 : String → List ℕ
utf16 text = utf16_of_all (codes text)

-- `text.length`
abbrev pub text_length : String → ℕ
text_length text = length (utf16 text)

-- `<` of strings, on their units
abbrev pub units_before : List ℕ → List ℕ → Bool
units_before [] [] = false
units_before [] (_ ∷ _) = true
units_before (_ ∷ _) [] = false
units_before (a ∷ left) (b ∷ right) =
    let rest = units_before left right in if nat_eq a b then rest else ltb a b

abbrev pub starts : List ℕ → List ℕ → Bool
starts [] _ = true
starts (_ ∷ _) [] = false
starts (a ∷ left) (b ∷ right) = nat_eq a b && starts left right

abbrev pub contains : List ℕ → List ℕ → Bool
contains part [] = starts part []
contains part (c ∷ cs) = starts part (c ∷ cs) || contains part cs

abbrev pub ends : List ℕ → List ℕ → Bool
ends part [] = starts part []
ends part (c ∷ cs) =
    (starts part (c ∷ cs) && nat_eq (length part) (suc (length cs))) || ends part cs

-- `text.startsWith(part)`, `text.includes(part)`, `text.endsWith(part)`
unfoldable pub starts_with : String → String → Bool
starts_with text part = starts (codes part) (codes text)

unfoldable pub has_part : String → String → Bool
has_part text part = contains (codes part) (codes text)

unfoldable pub ends_with : String → String → Bool
ends_with text part = ends (codes part) (codes text)

abbrev pub first_segment : ℕ → List ℕ → List ℕ × List (List ℕ)
first_segment separator [] = ([], [])
first_segment separator (c ∷ cs) =
    let (segment, segments) = first_segment separator cs in
    if nat_eq c separator then ([], segment ∷ segments) else (c ∷ segment, segments)

-- `text.split(separator)`, for a separator of one character
unfoldable pub split : ℕ → String → List (List ℕ)
split separator text =
    let (segment, segments) = first_segment separator (codes text) in segment ∷ segments

abbrev pub drop_codes : ℕ → List ℕ → List ℕ
drop_codes zero cs = cs
drop_codes (suc n) [] = []
drop_codes (suc n) (_ ∷ cs) = drop_codes n cs

-- The characters that `trim` takes off.
unfoldable pub is_space : ℕ → Bool
is_space c =
    is_between 9 13 c
    || (nat_eq c 32
        || (nat_eq c 160
            || (nat_eq c 5760
                || (is_between 8192 8202 c
                    || (is_between 8232 8233 c
                        || (nat_eq c 8239
                            || (nat_eq c 8287 || (nat_eq c 12288 || nat_eq c 65279))))))))

-- `text.trim() === ""`
unfoldable pub is_blank : String → Bool
is_blank text = every is_space (codes text)

abbrev digit_text : ℕ → String
digit_text d = slice "0123456789" d (d + 1)

-- One step for each digit; a number has fewer digits than its value plus one.
abbrev decimal_within : ℕ → ℕ → String
decimal_within zero n = ""
decimal_within (suc fuel) n =
    let front = decimal_within fuel (n / 10) in
    if ltb n 10 then digit_text n else text_append front (digit_text (n % 10))

-- `String(n)`
unfoldable pub decimal : ℕ → String
decimal n = decimal_within (suc n) n
