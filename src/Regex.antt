-- ===== src/Regex.antt =====
-- Regular expressions, for the patterns of packages/protocol/src/primitives.ts: a pattern `/^…$/u` is
-- matched against a whole text, one character after the other.
use hunsu.Base.{
  ℕ, zero, suc, String, Bool, true, false, ◌&&◌, ◌||◌, nat_eq, List, [], ◌∷◌, if◌then◌else◌,
}
use hunsu.Text.{codes}

pub data Regex : Type 0 where
  never nothing : Regex
  -- One character of a class.
  one_of : (ℕ → Bool) → Regex
  chain : Regex → Regex → Regex
  either : Regex → Regex → Regex
  many : Regex → Regex

abbrev accepts_nothing : Regex → Bool
accepts_nothing never = false
accepts_nothing nothing = true
accepts_nothing (one_of _) = false
accepts_nothing (chain r s) = accepts_nothing r && accepts_nothing s
accepts_nothing (either r s) = accepts_nothing r || accepts_nothing s
accepts_nothing (many _) = true

abbrev followed : Regex → Regex → Regex
followed never s = never
followed nothing s = s
followed r s = chain r s

abbrev or_else : Regex → Regex → Regex
or_else never s = s
or_else r never = r
or_else r s = either r s

-- What has to follow after one character.
abbrev after : ℕ → Regex → Regex
after c never = never
after c nothing = never
after c (one_of class) = if class c then nothing else never
after c (chain r s) =
    let first = followed (after c r) s in
    let second = after c s in if accepts_nothing r then or_else first second else first
after c (either r s) = or_else (after c r) (after c s)
after c (many r) = followed (after c r) (many r)

abbrev matches_codes : Regex → List ℕ → Bool
matches_codes r [] = accepts_nothing r
matches_codes r (c ∷ cs) = matches_codes (after c r) cs

unfoldable pub matches : Regex → String → Bool
matches r text = matches_codes r (codes text)

-- `r?`
abbrev pub optional : Regex → Regex
optional r = either nothing r

-- `r+`
abbrev pub some_of : Regex → Regex
some_of r = chain r (many r)

-- `r{0,n}`
abbrev pub up_to : ℕ → Regex → Regex
up_to zero r = nothing
up_to (suc n) r = either nothing (chain r (up_to n r))

-- `r{n}`
abbrev pub exactly : ℕ → Regex → Regex
exactly zero r = nothing
exactly (suc n) r = chain r (exactly n r)

abbrev literal_codes : List ℕ → Regex
literal_codes [] = nothing
literal_codes (c ∷ cs) = chain (one_of (nat_eq c)) (literal_codes cs)

abbrev pub literal : String → Regex
literal text = literal_codes (codes text)

-- One pattern after the other.
abbrev pub sequence : List Regex → Regex
sequence [] = nothing
sequence (r ∷ rs) = chain r (sequence rs)
