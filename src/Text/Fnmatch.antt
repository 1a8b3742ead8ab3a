-- ===== src/Text/Fnmatch.antt =====
-- `fnmatch.fnmatch` of Python's standard library, on a system whose file names keep their case:
-- `*`, `?`, `[seq]` and `[!seq]`, where a `[` with no `]` after it stands for itself.
use agdd.Prelude.{
  ℕ, zero, suc, String, ◌≡◌, refl, Bool, true, false, not, ◌&&◌, ◌||◌, Option, none, some, List, [],
  ◌∷◌, ◌==◌, leb, if◌then◌else◌, length,
}
use agdd.Text.{codes}

-- A range of characters in brackets; a single character is a range of one.
abbrev Range : Type 0
Range = ℕ × ℕ

pub data Token : Type 0 where
  star any : Token
  literal : ℕ → Token
  seq : Bool → List Range → Token

ranges : List ℕ → List Range
ranges [] = []
ranges (a ∷ []) = (a, a) ∷ []
ranges (a ∷ b ∷ []) = (a, a) ∷ (b, b) ∷ []
ranges (a ∷ b ∷ c ∷ rest) = elim (b == b'-') [
  | true ↦ (a, c) ∷ ranges rest
  | false ↦ (a, a) ∷ ranges (b ∷ c ∷ rest)
]

-- The text before the first `]`, and the text after it.
split_bracket : List ℕ → Option (List ℕ × List ℕ)
split_bracket [] = none
split_bracket (c ∷ s) =
    let rest = split_bracket s in
    if c == b']' then some ([], s) else elim rest [ none ↦ none | some (a, b) ↦ some (c ∷ a, b) ]

-- After `[` and an optional `!`, a `]` that comes first does not close.
close_bracket : List ℕ → Option (List ℕ × List ℕ)
unfolding split_bracket
close_bracket [] = none
close_bracket (c ∷ s) = elim (split_bracket s) [ none ↦ none | some (a, b) ↦ some (c ∷ a, b) ]

bracket : List ℕ → Option (Token × List ℕ)
unfolding close_bracket ranges
bracket [] = none
bracket (c ∷ s) =
    if c == b'!'
    then elim (close_bracket s) [ none ↦ none | some (a, b) ↦ some (seq true (ranges a), b) ]
    else elim (close_bracket (c ∷ s)) [ none ↦ none | some (a, b) ↦ some (seq false (ranges a), b) ]

-- The fuel bounds the characters left; the length of the pattern is enough.
tokens : ℕ → List ℕ → List Token
unfolding bracket
tokens zero p = []
tokens (suc n) [] = []
tokens (suc n) (c ∷ p) =
    let plain = tokens n p in
    if c == b'*'
    then star ∷ plain
    else if c == b'?'
    then any ∷ plain
    else if c == b'['
    then elim (bracket p) [ none ↦ literal c ∷ plain | some (t, q) ↦ t ∷ tokens n q ]
    else literal c ∷ plain

in_ranges : ℕ → List Range → Bool
in_ranges c [] = false
in_ranges c ((a, b) ∷ rs) = leb a c && leb c b || in_ranges c rs

matches_char : Token → ℕ → Bool
unfolding in_ranges
matches_char star c = false
matches_char any c = true
matches_char (literal d) c = c == d
matches_char (seq negated rs) c = if negated then not (in_ranges c rs) else in_ranges c rs

pub matches : List Token → List ℕ → Bool
unfolding matches_char
matches [] [] = true
matches [] (c ∷ s) = false
matches (star ∷ ts) [] = matches ts []
matches (star ∷ ts) (c ∷ s) = elim (matches ts (c ∷ s)) [
  | true ↦ true
  | false ↦ matches (star ∷ ts) s
]
matches (t ∷ ts) [] = false
matches (t ∷ ts) (c ∷ s) = matches_char t c && matches ts s

unfoldable pub fnmatch : String → String → Bool
unfolding tokens matches
fnmatch name pattern = let p = codes pattern in matches (tokens (length p) p) (codes name)

test_star : fnmatch "fs.write_file" "*.write_*" ≡ true
unfolding fnmatch
test_star = refl

test_class : fnmatch "a1" "[!b-z][0-3]" ≡ true
unfolding fnmatch
test_class = refl

test_open : fnmatch "a[" "a[" ≡ true
unfolding fnmatch
test_open = refl

test_miss : fnmatch "fs.read_file" "*.write_?*" ≡ false
unfolding fnmatch
test_miss = refl
