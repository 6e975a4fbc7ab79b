-- ===== src/Regex.antt =====
-- Python's `re`, as far as the program's patterns go: greedy backtracking over code points, with
-- numbered groups.
pub mod Language
pub mod Greedy
pub mod Found
use mail_tester.Prelude.{
  ℕ, zero, suc, ◌-◌, Bool, true, false, Option, none, some, List, [], ◌∷◌, ◌++◌, map, Text, String,
  codes, length, take, leb, ◌==◌, ◌&&◌, ◌||◌, if◌then◌else◌, is_some, lower_char, is_space,
}

-- `empty` matches the empty text, `class p` one character that satisfies `p`, `end` is `$`. The
-- operators of the source are `seq`, `alt` (`|`), `star` (`*`) and `group` (parentheses).
pub data Regex : Type 0 where
  empty : Regex
  class : (ℕ → Bool) → Regex
  seq alt : Regex → Regex → Regex
  star : Regex → Regex
  group : Regex → Regex
  end : Regex

-- A way to match: what is left of the text, and the groups.
abbrev pub Match : Type 0
Match = Text × List Text

abbrev pub flat_map : {A B : Type 0} → (A → List B) → List A → List B
flat_map f [] = []
flat_map f (x ∷ xs) = f x ++ flat_map f xs

abbrev with_groups : List Text → Match → Match
with_groups gs (rest, hs) = (rest, gs ++ hs)

-- The ways to match one more time, then the way to stop. A round that takes nothing ends the loop,
-- and no more rounds are needed than the text has characters.
unfoldable pub star_ways : (Text → List Match) → ℕ → Text → List Match
star_ways ways zero s = (s, []) ∷ []
star_ways ways (suc n) s =
    flat_map
      (λ (m : Match).
        if leb (length s) (length m.0) then [] else map (with_groups m.1) (star_ways ways n m.0))
      (ways s)
    ++ (s, []) ∷ []

abbrev captured : Text → Match → Match
captured s (rest, gs) = (rest, take (length s - length rest) s ∷ gs)

-- All ways to match at the front of a text, the preferred first.
unfoldable pub ways : Regex → Text → List Match
unfolding star_ways
ways empty s = (s, []) ∷ []
ways (class p) [] = []
ways (class p) (c ∷ s) = if p c then (s, []) ∷ [] else []
ways (seq a b) s = flat_map (λ (m : Match). map (with_groups m.1) (ways b m.0)) (ways a s)
ways (alt a b) s = ways a s ++ ways b s
ways (star a) s = star_ways (ways a) (length s) s
ways (group a) s = map (captured s) (ways a s)
ways end [] = ([], []) ∷ []
ways end (c ∷ []) = if c == 10 then (c ∷ [], []) ∷ [] else []
ways end (c ∷ d ∷ s) = []

abbrev preferred : List Match → Option (List Text)
preferred [] = none
preferred ((rest, gs) ∷ ms) = some gs

-- `re.match`, with the groups.
unfoldable pub match_front : Regex → Text → Option (List Text)
unfolding ways
match_front r s = preferred (ways r s)

-- `re.search`: the leftmost place at which the pattern matches.
unfoldable pub search_text : Regex → Text → Option (List Text)
unfolding match_front
search_text r [] = match_front r []
search_text r (c ∷ s) =
    let later = search_text r s in elim (match_front r (c ∷ s)) [ none ↦ later | some gs ↦ some gs ]

-- `m.group(n)`, counted from 1.
abbrev pub group_of : ℕ → Option (List Text) → Option Text
group_of n none = none
group_of n (some []) = none
group_of zero (some (g ∷ gs)) = none
group_of (suc zero) (some (g ∷ gs)) = some g
group_of (suc (suc n)) (some (g ∷ gs)) = group_of (suc n) (some gs)

-- The usual pieces of a pattern.
abbrev pub plus : Regex → Regex
plus a = seq a (star a)

abbrev pub optional : Regex → Regex
optional a = alt a empty

abbrev pub char : ℕ → Regex
char c = class (λ d. c == d)

abbrev pub is_digit : ℕ → Bool
is_digit c = leb b'0' c && leb c b'9'

abbrev pub digit : Regex
digit = class is_digit

abbrev pub space : Regex
space = class is_space

abbrev pub nonspace : Regex
nonspace = class (λ c. if is_space c then false else true)

-- A literal, and a literal under `re.IGNORECASE`.
abbrev pub literal : Text → Regex
literal [] = empty
literal (c ∷ s) = seq (char c) (literal s)

abbrev pub literal_nocase : Text → Regex
literal_nocase [] = empty
literal_nocase (c ∷ s) = seq (class (λ d. lower_char c == lower_char d)) (literal_nocase s)

abbrev pub first_way : List Match → Option Match
first_way [] = none
first_way (m ∷ ms) = some m

-- The first group of each match.
abbrev cons_group : List Text → List Text → List Text
cons_group [] found = found
cons_group (g ∷ gs) found = g ∷ found

-- `re.findall` with one group: the matches from left to right, where the first `skip` characters
-- belong to the match before.
unfoldable pub findall_after : Regex → ℕ → Text → List Text
unfolding ways
findall_after r skip [] = []
findall_after r (suc skip) (c ∷ s) = findall_after r skip s
findall_after r zero (c ∷ s) = elim (first_way (ways r (c ∷ s))) [
  | none ↦ findall_after r zero s
  | some m ↦ cons_group m.1 (findall_after r (length s - length m.0) s)
]

unfoldable pub findall : Regex → Text → List Text
unfolding findall_after
findall r s = findall_after r zero s
