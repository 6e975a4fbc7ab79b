-- ===== src/Prelude/Texts.antt =====
-- Python's `str` as the list of its code points, with the methods that the program calls. Case and
-- white space are those of ASCII.
use Prim.Native.Char.{code}
use Prim.Native.String.{String}
use Prim.Native.Nat.{ℕ, ◌+◌}
use mathlib.Core.Path.{◌≡◌, refl}
use mathlib.Core.Logic.{◌↔◌}
use mathlib.Core.Bool.{Bool, true, false, ◌&&◌, ◌||◌}
use mathlib.Core.Option.{Option, none, some}
use mathlib.Core.List.{List, [], ◌∷◌, ◌++◌, map, reverse}
use native.Mathlib.Omega.{arith}
use mail_tester.Prelude.Tests.{leb, ◌==◌, if◌then◌else◌}

abbrev pub Text : Type 0
Text = List ℕ

-- The code points of a literal.
abbrev pub codes : String → Text
codes String.[] = []
codes (String.◌∷◌ c s) = code c ∷ codes s

infix 50 ◌=ᵗ◌
unfoldable pub ◌=ᵗ◌ : Text → Text → Bool
◌=ᵗ◌ [] [] = true
◌=ᵗ◌ [] (d ∷ t) = false
◌=ᵗ◌ (c ∷ s) [] = false
◌=ᵗ◌ (c ∷ s) (d ∷ t) = (c == d) && (s =ᵗ t)

pub =ᵗ_sound : (s t : Text) → (s =ᵗ t) ≡ true → s ≡ t
unfolding ◌=ᵗ◌
=ᵗ_sound [] [] h = refl
=ᵗ_sound [] (d ∷ t) h = ground arith
=ᵗ_sound (c ∷ s) [] h = ground arith
=ᵗ_sound (c ∷ s) (d ∷ t) h = ground (arith, =ᵗ_sound s t)

pub =ᵗ_refl : (s : Text) → (s =ᵗ s) ≡ true
unfolding ◌=ᵗ◌
=ᵗ_refl [] = refl
=ᵗ_refl (c ∷ s) = ground (arith, =ᵗ_refl s)

pub =ᵗ_iff : (s t : Text) → ((s =ᵗ t) ≡ true) ↔ (s ≡ t)
=ᵗ_iff s t = (=ᵗ_sound s t, λ e. rw e (=ᵗ_refl t))

-- An absent text equals no text.
abbrev pub is_text : Option Text → Text → Bool
is_text none t = false
is_text (some s) t = s =ᵗ t

-- `c.lower()` and `s.lower()`
unfoldable pub lower_char : ℕ → ℕ
lower_char c = if leb b'A' c && leb c b'Z' then c + 32 else c

abbrev pub lower : Text → Text
lower = map lower_char

pub lower_char_idem : (c : ℕ) → lower_char (lower_char c) ≡ lower_char c
unfolding lower_char
lower_char_idem c = ground arith

pub lower_idem : (s : Text) → lower (lower s) ≡ lower s
lower_idem [] = refl
lower_idem (c ∷ s) = rw (lower_char_idem c, lower_idem s)

-- `s.lstrip(…)`, `s.rstrip(…)` and `s.strip(…)` for the characters that satisfy `p`.
module _ (p : ℕ → Bool) where
  unfoldable pub lstrip : Text → Text
  lstrip [] = []
  lstrip (c ∷ s) = if p c then lstrip s else c ∷ s

  -- Keeps `c` unless it and all after it is stripped.
  abbrev keep_unless : ℕ → Text → Text
  keep_unless c [] = if p c then [] else c ∷ []
  keep_unless c (d ∷ s) = c ∷ d ∷ s

  unfoldable pub rstrip : Text → Text
  rstrip [] = []
  rstrip (c ∷ s) = keep_unless c (rstrip s)

  unfoldable pub strip : Text → Text
  unfolding lstrip rstrip
  strip s = rstrip (lstrip s)

-- The white space of `str.strip` with no argument: HT, LF, VT, FF, CR, FS to US, and the space.
abbrev pub is_space : ℕ → Bool
is_space c = (leb 9 c && leb c 13) || (leb 28 c && leb c 32)

abbrev pub is_dot : ℕ → Bool
is_dot c = c == b'.'

unfoldable pub starts_with : Text → Text → Bool
starts_with s [] = true
starts_with [] (d ∷ t) = false
starts_with (c ∷ s) (d ∷ t) = (c == d) && starts_with s t

-- `s.endswith(t)`
abbrev pub ends_with : Text → Text → Bool
ends_with s t = starts_with (reverse s) (reverse t)

-- `c in s`
unfoldable pub has_char : ℕ → Text → Bool
has_char c [] = false
has_char c (d ∷ s) = (c == d) || has_char c s

-- `s.count(c)`
unfoldable pub count_char : ℕ → Text → ℕ
count_char c [] = 0
count_char c (d ∷ s) = (if c == d then 1 else 0) + count_char c s

abbrev cons_first : ℕ → List Text → List Text
cons_first c [] = (c ∷ []) ∷ []
cons_first c (w ∷ ws) = (c ∷ w) ∷ ws

-- `s.split(c)`
unfoldable pub split : ℕ → Text → List Text
split c [] = [] ∷ []
split c (d ∷ s) = let ws = split c s in if c == d then [] ∷ ws else cons_first d ws

-- `c.join(ws)`
unfoldable pub join : ℕ → List Text → Text
join c [] = []
join c (w ∷ []) = w
join c (w ∷ v ∷ ws) = w ++ (c ∷ join c (v ∷ ws))

-- `s.split(c, 1)`, if `c` is in `s`: what stands before the first `c`, and after it.
unfoldable pub split_once : ℕ → Text → Option (Text × Text)
split_once c [] = none
split_once c (d ∷ s) =
    if c == d
    then some ([], s)
    else elim (split_once c s) [ none ↦ none | some (a, b) ↦ some (d ∷ a, b) ]

-- `s.rsplit(c, 1)[-1]`: what stands after the last `c`, all of `s` if there is none.
unfoldable pub after_last : ℕ → Text → Text
unfolding has_char
after_last c [] = []
after_last c (d ∷ s) =
    let rest = after_last c s in if has_char c s then rest else if c == d then s else d ∷ s
