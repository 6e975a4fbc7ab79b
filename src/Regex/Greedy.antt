-- ===== src/Regex/Greedy.antt =====
-- The way to match that the matcher prefers, for patterns that need no backtracking.
use mathlib.Core.Option.{some-injective}
use mail_tester.Prelude.{
  ℕ, zero, suc, ◌≤◌, ◌≡◌, ◌∙◌, refl, ap, arith, Bool, true, false, ◌&&◌, not, some, List, [], ◌∷◌,
  ◌++◌, map, Text, length, length-append, leb,
}
use mail_tester.Regex.{
  Regex, class, seq, star, group, end, plus, Match, ways, star_ways, flat_map, with_groups,
  captured, first_way, preferred, match_front,
}
use mail_tester.Regex.Language.{take-length-append}

-- The matcher prefers to leave `rest`, with these groups.
abbrev pub IsFirst : Regex → Text → Text → List Text → Type 0
IsFirst r s rest gs = first_way (ways r s) ≡ some (rest, gs)

first-append :
    (ms ns : List Match) (m : Match) → first_way ms ≡ some m → first_way (ms ++ ns) ≡ some m
first-append [] ns m e = ground arith
first-append (k ∷ ms) ns m e = e

first-map :
    (f : Match → Match) (ms : List Match) (m : Match)
    → first_way ms ≡ some m
    → first_way (map f ms) ≡ some (f m)
first-map f [] m e = ground arith
first-map f (k ∷ ms) m e = ap (λ x. some (f x)) (some-injective k m e)

first-flat_map :
    (f : Match → List Match) (ms : List Match) (m n : Match)
    → first_way ms ≡ some m
    → first_way (f m) ≡ some n
    → first_way (flat_map f ms) ≡ some n
first-flat_map f [] m n e h = ground arith
first-flat_map f (k ∷ ms) m n e h =
    first-append (f k) (flat_map f ms) n (ap (λ x. first_way (f x)) (some-injective k m e) ∙ h)

pub seq-IsFirst :
    (a b : Regex) (s t u : Text) (gs hs : List Text)
    → IsFirst a s t gs
    → IsFirst b t u hs
    → IsFirst (seq a b) s u (gs ++ hs)
unfolding ways
seq-IsFirst a b s t u gs hs e f =
    first-flat_map _ (ways a s) (t, gs) (u, gs ++ hs) e
      (first-map (with_groups gs) (ways b t) (u, hs) f)

pub group-IsFirst :
    (a : Regex) (w t : Text) (gs : List Text)
    → IsFirst a (w ++ t) t gs
    → IsFirst (group a) (w ++ t) t (w ∷ gs)
unfolding ways
group-IsFirst a w t gs e =
    first-map (captured (w ++ t)) (ways a (w ++ t)) (t, gs) e
    ∙ ap (λ x. some (t, x ∷ gs)) (take-length-append w t)

unfoldable pub all_chars : (ℕ → Bool) → Text → Bool
all_chars p [] = true
all_chars p (c ∷ s) = p c && all_chars p s

abbrev pub stops : (ℕ → Bool) → Text → Bool
stops p [] = true
stops p (c ∷ s) = not (p c)

leb-suc : (n : ℕ) → leb (suc n) n ≡ false
leb-suc n = ground arith

module _ (p : ℕ → Bool) where
  star_ways-stops :
      (n : ℕ) (t : Text)
      → stops p t ≡ true
      → first_way (star_ways (ways (class p)) n t) ≡ some (t, [])
  unfolding star_ways ways
  star_ways-stops zero t e = refl
  star_ways-stops (suc n) [] e = refl
  star_ways-stops (suc n) (c ∷ t) e = ground arith

  star_ways-first :
      (n : ℕ) (w t : Text)
      → length w ≤ n
      → all_chars p w ≡ true
      → stops p t ≡ true
      → first_way (star_ways (ways (class p)) n (w ++ t)) ≡ some (t, [])
  unfolding star_ways ways all_chars
  star_ways-first n [] t h k e = star_ways-stops n t e
  star_ways-first zero (c ∷ w) t h k e = ground arith
  star_ways-first (suc n) (c ∷ w) t h k e =
      rw (char k, leb-suc (length (w ++ t)))
        (first-append (map (with_groups []) (star_ways (ways (class p)) n (w ++ t)) ++ []) _ (t, [])
          (first-append (map (with_groups []) (star_ways (ways (class p)) n (w ++ t))) [] (t, [])
            (first-map (with_groups []) (star_ways (ways (class p)) n (w ++ t)) (t, [])
              (star_ways-first n w t (omega arith) (ground arith) e))))
    where
      char : (p c && all_chars p w) ≡ true → p c ≡ true
      char k = ground arith

  pub star-IsFirst :
      (w t : Text)
      → all_chars p w ≡ true
      → stops p t ≡ true
      → IsFirst (star (class p)) (w ++ t) t []
  unfolding ways
  star-IsFirst w t k e =
      star_ways-first (length (w ++ t)) w t (omega (arith, length-append w t)) k e

  class-IsFirst : (c : ℕ) (s : Text) → p c ≡ true → IsFirst (class p) (c ∷ s) s []
  unfolding ways
  class-IsFirst c s h = rw h refl

  pub plus-IsFirst :
      (c : ℕ) (w t : Text)
      → all_chars p (c ∷ w) ≡ true
      → stops p t ≡ true
      → IsFirst (plus (class p)) (c ∷ (w ++ t)) t []
  unfolding all_chars
  plus-IsFirst c w t k e =
      seq-IsFirst (class p) (star (class p)) (c ∷ (w ++ t)) (w ++ t) t [] []
        (class-IsFirst c (w ++ t) (ground arith)) (star-IsFirst w t (ground arith) e)

pub end-IsFirst : IsFirst end [] [] []
unfolding ways
end-IsFirst = refl

preferred-first :
    (ms : List Match) (rest : Text) (gs : List Text)
    → first_way ms ≡ some (rest, gs)
    → preferred ms ≡ some gs
preferred-first [] rest gs e = ground arith
preferred-first ((r, hs) ∷ ms) rest gs e =
    ap (λ (m : Match). some m.1) (some-injective (r, hs) (rest, gs) e)

pub match_front-IsFirst :
    (r : Regex) (s rest : Text) (gs : List Text) → IsFirst r s rest gs → match_front r s ≡ some gs
unfolding match_front
match_front-IsFirst r s rest gs e = preferred-first (ways r s) rest gs e
