-- ===== src/Regex/Found.antt =====
-- The places that `findall` finds: each stands in the text.
use mathlib.Core.Option.{some-injective}
use mathlib.Core.Path.{subst}
use mail_tester.Prelude.{
  ℕ, zero, suc, ◌-◌, ◌≡◌, refl, none, some, List, [], ◌∷◌, Text, length, All, Option-cases, inl,
  inr,
}
use mail_tester.Regex.{Regex, Match, ways, first_way, cons_group, findall_after, findall}
use mail_tester.Regex.Language.{IsWay, ways-IsWay, IsFound, later-IsFound}

-- A group of a place where the pattern is found.
abbrev pub IsGroup : Regex → Text → Text → Type 0
IsGroup r s g = (gs : List Text) × IsFound r s (g ∷ gs)

later-All :
    (r : Regex) (c : ℕ) (s : Text) (found : List Text)
    → All (IsGroup r s) found
    → All (IsGroup r (c ∷ s)) found
later-All r c s [] h = tt
later-All r c s (g ∷ found) ((gs, f), h) =
    ((gs, later-IsFound r c s (g ∷ gs) f), later-All r c s found h)

first_way-All :
    (P : Match → Type 0) (ms : List Match) (m : Match) → All P ms → first_way ms ≡ some m → P m
first_way-All P [] m h e = cc
first_way-All P (k ∷ ms) m (p, h) e = subst P (some-injective k m e) p

front-All :
    (r : Regex) (s : Text) (rest : Text) (hs found : List Text)
    → IsWay r s (rest, hs)
    → All (IsGroup r s) found
    → All (IsGroup r s) (cons_group hs found)
front-All r s rest [] found w h = h
front-All r s rest (g ∷ gs) found w h =
    ((gs, record { before = []; taken = w.0; after = rest; place = w.1; matches = w.2 }), h)

module _ (r : Regex) (c : ℕ) (s : Text) where
  findall_after-moves :
      first_way (ways r (c ∷ s)) ≡ none → findall_after r zero (c ∷ s) ≡ findall_after r zero s
  unfolding findall_after
  findall_after-moves e = rw (e, findall_after) refl

  findall_after-takes :
      (m : Match)
      → first_way (ways r (c ∷ s)) ≡ some m
      → findall_after r zero (c ∷ s) ≡ cons_group m.1 (findall_after r (length s - length m.0) s)
  unfolding findall_after
  findall_after-takes m e = rw (e, findall_after) refl

-- The groups that are found stand where the pattern is found.
findall_after-IsFound :
    (r : Regex) (skip : ℕ) (s : Text) → All (IsGroup r s) (findall_after r skip s)
unfolding findall_after
findall_after-IsFound r skip [] = tt
findall_after-IsFound r (suc skip) (c ∷ s) = later-All r c s _ (findall_after-IsFound r skip s)
findall_after-IsFound r zero (c ∷ s) = elim (Option-cases (first_way (ways r (c ∷ s)))) [
  | inl e ↦ rw (findall_after-moves r c s e) (later-All r c s _ (findall_after-IsFound r zero s))
  | inr (m, e) ↦ rw (findall_after-takes r c s m e) (
      front-All r (c ∷ s) m.0 m.1 _ (first_way-All (IsWay r (c ∷ s)) _ m (ways-IsWay r (c ∷ s)) e)
        (later-All r c s _ (findall_after-IsFound r (length s - length m.0) s)))
]

pub findall-IsFound : (r : Regex) (s : Text) → All (IsGroup r s) (findall r s)
unfolding findall
findall-IsFound r s = findall_after-IsFound r zero s
