-- ===== src/Regex/Language.antt =====
-- The language of a pattern with its groups, and the soundness of the matcher.
use mathlib.Core.Path.{subst}
use mathlib.Core.Option.{some-injective}
use mathlib.Core.List.{append_assoc}
use mail_tester.Prelude.{
  ℕ, zero, suc, ◌-◌, ◌≡◌, refl, sym, ap, ◌∙◌, Bool, true, some, List, [], ◌∷◌, ◌++◌, map, Text,
  arith, length, length-append, take, leb, ◌==◌, if◌then◌else◌, All, All-append, Bool-cases,
  Option-cases, inl, inr,
}
use mail_tester.Regex.{
  Regex, Match, ways, star_ways, flat_map, with_groups, captured, match_front, search_text,
  preferred,
}

-- The texts that a pattern matches, and what its groups hold then. `$` takes nothing.
pub data Matches : Regex → Text → List Text → Type 0 where
  empty : Matches Regex.empty [] []
  class : {p : ℕ → Bool} {c : ℕ} → p c ≡ true → Matches (Regex.class p) (c ∷ []) []
  seq :
      {a b : Regex} {s t : Text} {gs hs : List Text}
      → Matches a s gs
      → Matches b t hs
      → Matches (Regex.seq a b) (s ++ t) (gs ++ hs)
  left : {a b : Regex} {s : Text} {gs : List Text} → Matches a s gs → Matches (Regex.alt a b) s gs
  right : {a b : Regex} {s : Text} {gs : List Text} → Matches b s gs → Matches (Regex.alt a b) s gs
  stop : {a : Regex} → Matches (Regex.star a) [] []
  more :
      {a : Regex} {s t : Text} {gs hs : List Text}
      → Matches a s gs
      → Matches (Regex.star a) t hs
      → Matches (Regex.star a) (s ++ t) (gs ++ hs)
  group :
      {a : Regex} {s : Text} {gs : List Text} → Matches a s gs → Matches (Regex.group a) s (s ∷ gs)
  end : Matches Regex.end [] []

-- A way to match takes a text of the language from the front.
abbrev pub IsWay : Regex → Text → Match → Type 0
IsWay r s m = (taken : Text) × (s ≡ taken ++ m.0) × Matches r taken m.1

module _ {A B : Type 0} (P : A → Type 0) (Q : B → Type 0) where
  All-map : (f : A → B) (xs : List A) → All P xs → ((x : A) → P x → Q (f x)) → All Q (map f xs)
  All-map f [] h k = tt
  All-map f (x ∷ xs) (p, h) k = (k x p, All-map f xs h k)

  All-flat_map :
      (f : A → List B) (xs : List A)
      → All P xs
      → ((x : A) → P x → All Q (f x))
      → All Q (flat_map f xs)
  All-flat_map f [] h k = tt
  All-flat_map f (x ∷ xs) (p, h) k =
      All-append Q (f x) (flat_map f xs) (k x p) (All-flat_map f xs h k)

-- Two ways, one after the other.
IsWay-then :
    (r : Regex) (s : Text) (m n : Match) (taken : Text) (t : Text)
    → s ≡ taken ++ m.0
    → m.0 ≡ t ++ n.0
    → Matches r (taken ++ t) (m.1 ++ n.1)
    → IsWay r s (with_groups m.1 n)
IsWay-then r s m n taken t e f h = (taken ++ t, rw (e, f) (sym (append_assoc taken t n.0)), h)

module _ (a : Regex) (sound : (s : Text) → All (IsWay a s) (ways a s)) where
  star_ways-IsWay : (n : ℕ) (s : Text) → All (IsWay (Regex.star a) s) (star_ways (ways a) n s)
  unfolding star_ways
  star_ways-IsWay zero s = (([], refl, stop), tt)
  star_ways-IsWay (suc n) s =
      All-append _ (flat_map _ (ways a s)) ((s, []) ∷ [])
        (All-flat_map (IsWay a s) (IsWay (Regex.star a) s) _ (ways a s) (sound s)
          (λ m w. again m w (star_ways-IsWay n m.0)))
        (([], refl, stop), tt)
    where
      again :
          (m : Match)
          → IsWay a s m
          → All (IsWay (Regex.star a) m.0) (star_ways (ways a) n m.0)
          → All (IsWay (Regex.star a) s) (
              if leb (length s) (length m.0)
              then []
              else map (with_groups m.1) (star_ways (ways a) n m.0))
      again m w rest = elim (Bool-cases (leb (length s) (length m.0))) [
        | inl e ↦ rw e tt
        | inr e ↦ rw e (
            All-map (IsWay (Regex.star a) m.0) (IsWay (Regex.star a) s) (with_groups m.1)
              (star_ways (ways a) n m.0) rest
              (λ k v. IsWay-then (Regex.star a) s m k w.0 v.0 w.1 v.1 (more w.2 v.2)))
      ]

pub take-length-append : (s t : Text) → take (length (s ++ t) - length t) (s ++ t) ≡ s
take-length-append s t = rw (length_front s t) (take_front s t)
  where
    length_front : (s t : Text) → length (s ++ t) - length t ≡ length s
    length_front s t = omega (arith, length-append s t)

    take_front : (s t : Text) → take (length s) (s ++ t) ≡ s
    take_front [] t = refl
    take_front (c ∷ s) t = ap (λ u. c ∷ u) (take_front s t)

captured-IsWay :
    (a : Regex) (s : Text) (m : Match) → IsWay a s m → IsWay (Regex.group a) s (captured s m)
captured-IsWay a s m (taken, e, h) = (taken, e, rw (e, take-length-append taken m.0) (group h))

-- Every way that the matcher finds takes a text of the language, and fills the groups as it says.
pub ways-IsWay : (r : Regex) (s : Text) → All (IsWay r s) (ways r s)
unfolding ways
ways-IsWay Regex.empty s = (([], refl, empty), tt)
ways-IsWay (Regex.class p) [] = tt
ways-IsWay (Regex.class p) (c ∷ s) = elim (Bool-cases (p c)) [
  | inl e ↦ rw e ((c ∷ [], refl, class e), tt)
  | inr e ↦ rw e tt
]
ways-IsWay (Regex.seq a b) s =
    All-flat_map (IsWay a s) (IsWay (Regex.seq a b) s) _ (ways a s) (ways-IsWay a s) (λ m w.
      All-map (IsWay b m.0) (IsWay (Regex.seq a b) s) (with_groups m.1) (ways b m.0)
        (ways-IsWay b m.0) (λ n v. IsWay-then (Regex.seq a b) s m n w.0 v.0 w.1 v.1 (seq w.2 v.2)))
ways-IsWay (Regex.alt a b) s =
    All-append _ (ways a s) (ways b s)
      (weaken (ways a s) (ways-IsWay a s) (λ m w. (w.0, w.1, left w.2)))
      (weaken (ways b s) (ways-IsWay b s) (λ m w. (w.0, w.1, right w.2)))
  where
    weaken :
        {P : Match → Type 0} (ms : List Match)
        → All P ms
        → ((m : Match) → P m → IsWay (Regex.alt a b) s m)
        → All (IsWay (Regex.alt a b) s) ms
    weaken [] h k = tt
    weaken (m ∷ ms) (p, h) k = (k m p, weaken ms h k)
ways-IsWay (Regex.star a) s = star_ways-IsWay a (ways-IsWay a) (length s) s
ways-IsWay (Regex.group a) s =
    All-map (IsWay a s) (IsWay (Regex.group a) s) (captured s) (ways a s) (ways-IsWay a s)
      (captured-IsWay a s)
ways-IsWay Regex.end [] = (([], refl, end), tt)
ways-IsWay Regex.end (c ∷ []) = elim (Bool-cases (c == 10)) [
  | inl e ↦ rw e (([], refl, end), tt)
  | inr e ↦ rw e tt
]
ways-IsWay Regex.end (c ∷ d ∷ s) = tt

-- A pattern is found where a text of its language stands.
pub record IsFound (r : Regex) (s : Text) (gs : List Text) : Type 0 where
  pub before : Text
  pub taken : Text
  pub after : Text
  pub place : s ≡ before ++ (taken ++ after)
  pub matches : Matches r taken gs

front_way-IsFound :
    (r : Regex) (s : Text) (ms : List Match) {gs : List Text}
    → All (IsWay r s) ms
    → preferred ms ≡ some gs
    → IsFound r s gs
front_way-IsFound r s [] h e = cc
front_way-IsFound r s ((rest, hs) ∷ ms) (w, h) e = record {
  before = [];
  taken = w.0;
  after = rest;
  place = w.1;
  matches = subst (Matches r w.0) (some-injective hs _ e) w.2;
}

match_front-IsFound :
    (r : Regex) (s : Text) {gs : List Text} → match_front r s ≡ some gs → IsFound r s gs
unfolding match_front
match_front-IsFound r s e = front_way-IsFound r s (ways r s) (ways-IsWay r s) e

-- What is found in the rest of a text is found in the text.
pub later-IsFound :
    (r : Regex) (c : ℕ) (s : Text) (gs : List Text) → IsFound r s gs → IsFound r (c ∷ s) gs
later-IsFound r c s gs f = record {
  before = c ∷ f.before;
  taken = f.taken;
  after = f.after;
  place = ap (λ t. c ∷ t) f.place;
  matches = f.matches;
}

pub search_text-IsFound :
    (r : Regex) (s : Text) {gs : List Text} → search_text r s ≡ some gs → IsFound r s gs
unfolding search_text
search_text-IsFound r [] e = match_front-IsFound r [] e
search_text-IsFound r (c ∷ s) {gs} e = elim (Option-cases (match_front r (c ∷ s))) [
  | inl none_here ↦
      later-IsFound r c s gs (search_text-IsFound r s (rw (none_here, search_text) at e))
  | inr (hs, here) ↦ match_front-IsFound r (c ∷ s) (here ∙ (rw (here, search_text) at e))
]
