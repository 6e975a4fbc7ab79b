-- ===== src/Processor/Domains/Labels.antt =====
-- `src/processor/service.py`: the names of domains by their labels.
use mathlib.Core.Path.{subst}
use mathlib.Core.List.{map-append, append-nil}
use mail_tester.Prelude.{
  ℕ, ◌≡◌, ◌∙◌, refl, ap, arith, false, List, [], ◌∷◌, ◌++◌, map, All, Text, null, ◌==◌, ==_iff,
  lower, lower_char, strip, lstrip, rstrip, is_dot, split, join, has_char, split-join,
  rstrip-append, keep_rstrip,
}
use mail_tester.Processor.Domains.{normal}

-- A label: not empty, and without a dot.
abbrev pub IsLabel : Text → Type 0
IsLabel l = (null l ≡ false) × (has_char b'.' l ≡ false)

-- The name of a domain with these labels.
abbrev pub name_of : List Text → Text
name_of = join b'.'

lower_dot : (c : ℕ) → (b'.' == lower_char c) ≡ (b'.' == c)
unfolding lower_char
lower_dot c = ground arith

lower-has_dot : (l : Text) → has_char b'.' (lower l) ≡ has_char b'.' l
unfolding has_char
lower-has_dot [] = refl
lower-has_dot (c ∷ l) = rw (lower_dot c, lower-has_dot l) refl

lower-IsLabel : (l : Text) → IsLabel l → IsLabel (lower l)
lower-IsLabel [] h = ground (arith, h.0)
lower-IsLabel (c ∷ l) h = (refl, lower-has_dot (c ∷ l) ∙ h.1)

pub lower-labels : (ls : List Text) → All IsLabel ls → All IsLabel (map lower ls)
lower-labels [] h = tt
lower-labels (l ∷ ls) (h, hs) = (lower-IsLabel l h, lower-labels ls hs)

lower-name_of : (ls : List Text) → lower (name_of ls) ≡ name_of (map lower ls)
unfolding join lower_char
lower-name_of [] = refl
lower-name_of (l ∷ []) = refl
lower-name_of (l ∷ m ∷ ls) =
    map-append lower_char l (b'.' ∷ name_of (m ∷ ls))
    ∙ ap (λ t. lower l ++ (b'.' ∷ t)) (lower-name_of (m ∷ ls))

label-rstrip : (l : Text) → has_char b'.' l ≡ false → rstrip is_dot l ≡ l
unfolding has_char rstrip
label-rstrip [] h = refl
label-rstrip (c ∷ l) h = ground (arith, label-rstrip l, ==_iff c b'.', ==_iff b'.' c)

pub name_of-rstrip :
    (l : Text) (ls : List Text)
    → All IsLabel (l ∷ ls)
    → (rstrip is_dot (name_of (l ∷ ls)) ≡ name_of (l ∷ ls)) × (null (name_of (l ∷ ls)) ≡ false)
unfolding join
name_of-rstrip l [] (h, hs) = (label-rstrip l h.1, h.0)
name_of-rstrip l (m ∷ ls) (h, hs) =
    let rest = name_of-rstrip m ls hs in
    rstrip-append is_dot l (b'.' ∷ name_of (m ∷ ls)) refl
      (keep_rstrip is_dot b'.' (name_of (m ∷ ls)) rest.1 rest.0)

label-lstrip : (l t : Text) → IsLabel l → lstrip is_dot (l ++ t) ≡ l ++ t
unfolding lstrip has_char
label-lstrip [] t h = ground (arith, h.0)
label-lstrip (c ∷ l) t h = ground (arith, h.1, ==_iff c b'.', ==_iff b'.' c)

name_of-lstrip : (ls : List Text) → All IsLabel ls → lstrip is_dot (name_of ls) ≡ name_of ls
unfolding join lstrip
name_of-lstrip [] h = refl
name_of-lstrip (l ∷ []) (h, hs) =
    subst (λ t. lstrip is_dot t ≡ t) (append-nil l) (label-lstrip l [] h)
name_of-lstrip (l ∷ m ∷ ls) (h, hs) = label-lstrip l (b'.' ∷ name_of (m ∷ ls)) h

-- The names of these labels are not stripped.
name_of-strip : (ls : List Text) → All IsLabel ls → strip is_dot (name_of ls) ≡ name_of ls
unfolding strip lstrip rstrip join
name_of-strip [] h = refl
name_of-strip (l ∷ ls) h = rw (name_of-lstrip (l ∷ ls) h) (name_of-rstrip l ls h).0

no_dots : (ls : List Text) → All IsLabel ls → All (λ l. has_char b'.' l ≡ false) ls
no_dots [] h = tt
no_dots (l ∷ ls) (h, hs) = (h.1, no_dots ls hs)

map-null : (ls : List Text) → null (map lower ls) ≡ null ls
map-null [] = refl
map-null (l ∷ ls) = refl

-- A name, stripped and in lower case, and the labels of that.
pub normal-name_of :
    (ls : List Text) → All IsLabel ls → normal (name_of ls) ≡ name_of (map lower ls)
normal-name_of ls h = rw (name_of-strip ls h) (lower-name_of ls)

pub split-name_of :
    (ls : List Text) → null ls ≡ false → All IsLabel ls → split b'.' (name_of ls) ≡ ls
split-name_of ls n h = split-join b'.' ls n (no_dots ls h)

pub split-normal :
    (ls : List Text)
    → null ls ≡ false
    → All IsLabel ls
    → split b'.' (normal (name_of ls)) ≡ map lower ls
split-normal ls n h =
    ap (split b'.') (normal-name_of ls h)
    ∙ split-name_of (map lower ls) (map-null ls ∙ n) (lower-labels ls h)
