-- ===== src/Processor/Dmarc/Printed.antt =====
-- `parse_dmarc_tags` of `src/processor/service.py`: it reads back the tags of a DMARC record.
use mail_tester.Prelude.{
  ℕ, ◌≡◌, refl, ap, ◌∙◌, arith, true, false, some, List, [], ◌∷◌, ◌++◌, map, Text, strip, lstrip,
  rstrip, is_space, lower, Bool-cases, inl, inr, split, split-join, split_once, join, has_char, All,
}
use mail_tester.Regex.Greedy.{all_chars}
use mail_tester.Processor.Dmarc.{tags_of, parse_dmarc_tags}

-- A tag as it stands in a record: a name and a value, each with white space before and after it.
pub record Tag : Type 0 where
  pub before_name : Text
  pub name : Text
  pub after_name : Text
  pub before_value : Text
  pub value : Text
  pub after_value : Text

abbrev name_part : Tag → Text
name_part t = t.before_name ++ (t.name ++ t.after_name)

abbrev value_part : Tag → Text
value_part t = t.before_value ++ (t.value ++ t.after_value)

abbrev pub text_of : Tag → Text
text_of t = name_part t ++ (b'=' ∷ value_part t)

abbrev pub IsBlank : Text → Type 0
IsBlank s = all_chars is_space s ≡ true

pub record IsTag (t : Tag) : Type 0 where
  pub blanks :
      IsBlank t.before_name × IsBlank t.after_name × IsBlank t.before_value × IsBlank t.after_value
  -- Without white space around them.
  pub name_stripped : strip is_space t.name ≡ t.name
  pub value_stripped : strip is_space t.value ≡ t.value
  pub no_equals : has_char b'=' t.name ≡ false
  pub no_semicolon : has_char b';' t.name ≡ false
  pub no_semicolon_in_value : has_char b';' t.value ≡ false

has_char-append :
    (c : ℕ) (s t : Text) → has_char c s ≡ false → has_char c t ≡ false → has_char c (s ++ t) ≡ false
unfolding has_char
has_char-append c [] t h k = k
has_char-append c (d ∷ s) t h k = ground (arith, has_char-append c s t)

blank-has_char : (c : ℕ) (s : Text) → is_space c ≡ false → IsBlank s → has_char c s ≡ false
unfolding has_char all_chars
blank-has_char c [] n h = refl
blank-has_char c (d ∷ s) n h = ground (arith, blank-has_char c s)

rstrip-blank : (s : Text) → IsBlank s → rstrip is_space s ≡ []
unfolding rstrip all_chars
rstrip-blank [] h = refl
rstrip-blank (c ∷ s) h = ground (arith, rstrip-blank s)

rstrip-after : (s w : Text) → IsBlank w → rstrip is_space (s ++ w) ≡ rstrip is_space s
unfolding rstrip
rstrip-after [] w h = rstrip-blank w h
rstrip-after (c ∷ s) w h = rw (rstrip-after s w h) refl

lstrip-before : (w s : Text) → IsBlank w → lstrip is_space (w ++ s) ≡ lstrip is_space s
unfolding lstrip all_chars
lstrip-before [] s h = refl
lstrip-before (c ∷ w) s h = ground (arith, lstrip-before w s)

lstrip-blank : (s : Text) → IsBlank s → lstrip is_space s ≡ []
unfolding lstrip all_chars
lstrip-blank [] h = refl
lstrip-blank (c ∷ s) h = ground (arith, lstrip-blank s)

strip-after : (s w : Text) → IsBlank w → strip is_space (s ++ w) ≡ strip is_space s
unfolding strip lstrip rstrip
strip-after [] w h = rw (lstrip-blank w h) refl
strip-after (c ∷ s) w h = elim (Bool-cases (is_space c)) [
  | inl e ↦ rw e (strip-after s w h)
  | inr e ↦ rw e (rstrip-after (c ∷ s) w h)
]

strip-around :
    (u s w : Text) → IsBlank u → IsBlank w → strip is_space (u ++ (s ++ w)) ≡ strip is_space s
unfolding strip
strip-around u s w h k = rw (lstrip-before u (s ++ w) h) (strip-after s w k)

split_once-append :
    (c : ℕ) (s t : Text) → has_char c s ≡ false → split_once c (s ++ (c ∷ t)) ≡ some (s, t)
unfolding split_once has_char
split_once-append c [] t h = ground arith
split_once-append c (d ∷ s) t h = ground (arith, split_once-append c s t)

module _ (t : Tag) (T : IsTag t) where
  -- What stands before the first `=`, and after it.
  parts : split_once b'=' (text_of t) ≡ some (name_part t, value_part t)
  parts = split_once-append b'=' (name_part t) (value_part t) (
      has_char-append b'=' t.before_name _ (blank-has_char b'=' t.before_name refl T.blanks.0) (
        has_char-append b'=' t.name _ T.no_equals
          (blank-has_char b'=' t.after_name refl T.blanks.1)))

  one_part : has_char b';' (text_of t) ≡ false
  unfolding has_char
  one_part =
      has_char-append b';' (name_part t) (b'=' ∷ value_part t)
        (has_char-append b';' t.before_name _ (blank-has_char b';' t.before_name refl T.blanks.0) (
          has_char-append b';' t.name _ T.no_semicolon
            (blank-has_char b';' t.after_name refl T.blanks.1)))
        (has_char-append b';' t.before_value _ (blank-has_char b';' t.before_value refl T.blanks.2)
          (has_char-append b';' t.value _ T.no_semicolon_in_value
            (blank-has_char b';' t.after_value refl T.blanks.3)))

  read_name : strip is_space (name_part t) ≡ t.name
  read_name = strip-around t.before_name t.name t.after_name T.blanks.0 T.blanks.1 ∙ T.name_stripped

  read_value : strip is_space (value_part t) ≡ t.value
  read_value =
      strip-around t.before_value t.value t.after_value T.blanks.2 T.blanks.3 ∙ T.value_stripped

abbrev read_back : Tag → Text × Text
read_back t = (lower t.name, t.value)

tags_of_texts : (ts : List Tag) → All IsTag ts → tags_of (map text_of ts) ≡ map read_back ts
unfolding tags_of
tags_of_texts [] h = refl
tags_of_texts (t ∷ ts) (T, h) =
    rw (parts t T, read_name t T, read_value t T, tags_of_texts ts h) refl

one_part_each : (ts : List Tag) → All IsTag ts → All (λ p. has_char b';' p ≡ false) (map text_of ts)
one_part_each [] h = tt
one_part_each (t ∷ ts) (T, h) = (one_part t T, one_part_each ts h)

-- A record that is written as a list of tags, `name=value` with `;` between them, and with any white
-- space around names and values, is read back as this list: the names in lower case, the values as
-- they are, in the same order. A name has no `=` and no `;` in it, and a value no `;`.
pub parse_dmarc_tags_printed :
    (ts : List Tag)
    → All IsTag ts
    → parse_dmarc_tags (some (join b';' (map text_of ts))) ≡ map (λ t. (lower t.name, t.value)) ts
unfolding parse_dmarc_tags tags_of join split split_once
parse_dmarc_tags_printed [] h = refl
parse_dmarc_tags_printed (t ∷ ts) h =
    ap tags_of (split-join b';' (map text_of (t ∷ ts)) refl (one_part_each (t ∷ ts) h))
    ∙ tags_of_texts (t ∷ ts) h
