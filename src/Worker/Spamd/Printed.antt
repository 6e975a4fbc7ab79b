-- ===== src/Worker/Spamd/Printed.antt =====
-- `_parse_report` of `src/worker/spamassassin_client.py`: it reads back what SpamAssassin prints of a
-- rule.
use mathlib.Core.Path.{subst}
use mathlib.Core.List.{append-nil}
use mail_tester.Prelude.{
  ℕ, ◌≡◌, ◌≢◌, ◌∙◌, refl, ap, Bool-cases, inl, inr, arith, Bool, true, false, not, none, some, List,
  [], ◌∷◌, ◌++◌, map, Text, null, strip, lstrip, rstrip, rstrip-append, is_space, starts_with,
  split_once, All, if◌then◌else◌,
}
use mail_tester.Decimal.{Decimal, float, all_digits}
use mail_tester.Regex.{Regex, seq, space, star, plus, group, class, end, match_front, ways}
use mail_tester.Regex.Greedy.{
  IsFirst, all_chars, stops, seq-IsFirst, group-IsFirst, plus-IsFirst, star-IsFirst, end-IsFirst,
  match_front-IsFirst,
}
use mail_tester.Worker.Spamd.{
  Rule, rule_pattern, is_number_char, is_name_char, is_any, is_passed_over, read_rules,
}

-- A rule as it stands in the report, in columns: the points, the name and the description, with white
-- space before and between them, and the lines that a long description goes on in.
pub record Printed : Type 0 where
  pub indent : Text
  pub points : Text
  pub gap : Text
  pub pad : Text
  pub rule : Rule
  pub wrapped : List Text

abbrev pub body_of : Printed → Text
body_of p = p.points ++ (p.gap ++ (p.rule.name ++ (p.pad ++ p.rule.description)))

abbrev pub lines_of : List Printed → List Text
lines_of [] = []
lines_of (p ∷ ps) = (p.indent ++ body_of p) ∷ (p.wrapped ++ lines_of ps)

-- What begins with a character that is no white space.
abbrev pub is_begun : Text → Bool
is_begun [] = false
is_begun (c ∷ s) = not (is_space c)

abbrev pub IsGap : Text → Type 0
IsGap s = (null s ≡ false) × (all_chars is_space s ≡ true)

-- A line that begins with no number, and so with no rule.
abbrev pub IsText : Text → Type 0
IsText l = stops is_number_char (strip is_space l) ≡ true

pub record IsPrinted (p : Printed) : Type 0 where
  pub indented : all_chars is_space p.indent ≡ true
  -- The points are a number, in its characters.
  pub numeral : all_chars is_number_char p.points ≡ true
  pub value : float p.points ≡ some p.rule.points
  pub gapped : IsGap p.gap
  pub named : null p.rule.name ≡ false
  pub name_chars : all_chars is_name_char p.rule.name ≡ true
  pub padded : IsGap p.pad
  -- The description is one line without white space around it.
  pub described : is_begun p.rule.description ≡ true
  pub one_line : all_chars is_any p.rule.description ≡ true
  pub trimmed : rstrip is_space p.rule.description ≡ p.rule.description
  pub continued : All IsText p.wrapped

space_stops :
    (g : ℕ) (gs : Text)
    → all_chars is_space (g ∷ gs) ≡ true
    → (is_number_char g ≡ false) × (is_name_char g ≡ false)
unfolding all_chars
space_stops g gs h = (ground arith, ground arith)

-- One field of the pattern, with the space after it.
field-IsFirst :
    (p : ℕ → Bool) (r : Regex) (c : ℕ) (w : Text) (g : ℕ) (gap s t : Text) (gs : List Text)
    → all_chars p (c ∷ w) ≡ true
    → p g ≡ false
    → all_chars is_space (g ∷ gap) ≡ true
    → stops is_space s ≡ true
    → IsFirst r s t gs
    → IsFirst
        (seq (group (plus (class p))) (seq (plus space) r))
        ((c ∷ w) ++ ((g ∷ gap) ++ s))
        t
        ((c ∷ w) ∷ gs)
field-IsFirst p r c w g gap s t gs h k b l f =
    seq-IsFirst (group (plus (class p))) (seq (plus space) r) ((c ∷ w) ++ ((g ∷ gap) ++ s))
      ((g ∷ gap) ++ s) t ((c ∷ w) ∷ []) gs
      (group-IsFirst (plus (class p)) (c ∷ w) ((g ∷ gap) ++ s) []
        (plus-IsFirst p c w ((g ∷ gap) ++ s) h (rw k refl)))
      (seq-IsFirst (plus space) r ((g ∷ gap) ++ s) s t [] gs (plus-IsFirst is_space g gap s b l) f)

rest-IsFirst :
    (s : Text)
    → all_chars is_any s ≡ true
    → IsFirst (seq (group (star (class is_any))) end) s [] (s ∷ [])
rest-IsFirst s h =
    seq-IsFirst (group (star (class is_any))) end s [] [] (s ∷ []) []
      (subst (λ u. IsFirst (group (star (class is_any))) u [] (s ∷ [])) (append-nil s)
        (group-IsFirst (star (class is_any)) s [] [] (star-IsFirst is_any s [] h refl)))
      end-IsFirst

rule_match :
    (c d e g k : ℕ) (points gap name pad description : Text)
    → all_chars is_number_char (c ∷ points) ≡ true
    → all_chars is_space (g ∷ gap) ≡ true
    → all_chars is_name_char (d ∷ name) ≡ true
    → all_chars is_space (k ∷ pad) ≡ true
    → all_chars is_any (e ∷ description) ≡ true
    → is_space d ≡ false
    → is_space e ≡ false
    → match_front rule_pattern
        ((c ∷ points) ++ ((g ∷ gap) ++ ((d ∷ name) ++ ((k ∷ pad) ++ (e ∷ description)))))
      ≡ some ((c ∷ points) ∷ (d ∷ name) ∷ (e ∷ description) ∷ [])
rule_match c d e g k points gap name pad description numeral gapped named padded one_line m n =
    match_front-IsFirst rule_pattern _ [] ((c ∷ points) ∷ (d ∷ name) ∷ (e ∷ description) ∷ []) (
      field-IsFirst is_number_char _ c points g gap _ [] _ numeral (space_stops g gap gapped).0
        gapped (rw m refl)
        (field-IsFirst is_name_char _ d name k pad _ [] _ named (space_stops k pad padded).1 padded
          (rw n refl) (rest-IsFirst (e ∷ description) one_line)))

strip-trimmed : (s : Text) → is_begun s ≡ true → rstrip is_space s ≡ s → strip is_space s ≡ s
unfolding strip lstrip
strip-trimmed [] h e = ground arith
strip-trimmed (c ∷ s) h e = lead (is_space c) h
  where
    lead :
        (b : Bool) → not b ≡ true → rstrip is_space (if b then lstrip is_space s else c ∷ s) ≡ c ∷ s
    lead true h = ground arith
    lead false h = e

number_char :
    (c : ℕ) (s : Text) → all_chars is_number_char (c ∷ s) ≡ true → (is_space c ≡ false) × (c ≢ b'p')
unfolding all_chars
number_char c s h = (ground arith, λ e. ground arith)

name_char : (c : ℕ) (s : Text) → all_chars is_name_char (c ∷ s) ≡ true → is_space c ≡ false
unfolding all_chars
name_char c s h = ground arith

-- A number is no line of dashes.
float_dashes : (s : Text) → float (b'-' ∷ b'-' ∷ s) ≡ none
unfolding float all_digits split_once
float_dashes s = ground arith

begun-null : (s : Text) → is_begun s ≡ true → null s ≡ false
begun-null [] h = ground arith
begun-null (c ∷ s) h = refl

strip-indent :
    (indent s : Text)
    → all_chars is_space indent ≡ true
    → strip is_space (indent ++ s) ≡ strip is_space s
unfolding strip lstrip all_chars
strip-indent [] s h = refl
strip-indent (c ∷ indent) s h = ground (arith, strip-indent indent s)

append_begun : (s t : Text) → is_begun s ≡ true → is_begun (s ++ t) ≡ true
append_begun [] t h = ground arith
append_begun (c ∷ s) t h = h

numeral_begun : (s : Text) → null s ≡ false → all_chars is_number_char s ≡ true → is_begun s ≡ true
unfolding all_chars
numeral_begun [] n h = ground arith
numeral_begun (c ∷ s) n h = ground arith

float-null : (s : Text) (d : Decimal) → float s ≡ some d → null s ≡ false
unfolding float
float-null [] d e = ground arith
float-null (c ∷ s) d e = refl

body-strip : (p : Printed) → IsPrinted p → strip is_space (p.indent ++ body_of p) ≡ body_of p
body-strip p P =
    let described =
      rstrip-append is_space p.pad p.rule.description (begun-null _ P.described) P.trimmed in
    let named = rstrip-append is_space p.rule.name _ described.1 described.0 in
    let gapped = rstrip-append is_space p.gap _ named.1 named.0 in
    let whole = rstrip-append is_space p.points _ gapped.1 gapped.0 in
    strip-indent p.indent (body_of p) P.indented
    ∙ strip-trimmed (body_of p)
        (append_begun p.points _
          (numeral_begun p.points (float-null p.points p.rule.points P.value) P.numeral))
        whole.0

body-is_passed_over :
    (points rest : Text) (d : Decimal)
    → all_chars is_number_char points ≡ true
    → float points ≡ some d
    → stops is_number_char rest ≡ true
    → is_passed_over (points ++ rest) ≡ false
unfolding float starts_with
body-is_passed_over [] rest d h v r = ground arith
body-is_passed_over (c ∷ []) [] d h v r = ground (arith, (number_char c [] h).1)
body-is_passed_over (c ∷ []) (e ∷ rest) d h v r = ground (arith, (number_char c [] h).1)
body-is_passed_over (c ∷ x ∷ points) rest d h v r =
    ground (arith, (number_char c (x ∷ points) h).1, float_dashes points)

gap-stops : (gap rest : Text) → IsGap gap → stops is_number_char (gap ++ rest) ≡ true
gap-stops [] rest g = ground arith
gap-stops (c ∷ gap) rest g = rw (space_stops c gap g.1).0 refl

body_match :
    (points gap name pad description : Text)
    → null points ≡ false
    → IsGap gap
    → null name ≡ false
    → IsGap pad
    → is_begun description ≡ true
    → all_chars is_number_char points ≡ true
    → all_chars is_name_char name ≡ true
    → all_chars is_any description ≡ true
    → match_front rule_pattern (points ++ (gap ++ (name ++ (pad ++ description))))
      ≡ some (points ∷ name ∷ description ∷ [])
body_match [] gap name pad description a g b k d h n l = ground arith
body_match (c ∷ points) [] name pad description a g b k d h n l = ground arith
body_match (c ∷ points) (x ∷ gap) [] pad description a g b k d h n l = ground arith
body_match (c ∷ points) (x ∷ gap) (y ∷ name) [] description a g b k d h n l = ground arith
body_match (c ∷ points) (x ∷ gap) (y ∷ name) (z ∷ pad) [] a g b k d h n l = ground arith
body_match (c ∷ points) (x ∷ gap) (y ∷ name) (z ∷ pad) (e ∷ description) a g b k d h n l =
    rule_match c y e x z points gap name pad description h g.1 n k.1 l (name_char y name n)
      (ground arith)

text_match : (s : Text) → stops is_number_char s ≡ true → match_front rule_pattern s ≡ none
unfolding match_front ways
text_match [] h = refl
text_match (c ∷ s) h = ground arith

read_rules_text :
    (texts ls : List Text) → All IsText texts → read_rules (texts ++ ls) ≡ read_rules ls
unfolding read_rules
read_rules_text [] ls h = refl
read_rules_text (l ∷ texts) ls (T, h) = elim (Bool-cases (is_passed_over (strip is_space l))) [
  | inl over ↦ rw over (read_rules_text texts ls h)
  | inr new ↦ rw (new, text_match (strip is_space l) T) (read_rules_text texts ls h)
]

-- A list of rules that is printed in columns, with any white space before and between them, and with
-- the descriptions wrapped into lines that begin with no number, is read back as these rules, each
-- with its points, its name and the first line of its description.
pub read_rules_printed :
    (ps : List Printed)
    → All IsPrinted ps
    → read_rules (lines_of ps) ≡ some (map (λ (p : Printed). p.rule) ps)
unfolding read_rules
read_rules_printed [] h = refl
read_rules_printed (p ∷ ps) (P, h) =
    rw
      (
        body-strip p P,
        body-is_passed_over p.points (p.gap ++ (p.rule.name ++ (p.pad ++ p.rule.description)))
            p.rule.points P.numeral P.value (gap-stops p.gap _ P.gapped),
        body_match p.points p.gap p.rule.name p.pad p.rule.description
            (float-null p.points p.rule.points P.value) P.gapped P.named P.padded P.described
            P.numeral P.name_chars P.one_line,
        P.value,
        read_rules_text p.wrapped (lines_of ps) P.continued,
        read_rules_printed ps h,
      )
      (ap
        (λ d. some (
          record { points = p.rule.points; name = p.rule.name; description = d }
          ∷ map (λ (q : Printed). q.rule) ps))
        (strip-trimmed p.rule.description P.described P.trimmed))
