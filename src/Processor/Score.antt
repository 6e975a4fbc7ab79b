-- ===== src/Processor/Score.antt =====
-- `src/processor/score.py`. Points are hundredths: every deduction has at most two decimals, so the
-- hundredths are what `round(…, 2)` recovers from the float.
pub mod Totals
use mail_tester.Prelude.{
  ℕ, ◌+◌, Bool, Option, none, some, List, [], ◌∷◌, ◌++◌, map, Text, codes, null, ℤ, pos, pos_part,
  neg_part, ◌-ℤ◌, leb, if◌then◌else◌,
}

pub data Severity : Type 0 where
  high medium low warning : Severity

pub record Item : Type 0 where
  pub code : Text
  pub severity : Severity
  pub points : ℤ
  pub title : Text
  pub details : Text
  pub how_to_fix : Text

-- `start` is 10.0.
pub record Score : Type 0 where
  pub start : ℤ
  pub items : List Item
  pub score : ℤ

abbrev pub new_score : Score
new_score = record { start = pos 1000; items = []; score = pos 1000 }

-- `code or "GENERIC"`
abbrev code_or_generic : Option Text → Text
code_or_generic none = codes "GENERIC"
code_or_generic (some c) = if null c then codes "GENERIC" else c

-- The arguments of a call of `minus`.
pub record Deduction : Type 0 where
  pub value : ℕ
  pub text : Text
  pub code : Option Text
  pub severity : Severity
  pub details : Text
  pub how_to_fix : Text

-- The item that `minus` appends.
abbrev pub item_of : Deduction → Item
item_of d = record {
  code = code_or_generic d.code;
  severity = d.severity;
  points = pos 0 -ℤ pos d.value;
  title = d.text;
  details = d.details;
  how_to_fix = d.how_to_fix;
}

unfoldable pub minus : Deduction → Score → Score
minus d s = record s { score = s.score -ℤ pos d.value; items = s.items ++ item_of d ∷ [] }

pub data Title : Type 0 where
  excellent good average poor : Title

pub record Report : Type 0 where
  pub score : ℕ
  pub title : Title
  pub items : List (ℕ × Text)
  pub issues : List Item

-- The title that `result` gives to a rounded score; it fixes the description.
unfoldable pub grade : ℕ → Title
grade score =
    if leb 900 score
    then excellent
    else if leb 700 score
    then good
    else if leb 500 score
    then average
    else poor

abbrev abs : ℤ → ℕ
abs a = pos_part a + neg_part a

-- `pos_part` is `max(0.0, …)`.
unfoldable pub result : Score → Report
result s =
    let score = pos_part s.score in
    record {
      score = score;
      title = grade score;
      items = map (λ (i : Item). (abs i.points, i.title)) s.items;
      issues = s.items;
    }
