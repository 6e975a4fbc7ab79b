-- ===== src/Processor/Score/Totals.antt =====
-- `src/processor/score.py`: what a report says of the deductions that were made.
use mail_tester.Prelude.{
  ℕ, ◌+◌, ◌-◌, ◌≤◌, ◌≡◌, refl, ap, ◌∙◌, List, [], ◌∷◌, ◌++◌, map, Text, arith, pos, sub_ℕ, pos_part,
  neg_part, ◌-ℤ◌, -ℤ-sub_ℕ,
}
use mathlib.Core.List.{append-nil, append_assoc, map-append}
use mail_tester.Processor.Score.{
  Score, Deduction, Item, Report, Title, excellent, good, average, poor, new_score, minus, grade,
  result, item_of,
}

-- The deductions of one analysis, in order.
abbrev pub deduct : List Deduction → Score → Score
deduct [] s = s
deduct (d ∷ ds) s = deduct ds (minus d s)

abbrev pub total : List ℕ → ℕ
total [] = 0
total (n ∷ ns) = n + total ns

abbrev pub lost : List Deduction → List (ℕ × Text)
lost = map (λ (d : Deduction). (d.value, d.text))

abbrev pub points_lost : List Deduction → ℕ
points_lost [] = 0
points_lost (d ∷ ds) = d.value + points_lost ds

abbrev pub report : List Deduction → Report
report ds = result (deduct ds new_score)

score-minus : (d : Deduction) (s : Score) → (minus d s).score ≡ s.score -ℤ pos d.value
unfolding minus
score-minus d s = refl

score-deduct :
    (ds : List Deduction) (s : Score) (n : ℕ)
    → s.score ≡ sub_ℕ 1000 n
    → (deduct ds s).score ≡ sub_ℕ 1000 (n + points_lost ds)
score-deduct [] s n h = h ∙ ap (sub_ℕ 1000) (omega arith)
score-deduct (d ∷ ds) s n h =
    score-deduct ds (minus d s) (n + d.value)
      (score-minus d s ∙ ap (λ x. x -ℤ pos d.value) h ∙ -ℤ-sub_ℕ 1000 n d.value)
    ∙ ap (sub_ℕ 1000) (omega arith)

-- What `result` shows of an item.
abbrev shown : Item → ℕ × Text
shown i = (pos_part i.points + neg_part i.points, i.title)

shown-item_of : (d : Deduction) → shown (item_of d) ≡ (d.value, d.text)
unfolding ◌-ℤ◌
shown-item_of d = ground arith

items-deduct :
    (ds : List Deduction) (s : Score) → map shown (deduct ds s).items ≡ map shown s.items ++ lost ds
unfolding minus
items-deduct [] s = rw append-nil
items-deduct (d ∷ ds) s =
    items-deduct ds (minus d s) ∙ rw (map-append, append_assoc, shown-item_of d)

pos_part-sub_ℕ : (a b : ℕ) → pos_part (sub_ℕ a b) ≡ a - b
pos_part-sub_ℕ a b = ground arith

-- The score of a report is 10 points less all that was deducted, and 0 where more was deducted; the
-- report lists every deduction, with its points and its text, in the order in which it was made.
pub report-score :
    (ds : List Deduction)
    → ((report ds).score ≡ 1000 - points_lost ds) × ((report ds).items ≡ lost ds)
unfolding result
report-score ds = (
  ap pos_part (score-deduct ds new_score 0 refl)
      ∙ pos_part-sub_ℕ 1000 (0 + points_lost ds)
      ∙ ap (λ n. 1000 - n) (omega arith),
  items-deduct ds new_score,
)

-- How good a title is.
abbrev pub rank : Title → ℕ
rank excellent = 3
rank good = 2
rank average = 1
rank poor = 0

pub points_lost-append :
    (ds es : List Deduction) → points_lost (ds ++ es) ≡ points_lost ds + points_lost es
points_lost-append [] es = omega arith
points_lost-append (d ∷ ds) es = omega (arith, points_lost-append ds es)

rank-grade_mono : (m n : ℕ) → m ≤ n → rank (grade m) ≤ rank (grade n)
unfolding grade
rank-grade_mono m n h = ground arith

-- Further deductions never raise the score, and never better the title.
report-append_le :
    (ds es : List Deduction)
    → ((report (ds ++ es)).score ≤ (report ds).score)
      × (rank (report (ds ++ es)).title ≤ rank (report ds).title)
unfolding result
report-append_le ds es =
    (lower_score, rank-grade_mono (report (ds ++ es)).score (report ds).score lower_score)
  where
    lower_score : (report (ds ++ es)).score ≤ (report ds).score
    lower_score =
        omega (arith, (report-score (ds ++ es)).0, (report-score ds).0, points_lost-append ds es)
