-- ===== src/Processor/Analyzer/Calls.antt =====
-- What the checks of `src/processor/analyzer.py` share: calls of `score.minus`, and the texts in them.
use mail_tester.Prelude.{
  ℕ, Bool, Option, none, some, List, [], ◌∷◌, ◌++◌, Text, codes, if◌then◌else◌,
}
use mail_tester.Processor.Score.{Deduction, Severity}

abbrev pub deduction : ℕ → Text → Text → Severity → Text → Text → Deduction
deduction value text code severity details how_to_fix = record {
  value = value;
  text = text;
  code = some code;
  severity = severity;
  details = details;
  how_to_fix = how_to_fix;
}

-- `if b: self.score.minus(…)`
unfoldable pub when : Bool → Deduction → List Deduction
when b d = if b then d ∷ [] else []

-- `sep.join(ts)`
unfoldable pub join_texts : Text → List Text → Text
join_texts sep [] = []
join_texts sep (t ∷ []) = t
join_texts sep (t ∷ u ∷ ts) = t ++ (sep ++ join_texts sep (u ∷ ts))

-- `f"{t}"`
abbrev pub shown : Option Text → Text
shown none = codes "None"
shown (some t) = t
