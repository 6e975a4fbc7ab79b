-- ===== src/Worker/Spamd.antt =====
-- `src/worker/spamassassin_client.py`. The socket is a parameter: what the daemon sends back.
pub mod Printed
use mail_tester.Prelude.{
  ℕ, Bool, true, false, ◌&&◌, ◌||◌, Option, none, some, List, [], ◌∷◌, ◌++◌, Text, codes, null,
  length, leb, ◌==◌, ◌=ᵗ◌, is_space, strip, starts_with, if◌then◌else◌,
}
use mail_tester.Decimal.{Decimal, float, show_nat}
use mail_tester.Regex.{
  Regex, alt, seq, star, group, class, end, plus, space, char, literal, match_front, search_text,
  is_digit,
}
use mail_tester.Processor.Dkim.{splitlines}

pub record Rule : Type 0 where
  pub points : Decimal
  pub name : Text
  pub description : Text

pub record Parsed : Type 0 where
  pub is_spam : Option Bool
  pub score : Option Decimal
  pub threshold : Option Decimal
  pub rules : List Rule

pub data Status : Type 0 where
  ok error : Status

pub record SpamCheck : Type 0 where
  pub status : Status
  pub is_spam : Option Bool
  pub score : Option Decimal
  pub threshold : Option Decimal
  pub rules : List Rule
  pub report : Text
  pub error : Option Text

abbrev pub is_number_char : ℕ → Bool
is_number_char c = c == b'-' || (is_digit c || c == b'.')

-- `[-\d.]+`
abbrev pub number : Regex
number = plus (class is_number_char)

abbrev pub spaces : Regex
spaces = star space

-- `Spam:\s*(True|False)\s*;\s*([-\d.]+)\s*/\s*([-\d.]+)`
abbrev pub spam_pattern : Regex
spam_pattern = seq (literal (codes "Spam:")) (
    seq spaces (
      seq (group (alt (literal (codes "True")) (literal (codes "False")))) (
        seq spaces (
          seq (char b';') (
            seq spaces
              (seq (group number) (seq spaces (seq (char b'/') (seq spaces (group number))))))))))

abbrev pub is_name_char : ℕ → Bool
is_name_char c = (leb b'A' c && leb c b'Z') || (is_digit c || c == b'_')

-- `.` is any character but a new line.
abbrev pub is_any : ℕ → Bool
is_any c = if c == 10 then false else true

-- `^([-\d.]+)\s+([A-Z0-9_]+)\s+(.*)$`
abbrev pub rule_pattern : Regex
rule_pattern = seq (group number) (
    seq (plus space) (
      seq (group (plus (class is_name_char)))
        (seq (plus space) (seq (group (star (class is_any))) end))))

-- The three numbers of the first line; `none` where `float` raises.
abbrev with_score : Option Decimal → Option Decimal → Text → Parsed → Option Parsed
with_score none threshold spam out = none
with_score (some score) none spam out = none
with_score (some score) (some threshold) spam out = some (record out {
  is_spam = some (spam =ᵗ codes "True");
  score = some score;
  threshold = some threshold;
})

abbrev read_score : Option (List Text) → Parsed → Option Parsed
read_score (some (spam ∷ score ∷ threshold ∷ [])) out =
    with_score (float score) (float threshold) spam out
read_score gs out = some out

abbrev rule_of : Text → Text → Option Decimal → Option Rule
rule_of name description none = none
rule_of name description (some points) =
    some (record { points = points; name = name; description = strip is_space description })

abbrev cons_rule : Option Rule → Option (List Rule) → Option (List Rule)
cons_rule none rules = none
cons_rule (some rule) none = none
cons_rule (some rule) (some rules) = some (rule ∷ rules)

abbrev read_rule : Option (List Text) → Option (List Rule) → Option (List Rule)
read_rule (some (points ∷ name ∷ description ∷ [])) rules =
    cons_rule (rule_of name description (float points)) rules
read_rule gs rules = rules

abbrev pub is_passed_over : Text → Bool
is_passed_over line =
    null line || (starts_with line (codes "pts ") || starts_with line (codes "----"))

-- The loop over the lines; `none` where `float` raises.
unfoldable pub read_rules : List Text → Option (List Rule)
unfolding match_front strip
read_rules [] = some []
read_rules (l ∷ ls) =
    let rest = read_rules ls in
    let line = strip is_space l in
    if is_passed_over line then rest else read_rule (match_front rule_pattern line) rest

abbrev no_report : Parsed
no_report = record { is_spam = none; score = none; threshold = none; rules = [] }

abbrev with_rules : Option Parsed → Option (List Rule) → Option Parsed
with_rules none rules = none
with_rules (some out) none = none
with_rules (some out) (some rules) = some (record out { rules = rules })

unfoldable pub parse_report : Text → Option Parsed
unfolding read_rules search_text splitlines
parse_report report =
    if null report
    then some no_report
    else with_rules (read_score (search_text spam_pattern report) no_report)
        (read_rules (splitlines report))

-- The chunks that `recv` gives, or the `repr` of the exception that connecting, sending or receiving
-- raises.
pub data Reply : Type 0 where
  chunks : List Text → Reply
  raises : Text → Reply

-- The loop of `recv`: an empty chunk ends it.
unfoldable pub receive : List Text → Text
receive [] = []
receive (chunk ∷ cs) = let rest = receive cs in if null chunk then [] else chunk ++ rest

unfoldable pub request : Text → Text
unfolding show_nat
request raw_email =
    codes "REPORT SPAMC/1.5\r\n"
    ++ (codes "Content-length: "
        ++ (show_nat (length raw_email) ++ (codes "\r\n\r\n" ++ raw_email)))

abbrev pub failed : Text → SpamCheck
failed e = record {
  status = error;
  is_spam = none;
  score = none;
  threshold = none;
  rules = [];
  report = [];
  error = some e;
}

abbrev pub checked : Text → Option Parsed → SpamCheck
checked report none = failed (codes "ValueError")
checked report (some parsed) = record {
  status = ok;
  is_spam = parsed.is_spam;
  score = parsed.score;
  threshold = parsed.threshold;
  rules = parsed.rules;
  report = report;
  error = none;
}

abbrev pub answered : (Text → Text) → Reply → SpamCheck
answered decode (raises e) = failed e
answered decode (chunks cs) =
    let report = decode (receive cs) in checked report (parse_report report)

-- `decode` is `bytes.decode(errors="ignore")`, and `spamd` the daemon.
unfoldable pub spamd_check : (Text → Text) → (Text → Reply) → Text → SpamCheck
unfolding request receive parse_report
spamd_check decode spamd raw_email = answered decode (spamd (request raw_email))
