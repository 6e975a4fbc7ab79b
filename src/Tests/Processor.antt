-- ===== src/Tests/Processor.antt =====
-- Tests of `src/processor`.
use mathlib.Core.List.{Permᴰ}
use mail_tester.Prelude.{
  lstrip, rstrip, join, true, ◌↔◌, All, map, lower, has_char, ◌-◌, ◌≡◌, refl, length, false, none,
  some, List, [], ◌∷◌, Text, codes, is_dot, strip, ◌=ᵗ◌, if◌then◌else◌,
}
use mail_tester.Processor.Score.{Deduction, high, low}
use mail_tester.Processor.Score.Totals.{report, report-score, points_lost, lost}
use mail_tester.Processor.Dns.{Dns, answers, nxdomain, timeout}
use mail_tester.Processor.Domains.{domains_aligned, mode_of}
use mail_tester.Processor.Domains.Labels.{IsLabel, name_of}
use mail_tester.Processor.Domains.Alignment.{domains_aligned_labels}
use mail_tester.Processor.Dmarc.{check_dmarc_record, parse_dmarc_tags}
use mail_tester.Processor.Dmarc.Printed.{Tag, IsTag, text_of, parse_dmarc_tags_printed}
use mail_tester.Regex.Greedy.{all_chars}
use mail_tester.Processor.Dmarc.Walk.{check_dmarc_record-nearest, nearest, candidates}
use mail_tester.Processor.Dmarc.Loop.{Runs, check_dmarc_record-Runs}
use mail_tester.Processor.Blacklists.Domains.{check_domain_blacklists, jobs, targets}
use mail_tester.Processor.Blacklists.Summaries.{check_domain_blacklists-summary, submitted, total}

abbrev no_spf : Deduction
no_spf = record {
  value = 200;
  text = codes "No SPF";
  code = some (codes "SPF_MISSING");
  severity = high;
  details = [];
  how_to_fix = [];
}

abbrev no_rdns : Deduction
no_rdns = record {
  value = 900;
  text = codes "No rDNS";
  code = none;
  severity = low;
  details = [];
  how_to_fix = [];
}

abbrev two_lost : List Deduction
two_lost = no_spf ∷ no_rdns ∷ []

report-score_example :
    ((report two_lost).score ≡ 1000 - points_lost two_lost)
    × ((report two_lost).items ≡ lost two_lost)
report-score_example = report-score two_lost

three_labels : All IsLabel (codes "mail" ∷ codes "X" ∷ codes "test" ∷ [])
unfolding has_char
three_labels = ((refl, refl), ((refl, refl), ((refl, refl), tt)))

two_labels : All IsLabel (codes "x" ∷ codes "TEST" ∷ [])
unfolding has_char
two_labels = ((refl, refl), ((refl, refl), tt))

-- `mail.X.test` and `x.TEST`, in relaxed mode.
domains_aligned_labels_example :
    (domains_aligned
        (name_of (codes "mail" ∷ codes "X" ∷ codes "test" ∷ []))
        (some (name_of (codes "x" ∷ codes "TEST" ∷ [])))
        none
      ≡ true)
    ↔ (if mode_of none =ᵗ codes "s"
        then map lower (codes "mail" ∷ codes "X" ∷ codes "test" ∷ [])
          ≡ map lower (codes "x" ∷ codes "TEST" ∷ [])
        else (lower (codes "X") ≡ lower (codes "x"))
          × (lower (codes "test") ≡ lower (codes "TEST")))
domains_aligned_labels_example =
    domains_aligned_labels (codes "mail" ∷ []) [] (codes "X") (codes "test") (codes "x")
      (codes "TEST") none three_labels two_labels

abbrev policy : List (List Text)
policy = (codes "v=DMARC1; " ∷ codes "p=none" ∷ []) ∷ []

-- A policy for `x.test`, and no other record.
abbrev dns : Dns
dns = record {
  resolve_txt = λ name. if name =ᵗ codes "_dmarc.x.test" then answers policy else nxdomain;
  resolve_a = λ name.
      if name =ᵗ codes "bad.test.multi.uribl.com"
      then answers (codes "127.0.0.2" ∷ [])
      else timeout;
  resolve_ptr = λ name. nxdomain;
  resolve_mx = λ name. nxdomain;
}

check_dmarc_record-nearest_example :
    check_dmarc_record dns (codes "mail.x.test.")
    ≡ nearest dns (candidates (strip is_dot (codes "mail.x.test."))) false
check_dmarc_record-nearest_example = check_dmarc_record-nearest dns (codes "mail.x.test.")

-- `v=DMARC1; ASPF = s `
abbrev two_tags : List Tag
two_tags =
    record {
      before_name = [];
      name = codes "v";
      after_name = [];
      before_value = [];
      value = codes "DMARC1";
      after_value = [];
    }
    ∷ record {
      before_name = codes " ";
      name = codes "ASPF";
      after_name = codes " ";
      before_value = codes " ";
      value = codes "s";
      after_value = codes " ";
    }
    ∷ []

two_tags-IsTag : All IsTag two_tags
unfolding strip lstrip rstrip has_char all_chars
two_tags-IsTag = (
  record {
    blanks = (refl, refl, refl, refl);
    name_stripped = refl;
    value_stripped = refl;
    no_equals = refl;
    no_semicolon = refl;
    no_semicolon_in_value = refl;
  },
  (
    record {
      blanks = (refl, refl, refl, refl);
      name_stripped = refl;
      value_stripped = refl;
      no_equals = refl;
      no_semicolon = refl;
      no_semicolon_in_value = refl;
    },
    tt,
  ),
)

parse_dmarc_tags_printed_example :
    parse_dmarc_tags (some (join b';' (map text_of two_tags)))
    ≡ map (λ (t : Tag). (lower t.name, t.value)) two_tags
parse_dmarc_tags_printed_example = parse_dmarc_tags_printed two_tags two_tags-IsTag

check_dmarc_record-Runs_example :
    Runs dns
      (strip is_dot (codes "mail.x.test."))
      false
      (check_dmarc_record dns (codes "mail.x.test."))
check_dmarc_record-Runs_example = check_dmarc_record-Runs dns (codes "mail.x.test.")

-- A pool that completes the second job first.
abbrev swap_two : List (Text × Text) → List (Text × Text)
swap_two [] = []
swap_two (a ∷ []) = a ∷ []
swap_two (a ∷ b ∷ js) = b ∷ a ∷ js

refl_perm : (js : List (Text × Text)) → Permᴰ js js
refl_perm [] = Permᴰ.nil
refl_perm (j ∷ js) = Permᴰ.cons refl (refl_perm js)

swap_two-perm : (js : List (Text × Text)) → Permᴰ (swap_two js) js
swap_two-perm [] = Permᴰ.nil
swap_two-perm (a ∷ []) = refl_perm (a ∷ [])
swap_two-perm (a ∷ b ∷ js) = Permᴰ.swap refl refl

abbrev linked : List Text
linked = codes "bad.test" ∷ codes "bad.test" ∷ []

check_domain_blacklists-summary_example :
    ((check_domain_blacklists dns swap_two 10 linked).summary
      ≡ submitted dns (jobs (targets 10 linked)))
    × ((total (check_domain_blacklists dns swap_two 10 linked).summary
          ≡ (check_domain_blacklists dns swap_two 10 linked).checked)
        × (length (check_domain_blacklists dns swap_two 10 linked).listings
            ≡ (check_domain_blacklists dns swap_two 10 linked).summary.listed_count))
check_domain_blacklists-summary_example =
    check_domain_blacklists-summary dns swap_two 10 linked swap_two-perm
