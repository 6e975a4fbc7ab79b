-- ===== src/Tests/Analyzer.antt =====
-- Tests of `src/processor/analyzer.py`, of `get_sender_ip` and of the SpamAssassin client.
use mail_tester.Prelude.{
  ◌≡◌, ◌≢◌, ◌≤◌, ◌↔◌, ◌⊎◌, ◌-◌, ◌+◌, refl, arith, Bool, true, false, Option, none, some, List, [],
  ◌∷◌, map, reverse, All, Text, codes, inl, inr, count_char, strip, is_dot, rstrip, lstrip,
  split_once,
}
use mail_tester.Decimal.{float}
use mail_tester.Ingest.Message.{Message, message, no_parts, headers, get_all}
use mail_tester.Processor.Score.Totals.{points_lost, lost}
use mail_tester.Processor.Dns.{Dns, timeout}
use mail_tester.Processor.Spf.{SpfAnswer}
use mail_tester.Processor.Dkim as Dkim
use mail_tester.Processor.Dkim.{Verification}
use mail_tester.Processor.Sender.{get_sender_ip}
use mail_tester.Processor.Sender.Received.{
  IsPrivate, IsFirstPublic, Stands, received_ips, get_sender_ip-IsFirstPublic,
}
use mail_tester.Processor.Analyzer.Analysis.{Tools, Mail, run_checks, deductions, analyze}
use mail_tester.Processor.Analyzer.Costs.{charged, analyze_points, analyze_flawless}
use mail_tester.Processor.Analyzer.Outage.{offline_deductions, deductions_down}
use mail_tester.Processor.Analyzer.Outage.Lookups.{IsDown}
use mail_tester.Worker.Spamd.{Rule, Reply, raises, read_rules}
use mail_tester.Worker.Spamd.Printed.{Printed, IsPrinted, lines_of, read_rules_printed}
use mail_tester.Regex.Greedy.{all_chars}
use mail_tester.Tests.Data.{conf}

-- A resolver that answers nothing in time.
abbrev silent : Dns
silent = record {
  resolve_txt = λ name. timeout;
  resolve_a = λ name. timeout;
  resolve_ptr = λ name. timeout;
  resolve_mx = λ name. timeout;
}

silent-IsDown : IsDown silent
silent-IsDown = record {
  txt = λ name. inr (inl refl);
  a = λ name. inr (inl refl);
  ptr = λ name. inr (inl refl);
}

abbrev no_daemon : Text → Reply
no_daemon request = raises (codes "ConnectionRefusedError()")

abbrev same : Text → Text
same t = t

abbrev all_public : Text → Option Bool
all_public ip = some true

abbrev tools : Tools
tools = record {
  dns = silent;
  check2 = λ ip sender helo. SpfAnswer.raises (codes "TempError");
  verify = λ raw. Verification.verdict true;
  is_global = all_public;
  decode_header = λ value. some value;
  html_events = λ html. [];
  hostname = λ url. none;
  ips_completed = λ names. names;
  domains_completed = λ jobs. jobs;
  decode_ignore = same;
  decode_replace = same;
  spamd = no_daemon;
  received_error = λ msg. none;
  analysis_error = λ msg raw. none;
  insert_error = λ raw report. none;
}

abbrev received : Message
received =
    message
      (record {
        headers =
            (codes "Received", codes "from a (b [8.8.4.4]) by c")
            ∷ (codes "Received", codes "from d ([192.0.2.7])")
            ∷ (codes "Subject", codes "Hi")
            ∷ [];
        is_multipart = false;
        maintype = codes "text";
        content_type = codes "text/plain";
        filename = none;
        payload = some (codes "hello");
        decoded = some (codes "hello");
      })
      no_parts

abbrev mail : Mail
mail = record {
  msg = received;
  domain = codes "x.test";
  sender_ip = none;
  raw_email = codes "hi";
  connection = none;
  envelope_from = some (codes "b@y.test");
}

analyze_points_example :
    ((analyze tools conf mail).base.score ≡ 1000 - points_lost (charged tools conf mail))
    × ((analyze tools conf mail).base.items ≡ lost (charged tools conf mail))
    × (points_lost (charged tools conf mail) ≤ 1460 + conf.spam_penalty_cap)
analyze_points_example = analyze_points tools conf mail

analyze_flawless_example :
    ((analyze tools conf mail).base.score ≡ 1000) ↔ ((analyze tools conf mail).base.items ≡ [])
analyze_flawless_example = analyze_flawless tools conf mail

mail_dotted : 1 ≤ count_char b'.' (strip is_dot mail.domain)
unfolding count_char strip
mail_dotted = omega arith

deductions_down_example :
    (deductions tools conf mail (run_checks tools conf mail)
      ≡ offline_deductions tools conf silent-IsDown mail (run_checks tools conf mail))
    × ((run_checks tools conf mail).dkim.verified ≡ none)
    × ((run_checks tools conf mail).dkim.status ≢ Dkim.no_key)
deductions_down_example = deductions_down tools conf silent-IsDown mail mail_dotted

get_sender_ip-IsFirstPublic_example :
    ((get_sender_ip all_public received ≡ none)
      × All (IsPrivate all_public) (received_ips all_public received))
    ⊎ ((ip : Text) × (get_sender_ip all_public received ≡ some ip)
        × IsFirstPublic all_public ip (received_ips all_public received)
        × Stands ip (reverse (get_all (codes "Received") (headers received))))
get_sender_ip-IsFirstPublic_example = get_sender_ip-IsFirstPublic all_public received

abbrev spf_fail : Rule
spf_fail = record {
  points = record { negative = false; mantissa = 12; places = 1 };
  name = codes "SPF_FAIL";
  description = codes "SPF: sender does not match";
}

abbrev shouting : Rule
shouting = record {
  points = record { negative = false; mantissa = 25; places = 1 };
  name = codes "SHOUTING";
  description = codes "Shouting";
}

-- Two rules in columns, the first with a description of two lines.
abbrev printed : List Printed
printed =
    record {
      indent = codes " ";
      points = codes "1.2";
      gap = codes " ";
      pad = codes "               ";
      rule = spf_fail;
      wrapped = codes "                            [not allowed]" ∷ [];
    }
    ∷ record {
      indent = [];
      points = codes "2.5";
      gap = codes " ";
      pad = codes "  ";
      rule = shouting;
      wrapped = [];
    }
    ∷ []

printed-IsPrinted : All IsPrinted printed
unfolding float rstrip all_chars split_once strip lstrip
printed-IsPrinted = (
  record {
    indented = refl;
    numeral = refl;
    value = refl;
    gapped = (refl, refl);
    named = refl;
    name_chars = refl;
    padded = (refl, refl);
    described = refl;
    one_line = refl;
    trimmed = refl;
    continued = (refl, tt);
  },
  (
    record {
      indented = refl;
      numeral = refl;
      value = refl;
      gapped = (refl, refl);
      named = refl;
      name_chars = refl;
      padded = (refl, refl);
      described = refl;
      one_line = refl;
      trimmed = refl;
      continued = tt;
    },
    tt,
  ),
)

read_rules_printed_example :
    read_rules (lines_of printed) ≡ some (map (λ (p : Printed). p.rule) printed)
read_rules_printed_example = read_rules_printed printed printed-IsPrinted
