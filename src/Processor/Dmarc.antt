-- ===== src/Processor/Dmarc.antt =====
-- `parse_dmarc_tags`, `check_dmarc_record` and `check_dmarc` of `src/processor/service.py`.
pub mod Walk
pub mod Loop
pub mod Printed
use mail_tester.Prelude.{
  ℕ, zero, suc, Bool, true, false, Option, none, some, List, [], ◌∷◌, ◌++◌, Text, codes, null,
  strip, lower, is_dot, is_space, split, split_once, count_char, starts_with, length, leb, ◌==◌,
  ◌=ᵗ◌, ◌||◌, is_text, is_some, if◌then◌else◌,
}
use mail_tester.Db.Cache.{text_or_empty}
use mail_tester.Processor.Dns.{
  Dns, Answer, answers, nxdomain, no_answer, no_nameservers, timeout, other, txt_to_str, Found,
}
use mail_tester.Processor.Spf.{SpfCheck, Status, ok, unknown, missing, status_of, text_or}
use mail_tester.Processor.Dkim.{DkimCheck}
use mail_tester.Processor.Domains.{domains_aligned, sender_domain_of}

-- The dict as the list of its assignments, in order.
abbrev pub Tags : Type 0
Tags = List (Text × Text)

abbrev add_tag : Option (Text × Text) → Tags → Tags
add_tag none tags = tags
add_tag (some (name, value)) tags = (lower (strip is_space name), strip is_space value) ∷ tags

unfoldable pub tags_of : List Text → Tags
tags_of [] = []
tags_of (part ∷ parts) = add_tag (split_once b'=' part) (tags_of parts)

unfoldable pub parse_dmarc_tags : Option Text → Tags
unfolding tags_of
parse_dmarc_tags record_ = tags_of (split b';' (text_or_empty record_))

-- `tags.get(name)`: a later assignment replaces an earlier one.
unfoldable pub get_tag : Text → Tags → Option Text
get_tag name [] = none
get_tag name ((n, v) ∷ tags) =
    let later = get_tag name tags in
    elim later [ some w ↦ some w | none ↦ if n =ᵗ name then some v else none ]

-- The first record that begins with `v=dmarc1`.
unfoldable pub dmarc_record : List (List Text) → Option Text
dmarc_record [] = none
dmarc_record (r ∷ rs) =
    let rest = dmarc_record rs in
    if starts_with (lower (txt_to_str r)) (codes "v=dmarc1") then some (txt_to_str r) else rest

-- What one round of the walk learns: a record, none, or that the lookup failed.
pub data Round : Type 0 where
  record_here : Text → Round
  none_here failed_here : Round

unfoldable pub look : Dns → Text → Round
unfolding dmarc_record
look dns candidate = elim (dns.resolve_txt (codes "_dmarc." ++ candidate)) [
  | answers rs ↦ elim (dmarc_record rs) [ none ↦ none_here | some r ↦ record_here r ]
  | nxdomain ↦ none_here
  | no_answer ↦ none_here
  | no_nameservers ↦ failed_here
  | timeout ↦ failed_here
  | other e ↦ failed_here
]

abbrev pub WalkResult : Type 0
WalkResult = Found × Option Text × Option Text

abbrev pub not_found : Bool → WalkResult
not_found failed = (if failed then none else some false, none, none)

abbrev has_failed : Round → Bool
has_failed failed_here = true
has_failed r = false

-- `candidate.split(".", 1)[1]`
abbrev pub parent_of : Text → Text
parent_of candidate = elim (split_once b'.' candidate) [ none ↦ [] | some (label, rest) ↦ rest ]

-- The loop, on fuel: a round takes one dot, so as many rounds as dots are enough.
unfoldable pub walk : Dns → ℕ → Text → Bool → WalkResult
walk dns zero candidate failed = not_found failed
walk dns (suc fuel) candidate failed =
    let round = look dns candidate in
    let failed' = failed || has_failed round in
    let rest = walk dns fuel (parent_of candidate) failed' in
    if leb 1 (count_char b'.' candidate)
    then elim round [
      | record_here r ↦ (some true, some r, some candidate)
      | none_here ↦ if count_char b'.' candidate == 1 then not_found failed' else rest
      | failed_here ↦ if count_char b'.' candidate == 1 then not_found failed' else rest
    ]
    else not_found failed

unfoldable pub check_dmarc_record : Dns → Text → WalkResult
unfolding walk look
check_dmarc_record dns domain =
    let candidate = strip is_dot domain in walk dns (count_char b'.' candidate) candidate false

pub data Result : Type 0 where
  pass fail result_none result_unknown : Result

pub record DmarcCheck : Type 0 where
  pub status : Status
  pub record_ : Option Text
  pub domain : Text
  pub record_domain : Option Text
  pub policy : Option Text
  pub subdomain_policy : Option Text
  pub percent : Option Text
  pub reports_to : Option Text
  pub adkim : Text
  pub aspf : Text
  pub spf_aligned : Bool
  pub dkim_aligned : Bool
  pub result : Result

-- `is True`
abbrev pub is_true : Option Bool → Bool
is_true none = false
is_true (some b) = b

abbrev pub mode_tag : Text → Tags → Text
mode_tag name tags = lower (text_or (get_tag name tags) (codes "r"))

-- `_sender_domain_of(…) or domain`
abbrev pub spf_domain : Text → SpfCheck → Text
spf_domain domain spf = text_or (sender_domain_of spf.checked_sender) domain

abbrev pub spf_aligns : Text → SpfCheck → Text → Bool
spf_aligns domain spf mode =
    if is_text spf.result (codes "pass")
    then domains_aligned domain (some (spf_domain domain spf)) (some mode)
    else false

abbrev pub dkim_aligns : Text → DkimCheck → Text → Bool
dkim_aligns domain dkim mode =
    if is_true dkim.verified then domains_aligned domain dkim.signing_domain (some mode) else false

unfoldable pub verdict : Found → Bool → Bool → Result
verdict none aligned evaluated = result_unknown
verdict (some false) aligned evaluated = result_none
verdict (some true) aligned evaluated =
    if aligned then pass else if evaluated then fail else result_unknown

unfoldable pub check_dmarc : Dns → Text → SpfCheck → DkimCheck → DmarcCheck
unfolding check_dmarc_record verdict
check_dmarc dns domain spf dkim =
    let (found, record_, record_domain) = check_dmarc_record dns domain in
    let tags = parse_dmarc_tags record_ in
    let aspf = mode_tag (codes "aspf") tags in
    let adkim = mode_tag (codes "adkim") tags in
    let spf_aligned = spf_aligns domain spf aspf in
    let dkim_aligned = dkim_aligns domain dkim adkim in
    record {
      status = status_of found;
      record_ = record_;
      domain = domain;
      record_domain = record_domain;
      policy = get_tag (codes "p") tags;
      subdomain_policy = get_tag (codes "sp") tags;
      percent = get_tag (codes "pct") tags;
      reports_to = get_tag (codes "rua") tags;
      adkim = adkim;
      aspf = aspf;
      spf_aligned = spf_aligned;
      dkim_aligned = dkim_aligned;
      result =
          verdict found (spf_aligned || dkim_aligned) (is_some spf.result || is_some dkim.verified);
    }
