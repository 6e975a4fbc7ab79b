-- ===== src/Processor/Dkim.antt =====
-- `get_dkim_content`, `get_dkim_tag`, `dkim_dns_lookup`, `dkim_key_lookup` and `check_dkim` of
-- `src/processor/service.py`. `dkimpy` is a parameter.
use mail_tester.Prelude.{
  ℕ, Bool, true, false, Option, none, some, List, [], ◌∷◌, ◌++◌, map, Text, codes, null, strip,
  lstrip, rstrip, lower, is_space, join, starts_with, leb, ◌==◌, ◌&&◌, ◌||◌, if◌then◌else◌,
}
use mail_tester.Regex.{
  Regex, seq, star, group, class, plus, space, literal_nocase, match_front, search_text, group_of,
}
use mail_tester.Processor.Dns.{
  Dns, answers, nxdomain, no_answer, no_nameservers, timeout, other, txt_to_str,
}
use mail_tester.Processor.Spf.{text_or}

-- `s.splitlines()`, for the line ends of ASCII.
abbrev pub is_line_end : ℕ → Bool
is_line_end c = (leb 10 c && leb c 13) || (leb 28 c && leb c 30)

abbrev cons_line : ℕ → List Text → List Text
cons_line c [] = (c ∷ []) ∷ []
cons_line c (l ∷ ls) = (c ∷ l) ∷ ls

unfoldable pub splitlines : Text → List Text
splitlines [] = []
splitlines (c ∷ []) = if is_line_end c then [] ∷ [] else (c ∷ []) ∷ []
splitlines (c ∷ d ∷ s) =
    let both = splitlines s in
    let rest = splitlines (d ∷ s) in
    if c == 13 && d == 10 then [] ∷ both else if is_line_end c then [] ∷ rest else cons_line c rest

abbrev is_blank : ℕ → Bool
is_blank c = c == b' ' || c == 9

abbrev is_continuation : Text → Bool
is_continuation [] = false
is_continuation (c ∷ s) = is_blank c

-- The loop over the lines; the flag is `in_dkim`.
unfoldable pub dkim_lines : Bool → List Text → List Text
dkim_lines in_dkim [] = []
dkim_lines in_dkim (line ∷ lines) =
    let inside = dkim_lines true lines in
    let rest = dkim_lines in_dkim lines in
    if null line
    then []
    else if starts_with (lower line) (codes "dkim-signature:")
    then line ∷ inside
    else if in_dkim && is_continuation line
    then line ∷ inside
    else if in_dkim
    then []
    else rest

unfoldable pub get_dkim_content : Text → List Text
unfolding dkim_lines splitlines
get_dkim_content msg_raw = dkim_lines false (splitlines msg_raw)

-- `\s*TAG=([^;]+)`
abbrev tag_pattern : Text → Regex
tag_pattern tag = seq (star space) (
    seq (literal_nocase (tag ++ codes "="))
      (group (plus (class (λ c. if c == b';' then false else true)))))

-- The search of `(?:^|[;:])` and the tag: at the front without a separator, or else after one.
abbrev search_tag : Text → Text → Option (List Text)
search_tag tag joined = elim (match_front (tag_pattern tag) joined) [
  | some gs ↦ some gs
  | none ↦ search_text (seq (class (λ c. c == b';' || c == b':')) (tag_pattern tag)) joined
]

abbrev stripped : Option Text → Option Text
stripped none = none
stripped (some t) = some (strip is_space t)

unfoldable pub get_dkim_tag : List Text → Text → Option Text
unfolding match_front search_text join strip
get_dkim_tag record_list tag =
    let joined = join b' ' (map (λ x. strip is_space (lstrip is_blank x)) record_list) in
    if null record_list then none else stripped (group_of 1 (search_tag tag joined))

pub data Status : Type 0 where
  missing broken unknown no_key ok : Status

pub record DkimCheck : Type 0 where
  pub status : Status
  pub record_ : Option Text
  pub domain : Text
  pub dkim_content : List Text
  pub selector : Option Text
  pub signing_domain : Option Text
  pub algorithm : Option Text
  pub verified : Option Bool
  pub error : Option Text

-- The key of the first TXT record, if there is one, or the class of the exception.
pub data Key : Type 0 where
  key : Text → Key
  no_record : Key
  lookup_error : Text → Key

abbrev first_record : List (List Text) → Key
first_record [] = no_record
first_record (r ∷ rs) = key (txt_to_str r)

unfoldable pub dkim_key_lookup : Dns → Text → Key
dkim_key_lookup dns name = elim (dns.resolve_txt (rstrip (λ c. c == b'.') name)) [
  | answers rs ↦ first_record rs
  | nxdomain ↦ no_record
  | no_answer ↦ no_record
  | no_nameservers ↦ lookup_error (codes "NoNameservers")
  | timeout ↦ lookup_error (codes "LifetimeTimeout")
  | other e ↦ lookup_error e
]

-- What `dkim.verify` gives for the raw mail: a verdict, or the `repr` of an exception.
pub data Verification : Type 0 where
  verdict : Bool → Verification
  raises : Text → Verification

module _ (verify : Text → Verification) (dns : Dns) where
  abbrev verified : Verification → DkimCheck → DkimCheck
  verified (verdict b) check = record check { verified = some b }
  verified (raises e) check = record check { verified = some false; error = some e }

  abbrev pub with_key : Text → Key → DkimCheck → DkimCheck
  with_key raw (lookup_error e) check = record check { status = unknown; error = some e }
  with_key raw no_record check = record check { status = no_key }
  with_key raw (key k) check =
      if null k
      then record check { status = no_key }
      else verified (verify raw) (record check { record_ = some k; status = ok })

  abbrev pub with_selector : Text → Text → Option Text → DkimCheck → DkimCheck
  with_selector domain raw none check = record check { status = broken }
  with_selector domain raw (some s) check =
      if null s
      then record check { status = broken }
      else with_key raw
          (dkim_key_lookup dns (s ++ (codes "._domainkey." ++ text_or check.signing_domain domain)))
          check

  unfoldable pub check_dkim : Text → Text → DkimCheck
  unfolding get_dkim_content get_dkim_tag dkim_key_lookup
  check_dkim domain raw =
      let content = get_dkim_content raw in
      let clean = map (lstrip is_blank) content in
      let found : DkimCheck = record {
        status = missing;
        record_ = none;
        domain = domain;
        dkim_content = clean;
        selector = none;
        signing_domain = none;
        algorithm = none;
        verified = none;
        error = none;
      } in
      let selector = get_dkim_tag clean (codes "s") in
      let tagged = record found {
        selector = selector;
        signing_domain = get_dkim_tag clean (codes "d");
        algorithm = get_dkim_tag clean (codes "a");
      } in
      if null content then found else with_selector domain raw selector tagged
