-- ===== src/Processor/Spf.antt =====
-- `check_spf_record` and `check_spf` of `src/processor/service.py`. `pyspf` is a parameter.
use mail_tester.Prelude.{
  Bool, true, false, Option, none, some, List, [], ◌∷◌, ◌++◌, Text, codes, null, lower, starts_with,
  if◌then◌else◌,
}
use mail_tester.Processor.Dns.{
  Dns, answers, nxdomain, no_answer, no_nameservers, timeout, other, txt_to_str, Found,
}

pub data Status : Type 0 where
  ok unknown missing : Status

abbrev pub status_of : Found → Status
status_of none = unknown
status_of (some true) = ok
status_of (some false) = missing

pub record SpfCheck : Type 0 where
  pub status : Status
  pub record_ : List Text
  pub domain : Text
  pub result : Option Text
  pub explanation : Option Text
  pub checked_ip : Option Text
  pub checked_sender : Option Text

-- What `spf.check2` gives: the result with its explanation, or the `repr` of an exception.
pub data SpfAnswer : Type 0 where
  answer : Text → Text → SpfAnswer
  raises : Text → SpfAnswer

-- The records that begin with `v=spf1`.
unfoldable pub spf_records : List (List Text) → List Text
spf_records [] = []
spf_records (r ∷ rs) =
    let rest = spf_records rs in
    if starts_with (lower (txt_to_str r)) (codes "v=spf1") then txt_to_str r ∷ rest else rest

unfoldable pub check_spf_record : Dns → Text → Found × List Text
unfolding spf_records
check_spf_record dns domain = elim (dns.resolve_txt domain) [
  | answers rs ↦
      let found = spf_records rs in if null found then (some false, []) else (some true, found)
  | nxdomain ↦ (some false, [])
  | no_answer ↦ (some false, [])
  | no_nameservers ↦ (none, [])
  | timeout ↦ (none, [])
  | other e ↦ (none, [])
]

abbrev pub is_given : Option Text → Bool
is_given none = false
is_given (some t) = if null t then false else true

abbrev pub text_or : Option Text → Text → Text
text_or none d = d
text_or (some t) d = if null t then d else t

-- `check2` takes the address, the sender and the HELO name.
module _ (check2 : Text → Text → Text → SpfAnswer) (dns : Dns) where
  abbrev evaluated : SpfAnswer → SpfCheck → SpfCheck
  evaluated (answer result explanation) check = record check {
    result = some result;
    explanation = some explanation;
  }
  evaluated (raises e) check = record check {
    result = some (codes "temperror");
    explanation = some e;
  }

  abbrev unchecked : Text → Option Text → Found × List Text → SpfCheck
  unchecked domain sender_ip (found, records) = record {
    status = status_of found;
    record_ = records;
    domain = domain;
    result = none;
    explanation = none;
    checked_ip = sender_ip;
    checked_sender = none;
  }

  abbrev evaluate : Text → Text → Option Text → Option Text → SpfCheck → SpfCheck
  evaluate domain ip envelope_from helo check =
      let sender = text_or envelope_from (codes "postmaster@" ++ domain) in
      evaluated (check2 ip sender (text_or helo domain))
        (record check { checked_sender = some sender })

  abbrev checked : Text → Option Text → Option Text → Option Text → Found × List Text → SpfCheck
  checked domain none envelope_from helo (found, records) = unchecked domain none (found, records)
  checked domain (some ip) envelope_from helo (some true, records) =
      let check = unchecked domain (some ip) (some true, records) in
      if null ip then check else evaluate domain ip envelope_from helo check
  checked domain (some ip) envelope_from helo (some false, records) =
      unchecked domain (some ip) (some false, records)
  checked domain (some ip) envelope_from helo (none, records) =
      unchecked domain (some ip) (none, records)

  unfoldable pub check_spf : Text → Option Text → Option Text → Option Text → SpfCheck
  unfolding check_spf_record
  check_spf domain sender_ip envelope_from helo =
      checked domain sender_ip envelope_from helo (check_spf_record dns domain)
