-- ===== src/Processor/Dns.antt =====
-- The resolver that `src/processor/service.py` asks, as a parameter: what it answers to a name.
use mail_tester.Prelude.{Bool, Option, List, [], ◌∷◌, ◌++◌, Text}

-- The records, or the exception that `resolve` raises, `other` by the name of its class.
pub data Answer (A : Type 0) : Type 0 where
  answers : List A → Answer A
  nxdomain no_answer no_nameservers timeout : Answer A
  other : Text → Answer A

-- A TXT record is its strings; the others are the address, and the name.
pub record Dns : Type 0 where
  pub resolve_txt : Text → Answer (List Text)
  pub resolve_a : Text → Answer Text
  pub resolve_ptr : Text → Answer Text
  pub resolve_mx : Text → Answer Text

-- `b"".join(rdata.strings)`, decoded
abbrev pub txt_to_str : List Text → Text
txt_to_str [] = []
txt_to_str (s ∷ ss) = s ++ txt_to_str ss

-- What a check concludes where a failed lookup is not the absence of a record: `none` is "unknown".
abbrev pub Found : Type 0
Found = Option Bool
