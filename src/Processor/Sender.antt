-- ===== src/Processor/Sender.antt =====
-- `is_public_ip`, `get_sender_ip`, `get_mx_record`, `check_a_record`, `check_smtp_server` and
-- `check_user_ctrl` of `src/processor/service.py`. The package `ipaddress` is a parameter: for a text
-- that is an address, whether that is global. So is `smtplib`: the steps of a session that fail.
pub mod Received
use mail_tester.Prelude.{
  ℕ, Bool, true, false, Option, none, some, List, [], ◌∷◌, map, reverse, Text, codes, rstrip,
  is_dot, ◌==◌, ◌&&◌, if◌then◌else◌,
}
use mail_tester.Regex.{findall}
use mail_tester.Processor.Dns.{Dns, answers, nxdomain, no_answer, no_nameservers, timeout, other}
use mail_tester.Ingest.Message.{Message, headers, get_all}
use mail_tester.Ingest.Connection.{client_ip_pattern}

-- What becomes of a session with one server: an exception with its text, or the code that the server
-- gives to the recipient.
pub data Session : Type 0 where
  fails : Text → Session
  replies : ℕ → Session

-- What `check_user_ctrl` returns: a truth value, or the text of an exception.
pub data UserCheck : Type 0 where
  verdict : Bool → UserCheck
  message : Text → UserCheck

-- `none` is `False`, which a failed lookup gives.
unfoldable pub get_mx_record : Dns → Text → Option (List Text)
get_mx_record dns domain = elim (dns.resolve_mx domain) [
  | answers hosts ↦ some (map (rstrip is_dot) hosts)
  | nxdomain ↦ none
  | no_answer ↦ none
  | no_nameservers ↦ none
  | timeout ↦ none
  | other e ↦ none
]

unfoldable pub check_a_record : Dns → Text → Bool
check_a_record dns domain = elim (dns.resolve_a domain) [
  | answers [] ↦ false
  | answers (a ∷ as_) ↦ true
  | nxdomain ↦ false
  | no_answer ↦ false
  | no_nameservers ↦ false
  | timeout ↦ false
  | other e ↦ false
]

-- `connect` is the greeting of a server, which succeeds or not; `probe` is the session of
-- `check_user_ctrl`.
module _ (dns : Dns) (connect : Text → Bool) (probe : Text → Text → Session) where
  abbrev all_connect : List Text → Bool
  all_connect [] = true
  all_connect (mx ∷ mxs) = connect mx && all_connect mxs

  abbrev servers_of : Option (List Text) → Bool
  servers_of none = false
  servers_of (some []) = false
  servers_of (some (mx ∷ mxs)) = all_connect (mx ∷ mxs)

  unfoldable pub check_smtp_server : Text → Bool
  unfolding get_mx_record
  check_smtp_server domain = servers_of (get_mx_record dns domain)

  abbrev conclude : Session → UserCheck
  conclude (fails e) = message e
  conclude (replies code) = verdict (code == 250)

  -- Every round of the loop returns, so only the first server is asked.
  abbrev ask_first : Text → Option (List Text) → UserCheck
  ask_first user none = verdict false
  ask_first user (some []) = verdict false
  ask_first user (some (mx ∷ mxs)) = conclude (probe mx user)

  unfoldable pub check_user_ctrl : Text → Text → UserCheck
  unfolding get_mx_record
  check_user_ctrl domain user = ask_first user (get_mx_record dns domain)

module _ (is_global : Text → Option Bool) where
  abbrev without_error : Option Bool → Bool
  without_error none = false
  without_error (some b) = b

  unfoldable pub is_public_ip : Text → Bool
  is_public_ip ip = without_error (is_global ip)

  -- The inner loop: the first public address of a header.
  unfoldable pub first_public : List Text → Option Text
  unfolding is_public_ip
  first_public [] = none
  first_public (ip ∷ ips) = let rest = first_public ips in if is_public_ip ip then some ip else rest

  -- The outer loop, over the headers.
  unfoldable pub search_headers : List Text → Option Text
  unfolding first_public findall
  search_headers [] = none
  search_headers (h ∷ hs) =
      let rest = search_headers hs in
      elim (first_public (findall client_ip_pattern h)) [ none ↦ rest | some ip ↦ some ip ]

  unfoldable pub get_sender_ip : Message → Option Text
  unfolding search_headers
  get_sender_ip m = search_headers (reverse (get_all (codes "Received") (headers m)))
