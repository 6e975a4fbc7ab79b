-- ===== src/Processor/Analyzer/Delivery.antt =====
-- `src/processor/analyzer.py`: what the connection and the address of the sending server cost.
use mail_tester.Prelude.{
  ℕ, ◌*◌, min, Bool, true, false, ◌&&◌, ◌||◌, not, Option, none, some, List, [], ◌∷◌, ◌++◌, Text,
  codes, null, length, lower, strip, has_char, ◌==◌, ◌=ᵗ◌, if◌then◌else◌,
}
use mail_tester.Decimal.{all_digits}
use mail_tester.Db.Documents.{Connection}
use mail_tester.Processor.Score.{Deduction, high, medium, low}
use mail_tester.Processor.Rdns.{RdnsCheck}
use mail_tester.Processor.Blacklists.{Status}
use mail_tester.Processor.Blacklists.Ips.{IpReport}
use mail_tester.Processor.Blacklists.Domains.{is_listed}
use mail_tester.Processor.Analyzer.Calls.{deduction, when, join_texts, shown}

-- `self.connection.get("tls")` and `self.connection.get("helo")`; no connection is `{}`.
abbrev pub tls_of : Option Connection → Bool
tls_of none = false
tls_of (some c) = c.tls

abbrev pub helo_of : Option Connection → Option Text
helo_of none = none
helo_of (some c) = c.helo

unfoldable pub tls_deductions : Option Connection → List Deduction
tls_deductions connection = when (not (tls_of connection)) (
    deduction 50 (codes "Mail was delivered without TLS") (codes "TLS_MISSING") medium []
      (codes "Enable opportunistic TLS on the sending server."))

abbrev is_bracket : ℕ → Bool
is_bracket c = c == b'[' || c == b']'

abbrev pub bare_helo : Text → Text
bare_helo = strip is_bracket

-- `s.replace(".", "")`
abbrev without_dots : Text → Text
without_dots [] = []
without_dots (c ∷ s) = if c == b'.' then without_dots s else c ∷ without_dots s

-- `s.isdigit()`
abbrev is_number : Text → Bool
is_number s = not (null s) && all_digits s

unfoldable pub is_fqdn : Text → Bool
unfolding strip has_char all_digits
is_fqdn helo =
    let bare = bare_helo helo in has_char b'.' bare && not (is_number (without_dots bare))

-- `if helo:`, for what is asked of the name.
abbrev with_helo : (Text → List Deduction) → Option Text → List Deduction
with_helo f none = []
with_helo f (some helo) = if null helo then [] else f helo

unfoldable pub helo_deductions : Option Text → List Deduction
unfolding is_fqdn
helo_deductions = with_helo (λ helo. when (not (is_fqdn helo)) (
    deduction 30 (codes "HELO name is not a fully qualified hostname") (codes "HELO_NOT_FQDN")
      medium helo (codes "Set the sending server to greet with its own public hostname.")))

abbrev or_no_record : List Text → Text
or_no_record [] = codes "no A record"
or_no_record (ip ∷ ips) = join_texts (codes ", ") (ip ∷ ips)

abbrev rdns_no_match : Text → RdnsCheck → Option Bool → List Deduction
rdns_no_match ip rdns none = []
rdns_no_match ip rdns (some true) = []
rdns_no_match ip rdns (some false) =
    deduction 50 (codes "Reverse DNS is not forward confirmed") (codes "RDNS_NO_MATCH") medium
      (shown rdns.hostname ++ (codes " -> " ++ or_no_record rdns.forward_ips))
      (codes "Make " ++ (shown rdns.hostname ++ (codes " resolve back to " ++ (ip ++ codes "."))))
    ∷ []

abbrev rdns_by_success : Text → RdnsCheck → Option Bool → List Deduction
rdns_by_success ip rdns none = []
rdns_by_success ip rdns (some false) =
    deduction 50 (codes "Reverse DNS record not found") (codes "RDNS_MISSING") medium []
      (codes "Ask the network owner to add a PTR record for " ++ (ip ++ codes "."))
    ∷ []
rdns_by_success ip rdns (some true) = rdns_no_match ip rdns rdns.matches

unfoldable pub rdns_deductions : Text → RdnsCheck → List Deduction
unfolding join_texts
rdns_deductions ip rdns = rdns_by_success ip rdns rdns.success

-- Whether the name of the greeting is the name of the address.
unfoldable pub matches_rdns : Text → Text → Bool
unfolding strip
matches_rdns helo hostname = lower (bare_helo helo) =ᵗ lower hostname

unfoldable pub helo_rdns_deductions : Option Text → Option Text → List Deduction
unfolding matches_rdns
helo_rdns_deductions helo hostname =
    with_helo
      (λ h.
        with_helo
          (λ name. when (not (matches_rdns h name)) (
            deduction 20 (codes "HELO name does not match reverse DNS") (codes "HELO_RDNS_MISMATCH")
              low (codes "helo=" ++ (h ++ (codes " rdns=" ++ name)))
              (codes "Use the same hostname for HELO and the PTR record.")))
          hostname)
      helo

-- The status that is shown for the reverse lookup.
pub data RdnsStatus : Type 0 where
  unknown ok warning missing : RdnsStatus

abbrev if_matches : Option Bool → RdnsStatus
if_matches none = warning
if_matches (some false) = warning
if_matches (some true) = ok

abbrev if_success : Option Bool → Option Bool → RdnsStatus
if_success none matches = unknown
if_success (some true) matches = if_matches matches
if_success (some false) none = missing
if_success (some false) (some false) = missing
if_success (some false) (some true) = ok

-- `none` is a lookup that was skipped.
unfoldable pub rdns_status : Option RdnsCheck → RdnsStatus
rdns_status none = unknown
rdns_status (some rdns) = if_success rdns.success rdns.matches

pub record HeloCheck : Type 0 where
  pub value : Option Text
  pub is_fqdn : Bool
  pub matches_rdns : Option Bool

abbrev hostname_of : Option RdnsCheck → Option Text
hostname_of none = none
hostname_of (some rdns) = rdns.hostname

abbrev match_names : Option Text → Option Text → Option Bool
match_names none name = none
match_names (some helo) none = none
match_names (some helo) (some name) =
    if null helo then none else if null name then none else some (matches_rdns helo name)

abbrev is_full_name : Option Text → Bool
is_full_name none = false
is_full_name (some helo) = not (null helo) && is_fqdn helo

unfoldable pub check_helo : Option Text → Option RdnsCheck → HeloCheck
unfolding is_fqdn matches_rdns
check_helo helo rdns = record {
  value = helo;
  is_fqdn = is_full_name helo;
  matches_rdns = match_names helo (hostname_of rdns);
}

unfoldable pub listed_on : List (Text × Status) → List Text
listed_on [] = []
listed_on ((name, st) ∷ results) =
    let rest = listed_on results in if is_listed st then name ∷ rest else rest

unfoldable pub blacklist_deductions : IpReport → List Deduction
unfolding listed_on join_texts
blacklist_deductions bl =
    let names = listed_on bl.results in
    let shown_names = join_texts (codes ", ") names in
    when (not (null names)) (
      deduction (min 200 (40 * length names)) (codes "IP is listed in blacklists: " ++ shown_names)
        (codes "DNSBL_LISTED") high (codes "Listed on: " ++ shown_names)
        (codes "Request delisting from the listing providers or send from a clean IP."))
