-- ===== src/Processor/Blacklists.antt =====
-- The DNS blacklists of `src/processor/service.py`: `_ip_dnsbl_status`, `check_blacklists`,
-- `_domain_dnsbl_status` and `check_domain_blacklists`. The thread pool is an argument: the function
-- from the jobs that are submitted to the order in which they are completed.
pub mod Ips
pub mod Domains
pub mod Summaries
use mail_tester.Prelude.{
  ℕ, suc, ◌+◌, ◌++◌, Bool, true, false, ◌||◌, Option, none, some, List, [], ◌∷◌, map, reverse, take,
  length, null, any, Text, codes, split, join, starts_with, ◌=ᵗ◌, if◌then◌else◌,
}
use mail_tester.Processor.Dns.{
  Dns, Answer, answers, nxdomain, no_answer, no_nameservers, timeout, other,
}

abbrev pub dnsbl_lists : List Text
dnsbl_lists =
    codes "zen.spamhaus.org"
    ∷ codes "bl.spamcop.net"
    ∷ codes "dnsbl.sorbs.net"
    ∷ codes "b.barracudacentral.org"
    ∷ codes "cbl.abuseat.org"
    ∷ codes "ips.backscatterer.org"
    ∷ codes "truncate.gbudb.net"
    ∷ codes "ubl.unsubscore.com"
    ∷ codes "virus.rbl.msrbl.net"
    ∷ codes "spam.rbl.msrbl.net"
    ∷ codes "phishing.rbl.msrbl.net"
    ∷ codes "ricn.dnsbl.net.au"
    ∷ codes "dnsbl.kempt.net"
    ∷ codes "bl.mailspike.net"
    ∷ codes "z.mailspike.net"
    ∷ codes "bl.score.senderscore.com"
    ∷ codes "dnsbl.dronebl.org"
    ∷ codes "dnsbl.spfbl.net"
    ∷ codes "dnsbl.cyberlogic.net"
    ∷ codes "psbl.surriel.com"
    ∷ codes "bl.blocklist.de"
    ∷ codes "rbl.interserver.net"
    ∷ codes "bad.psky.me"
    ∷ codes "hostkarma.junkemailfilter.com"
    ∷ codes "bl.konstant.no"
    ∷ codes "dnsbl.anticaptcha.net"
    ∷ codes "all.s5h.net"
    ∷ []

abbrev pub domain_dnsbl_lists : List Text
domain_dnsbl_lists =
    codes "dbl.spamhaus.org"
    ∷ codes "multi.uribl.com"
    ∷ codes "multi.surbl.org"
    ∷ codes "black.uribl.com"
    ∷ []

pub data Status : Type 0 where
  listed not_listed reputation timed_out blocked errored : Status

pub record Summary : Type 0 where
  pub listed_count : ℕ
  pub not_listed_count : ℕ
  pub reputation_count : ℕ
  pub timeout_count : ℕ
  pub blocked_count : ℕ
  pub error_count : ℕ

abbrev pub empty_summary : Summary
empty_summary = record {
  listed_count = 0;
  not_listed_count = 0;
  reputation_count = 0;
  timeout_count = 0;
  blocked_count = 0;
  error_count = 0;
}

-- `summary[status] += 1`
unfoldable pub count : Status → Summary → Summary
count listed s = record s { listed_count = suc s.listed_count }
count not_listed s = record s { not_listed_count = suc s.not_listed_count }
count reputation s = record s { reputation_count = suc s.reputation_count }
count timed_out s = record s { timeout_count = suc s.timeout_count }
count blocked s = record s { blocked_count = suc s.blocked_count }
count errored s = record s { error_count = suc s.error_count }

abbrev is_one_of : List Text → Text → Bool
is_one_of ts t = any (λ u. t =ᵗ u) ts

abbrev pub listed_codes : Text → List Text
listed_codes dnsbl =
    if dnsbl =ᵗ codes "zen.spamhaus.org"
    then codes "127.0.0.2"
      ∷ codes "127.0.0.3"
      ∷ codes "127.0.0.4"
      ∷ codes "127.0.0.5"
      ∷ codes "127.0.0.6"
      ∷ codes "127.0.0.7"
      ∷ codes "127.0.0.9"
      ∷ codes "127.0.0.10"
      ∷ codes "127.0.0.11"
      ∷ []
    else if dnsbl =ᵗ codes "cbl.abuseat.org"
    then codes "127.0.0.2" ∷ codes "127.0.0.4" ∷ []
    else codes "127.0.0.2" ∷ []

-- What a list answers when it refuses the query.
abbrev pub is_refusal : Text → Bool
is_refusal address = starts_with address (codes "127.255.255.")

unfoldable pub ip_dnsbl_status : Text → List Text → Status
ip_dnsbl_status dnsbl addresses =
    if any is_refusal addresses
    then blocked
    else if any (is_one_of (listed_codes dnsbl)) addresses
    then listed
    else reputation

abbrev pub is_domain_refusal : Text → Bool
is_domain_refusal address = is_refusal address || (address =ᵗ codes "127.0.0.1")

abbrev pub is_domain_listing : Text → Bool
is_domain_listing address =
    starts_with address (codes "127.0.1.")
    || is_one_of
        (codes "127.0.0.2" ∷ codes "127.0.0.4" ∷ codes "127.0.0.8" ∷ codes "127.0.0.14" ∷ [])
        address

unfoldable pub domain_dnsbl_status : List Text → Status
domain_dnsbl_status addresses =
    if any is_domain_refusal addresses
    then blocked
    else if any is_domain_listing addresses
    then listed
    else reputation

-- `query_one`, both of them, by what the addresses mean: the status, and the addresses.
unfoldable pub query_one : Dns → (List Text → Status) → Text → Status × List Text
query_one dns status_of name = elim (dns.resolve_a name) [
  | answers addresses ↦ (status_of addresses, addresses)
  | nxdomain ↦ (not_listed, [])
  | timeout ↦ (timed_out, [])
  | no_answer ↦ (errored, [])
  | no_nameservers ↦ (errored, [])
  | other e ↦ (errored, [])
]

-- `".".join(ip.split(".")[::-1])`
abbrev pub reversed_ip : Text → Text
reversed_ip ip = join b'.' (reverse (split b'.' ip))

-- `results[key] = value`, in a dict that keeps the order of its insertions.
module _ {ℓ} {A : Type ℓ} where
  unfoldable pub assign : Text → A → List (Text × A) → List (Text × A)
  assign key value [] = (key, value) ∷ []
  assign key value ((k, v) ∷ entries) =
      if k =ᵗ key then (k, value) ∷ entries else (k, v) ∷ assign key value entries

  unfoldable pub get_or : Text → A → List (Text × A) → A
  get_or key default [] = default
  get_or key default ((k, v) ∷ entries) = if k =ᵗ key then v else get_or key default entries
