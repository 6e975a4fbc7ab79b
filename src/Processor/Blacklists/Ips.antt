-- ===== src/Processor/Blacklists/Ips.antt =====
-- `check_blacklists` of `src/processor/service.py`.
use mail_tester.Prelude.{ℕ, ◌++◌, List, [], ◌∷◌, take, length, null, Text, if◌then◌else◌}
use mail_tester.Processor.Blacklists.{
  Status, Summary, empty_summary, count, dnsbl_lists, ip_dnsbl_status, query_one, reversed_ip,
  assign,
}
use mail_tester.Processor.Dns.{Dns}

pub record IpReport : Type 0 where
  pub checked : ℕ
  pub results : List (Text × Status)
  pub addresses_of : List (Text × List Text)
  pub summary : Summary

abbrev query_ip : Dns → Text → Text → Status × List Text
query_ip dns ip dnsbl = query_one dns (ip_dnsbl_status dnsbl) (reversed_ip ip ++ (b'.' ∷ dnsbl))

-- The loop over the completed lookups.
unfoldable pub collect : Dns → Text → List Text → List (Text × Status) → List (Text × Status)
unfolding query_one
collect dns ip [] results = results
collect dns ip (dnsbl ∷ rest) results =
    collect dns ip rest (assign dnsbl (query_ip dns ip dnsbl).0 results)

unfoldable pub collect_addresses :
    Dns → Text → List Text → List (Text × List Text) → List (Text × List Text)
unfolding query_one
collect_addresses dns ip [] found = found
collect_addresses dns ip (dnsbl ∷ rest) found =
    let addresses = (query_ip dns ip dnsbl).1 in
    collect_addresses dns ip rest (if null addresses then found else assign dnsbl addresses found)

unfoldable pub count_results : List (Text × Status) → Summary → Summary
count_results [] summary = summary
count_results ((dnsbl, st) ∷ results) summary = count_results results (count st summary)

unfoldable pub check_blacklists : Dns → (List Text → List Text) → ℕ → Text → IpReport
unfolding collect collect_addresses count_results
check_blacklists dns as_completed max_lists ip =
    if null ip
    then record { checked = 0; results = []; addresses_of = []; summary = empty_summary }
    else let completed = as_completed (take max_lists dnsbl_lists) in
      let results = collect dns ip completed [] in
      record {
        checked = length results;
        results = results;
        addresses_of = collect_addresses dns ip completed [];
        summary = count_results results empty_summary;
      }
