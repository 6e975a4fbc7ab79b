-- ===== src/Processor/Blacklists/Domains.antt =====
-- `check_domain_blacklists` of `src/processor/service.py`.
use mail_tester.Prelude.{
  ℕ, ◌++◌, Bool, true, false, List, [], ◌∷◌, map, take, length, null, Text, ◌=ᵗ◌, if◌then◌else◌,
}
use mail_tester.Processor.Blacklists.{
  Status, listed, Summary, empty_summary, count, domain_dnsbl_lists, domain_dnsbl_status, query_one,
  assign, get_or,
}
use mail_tester.Processor.Dns.{Dns}

-- `list(dict.fromkeys(…))`: each at the place where it first stands.
abbrev pub without : Text → List Text → List Text
without d [] = []
without d (e ∷ es) = let rest = without d es in if e =ᵗ d then rest else e ∷ rest

unfoldable pub distinct : List Text → List Text
distinct [] = []
distinct (d ∷ ds) = d ∷ without d (distinct ds)

unfoldable pub drop_empty : List Text → List Text
drop_empty [] = []
drop_empty (d ∷ ds) = let rest = drop_empty ds in if null d then rest else d ∷ rest

unfoldable pub targets : ℕ → List Text → List Text
unfolding distinct drop_empty
targets most domains = take most (drop_empty (distinct domains))

unfoldable pub jobs : List Text → List (Text × Text)
jobs [] = []
jobs (domain ∷ rest) = map (λ dnsbl. (domain, dnsbl)) domain_dnsbl_lists ++ jobs rest

pub record DomainReport : Type 0 where
  pub checked : ℕ
  pub results : List (Text × List (Text × Status))
  pub listings : List (Text × Text)
  pub summary : Summary

abbrev pub query_domain : Dns → Text × Text → Status
query_domain dns (domain, dnsbl) = (query_one dns domain_dnsbl_status (domain ++ (b'.' ∷ dnsbl))).0

abbrev pub is_listed : Status → Bool
is_listed listed = true
is_listed st = false

-- One round of the loop over the completed lookups.
unfoldable pub add_result : Text × Text → Status → DomainReport → DomainReport
unfolding assign get_or count
add_result (domain, dnsbl) st report = record report {
  results = assign domain (assign dnsbl st (get_or domain [] report.results)) report.results;
  summary = count st report.summary;
  listings = if is_listed st then report.listings ++ ((domain, dnsbl) ∷ []) else report.listings;
}

unfoldable pub collect_domains : Dns → List (Text × Text) → DomainReport → DomainReport
unfolding add_result query_one
collect_domains dns [] report = report
collect_domains dns (job ∷ completed) report =
    collect_domains dns completed (add_result job (query_domain dns job) report)

abbrev pub new_report : ℕ → DomainReport
new_report n = record { checked = n; results = []; listings = []; summary = empty_summary }

unfoldable pub check_targets :
    Dns → (List (Text × Text) → List (Text × Text)) → List Text → DomainReport
unfolding jobs collect_domains
check_targets dns as_completed chosen =
    if null chosen
    then new_report 0
    else collect_domains dns (as_completed (jobs chosen)) (new_report (length (jobs chosen)))

unfoldable pub check_domain_blacklists :
    Dns → (List (Text × Text) → List (Text × Text)) → ℕ → List Text → DomainReport
unfolding targets check_targets
check_domain_blacklists dns as_completed max_domains domains =
    check_targets dns as_completed (targets max_domains domains)
