-- ===== src/Processor/Analyzer/Outage.antt =====
-- `Analyzer.analyze` of `src/processor/analyzer.py`, when the resolver cannot answer.
pub mod Lookups
use mail_tester.Prelude.{
  ℕ, zero, suc, ◌≤◌, ◌≡◌, ◌≢◌, ◌⊎◌, refl, Bool, true, false, Option, none, some, List, [], ◌∷◌,
  ◌++◌, Text, arith, Option-cases, inl, inr, if_both, null, count_char, is_dot, rstrip, ◌==◌, codes,
  strip, take,
}
use mail_tester.Config.{Config}
use mail_tester.Processor.Score.{Deduction}
use mail_tester.Processor.Dns.{Dns, Answer, no_nameservers, timeout, other}
use mail_tester.Processor.Spf.{SpfCheck, check_spf_record, check_spf}
use mail_tester.Processor.Dkim as Dkim
use mail_tester.Processor.Dkim.{
  DkimCheck, Key, key, no_record, lookup_error, get_dkim_content, with_key, with_selector,
  dkim_key_lookup, check_dkim,
}
use mail_tester.Processor.Dmarc.{
  look, failed_here, parent_of, walk, check_dmarc_record, check_dmarc,
}
use mail_tester.Processor.Rdns.{ptr_name, check_rdns}
use mail_tester.Processor.Blacklists.{dnsbl_lists, Status, domain_dnsbl_status, assign, query_one}
use mail_tester.Processor.Blacklists.Ips.{IpReport, collect, check_blacklists}
use mail_tester.Processor.Blacklists.Domains.{
  DomainReport, is_listed, add_result, collect_domains, targets, jobs, check_domain_blacklists,
}
use mail_tester.Processor.Analyzer.Calls.{when}
use mail_tester.Processor.Analyzer.Authentication.{
  spf_deductions, dkim_deductions, dmarc_deductions,
}
use mail_tester.Processor.Analyzer.Delivery.{
  helo_of, tls_deductions, helo_deductions, rdns_deductions, helo_rdns_deductions, listed_on,
  blacklist_deductions,
}
use mail_tester.Processor.Analyzer.Body.{
  body_deductions, unsubscribe_deductions, subject_deductions, domain_deductions, spam_deductions,
}
use mail_tester.Processor.Analyzer.Headers.{lacks, header_deductions, envelope_deductions}
use mail_tester.Processor.Analyzer.Analysis.{
  Tools, Mail, Checks, run_checks, address_deductions, deductions, decoded, public_ip,
}
use mail_tester.Processor.Analyzer.Outage.Lookups.{
  IsDown, is_lookup_error, spf_record_down, key_down, rdns_down, dmarc_record_down, collect_down,
  domains_down,
}

none_listed : (bl : IpReport) → listed_on bl.results ≡ [] → blacklist_deductions bl ≡ []
unfolding blacklist_deductions when
none_listed bl h = rw h refl

no_listing : (bl : DomainReport) → bl.listings ≡ [] → domain_deductions bl ≡ []
unfolding domain_deductions when
no_listing bl h = rw h refl

module _ (T : Tools) (c : Config) (down : IsDown T.dns) where
  spf_down :
      (domain : Text) (ip envelope helo : Option Text)
      → spf_deductions domain ip (check_spf T.check2 T.dns domain ip envelope helo) ≡ []
  unfolding spf_deductions check_spf
  spf_down domain none envelope helo = rw (spf_record_down T.dns down domain) refl
  spf_down domain (some ip) envelope helo = rw (spf_record_down T.dns down domain) refl

  dmarc_down :
      (domain : Text) (spf : SpfCheck) (dkim : DkimCheck)
      → 1 ≤ count_char b'.' (strip is_dot domain)
      → dmarc_deductions domain (check_dmarc T.dns domain spf dkim) ≡ []
  unfolding dmarc_deductions check_dmarc
  dmarc_down domain spf dkim h = rw (dmarc_record_down T.dns down domain h) refl

  rdns_deductions_down :
      (ip : Text) (helo : Option Text)
      → rdns_deductions ip (check_rdns T.dns ip)
          ++ helo_rdns_deductions helo (check_rdns T.dns ip).hostname
        ≡ []
  unfolding rdns_deductions helo_rdns_deductions
  rdns_deductions_down ip helo = ground (arith, rdns_down T.dns down ip)

  blacklist_down :
      (ip : Text)
      → blacklist_deductions (check_blacklists T.dns T.ips_completed c.dnsbl_max_lists ip) ≡ []
  unfolding check_blacklists listed_on
  blacklist_down ip = none_listed _ (
      if_both (λ (bl : IpReport). listed_on bl.results ≡ []) (null ip) _ _ refl
        (collect_down T.dns down ip (T.ips_completed (take c.dnsbl_max_lists dnsbl_lists)) [] refl))

  domain_down :
      (ds : List Text)
      → domain_deductions (check_domain_blacklists T.dns T.domains_completed c.uribl_max_domains ds)
        ≡ []
  unfolding check_domain_blacklists
  domain_down ds = no_listing _ (
      if_both (λ (bl : DomainReport). bl.listings ≡ []) (null (targets c.uribl_max_domains ds)) _ _
        refl
        (domains_down T.dns down (T.domains_completed (jobs (targets c.uribl_max_domains ds))) _
          refl))

  address_down : (m : Mail) → address_deductions T c m (run_checks T c m) ≡ []
  unfolding address_deductions run_checks
  address_down m = elim (Option-cases (public_ip T c m)) [
    | inl e ↦ rw e refl
    | inr (ip, e) ↦ rw (e, rdns_deductions_down ip (helo_of m.connection), blacklist_down ip) refl
  ]

  -- What was found in the mail alone.
  abbrev IsLocal : DkimCheck → Type 0
  IsLocal dkim = (dkim.verified ≡ none) × (dkim.status ≢ Dkim.no_key)

  with_key-IsLocal :
      (raw : Text) (k : Key) (check : DkimCheck)
      → is_lookup_error k ≡ true
      → check.verified ≡ none
      → IsLocal (with_key T.verify T.dns raw k check)
  with_key-IsLocal raw (lookup_error e) check h v = (v, λ e'. ground arith)
  with_key-IsLocal raw no_record check h v = ground arith
  with_key-IsLocal raw (key k) check h v = ground arith

  with_selector-IsLocal :
      (domain raw : Text) (selector : Option Text) (check : DkimCheck)
      → check.verified ≡ none
      → IsLocal (with_selector T.verify T.dns domain raw selector check)
  with_selector-IsLocal domain raw none check v = (v, λ e. ground arith)
  with_selector-IsLocal domain raw (some s) check v =
      if_both IsLocal (null s) _ _ (v, λ e. ground arith)
        (with_key-IsLocal raw _ check (key_down T.dns down _) v)

  dkim_down : (domain raw : Text) → IsLocal (check_dkim T.verify T.dns domain raw)
  unfolding check_dkim
  dkim_down domain raw =
      if_both IsLocal (null (get_dkim_content raw)) _ _ (refl, λ e. ground arith)
        (with_selector-IsLocal domain raw _ _ refl)

  -- The calls of `score.minus` that no DNS lookup decides.
  abbrev pub offline_deductions : Mail → Checks → List Deduction
  offline_deductions m k =
      dkim_deductions m.domain k.dkim
      ++ (header_deductions (decoded T c m)
          ++ (envelope_deductions m.domain m.envelope_from
              ++ (tls_deductions m.connection
                  ++ (helo_deductions (helo_of m.connection)
                      ++ (body_deductions k.content
                          ++ (unsubscribe_deductions k.content
                                (lacks (codes "List-Unsubscribe") (decoded T c m))
                              ++ (subject_deductions k.content
                                  ++ spam_deductions c.spam_penalty_cap k.spamassassin)))))))

  deductions_offline :
      (m : Mail) (k : Checks)
      → spf_deductions m.domain (public_ip T c m) k.spf ≡ []
      → dmarc_deductions m.domain k.dmarc ≡ []
      → address_deductions T c m k ≡ []
      → domain_deductions k.domain_blacklists ≡ []
      → deductions T c m k ≡ offline_deductions m k
  unfolding deductions
  deductions_offline m k spf dmarc address listings = rw (spf, dmarc, address, listings) refl

  -- When every DNS lookup fails, an analysis of a mail from a domain with a dot in it deducts for the
  -- mail itself and its delivery alone: nothing for SPF, DMARC, reverse DNS and blacklists, and for
  -- DKIM only that there is no signature, or none with a selector.
  pub deductions_down :
      (m : Mail)
      → 1 ≤ count_char b'.' (strip is_dot m.domain)
      → (deductions T c m (run_checks T c m) ≡ offline_deductions m (run_checks T c m))
        × ((run_checks T c m).dkim.verified ≡ none)
        × ((run_checks T c m).dkim.status ≢ Dkim.no_key)
  unfolding run_checks
  deductions_down m dotted =
      let k = run_checks T c m in
      let local = dkim_down m.domain m.raw_email in
      (
        deductions_offline m k
            (spf_down m.domain (public_ip T c m) m.envelope_from (helo_of m.connection))
            (dmarc_down m.domain k.spf k.dkim dotted) (address_down m)
            (domain_down (m.domain ∷ k.content.link_hosts)),
        local.0,
        local.1,
      )
