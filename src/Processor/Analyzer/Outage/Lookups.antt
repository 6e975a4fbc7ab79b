-- ===== src/Processor/Analyzer/Outage/Lookups.antt =====
-- `src/processor/service.py`, when the resolver cannot answer.
use mail_tester.Prelude.{
  ℕ, zero, suc, ◌≤◌, ◌≡◌, ◌⊎◌, refl, Bool, true, false, none, List, [], ◌∷◌, ◌++◌, Text, arith,
  count_char, is_dot, rstrip, ◌==◌, codes, strip,
}
use mail_tester.Processor.Dns.{Dns, Answer, no_nameservers, timeout, other}
use mail_tester.Processor.Spf.{check_spf_record}
use mail_tester.Processor.Dkim.{Key, lookup_error, dkim_key_lookup}
use mail_tester.Processor.Dmarc.{look, failed_here, parent_of, walk, check_dmarc_record}
use mail_tester.Processor.Rdns.{ptr_name, check_rdns}
use mail_tester.Processor.Blacklists.{Status, domain_dnsbl_status, assign, query_one}
use mail_tester.Processor.Blacklists.Ips.{collect}
use mail_tester.Processor.Blacklists.Domains.{DomainReport, is_listed, add_result, collect_domains}
use mail_tester.Processor.Analyzer.Delivery.{listed_on}

-- An answer that is none: the lookup itself failed.
abbrev IsFailure : {A : Type 0} → Answer A → Type 0
IsFailure a = (a ≡ no_nameservers) ⊎ ((a ≡ timeout) ⊎ ((e : Text) × (a ≡ other e)))

-- Every lookup fails.
pub record IsDown (dns : Dns) : Type 0 where
  pub txt : (name : Text) → IsFailure (dns.resolve_txt name)
  pub a : (name : Text) → IsFailure (dns.resolve_a name)
  pub ptr : (name : Text) → IsFailure (dns.resolve_ptr name)

abbrev pub is_lookup_error : Key → Bool
is_lookup_error (lookup_error e) = true
is_lookup_error k = false

module _ (dns : Dns) (down : IsDown dns) where
  pub spf_record_down : (domain : Text) → check_spf_record dns domain ≡ (none, [])
  unfolding check_spf_record
  spf_record_down domain = ground (arith, down.txt domain)

  pub key_down : (name : Text) → is_lookup_error (dkim_key_lookup dns name) ≡ true
  unfolding dkim_key_lookup
  key_down name = ground (arith, down.txt (rstrip (λ c. c == b'.') name))

  look_down : (candidate : Text) → look dns candidate ≡ failed_here
  unfolding look
  look_down candidate = ground (arith, down.txt (codes "_dmarc." ++ candidate))

  query_down :
      (status_of : List Text → Status) (name : Text)
      → is_listed (query_one dns status_of name).0 ≡ false
  unfolding query_one
  query_down status_of name = ground (arith, down.a name)

  pub rdns_down :
      (ip : Text) → ((check_rdns dns ip).success ≡ none) × ((check_rdns dns ip).hostname ≡ none)
  unfolding check_rdns
  rdns_down ip = ground (arith, down.ptr (ptr_name ip))

  walk_down :
      (fuel : ℕ) (candidate : Text) (failed : Bool)
      → failed ≡ true
      → walk dns fuel candidate failed ≡ (none, none, none)
  unfolding walk
  walk_down zero candidate failed h = ground arith
  walk_down (suc fuel) candidate failed h =
      ground (arith, look_down candidate, walk_down fuel (parent_of candidate) true refl)

  walk_first :
      (n : ℕ) (s : Text) → 1 ≤ count_char b'.' s → 1 ≤ n → walk dns n s false ≡ (none, none, none)
  unfolding walk
  walk_first zero s h k = ground arith
  walk_first (suc n) s h k = ground (arith, look_down s, walk_down n (parent_of s) true refl)

  pub dmarc_record_down :
      (domain : Text)
      → 1 ≤ count_char b'.' (strip is_dot domain)
      → check_dmarc_record dns domain ≡ (none, none, none)
  unfolding check_dmarc_record
  dmarc_record_down domain h =
      walk_first (count_char b'.' (strip is_dot domain)) (strip is_dot domain) h h

  -- An assignment of a status that is no listing keeps the listings.
  listed_on-assign :
      (name : Text) (st : Status) (results : List (Text × Status))
      → is_listed st ≡ false
      → listed_on results ≡ []
      → listed_on (assign name st results) ≡ []
  unfolding listed_on assign
  listed_on-assign name st [] h e = ground arith
  listed_on-assign name st ((n, s) ∷ results) h e =
      ground (arith, listed_on-assign name st results h)

  pub collect_down :
      (ip : Text) (names : List Text) (results : List (Text × Status))
      → listed_on results ≡ []
      → listed_on (collect dns ip names results) ≡ []
  unfolding collect
  collect_down ip [] results e = e
  collect_down ip (n ∷ names) results e =
      collect_down ip names _ (listed_on-assign n _ results (query_down _ _) e)

  pub domains_down :
      (js : List (Text × Text)) (r : DomainReport)
      → r.listings ≡ []
      → (collect_domains dns js r).listings ≡ []
  unfolding collect_domains add_result
  domains_down [] r e = e
  domains_down (j ∷ js) r e =
      domains_down js _ (rw (query_down domain_dnsbl_status (j.0 ++ (b'.' ∷ j.1))) e)
