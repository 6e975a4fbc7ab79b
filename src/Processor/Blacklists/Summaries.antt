-- ===== src/Processor/Blacklists/Summaries.antt =====
-- `check_domain_blacklists` and `check_blacklists` of `src/processor/service.py`: what their summaries count.
use mathlib.Core.List.{Permᴰ}
use mail_tester.Prelude.{
  ℕ, suc, ◌+◌, ◌≡◌, refl, ap, sym, ◌∙◌, arith, List, [], ◌∷◌, map, length, length-append, take,
  Text,
}
use mail_tester.Processor.Dns.{Dns}
use mail_tester.Processor.Blacklists.{Status, Summary, empty_summary, count, dnsbl_lists}
use mail_tester.Processor.Blacklists.Domains.{
  DomainReport, new_report, query_domain, add_result, collect_domains, check_targets,
  check_domain_blacklists, targets, jobs,
}
use mail_tester.Processor.Blacklists.Ips.{check_blacklists, count_results, collect}

unfoldable pub count_all : List Status → Summary → Summary
count_all [] s = s
count_all (st ∷ sts) s = count_all sts (count st s)

abbrev pub total : Summary → ℕ
total s =
    s.listed_count
    + (s.not_listed_count
        + (s.reputation_count + (s.timeout_count + (s.blocked_count + s.error_count))))

count_comm : (a b : Status) (s : Summary) → count a (count b s) ≡ count b (count a s)
unfolding count
count_comm a b s = ground arith

count_all-perm :
    {sts tts : List Status} → Permᴰ sts tts → (s : Summary) → count_all sts s ≡ count_all tts s
unfolding count_all
count_all-perm Permᴰ.nil s = refl
count_all-perm (Permᴰ.cons {a} {b} e p) s = rw e (count_all-perm p (count b s))
count_all-perm (Permᴰ.swap {a} {b} {a'} {b'} e f) s = rw (e, f, count_comm a' b' s)
count_all-perm (Permᴰ.trans p q) s = count_all-perm p s ∙ count_all-perm q s

map-perm {ℓ κ} :
    {A : Type ℓ} {B : Type κ} (f : A → B)
    → {xs ys : List A} → Permᴰ xs ys
    → Permᴰ (map f xs) (map f ys)
map-perm f Permᴰ.nil = Permᴰ.nil
map-perm f (Permᴰ.cons e p) = Permᴰ.cons (ap f e) (map-perm f p)
map-perm f (Permᴰ.swap e g) = Permᴰ.swap (ap f e) (ap f g)
map-perm f (Permᴰ.trans p q) = Permᴰ.trans (map-perm f p) (map-perm f q)

total-count : (st : Status) (s : Summary) → total (count st s) ≡ suc (total s)
unfolding count
total-count st s = ground arith

total-count_all : (sts : List Status) (s : Summary) → total (count_all sts s) ≡ length sts + total s
unfolding count_all
total-count_all [] s = omega arith
total-count_all (st ∷ sts) s = omega (arith, total-count_all sts (count st s), total-count st s)

collect_domains_summary :
    (dns : Dns) (js : List (Text × Text)) (r : DomainReport)
    → (collect_domains dns js r).summary ≡ count_all (map (query_domain dns) js) r.summary
unfolding collect_domains add_result count_all
collect_domains_summary dns [] r = refl
collect_domains_summary dns (j ∷ js) r =
    collect_domains_summary dns js (add_result j (query_domain dns j) r)

add_result_listings :
    (j : Text × Text) (st : Status) (r : DomainReport)
    → length r.listings ≡ r.summary.listed_count
    → length (add_result j st r).listings ≡ (add_result j st r).summary.listed_count
unfolding add_result count
add_result_listings j st r h = ground (arith, length-append r.listings (j ∷ []))

module _ (dns : Dns) where
  -- The summary over the jobs in the order in which they are submitted.
  abbrev pub submitted : List (Text × Text) → Summary
  submitted js = count_all (map (query_domain dns) js) empty_summary

  collect_domains_checked :
      (js : List (Text × Text)) (r : DomainReport) → (collect_domains dns js r).checked ≡ r.checked
  unfolding collect_domains add_result
  collect_domains_checked [] r = refl
  collect_domains_checked (j ∷ js) r =
      collect_domains_checked js (add_result j (query_domain dns j) r)

  collect_domains_listings :
      (js : List (Text × Text)) (r : DomainReport)
      → length r.listings ≡ r.summary.listed_count
      → length (collect_domains dns js r).listings ≡ (collect_domains dns js r).summary.listed_count
  unfolding collect_domains
  collect_domains_listings [] r h = h
  collect_domains_listings (j ∷ js) r h =
      collect_domains_listings js (add_result j (query_domain dns j) r)
        (add_result_listings j (query_domain dns j) r h)

  length-map : (js : List (Text × Text)) → length (map (query_domain dns) js) + 0 ≡ length js
  length-map [] = refl
  length-map (j ∷ js) = omega (arith, length-map js)

  done :
      (order js : List (Text × Text))
      → Permᴰ order js
      → ((collect_domains dns order (new_report (length js))).summary ≡ submitted js)
        × ((total (collect_domains dns order (new_report (length js))).summary
              ≡ (collect_domains dns order (new_report (length js))).checked)
            × (length (collect_domains dns order (new_report (length js))).listings
                ≡ (collect_domains dns order (new_report (length js))).summary.listed_count))
  done order js p = (
    counted,
    (
      ap total counted
          ∙ (total-count_all (map (query_domain dns) js) empty_summary
              ∙ (length-map js ∙ sym (collect_domains_checked order (new_report (length js))))),
      collect_domains_listings order (new_report (length js)) refl,
    ),
  )
    where
      counted : (collect_domains dns order (new_report (length js))).summary ≡ submitted js
      counted =
          collect_domains_summary dns order (new_report (length js))
          ∙ count_all-perm (map-perm (query_domain dns) p) empty_summary

  check_targets_summary :
      (as_completed : List (Text × Text) → List (Text × Text)) (chosen : List Text)
      → ((js : List (Text × Text)) → Permᴰ (as_completed js) js)
      → ((check_targets dns as_completed chosen).summary ≡ submitted (jobs chosen))
        × ((total (check_targets dns as_completed chosen).summary
              ≡ (check_targets dns as_completed chosen).checked)
            × (length (check_targets dns as_completed chosen).listings
                ≡ (check_targets dns as_completed chosen).summary.listed_count))
  unfolding check_targets jobs count_all
  check_targets_summary as_completed [] h = (refl, (refl, refl))
  check_targets_summary as_completed (t ∷ ts) h =
      done (as_completed (jobs (t ∷ ts))) (jobs (t ∷ ts)) (h (jobs (t ∷ ts)))

  -- If the thread pool completes each job once, in whatever order, the URIBL summary is that of the jobs
  -- in the order in which they are submitted. It counts each job once, and the listings are as many as it says.
  pub check_domain_blacklists-summary :
      (as_completed : List (Text × Text) → List (Text × Text)) (max_domains : ℕ)
      (domains : List Text)
      → ((js : List (Text × Text)) → Permᴰ (as_completed js) js)
      → ((check_domain_blacklists dns as_completed max_domains domains).summary
          ≡ submitted (jobs (targets max_domains domains)))
        × ((total (check_domain_blacklists dns as_completed max_domains domains).summary
              ≡ (check_domain_blacklists dns as_completed max_domains domains).checked)
            × (length (check_domain_blacklists dns as_completed max_domains domains).listings
                ≡ (check_domain_blacklists dns as_completed max_domains
                    domains).summary.listed_count))
  unfolding check_domain_blacklists
  check_domain_blacklists-summary as_completed max_domains domains h =
      check_targets_summary as_completed (targets max_domains domains) h

total-count_results :
    (results : List (Text × Status)) (s : Summary)
    → total (count_results results s) ≡ length results + total s
unfolding count_results
total-count_results [] s = omega arith
total-count_results ((dnsbl, st) ∷ results) s =
    omega (arith, total-count_results results (count st s), total-count st s)

-- What the IP blacklist report counts is what it reports: one status for each list it has checked.
check_blacklists-total :
    (dns : Dns) (as_completed : List Text → List Text) (max_lists : ℕ) (ip : Text)
    → total (check_blacklists dns as_completed max_lists ip).summary
      ≡ (check_blacklists dns as_completed max_lists ip).checked
unfolding check_blacklists
check_blacklists-total dns as_completed max_lists [] = refl
check_blacklists-total dns as_completed max_lists (c ∷ ip) = omega (
  arith,
  total-count_results (collect dns (c ∷ ip) (as_completed (take max_lists dnsbl_lists)) [])
      empty_summary,
)
