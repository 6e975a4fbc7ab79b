-- ===== src/Processor/Analyzer/Costs.antt =====
-- `Analyzer.analyze` of `src/processor/analyzer.py`: what the deductions of one analysis amount to.
pub mod Groups
use mail_tester.Prelude.{
  ℕ, ◌+◌, ◌-◌, ◌*◌, ◌≤◌, ◌≡◌, ◌↔◌, ◌∙◌, refl, sym, ap, min, Bool, true, false, Option, none, some,
  List, [], ◌∷◌, ◌++◌, Text, codes, arith, All, All-append, Bool-cases, Option-cases, inl, inr,
  if_both, not, null, ltb, leb, ◌&&◌, ◌==◌, length,
}
use mail_tester.Config.{Config}
use mail_tester.Db.Documents.{Connection}
use mail_tester.Processor.Score.{Deduction}
use mail_tester.Processor.Score.Totals.{points_lost, points_lost-append, lost, report-score}
use mail_tester.Processor.Spf.{SpfCheck}
use mail_tester.Processor.Dkim.{DkimCheck}
use mail_tester.Processor.Dmarc.{DmarcCheck, Tags}
use mail_tester.Processor.Rdns.{RdnsCheck}
use mail_tester.Processor.Blacklists.Ips.{IpReport}
use mail_tester.Processor.Blacklists.Domains.{DomainReport}
use mail_tester.Processor.Content.Inspect.{Content}
use mail_tester.Worker.Spamd.{SpamCheck}
use mail_tester.Processor.Analyzer.Calls.{when}
use mail_tester.Processor.Analyzer.Authentication.{
  spf_penalty, spf_deductions, dkim_deductions, dmarc_deductions,
}
use mail_tester.Processor.Analyzer.Headers.{lacks, header_deductions, envelope_deductions}
use mail_tester.Processor.Analyzer.Delivery.{
  helo_of, tls_deductions, helo_deductions, rdns_deductions, helo_rdns_deductions, listed_on,
  blacklist_deductions,
}
use mail_tester.Processor.Analyzer.Body.{
  body_deductions, unsubscribe_deductions, subject_deductions, domain_deductions, spam_penalty,
  spam_deductions,
}
use mail_tester.Processor.Analyzer.Analysis.{
  Tools, Mail, Checks, public_ip, decoded, run_checks, address_deductions, rdns_part,
  blacklist_part, deductions, analyze,
}
use mail_tester.Processor.Analyzer.Costs.Groups.{
  IsCharged, IsWithin, append-IsWithin, spf_deductions-IsWithin, dkim_deductions-IsWithin,
  dmarc_deductions-IsWithin, header_deductions-IsWithin, envelope_deductions-IsWithin,
  tls_deductions-IsWithin, helo_deductions-IsWithin, domain_deductions-IsWithin,
  body_deductions-IsWithin, unsubscribe_deductions-IsWithin, subject_deductions-IsWithin,
  spam_deductions-IsWithin, rdns_part-IsWithin, blacklist_part-IsWithin,
}

points_lost-nil : (ds : List Deduction) → All IsCharged ds → points_lost ds ≡ 0 → ds ≡ []
points_lost-nil [] h e = refl
points_lost-nil (d ∷ ds) (h, hs) e = ground arith

lost-nil : (ds : List Deduction) → lost ds ≡ [] → ds ≡ []
lost-nil [] e = refl
lost-nil (d ∷ ds) e = ground arith

module _ (T : Tools) (c : Config) where
  address_deductions-IsWithin : (m : Mail) (k : Checks) → IsWithin 270 (address_deductions T c m k)
  unfolding address_deductions
  address_deductions-IsWithin m k =
      append-IsWithin 70 200 _ _ (rdns_part-IsWithin _ _ k.rdns)
        (blacklist_part-IsWithin k.blacklists)

  -- The bounds of the groups, in the order of the calls.
  abbrev most_lost : ℕ
  most_lost =
      200
      + (150
          + (100
              + (120
                  + (30 + (50 + (30 + (270 + (220 + (20 + (70 + (200 + c.spam_penalty_cap)))))))))))

  deductions-IsWithin : (m : Mail) (k : Checks) → IsWithin most_lost (deductions T c m k)
  unfolding deductions
  deductions-IsWithin m k =
      append-IsWithin 200 _ _ _ (spf_deductions-IsWithin m.domain (public_ip T c m) k.spf) (
        append-IsWithin 150 _ _ _ (dkim_deductions-IsWithin m.domain k.dkim) (
          append-IsWithin 100 _ _ _ (dmarc_deductions-IsWithin m.domain k.dmarc) (
            append-IsWithin 120 _ _ _ (header_deductions-IsWithin (decoded T c m)) (
              append-IsWithin 30 _ _ _ (envelope_deductions-IsWithin m.domain m.envelope_from) (
                append-IsWithin 50 _ _ _ (tls_deductions-IsWithin m.connection) (
                  append-IsWithin 30 _ _ _ (helo_deductions-IsWithin (helo_of m.connection)) (
                    append-IsWithin 270 _ _ _ (address_deductions-IsWithin m k) (
                      append-IsWithin 220 _ _ _ (body_deductions-IsWithin k.content) (
                        append-IsWithin 20 _ _ _
                          (unsubscribe_deductions-IsWithin k.content
                            (lacks (codes "List-Unsubscribe") (decoded T c m)))
                          (append-IsWithin 70 _ _ _ (subject_deductions-IsWithin k.content) (
                            append-IsWithin 200 _ _ _
                              (domain_deductions-IsWithin k.domain_blacklists)
                              (spam_deductions-IsWithin c.spam_penalty_cap
                                k.spamassassin))))))))))))

  -- The calls of `score.minus` in one analysis.
  abbrev pub charged : Mail → List Deduction
  charged m = deductions T c m (run_checks T c m)

  points_lost_le :
      (ds : List Deduction) → IsWithin most_lost ds → points_lost ds ≤ 1460 + c.spam_penalty_cap
  points_lost_le ds h = omega (arith, h.lost)

  -- The score of an analysis is ten points less the sum of all deductions, down to zero, and the
  -- report lists all of them in order. Their sum is at most 14.6 points and the cap on SpamAssassin's
  -- rules, whatever the mail and however many lists, links and rules there are.
  pub analyze_points :
      (m : Mail)
      → ((analyze T c m).base.score ≡ 1000 - points_lost (charged m))
        × ((analyze T c m).base.items ≡ lost (charged m))
        × (points_lost (charged m) ≤ 1460 + c.spam_penalty_cap)
  unfolding analyze
  analyze_points m = (
    (report-score (charged m)).0,
    (report-score (charged m)).1,
    points_lost_le (charged m) (deductions-IsWithin m (run_checks T c m)),
  )

  -- A mail gets the full ten points exactly if the report lists nothing.
  pub analyze_flawless :
      (m : Mail) → ((analyze T c m).base.score ≡ 1000) ↔ ((analyze T c m).base.items ≡ [])
  analyze_flawless m =
      let (score, items, most) = analyze_points m in
      (
        λ e.
            items
            ∙ ap lost (
                points_lost-nil (charged m) (deductions-IsWithin m (run_checks T c m)).charged
                  (omega arith)),
        λ e. score ∙ rw (lost-nil (charged m) (sym items ∙ e)) refl,
      )
