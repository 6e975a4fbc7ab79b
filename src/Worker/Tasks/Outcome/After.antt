-- ===== src/Worker/Tasks/Outcome/After.antt =====
-- `src/worker/tasks.py`: the task ends as its outcome says.
use mathlib.Core.Path.{subst}
use mathlib.Core.List.{append-nil}
use mail_tester.Prelude.{
  true, ℕ, ◌≡◌, ◌≤◌, refl, ◌∙◌, sym, none, some, [], ==_iff, Option-cases, inl, inr, if◌then◌else◌,
}
use mail_tester.Config.{Config}
use mail_tester.Db.Mongo.{Mongo, IsMongo}
use mail_tester.Db.Mongo.Queries.{count, first, first_holds, modify_first_same, modify_first_none}
use mail_tester.Db.Redis.{Redis}
use mail_tester.Db.Documents.{MailEvent}
use mail_tester.Exec.{World, ok}
use mail_tester.Worker.Limits.{claim_mail_event, consume_daily_quota}
use mail_tester.Worker.Tasks.{Services, attempt, set_db, process, analyze_received_mail}
use mail_tester.Worker.Tasks.Ledger.{has_id}
use mail_tester.Worker.Tasks.Outcome.Claims.{taken_not_free, found_free, claim_found, consume-claim}
use mail_tester.Worker.Tasks.Outcome.{
  Outcome, absent, taken, refused, outcome_of, outcome_claimed, unless_taken, outcome, event_after,
  addresses_after, reports_after, result_of, IsAfter,
}
use mail_tester.Worker.Tasks.Outcome.Paid.{process-IsAfter}

-- An outcome that stands for no change, and a task that makes none.
unchanged-IsAfter :
    (M : Mongo) (R : Redis) (now n : ℕ) (o : Outcome) (w w' : World M R)
    → result_of o ≡ ok tt
    → event_after now w.next_id o ≡ (λ e. e)
    → addresses_after now w.next_id o ≡ (λ ts. ts)
    → reports_after w.next_id o ≡ []
    → M.docs w'.db.mail_events ≡ M.docs w.db.mail_events
    → w'.db.test_emails ≡ w.db.test_emails
    → w'.db.analyses ≡ w.db.analyses
    → w'.db.raw_mails ≡ w.db.raw_mails
    → IsAfter now n o w (ok tt, w')
unchanged-IsAfter M R now n o w w' well keeps_event keeps_addresses no_report events addresses
      reports raws =
    record {
      result = sym well;
      raws = raws;
      events = rw keeps_event (events ∙ sym (modify_first_same (has_id n) _));
      addresses = rw (keeps_addresses, addresses) refl;
      reports = rw (no_report, reports) (sym (append-nil _));
    }

module _ (M : Mongo) (L : IsMongo M) (R : Redis) (V : Services) (c : Config) where
  -- The outcome of an event that is found, free and paid for.
  pub outcome_claimed_by :
      (now n : ℕ) (event : MailEvent) (w : World M R)
      → first (has_id n) (M.docs w.db.mail_events) ≡ some event
      → event.analysis_started_at ≡ none
      → (consume_daily_quota M c event.owner_user_id event.created_ip event.api_key_id now w.db).0
        ≡ true
      → outcome V c now n w ≡ outcome_of event (attempt V c event w)
  outcome_claimed_by now n event w there free allowed =
      rw (outcome, there)
        (subst
          (λ s.
            unless_taken s (outcome_claimed V c now event w)
            ≡ outcome_of event (attempt V c event w))
          (sym free) (rw allowed refl))

  claimed-IsAfter :
      (now n : ℕ) (event : MailEvent) (w : World M R)
      → first (has_id n) (M.docs w.db.mail_events) ≡ some event
      → event.analysis_started_at ≡ none
      → IsAfter now n
          (outcome_claimed V c now event w)
          w
          (process V c now event (set_db (claim_mail_event M n now w.db).1 w))
  unfolding claim_mail_event
  claimed-IsAfter now n event w there free =
      let same : event.id ≡ n = (==_iff event.id n).0 (first_holds (has_id n) _ there) in
      subst
        (λ k.
          first (has_id k) (M.docs w.db.mail_events) ≡ some event
          → IsAfter now k (outcome_claimed V c now event w) w
              (process V c now event (set_db (claim_mail_event M k now w.db).1 w)))
        same here there
    where
      here :
          first (has_id event.id) (M.docs w.db.mail_events) ≡ some event
          → IsAfter now event.id
              (outcome_claimed V c now event w)
              w
              (process V c now event (set_db (claim_mail_event M event.id now w.db).1 w))
      here found =
          let w' = set_db (claim_mail_event M event.id now w.db).1 w in
          subst
            (λ b.
              IsAfter now event.id
                (if b then outcome_of event (attempt V c event w) else refused event) w
                (process V c now event w'))
            (consume-claim M L c event.owner_user_id event.created_ip event.api_key_id now event.id
              w.db)
            (process-IsAfter M L R now event w V c w' (record {
              events = L.docs-update_one _ _ _ ∙ claim_found event.id now _ event found free;
              addresses = sym (modify_first_same _ _);
              reports = refl;
              next = refl;
              raws = refl;
            }))

  -- A task ends as its outcome says, on every path: the outcome is read off the state before it, by
  -- whether the event is there, claimed or not, within its owner's quota, and by what comes of
  -- reading and analysing the raw mail. What the job gives back, the event, the record of the
  -- address and the reports are then what the outcome says, and no other event, address record or
  -- report is changed. Event ids are unique.
  pub analyze_received_mail-IsAfter :
      (now mail_event_id : ℕ) (w : World M R)
      → count (has_id mail_event_id) (M.docs w.db.mail_events) ≤ 1
      → IsAfter now mail_event_id
          (outcome V c now mail_event_id w)
          w
          (analyze_received_mail V c now mail_event_id w)
  unfolding analyze_received_mail claim_mail_event
  analyze_received_mail-IsAfter now n w unique =
      let events = M.docs w.db.mail_events in
      elim (Option-cases (first (has_id n) events)) [
        | inl gone ↦
            rw (outcome, analyze_received_mail, L.find_one-docs, gone)
              (unchanged-IsAfter M R now n absent w w refl refl refl refl refl refl refl refl)
        | inr (event, there) ↦ elim (Option-cases event.analysis_started_at) [
          | inl free ↦
              rw
                (
                  outcome,
                  analyze_received_mail,
                  L.find_one-docs,
                  there,
                  L.matched-update_one,
                  found_free n events event there free,
                )
                (subst
                  (λ s.
                    IsAfter now n (unless_taken s (outcome_claimed V c now event w)) w
                      (process V c now event (set_db (claim_mail_event M n now w.db).1 w)))
                  (sym free) (claimed-IsAfter now n event w there free))
          | inr (t, taken_at) ↦
              rw
                (
                  outcome,
                  analyze_received_mail,
                  L.find_one-docs,
                  there,
                  taken_at,
                  L.matched-update_one,
                  taken_not_free n events event t unique there taken_at,
                )
                (unchanged-IsAfter M R now n taken w _ refl refl refl refl
                  (L.docs-update_one _ _ _
                    ∙ modify_first_none _ _ events
                        (taken_not_free n events event t unique there taken_at))
                  refl refl refl)
        ]
      ]
