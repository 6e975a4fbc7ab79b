-- ===== src/Worker/Tasks/Outcome/Again.antt =====
-- `src/worker/tasks.py`: an event that the quota stopped, and the next task on it.
use mathlib.Core.Path.{subst}
use mail_tester.Prelude.{ℕ, ◌≡◌, ◌≤◌, refl, ◌∙◌, sym, true, false, none, some}
use mail_tester.Config.{Config}
use mail_tester.Db.Mongo.{Mongo, IsMongo}
use mail_tester.Db.Mongo.Queries.{
  count, first, modify_first, first-modify_first, count-modify_first,
}
use mail_tester.Db.Redis.{Redis}
use mail_tester.Db.Documents.{MailEvent}
use mail_tester.Exec.{World}
use mail_tester.Worker.Limits.{consume_daily_quota}
use mail_tester.Worker.Tasks.{Services, attempt, analyze_received_mail}
use mail_tester.Worker.Tasks.Ledger.{has_id}
use mail_tester.Worker.Tasks.Outcome.{
  refused, outcome_of, outcome, unless_taken, outcome_claimed, event_after, IsAfter,
}
use mail_tester.Worker.Tasks.Outcome.After.{analyze_received_mail-IsAfter, outcome_claimed_by}

-- What the first task leaves of the event.
abbrev pub stopped : MailEvent → MailEvent
stopped event = event_after 0 0 (refused event) event

module _ (M : Mongo) (L : IsMongo M) (R : Redis) (V : Services) (c : Config) where
  -- The outcome of an event that is found and free, without quota.
  outcome_refused :
      (now n : ℕ) (event : MailEvent) (w : World M R)
      → first (has_id n) (M.docs w.db.mail_events) ≡ some event
      → event.analysis_started_at ≡ none
      → (consume_daily_quota M c event.owner_user_id event.created_ip event.api_key_id now w.db).0
        ≡ false
      → outcome V c now n w ≡ refused event
  outcome_refused now n event w there free over =
      rw (outcome, there)
        (subst (λ s. unless_taken s (outcome_claimed V c now event w) ≡ refused event) (sym free)
          (rw over refl))

  stopped_there :
      (now n : ℕ) (event : MailEvent) (w w' : World M R)
      → first (has_id n) (M.docs w.db.mail_events) ≡ some event
      → M.docs w'.db.mail_events
        ≡ modify_first
            (has_id n)
            (event_after now w.next_id (refused event))
            (M.docs w.db.mail_events)
      → first (has_id n) (M.docs w'.db.mail_events) ≡ some (stopped event)
  stopped_there now n event w w' there events =
      rw
        (
          events,
          first-modify_first (has_id n) (event_after now w.next_id (refused event))
              (M.docs w.db.mail_events) (λ e. refl),
          there,
        )
        refl

  -- A task that finds no quota left does not lose the event: once the quota allows it, the next
  -- task on it, at any time, analyses the same raw mail and ends with what comes of that. Event ids
  -- are unique, and the event was free.
  pub analyze_received_mail_again :
      (now later mail_event_id : ℕ) (event : MailEvent) (w : World M R)
      → count (has_id mail_event_id) (M.docs w.db.mail_events) ≤ 1
      → first (has_id mail_event_id) (M.docs w.db.mail_events) ≡ some event
      → event.analysis_started_at ≡ none
      → (consume_daily_quota M c event.owner_user_id event.created_ip event.api_key_id now w.db).0
        ≡ false
      → (consume_daily_quota M c event.owner_user_id event.created_ip event.api_key_id later
          (analyze_received_mail V c now mail_event_id w).1.db).0
        ≡ true
      → IsAfter later mail_event_id
          (outcome_of (stopped event) (attempt V c event w))
          (analyze_received_mail V c now mail_event_id w).1
          (analyze_received_mail V c later mail_event_id
            (analyze_received_mail V c now mail_event_id w).1)
  analyze_received_mail_again now later n event w unique there free over allowed =
      let w' = (analyze_received_mail V c now n w).1 in
      let A : IsAfter now n (refused event) w (analyze_received_mail V c now n w) =
        subst (λ o. IsAfter now n o w (analyze_received_mail V c now n w))
          (outcome_refused now n event w there free over)
          (analyze_received_mail-IsAfter M L R V c now n w unique) in
      let there' = stopped_there now n event w w' there A.events in
      let unique' : count (has_id n) (M.docs w'.db.mail_events) ≤ 1 =
        rw
          (
            A.events,
            count-modify_first (has_id n) (event_after now w.next_id (refused event)) (has_id n)
                (λ e. refl) (M.docs w.db.mail_events),
          )
          unique in
      subst (λ o. IsAfter later n o w' (analyze_received_mail V c later n w'))
        (outcome_claimed_by M L R V c later n (stopped event) w' there' refl allowed
          ∙ (rw (attempt, A.raws) refl))
        (analyze_received_mail-IsAfter M L R V c later n w' unique')
