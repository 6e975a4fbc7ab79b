-- ===== src/Worker/Tasks/Once.antt =====
-- `src/worker/tasks.py`: one task, and what it does to the events and the reports.
use mathlib.Core.Path.{subst}
use mail_tester.Prelude.{
  ℕ, ◌≡◌, refl, ◌∙◌, sym, true, Option, some, any, ==_iff, Bool-cases, Option-cases, inl, inr, Text,
}
use mail_tester.Config.{Config}
use mail_tester.Db.Mongo.{Mongo, IsMongo}
use mail_tester.Db.Mongo.Queries.{count, first_holds}
use mail_tester.Db.Redis.{Redis}
use mail_tester.Db.Documents.{MailEvent}
use mail_tester.Exec.{World}
use mail_tester.Processor.Score.{Report}
use mail_tester.Worker.Limits.{claim_mail_event, consume_daily_quota}
use mail_tester.Worker.Limits.Kept.{consume_daily_quota-Kept}
use mail_tester.Worker.Tasks.{
  Services, set_db, release, finish, fail, Attempt, raises, done, conclude, run_analysis, process,
  analyze_received_mail,
}
use mail_tester.Worker.Tasks.Ledger.{
  IsSound, is_free, is_started, has_id, reports_on, touch-IsSound, claim-IsSound, release-IsSound,
  report-IsSound, started-claim, unreported_of_free,
}

-- The events and the reports of the state are sound.
abbrev pub IsSoundWorld : {M : Mongo} {R : Redis} → World M R → Type 0
IsSoundWorld {M} w = IsSound (M.docs w.db.mail_events) (M.docs w.db.analyses) w.next_id

module _ (M : Mongo) (L : IsMongo M) (R : Redis) where
  release-IsSoundWorld :
      (event_id : ℕ) (to_address : Text) (w : World M R)
      → count (reports_on event_id) (M.docs w.db.analyses) ≡ 0
      → IsSoundWorld w
      → IsSoundWorld (release event_id to_address w)
  unfolding release
  release-IsSoundWorld event_id to_address w none_yet S =
      rw L.docs-update_one (release-IsSound S event_id _ (λ e. refl) none_yet)

  fail-IsSoundWorld :
      (event : MailEvent) (e : Text) (w : World M R)
      → IsSoundWorld w
      → IsSoundWorld (fail event e w)
  unfolding fail
  fail-IsSoundWorld event e w S =
      rw L.docs-update_one (touch-IsSound S (has_id event.id) _ (λ e. refl) (λ e. refl))

  finish-IsSoundWorld :
      (now : ℕ) (event : MailEvent) (report : Report) (domain : Text) (sender_ip : Option Text)
      (w : World M R)
      → count (reports_on event.id) (M.docs w.db.analyses) ≡ 0
      → any (is_started event.id) (M.docs w.db.mail_events) ≡ true
      → IsSoundWorld w
      → IsSoundWorld (finish now event report domain sender_ip w)
  unfolding finish
  finish-IsSoundWorld now event report domain sender_ip w none_yet started S =
      rw (L.docs-update_one, L.docs-insert_one)
        (touch-IsSound (report-IsSound S event.id _ refl none_yet started) (has_id event.id) _
          (λ e. refl) (λ e. refl))

  module _ (V : Services) (c : Config) where
    conclude-IsSoundWorld :
        (now : ℕ) (event : MailEvent) (a : Attempt (Report × Text × Option Text)) (w : World M R)
        → count (reports_on event.id) (M.docs w.db.analyses) ≡ 0
        → any (is_started event.id) (M.docs w.db.mail_events) ≡ true
        → IsSoundWorld w
        → IsSoundWorld (conclude V c now event a w).1
    unfolding conclude
    conclude-IsSoundWorld now event (raises e) w none_yet started S = fail-IsSoundWorld event e w S
    conclude-IsSoundWorld now event (done (report, domain, sender_ip)) w none_yet started S =
        finish-IsSoundWorld now event report domain sender_ip w none_yet started S

    run_analysis-IsSoundWorld :
        (now : ℕ) (event : MailEvent) (w : World M R)
        → count (reports_on event.id) (M.docs w.db.analyses) ≡ 0
        → any (is_started event.id) (M.docs w.db.mail_events) ≡ true
        → IsSoundWorld w
        → IsSoundWorld (run_analysis V c now event w).1
    unfolding run_analysis
    run_analysis-IsSoundWorld now event w none_yet started S =
        conclude-IsSoundWorld now event _ _ none_yet started S

    -- What follows the claim of an event.
    process-IsSoundWorld :
        (now : ℕ) (event : MailEvent) (w : World M R)
        → count (reports_on event.id) (M.docs w.db.analyses) ≡ 0
        → any (is_started event.id) (M.docs w.db.mail_events) ≡ true
        → IsSoundWorld w
        → IsSoundWorld (process V c now event w).1
    unfolding process
    process-IsSoundWorld now event w none_yet started S =
        let paid =
          consume_daily_quota M c event.owner_user_id event.created_ip event.api_key_id now w.db in
        let keeps =
          consume_daily_quota-Kept M c event.owner_user_id event.created_ip event.api_key_id now
            w.db in
        let none_yet' : count (reports_on event.id) (M.docs paid.1.analyses) ≡ 0 =
          rw (keeps.analyses) none_yet in
        let started' : any (is_started event.id) (M.docs paid.1.mail_events) ≡ true =
          rw (keeps.events) started in
        let S' : IsSoundWorld (set_db paid.1 w) = rw (keeps.events, keeps.analyses) S in
        elim (Bool-cases paid.0) [
          | inl granted ↦
              rw (granted, process)
                (run_analysis-IsSoundWorld now event (set_db paid.1 w) none_yet' started' S')
          | inr refused ↦
              rw (refused, process)
                (release-IsSoundWorld event.id event.to_address (set_db paid.1 w) none_yet' S')
        ]

    -- Whatever the event, the quota, the network and the report, the task keeps the events and the
    -- reports sound: ids are unique, an event has at most one report, and one with a report is
    -- claimed.
    pub analyze_received_mail-IsSoundWorld :
        (now mail_event_id : ℕ) (w : World M R)
        → IsSoundWorld w
        → IsSoundWorld (analyze_received_mail V c now mail_event_id w).1
    unfolding analyze_received_mail claim_mail_event
    analyze_received_mail-IsSoundWorld now n w S =
        elim (Option-cases (M.find_one (has_id n) w.db.mail_events)) [
          | inl gone ↦ rw (gone, analyze_received_mail) S
          | inr (event, there) ↦ elim (Bool-cases (any (is_free n) (M.docs w.db.mail_events))) [
            | inl free ↦
                rw (there, analyze_received_mail, L.matched-update_one, free)
                  (claimed_then event there free)
            | inr taken ↦
                rw (there, analyze_received_mail, L.matched-update_one, taken)
                  (rw L.docs-update_one (claim-IsSound S n now))
          ]
        ]
      where
        claimed_w : World M R
        claimed_w = set_db (claim_mail_event M n now w.db).1 w

        found_id :
            (event : MailEvent) → M.find_one (has_id n) w.db.mail_events ≡ some event → event.id ≡ n
        found_id event there = (==_iff event.id n).0 (
            first_holds (has_id n) (M.docs w.db.mail_events)
              (sym (L.find_one-docs (has_id n) w.db.mail_events) ∙ there))

        claimed_then :
            (event : MailEvent)
            → M.find_one (has_id n) w.db.mail_events ≡ some event
            → any (is_free n) (M.docs w.db.mail_events) ≡ true
            → IsSoundWorld (process V c now event claimed_w).1
        claimed_then event there free =
            let same : n ≡ event.id = sym (found_id event there) in
            process-IsSoundWorld now event claimed_w
              (subst (λ k. count (reports_on k) (M.docs w.db.analyses) ≡ 0) same
                (unreported_of_free S n free))
              (subst (λ k. any (is_started k) (M.docs claimed_w.db.mail_events) ≡ true) same
                (rw L.docs-update_one (started-claim n now (M.docs w.db.mail_events) free)))
              (rw L.docs-update_one (claim-IsSound S n now))
