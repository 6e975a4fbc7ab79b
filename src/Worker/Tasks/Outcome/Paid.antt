-- ===== src/Worker/Tasks/Outcome/Paid.antt =====
-- `src/worker/tasks.py`: what follows the claim of an event ends as its outcome says.
use mathlib.Core.Path.{subst}
use mathlib.Core.List.{append-nil}
use mail_tester.Prelude.{ℕ, ◌≡◌, refl, ◌∙◌, sym, Option, none, List, Bool-cases, inl, inr, Text}
use mail_tester.Config.{Config}
use mail_tester.Db.Mongo.{Mongo, IsMongo}
use mail_tester.Db.Mongo.Queries.{modify_first, modify_first-modify_first}
use mail_tester.Db.Redis.{Redis}
use mail_tester.Db.Documents.{MailEvent, TestEmail, Status}
use mail_tester.Exec.{World, ok}
use mail_tester.Processor.Score.{Report}
use mail_tester.Worker.Limits.{consume_daily_quota}
use mail_tester.Worker.Limits.Kept.{consume_daily_quota-Kept}
use mail_tester.Worker.Tasks.{
  Services, Attempt, raises, done, attempt, set_db, release, finish, fail, conclude, run_analysis,
  process,
}
use mail_tester.Worker.Tasks.Ledger.{has_id, claim}
use mail_tester.Worker.Tasks.Outcome.{refused, outcome_of, outcome_claimed, is_address, IsAfter}

-- A state `w` in which the task that began in `w0` has claimed the event, and has changed no more
-- than `f` of the record of the address.
pub record IsClaimed {M : Mongo} {R : Redis} (now : ℕ) (event : MailEvent)
    (f : TestEmail → TestEmail) (w0 w : World M R) : Type 0 where
  pub events :
      M.docs w.db.mail_events
      ≡ modify_first (has_id event.id) (claim now) (M.docs w0.db.mail_events)
  pub addresses :
      M.docs w.db.test_emails
      ≡ modify_first (is_address event.to_address) f (M.docs w0.db.test_emails)
  pub reports : M.docs w.db.analyses ≡ M.docs w0.db.analyses
  pub raws : w.db.raw_mails ≡ w0.db.raw_mails
  pub next : w.next_id ≡ w0.next_id

-- Two changes of the claimed event, or of the record of its address.
claimed_then :
    (now n : ℕ) (f : MailEvent → MailEvent) (es es' : List MailEvent)
    → es' ≡ modify_first (has_id n) (claim now) es
    → modify_first (has_id n) f es' ≡ modify_first (has_id n) (λ e. f (claim now e)) es
claimed_then now n f es es' h =
    rw h (modify_first-modify_first (has_id n) f (claim now) (λ e. refl) es)

address_then :
    (to_address : Text) (f g : TestEmail → TestEmail) (ts ts' : List TestEmail)
    → ((t : TestEmail) → (g t).to_address ≡ t.to_address)
    → ts' ≡ modify_first (is_address to_address) g ts
    → modify_first (is_address to_address) f ts'
      ≡ modify_first (is_address to_address) (λ t. f (g t)) ts
address_then to_address f g ts ts' keeps h =
    rw h (modify_first-modify_first (is_address to_address) f g (λ t. rw (keeps t)) ts)

module _ (M : Mongo) (L : IsMongo M) (R : Redis) (now : ℕ) (event : MailEvent)
    (w0 : World M R) where
  release-IsAfter :
      (w : World M R)
      → IsClaimed now event (λ t. t) w0 w
      → IsAfter now event.id (refused event) w0 (ok tt, release event.id event.to_address w)
  unfolding release
  release-IsAfter w C = record {
    result = refl;
    raws = C.raws;
    events = L.docs-update_one _ _ _ ∙ claimed_then now event.id _ _ _ C.events;
    addresses =
        L.docs-update_one _ _ _ ∙ address_then event.to_address _ _ _ _ (λ t. refl) C.addresses;
    reports = C.reports ∙ sym (append-nil _);
  }

  conclude-IsAfter :
      (V : Services) (c : Config) (a : Attempt (Report × Text × Option Text)) (w : World M R)
      → IsClaimed now event (λ t. record t { status = Status.processing; last_error = none }) w0 w
      → IsAfter now event.id (outcome_of event a) w0 (conclude V c now event a w)
  unfolding conclude finish fail
  conclude-IsAfter V c (raises e) w C = record {
    result = refl;
    raws = C.raws;
    events = L.docs-update_one _ _ _ ∙ claimed_then now event.id _ _ _ C.events;
    addresses =
        L.docs-update_one _ _ _ ∙ address_then event.to_address _ _ _ _ (λ t. refl) C.addresses;
    reports = C.reports ∙ sym (append-nil _);
  }
  conclude-IsAfter V c (done (report, domain, sender_ip)) w C = record {
    result = refl;
    raws = C.raws;
    events = rw C.next (L.docs-update_one _ _ _ ∙ claimed_then now event.id _ _ _ C.events);
    addresses =
        rw C.next
          (L.docs-update_one _ _ _ ∙ address_then event.to_address _ _ _ _ (λ t. refl) C.addresses);
    reports = rw (L.docs-insert_one, C.reports, C.next) refl;
  }

  module _ (V : Services) (c : Config) where
    run_analysis-IsAfter :
        (w : World M R)
        → IsClaimed now event (λ t. t) w0 w
        → IsAfter now event.id
            (outcome_of event (attempt V c event w))
            w0
            (run_analysis V c now event w)
    unfolding run_analysis
    run_analysis-IsAfter w C = conclude-IsAfter V c (attempt V c event w) _ (record {
      events = C.events;
      addresses =
          L.docs-update_one _ _ _ ∙ address_then event.to_address _ _ _ _ (λ t. refl) C.addresses;
      reports = C.reports;
      next = C.next;
      raws = C.raws;
    })

    pub process-IsAfter :
        (w : World M R)
        → IsClaimed now event (λ t. t) w0 w
        → IsAfter now event.id (outcome_claimed V c now event w) w0 (process V c now event w)
    unfolding process
    process-IsAfter w C =
        let paid =
          consume_daily_quota M c event.owner_user_id event.created_ip event.api_key_id now w.db in
        let kept =
          consume_daily_quota-Kept M c event.owner_user_id event.created_ip event.api_key_id now
            w.db in
        let C' : IsClaimed now event (λ t. t) w0 (set_db paid.1 w) = record {
          events = rw kept.events C.events;
          addresses = rw kept.addresses C.addresses;
          reports = rw kept.analyses C.reports;
          next = C.next;
          raws = rw kept.raws C.raws;
        } in
        elim (Bool-cases paid.0) [
          | inl granted ↦ rw granted (
              subst
                (λ a.
                  IsAfter now event.id (outcome_of event a) w0
                    (run_analysis V c now event (set_db paid.1 w)))
                (rw (kept.raws, attempt) refl) (run_analysis-IsAfter (set_db paid.1 w) C'))
          | inr over ↦ rw over (release-IsAfter (set_db paid.1 w) C')
        ]
