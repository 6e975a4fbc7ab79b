-- ===== src/Worker/Tasks/Outcome.antt =====
-- `src/worker/tasks.py`: what a task comes to, apart from how it gets there, and the documents it
-- leaves behind.
pub mod Paid
pub mod After
pub mod Claims
pub mod Again
use mail_tester.Prelude.{
  ℕ, suc, ◌≡◌, ◌≤◌, refl, ◌∙◌, sym, arith, Bool, true, false, Option, none, some, List, [], ◌∷◌,
  ◌++◌, any, ==_iff, Bool-cases, Option-cases, inl, inr, Text, not, is_some, ◌&&◌, ◌==◌, ◌=ᵗ◌,
  if◌then◌else◌, null,
}
use mail_tester.Config.{Config}
use mail_tester.Db.Mongo.{Mongo, IsMongo}
use mail_tester.Db.Mongo.Queries.{count, first, modify_first, first_holds, any-first}
use mail_tester.Db.Redis.{Redis}
use mail_tester.Db.Documents.{MailEvent, TestEmail, Analysis, Status, Database}
use mail_tester.Exec.{World, Result, Error, ok, raised, exception}
use mail_tester.Processor.Score.{Report}
use mail_tester.Worker.Limits.{claim_mail_event, consume_daily_quota}
use mail_tester.Worker.Limits.Kept.{consume_daily_quota-Kept}
use mail_tester.Worker.Tasks.{
  Services, Attempt, raises, done, attempt, owner_type, limit_error, set_db, release, finish, fail,
  conclude, run_analysis, process, analyze_received_mail,
}
use mail_tester.Worker.Tasks.Ledger.{has_id, is_free}

-- The event is not there; a task has it; the quota is used up; the analysis raised an exception;
-- or there is a report, with the sender's domain and address.
pub data Outcome : Type 0 where
  absent taken : Outcome
  refused : MailEvent → Outcome
  failed : MailEvent → Text → Outcome
  reported : MailEvent → Report → Text → Option Text → Outcome

-- What the job gives back, and what becomes of the event, of the record of its address and of the
-- reports. The time of the task is `now`, and the next free id is `id`.
abbrev pub result_of : Outcome → Result (Unit {0})
result_of (failed event e) = raised (exception e)
result_of absent = ok tt
result_of taken = ok tt
result_of (refused event) = ok tt
result_of (reported event report domain sender_ip) = ok tt

abbrev pub event_after : ℕ → ℕ → Outcome → MailEvent → MailEvent
event_after now id absent e = e
event_after now id taken e = e
event_after now id (refused event) e = record e {
  last_error = some limit_error;
  analysis_started_at = none;
}
event_after now id (failed event x) e = record e {
  last_error = some x;
  analysis_started_at = some now;
}
event_after now id (reported event report domain sender_ip) e = record e {
  analysis_started_at = some now;
  analysis_id = some id;
  analyzed_at = some now;
}

abbrev address_change : ℕ → ℕ → Outcome → TestEmail → TestEmail
address_change now id (refused event) t = record t {
  status = Status.limit;
  last_error = some limit_error;
}
address_change now id (failed event x) t = record t { status = Status.error; last_error = some x }
address_change now id (reported event report domain sender_ip) t = record t {
  status = Status.analyzed;
  analysis_id = some id;
  analyzed_at = some now;
  last_error = none;
}
address_change now id absent t = t
address_change now id taken t = t

abbrev pub is_address : Text → TestEmail → Bool
is_address to_address t = t.to_address =ᵗ to_address

abbrev pub addresses_after : ℕ → ℕ → Outcome → List TestEmail → List TestEmail
addresses_after now id (refused e) ts =
    modify_first (is_address e.to_address) (address_change now id (refused e)) ts
addresses_after now id (failed e x) ts =
    modify_first (is_address e.to_address) (address_change now id (failed e x)) ts
addresses_after now id (reported e report domain sender_ip) ts =
    modify_first (is_address e.to_address)
      (address_change now id (reported e report domain sender_ip)) ts
addresses_after now id absent ts = ts
addresses_after now id taken ts = ts

abbrev pub reports_after : ℕ → Outcome → List Analysis
reports_after id absent = []
reports_after id taken = []
reports_after id (refused event) = []
reports_after id (failed event e) = []
reports_after id (reported event report domain sender_ip) =
    record {
      id = id;
      report = report;
      to_address = event.to_address;
      received_at = event.received_at;
      sender_domain = domain;
      sender_ip = sender_ip;
      envelope_from = event.mail_from;
      owner_type = owner_type event.owner_user_id;
      owner_user_id = event.owner_user_id;
      owner_ip = event.created_ip;
      mail_event_id = event.id;
    }
    ∷ []

abbrev pub outcome_of : MailEvent → Attempt (Report × Text × Option Text) → Outcome
outcome_of event (raises e) = failed event e
outcome_of event (done (report, domain, sender_ip)) = reported event report domain sender_ip

abbrev pub unless_taken : Option ℕ → Outcome → Outcome
unless_taken none o = o
unless_taken (some t) o = taken

module _ {M : Mongo} {R : Redis} (V : Services) (c : Config) where
  -- What a claimed event comes to.
  abbrev pub outcome_claimed : ℕ → MailEvent → World M R → Outcome
  outcome_claimed now event w =
      if (consume_daily_quota M c event.owner_user_id event.created_ip event.api_key_id now w.db).0
      then outcome_of event (attempt V c event w)
      else refused event

  -- The outcome of a task, by the state that it starts in.
  abbrev pub outcome : ℕ → ℕ → World M R → Outcome
  outcome now n w = elim (first (has_id n) (M.docs w.db.mail_events)) [
    | none ↦ absent
    | some event ↦ unless_taken event.analysis_started_at (outcome_claimed now event w)
  ]

-- The documents that a task leaves behind, by those that it found. The raw mails stay.
pub record IsAfter {M : Mongo} {R : Redis} (now n : ℕ) (o : Outcome) (w : World M R)
    (r : Result (Unit {0}) × World M R) : Type 0 where
  pub result : r.0 ≡ result_of o
  pub events :
      M.docs (r.1).db.mail_events
      ≡ modify_first (has_id n) (event_after now w.next_id o) (M.docs w.db.mail_events)
  pub raws : (r.1).db.raw_mails ≡ w.db.raw_mails
  pub addresses :
      M.docs (r.1).db.test_emails ≡ addresses_after now w.next_id o (M.docs w.db.test_emails)
  pub reports : M.docs (r.1).db.analyses ≡ M.docs w.db.analyses ++ reports_after w.next_id o
