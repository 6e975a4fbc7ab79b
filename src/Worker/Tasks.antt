-- ===== src/Worker/Tasks.antt =====
-- `src/worker/tasks.py`
pub mod Ledger
pub mod Once
pub mod Outcome
use mail_tester.Prelude.{
  ℕ, suc, Bool, true, false, Option, none, some, List, [], ◌∷◌, Text, codes, strip, lower, is_space,
  after_last, has_char, null, ◌==◌, ◌=ᵗ◌, or_default, is_some, if◌then◌else◌,
}
use mail_tester.Config.{Config}
use mail_tester.Db.Mongo.{Mongo}
use mail_tester.Db.Redis.{Redis}
use mail_tester.Db.Cache.{text_or_empty}
use mail_tester.Db.Documents.{
  TestEmail, MailEvent, Connection, Analysis, RawMail, OwnerType, Status, Database,
}
use mail_tester.Exec.{
  World, Exec, Result, Error, ok, raised, exception, pure, raise, gets, modify, ◌>>=◌, ◌>>◌,
}
use mail_tester.Ingest.Message.{Message, headers, get_header}
use mail_tester.Processor.Score.{Report}
use mail_tester.Worker.Limits.{claim_mail_event, consume_daily_quota}

abbrev pub limit_error : Text
limit_error = codes "daily_analyze_limit_exceeded"

-- What a call in the `try` block gives: a value, or an exception, by its `repr`.
pub data Attempt (A : Type 0) : Type 0 where
  done : A → Attempt A
  raises : Text → Attempt A

-- The libraries that the task calls, and `Analyzer.analyze` with what the network answers to it.
-- `parse` is `email.message_from_bytes`, `parse_address` gives the address of `parseaddr`, and
-- `sender_ip_of` is `get_sender_ip`. Both it and an analysis may raise an exception, which stands by
-- its `repr`. `insert_error` is what `insert_one` raises on the document of a report on this raw mail,
-- such as that it is larger than Mongo takes.
pub record Services : Type 0 where
  pub parse : Text → Message
  pub parse_address : Text → Text
  pub sender_ip_of : Message → Attempt (Option Text)
  pub analyze : Message → Text → Option Text → Text → Option Connection → Text → Attempt Report
  pub insert_error : Text → Report → Option Text

module _ (V : Services) where
  unfoldable pub get_sender_domain : Message → Text
  get_sender_domain msg =
      let address = V.parse_address (text_or_empty (get_header (codes "From") (headers msg))) in
      if has_char b'@' address then lower (strip is_space (after_last b'@' address)) else []

abbrev client_ip_of : Option Connection → Option Text
client_ip_of none = none
client_ip_of (some c) = c.client_ip

-- `connection.get("client_ip") or get_sender_ip(msg)`
abbrev ip_or : Option Text → Attempt (Option Text) → Attempt (Option Text)
ip_or none d = d
ip_or (some t) d = if null t then d else done (some t)

-- The value, unless there is something raised.
abbrev pub unless : {A : Type 0} → Option Text → A → Attempt A
unless none a = done a
unless (some e) a = raises e

abbrev pub owner_type : Option ℕ → OwnerType
owner_type none = OwnerType.anonymous
owner_type (some u) = OwnerType.user

module _ (V : Services) where
  -- The report on a raw mail, with the sender's domain and address, or what is raised up to its
  -- insertion.
  abbrev report_on : MailEvent → Text → Attempt (Report × Text × Option Text)
  report_on event raw =
      let msg = V.parse raw in
      let domain = get_sender_domain V msg in
      elim (ip_or (client_ip_of event.connection) (V.sender_ip_of msg)) [
        | raises e ↦ raises e
        | done sender_ip ↦
            elim (V.analyze msg domain sender_ip raw event.connection event.mail_from) [
              | raises e ↦ raises e
              | done report ↦ unless (V.insert_error raw report) (report, domain, sender_ip)
            ]
      ]

module _ {M : Mongo} {R : Redis} where
  -- Updates of the event and of the address record.
  abbrev pub set_event : ℕ → (MailEvent → MailEvent) → World M R → World M R
  set_event event_id f w = record w {
    db = record w.db {
      mail_events = (M.update_one (λ (e : MailEvent). e.id == event_id) f w.db.mail_events).0;
    };
  }

  abbrev pub set_address : Text → (TestEmail → TestEmail) → World M R → World M R
  set_address to_address f w = record w {
    db = record w.db {
      test_emails =
          (M.update_one (λ (t : TestEmail). t.to_address =ᵗ to_address) f w.db.test_emails).0;
    };
  }

  abbrev pub set_db : Database M → World M R → World M R
  set_db db w = record w { db = db }

  -- The quota is used up: the claim is released.
  unfoldable pub release : ℕ → Text → World M R → World M R
  release event_id to_address w =
      set_address to_address
        (λ t. record t { status = Status.limit; last_error = some limit_error })
        (set_event event_id
          (λ e. record e { last_error = some limit_error; analysis_started_at = none }) w)

  abbrev start : Text → World M R → World M R
  start to_address =
      set_address to_address (λ t. record t { status = Status.processing; last_error = none })

  -- From the insertion of the report on.
  unfoldable pub finish : ℕ → MailEvent → Report → Text → Option Text → World M R → World M R
  finish now event report domain sender_ip w =
      let id = w.next_id in
      let inserted = record w {
        next_id = suc id;
        db = record w.db {
          analyses =
              M.insert_one
                (record {
                  id = id;
                  report = report;
                  to_address = event.to_address;
                  received_at = event.received_at;
                  sender_domain = domain;
                  sender_ip = sender_ip;
                  envelope_from = event.mail_from;
                  owner_type = owner_type event.owner_user_id;
                  owner_user_id = event.owner_user_id;
                  owner_ip = event.created_ip;
                  mail_event_id = event.id;
                })
                w.db.analyses;
        };
      } in
      set_address event.to_address
        (λ t. record t {
          status = Status.analyzed;
          analysis_id = some id;
          analyzed_at = some now;
          last_error = none;
        })
        (set_event event.id (λ e. record e { analysis_id = some id; analyzed_at = some now })
          inserted)

  -- The handler of `except Exception`.
  unfoldable pub fail : MailEvent → Text → World M R → World M R
  fail event e w =
      set_address event.to_address (λ t. record t { status = Status.error; last_error = some e })
        (set_event event.id (λ ev. record ev { last_error = some e }) w)

  module _ (V : Services) (c : Config) where
    -- `fs.get(…).read()` raises where the file is not there.
    abbrev read_raw : MailEvent → World M R → Attempt Text
    read_raw event w = elim (M.find_one (λ (r : RawMail). r.id == event.raw_id) w.db.raw_mails) [
      | none ↦ raises (codes "NoFile")
      | some r ↦ done r.raw
    ]

    -- `raise` in the handler passes the exception on.
    abbrev fails_with : MailEvent → Text → Exec (World M R) (Unit {0})
    fails_with event e w = (raised (exception e), fail event e w)

    -- The raw mail is read and analysed.
    abbrev pub attempt : MailEvent → World M R → Attempt (Report × Text × Option Text)
    attempt event w = elim (read_raw event w) [
      | raises e ↦ raises e
      | done raw ↦ report_on V event raw
    ]

    unfoldable pub conclude :
        ℕ → MailEvent → Attempt (Report × Text × Option Text) → Exec (World M R) (Unit {0})
    unfolding finish fail
    conclude now event (raises e) w = fails_with event e w
    conclude now event (done (report, domain, sender_ip)) w =
        (ok tt, finish now event report domain sender_ip w)

    -- The end of the `try` block: the analysis of a claimed and paid event.
    unfoldable pub run_analysis : ℕ → MailEvent → Exec (World M R) (Unit {0})
    unfolding get_sender_domain conclude
    run_analysis now event w =
        let w' = start event.to_address w in conclude now event (attempt event w') w'

    -- What follows a claim.
    unfoldable pub process : ℕ → MailEvent → Exec (World M R) (Unit {0})
    unfolding release run_analysis
    process now event w =
        let (allowed, db) =
          consume_daily_quota M c event.owner_user_id event.created_ip event.api_key_id now w.db in
        let w' = set_db db w in
        if allowed then run_analysis now event w' else (ok tt, release event.id event.to_address w')

    unfoldable pub analyze_received_mail : ℕ → ℕ → Exec (World M R) (Unit {0})
    unfolding process
    analyze_received_mail now mail_event_id w =
        elim (M.find_one (λ (e : MailEvent). e.id == mail_event_id) w.db.mail_events) [
          | none ↦ (ok tt, w)
          | some event ↦
              let (claimed, db) = claim_mail_event M mail_event_id now w.db in
              if claimed then process now event (set_db db w) else (ok tt, set_db db w)
        ]
