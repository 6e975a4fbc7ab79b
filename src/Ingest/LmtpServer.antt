-- ===== src/Ingest/LmtpServer.antt =====
-- `src/ingest/lmtp_server.py`
pub mod Delivery
use mail_tester.Prelude.{
  ℕ, suc, ◌+◌, Bool, true, false, Option, none, some, List, [], ◌∷◌, ◌++◌, Text, codes, null, strip,
  lower, is_space, ends_with, length, ltb, ◌=ᵗ◌, or_default, not, if◌then◌else◌,
}
use mail_tester.Config.{Config}
use mail_tester.Db.Mongo.{Mongo}
use mail_tester.Db.Redis.{Redis}
use mail_tester.Db.Cache.{text_or_empty}
use mail_tester.Db.Documents.{TestEmail, MailEvent, RawMail, Database, received}
use mail_tester.Exec as Exec
use mail_tester.Exec.{World, Exec, Result, ok, raised, exception}
use mail_tester.Ingest.Message.{Message, headers, get_header}
use mail_tester.Ingest.Connection.{get_connection_info}

-- The three fields of the address record that are read.
pub record Owner : Type 0 where
  pub created_ip : Option Text
  pub owner_user_id : Option ℕ
  pub api_key_id : Option ℕ

abbrev pub owner_of : Option TestEmail → Owner
owner_of none = record { created_ip = none; owner_user_id = none; api_key_id = none }
owner_of (some t) = record {
  created_ip = t.created_ip;
  owner_user_id = t.owner_user_id;
  api_key_id = t.api_key_id;
}

abbrev pub is_to : Text → TestEmail → Bool
is_to address t = t.to_address =ᵗ address

-- The event of a message, as it is inserted.
unfoldable pub new_event : ℕ → ℕ → ℕ → Text → Text → Text → Message → Owner → MailEvent
new_event id raw_id now to_address mail_from raw msg owner = record {
  id = id;
  to_address = to_address;
  mail_from = mail_from;
  raw_id = raw_id;
  size = length raw;
  received_at = now;
  connection = some (get_connection_info msg);
  subject = get_header (codes "Subject") (headers msg);
  message_id = get_header (codes "Message-ID") (headers msg);
  created_ip = owner.created_ip;
  owner_user_id = owner.owner_user_id;
  api_key_id = owner.api_key_id;
  analysis_started_at = none;
  analysis_id = none;
  analyzed_at = none;
  last_error = none;
}

-- The answers of `handle_DATA`, by their codes.
pub data Answer : Type 0 where
  accepted_250 too_large_552 temporary_failure_451 : Answer

-- `(rcpt or "").strip().lower()`, and the test of its domain.
abbrev pub normalize : Option Text → Text
normalize rcpt = lower (strip is_space (text_or_empty rcpt))

unfoldable pub is_ours : Config → Text → Bool
is_ours c to_address = ends_with to_address (b'@' ∷ lower c.mail_domain)

-- What is not done of a recipient's mail because the call that does it raises: `fs.put` or what comes
-- before it, the insertion of the event, the update of the address record, or `.delay`.
pub data Fault : Type 0 where
  no_raw no_event no_update no_task : Fault

abbrev pub lost : Exec.Error
lost = exception (codes "fault")

abbrev pub delay_raises : Option Fault → Bool
delay_raises (some no_task) = true
delay_raises (some no_raw) = false
delay_raises (some no_event) = false
delay_raises (some no_update) = false
delay_raises none = false

module _ {M : Mongo} {R : Redis} where
  -- The three writes of `store_message`. The raw mail and the event take the next two ids.
  abbrev pub put_raw : Text → World M R → World M R
  put_raw raw w = record w {
    next_id = suc w.next_id;
    db = record w.db {
      raw_mails = M.insert_one (record { id = w.next_id; raw = raw }) w.db.raw_mails;
    };
  }

  abbrev pub mark_received : ℕ → Text → ℕ → World M R → World M R
  mark_received now to_address id w = record w {
    db = record w.db {
      test_emails =
          (M.update_one (is_to to_address)
            (λ (t : TestEmail). record t {
              status = received;
              receiver_at = some now;
              last_mail_event_id = some id;
              last_error = none;
              mail_count = t.mail_count + 1;
            })
            w.db.test_emails).0;
    };
  }

  -- What follows `store_message`: the exception that it raises is answered, one of `.delay` is not.
  abbrev pub on_stored :
      Bool
      → (World M R → Result Answer × World M R)
      → Result ℕ × World M R
      → Result Answer × World M R
  on_stored raises next (raised e, w) = (ok temporary_failure_451, w)
  on_stored true next (ok event_id, w) = (raised lost, w)
  on_stored false next (ok event_id, w) = next (record w { queue = w.queue ++ event_id ∷ [] })

module _ {M : Mongo} {R : Redis} (parse : Text → Message) where
  abbrev pub insert_event : ℕ → Text → Text → Text → World M R → World M R
  insert_event now to_address mail_from raw w =
      let owner = owner_of (M.find_one (is_to to_address) w.db.test_emails) in
      let stored = put_raw raw w in
      record stored {
        next_id = suc stored.next_id;
        db = record stored.db {
          mail_events =
              M.insert_one
                (new_event stored.next_id w.next_id now to_address mail_from raw (parse raw) owner)
                w.db.mail_events;
        };
      }

  -- The id of the event. What was written before a fault stays written.
  unfoldable pub store_message : Option Fault → ℕ → Text → Text → Text → Exec (World M R) ℕ
  unfolding new_event
  store_message (some no_raw) now to_address mail_from raw w = (raised lost, w)
  store_message (some no_event) now to_address mail_from raw w = (raised lost, put_raw raw w)
  store_message (some no_update) now to_address mail_from raw w =
      (raised lost, insert_event now to_address mail_from raw w)
  store_message (some no_task) now to_address mail_from raw w =
      let id = suc w.next_id in
      (ok id, mark_received now to_address id (insert_event now to_address mail_from raw w))
  store_message none now to_address mail_from raw w =
      let id = suc w.next_id in
      (ok id, mark_received now to_address id (insert_event now to_address mail_from raw w))

  module _ (c : Config) where
    -- The loop over the recipients. `faults` tells what raises for which of them.
    unfoldable pub deliver :
        (Text → Option Fault) → ℕ → Text → Text → List (Option Text) → Exec (World M R) Answer
    unfolding store_message
    deliver faults now mail_from raw [] w = (ok accepted_250, w)
    deliver faults now mail_from raw (rcpt ∷ rcpts) w =
        let to_address = normalize rcpt in
        let next = deliver faults now mail_from raw rcpts in
        if not (is_ours c to_address)
        then next w
        else on_stored (delay_raises (faults to_address)) next
            (store_message (faults to_address) now to_address mail_from raw w)

    unfoldable pub handle_data :
        (Text → Option Fault)
        → ℕ
        → Option Text
        → Option Text
        → List (Option Text)
        → Exec (World M R) Answer
    unfolding deliver
    handle_data faults now content mail_from rcpt_tos w =
        let raw = text_or_empty content in
        if ltb c.message_size_limit (length raw)
        then (ok too_large_552, w)
        else deliver faults now (text_or_empty mail_from) raw rcpt_tos w
