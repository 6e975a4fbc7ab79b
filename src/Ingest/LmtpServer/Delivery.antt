-- ===== src/Ingest/LmtpServer/Delivery.antt =====
-- `src/ingest/lmtp_server.py`: what a delivery leaves in the database and in the worker's queue.
use mail_tester.Prelude.{
  ℕ, suc, ◌≡◌, refl, sym, ap, ◌∙◌, Option, none, some, is_some, List, [], ◌∷◌, ◌++◌, map, Text,
  length, ltb, All, if◌then◌else◌, Bool-cases, inl, inr,
}
use mathlib.Core.List.{append-nil, append_assoc}
use mail_tester.Config.{Config}
use mail_tester.Db.Mongo.{Mongo, IsMongo}
use mail_tester.Db.Mongo.Queries.{filter}
use mail_tester.Db.Redis.{Redis}
use mail_tester.Db.Documents.{MailEvent}
use mail_tester.Db.Cache.{text_or_empty}
use mail_tester.Exec.{World, Result, ok, raised}
use mail_tester.Ingest.Message.{Message}
use mail_tester.Ingest.LmtpServer.{
  Answer, store_message, is_to, owner_of, deliver, handle_data, normalize, is_ours, new_event,
  accepted_250, too_large_552, temporary_failure_451, Fault, no_raw, no_event, no_update, no_task,
  lost, delay_raises, put_raw, insert_event, mark_received, on_stored,
}

-- The recipients of our domain, in order.
abbrev pub ours : Config → List (Option Text) → List Text
ours c rcpts = filter (is_ours c) (map normalize rcpts)

-- The addresses up to the first for which something raises, and that one with what is not done.
abbrev pub before_fault : (Text → Option Fault) → List Text → List Text
before_fault faults [] = []
before_fault faults (a ∷ addresses) =
    let rest = before_fault faults addresses in if is_some (faults a) then [] else a ∷ rest

abbrev pub first_fault : (Text → Option Fault) → List Text → Option (Text × Fault)
first_fault faults [] = none
first_fault faults (a ∷ addresses) = elim (faults a) [
  | some f ↦ some (a, f)
  | none ↦ first_fault faults addresses
]

-- The address of which an event stays behind without a task, and the answer.
abbrev pub left_for : Option (Text × Fault) → List Text
left_for (some (a, no_update)) = a ∷ []
left_for (some (a, no_task)) = a ∷ []
left_for (some (a, no_raw)) = []
left_for (some (a, no_event)) = []
left_for none = []

abbrev pub answer_for : Option (Text × Fault) → Result Answer
answer_for (some (a, no_task)) = raised lost
answer_for (some (a, no_raw)) = ok temporary_failure_451
answer_for (some (a, no_event)) = ok temporary_failure_451
answer_for (some (a, no_update)) = ok temporary_failure_451
answer_for none = ok accepted_250

-- An event that no worker has touched.
abbrev pub IsFresh : MailEvent → Type 0
IsFresh e = (e.analysis_started_at ≡ none) × (e.analysis_id ≡ none) × (e.last_error ≡ none)

-- `r` is an answer and a state with the events and the queue of `w`: after them come an event with a
-- task for each of the addresses, and then an event without one for each of `left`.
pub record Delivered {M : Mongo} {R : Redis} (addresses left : List Text) (answer : Result Answer)
    (w : World M R) (r : Result Answer × World M R) : Type 0 where
  pub answered : r.0 ≡ answer
  pub added : List MailEvent
  pub idle : List MailEvent
  pub events : M.docs (r.1).db.mail_events ≡ M.docs w.db.mail_events ++ (added ++ idle)
  pub queue : (r.1).queue ≡ w.queue ++ map (λ (e : MailEvent). e.id) added
  pub sent_to : map (λ (e : MailEvent). e.to_address) added ≡ addresses
  pub left_to : map (λ (e : MailEvent). e.to_address) idle ≡ left
  pub fresh : All IsFresh added
  pub idle_fresh : All IsFresh idle

module _ (M : Mongo) (L : IsMongo M) (R : Redis) where
  -- Nothing is added to the events and to the queue.
  Delivered-nil :
      (answer : Result Answer) (w w' : World M R)
      → w'.db.mail_events ≡ w.db.mail_events
      → w'.queue ≡ w.queue
      → Delivered [] [] answer w (answer, w')
  Delivered-nil answer w w' events queue = record {
    answered = refl;
    added = [];
    idle = [];
    events = rw events (sym (append-nil _));
    queue = rw queue (sym (append-nil _));
    sent_to = refl;
    left_to = refl;
    fresh = tt;
    idle_fresh = tt;
  }

  module _ (parse : Text → Message) (now : ℕ) (to_address mail_from raw : Text)
      (w : World M R) where
    abbrev event_of : MailEvent
    event_of =
        new_event (suc w.next_id) w.next_id now to_address mail_from raw (parse raw)
          (owner_of (M.find_one (is_to to_address) w.db.test_emails))

    abbrev pub stored : World M R
    stored =
        mark_received now to_address (suc w.next_id)
          (insert_event parse now to_address mail_from raw w)

    -- An event that stays without a task.
    Delivered-idle :
        (answer : Result Answer) (w' : World M R)
        → w'.db.mail_events ≡ M.insert_one event_of w.db.mail_events
        → w'.queue ≡ w.queue
        → Delivered [] (to_address ∷ []) answer w (answer, w')
    unfolding new_event
    Delivered-idle answer w' events queue = record {
      answered = refl;
      added = [];
      idle = event_of ∷ [];
      events = rw (events, L.docs-insert_one) refl;
      queue = rw queue (sym (append-nil _));
      sent_to = refl;
      left_to = refl;
      fresh = tt;
      idle_fresh = ((refl, refl, refl), tt);
    }

    abbrev pub queued : World M R
    queued = record stored { queue = w.queue ++ suc w.next_id ∷ [] }

    Delivered-cons :
        (addresses left : List Text) (answer : Result Answer) (r : Result Answer × World M R)
        → Delivered addresses left answer queued r
        → Delivered (to_address ∷ addresses) left answer w r
    unfolding new_event
    Delivered-cons addresses left answer r d = record {
      answered = d.answered;
      added = event_of ∷ d.added;
      idle = d.idle;
      events = d.events ∙ rw (L.docs-insert_one, append_assoc);
      queue = d.queue ∙ rw append_assoc;
      sent_to = ap (λ ts. to_address ∷ ts) d.sent_to;
      left_to = d.left_to;
      fresh = ((refl, refl, refl), d.fresh);
      idle_fresh = d.idle_fresh;
    }

  module _ (parse : Text → Message) (c : Config) (faults : Text → Option Fault) (now : ℕ)
      (mail_from raw : Text) where
    -- What is to be delivered of a list of addresses.
    abbrev IsDelivered : List Text → World M R → Result Answer × World M R → Type 0
    IsDelivered addresses w r =
        Delivered (before_fault faults addresses) (left_for (first_fault faults addresses))
          (answer_for (first_fault faults addresses)) w r

    -- A recipient of ours.
    one-IsDelivered :
        (a : Text) (addresses : List Text) (fault : Option Fault)
        (next : World M R → Result Answer × World M R) (w : World M R)
        → faults a ≡ fault
        → ((v : World M R) → IsDelivered addresses v (next v))
        → IsDelivered
            (a ∷ addresses)
            w
            (on_stored (delay_raises fault) next (store_message parse fault now a mail_from raw w))
    unfolding store_message
    one-IsDelivered a addresses none next w e d =
        rw (e, before_fault, first_fault)
          (Delivered-cons parse now a mail_from raw w _ _ _ _
            (d (queued parse now a mail_from raw w)))
    one-IsDelivered a addresses (some no_raw) next w e d =
        rw (e, before_fault, first_fault) (Delivered-nil _ w w refl refl)
    one-IsDelivered a addresses (some no_event) next w e d =
        rw (e, before_fault, first_fault) (Delivered-nil _ w (put_raw raw w) refl refl)
    one-IsDelivered a addresses (some no_update) next w e d =
        rw (e, before_fault, first_fault)
          (Delivered-idle parse now a mail_from raw w _ (insert_event parse now a mail_from raw w)
            refl refl)
    one-IsDelivered a addresses (some no_task) next w e d =
        rw (e, before_fault, first_fault)
          (Delivered-idle parse now a mail_from raw w _ (stored parse now a mail_from raw w) refl
            refl)

    deliver-IsDelivered :
        (rcpts : List (Option Text)) (w : World M R)
        → IsDelivered (ours c rcpts) w (deliver parse c faults now mail_from raw rcpts w)
    unfolding deliver
    deliver-IsDelivered [] w = Delivered-nil _ w w refl refl
    deliver-IsDelivered (rcpt ∷ rcpts) w = elim (Bool-cases (is_ours c (normalize rcpt))) [
      | inl mine ↦ rw mine (
          one-IsDelivered (normalize rcpt) (ours c rcpts) (faults (normalize rcpt)) _ w refl
            (deliver-IsDelivered rcpts))
      | inr other ↦ rw other (deliver-IsDelivered rcpts w)
    ]

  module _ (parse : Text → Message) where
    -- A mail that is not too large leaves, for each recipient of our domain, in order, one fresh
    -- event and a task for it in the queue, up to the first recipient for which a call raises. If
    -- that is the update of the address record or `.delay`, one more event stays behind, without a
    -- task. Where `store_message` raises the answer is 451, where `.delay` raises the exception is
    -- passed on, and where nothing raises the answer is 250. A mail that is too large leaves no event
    -- and no task, and is answered by 552.
    pub handle_data_delivers :
        (c : Config) (faults : Text → Option Fault) (now : ℕ) (content mail_from : Option Text)
        (rcpts : List (Option Text)) (w : World M R)
        → (let big = ltb c.message_size_limit (length (text_or_empty content)) in
            let fault = first_fault faults (ours c rcpts) in
            Delivered
              (if big then [] else before_fault faults (ours c rcpts))
              (if big then [] else left_for fault)
              (if big then ok too_large_552 else answer_for fault)
              w
              (handle_data parse c faults now content mail_from rcpts w))
    unfolding handle_data
    handle_data_delivers c faults now content mail_from rcpts w =
        elim (Bool-cases (ltb c.message_size_limit (length (text_or_empty content)))) [
          | inl big ↦ rw big (Delivered-nil (ok too_large_552) w w refl refl)
          | inr fits ↦ rw fits (
              deliver-IsDelivered parse c faults now (text_or_empty mail_from)
                (text_or_empty content) rcpts w)
        ]
