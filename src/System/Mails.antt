-- ===== src/System/Mails.antt =====
-- `src/ingest` and `src/api/mail_tests.py`: deliveries and requests keep the events and the reports
-- sound.
use mail_tester.Prelude.{
  if_both, ◌==◌, ltb, leb, length, codes, null, is_some, ℕ, refl, Option, none, some, List, [], ◌∷◌,
  Text, not, is_text, Option-cases, inl, inr,
}
use mail_tester.Config.{Config}
use mail_tester.Db.Mongo.{Mongo, IsMongo}
use mail_tester.Db.Redis.{Redis}
use mail_tester.Db.Documents.{TestEmail, MailEvent, Analysis}
use mail_tester.Db.Cache.{address_key, text_or_empty}
use mail_tester.Exec.{World, Result, ok, raised, bind_keeps}
use mail_tester.Ingest.Message.{Message}
use mail_tester.Ingest.LmtpServer.{
  normalize, is_ours, store_message, deliver, handle_data, Answer, Fault, no_raw, no_event,
  no_update, no_task, delay_raises, insert_event, new_event, on_stored,
}
use mail_tester.Worker.Limits.{get_quota_state}
use mail_tester.Worker.Tasks.{limit_error}
use mail_tester.Worker.Tasks.Ledger.{has_id, touch-IsSound, store-IsSound, weaken-IsSound}
use mail_tester.Worker.Tasks.Once.{IsSoundWorld}
use mail_tester.Api.RateLimit.{enforce}
use mail_tester.Api.Requests.{CurrentUser, IdText, cache_delete, from_cache}
use mail_tester.Api.MailTests.{
  delete_keys, replace_address, generate_random, check_pending, check_blocked, check_event,
  check_address, get_result, check_found, is_previous, renew_address, owner_of, key_of, identity_of,
}
use mail_tester.System.Accounts.{IsSoundAfter}

module _ (M : Mongo) (L : IsMongo M) (R : Redis) (parse : Text → Message) (c : Config) where
  stored-IsSoundWorld :
      (now : ℕ) (to_address mail_from raw : Text) (w : World M R)
      → IsSoundWorld w
      → IsSoundWorld (insert_event parse now to_address mail_from raw w)
  unfolding new_event
  stored-IsSoundWorld now to_address mail_from raw w S =
      rw L.docs-insert_one (store-IsSound S _ refl refl)

  -- What follows one recipient, whatever raises.
  on_stored-IsSoundWorld :
      (fault : Option Fault) (next : World M R → Result Answer × World M R) (now : ℕ)
      (to_address mail_from raw : Text) (w : World M R)
      → IsSoundWorld w
      → ((v : World M R) → IsSoundWorld v → IsSoundWorld (next v).1)
      → IsSoundWorld
          (on_stored
            (delay_raises fault)
            next
            (store_message parse fault now to_address mail_from raw w)).1
  unfolding store_message
  on_stored-IsSoundWorld (some no_raw) next now to_address mail_from raw w S d = S
  on_stored-IsSoundWorld (some no_event) next now to_address mail_from raw w S d = weaken-IsSound S
  on_stored-IsSoundWorld (some no_update) next now to_address mail_from raw w S d =
      stored-IsSoundWorld now to_address mail_from raw w S
  on_stored-IsSoundWorld (some no_task) next now to_address mail_from raw w S d =
      stored-IsSoundWorld now to_address mail_from raw w S
  on_stored-IsSoundWorld none next now to_address mail_from raw w S d =
      d _ (stored-IsSoundWorld now to_address mail_from raw w S)

  deliver-IsSoundWorld :
      (faults : Text → Option Fault) (now : ℕ) (mail_from raw : Text) (rcpts : List (Option Text))
      (w : World M R)
      → IsSoundWorld w
      → IsSoundWorld (deliver parse c faults now mail_from raw rcpts w).1
  unfolding deliver
  deliver-IsSoundWorld faults now mail_from raw [] w S = S
  deliver-IsSoundWorld faults now mail_from raw (rcpt ∷ rcpts) w S =
      if_both IsSoundAfter (not (is_ours c (normalize rcpt))) _ _
        (deliver-IsSoundWorld faults now mail_from raw rcpts w S)
        (on_stored-IsSoundWorld (faults (normalize rcpt)) _ now (normalize rcpt) mail_from raw w S
          (deliver-IsSoundWorld faults now mail_from raw rcpts))

  pub handle_data-IsSoundWorld :
      (faults : Text → Option Fault) (now : ℕ) (content mail_from : Option Text)
      (rcpts : List (Option Text)) (w : World M R)
      → IsSoundWorld w
      → IsSoundWorld (handle_data parse c faults now content mail_from rcpts w).1
  unfolding handle_data
  handle_data-IsSoundWorld faults now content mail_from rcpts w S =
      if_both IsSoundAfter (ltb c.message_size_limit (length (text_or_empty content))) _ _ S
        (deliver-IsSoundWorld faults now _ _ rcpts w S)

module _ (M : Mongo) (L : IsMongo M) (R : Redis) where
  enforce-IsSoundWorld :
      (now : ℕ) (scope : Text) (identity : Option Text) (limit window : ℕ) (w : World M R)
      → IsSoundWorld w
      → IsSoundWorld (enforce now scope identity limit window w).1
  unfolding enforce
  enforce-IsSoundWorld now scope identity limit window w S = S

  from_cache-IsSoundWorld :
      (s : Option R.State) (w : World M R) → IsSoundWorld w → IsSoundWorld (from_cache s w).1
  from_cache-IsSoundWorld none w S = S
  from_cache-IsSoundWorld (some s) w S = S

  delete_keys-IsSoundWorld :
      (olds : List TestEmail) (w : World M R) → IsSoundWorld w → IsSoundWorld (delete_keys olds w).1
  unfolding delete_keys
  delete_keys-IsSoundWorld [] w S = S
  delete_keys-IsSoundWorld (old ∷ olds) w S =
      bind_keeps IsSoundWorld (λ _. delete_keys olds)
        (cache_delete (address_key (some old.to_address))) w (from_cache-IsSoundWorld _ w S)
        (λ _ v T. delete_keys-IsSoundWorld olds v T)

  module _ (c : Config) where
    check_pending-IsSoundWorld :
        (e : MailEvent) (err : Option Text) (w : World M R)
        → IsSoundWorld w
        → IsSoundWorld (check_pending e err w).1
    unfolding check_pending
    check_pending-IsSoundWorld e none w S =
        if_both IsSoundAfter (is_some e.analysis_started_at) _ _ S S
    check_pending-IsSoundWorld e (some err) w S =
        if_both IsSoundAfter (not (null err)) _ _ S
          (if_both IsSoundAfter (is_some e.analysis_started_at) _ _ S S)

    check_blocked-IsSoundWorld :
        (now : ℕ) (e : MailEvent) (w : World M R)
        → IsSoundWorld w
        → IsSoundWorld (check_blocked c now e w).1
    unfolding check_blocked
    check_blocked-IsSoundWorld now e w S =
        if_both IsSoundAfter
          (leb (get_quota_state M c e.owner_user_id e.created_ip e.api_key_id now w.db).remaining 0)
          _ _ S
          (check_pending-IsSoundWorld e none _
            (rw L.docs-update_one (touch-IsSound S (has_id e.id) _ (λ _. refl) (λ _. refl))))

    check_event-IsSoundWorld :
        (now : ℕ) (e : MailEvent) (w : World M R)
        → IsSoundWorld w
        → IsSoundWorld (check_event c now e w).1
    unfolding check_event
    check_event-IsSoundWorld now e w S = elim (Option-cases e.analysis_id) [
      | inl none_yet ↦
          rw (none_yet, check_event)
            (if_both IsSoundAfter (is_text e.last_error limit_error) _ _
              (check_blocked-IsSoundWorld now e w S)
              (check_pending-IsSoundWorld e e.last_error w S))
      | inr (id, there) ↦
          rw (there, check_event)
            (elim (Option-cases (M.find_one (λ (a : Analysis). a.id == id) w.db.analyses)) [
              | inl lost ↦ rw (lost, check_event) S
              | inr (a, found) ↦ rw (found, check_event) S
            ])
    ]

    check_found-IsSoundWorld :
        (now : ℕ) (to_address : Text) (f : Result (Option MailEvent)) (w : World M R)
        → IsSoundWorld w
        → IsSoundWorld (check_found c now to_address f w).1
    check_found-IsSoundWorld now to_address (raised e) w S = S
    check_found-IsSoundWorld now to_address (ok none) w S = S
    check_found-IsSoundWorld now to_address (ok (some e)) w S = check_event-IsSoundWorld now e w S

    pub check_address-IsSoundWorld :
        (now : ℕ) (to_address : Text) (after : Option IdText) (ip : Option Text) (w : World M R)
        → IsSoundWorld w
        → IsSoundWorld (check_address c now to_address after ip w).1
    unfolding check_address
    check_address-IsSoundWorld now to_address after ip w S =
        bind_keeps IsSoundWorld _
          (enforce now (codes "check") ip c.check_rate_limit c.check_rate_window) w
          (enforce-IsSoundWorld now (codes "check") ip c.check_rate_limit c.check_rate_window w S)
          (λ _ v T. check_found-IsSoundWorld now to_address _ v T)

    pub get_result-IsSoundWorld :
        (now : ℕ) (to_address : Text) (ip : Option Text) (w : World M R)
        → IsSoundWorld w
        → IsSoundWorld (get_result c now to_address ip w).1
    unfolding get_result
    get_result-IsSoundWorld now to_address ip w S =
        bind_keeps IsSoundWorld _
          (enforce now (codes "result") ip c.read_rate_limit c.read_rate_window) w
          (enforce-IsSoundWorld now (codes "result") ip c.read_rate_limit c.read_rate_window w S)
          (λ _ v T. T)

    replace_address-IsSoundWorld :
        (now : ℕ) (to_address : Text) (ip : Option Text) (owner key : Option ℕ) (w : World M R)
        → IsSoundWorld w
        → IsSoundWorld (replace_address c now to_address ip owner key w).1
    unfolding replace_address
    replace_address-IsSoundWorld now to_address ip owner key w S =
        let olds = M.find (is_previous now owner ip) w.db.test_emails in
        bind_keeps IsSoundWorld _ (delete_keys olds) w (delete_keys-IsSoundWorld olds w S) (λ _ v T.
          from_cache-IsSoundWorld _ (renew_address c now to_address ip owner key v)
            (weaken-IsSound T))

    pub generate_random-IsSoundWorld :
        (str_id : ℕ → Text) (now : ℕ) (to_address : Text) (ip : Option Text)
        (u : Option CurrentUser) (w : World M R)
        → IsSoundWorld w
        → IsSoundWorld (generate_random str_id c now to_address ip u w).1
    unfolding generate_random
    generate_random-IsSoundWorld str_id now to_address ip u w S =
        bind_keeps IsSoundWorld _
          (enforce now (codes "generate") (identity_of str_id (key_of u) (owner_of u) ip)
            c.generate_rate_limit c.generate_rate_window)
          w
          (enforce-IsSoundWorld now (codes "generate")
            (identity_of str_id (key_of u) (owner_of u) ip) c.generate_rate_limit
            c.generate_rate_window w S)
          (λ _ v T.
            bind_keeps IsSoundWorld _ (replace_address c now to_address ip (owner_of u) (key_of u))
              v (replace_address-IsSoundWorld now to_address ip (owner_of u) (key_of u) v T)
              (λ _ x U. U))
