-- ===== src/Api/MailTests.antt =====
-- `src/api/mail_tests.py`. `str_id` is `str` of an id.
pub mod Generation
use mail_tester.Prelude.{
  ℕ, suc, ◌+◌, ◌*◌, Bool, true, false, Option, none, some, List, [], ◌∷◌, ◌++◌, Text, String, codes,
  null, ltb, leb, ◌==◌, ◌=ᵗ◌, ◌&&◌, not, is_some, is_text, if◌then◌else◌,
}
use mail_tester.Config.{Config}
use mail_tester.Time.{minute}
use mail_tester.Db.Mongo.{Mongo}
use mail_tester.Db.Redis.{Redis}
use mail_tester.Db.Cache.{address_key}
use mail_tester.Db.Documents.{TestEmail, MailEvent, Analysis, Status, Database}
use mail_tester.Exec.{World, Exec, Result, ok, raised, http, pure, raise, gets, modify, ◌>>=◌, ◌>>◌}
use mail_tester.Api.RateLimit.{enforce}
use mail_tester.Api.Requests.{CurrentUser, IdText, object_id, invalid, cache_delete, cache_set}
use mail_tester.Worker.Limits.{QuotaState, get_quota_state}
use mail_tester.Worker.Tasks.{limit_error, set_event}

abbrev pub owner_of : Option CurrentUser → Option ℕ
owner_of none = none
owner_of (some u) = some u.user_id

abbrev pub key_of : Option CurrentUser → Option ℕ
key_of none = none
key_of (some u) = u.api_key_id

-- `expires_at and expires_at > now`
abbrev pub is_after : ℕ → Option ℕ → Bool
is_after now none = false
is_after now (some t) = ltb now t

abbrev is_owner : Option ℕ → ℕ → Bool
is_owner none u = false
is_owner (some v) u = v == u

-- The query of `previous`: what is live, of the account, or else of the IP address.
unfoldable pub is_previous : ℕ → Option ℕ → Option Text → TestEmail → Bool
is_previous now (some owner) created_ip t =
    is_after now t.expires_at && is_owner t.owner_user_id owner
is_previous now none (some ip) t = is_after now t.expires_at && is_text t.created_ip ip
is_previous now none none t = is_after now t.expires_at && not (is_some t.created_ip)

abbrev pub expire : TestEmail → TestEmail
expire t = record t { status = Status.expired; expires_at = none }

pub record Generated : Type 0 where
  pub address : Text
  pub expires_at : ℕ
  pub expires_in : ℕ
  pub limits : QuotaState

abbrev pub new_address : ℕ → Text → ℕ → ℕ → Option Text → Option ℕ → Option ℕ → TestEmail
new_address id to_address now expires_at created_ip owner_user_id api_key_id = record {
  id = id;
  to_address = to_address;
  status = Status.pending;
  created_at = now;
  expires_at = some expires_at;
  created_ip = created_ip;
  owner_user_id = owner_user_id;
  api_key_id = api_key_id;
  mail_count = 0;
  receiver_at = none;
  last_mail_event_id = none;
  analysis_id = none;
  analyzed_at = none;
  last_error = none;
}

-- `api_key_id or owner_user_id or created_ip`
abbrev pub identity_of : (ℕ → Text) → Option ℕ → Option ℕ → Option Text → Option Text
identity_of str_id (some key) owner ip = some (str_id key)
identity_of str_id none (some owner) ip = some (str_id owner)
identity_of str_id none none ip = ip

abbrev is_for : Text → MailEvent → Bool
is_for to_address e = e.to_address =ᵗ to_address

module _ {M : Mongo} {R : Redis} where
  unfoldable pub delete_keys : List TestEmail → Exec (World M R) (Unit {0})
  delete_keys [] w = (ok tt, w)
  delete_keys (old ∷ olds) w =
      (cache_delete (address_key (some old.to_address)) >> delete_keys olds) w

  -- The previous addresses are expired, and the new one is recorded.
  abbrev pub renew_address :
      Config → ℕ → Text → Option Text → Option ℕ → Option ℕ → World M R → World M R
  renew_address c now to_address created_ip owner_user_id api_key_id w = record w {
    next_id = suc w.next_id;
    db = record w.db {
      test_emails =
          M.insert_one
            (new_address w.next_id to_address now (now + c.test_address_ttl_minutes * minute)
              created_ip owner_user_id api_key_id)
            (M.update_many (is_previous now owner_user_id created_ip) expire w.db.test_emails);
    };
  }

  -- From the deletion of the old keys to the announcement of the new address to Postfix.
  unfoldable pub replace_address :
      Config → ℕ → Text → Option Text → Option ℕ → Option ℕ → Exec (World M R) (Unit {0})
  unfolding delete_keys is_previous
  replace_address c now to_address created_ip owner_user_id api_key_id w =
      (do
        delete_keys (M.find (is_previous now owner_user_id created_ip) w.db.test_emails)
        modify (renew_address c now to_address created_ip owner_user_id api_key_id)
        cache_set now (address_key (some to_address)) (c.test_address_ttl_minutes * 60))
        w

  module _ (str_id : ℕ → Text) (c : Config) where
    -- `to_address` is what `generate_random_email` gives.
    unfoldable pub generate_random :
        ℕ → Text → Option Text → Option CurrentUser → Exec (World M R) Generated
    unfolding replace_address enforce
    generate_random now to_address created_ip current_user = do
      let owner_user_id = owner_of current_user
      let api_key_id = key_of current_user
      enforce now (codes "generate") (identity_of str_id api_key_id owner_user_id created_ip)
          c.generate_rate_limit c.generate_rate_window
      quota ← gets (λ w. get_quota_state M c owner_user_id created_ip api_key_id now w.db)
      replace_address c now to_address created_ip owner_user_id api_key_id
      pure (record {
        address = to_address;
        expires_at = now + c.test_address_ttl_minutes * minute;
        expires_in = c.test_address_ttl_minutes * 60;
        limits = quota;
      })

    unfoldable pub get_limits :
        ℕ → Option Text → Option CurrentUser → Exec (World M R) (QuotaState × ℕ)
    get_limits now ip current_user w = (
      ok (
        get_quota_state M c (owner_of current_user) ip (key_of current_user) now w.db,
        c.test_address_ttl_minutes * 60,
      ),
      w,
    )

module _ (M : Mongo) where
  unfoldable pub address_is_live : ℕ → Text → Database M → Bool
  address_is_live now to_address db =
      elim (M.find_one (λ (t : TestEmail). t.to_address =ᵗ to_address) db.test_emails) [
        | none ↦ false
        | some t ↦ is_after now t.expires_at
      ]

  -- The newest event of the address, after the given one.
  abbrev is_newer : Option ℕ → Text → MailEvent → Bool
  is_newer none to_address e = is_for to_address e
  is_newer (some n) to_address e = is_for to_address e && ltb n e.id

  abbrev pub id_of : MailEvent → ℕ
  id_of e = e.id

  unfoldable pub newest_event : Text → Option IdText → Database M → Result (Option MailEvent)
  newest_event to_address none db =
      ok (M.find_newest id_of (is_newer none to_address) db.mail_events)
  newest_event to_address (some invalid) db = raised (http 400 "Invalid event id")
  newest_event to_address (some (object_id n)) db =
      ok (M.find_newest id_of (is_newer (some n) to_address) db.mail_events)

  unfoldable pub read_analysis : ℕ → Database M → Option Analysis
  read_analysis analysis_id db = M.find_one (λ (a : Analysis). a.id == analysis_id) db.analyses

pub data CheckReply : Type 0 where
  waiting expired : CheckReply
  analyzed : ℕ → Analysis → CheckReply
  error : Option ℕ → Text → CheckReply
  limit processing : ℕ → CheckReply

abbrev pub analysis_missing : Text
analysis_missing = codes "analysis missing"

module _ {M : Mongo} {R : Redis} where
  abbrev absent : ℕ → Text → World M R → CheckReply
  absent now to_address w = if address_is_live M now to_address w.db then waiting else expired

  abbrev delay : ℕ → World M R → World M R
  delay event_id w = record w { queue = w.queue ++ event_id ∷ [] }

  -- The end of `check_address`, for an event with no report: `last_error` is as it stands now.
  unfoldable pub check_pending : MailEvent → Option Text → Exec (World M R) CheckReply
  check_pending e none w =
      if is_some e.analysis_started_at
      then (ok (processing e.id), w)
      else (ok (processing e.id), delay e.id w)
  check_pending e (some err) w =
      if not (null err)
      then (ok (error (some e.id) err), w)
      else if is_some e.analysis_started_at
      then (ok (processing e.id), w)
      else (ok (processing e.id), delay e.id w)

  module _ (c : Config) where
    -- A mail that the quota blocked is tried again once something is left.
    unfoldable pub check_blocked : ℕ → MailEvent → Exec (World M R) CheckReply
    unfolding check_pending
    check_blocked now e w =
        let quota = get_quota_state M c e.owner_user_id e.created_ip e.api_key_id now w.db in
        let retried = set_event e.id (λ (ev : MailEvent). record ev { last_error = none }) w in
        if leb quota.remaining 0 then (ok (limit e.id), w) else check_pending e none retried

    unfoldable pub check_event : ℕ → MailEvent → Exec (World M R) CheckReply
    unfolding check_blocked read_analysis
    check_event now e w = elim e.analysis_id [
      | some id ↦ elim (read_analysis M id w.db) [
        | none ↦ (ok (error (some e.id) analysis_missing), w)
        | some a ↦ (ok (analyzed e.id a), w)
      ]
      | none ↦
          if is_text e.last_error limit_error
          then check_blocked now e w
          else check_pending e e.last_error w
    ]

    abbrev pub check_found : ℕ → Text → Result (Option MailEvent) → Exec (World M R) CheckReply
    check_found now to_address (raised e) w = (raised e, w)
    check_found now to_address (ok none) w = (ok (absent now to_address w), w)
    check_found now to_address (ok (some e)) w = check_event now e w

    unfoldable pub check_address :
        ℕ → Text → Option IdText → Option Text → Exec (World M R) CheckReply
    unfolding enforce newest_event check_event address_is_live
    check_address now to_address after ip = do
      enforce now (codes "check") ip c.check_rate_limit c.check_rate_window
      λ w. check_found now to_address (newest_event M to_address after w.db) w

    abbrev pub result_of : ℕ → Text → Option MailEvent → World M R → CheckReply
    result_of now to_address none w = absent now to_address w
    result_of now to_address (some e) w = elim e.analysis_id [
      | none ↦ error none analysis_missing
      | some id ↦ elim (read_analysis M id w.db) [
        | none ↦ error none analysis_missing
        | some a ↦ analyzed e.id a
      ]
    ]

    -- The newest event that has a report.
    unfoldable pub get_result : ℕ → Text → Option Text → Exec (World M R) CheckReply
    unfolding enforce address_is_live read_analysis
    get_result now to_address ip = do
      enforce now (codes "result") ip c.read_rate_limit c.read_rate_window
      gets (λ w.
          result_of now to_address
            (M.find_newest (λ (e : MailEvent). e.id)
              (λ (e : MailEvent). is_for to_address e && is_some e.analysis_id) w.db.mail_events)
            w)
