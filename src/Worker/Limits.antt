-- ===== src/Worker/Limits.antt =====
-- `src/worker/limits.py`
pub mod Kept
pub mod Quotas
use mail_tester.Prelude.{
  ℕ, suc, ◌+◌, ◌-◌, Bool, true, false, Option, none, some, Text, codes, null, ltb, leb, ◌==◌, ◌&&◌,
  not, is_some, is_text, or_default, if◌then◌else◌,
}
use mail_tester.Config.{Config}
use mail_tester.Time.{DateValue, Datetime, ensure_utc_aware, utc_day_start, get_utc_tomorrow_start}
use mail_tester.Db.Mongo.{Mongo}
use mail_tester.Db.Documents.{MailEvent, Quota, User, UserQuota, ApiKey, Database}

-- Who pays for an analysis. `quota_holder` takes an API key before the account that owns it.
pub data Holder : Type 0 where
  api_key : ℕ → Holder
  user : ℕ → Holder
  anonymous : Holder

unfoldable pub quota_holder : Option ℕ → Option ℕ → Holder
quota_holder owner_user_id (some key) = api_key key
quota_holder (some owner) none = user owner
quota_holder none none = anonymous

abbrev pub no_quota : Quota
no_quota = record { daily_limit = none; daily_used = none; reset_at = DateValue.null }

-- The walk down `path` in the document found, `{}` where a part of it is missing.
abbrev pub key_quota : Option ApiKey → Quota
key_quota none = no_quota
key_quota (some k) = or_default k.quota no_quota

abbrev nested_quota : Option UserQuota → Quota
nested_quota none = no_quota
nested_quota (some q) = or_default q.analyze no_quota

abbrev pub user_quota : Option User → Quota
user_quota none = no_quota
user_quota (some u) = nested_quota u.quota

-- `$set` and `$inc` below `path`, which create what is missing.
abbrev pub modify_key : (Quota → Quota) → ApiKey → ApiKey
modify_key f k = record k { quota = some (f (key_quota (some k))) }

abbrev pub modify_user : (Quota → Quota) → User → User
modify_user f u = record u { quota = some (record { analyze = some (f (user_quota (some u))) }) }

abbrev pub reset : ℕ → Quota → Quota
reset now q = record q {
  daily_used = some 0;
  reset_at = DateValue.date (Datetime.aware (get_utc_tomorrow_start now));
}

abbrev pub increment : Quota → Quota
increment q = record q { daily_used = some (or_default q.daily_used 0 + 1) }

-- `(reset_at is None) or (reset_at <= now)`
unfoldable pub is_due : ℕ → Quota → Bool
unfolding ensure_utc_aware
is_due now q = elim (ensure_utc_aware q.reset_at) [ none ↦ true | some at ↦ leb at now ]

pub data Scope : Type 0 where
  api_key user anonymous : Scope

pub record QuotaState : Type 0 where
  pub scope : Scope
  pub limit : ℕ
  pub used : ℕ
  pub remaining : ℕ
  pub reset_at : ℕ

-- `client_ip or "unknown"`
abbrev pub ip_or_unknown : Option Text → Text
ip_or_unknown none = codes "unknown"
ip_or_unknown (some ip) = if null ip then codes "unknown" else ip

abbrev since : ℕ → Option ℕ → Bool
since start none = false
since start (some t) = leb start t

module _ (M : Mongo) where
  unfoldable pub get_anonymous_daily_usage : Text → ℕ → Database M → ℕ
  get_anonymous_daily_usage client_ip now db =
      M.count_documents
        (λ (e : MailEvent).
          is_text e.created_ip client_ip
          && is_some e.analysis_id
          && since (utc_day_start now) e.analyzed_at)
        db.mail_events

  -- `modified_count == 1`: an update that matches fills a field that was null.
  unfoldable pub claim_mail_event : ℕ → ℕ → Database M → Bool × Database M
  claim_mail_event event_id now db =
      let (events, matched) =
        M.update_one (λ (e : MailEvent). e.id == event_id && not (is_some e.analysis_started_at))
          (λ e. record e { analysis_started_at = some now }) db.mail_events in
      (matched == 1, record db { mail_events = events })

  -- The quota of a holder, and an update of it.
  unfoldable pub find_quota : Holder → Database M → Quota
  find_quota (api_key key) db = key_quota (M.find_one (λ (k : ApiKey). k.id == key) db.api_keys)
  find_quota (user owner) db = user_quota (M.find_one (λ (u : User). u.id == owner) db.users)
  find_quota anonymous db = no_quota

  unfoldable pub update_quota : Holder → (Quota → Quota) → Database M → Database M
  update_quota (api_key key) f db = record db {
    api_keys = (M.update_one (λ (k : ApiKey). k.id == key) (modify_key f) db.api_keys).0;
  }
  update_quota (user owner) f db = record db {
    users = (M.update_one (λ (u : User). u.id == owner) (modify_user f) db.users).0;
  }
  update_quota anonymous f db = db

  module _ (c : Config) where
    abbrev pub default_limit : Holder → ℕ
    default_limit (api_key key) = c.api_daily_limit
    default_limit (user owner) = c.user_daily_limit
    default_limit anonymous = c.anon_daily_limit

    -- The branch of a holder with a document.
    unfoldable pub consume_held : Holder → ℕ → Database M → Bool × Database M
    unfolding is_due find_quota update_quota
    consume_held holder now db =
        let quota = find_quota holder db in
        let daily_limit = or_default quota.daily_limit (default_limit holder) in
        let due = is_due now quota in
        let daily_used = if due then 0 else or_default quota.daily_used 0 in
        let db' = if due then update_quota holder (reset now) db else db in
        if leb daily_limit daily_used
        then (false, db')
        else (true, update_quota holder increment db')

    unfoldable pub consume_daily_quota :
        Option ℕ → Option Text → Option ℕ → ℕ → Database M → Bool × Database M
    unfolding quota_holder consume_held get_anonymous_daily_usage
    consume_daily_quota owner_user_id client_ip api_key_id now db =
        elim (quota_holder owner_user_id api_key_id) [
          | api_key key ↦ consume_held (api_key key) now db
          | user owner ↦ consume_held (user owner) now db
          | anonymous ↦ (
            ltb (get_anonymous_daily_usage (ip_or_unknown client_ip) now db) c.anon_daily_limit,
            db,
          )
        ]

    unfoldable pub held_state : Scope → Holder → ℕ → Database M → QuotaState
    unfolding is_due find_quota
    held_state scope holder now db =
        let quota = find_quota holder db in
        let limit = or_default quota.daily_limit (default_limit holder) in
        let due = is_due now quota in
        let used = if due then 0 else or_default quota.daily_used 0 in
        record {
          scope = scope;
          limit = limit;
          used = used;
          remaining = limit - used;
          reset_at =
              if due
              then get_utc_tomorrow_start now
              else or_default (ensure_utc_aware quota.reset_at) 0;
        }

    unfoldable pub get_quota_state : Option ℕ → Option Text → Option ℕ → ℕ → Database M → QuotaState
    unfolding quota_holder held_state get_anonymous_daily_usage
    get_quota_state owner_user_id client_ip api_key_id now db =
        elim (quota_holder owner_user_id api_key_id) [
          | api_key key ↦ held_state Scope.api_key (api_key key) now db
          | user owner ↦ held_state Scope.user (user owner) now db
          | anonymous ↦
              let used = get_anonymous_daily_usage (ip_or_unknown client_ip) now db in
              record {
                scope = Scope.anonymous;
                limit = c.anon_daily_limit;
                used = used;
                remaining = c.anon_daily_limit - used;
                reset_at = get_utc_tomorrow_start now;
              }
        ]
