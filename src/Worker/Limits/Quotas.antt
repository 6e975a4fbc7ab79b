-- ===== src/Worker/Limits/Quotas.antt =====
-- `src/worker/limits.py`: what `consume_daily_quota` grants, and what `get_quota_state` says of it.
use mail_tester.Prelude.{
  ℕ, suc, ◌+◌, ◌-◌, ◌<◌, ◌≡◌, refl, ◌∙◌, Bool, true, false, Option, some, List, [], ◌∷◌, Text,
  arith, ◌==◌, ltb, leb, min, is_some, or_default, if◌then◌else◌, length, All,
}
use mail_tester.Config.{Config}
use mail_tester.Time.{ensure_utc_aware, get_utc_tomorrow_start, tomorrow_starts}
use mail_tester.Db.Mongo.{Mongo, IsMongo}
use mail_tester.Db.Mongo.Laws.{find_one-update_one}
use mail_tester.Db.Documents.{Quota, User, ApiKey, Database}
use mail_tester.Worker.Limits.{
  Holder, Scope, modify_key, modify_user, reset, increment, is_due, find_quota, update_quota,
  default_limit, consume_held, consume_daily_quota, held_state, get_quota_state,
}

module _ (M : Mongo) (c : Config) where
  -- An analysis is granted exactly if the quota shown to the same client at that time has something
  -- left, whoever pays for it.
  pub consume-iff-remaining :
      (owner_user_id : Option ℕ) (client_ip : Option Text) (api_key_id : Option ℕ) (now : ℕ)
      (db : Database M)
      → (consume_daily_quota M c owner_user_id client_ip api_key_id now db).0
        ≡ ltb 0 (get_quota_state M c owner_user_id client_ip api_key_id now db).remaining
  unfolding consume_daily_quota get_quota_state
  consume-iff-remaining owner_user_id client_ip api_key_id now db = ground arith

-- The holder's document is there.
abbrev pub IsFound : (M : Mongo) → Holder → Database M → Type 0
IsFound M (Holder.api_key key) db =
    is_some (M.find_one (λ (k : ApiKey). k.id == key) db.api_keys) ≡ true
IsFound M (Holder.user owner) db =
    is_some (M.find_one (λ (u : User). u.id == owner) db.users) ≡ true
IsFound M Holder.anonymous db = ⊥

module _ (M : Mongo) (L : IsMongo M) where
  find_quota-update_quota :
      (h : Holder) (f : Quota → Quota) (db : Database M)
      → IsFound M h db
      → find_quota M h (update_quota M h f db) ≡ f (find_quota M h db)
  unfolding find_quota update_quota
  find_quota-update_quota (Holder.api_key key) f db h =
      rw
        (find_one-update_one M L (λ (k : ApiKey). k.id == key) (modify_key f) db.api_keys
          (λ d. refl))
        (ground arith)
  find_quota-update_quota (Holder.user owner) f db h =
      rw
        (find_one-update_one M L (λ (u : User). u.id == owner) (modify_user f) db.users (λ d. refl))
        (ground arith)
  find_quota-update_quota Holder.anonymous f db h = absurd h

  IsFound-update_quota :
      (h : Holder) (f : Quota → Quota) (db : Database M)
      → IsFound M h db
      → IsFound M h (update_quota M h f db)
  unfolding update_quota
  IsFound-update_quota (Holder.api_key key) f db h =
      rw
        (find_one-update_one M L (λ (k : ApiKey). k.id == key) (modify_key f) db.api_keys
          (λ d. refl))
        (ground arith)
  IsFound-update_quota (Holder.user owner) f db h =
      rw
        (find_one-update_one M L (λ (u : User). u.id == owner) (modify_user f) db.users (λ d. refl))
        (ground arith)
  IsFound-update_quota Holder.anonymous f db h = absurd h

-- The effect of `consume_held` on the quota alone.
abbrev current : ℕ → Quota → Quota
current now q = if is_due now q then reset now q else q

abbrev limit_of : ℕ → Quota → ℕ
limit_of default q = or_default q.daily_limit default

abbrev used_of : Quota → ℕ
used_of q = or_default q.daily_used 0

abbrev spend : ℕ → ℕ → Quota → Bool × Quota
spend default now q =
    if leb (limit_of default q) (used_of (current now q))
    then (false, current now q)
    else (true, increment (current now q))

module _ (M : Mongo) (L : IsMongo M) (c : Config) where
  consume_held-IsFound :
      (h : Holder) (now : ℕ) (db : Database M)
      → IsFound M h db
      → IsFound M h (consume_held M c h now db).1
  unfolding consume_held
  consume_held-IsFound h now db found = ground (
    arith,
    IsFound-update_quota M L h (reset now) db found,
    IsFound-update_quota M L h increment db found,
    IsFound-update_quota M L h increment (update_quota M h (reset now) db),
  )

  consume_held-spend :
      (h : Holder) (now : ℕ) (db : Database M)
      → IsFound M h db
      → ((consume_held M c h now db).0, find_quota M h (consume_held M c h now db).1)
        ≡ spend (default_limit M c h) now (find_quota M h db)
  unfolding consume_held
  consume_held-spend h now db found = ground (
    arith,
    find_quota-update_quota M L h (reset now) db found,
    find_quota-update_quota M L h increment db found,
    find_quota-update_quota M L h increment (update_quota M h (reset now) db)
        (IsFound-update_quota M L h (reset now) db found),
  )

  -- Of the quota that is shown to a user or an API key whose document is there, a consumption at that
  -- time changes only the use, by one if it is granted, and with it what remains.
  state-consume_held :
      (scope : Scope) (h : Holder) (now : ℕ) (db : Database M)
      → IsFound M h db
      → held_state M c scope h now (consume_held M c h now db).1 ≡ (
          let before = held_state M c scope h now db in
          let used = if (consume_held M c h now db).0 then before.used + 1 else before.used in
          record before { used = used; remaining = before.limit - used })
  unfolding held_state is_due
  state-consume_held scope h now db found =
      ground (arith, consume_held-spend h now db found, tomorrow_starts now)

-- How many of the analyses asked for at these times are granted.
grants : ℕ → List ℕ → Quota → ℕ
grants default [] q = 0
grants default (t ∷ ts) q =
    (if (spend default t q).0 then 1 else 0) + grants default ts (spend default t q).1

grants_open :
    (default deadline : ℕ) (ts : List ℕ) (q : Quota)
    → ensure_utc_aware q.reset_at ≡ some deadline
    → All (λ t. t < deadline) ts
    → grants default ts q ≡ min (length ts) (limit_of default q - used_of q)
unfolding grants is_due
grants_open default deadline [] q e h = omega arith
grants_open default deadline (t ∷ ts) q e (h, hs) =
    ground (arith, grants_open default deadline ts (spend default t q).1)

abbrev deadline_of : ℕ → Quota → ℕ
deadline_of now q =
    if is_due now q then get_utc_tomorrow_start now else or_default (ensure_utc_aware q.reset_at) 0

-- The first request decides until when the quota counts.
grants_from :
    (default now : ℕ) (ts : List ℕ) (q : Quota)
    → All (λ t. t < deadline_of now q) ts
    → grants default (now ∷ ts) q
      ≡ min (suc (length ts)) (limit_of default q - used_of (current now q))
unfolding grants is_due
grants_from default now ts q h =
    ground (
      arith,
      tomorrow_starts now,
      grants_open default (deadline_of now q) ts (spend default now q).1,
    )

module _ (M : Mongo) (c : Config) where
  -- The requests of one holder, in the order in which they are served.
  unfoldable pub consume_all : Holder → List ℕ → Database M → ℕ × Database M
  consume_all h [] db = (0, db)
  consume_all h (t ∷ ts) db =
      let (granted, db') = consume_held M c h t db in
      let (n, db'') = consume_all h ts db' in ((if granted then 1 else 0) + n, db'')

module _ (M : Mongo) (L : IsMongo M) (c : Config) where
  consume_all-grants :
      (h : Holder) (ts : List ℕ) (db : Database M)
      → IsFound M h db
      → (consume_all M c h ts db).0 ≡ grants (default_limit M c h) ts (find_quota M h db)
  unfolding consume_all grants
  consume_all-grants h [] db found = refl
  consume_all-grants h (t ∷ ts) db found = ground (
    arith,
    consume_held-spend M L c h t db found,
    consume_all-grants h ts (consume_held M c h t db).1 (consume_held-IsFound M L c h t db found),
  )

  -- However many analyses a user or an API key whose document is there asks for, one after another and
  -- before the reset that is shown at the first of them, exactly as many are granted as remained at the
  -- first, or all, if they are no more than that.
  pub granted-consume_all :
      (scope : Scope) (h : Holder) (now : ℕ) (ts : List ℕ) (db : Database M)
      → IsFound M h db
      → All (λ t. t < (held_state M c scope h now db).reset_at) ts
      → (consume_all M c h (now ∷ ts) db).0
        ≡ min (suc (length ts)) (held_state M c scope h now db).remaining
  unfolding held_state
  granted-consume_all scope h now ts db found before =
      consume_all-grants h (now ∷ ts) db found
      ∙ grants_from (default_limit M c h) now ts (find_quota M h db) before
      ∙ ground arith
