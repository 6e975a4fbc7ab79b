-- ===== src/Worker/Limits/Kept.antt =====
-- `consume_daily_quota` of `src/worker/limits.py`, and what it does not touch.
use mail_tester.Prelude.{ℕ, ◌≡◌, refl, Option, none, some, Text, ◌∙◌, arith}
use mail_tester.Config.{Config}
use mail_tester.Db.Mongo.{Mongo}
use mail_tester.Db.Documents.{Quota, Database}
use mail_tester.Worker.Limits.{
  Holder, consume_daily_quota, consume_held, update_quota, reset, increment,
}

-- The mails and what is known of them are the same.
pub record Kept {M : Mongo} (db db' : Database M) : Type 0 where
  pub events : db'.mail_events ≡ db.mail_events
  pub analyses : db'.analyses ≡ db.analyses
  pub addresses : db'.test_emails ≡ db.test_emails
  pub raws : db'.raw_mails ≡ db.raw_mails

module _ (M : Mongo) (c : Config) where
  update_quota-Kept :
      (h : Holder) (f : Quota → Quota) (db : Database M) → Kept db (update_quota M h f db)
  unfolding update_quota
  update_quota-Kept (Holder.api_key k) f db = record {
    events = refl;
    analyses = refl;
    addresses = refl;
    raws = refl;
  }
  update_quota-Kept (Holder.user u) f db = record {
    events = refl;
    analyses = refl;
    addresses = refl;
    raws = refl;
  }
  update_quota-Kept Holder.anonymous f db = record {
    events = refl;
    analyses = refl;
    addresses = refl;
    raws = refl;
  }

  trans-Kept : {db db' db'' : Database M} → Kept db db' → Kept db' db'' → Kept db db''
  trans-Kept k k' = record {
    events = k'.events ∙ k.events;
    analyses = k'.analyses ∙ k.analyses;
    addresses = k'.addresses ∙ k.addresses;
    raws = k'.raws ∙ k.raws;
  }

  consume_held-Kept :
      (h : Holder) (now : ℕ) (db : Database M) → Kept db (consume_held M c h now db).1
  unfolding consume_held
  consume_held-Kept h now db =
      let once = update_quota-Kept h (reset now) db in
      let more = update_quota-Kept h increment db in
      let twice =
        trans-Kept once (update_quota-Kept h increment (update_quota M h (reset now) db)) in
      record {
        events = ground (arith, once.events, more.events, twice.events);
        analyses = ground (arith, once.analyses, more.analyses, twice.analyses);
        addresses = ground (arith, once.addresses, more.addresses, twice.addresses);
        raws = ground (arith, once.raws, more.raws, twice.raws);
      }

  pub consume_daily_quota-Kept :
      (owner_user_id : Option ℕ) (client_ip : Option Text) (api_key_id : Option ℕ) (now : ℕ)
      (db : Database M)
      → Kept db (consume_daily_quota M c owner_user_id client_ip api_key_id now db).1
  unfolding consume_daily_quota
  consume_daily_quota-Kept owner_user_id client_ip (some k) now db =
      consume_held-Kept (Holder.api_key k) now db
  consume_daily_quota-Kept (some u) client_ip none now db = consume_held-Kept (Holder.user u) now db
  consume_daily_quota-Kept none client_ip none now db = record {
    events = refl;
    analyses = refl;
    addresses = refl;
    raws = refl;
  }
