-- ===== src/Worker/Tasks/Outcome/Claims.antt =====
-- `src/worker/limits.py`: the claim of an event, by the event that is found, and the quota after it.
use mathlib.Core.Path.{subst}
use mathlib.Core.Option.{some-injective}
use mail_tester.Prelude.{
  ℕ, ◌≡◌, ◌≤◌, refl, ◌∙◌, sym, arith, true, false, Option, none, some, List, [], ◌∷◌, any, Text,
  ◌==◌,
}
use mail_tester.Config.{Config}
use mail_tester.Db.Mongo.{Mongo, IsMongo}
use mail_tester.Db.Mongo.Queries.{count, count-modify_first, first, modify_first}
use mail_tester.Db.Documents.{MailEvent, Database}
use mail_tester.Worker.Limits.{
  Holder, ip_or_unknown, claim_mail_event, consume_daily_quota, consume_held, find_quota,
  get_anonymous_daily_usage,
}
use mail_tester.Worker.Tasks.Ledger.{has_id, is_free, claim}

-- The claim is on the event that was found, or on none.
module _ (n : ℕ) where
  absent_id : (es : List MailEvent) → count (has_id n) es ≡ 0 → any (is_free n) es ≡ false
  absent_id [] h = refl
  absent_id (e ∷ es) h = ground (arith, absent_id es)

  -- The claim of the first event, by the event that is found.
  started_first :
      (e : MailEvent) (es : List MailEvent) (event : MailEvent)
      → first (has_id n) (e ∷ es) ≡ some event
      → (e.id == n) ≡ true
      → e.analysis_started_at ≡ event.analysis_started_at
  started_first e es event h same =
      subst (λ d. e.analysis_started_at ≡ d.analysis_started_at)
        (some-injective e event (rw same at h)) refl

  pub taken_not_free :
      (es : List MailEvent) (event : MailEvent) (t : ℕ)
      → count (has_id n) es ≤ 1
      → first (has_id n) es ≡ some event
      → event.analysis_started_at ≡ some t
      → any (is_free n) es ≡ false
  taken_not_free [] event t u h s = cc
  taken_not_free (e ∷ es) event t u h s =
      ground (arith, started_first e es event h, s, absent_id es, taken_not_free es event t)

  pub found_free :
      (es : List MailEvent) (event : MailEvent)
      → first (has_id n) es ≡ some event
      → event.analysis_started_at ≡ none
      → any (is_free n) es ≡ true
  found_free [] event h s = cc
  found_free (e ∷ es) event h s = ground (arith, started_first e es event h, s, found_free es event)

  pub claim_found :
      (now : ℕ) (es : List MailEvent) (event : MailEvent)
      → first (has_id n) es ≡ some event
      → event.analysis_started_at ≡ none
      → modify_first (is_free n) (claim now) es ≡ modify_first (has_id n) (claim now) es
  claim_found now [] event h s = cc
  claim_found now (e ∷ es) event h s =
      ground (arith, started_first e es event h, s, claim_found now es event)

module _ (M : Mongo) (L : IsMongo M) (c : Config) where
  usage-claim :
      (client_ip : Text) (now n : ℕ) (db : Database M)
      → get_anonymous_daily_usage M client_ip now (claim_mail_event M n now db).1
        ≡ get_anonymous_daily_usage M client_ip now db
  unfolding get_anonymous_daily_usage claim_mail_event
  usage-claim client_ip now n db =
      L.count_documents-docs _ _
      ∙ (rw L.docs-update_one
          (count-modify_first (is_free n) (claim now) _ (λ e. refl) (M.docs db.mail_events)))
      ∙ sym (L.count_documents-docs _ _)

  consume_held-claim :
      (holder : Holder) (now n : ℕ) (db : Database M)
      → (consume_held M c holder now (claim_mail_event M n now db).1).0
        ≡ (consume_held M c holder now db).0
  unfolding consume_held claim_mail_event find_quota
  consume_held-claim (Holder.api_key k) now n db = ground arith
  consume_held-claim (Holder.user u) now n db = ground arith
  consume_held-claim Holder.anonymous now n db = ground arith

  -- A claim is not yet a use of the quota.
  pub consume-claim :
      (owner_user_id : Option ℕ) (client_ip : Option Text) (api_key_id : Option ℕ) (now n : ℕ)
      (db : Database M)
      → (consume_daily_quota M c owner_user_id client_ip api_key_id now
          (claim_mail_event M n now db).1).0
        ≡ (consume_daily_quota M c owner_user_id client_ip api_key_id now db).0
  unfolding consume_daily_quota
  consume-claim owner_user_id client_ip (some k) now n db =
      consume_held-claim (Holder.api_key k) now n db
  consume-claim (some u) client_ip none now n db = consume_held-claim (Holder.user u) now n db
  consume-claim none client_ip none now n db =
      rw (usage-claim (ip_or_unknown client_ip) now n db, consume_daily_quota) refl
