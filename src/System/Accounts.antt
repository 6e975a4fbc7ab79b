-- ===== src/System/Accounts.antt =====
-- `src/api/api_keys.py` and `src/api/history.py`: they leave the events and the reports alone.
use mail_tester.Prelude.{
  ℕ, zero, suc, Option, none, some, Text, codes, null, leb, ℤ, if_both, strip, is_space,
}
use mail_tester.Config.{Config}
use mail_tester.Db.Mongo.{Mongo}
use mail_tester.Db.Redis.{Redis}
use mail_tester.Db.Cache.{text_or_empty}
use mail_tester.Db.Documents.{ApiKey, Analysis}
use mail_tester.Exec.{World, bind_keeps, Exec}
use mail_tester.Worker.Tasks.Ledger.{weaken-IsSound}
use mail_tester.Worker.Tasks.Once.{IsSoundWorld}
use mail_tester.Api.RateLimit.{enforce}
use mail_tester.Api.Requests.{CurrentUser, IdText, object_id, invalid}
use mail_tester.Api.ApiKeys.{
  resolve_api_key, create_key, create_counted, insert_key, revoke_key, report_revoked, admit,
  is_active_of, KeyView,
}
use mail_tester.Api.History.{
  list_history, get_report, limited, list_before, report_of, found_report,
}

-- What a call leaves is sound.
abbrev pub IsSoundAfter : {M : Mongo} {R : Redis} {A : Type 0} → A × World M R → Type 0
IsSoundAfter r = IsSoundWorld r.1

module _ (M : Mongo) (R : Redis) where
  enforced :
      (now : ℕ) (scope : Text) (identity : Option Text) (limit window : ℕ) (w : World M R)
      → IsSoundWorld w
      → IsSoundWorld (enforce now scope identity limit window w).1
  unfolding enforce
  enforced now scope identity limit window w S = S

  report_revoked-IsSoundWorld :
      (now user_id : ℕ) (ip : Option Text) (n : ℕ) (w : World M R)
      → IsSoundWorld w
      → IsSoundWorld (report_revoked now user_id ip n w).1
  report_revoked-IsSoundWorld now user_id ip zero w S = S
  report_revoked-IsSoundWorld now user_id ip (suc n) w S = S

  pub revoke_key-IsSoundWorld :
      (now user_id : ℕ) (id : IdText) (ip : Option Text) (w : World M R)
      → IsSoundWorld w
      → IsSoundWorld (revoke_key now user_id id ip w).1
  unfolding revoke_key
  revoke_key-IsSoundWorld now user_id invalid ip w S = S
  revoke_key-IsSoundWorld now user_id (object_id id) ip w S =
      report_revoked-IsSoundWorld now user_id ip _ _ S

  pub create_key-IsSoundWorld :
      (hash_key : Text → Text) (c : Config) (now user_id : ℕ) (name ip : Option Text) (token : Text)
      (w : World M R)
      → IsSoundWorld w
      → IsSoundWorld (create_key hash_key c now user_id name ip token w).1
  unfolding create_key create_counted insert_key enforce
  create_key-IsSoundWorld hash_key c now user_id name ip token w S =
      bind_keeps IsSoundWorld _
        (enforce now (codes "keys_create") ip c.auth_rate_limit c.auth_rate_window) w S
        (λ _ v T.
          if_both (λ (m : Exec (World M R) (KeyView × Text)). IsSoundWorld (m v).1)
            (leb c.api_keys_per_user (M.count_documents (is_active_of user_id) v.db.api_keys)) _ _ T
            (weaken-IsSound T))

  admit-IsSoundWorld :
      (hash_key : Text → Text) (str_id : ℕ → Text) (c : Config) (now : ℕ) (k : Option ApiKey)
      (w : World M R)
      → IsSoundWorld w
      → IsSoundWorld (admit hash_key str_id c now k w).1
  admit-IsSoundWorld hash_key str_id c now none w S = S
  admit-IsSoundWorld hash_key str_id c now (some k) w S =
      bind_keeps IsSoundWorld _
        (enforce now (codes "api_key") (some (str_id k.id)) c.api_rate_limit c.api_rate_window) w
        (enforced now (codes "api_key") (some (str_id k.id)) c.api_rate_limit c.api_rate_window w S)
        (λ _ v T. T)

  pub resolve_api_key-IsSoundWorld :
      (hash_key : Text → Text) (str_id : ℕ → Text) (c : Config) (now : ℕ) (header : Option Text)
      (w : World M R)
      → IsSoundWorld w
      → IsSoundWorld (resolve_api_key hash_key str_id c now header w).1
  unfolding resolve_api_key
  resolve_api_key-IsSoundWorld hash_key str_id c now header w S =
      if_both IsSoundAfter (null (strip is_space (text_or_empty header))) _ _ S
        (admit-IsSoundWorld hash_key str_id c now _ w S)

  module _ (str_id : ℕ → Text) (c : Config) where
    list_before-IsSoundWorld :
        (user_id : ℕ) (limit : ℤ) (before : Option IdText) (w : World M R)
        → IsSoundWorld w
        → IsSoundWorld (list_before str_id c user_id limit before w).1
    list_before-IsSoundWorld user_id limit none w S = S
    list_before-IsSoundWorld user_id limit (some invalid) w S = S
    list_before-IsSoundWorld user_id limit (some (object_id id)) w S = S

    pub list_history-IsSoundWorld :
        (now : ℕ) (limit : ℤ) (before : Option IdText) (u : Option CurrentUser) (w : World M R)
        → IsSoundWorld w
        → IsSoundWorld (list_history str_id c now limit before u w).1
    unfolding list_history
    list_history-IsSoundWorld now limit before none w S = S
    list_history-IsSoundWorld now limit before (some u) w S =
        bind_keeps IsSoundWorld _ (limited str_id c now u.user_id) w
          (enforced now (codes "history") (some (str_id u.user_id)) c.read_rate_limit
            c.read_rate_window w S)
          (λ _ v T. list_before-IsSoundWorld u.user_id limit before v T)

    found_report-IsSoundWorld :
        (a : Option Analysis) (w : World M R)
        → IsSoundWorld w
        → IsSoundWorld (found_report str_id c a w).1
    found_report-IsSoundWorld none w S = S
    found_report-IsSoundWorld (some a) w S = S

    report_of-IsSoundWorld :
        (user_id : ℕ) (id : IdText) (w : World M R)
        → IsSoundWorld w
        → IsSoundWorld (report_of str_id c user_id id w).1
    report_of-IsSoundWorld user_id invalid w S = S
    report_of-IsSoundWorld user_id (object_id id) w S = found_report-IsSoundWorld _ w S

    pub get_report-IsSoundWorld :
        (now : ℕ) (id : IdText) (u : Option CurrentUser) (w : World M R)
        → IsSoundWorld w
        → IsSoundWorld (get_report str_id c now id u w).1
    unfolding get_report
    get_report-IsSoundWorld now id none w S = S
    get_report-IsSoundWorld now id (some u) w S =
        bind_keeps IsSoundWorld _ (limited str_id c now u.user_id) w
          (enforced now (codes "history") (some (str_id u.user_id)) c.read_rate_limit
            c.read_rate_window w S)
          (λ _ v T. report_of-IsSoundWorld u.user_id id v T)
