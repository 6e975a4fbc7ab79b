-- ===== src/System/Sessions.antt =====
-- `src/api/auth.py`: registration, login and logout leave the events and the reports alone.
use mail_tester.Prelude.{
  ℕ, Option, none, some, Text, codes, is_text, if_both, null, not, ltb, length, is_some,
}
use mail_tester.Config.{Config}
use mail_tester.Db.Mongo.{Mongo}
use mail_tester.Db.Redis.{Redis}
use mail_tester.Db.Cache.{text_or_empty}
use mail_tester.Db.Documents.{Token, User}
use mail_tester.Exec.{World, Exec, bind_keeps}
use mail_tester.Worker.Tasks.{set_db}
use mail_tester.Worker.Tasks.Ledger.{weaken-IsSound}
use mail_tester.Worker.Tasks.Once.{IsSoundWorld}
use mail_tester.System.Accounts.{IsSoundAfter}
use mail_tester.Api.RateLimit.{enforce}
use mail_tester.Api.Tokens.{
  Jwt, logout, chosen, token_save, create_access_token, get_active_or_new_token,
}
use mail_tester.Api.Auth.{
  Passwords, is_valid_email, normal_email, has_email, insert_user, register_new, register_form,
  register, open_session, try_login, login,
}

-- An action that leaves a sound state when it starts from `w`.
abbrev IsSoundIn : {M : Mongo} {R : Redis} {A : Type 0} → World M R → Exec (World M R) A → Type 0
IsSoundIn w m = IsSoundAfter (m w)

module _ (M : Mongo) (R : Redis) where
  pub logout-IsSoundWorld :
      (now : ℕ) (t : Token) (ip : Option Text) (w : World M R)
      → IsSoundWorld w
      → IsSoundWorld (logout now t ip w).1
  unfolding logout
  logout-IsSoundWorld now t ip w S = S

  module _ (P : Passwords) (c : Config) where
    register_new-IsSoundWorld :
        (now : ℕ) (email password : Text) (ip : Option Text) (w : World M R)
        → IsSoundWorld w
        → IsSoundWorld (register_new P c now email password ip w).1
    unfolding register_new insert_user
    register_new-IsSoundWorld now email password ip w S =
        if_both IsSoundAfter (is_some (M.find_one (has_email email) w.db.users)) _ _ S
          (weaken-IsSound S)

    register_form-IsSoundWorld :
        (now : ℕ) (email password : Text) (ip : Option Text) (w : World M R)
        → IsSoundWorld w
        → IsSoundWorld (register_form P c now email password ip w).1
    register_form-IsSoundWorld now email password ip w S =
        if_both (IsSoundIn w) (null email) _ _ S (
          if_both (IsSoundIn w) (not (is_valid_email email)) _ _ S (
            if_both (IsSoundIn w) (ltb (length password) c.password_min_length) _ _ S
              (register_new-IsSoundWorld now email password ip w S)))

    pub register-IsSoundWorld :
        (now : ℕ) (email password ip : Option Text) (w : World M R)
        → IsSoundWorld w
        → IsSoundWorld (register P c now email password ip w).1
    unfolding register enforce
    register-IsSoundWorld now email password ip w S =
        bind_keeps IsSoundWorld _
          (enforce now (codes "register") ip c.auth_rate_limit c.auth_rate_window) w S
          (λ _ v T.
            register_form-IsSoundWorld now (normal_email email) (text_or_empty password) ip v T)

  module _ (P : Passwords) (J : Jwt) (c : Config) where
    chosen-IsSoundWorld :
        (now user_id : ℕ) (o : Option (Text × ℕ)) (w : World M R)
        → IsSoundWorld w
        → IsSoundWorld (set_db (chosen M J c now user_id w.db o).1 w)
    unfolding token_save create_access_token
    chosen-IsSoundWorld now user_id none w S = S
    chosen-IsSoundWorld now user_id (some pair) w S = S

    open_session-IsSoundWorld :
        (now : ℕ) (u : User) (ip : Option Text) (w : World M R)
        → IsSoundWorld w
        → IsSoundWorld (open_session P J c now u ip w).1
    unfolding open_session get_active_or_new_token
    open_session-IsSoundWorld now u ip w S = chosen-IsSoundWorld now u.id _ w S

    try_login-IsSoundWorld :
        (now : ℕ) (password : Text) (ip : Option Text) (u : Option User) (w : World M R)
        → IsSoundWorld w
        → IsSoundWorld (try_login P J c now password ip u w).1
    try_login-IsSoundWorld now password ip none w S = S
    try_login-IsSoundWorld now password ip (some u) w S =
        if_both (IsSoundIn w) (not (P.verify_password password (text_or_empty u.password_hash))) _ _
          S
          (if_both (IsSoundIn w) (not (is_text u.status (codes "active"))) _ _ S
            (open_session-IsSoundWorld now u ip w S))

    pub login-IsSoundWorld :
        (now : ℕ) (username : Option Text) (password : Text) (ip : Option Text) (w : World M R)
        → IsSoundWorld w
        → IsSoundWorld (login P J c now username password ip w).1
    unfolding login enforce
    login-IsSoundWorld now username password ip w S =
        bind_keeps IsSoundWorld _
          (enforce now (codes "login") ip c.auth_rate_limit c.auth_rate_window) w S
          (λ _ v T. try_login-IsSoundWorld now password ip _ v T)
