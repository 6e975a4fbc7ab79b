-- ===== src/Api/Auth.antt =====
-- `src/api/auth.py`, and `is_valid_email` of `src/api/functions.py`. `hash_password` and
-- `verify_password` are passlib's, a parameter; `role` and `updated_at` are never read.
pub mod Accounts
use mail_tester.Prelude.{
  ℕ, suc, Bool, true, false, ◌&&◌, ◌||◌, not, Option, none, some, List, [], ◌∷◌, ◌++◌, any, Text,
  codes, strip, lower, is_space, null, length, ltb, leb, ◌==◌, ◌=ᵗ◌, is_text, is_some,
  if◌then◌else◌,
}
use mail_tester.Config.{Config}
use mail_tester.Time.{DateValue, Datetime, naive, utc_tomorrow_start}
use mail_tester.Regex.{Regex, seq, star, group, end, class, plus, char, is_digit, match_front}
use mail_tester.Db.Mongo.{Mongo}
use mail_tester.Db.Redis.{Redis}
use mail_tester.Db.Cache.{text_or_empty}
use mail_tester.Db.Documents.{User, UserQuota, Quota, LogDoc}
use mail_tester.Exec.{World, Exec, ok, raised, http, pure, raise, gets, modify, ◌>>=◌, ◌>>◌}
use mail_tester.Worker.Limits.{QuotaState, get_quota_state}
use mail_tester.Api.RateLimit.{enforce}
use mail_tester.Api.ApiKeys.{system_log}
use mail_tester.Api.Tokens.{Jwt, get_active_or_new_token}

pub record Passwords : Type 0 where
  pub hash_password : Text → Text
  pub verify_password : Text → Text → Bool

abbrev is_letter : ℕ → Bool
is_letter c = (leb b'a' c && leb c b'z') || (leb b'A' c && leb c b'Z')

abbrev is_label_char : ℕ → Bool
is_label_char c = is_letter c || is_digit c || (c == b'-')

abbrev is_local_char : ℕ → Bool
is_local_char c = is_label_char c || any (λ d. c == d) (codes ".!#$%&'*+/=?^_`{|}~")

-- `EMAIL_REGEX`
abbrev email_pattern : Regex
email_pattern = seq (plus (class is_local_char)) (
    seq (char b'@') (
      seq (plus (class is_label_char))
        (seq (star (group (seq (char b'.') (plus (class is_label_char))))) end)))

unfoldable pub is_valid_email : Text → Bool
unfolding match_front
is_valid_email email = if null email then false else is_some (match_front email_pattern email)

abbrev pub has_email : Text → User → Bool
has_email email u = u.email =ᵗ email

abbrev pub has_user_id : ℕ → User → Bool
has_user_id id u = u.id == id

abbrev pub normal_email : Option Text → Text
normal_email email = lower (strip is_space (text_or_empty email))

module _ (P : Passwords) (c : Config) where
  unfoldable pub new_user : ℕ → ℕ → Text → Text → Option Text → User
  new_user id now email password ip = record {
    id = id;
    email = email;
    password_hash = some (P.hash_password password);
    status = some (codes "active");
    created_at = some now;
    last_login_at = none;
    token_expires_at = none;
    register_ip = ip;
    quota = some (record {
      analyze = some (record {
        daily_limit = some c.user_daily_limit;
        daily_used = some 0;
        reset_at = DateValue.date (naive (utc_tomorrow_start now));
      });
    });
  }

  module _ {M : Mongo} {R : Redis} where
    unfoldable pub insert_user : ℕ → Text → Text → Option Text → Exec (World M R) (ℕ × ℕ)
    unfolding new_user
    insert_user now email password ip w =
        (system_log now (codes "register.success") w.next_id ip
            >> pure (w.next_id, c.user_daily_limit))
          (record w {
            next_id = suc w.next_id;
            db = record w.db {
              users = M.insert_one (new_user w.next_id now email password ip) w.db.users;
            };
          })

    -- After the checks of the form.
    unfoldable pub register_new : ℕ → Text → Text → Option Text → Exec (World M R) (ℕ × ℕ)
    unfolding insert_user
    register_new now email password ip w =
        if is_some (M.find_one (has_email email) w.db.users)
        then (raised (http 400 "Email already registered"), w)
        else insert_user now email password ip w

    abbrev pub register_form : ℕ → Text → Text → Option Text → Exec (World M R) (ℕ × ℕ)
    register_form now email password ip =
        if null email
        then raise (http 400 "Email is required")
        else if not (is_valid_email email)
        then raise (http 400 "Invalid email format")
        else if ltb (length password) c.password_min_length
        then raise (http 400 "Password must be at least PASSWORD_MIN_LENGTH characters")
        else register_new now email password ip

    unfoldable pub register : ℕ → Option Text → Option Text → Option Text → Exec (World M R) (ℕ × ℕ)
    unfolding enforce register_new is_valid_email
    register now email password ip =
        enforce now (codes "register") ip c.auth_rate_limit c.auth_rate_window
        >> register_form now (normal_email email) (text_or_empty password) ip

module _ (P : Passwords) (J : Jwt) (c : Config) {M : Mongo} {R : Redis} where
  abbrev log_failed : ℕ → Option Text → Exec (World M R) (Unit {0})
  log_failed now ip = modify λ w. record w {
    db = record w.db {
      system_logs =
          M.insert_one
            (record {
              timestamp = now;
              event = codes "login.failed";
              warning = true;
              user_id = none;
              ip = ip;
            })
            w.db.system_logs;
    };
  }

  abbrev set_login : ℕ → ℕ → ℕ → World M R → World M R
  set_login now id expires_at w = record w {
    db = record w.db {
      users =
          (M.update_one (has_user_id id)
            (λ (u : User). record u {
              last_login_at = some now;
              token_expires_at = some expires_at;
            })
            w.db.users).0;
    };
  }

  -- The end of `login`: the token with its expiry.
  unfoldable pub open_session : ℕ → User → Option Text → Exec (World M R) (Text × ℕ)
  unfolding get_active_or_new_token
  open_session now u ip w =
      let (pair, db) = get_active_or_new_token M J c now u.id w.db in
      (system_log now (codes "login") u.id ip >> modify (set_login now u.id pair.1) >> pure pair)
        (record w { db = db })

  abbrev pub try_login : ℕ → Text → Option Text → Option User → Exec (World M R) (Text × ℕ)
  try_login now password ip none = log_failed now ip >> raise (http 401 "Invalid email or password")
  try_login now password ip (some u) =
      if not (P.verify_password password (text_or_empty u.password_hash))
      then log_failed now ip >> raise (http 401 "Invalid email or password")
      else if not (is_text u.status (codes "active"))
      then raise (http 403 "Account is not active")
      else open_session now u ip

  unfoldable pub login : ℕ → Option Text → Text → Option Text → Exec (World M R) (Text × ℕ)
  unfolding enforce open_session
  login now username password ip = do
    enforce now (codes "login") ip c.auth_rate_limit c.auth_rate_window
    user ← gets (λ w. M.find_one (has_email (normal_email username)) w.db.users)
    try_login now password ip user

  abbrev seen : ℕ → ℕ → Option User → Exec (World M R) (User × QuotaState)
  seen now user_id none w = (raised (http 404 "User not found"), w)
  seen now user_id (some u) w = (ok (u, get_quota_state M c (some user_id) none none now w.db), w)

  -- `user_id` is that of the token.
  unfoldable pub me : ℕ → ℕ → Exec (World M R) (User × QuotaState)
  unfolding get_quota_state
  me now user_id w = seen now user_id (M.find_one (has_user_id user_id) w.db.users) w
