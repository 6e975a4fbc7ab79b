-- ===== src/Api/Tokens.antt =====
-- `src/api/token.py`, and `logout` of `src/api/auth.py`. PyJWT is a parameter: `encode` and `decode` with
-- the program's secret. Mongo keeps milliseconds of an expiry; here it is kept whole.
pub mod Sessions
use mail_tester.Prelude.{
  ℕ, ◌+◌, ◌*◌, ◌/◌, ◌≤◌, ◌<◌, ◌≡◌, Bool, true, false, ◌&&◌, not, Option, none, some, Text, codes,
  null, ltb, leb, ◌==◌, ◌=ᵗ◌, if◌then◌else◌,
}
use mail_tester.Config.{Config}
use mail_tester.Time.{DateValue, Datetime, naive, ensure_utc_aware, minute, second}
use mail_tester.Db.Mongo.{Mongo}
use mail_tester.Db.Redis.{Redis}
use mail_tester.Db.Documents.{Token, Database}
use mail_tester.Exec.{World, Exec, Result, ok, raised, http, pure, raise, ◌>>=◌, ◌>>◌}
use mail_tester.Api.ApiKeys.{system_log}

-- What `jwt.decode` gives: the `user_id` of the payload, or one of its two exceptions.
pub data Decoded : Type 0 where
  payload : Option ℕ → Decoded
  expired_signature bad_token : Decoded

-- `encode user_id exp` and `decode now token`; `exp` is in seconds.
pub record Jwt : Type 0 where
  pub encode : ℕ → ℕ → Text
  pub decode : ℕ → Text → Decoded

-- What is relied on of PyJWT: a token that it signed decodes until its second is reached, and the text
-- of a token determines the user and the second.
pub record IsJwt (J : Jwt) : Type 0 where
  pub decode-encode :
      (user_id exp now : ℕ)
      → now < exp * second
      → J.decode now (J.encode user_id exp) ≡ payload (some user_id)
  pub encode_injective : (u e u' e' : ℕ) → J.encode u e ≡ J.encode u' e' → (u ≡ u') × (e ≡ e')

abbrev pub has_token : Text → Token → Bool
has_token token t = t.token =ᵗ token

abbrev pub is_of_user : ℕ → Token → Bool
is_of_user user_id t = t.user_id == user_id

module _ (J : Jwt) (c : Config) where
  unfoldable pub create_access_token : ℕ → ℕ → Text × ℕ
  create_access_token now user_id =
      let expire_at = now + c.token_expire_minutes * minute in
      (J.encode user_id (expire_at / second), expire_at)

module _ (M : Mongo) where
  unfoldable pub token_save : ℕ → Text → ℕ → ℕ → Database M → Database M
  token_save now token user_id expire_at db = record db {
    tokens =
        M.insert_one
          (record {
            user_id = user_id;
            token = token;
            expire_at = DateValue.date (naive expire_at);
            created_at = now;
          })
          (M.delete_one (is_of_user user_id) db.tokens);
  }

  abbrev unexpired : ℕ → Token → Option ℕ → Result Token
  unexpired now t none = raised (http 401 "Invalid token expiry")
  unexpired now t (some expire_at) =
      if leb expire_at now then raised (http 401 "Token expired") else ok t

  abbrev checked : ℕ → Option Token → Result Token
  checked now none = raised (http 401 "Invalid token")
  checked now (some t) = unexpired now t (ensure_utc_aware t.expire_at)

  unfoldable pub check_token : ℕ → Text → Database M → Result Token
  unfolding ensure_utc_aware
  check_token now token db = checked now (M.find_one (has_token token) db.tokens)

  abbrev same_user : ℕ → Result Token → Result Token
  same_user user_id (raised e) = raised e
  same_user user_id (ok t) =
      if t.user_id == user_id then ok t else raised (http 401 "Token user mismatch")

  module _ (J : Jwt) where
    abbrev decoded : ℕ → Text → Database M → Decoded → Result Token
    decoded now token db expired_signature = raised (http 401 "Token expired")
    decoded now token db bad_token = raised (http 401 "Invalid token")
    decoded now token db (payload none) = raised (http 401 "user_id not found")
    decoded now token db (payload (some user_id)) = same_user user_id (check_token now token db)

    unfoldable pub current_user : ℕ → Text → Database M → Result Token
    unfolding check_token
    current_user now token db = decoded now token db (J.decode now token)

    module _ (c : Config) where
      abbrev pub new_token : ℕ → ℕ → Database M → (Text × ℕ) × Database M
      new_token now user_id db =
          let (token, expire_at) = create_access_token J c now user_id in
          ((token, expire_at), token_save now token user_id expire_at db)

      abbrev pub still_good : ℕ → Token → Option ℕ → Option (Text × ℕ)
      still_good now t none = none
      still_good now t (some expire_at) =
          if not (null t.token) && ltb now expire_at then some (t.token, expire_at) else none

      abbrev pub active : ℕ → Option Token → Option (Text × ℕ)
      active now none = none
      active now (some t) = still_good now t (ensure_utc_aware t.expire_at)

      -- The token that is still good, or a new one.
      abbrev pub chosen : ℕ → ℕ → Database M → Option (Text × ℕ) → (Text × ℕ) × Database M
      chosen now user_id db (some pair) = (pair, db)
      chosen now user_id db none = new_token now user_id db

      unfoldable pub get_active_or_new_token : ℕ → ℕ → Database M → (Text × ℕ) × Database M
      unfolding create_access_token token_save ensure_utc_aware
      get_active_or_new_token now user_id db =
          chosen now user_id db (active now (M.find_one (is_of_user user_id) db.tokens))

module _ {M : Mongo} {R : Redis} where
  -- `t` is the document that `current_user` gives.
  unfoldable pub logout : ℕ → Token → Option Text → Exec (World M R) (Unit {0})
  logout now t ip w =
      system_log now (codes "logout") t.user_id ip
        (record w { db = record w.db { tokens = M.delete_one (has_token t.token) w.db.tokens } })
