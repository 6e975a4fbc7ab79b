-- ===== src/Api/Identity/Precedence.antt =====
-- `optional_current_user` of `src/api/functions.py`: a key decides before a token.
use mail_tester.Prelude.{
  ℕ, ◌≡◌, refl, false, Option, none, some, Text, codes, null, strip, is_space, inl, inr, Bool-cases,
}
use mail_tester.Config.{Config}
use mail_tester.Db.Mongo.{Mongo}
use mail_tester.Db.Redis.{Redis}
use mail_tester.Db.Documents.{ApiKey}
use mail_tester.Exec.{World, ◌>>=◌}
use mail_tester.Api.RateLimit.{rate_key, hit, enforce}
use mail_tester.Api.Tokens.{Jwt}
use mail_tester.Api.ApiKeys.{find_key, admit, resolve_api_key}
use mail_tester.Api.Identity.{optional_current_user, key_or_token}

module _ {M : Mongo} {R : Redis} (hash_key : Text → Text) (str_id : ℕ → Text) (J : Jwt)
    (c : Config) where
  admit-key_or_token :
      (now : ℕ) (found : Option ApiKey) (token token' : Option Text) (w : World M R)
      → (admit hash_key str_id c now found >>= key_or_token hash_key str_id J c now token) w
        ≡ (admit hash_key str_id c now found >>= key_or_token hash_key str_id J c now token') w
  unfolding enforce
  admit-key_or_token now none token token' w = refl
  admit-key_or_token now (some key) token token' w =
      elim (Bool-cases
        (hit R now (rate_key (codes "api_key") (some (str_id key.id))) c.api_rate_limit
          c.api_rate_window w.cache).0.allowed) [ inl e ↦ rw e refl | inr e ↦ rw e refl ]

  -- A request with an API key is decided by the key alone, refused or not: no token, good or bad, in
  -- the same request changes the answer or what is written.
  pub optional_current_user_precedence :
      (now : ℕ) (header : Text) (token token' : Option Text) (w : World M R)
      → null (strip is_space header) ≡ false
      → optional_current_user hash_key str_id J c now (some header) token w
        ≡ optional_current_user hash_key str_id J c now (some header) token' w
  unfolding optional_current_user resolve_api_key
  optional_current_user_precedence now header token token' w h =
      rw h (admit-key_or_token now (find_key hash_key (strip is_space header) w) token token' w)
