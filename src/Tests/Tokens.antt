-- ===== src/Tests/Tokens.antt =====
-- Tests of `src/api/token.py` and `src/api/auth.py`.
use mail_tester.Prelude.{ℕ, ◌*◌, ◌≡◌, ap, arith, some, [], ◌∷◌, Text, ltb, if◌then◌else◌}
use mail_tester.Time.{second}
use mail_tester.Db.Mongo.Memory as MongoMemory
use mail_tester.Db.Documents.{Token}
use mail_tester.Exec.{ok}
use mail_tester.Api.Tokens.{
  Jwt, IsJwt, Decoded, payload, expired_signature, bad_token, current_user, get_active_or_new_token,
  create_access_token,
}
use mail_tester.Api.Tokens.Sessions.{get_active_or_new_token-current_user}
use mail_tester.Db.Redis.Memory as RedisMemory
use mail_tester.Prelude.{none, codes, ◌=ᵗ◌}
use mail_tester.Api.Auth.{Passwords, register}
use mail_tester.Api.Auth.Accounts.{IsUniqueEmails, register-IsUniqueEmails}
use mail_tester.Tests.Data.{conf, some_db, some_world}

abbrev read : ℕ → Text → Decoded
read now [] = bad_token
read now (u ∷ []) = bad_token
read now (u ∷ e ∷ rest) = if ltb now (e * second) then payload (some u) else expired_signature

-- A token that is the pair of its user and its expiry.
abbrev jwt : Jwt
jwt = record { encode = λ u e. u ∷ e ∷ []; decode = read }

abbrev first_of : Text → ℕ
first_of [] = 0
first_of (u ∷ rest) = u

abbrev second_of : Text → ℕ
second_of [] = 0
second_of (u ∷ rest) = first_of rest

jwt-IsJwt : IsJwt jwt
jwt-IsJwt = record {
  decode-encode = λ u e now h. ground (arith, h);
  encode_injective = λ u e u' e' h. (ap first_of h, ap second_of h);
}

get_active_or_new_token-current_user_example :
    (t : Token) × (current_user MongoMemory.memory jwt 3000000
        (get_active_or_new_token MongoMemory.memory jwt conf 5 7 some_db).0.0
        (get_active_or_new_token MongoMemory.memory jwt conf 5 7 some_db).1
      ≡ ok t)
    × (t.user_id ≡ 7)
unfolding get_active_or_new_token create_access_token
get_active_or_new_token-current_user_example =
    get_active_or_new_token-current_user MongoMemory.memory MongoMemory.memory-IsMongo jwt jwt-IsJwt
      conf 5 7 3000000 some_db tt (omega arith)

abbrev passwords : Passwords
passwords = record { hash_password = λ p. p; verify_password = λ p h. p =ᵗ h }

some_world-IsUniqueEmails : IsUniqueEmails some_world
some_world-IsUniqueEmails email = ground arith

register-IsUniqueEmails_example :
    IsUniqueEmails
      (register passwords conf 9
        (some (codes " New@x.test"))
        (some (codes "password1"))
        none
        some_world).1
register-IsUniqueEmails_example =
    register-IsUniqueEmails MongoMemory.memory MongoMemory.memory-IsMongo RedisMemory.memory
      passwords conf 9 (some (codes " New@x.test")) (some (codes "password1")) none some_world
      some_world-IsUniqueEmails
