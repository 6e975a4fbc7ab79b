-- ===== src/Api/Identity.antt =====
-- `get_request_info` and `optional_current_user` of `src/api/functions.py`, `list_keys` of
-- `src/api/api_keys.py` and `generate_random_email` of `src/processor/generator.py`.
pub mod Precedence
use mail_tester.Prelude.{
  ℕ, Option, none, some, List, [], ◌∷◌, ◌++◌, map, Text, codes, null, strip, is_space, split,
  if◌then◌else◌,
}
use mail_tester.Config.{Config}
use mail_tester.Db.Mongo.{Mongo}
use mail_tester.Db.Redis.{Redis}
use mail_tester.Db.Documents.{ApiKey, Token}
use mail_tester.Exec.{World, Exec, Result, ok, raised, pure, ◌>>=◌}
use mail_tester.Api.Requests.{CurrentUser}
use mail_tester.Api.ApiKeys.{is_active_of, KeyView, public_key_view, resolve_api_key}
use mail_tester.Api.Tokens.{Jwt, current_user}

-- The headers that are read, and the peer of the connection.
pub record Request : Type 0 where
  pub x_forwarded_for : Option Text
  pub x_real_ip : Option Text
  pub client_host : Option Text
  pub user_agent : Option Text

pub record RequestInfo : Type 0 where
  pub ip : Text
  pub user_agent : Text

abbrev unknown_if_none : Option Text → Text
unknown_if_none none = codes "unknown"
unknown_if_none (some t) = t

-- `s.split(",")[0]`
abbrev first_of : List Text → Text
first_of [] = []
first_of (t ∷ ts) = t

abbrev real_ip : Option Text → Option Text → Text
real_ip none host = unknown_if_none host
real_ip (some t) host = if null t then unknown_if_none host else strip is_space t

abbrev client_ip : Option Text → Option Text → Option Text → Text
client_ip none x_real host = real_ip x_real host
client_ip (some t) x_real host =
    if null t then real_ip x_real host else strip is_space (first_of (split b',' t))

unfoldable pub get_request_info : Option Request → RequestInfo
unfolding strip split
get_request_info none = record { ip = codes "unknown"; user_agent = codes "unknown" }
get_request_info (some r) = record {
  ip = client_ip r.x_forwarded_for r.x_real_ip r.client_host;
  user_agent = unknown_if_none r.user_agent;
}

-- `token` is what `secrets.token_hex(10)` gives.
unfoldable pub generate_random_email : Config → Text → Text
generate_random_email c token = codes "test-" ++ (token ++ (b'@' ∷ c.mail_domain))

abbrev by_key : ApiKey → CurrentUser
by_key key = record { user_id = key.user_id; api_key_id = some key.id }

abbrev by_token : Result Token → Result (Option CurrentUser)
by_token (raised e) = raised e
by_token (ok t) = ok (some (record { user_id = t.user_id; api_key_id = none }))

module _ {M : Mongo} {R : Redis} (hash_key : Text → Text) (str_id : ℕ → Text) (J : Jwt)
    (c : Config) where
  abbrev pub token_user : ℕ → Option Text → Exec (World M R) (Option CurrentUser)
  token_user now none w = (ok none, w)
  token_user now (some token) w =
      if null token then (ok none, w) else (by_token (current_user M J now token w.db), w)

  abbrev pub key_or_token : ℕ → Option Text → Option ApiKey → Exec (World M R) (Option CurrentUser)
  key_or_token now token (some key) = pure (some (by_key key))
  key_or_token now token none = token_user now token

  unfoldable pub optional_current_user :
      ℕ → Option Text → Option Text → Exec (World M R) (Option CurrentUser)
  unfolding current_user resolve_api_key
  optional_current_user now key_header token =
      resolve_api_key hash_key str_id c now key_header >>= key_or_token now token

  -- The keys that are shown, and how many there may be.
  unfoldable pub list_keys : ℕ → World M R → List KeyView × ℕ
  unfolding public_key_view
  list_keys user_id w = (
    map (public_key_view c)
        (M.find_sorted (λ (k : ApiKey). k.id) (is_active_of user_id) w.db.api_keys),
    c.api_keys_per_user,
  )
