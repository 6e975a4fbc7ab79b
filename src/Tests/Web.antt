-- ===== src/Tests/Web.antt =====
-- Tests of `src/api/main.py`, `src/api/functions.py` and the limiter of `src/api/rate_limit.py`.
use mail_tester.Prelude.{
  ℕ, ◌≡◌, ◌≤◌, ◌+◌, ◌*◌, refl, arith, true, false, none, some, List, [], ◌∷◌, ◌++◌, All, Text,
  codes, null, strip, is_space, ◌=ᵗ◌, join, has_char,
}
use mail_tester.Time.{second}
use mail_tester.Db.Redis.Memory.{memory, memory-IsRedis, memory-IsUp}
use mail_tester.Api.WebFiles.{Reply, response, raises, get_response}
use mail_tester.Api.WebFiles.Hidden.{IsName, get_response_hidden}
use mail_tester.Api.RateLimit.Limiter.{
  Limiter, Asked, ask, answers_of, hits, Holds, hits-answers_of,
}
use mail_tester.Api.RateLimit.Progress.{hits_last}
use mail_tester.Api.Identity.{optional_current_user}
use mail_tester.Api.Identity.Precedence.{optional_current_user_precedence}
use mail_tester.Api.Tokens.{Jwt, payload}
use mail_tester.Tests.Data.{conf, some_world, no_keys}

abbrev static : Text → Reply
static path = response []

abbrev web : List Text
web = codes "app" ∷ []

names-IsName : All IsName web
unfolding has_char
names-IsName = (refl, tt)

git-IsName : IsName (codes "git")
unfolding has_char
git-IsName = refl

get_response_hidden_example :
    get_response static (join b'/' (web ++ (b'.' ∷ codes "git") ∷ web)) ≡ raises 404
get_response_hidden_example =
    get_response_hidden static web web b'g' (codes "it") names-IsName git-IsName names-IsName

abbrev asked : List Asked
asked =
    record { now = 5; key = codes "k"; limit = 1; window = 60 }
    ∷ record { now = 6; key = codes "k"; limit = 1; window = 60 }
    ∷ record { now = 7; key = codes "j"; limit = 1; window = 60 }
    ∷ []

abbrev no_windows : Limiter
no_windows key = none

empty-Holds : Holds memory no_windows no_keys
empty-Holds = record { entries = λ j. refl }

hits-answers_of_example : hits memory asked no_keys ≡ answers_of asked no_windows
hits-answers_of_example =
    hits-answers_of memory memory-IsRedis memory-IsUp asked no_windows no_keys empty-Holds

asked_refused : answers_of asked no_windows ≡ true ∷ false ∷ true ∷ []
unfolding answers_of ask ◌=ᵗ◌
asked_refused = refl

asked_before : All (λ p. p.now + p.window * second ≤ 60000007) asked
asked_before = (omega arith, (omega arith, (omega arith, tt)))

abbrev later : Asked
later = record { now = 60000007; key = codes "k"; limit = 1; window = 60 }

hits_last_example :
    hits memory (asked ++ later ∷ []) no_keys ≡ hits memory asked no_keys ++ true ∷ []
hits_last_example =
    hits_last memory memory-IsRedis memory-IsUp asked later no_windows no_keys empty-Holds
      (omega arith) asked_before tt

abbrev jwt : Jwt
jwt = record { encode = λ user exp. []; decode = λ now token. payload (some 7) }

abbrev str_id : ℕ → Text
str_id id = id ∷ []

key_given : null (strip is_space (codes "mt_1")) ≡ false
unfolding strip
key_given = refl

optional_current_user_precedence_example :
    optional_current_user
      (λ t. t)
      str_id
      jwt
      conf
      5
      (some (codes "mt_1"))
      (some (codes "token"))
      some_world
    ≡ optional_current_user (λ t. t) str_id jwt conf 5 (some (codes "mt_1")) none some_world
optional_current_user_precedence_example =
    optional_current_user_precedence (λ t. t) str_id jwt conf 5 (codes "mt_1")
      (some (codes "token")) none some_world key_given
