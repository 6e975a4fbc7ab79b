-- ===== src/Api/History.antt =====
-- `src/api/history.py`. The reports of a page are its documents: `summary_view` and the renaming of the
-- id in `get_report` only choose fields of a document for the answer.
pub mod Order
pub mod Pages
pub mod Follow
use mail_tester.Prelude.{
  ℕ, ◌+◌, Bool, true, false, ◌&&◌, Option, none, some, List, [], ◌∷◌, Text, codes, take, length,
  ltb, ◌==◌, ℤ, pos, negsuc, min, max, if◌then◌else◌,
}
use mail_tester.Config.{Config}
use mail_tester.Db.Mongo.{Mongo}
use mail_tester.Db.Redis.{Redis}
use mail_tester.Db.Documents.{Analysis}
use mail_tester.Exec.{World, Exec, ok, raised, http, pure, raise, gets, ◌>>=◌, ◌>>◌}
use mail_tester.Api.RateLimit.{enforce}
use mail_tester.Api.Requests.{CurrentUser, IdText, object_id, invalid}

-- The id of a report, by which reports are sorted.
abbrev pub id_of : Analysis → ℕ
id_of a = a.id

abbrev is_user : ℕ → Option ℕ → Bool
is_user user_id none = false
is_user user_id (some owner) = owner == user_id

abbrev pub is_owned : ℕ → Analysis → Bool
is_owned user_id a = is_user user_id a.owner_user_id

abbrev pub is_before : Option ℕ → Analysis → Bool
is_before none a = true
is_before (some cursor) a = ltb a.id cursor

-- `int(limit or HISTORY_PAGE_SIZE)`, where 0 stands for a number below zero too: both give one report.
abbrev asked : Config → ℤ → ℕ
asked c (pos n) = if n == 0 then c.history_page_size else n
asked c (negsuc n) = 0

unfoldable pub page_size : Config → ℤ → ℕ
page_size c limit = max 1 (min (asked c limit) c.history_max_page_size)

pub record Page : Type 0 where
  pub reports : List Analysis
  pub next_cursor : Option ℕ

abbrev pub last_id : List Analysis → Option ℕ
last_id [] = none
last_id (a ∷ []) = some a.id
last_id (a ∷ b ∷ rest) = last_id (b ∷ rest)

-- What is made of the documents that the query gives.
unfoldable pub page_of : ℕ → List Analysis → Page
page_of size documents =
    let reports = take size documents in
    record {
      reports = reports;
      next_cursor = if ltb size (length documents) then last_id reports else none;
    }

module _ {M : Mongo} {R : Redis} where
  -- The query; its `limit` takes one report more than the page has.
  unfoldable pub read_page : ℕ → ℕ → Option ℕ → World M R → Page
  unfolding page_of
  read_page user_id size before w = page_of size (
      take (size + 1)
        (M.find_sorted id_of (λ a. is_owned user_id a && is_before before a) w.db.analyses))

  module _ (str_id : ℕ → Text) (c : Config) where
    abbrev pub require_user : Option CurrentUser → Exec (World M R) ℕ
    require_user none = raise (http 401 "Authentication required")
    require_user (some u) = pure u.user_id

    abbrev pub limited : ℕ → ℕ → Exec (World M R) (Unit {0})
    limited now user_id =
        enforce now (codes "history") (some (str_id user_id)) c.read_rate_limit c.read_rate_window

    abbrev pub list_before : ℕ → ℤ → Option IdText → Exec (World M R) Page
    list_before user_id limit none = gets (read_page user_id (page_size c limit) none)
    list_before user_id limit (some (object_id id)) =
        gets (read_page user_id (page_size c limit) (some id))
    list_before user_id limit (some invalid) = raise (http 400 "Invalid cursor")

    unfoldable pub list_history : ℕ → ℤ → Option IdText → Option CurrentUser → Exec (World M R) Page
    unfolding enforce read_page page_size
    list_history now limit before current_user = do
      user_id ← require_user current_user
      limited now user_id
      list_before user_id limit before

    abbrev pub found_report : Option Analysis → Exec (World M R) Analysis
    found_report none = raise (http 404 "Report not found")
    found_report (some a) = pure a

    abbrev pub report_of : ℕ → IdText → Exec (World M R) Analysis
    report_of user_id invalid w = (raised (http 400 "Invalid report id"), w)
    report_of user_id (object_id id) w =
        found_report (M.find_one (λ (a : Analysis). a.id == id && is_owned user_id a) w.db.analyses)
          w

    unfoldable pub get_report : ℕ → IdText → Option CurrentUser → Exec (World M R) Analysis
    unfolding enforce
    get_report now report_id current_user = do
      user_id ← require_user current_user
      limited now user_id
      report_of user_id report_id
