-- ===== src/Api/History/Follow.antt =====
-- `src/api/history.py`: what a client sees that follows the cursors.
use mail_tester.Prelude.{
  ℕ, zero, suc, ◌+◌, ◌≤◌, ◌<◌, ◌≡◌, refl, sym, ap, ◌∙◌, arith, true, false, Option, none, some,
  List, [], ◌∷◌, ◌++◌, take, drop, take-append-drop, length, ltb→lt, ltb, All, Bool-cases, inl, inr,
  if◌then◌else◌,
}
use mathlib.Core.Path.{subst}
use mail_tester.Db.Mongo.{Mongo, IsMongo}
use mail_tester.Db.Mongo.Queries.{filter, newest_first}
use mail_tester.Db.Redis.{Redis}
use mail_tester.Db.Documents.{Analysis}
use mail_tester.Exec.{World}
use mail_tester.Api.History.{id_of, is_owned, is_before, Page, last_id, page_of, read_page}
use mail_tester.Api.History.Order.{
  IsDescending, IsDistinct, newest_first-IsDescending, filter-IsDistinct, filter-IsDescending,
}
use mail_tester.Api.History.Pages.{
  below-filter, last_below, before_last, before_before, newest_first-before, filter-both,
  take-whole, length-drop, has_last, reports-page_of, next_cursor-page_of,
}

-- A client that follows the cursors, for at most so many pages.
module _ {M : Mongo} {R : Redis} (user_id size : ℕ) (w : World M R) where
  unfoldable pub follow : ℕ → Option ℕ → List Analysis
  follow zero before = []
  follow (suc pages) before =
      let page = read_page user_id size before w in
      elim page.next_cursor [
        | none ↦ page.reports
        | some cursor ↦ page.reports ++ follow pages (some cursor)
      ]

-- The reports of a user, newest first.
abbrev pub reports_of : {M : Mongo} {R : Redis} → ℕ → World M R → List Analysis
reports_of {M} user_id w = newest_first id_of (filter (is_owned user_id) (M.docs w.db.analyses))

before_none : (ds : List Analysis) → filter (is_before none) ds ≡ ds
before_none [] = refl
before_none (d ∷ ds) = rw (before_none ds)

module _ (M : Mongo) (L : IsMongo M) (R : Redis) (user_id k : ℕ) (w : World M R) where
  abbrev left : Option ℕ → List Analysis
  left before = filter (is_before before) (reports_of user_id w)

  read_page-left :
      (before : Option ℕ)
      → read_page user_id (suc k) before w ≡ page_of (suc k) (take (suc k + 1) (left before))
  unfolding read_page
  read_page-left before =
      ap (λ ds. page_of (suc k) (take (suc k + 1) ds))
        (L.find_sorted-docs id_of _ w.db.analyses
          ∙ (ap (newest_first id_of)
                (filter-both (is_owned user_id) (is_before before) (M.docs w.db.analyses))
              ∙ newest_first-before before (filter (is_owned user_id) (M.docs w.db.analyses))))

  -- After the cursor of a page that is not the last, what is left is what was left, less the page.
  left-cursor :
      IsDescending (reports_of user_id w)
      → (before : Option ℕ) (cursor : ℕ) → suc k < length (left before)
      → last_id (take (suc k) (left before)) ≡ some cursor
      → left (some cursor) ≡ drop (suc k) (left before)
  left-cursor desc before cursor more e =
      sym (
        before_before before cursor (reports_of user_id w) (λ x b.
          last_below x (suc k) cursor (left before)
            (subst (λ o. All (λ a. a.id < x) (filter (is_before o) (reports_of user_id w))) (sym b)
              (below-filter x (reports_of user_id w)))
            e))
      ∙ before_last k cursor (left before)
          (filter-IsDescending (is_before before) (reports_of user_id w) desc) (omega (arith, more))
          e

  reports-read_page :
      (before : Option ℕ)
      → (read_page user_id (suc k) before w).reports ≡ take (suc k) (left before)
  reports-read_page before =
      ap (λ (p : Page). p.reports) (read_page-left before) ∙ reports-page_of (suc k) (left before)

  next_cursor-read_page :
      (before : Option ℕ)
      → (read_page user_id (suc k) before w).next_cursor ≡ (
          if ltb (suc k) (length (left before)) then last_id (take (suc k) (left before)) else none)
  next_cursor-read_page before =
      ap (λ (p : Page). p.next_cursor) (read_page-left before)
      ∙ next_cursor-page_of (suc k) (left before)

  last_page :
      (pages : ℕ) (before : Option ℕ)
      → ltb (suc k) (length (left before)) ≡ false
      → follow user_id (suc k) w (suc pages) before ≡ left before
  unfolding follow
  last_page pages before e =
      rw (follow, next_cursor-read_page before, e)
        (reports-read_page before ∙ take-whole (suc k) (left before) (ground arith))

  inner_page :
      (pages cursor : ℕ) (before : Option ℕ)
      → ltb (suc k) (length (left before)) ≡ true
      → last_id (take (suc k) (left before)) ≡ some cursor
      → follow user_id (suc k) w (suc pages) before
        ≡ take (suc k) (left before) ++ follow user_id (suc k) w pages (some cursor)
  unfolding follow
  inner_page pages cursor before e c =
      rw (follow, next_cursor-read_page before, e, c, reports-read_page before) refl

  follow-left :
      IsDescending (reports_of user_id w)
      → (pages : ℕ) (before : Option ℕ) → length (left before) ≤ pages
      → follow user_id (suc k) w pages before ≡ left before
  unfolding follow
  follow-left desc zero before h = take-whole zero (left before) h
  follow-left desc (suc pages) before h = elim (Bool-cases (ltb (suc k) (length (left before)))) [
    | inr e ↦ last_page pages before e
    | inl e ↦
        let (cursor, c) = last_of (left before) (ground arith) in
        let rest = left-cursor desc before cursor (ltb→lt (suc k) (length (left before)) e) c in
        inner_page pages cursor before e c
        ∙ (ap (λ ds. take (suc k) (left before) ++ ds)
              (follow-left desc pages (some cursor)
                  (ground (arith, ap length rest, length-drop (suc k) (left before)))
                ∙ rest)
            ∙ take-append-drop (suc k) (left before))
  ]
    where
      last_of :
          (ds : List Analysis) → 1 ≤ length ds → (c : ℕ) × (last_id (take (suc k) ds) ≡ some c)
      last_of [] h = absurd (omega (arith, h))
      last_of (d ∷ ds) h = has_last k d ds

  -- A client that follows the cursors from the start, with pages of any size above 0, sees every report
  -- of its user exactly once, newest first, and no other, if no two reports have one id. As many pages
  -- as there are reports are enough.
  pub follow-reports_of :
      IsDistinct (M.docs w.db.analyses)
      → (pages : ℕ) → length (reports_of user_id w) ≤ pages
      → follow user_id (suc k) w pages none ≡ reports_of user_id w
  follow-reports_of distinct pages h =
      follow-left
        (newest_first-IsDescending (filter (is_owned user_id) (M.docs w.db.analyses))
          (filter-IsDistinct (is_owned user_id) (M.docs w.db.analyses) distinct))
        pages none (subst (λ ds. length ds ≤ pages) (sym (before_none (reports_of user_id w))) h)
      ∙ before_none (reports_of user_id w)
