-- ===== src/Worker/Tasks/Ledger.antt =====
-- The events and the reports on them, as `src/worker/tasks.py` keeps them in two collections.
use mathlib.Core.Path.{subst}
use mail_tester.Prelude.{
  ℕ, suc, ◌+◌, ◌-◌, ◌≤◌, ◌≡◌, refl, ◌∙◌, sym, arith, Bool, true, false, none, some, List, [], ◌∷◌,
  ◌++◌, ◌==◌, ◌&&◌, not, any, is_some, ◌||◌, ==_iff, Bool-cases, inl, inr, if◌then◌else◌,
}
use mail_tester.Db.Documents.{MailEvent, Analysis}
use mail_tester.Db.Mongo.Queries.{
  count, modify_first, count-modify_first, any-modify_first, count-append, any-append,
}

abbrev pub has_id : ℕ → MailEvent → Bool
has_id n e = e.id == n

abbrev pub is_started : ℕ → MailEvent → Bool
is_started n e = e.id == n && is_some e.analysis_started_at

abbrev pub is_free : ℕ → MailEvent → Bool
is_free n e = e.id == n && not (is_some e.analysis_started_at)

abbrev pub reports_on : ℕ → Analysis → Bool
reports_on n a = a.mail_event_id == n

-- Ids are unique, a claimed event has at most one report and any other has none, and no id from
-- `next_id` on is in use.
pub record IsSound (events : List MailEvent) (analyses : List Analysis) (next_id : ℕ) : Type 0 where
  pub unique : (n : ℕ) → count (has_id n) events ≤ 1
  pub reported :
      (n : ℕ) → count (reports_on n) analyses ≤ (if any (is_started n) events then 1 else 0)
  pub unused :
      (k : ℕ)
      → (count (has_id (next_id + k)) events ≡ 0) × (count (reports_on (next_id + k)) analyses ≡ 0)

-- The same with the cases of `reported` and the range of `unused` written as hypotheses.
module _ {es : List MailEvent} {rs : List Analysis} {next : ℕ} where
  IsSound-intro :
      ((n : ℕ) → count (has_id n) es ≤ 1)
      → ((n : ℕ) → any (is_started n) es ≡ false → count (reports_on n) rs ≡ 0)
      → ((n : ℕ) → count (reports_on n) rs ≤ 1)
      → ((n : ℕ) → next ≤ n → (count (has_id n) es ≡ 0) × (count (reports_on n) rs ≡ 0))
      → IsSound es rs next
  IsSound-intro u c o f = record {
    unique = u;
    reported = λ n. elim (Bool-cases (any (is_started n) es)) [
      | inl e ↦ rw e (o n)
      | inr e ↦ rw (e, c n e) (omega arith)
    ];
    unused = λ k. f (next + k) (omega arith);
  }

  module _ (S : IsSound es rs next) where
    claimed : (n : ℕ) → any (is_started n) es ≡ false → count (reports_on n) rs ≡ 0
    claimed n h = ground (arith, S.reported n)

    pub once : (n : ℕ) → count (reports_on n) rs ≤ 1
    once n = ground (arith, S.reported n)

    unused : (n : ℕ) → next ≤ n → (count (has_id n) es ≡ 0) × (count (reports_on n) rs ≡ 0)
    unused n h =
        subst (λ m. (count (has_id m) es ≡ 0) × (count (reports_on m) rs ≡ 0)) (omega arith)
          (S.unused (n - next))

no_start : (n : ℕ) (es : List MailEvent) → count (has_id n) es ≡ 0 → any (is_started n) es ≡ false
no_start n [] h = refl
no_start n (e ∷ es) h = ground (arith, no_start n es)

free_present : (n : ℕ) (es : List MailEvent) → any (is_free n) es ≡ true → 1 ≤ count (has_id n) es
free_present n [] h = cc
free_present n (e ∷ es) h = ground (arith, free_present n es)

-- One document of the id is either free or started.
not_started_of_free :
    (n : ℕ) (es : List MailEvent)
    → count (has_id n) es ≤ 1
    → any (is_free n) es ≡ true
    → any (is_started n) es ≡ false
not_started_of_free n [] u h = refl
not_started_of_free n (e ∷ es) u h =
    ground (arith, not_started_of_free n es, no_start n es, free_present n es)

started_present :
    (n : ℕ) (es : List MailEvent) → any (is_started n) es ≡ true → 1 ≤ count (has_id n) es
started_present n [] h = cc
started_present n (e ∷ es) h = ground (arith, started_present n es)

-- The claim of an event, and its release.
abbrev pub claim : ℕ → MailEvent → MailEvent
claim now e = record e { analysis_started_at = some now }

pub started-claim :
    (m now : ℕ) (es : List MailEvent)
    → any (is_free m) es ≡ true
    → any (is_started m) (modify_first (is_free m) (claim now) es) ≡ true
started-claim m now [] h = cc
started-claim m now (e ∷ es) h = ground (arith, started-claim m now es)

claim_keeps :
    (m n now : ℕ) (es : List MailEvent)
    → any (is_started n) (modify_first (is_free m) (claim now) es) ≡ false
    → any (is_started n) es ≡ false
claim_keeps m n now [] h = refl
claim_keeps m n now (e ∷ es) h = ground (arith, claim_keeps m n now es)

module _ (f : MailEvent → MailEvent) (i : (e : MailEvent) → (f e).id ≡ e.id) where
  started_elsewhere :
      (m n : ℕ) (es : List MailEvent)
      → (m == n) ≡ false
      → any (is_started n) (modify_first (has_id m) f es) ≡ any (is_started n) es
  started_elsewhere m n [] h = refl
  started_elsewhere m n (e ∷ es) h = ground (arith, i e, started_elsewhere m n es)

module _ {es : List MailEvent} {rs : List Analysis} {next : ℕ} (S : IsSound es rs next) where
  -- Ids may be skipped.
  pub weaken-IsSound : IsSound es rs (suc next)
  weaken-IsSound = IsSound-intro S.unique (claimed S) (once S) (λ n h. unused S n (omega arith))

  -- An update that keeps the id and the claim.
  pub touch-IsSound :
      (p : MailEvent → Bool) (f : MailEvent → MailEvent)
      → ((e : MailEvent) → (f e).id ≡ e.id)
      → ((e : MailEvent) → (f e).analysis_started_at ≡ e.analysis_started_at)
      → IsSound (modify_first p f es) rs next
  touch-IsSound p f i s =
      IsSound-intro (λ n. rw (count-modify_first p f (has_id n) (λ e. rw (i e)) es) (S.unique n))
        (λ n h. claimed S n (sym (any-modify_first p f (is_started n) (λ e. rw (i e, s e)) es) ∙ h))
        (once S)
        (λ n h. (
          rw (count-modify_first p f (has_id n) (λ e. rw (i e)) es) (unused S n h).0,
          (unused S n h).1,
        ))

  pub claim-IsSound : (m now : ℕ) → IsSound (modify_first (is_free m) (claim now) es) rs next
  claim-IsSound m now =
      IsSound-intro
        (λ n.
          rw (count-modify_first (is_free m) (claim now) (has_id n) (λ e. refl) es) (S.unique n))
        (λ n h. claimed S n (claim_keeps m n now es h)) (once S)
        (λ n h. (
          rw (count-modify_first (is_free m) (claim now) (has_id n) (λ e. refl) es)
              (unused S n h).0,
          (unused S n h).1,
        ))

  pub unreported_of_free : (m : ℕ) → any (is_free m) es ≡ true → count (reports_on m) rs ≡ 0
  unreported_of_free m h = claimed S m (not_started_of_free m es (S.unique m) h)

  -- Releasing an event that has no report.
  pub release-IsSound :
      (m : ℕ) (f : MailEvent → MailEvent)
      → ((e : MailEvent) → (f e).id ≡ e.id)
      → count (reports_on m) rs ≡ 0
      → IsSound (modify_first (has_id m) f es) rs next
  release-IsSound m f i none_yet =
      IsSound-intro
        (λ n. rw (count-modify_first (has_id m) f (has_id n) (λ e. rw (i e)) es) (S.unique n))
        (λ n h. elim (Bool-cases (m == n)) [
          | inl same ↦ subst (λ k. count (reports_on k) rs ≡ 0) ((==_iff m n).0 same) none_yet
          | inr other ↦ claimed S n (sym (started_elsewhere f i m n es other) ∙ h)
        ])
        (once S)
        (λ n h. (
          rw (count-modify_first (has_id m) f (has_id n) (λ e. rw (i e)) es) (unused S n h).0,
          (unused S n h).1,
        ))

  -- The first report on a claimed event.
  pub report-IsSound :
      (m : ℕ) (r : Analysis)
      → r.mail_event_id ≡ m
      → count (reports_on m) rs ≡ 0
      → any (is_started m) es ≡ true
      → IsSound es (rs ++ r ∷ []) (suc next)
  report-IsSound m r about none_yet started =
      IsSound-intro (S.unique)
        (λ n h. rw (count-append (reports_on n) rs (r ∷ [])) (ground (arith, claimed S n h)))
        (λ n. rw (count-append (reports_on n) rs (r ∷ [])) (ground (arith, once S n)))
        (λ n h. (
          (unused S n (omega arith)).0,
          rw (count-append (reports_on n) rs (r ∷ []))
              (ground (arith, unused S n, started_present m es started)),
        ))

  -- A new event, under an id that was never used.
  pub store-IsSound :
      (e : MailEvent)
      → e.id ≡ suc next
      → e.analysis_started_at ≡ none
      → IsSound (es ++ e ∷ []) rs (suc (suc next))
  store-IsSound e new free =
      IsSound-intro
        (λ n. rw (count-append (has_id n) es (e ∷ [])) (ground (arith, S.unique n, unused S n)))
        (λ n h. claimed S n (before n (sym (any-append (is_started n) es (e ∷ [])) ∙ h))) (once S)
        (λ n h. (
          rw (count-append (has_id n) es (e ∷ [])) (ground (arith, unused S n)),
          (unused S n (omega arith)).1,
        ))
    where
      before :
          (n : ℕ)
          → (any (is_started n) es || any (is_started n) (e ∷ [])) ≡ false
          → any (is_started n) es ≡ false
      before n h = ground arith
