-- ===== src/Api/History/Pages.antt =====
-- `src/api/history.py`: what one page takes from the reports that are left.
use mail_tester.Prelude.{
  ℕ, zero, suc, ◌+◌, ◌-◌, ◌≤◌, ◌<◌, ◌≡◌, refl, ap, arith, Bool, ◌&&◌, Option, none, some, List, [],
  ◌∷◌, take, drop, length, length-take, ltb→lt, ltb, All, Bool-cases, inl, inr, if◌then◌else◌,
}
use mathlib.Core.Option.{some-injective}
use mail_tester.Db.Mongo.Queries.{filter, newest_first, insert_newest}
use mail_tester.Db.Documents.{Analysis}
use mail_tester.Api.History.{id_of, is_before, last_id, page_of}
use mail_tester.Api.History.Order.{IsDescending}

whole_before :
    (x : ℕ) (ds : List Analysis) → All (λ b. b.id < x) ds → filter (is_before (some x)) ds ≡ ds
whole_before x [] h = refl
whole_before x (d ∷ ds) h = ground (arith, whole_before x ds h.1, h.0)

pub last_below :
    (x n cursor : ℕ) (ds : List Analysis)
    → All (λ b. b.id < x) ds
    → last_id (take n ds) ≡ some cursor
    → cursor < x
last_below x zero cursor ds h e = ground arith
last_below x (suc n) cursor [] h e = ground arith
last_below x (suc zero) cursor (d ∷ ds) h e = ground (arith, h.0, some-injective d.id cursor e)
last_below x (suc (suc n)) cursor (d ∷ []) h e = ground (arith, h.0, some-injective d.id cursor e)
last_below x (suc (suc n)) cursor (d ∷ b ∷ ds) h e = last_below x (suc n) cursor (b ∷ ds) h.1 e

-- A cursor cuts a descending list after the page that it ends.
pub before_last :
    (n cursor : ℕ) (ds : List Analysis)
    → IsDescending ds
    → n < length ds
    → last_id (take (suc n) ds) ≡ some cursor
    → filter (is_before (some cursor)) ds ≡ drop (suc n) ds
before_last n cursor [] desc h e = ground arith
before_last zero cursor (d ∷ ds) desc h e =
    ground (arith, whole_before d.id ds desc.0, some-injective d.id cursor e)
before_last (suc n) cursor (d ∷ []) desc h e = ground arith
before_last (suc n) cursor (d ∷ b ∷ ds) desc h e = ground (
  arith,
  last_below d.id (suc n) cursor (b ∷ ds) desc.0 e,
  before_last n cursor (b ∷ ds) desc.1 (omega (arith, h)) e,
)

-- An earlier cursor does not matter after a later one.
pub before_before :
    (before : Option ℕ) (cursor : ℕ) (ds : List Analysis)
    → ((x : ℕ) → before ≡ some x → cursor < x)
    → filter (is_before (some cursor)) (filter (is_before before) ds)
      ≡ filter (is_before (some cursor)) ds
before_before none cursor [] h = refl
before_before (some x) cursor [] h = refl
before_before none cursor (d ∷ ds) h = ground (arith, before_before none cursor ds h)
before_before (some x) cursor (d ∷ ds) h =
    ground (arith, h x refl, before_before (some x) cursor ds h)

-- The sort and the cursor's filter commute.
insert-before :
    (before : Option ℕ) (d : Analysis) (ds : List Analysis)
    → filter (is_before before) (insert_newest id_of d ds) ≡ (
        if is_before before d
        then insert_newest id_of d (filter (is_before before) ds)
        else filter (is_before before) ds)
insert-before none d [] = refl
insert-before (some x) d [] = ground arith
insert-before none d (e ∷ es) = ground (arith, insert-before none d es)
insert-before (some x) d (e ∷ es) = ground (arith, insert-before (some x) d es)

pub newest_first-before :
    (before : Option ℕ) (ds : List Analysis)
    → newest_first id_of (filter (is_before before) ds)
      ≡ filter (is_before before) (newest_first id_of ds)
newest_first-before before [] = refl
newest_first-before before (d ∷ ds) =
    ground (arith, insert-before before d (newest_first id_of ds), newest_first-before before ds)

pub filter-both :
    (p q : Analysis → Bool) (ds : List Analysis)
    → filter (λ a. p a && q a) ds ≡ filter q (filter p ds)
filter-both p q [] = refl
filter-both p q (d ∷ ds) = ground (arith, filter-both p q ds)

take-take : (n m : ℕ) (ds : List Analysis) → n ≤ m → take n (take m ds) ≡ take n ds
take-take zero m ds h = refl
take-take (suc n) zero ds h = ground arith
take-take (suc n) (suc m) [] h = refl
take-take (suc n) (suc m) (d ∷ ds) h = rw (take-take n m ds (omega (arith, h)))

pub take-whole : (n : ℕ) (ds : List Analysis) → length ds ≤ n → take n ds ≡ ds
take-whole zero [] h = refl
take-whole zero (d ∷ ds) h = ground arith
take-whole (suc n) [] h = refl
take-whole (suc n) (d ∷ ds) h = rw (take-whole n ds (omega (arith, h)))

pub length-drop : (n : ℕ) (ds : List Analysis) → length (drop n ds) ≡ length ds - n
length-drop zero ds = omega arith
length-drop (suc n) [] = omega arith
length-drop (suc n) (d ∷ ds) = omega (arith, length-drop n ds)

pub has_last :
    (n : ℕ) (d : Analysis) (ds : List Analysis)
    → (c : ℕ) × (last_id (take (suc n) (d ∷ ds)) ≡ some c)
has_last zero d ds = (d.id, refl)
has_last (suc n) d [] = (d.id, refl)
has_last (suc n) d (e ∷ ds) = has_last n e ds

module _ (size : ℕ) (ds : List Analysis) where
  pub reports-page_of : (page_of size (take (size + 1) ds)).reports ≡ take size ds
  unfolding page_of
  reports-page_of = take-take size (size + 1) ds (omega arith)

  pub next_cursor-page_of :
      (page_of size (take (size + 1) ds)).next_cursor
      ≡ (if ltb size (length ds) then last_id (take size ds) else none)
  unfolding page_of
  next_cursor-page_of = rw (take-take size (size + 1) ds (omega arith)) (
      ap (λ b. if b then last_id (take size ds) else none)
        (ground (arith, length-take (size + 1) ds)))

pub below-filter :
    (x : ℕ) (ds : List Analysis) → All (λ a. a.id < x) (filter (is_before (some x)) ds)
below-filter x [] = tt
below-filter x (d ∷ ds) = elim (Bool-cases (ltb d.id x)) [
  | inl e ↦ rw e (ltb→lt d.id x e, below-filter x ds)
  | inr e ↦ rw e (below-filter x ds)
]
