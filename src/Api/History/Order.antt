-- ===== src/Api/History/Order.antt =====
-- Reports in the order of their ids, newest first.
use mail_tester.Prelude.{
  ℕ, ◌≤◌, ◌<◌, arith, Bool, true, false, List, [], ◌∷◌, leb→le, ◌≢◌, leb, All, Bool-cases, inl, inr,
  if◌then◌else◌,
}
use mail_tester.Db.Mongo.Queries.{filter, newest_first, insert_newest}
use mail_tester.Db.Documents.{Analysis}
use mail_tester.Api.History.{id_of}

-- Ids go down along the list, strictly.
abbrev pub IsDescending : List Analysis → Type 0
IsDescending [] = Unit
IsDescending (a ∷ rest) = All (λ b. b.id < a.id) rest × IsDescending rest

filter-All :
    (P : Analysis → Type 0) (p : Analysis → Bool) (ds : List Analysis)
    → All P ds
    → All P (filter p ds)
filter-All P p [] h = tt
filter-All P p (d ∷ ds) h =
    elim (p d) as (λ b. All P (if b then d ∷ filter p ds else filter p ds)) [
      | true ↦ (h.0, filter-All P p ds h.1)
      | false ↦ filter-All P p ds h.1
    ]

pub filter-IsDescending :
    (p : Analysis → Bool) (ds : List Analysis) → IsDescending ds → IsDescending (filter p ds)
filter-IsDescending p [] h = tt
filter-IsDescending p (d ∷ ds) h =
    elim (p d) as (λ b. IsDescending (if b then d ∷ filter p ds else filter p ds)) [
      | true ↦ (filter-All (λ b. b.id < d.id) p ds h.0, filter-IsDescending p ds h.1)
      | false ↦ filter-IsDescending p ds h.1
    ]

insert-All :
    (P : Analysis → Type 0) (d : Analysis) (es : List Analysis)
    → P d
    → All P es
    → All P (insert_newest id_of d es)
insert-All P d [] p h = (p, tt)
insert-All P d (e ∷ es) p h =
    elim (leb e.id d.id) as (λ b. All P (if b then d ∷ e ∷ es else e ∷ insert_newest id_of d es)) [
      | true ↦ (p, h)
      | false ↦ (h.0, insert-All P d es p h.1)
    ]

newest_first-All :
    (P : Analysis → Type 0) (ds : List Analysis) → All P ds → All P (newest_first id_of ds)
newest_first-All P [] h = tt
newest_first-All P (d ∷ ds) h =
    insert-All P d (newest_first id_of ds) h.0 (newest_first-All P ds h.1)

below_trans :
    (x y : ℕ) (ds : List Analysis) → x ≤ y → All (λ b. b.id < x) ds → All (λ b. b.id < y) ds
below_trans x y [] h a = tt
below_trans x y (d ∷ ds) h a = (omega (arith, h, a.0), below_trans x y ds h a.1)

insert-IsDescending :
    (d : Analysis) (es : List Analysis)
    → All (λ e. e.id ≢ d.id) es
    → IsDescending es
    → IsDescending (insert_newest id_of d es)
insert-IsDescending d [] n h = (tt, tt)
insert-IsDescending d (e ∷ es) n h = elim (Bool-cases (leb e.id d.id)) [
  | inl y ↦ rw y ((ground (arith, n.0), below_trans e.id d.id es (leb→le e.id d.id y) h.0), h)
  | inr y ↦
      rw y (insert-All (λ b. b.id < e.id) d es (ground arith) h.0, insert-IsDescending d es n.1 h.1)
]

-- No two reports have one id.
abbrev pub IsDistinct : List Analysis → Type 0
IsDistinct [] = Unit
IsDistinct (a ∷ rest) = All (λ b. b.id ≢ a.id) rest × IsDistinct rest

pub filter-IsDistinct :
    (p : Analysis → Bool) (ds : List Analysis) → IsDistinct ds → IsDistinct (filter p ds)
filter-IsDistinct p [] h = tt
filter-IsDistinct p (d ∷ ds) h =
    elim (p d) as (λ b. IsDistinct (if b then d ∷ filter p ds else filter p ds)) [
      | true ↦ (filter-All (λ b. b.id ≢ d.id) p ds h.0, filter-IsDistinct p ds h.1)
      | false ↦ filter-IsDistinct p ds h.1
    ]

pub newest_first-IsDescending :
    (ds : List Analysis) → IsDistinct ds → IsDescending (newest_first id_of ds)
newest_first-IsDescending [] h = tt
newest_first-IsDescending (d ∷ ds) h =
    insert-IsDescending d (newest_first id_of ds) (newest_first-All (λ b. b.id ≢ d.id) ds h.0)
      (newest_first-IsDescending ds h.1)
