-- ===== src/Db/Mongo.antt =====
-- The part of pymongo that the program calls. It is not code of the repository: a value of `Mongo`
-- is the driver with its server, and `IsMongo` is what is relied on, in terms of the documents of a
-- collection in their natural order. A call is assumed to be answered.
pub mod Queries
pub mod Memory
pub mod Laws
use mail_tester.Prelude.{ℕ, ◌≡◌, Bool, Option, List, ◌∷◌, [], ◌++◌, any, if◌then◌else◌}
use Queries.{filter, first, newest, newest_first, modify_first, modify_all, remove_first, count}

pub record Mongo : Type 1 where
  pub Collection : Type 0 → Type 0
  pub docs : {D : Type 0} → Collection D → List D
  pub find : {D : Type 0} → (D → Bool) → Collection D → List D
  pub find_one : {D : Type 0} → (D → Bool) → Collection D → Option D
  -- `find(query).sort("_id", -1)` and `find_one(query, sort=[("_id", -1)])`
  pub find_sorted : {D : Type 0} → (D → ℕ) → (D → Bool) → Collection D → List D
  pub find_newest : {D : Type 0} → (D → ℕ) → (D → Bool) → Collection D → Option D
  pub count_documents : {D : Type 0} → (D → Bool) → Collection D → ℕ
  pub insert_one : {D : Type 0} → D → Collection D → Collection D
  -- With the number of documents that matched.
  pub update_one : {D : Type 0} → (D → Bool) → (D → D) → Collection D → Collection D × ℕ
  pub update_many : {D : Type 0} → (D → Bool) → (D → D) → Collection D → Collection D
  pub delete_one : {D : Type 0} → (D → Bool) → Collection D → Collection D

pub record IsMongo (M : Mongo) : Type 1 where
  pub find-docs :
      {D : Type 0} (p : D → Bool) (c : M.Collection D) → M.find p c ≡ filter p (M.docs c)
  pub find_one-docs :
      {D : Type 0} (p : D → Bool) (c : M.Collection D) → M.find_one p c ≡ first p (M.docs c)
  pub find_sorted-docs :
      {D : Type 0} (key : D → ℕ) (p : D → Bool) (c : M.Collection D)
      → M.find_sorted key p c ≡ newest_first key (filter p (M.docs c))
  pub find_newest-docs :
      {D : Type 0} (key : D → ℕ) (p : D → Bool) (c : M.Collection D)
      → M.find_newest key p c ≡ newest key (filter p (M.docs c))
  pub count_documents-docs :
      {D : Type 0} (p : D → Bool) (c : M.Collection D) → M.count_documents p c ≡ count p (M.docs c)
  pub docs-insert_one :
      {D : Type 0} (d : D) (c : M.Collection D) → M.docs (M.insert_one d c) ≡ M.docs c ++ d ∷ []
  pub docs-update_one :
      {D : Type 0} (p : D → Bool) (f : D → D) (c : M.Collection D)
      → M.docs (M.update_one p f c).0 ≡ modify_first p f (M.docs c)
  pub matched-update_one :
      {D : Type 0} (p : D → Bool) (f : D → D) (c : M.Collection D)
      → (M.update_one p f c).1 ≡ (if any p (M.docs c) then 1 else 0)
  pub docs-update_many :
      {D : Type 0} (p : D → Bool) (f : D → D) (c : M.Collection D)
      → M.docs (M.update_many p f c) ≡ modify_all p f (M.docs c)
  pub docs-delete_one :
      {D : Type 0} (p : D → Bool) (c : M.Collection D)
      → M.docs (M.delete_one p c) ≡ remove_first p (M.docs c)
