-- ===== src/Db/Mongo/Laws.antt =====
-- What follows from the laws of the driver for a query after an update.
use mathlib.Core.Option
use mail_tester.Prelude.{◌≡◌, ◌∙◌, Bool, if◌then◌else◌, is_some}
use mail_tester.Db.Mongo.{Mongo, IsMongo}
use mail_tester.Db.Mongo.Queries.{first-modify_first, any-first}

module _ (M : Mongo) (L : IsMongo M) {D : Type 0} where
  pub find_one-update_one :
      (p : D → Bool) (f : D → D) (c : M.Collection D)
      → ((d : D) → p (f d) ≡ p d)
      → M.find_one p (M.update_one p f c).0 ≡ Option.map f (M.find_one p c)
  find_one-update_one p f c h =
      L.find_one-docs p (M.update_one p f c).0
      ∙ rw (L.docs-update_one, L.find_one-docs, first-modify_first p f (M.docs c) h)

  pub matched-find_one :
      (p : D → Bool) (f : D → D) (c : M.Collection D)
      → (M.update_one p f c).1 ≡ (if is_some (M.find_one p c) then 1 else 0)
  matched-find_one p f c = rw (L.matched-update_one, L.find_one-docs, any-first p (M.docs c))
