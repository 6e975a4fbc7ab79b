-- ===== src/Db/Mongo/Memory.antt =====
-- The driver over collections that are lists: what is assumed of it can be met.
use mail_tester.Prelude.{refl, List, [], ◌∷◌, ◌++◌, any, if◌then◌else◌}
use mail_tester.Db.Mongo.{Mongo, IsMongo}
use mail_tester.Db.Mongo.Queries.{
  filter, first, newest, newest_first, modify_first, modify_all, remove_first, count,
}

abbrev pub memory : Mongo
memory = record {
  Collection = List;
  docs = λ c. c;
  find = λ p c. filter p c;
  find_one = λ p c. first p c;
  find_sorted = λ key p c. newest_first key (filter p c);
  find_newest = λ key p c. newest key (filter p c);
  count_documents = λ p c. count p c;
  insert_one = λ d c. c ++ d ∷ [];
  update_one = λ p f c. (modify_first p f c, if any p c then 1 else 0);
  update_many = λ p f c. modify_all p f c;
  delete_one = λ p c. remove_first p c;
}

pub memory-IsMongo : IsMongo memory
memory-IsMongo = record {
  find-docs = λ p c. refl;
  find_one-docs = λ p c. refl;
  find_sorted-docs = λ key p c. refl;
  find_newest-docs = λ key p c. refl;
  count_documents-docs = λ p c. refl;
  docs-insert_one = λ d c. refl;
  docs-update_one = λ p f c. refl;
  matched-update_one = λ p f c. refl;
  docs-update_many = λ p f c. refl;
  docs-delete_one = λ p c. refl;
}
