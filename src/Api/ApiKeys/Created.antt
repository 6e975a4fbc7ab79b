-- ===== src/Api/ApiKeys/Created.antt =====
-- `src/api/api_keys.py`: what a new key is good for.
use mail_tester.Prelude.{
  ℕ, ◌≡◌, refl, sym, ap, ◌∙◌, Bool, true, false, Option, none, some, [], ◌∷◌, Text, =ᵗ_refl,
  if◌then◌else◌,
}
use mathlib.Core.Path.{subst}
use mail_tester.Config.{Config}
use mail_tester.Db.Mongo.{Mongo, IsMongo}
use mail_tester.Db.Mongo.Queries.{first-append_none}
use mail_tester.Db.Redis.{Redis}
use mail_tester.Db.Documents.{ApiKey}
use mail_tester.Exec.{World, Result, ok, raised, raise, http, ◌>>=◌}
use mail_tester.Api.RateLimit.{enforce}
use mail_tester.Api.ApiKeys.{
  has_hash, create_key, insert_key, create_counted, new_key, find_key, new_document, KeyView,
}

module _ (M : Mongo) (L : IsMongo M) (R : Redis) (hash_key : Text → Text) (c : Config)
    (now user_id : ℕ) (name ip : Option Text) (token : Text) where
  -- The key that the world has after a creation from `w`.
  abbrev pub created : World M R → Text → ApiKey
  created w raw_key = new_document hash_key c w.next_id user_id now name raw_key ip

  insert_key-find_key :
      (w : World M R)
      → find_key hash_key (new_key c token) w ≡ none
      → find_key hash_key (new_key c token) (insert_key hash_key c now user_id name ip token w).1
        ≡ some (created w (new_key c token))
  unfolding insert_key find_key new_document
  insert_key-find_key w fresh =
      rw
        (
          insert_key,
          find_key,
          L.find_one-docs,
          L.docs-insert_one,
          first-append_none (has_hash (hash_key (new_key c token))) (M.docs w.db.api_keys)
              (created w (new_key c token) ∷ []) (sym (L.find_one-docs _ _) ∙ fresh),
          =ᵗ_refl (hash_key (new_key c token)),
        )
        refl

  abbrev shown : Result (KeyView × Text) → Text
  shown (ok (view, raw_key)) = raw_key
  shown (raised e) = []

  insert_key-shown :
      (w : World M R) (view : KeyView) (raw_key : Text)
      → (insert_key hash_key c now user_id name ip token w).0 ≡ ok (view, raw_key)
      → new_key c token ≡ raw_key
  unfolding insert_key
  insert_key-shown w view raw_key made = ap shown made

  room-find_key :
      (full : Bool) (w : World M R)
      → find_key hash_key (new_key c token) w ≡ none
      → (view : KeyView) (raw_key : Text)
      → ((if full
            then raise (http 400 "You can have at most API_KEYS_PER_USER active keys")
            else insert_key hash_key c now user_id name ip token)
          w).0
        ≡ ok (view, raw_key)
      → find_key hash_key raw_key
          ((if full
              then raise (http 400 "You can have at most API_KEYS_PER_USER active keys")
              else insert_key hash_key c now user_id name ip token)
            w).1
        ≡ some (created w raw_key)
  room-find_key true w fresh view raw_key made = absurd (cc made)
  room-find_key false w fresh view raw_key made =
      subst
        (λ t.
          find_key hash_key t (insert_key hash_key c now user_id name ip token w).1
          ≡ some (created w t))
        (insert_key-shown w view raw_key made) (insert_key-find_key w fresh)

  -- Whatever the rate limit says.
  enforced-find_key :
      (r : Result (Unit {0})) (w : World M R)
      → find_key hash_key (new_key c token) w ≡ none
      → (view : KeyView) (raw_key : Text)
      → (((λ _. (r, w)) >>= λ _. create_counted hash_key c now user_id name ip token) w).0
        ≡ ok (view, raw_key)
      → find_key hash_key raw_key
          (((λ _. (r, w)) >>= λ _. create_counted hash_key c now user_id name ip token) w).1
        ≡ some (created w raw_key)
  unfolding create_counted
  enforced-find_key (raised e) w fresh view raw_key made = absurd (cc made)
  enforced-find_key (ok u) w fresh view raw_key made = room-find_key _ w fresh view raw_key made

  -- A key that was created is found by the text that its owner is shown, as a key of that owner, if
  -- no active key had its hash before.
  pub create_key-find_key :
      (w : World M R)
      → find_key hash_key (new_key c token) w ≡ none
      → (view : KeyView) (raw_key : Text)
      → (create_key hash_key c now user_id name ip token w).0 ≡ ok (view, raw_key)
      → find_key hash_key raw_key (create_key hash_key c now user_id name ip token w).1
        ≡ some (created w raw_key)
  unfolding create_key find_key enforce
  create_key-find_key w fresh view raw_key made =
      enforced-find_key _ (record w { cache = _ }) fresh view raw_key made
