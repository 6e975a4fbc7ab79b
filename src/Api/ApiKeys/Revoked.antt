-- ===== src/Api/ApiKeys/Revoked.antt =====
-- `src/api/api_keys.py`: what a revoked key is good for.
use mail_tester.Prelude.{
  ℕ, ◌≤◌, ◌≡◌, refl, sym, ap, ◌∙◌, arith, Bool, true, false, any, Option, none, some, List, [], ◌∷◌,
  Text, Bool-cases, inl, inr, strip, is_space, null,
}
use mathlib.Core.Option.{some-injective}
use mail_tester.Config.{Config}
use mail_tester.Db.Mongo.{Mongo, IsMongo}
use mail_tester.Db.Mongo.Queries.{count, modify_first, first}
use mail_tester.Db.Redis.{Redis}
use mail_tester.Db.Cache.{text_or_empty}
use mail_tester.Db.Documents.{ApiKey}
use mail_tester.Exec.{World, ok, raised, http}
use mail_tester.Api.Requests.{object_id}
use mail_tester.Api.ApiKeys.{is_own, has_hash, has_key_id, revoke_key, resolve_api_key, find_key}
use mail_tester.Api.ApiKeys.Bounds.{report_revoked_keys}

uncounted : (p : ApiKey → Bool) (ks : List ApiKey) → count p ks ≡ 0 → first p ks ≡ none
uncounted p [] h = refl
uncounted p (k ∷ ks) h = ground (arith, uncounted p ks)

own_counted :
    (id user_id : ℕ) (ks : List ApiKey)
    → any (is_own id user_id) ks ≡ true
    → 1 ≤ count (has_key_id id) ks
own_counted id user_id [] h = ground arith
own_counted id user_id (k ∷ ks) h = ground (arith, own_counted id user_id ks)

found_counted :
    (h : Text) (id : ℕ) (k : ApiKey) (ks : List ApiKey)
    → first (has_hash h) ks ≡ some k
    → k.id ≡ id
    → 1 ≤ count (has_key_id id) ks
found_counted h id k [] e i = ground arith
found_counted h id k (d ∷ ds) e i = elim (Bool-cases (has_hash h d)) [
  | inl y ↦
      let same = ap (λ (x : ApiKey). x.id) (some-injective d k (rw y at e)) in
      ground (arith, same, i)
  | inr n ↦ ground (arith, found_counted h id k ds (rw n at e) i)
]

revoked-first :
    (h : Text) (id user_id now : ℕ) (k : ApiKey) (ks : List ApiKey)
    → count (has_hash h) ks ≤ 1
    → count (has_key_id id) ks ≤ 1
    → first (has_hash h) ks ≡ some k
    → k.id ≡ id
    → any (is_own id user_id) ks ≡ true
    → first
        (has_hash h)
        (modify_first (is_own id user_id) (λ d. record d { revoked_at = some now }) ks)
      ≡ none
revoked-first h id user_id now k [] u v e i a = ground arith
revoked-first h id user_id now k (d ∷ ds) u v e i a = elim (Bool-cases (has_hash h d)) [
  | inl y ↦
      let same = ap (λ (x : ApiKey). x.id) (some-injective d k (rw y at e)) in
      ground (arith, same, i, own_counted id user_id ds, uncounted (has_hash h) ds)
  | inr n ↦
      let later = rw n at e in
      ground (arith, found_counted h id k ds later i, revoked-first h id user_id now k ds)
]

module _ (M : Mongo) (L : IsMongo M) (R : Redis) (hash_key : Text → Text) where
  revoke_key-find_key :
      (now user_id id : ℕ) (ip : Option Text) (raw_key : Text) (k : ApiKey) (w : World M R)
      → find_key hash_key raw_key w ≡ some k
      → k.id ≡ id
      → count (has_hash (hash_key raw_key)) (M.docs w.db.api_keys) ≤ 1
      → count (has_key_id id) (M.docs w.db.api_keys) ≤ 1
      → any (is_own id user_id) (M.docs w.db.api_keys) ≡ true
      → find_key hash_key raw_key (revoke_key now user_id (object_id id) ip w).1 ≡ none
  unfolding find_key revoke_key
  revoke_key-find_key now user_id id ip raw_key k w found i one_hash one_id own =
      rw (find_key, revoke_key, report_revoked_keys, L.find_one-docs, L.docs-update_one)
        (revoked-first (hash_key raw_key) id user_id now k (M.docs w.db.api_keys) one_hash one_id
          (sym (L.find_one-docs _ _) ∙ found) i own)

  -- A revocation that succeeds has found the key.
  revoked-own :
      (now user_id id : ℕ) (ip : Option Text) (w : World M R)
      → (revoke_key now user_id (object_id id) ip w).0 ≡ ok true
      → any (is_own id user_id) (M.docs w.db.api_keys) ≡ true
  unfolding revoke_key
  revoked-own now user_id id ip w revoked =
      elim (Bool-cases (any (is_own id user_id) (M.docs w.db.api_keys))) [
        | inl a ↦ a
        | inr n ↦ absurd (cc (rw (L.matched-update_one, n) at revoked))
      ]

  unknown-resolve_api_key :
      (str_id : ℕ → Text) (c : Config) (now : ℕ) (header : Option Text) (w : World M R)
      → null (strip is_space (text_or_empty header)) ≡ false
      → find_key hash_key (strip is_space (text_or_empty header)) w ≡ none
      → (resolve_api_key hash_key str_id c now header w).0 ≡ raised (http 401 "Invalid API key")
  unfolding resolve_api_key
  unknown-resolve_api_key str_id c now header w given gone = rw (given, gone) refl

module _ (M : Mongo) (L : IsMongo M) (R : Redis) (hash_key : Text → Text) (str_id : ℕ → Text)
    (c : Config) where
  -- A key that its owner has revoked opens nothing any more: a request with it is answered by 401, if
  -- the hash stands for no other active key and the id for no other key.
  pub revoke_key-resolve_api_key :
      (now later user_id id : ℕ) (ip header : Option Text) (k : ApiKey) (w : World M R)
      → null (strip is_space (text_or_empty header)) ≡ false
      → find_key hash_key (strip is_space (text_or_empty header)) w ≡ some k
      → k.id ≡ id
      → count (has_hash (hash_key (strip is_space (text_or_empty header)))) (M.docs w.db.api_keys)
        ≤ 1
      → count (has_key_id id) (M.docs w.db.api_keys) ≤ 1
      → (revoke_key now user_id (object_id id) ip w).0 ≡ ok true
      → (resolve_api_key hash_key str_id c later header
          (revoke_key now user_id (object_id id) ip w).1).0
        ≡ raised (http 401 "Invalid API key")
  unfolding resolve_api_key find_key revoke_key
  revoke_key-resolve_api_key now later user_id id ip header k w given found i one_hash one_id
        revoked =
      unknown-resolve_api_key M L R hash_key str_id c later header _ given (
        revoke_key-find_key M L R hash_key now user_id id ip _ k w found i one_hash one_id
          (revoked-own M L R hash_key now user_id id ip w revoked))
