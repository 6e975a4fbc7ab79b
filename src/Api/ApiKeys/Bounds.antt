-- ===== src/Api/ApiKeys/Bounds.antt =====
-- `src/api/api_keys.py`: how many active keys an account has.
use mail_tester.Prelude.{
  ℕ, zero, suc, ◌≤◌, ◌≡◌, refl, sym, ap, arith, Bool, true, false, Option, some, List, [], ◌∷◌,
  Text, codes, leb, if◌then◌else◌,
}
use mail_tester.Config.{Config}
use mail_tester.Db.Mongo.{Mongo, IsMongo}
use mail_tester.Db.Mongo.Queries.{count, modify_first, count-append}
use mail_tester.Db.Redis.{Redis}
use mail_tester.Db.Documents.{ApiKey}
use mail_tester.Exec.{World, raise, http, bind_keeps}
use mail_tester.Api.RateLimit.{enforce}
use mail_tester.Api.Requests.{IdText, object_id, invalid}
use mail_tester.Api.ApiKeys.{
  is_active_of, is_own, create_key, insert_key, create_counted, revoke_key, new_document,
  report_revoked,
}

-- No account has more active keys than the setting allows.
abbrev pub IsWithinKeys : {M : Mongo} {R : Redis} → Config → World M R → Type 0
IsWithinKeys {M} c w =
    (user_id : ℕ) → count (is_active_of user_id) (M.docs w.db.api_keys) ≤ c.api_keys_per_user

-- A revocation takes an active key off the count.
count-revoke :
    (id user_id now v : ℕ) (ks : List ApiKey)
    → count
        (is_active_of v)
        (modify_first (is_own id user_id) (λ k. record k { revoked_at = some now }) ks)
      ≤ count (is_active_of v) ks
count-revoke id user_id now v [] = omega arith
count-revoke id user_id now v (k ∷ ks) = ground (arith, count-revoke id user_id now v ks)

module _ {M : Mongo} {R : Redis} where
  pub report_revoked_keys :
      (now user_id n : ℕ) (ip : Option Text) (w : World M R)
      → (report_revoked now user_id ip n w).1.db.api_keys ≡ w.db.api_keys
  report_revoked_keys now user_id zero ip w = refl
  report_revoked_keys now user_id (suc n) ip w = refl

module _ (M : Mongo) (L : IsMongo M) (R : Redis) (c : Config) where
  -- So does revoking one.
  revoke_key-IsWithinKeys :
      (now user_id : ℕ) (id : IdText) (ip : Option Text) (w : World M R)
      → IsWithinKeys c w
      → IsWithinKeys c (revoke_key now user_id id ip w).1
  unfolding revoke_key
  revoke_key-IsWithinKeys now user_id invalid ip w h = h
  revoke_key-IsWithinKeys now user_id (object_id id) ip w h = λ v.
      rw (report_revoked_keys, L.docs-update_one)
        (omega (arith, h v, count-revoke id user_id now v (M.docs w.db.api_keys)))

  module _ (hash_key : Text → Text) where
    insert_key-IsWithinKeys :
        (now user_id : ℕ) (name ip : Option Text) (token : Text) (w : World M R)
        → suc (count (is_active_of user_id) (M.docs w.db.api_keys)) ≤ c.api_keys_per_user
        → IsWithinKeys c w
        → IsWithinKeys c (insert_key hash_key c now user_id name ip token w).1
    unfolding insert_key new_document
    insert_key-IsWithinKeys now user_id name ip token w room h v =
        rw (L.docs-insert_one, count-append) (ground (arith, h v))

    room :
        (now user_id : ℕ) (name ip : Option Text) (token : Text) (w : World M R) (full : Bool)
        → leb c.api_keys_per_user (count (is_active_of user_id) (M.docs w.db.api_keys)) ≡ full
        → IsWithinKeys c w
        → IsWithinKeys c
            ((if full
                then raise (http 400 "You can have at most API_KEYS_PER_USER active keys")
                else insert_key hash_key c now user_id name ip token)
              w).1
    room now user_id name ip token w true e h = h
    room now user_id name ip token w false e h =
        insert_key-IsWithinKeys now user_id name ip token w (ground arith) h

    -- Creating a key, with or without success, leaves no account with more active keys than the setting
    -- allows, if none had more.
    pub create_key-IsWithinKeys :
        (now user_id : ℕ) (name ip : Option Text) (token : Text) (w : World M R)
        → IsWithinKeys c w
        → IsWithinKeys c (create_key hash_key c now user_id name ip token w).1
    unfolding create_key create_counted enforce
    create_key-IsWithinKeys now user_id name ip token w h =
        bind_keeps (IsWithinKeys c) _
          (enforce now (codes "keys_create") ip c.auth_rate_limit c.auth_rate_window) w h
          (λ _ v T.
            room now user_id name ip token v
              (leb c.api_keys_per_user (M.count_documents (is_active_of user_id) v.db.api_keys))
              (ap (leb c.api_keys_per_user)
                (sym (L.count_documents-docs (is_active_of user_id) v.db.api_keys)))
              T)
