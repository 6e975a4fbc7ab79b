-- ===== src/Api/MailTests/Generation.antt =====
-- `src/api/mail_tests.py`: what a new address does to the ones before it, and to Postfix.
use mathlib.Core.Path.{subst}
use mail_tester.Prelude.{
  ℕ, ◌+◌, ◌*◌, ◌≡◌, ◌<◌, ◌≤◌, refl, ◌∙◌, sym, arith, true, Option, none, some, List, [], ◌∷◌, ◌++◌,
  Text, ltb, ◌=ᵗ◌, =ᵗ_refl, any, Option-cases, inl, inr, if◌then◌else◌,
}
use mail_tester.Config.{Config}
use mail_tester.Time.{minute, second}
use mail_tester.Db.Mongo.{Mongo, IsMongo}
use mail_tester.Db.Mongo.Queries.{count, filter, modify_all, count-append}
use mail_tester.Db.Redis.{Redis, IsRedis, IsUp}
use mail_tester.Db.Cache.{address_key}
use mail_tester.Db.Documents.{TestEmail}
use mail_tester.Exec.{World, Result, ok, bind-ok}
use mail_tester.Ingest.RecipientMap.{accept, reject, lookup}
use mail_tester.Ingest.RecipientMap.Answers.{lookup-accept}
use mail_tester.Api.MailTests.{is_previous, expire, delete_keys, replace_address, new_address}

abbrev key_of_address : TestEmail → Text
key_of_address t = address_key (some t.to_address)

module _ (M : Mongo) (R : Redis) (L : IsRedis R) (up : IsUp R) where
  -- The keys are gone, all else stays, and nothing is raised.
  record Deleted (olds : List TestEmail) (w : World M R) (r : Result (Unit {0}) × World M R)
      : Type 0 where
    cache : R.State
    done : r ≡ (ok tt, record w { cache = cache })
    entries :
        (k : Text)
        → R.entry k cache
          ≡ (if any (λ t. key_of_address t =ᵗ k) olds then none else R.entry k w.cache)

  delete_keys-Deleted :
      (olds : List TestEmail) (w : World M R) → Deleted olds w (delete_keys olds w)
  unfolding delete_keys
  delete_keys-Deleted [] w = record { cache = w.cache; done = refl; entries = λ k. refl }
  delete_keys-Deleted (old ∷ olds) w = elim (Option-cases (R.delete (key_of_address old) w.cache)) [
    | inl e ↦ absurd (cc (e, up.delete_up (key_of_address old) w.cache))
    | inr (s, e) ↦ later s e (delete_keys-Deleted olds (record w { cache = s }))
  ]
    where
      later :
          (s : R.State)
          → R.delete (key_of_address old) w.cache ≡ some s
          → Deleted olds (record w { cache = s }) (delete_keys olds (record w { cache = s }))
          → Deleted (old ∷ olds) w (delete_keys (old ∷ olds) w)
      later s e d = record {
        cache = d.cache;
        done = rw (e, delete_keys) d.done;
        entries =
            λ k. d.entries k ∙ ground (arith, L.entry-delete (key_of_address old) k w.cache e);
      }

modify_all-expire :
    (now : ℕ) (owner : Option ℕ) (ip : Option Text) (ts : List TestEmail)
    → count (is_previous now owner ip) (modify_all (is_previous now owner ip) expire ts) ≡ 0
unfolding is_previous
modify_all-expire now owner ip [] = refl
modify_all-expire now (some o) ip (t ∷ ts) = ground (arith, modify_all-expire now (some o) ip ts)
modify_all-expire now none (some i) (t ∷ ts) =
    ground (arith, modify_all-expire now none (some i) ts)
modify_all-expire now none none (t ∷ ts) = ground (arith, modify_all-expire now none none ts)

new_is_previous :
    (id now expires_at : ℕ) (to_address : Text) (owner : Option ℕ) (ip : Option Text)
    (key : Option ℕ)
    → now < expires_at
    → is_previous now owner ip (new_address id to_address now expires_at ip owner key) ≡ true
unfolding is_previous
new_is_previous id now expires_at to_address (some o) ip key h = ground arith
new_is_previous id now expires_at to_address none (some i) key h = ground (arith, =ᵗ_refl i)
new_is_previous id now expires_at to_address none none key h = ground arith

module _ (M : Mongo) (K : IsMongo M) (R : Redis) (L : IsRedis R) (up : IsUp R) (c : Config) where
  module _ (now : ℕ) (to_address : Text) (ip : Option Text) (owner key : Option ℕ)
      (w : World M R) where
    abbrev olds : List TestEmail
    olds = filter (is_previous now owner ip) (M.docs w.db.test_emails)

    abbrev after : Result (Unit {0}) × World M R
    after = replace_address c now to_address ip owner key w

    record Replaced (r : Result (Unit {0}) × World M R) : Type 0 where
      done : r.0 ≡ ok tt
      entries :
          (k : Text)
          → R.entry k r.1.cache ≡ (
              if address_key (some to_address) =ᵗ k
              then some (record {
                value = 1;
                deadline = some (now + (c.test_address_ttl_minutes * 60) * second);
              })
              else if any (λ t. key_of_address t =ᵗ k) olds
              then none
              else R.entry k w.cache)
      addresses :
          M.docs r.1.db.test_emails
          ≡ modify_all (is_previous now owner ip) expire (M.docs w.db.test_emails)
            ++ new_address w.next_id to_address now
                (now + c.test_address_ttl_minutes * minute)
                ip
                owner
                key
              ∷ []

    replace_address-Replaced : Replaced after
    unfolding replace_address
    replace_address-Replaced =
        let d =
          delete_keys-Deleted M R L up (M.find (is_previous now owner ip) w.db.test_emails) w in
        subst Replaced
          (sym (
            bind-ok (delete_keys (M.find (is_previous now owner ip) w.db.test_emails)) _ w
              (record w { cache = d.cache }) tt d.done))
          (elim (Option-cases (
            R.set_ex now (address_key (some to_address)) (c.test_address_ttl_minutes * 60)
              d.cache)) [
                | inl e ↦ absurd (
                    cc (
                      e,
                      up.set_ex_up now (address_key (some to_address))
                          (c.test_address_ttl_minutes * 60) d.cache,
                    ))
                | inr (s, e) ↦ rw e (record {
                  done = refl;
                  entries = λ k.
                      L.entry-set_ex now (address_key (some to_address)) k
                        (c.test_address_ttl_minutes * 60) d.cache e
                      ∙ rw (d.entries k, K.find-docs);
                  addresses = rw (K.docs-insert_one, K.docs-update_many);
                })
              ])

    -- After a new address, while Redis answers: no exception, and exactly one address is live of those
    -- with the same account, or, where there is no account, from the same IP address, if an address
    -- lives for any time at all.
    pub replace_address_one_live :
        1 ≤ c.test_address_ttl_minutes
        → (after.0 ≡ ok tt) × (count (is_previous now owner ip) (M.docs after.1.db.test_emails) ≡ 1)
    replace_address_one_live some_time =
        let p = replace_address-Replaced in
        let gone = modify_all-expire now owner ip (M.docs w.db.test_emails) in
        let lives =
          new_is_previous w.next_id now (now + c.test_address_ttl_minutes * minute) to_address owner
            ip key (omega arith) in
        (
          p.done,
          rw
              (
                p.addresses,
                count-append (is_previous now owner ip)
                    (modify_all (is_previous now owner ip) expire (M.docs w.db.test_emails)),
                gone,
                lives,
              )
              refl,
        )

    -- After a new address, while Redis answers, Postfix is told to accept it until its time is up,
    -- and to reject each address that was live for the same account, or, where there is no account,
    -- was live and created from the same IP address. Any other address has the answer that it had
    -- before. Addresses are told apart by their keys, without case and surrounding white space.
    pub lookup-replace_address :
        (t : ℕ) (a : Text)
        → lookup R t a after.1.cache ≡ (
            if address_key (some to_address) =ᵗ address_key (some a)
            then some (
                if ltb t (now + (c.test_address_ttl_minutes * 60) * second) then accept else reject)
            else if any (λ o. key_of_address o =ᵗ address_key (some a)) olds
            then some reject
            else lookup R t a w.cache)
    lookup-replace_address t a =
        lookup-accept R L up t a after.1.cache
        ∙ rw
            (
              replace_address-Replaced.entries (address_key (some a)),
              lookup-accept R L up t a w.cache,
            )
            (ground arith)
