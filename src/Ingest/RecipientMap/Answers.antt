-- ===== src/Ingest/RecipientMap/Answers.antt =====
-- `src/ingest/recipient_map.py`: when a recipient is accepted.
use mail_tester.Prelude.{ℕ, ◌≡◌, arith, some, is_some, if◌then◌else◌, Option-cases, inl, inr, Text}
use mail_tester.Db.Redis.{Redis, IsRedis, IsUp, alive}
use mail_tester.Db.Cache.{address_key}
use mail_tester.Ingest.RecipientMap.{accept, reject, lookup}

-- While Redis answers, an address is accepted exactly if its key is there and not yet expired.
pub lookup-accept :
    (R : Redis)
    → IsRedis R
    → IsUp R
    → (now : ℕ) (to_address : Text) (s : R.State)
    → lookup R now to_address s
      ≡ some (
          if is_some (alive now (R.entry (address_key (some to_address)) s))
          then accept
          else reject)
unfolding lookup
lookup-accept R L up now to_address s =
    elim (Option-cases (R.exists now (address_key (some to_address)) s)) [
      | inl e ↦ ground (arith, up.exists_up now (address_key (some to_address)) s)
      | inr (b, e) ↦ ground (arith, L.exists-entry now (address_key (some to_address)) s e)
    ]
