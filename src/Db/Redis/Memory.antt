-- ===== src/Db/Redis/Memory.antt =====
-- A cache kept as a function from keys to entries: what is assumed of Redis can be met.
use mathlib.Core.Option
use mail_tester.Prelude.{
  ℕ, ◌+◌, ◌*◌, refl, sym, ap, ◌∙◌, arith, Option, none, some, Text, ◌=ᵗ◌, is_some, if◌then◌else◌,
}
use mail_tester.Time.{second}
use mail_tester.Db.Redis.{Entry, Redis, IsRedis, IsUp, alive, value_of, deadline_of, ttl_of}

abbrev put : Text → Option Entry → (Text → Option Entry) → Text → Option Entry
put k e s j = if k =ᵗ j then e else s j

abbrev pub memory : Redis
memory = record {
  State = Text → Option Entry;
  entry = λ k s. s k;
  exists = λ now k s. some (is_some (alive now (s k)));
  set_ex = λ now k ex s.
      some (put k (some (record { value = 1; deadline = some (now + ex * second) })) s);
  delete = λ k s. some (put k none s);
  incr_ttl = λ now k s.
      let e = alive now (s k) in
      some (
        value_of e + 1,
        ttl_of now (deadline_of e),
        put k (some (record { value = value_of e + 1; deadline = deadline_of e })) s,
      );
  expire = λ now k window s. some (
      put k
        (Option.map (λ (e : Entry). record e { deadline = some (now + window * second) })
          (alive now (s k)))
        s);
}

-- What an answer says of a key.
abbrev read : Text → Option (Text → Option Entry) → Option Entry
read j none = none
read j (some s) = s j

abbrev read_hit : Text → Option (ℕ × Option ℕ × (Text → Option Entry)) → Option Entry
read_hit j none = none
read_hit j (some (n, ttl, s)) = s j

abbrev hit_value : Option (ℕ × Option ℕ × (Text → Option Entry)) → ℕ
hit_value none = 0
hit_value (some (n, ttl, s)) = n

abbrev hit_ttl : Option (ℕ × Option ℕ × (Text → Option Entry)) → Option ℕ
hit_ttl none = none
hit_ttl (some (n, ttl, s)) = ttl

pub memory-IsRedis : IsRedis memory
memory-IsRedis = record {
  exists-entry = λ now k s h. ground arith;
  entry-set_ex = λ now k j ex s {t} h. sym (ap (read j) h);
  entry-delete = λ k j s h. sym (ap (read j) h);
  incr_ttl-entry = λ now k s h. (sym (ap hit_value h), sym (ap hit_ttl h));
  entry-incr_ttl = λ now k j s {n} h.
      sym (ap (read_hit j) h)
      ∙ ap
          (λ (m : ℕ).
            if k =ᵗ j
            then some (record { value = m; deadline = deadline_of (alive now (s k)) })
            else s j)
          (ap hit_value h);
  entry-expire = λ now k j window s h. sym (ap (read j) h);
}

pub memory-IsUp : IsUp memory
memory-IsUp = record {
  exists_up = λ now k s. refl;
  set_ex_up = λ now k ex s. refl;
  delete_up = λ k s. refl;
  incr_ttl_up = λ now k s. refl;
  expire_up = λ now k window s. refl;
}
