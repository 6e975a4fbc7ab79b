-- ===== src/Db/Redis.antt =====
-- The part of redis-py that the program calls, as a parameter. A call answers `none` where it
-- raises. `IsRedis` says what is relied on, in terms of the entry that a key has.
pub mod Memory
use mail_tester.Prelude.{
  ℕ, ◌+◌, ◌-◌, ◌*◌, ◌/◌, ◌≡◌, Bool, true, Option, none, some, Text, ltb, ◌=ᵗ◌, is_some,
  if◌then◌else◌,
}
use mathlib.Core.Option
use mail_tester.Time.{second}

pub record Entry : Type 0 where
  pub value : ℕ
  pub deadline : Option ℕ

abbrev is_alive : ℕ → Option ℕ → Bool
is_alive now none = true
is_alive now (some d) = ltb now d

-- A key whose time is up is not there.
abbrev pub alive : ℕ → Option Entry → Option Entry
alive now none = none
alive now (some e) = if is_alive now e.deadline then some e else none

abbrev pub value_of : Option Entry → ℕ
value_of none = 0
value_of (some e) = e.value

abbrev pub deadline_of : Option Entry → Option ℕ
deadline_of none = none
deadline_of (some e) = e.deadline

-- Seconds, rounded; `none` stands for the negative answers of TTL.
abbrev pub ttl_of : ℕ → Option ℕ → Option ℕ
ttl_of now none = none
ttl_of now (some d) = some ((d - now + second / 2) / second)

pub record Redis : Type 1 where
  pub State : Type 0
  pub entry : Text → State → Option Entry
  pub exists : ℕ → Text → State → Option Bool
  -- `set(key, "1", ex=seconds)`
  pub set_ex : ℕ → Text → ℕ → State → Option State
  pub delete : Text → State → Option State
  -- The pipeline of INCR and TTL, with the new value and the time to live.
  pub incr_ttl : ℕ → Text → State → Option (ℕ × Option ℕ × State)
  pub expire : ℕ → Text → ℕ → State → Option State

pub record IsRedis (R : Redis) : Type 0 where
  pub exists-entry :
      (now : ℕ) (k : Text) (s : R.State) {b : Bool}
      → R.exists now k s ≡ some b
      → b ≡ is_some (alive now (R.entry k s))
  pub entry-set_ex :
      (now : ℕ) (k j : Text) (ex : ℕ) (s : R.State) {t : R.State}
      → R.set_ex now k ex s ≡ some t
      → R.entry j t ≡ (
          if k =ᵗ j
          then some (record { value = 1; deadline = some (now + ex * second) })
          else R.entry j s)
  pub entry-delete :
      (k j : Text) (s : R.State) {t : R.State}
      → R.delete k s ≡ some t
      → R.entry j t ≡ (if k =ᵗ j then none else R.entry j s)
  pub incr_ttl-entry :
      (now : ℕ) (k : Text) (s : R.State) {n : ℕ} {ttl : Option ℕ} {t : R.State}
      → R.incr_ttl now k s ≡ some (n, ttl, t)
      → (n ≡ value_of (alive now (R.entry k s)) + 1)
        × (ttl ≡ ttl_of now (deadline_of (alive now (R.entry k s))))
  pub entry-incr_ttl :
      (now : ℕ) (k j : Text) (s : R.State) {n : ℕ} {ttl : Option ℕ} {t : R.State}
      → R.incr_ttl now k s ≡ some (n, ttl, t)
      → R.entry j t ≡ (
          if k =ᵗ j
          then some (record { value = n; deadline = deadline_of (alive now (R.entry k s)) })
          else R.entry j s)
  pub entry-expire :
      (now : ℕ) (k j : Text) (window : ℕ) (s : R.State) {t : R.State}
      → R.expire now k window s ≡ some t
      → R.entry j t ≡ (
          if k =ᵗ j
          then Option.map
              (λ (e : Entry). record e { deadline = some (now + window * second) })
              (alive now (R.entry k s))
          else R.entry j s)

-- The server answers every call.
pub record IsUp (R : Redis) : Type 0 where
  pub exists_up : (now : ℕ) (k : Text) (s : R.State) → is_some (R.exists now k s) ≡ true
  pub set_ex_up : (now : ℕ) (k : Text) (ex : ℕ) (s : R.State) → is_some (R.set_ex now k ex s) ≡ true
  pub delete_up : (k : Text) (s : R.State) → is_some (R.delete k s) ≡ true
  pub incr_ttl_up : (now : ℕ) (k : Text) (s : R.State) → is_some (R.incr_ttl now k s) ≡ true
  pub expire_up :
      (now : ℕ) (k : Text) (window : ℕ) (s : R.State) → is_some (R.expire now k window s) ≡ true
