-- ===== src/Exec.antt =====
-- The state that the handlers share, and handlers as actions on it: what was written before an
-- exception stays written.
use mail_tester.Prelude.{ℕ, ◌≡◌, String, List, Text, Bool, true, false}
use mail_tester.Db.Mongo.{Mongo}
use mail_tester.Db.Redis.{Redis}
use mail_tester.Db.Documents.{Database}

-- `HTTPException` with its status, its detail and its `Retry-After`, or any other exception.
pub data Error : Type 0 where
  http : ℕ → String → Error
  too_many_requests : ℕ → Error
  exception : Text → Error

pub data Result (A : Type 0) : Type 0 where
  ok : A → Result A
  raised : Error → Result A

-- Both stores, the next id that `ObjectId` gives, and the events handed to the worker's queue.
pub record World (M : Mongo) (R : Redis) : Type 0 where
  pub db : Database M
  pub cache : R.State
  pub next_id : ℕ
  pub queue : List ℕ

abbrev pub Exec : Type 0 → Type 0 → Type 0
Exec W A = W → Result A × W

module _ {W A : Type 0} where
  abbrev pub pure : A → Exec W A
  pure a w = (ok a, w)

  abbrev pub raise : Error → Exec W A
  raise e w = (raised e, w)

  abbrev pub gets : (W → A) → Exec W A
  gets f w = (ok (f w), w)

abbrev pub modify : {W : Type 0} → (W → W) → Exec W (Unit {0})
modify f w = (ok tt, f w)

module _ {W A B : Type 0} where
  abbrev continue : (A → Exec W B) → Result A × W → Result B × W
  continue f (ok a, w) = f a w
  continue f (raised e, w) = (raised e, w)

  infixl 5 ◌>>=◌ ◌>>◌
  abbrev pub ◌>>=◌ : Exec W A → (A → Exec W B) → Exec W B
  ◌>>=◌ m f w = continue f (m w)

  abbrev pub ◌>>◌ : Exec W A → Exec W B → Exec W B
  m >> k = m >>= λ _. k

abbrev pub when : {W : Type 0} → Bool → Exec W (Unit {0}) → Exec W (Unit {0})
when true m = m
when false m = pure tt

module _ {W A B : Type 0} where
  -- A block goes on from what its first action returns, and stops at what it raises.
  pub bind-ok :
      (m : Exec W A) (f : A → Exec W B) (w w' : W) (a : A) → m w ≡ (ok a, w') → (m >>= f) w ≡ f a w'
  bind-ok m f w w' a e = λ i. continue f (e i)

  pub bind-raised :
      (m : Exec W A) (f : A → Exec W B) (w w' : W) (e : Error)
      → m w ≡ (raised e, w')
      → (m >>= f) w ≡ (raised e, w')
  bind-raised m f w w' e p = λ i. continue f (p i)

module _ {W A B : Type 0} (P : W → Type 0) (f : A → Exec W B) where
  continue_keeps :
      (r : Result A × W) → P r.1 → ((a : A) (w : W) → P w → P (f a w).1) → P (continue f r).1
  continue_keeps (ok a, w) h k = k a w h
  continue_keeps (raised e, w) h k = h

  -- What both parts of a block keep, the block keeps, whether it returns or raises.
  pub bind_keeps :
      (m : Exec W A) (w : W) → P (m w).1 → ((a : A) (w : W) → P w → P (f a w).1) → P ((m >>= f) w).1
  bind_keeps m w h k = continue_keeps (m w) h k
