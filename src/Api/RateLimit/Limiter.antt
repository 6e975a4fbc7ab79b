-- ===== src/Api/RateLimit/Limiter.antt =====
-- `src/api/rate_limit.py` as an implementation of a limiter with fixed windows.
use mathlib.Core.Path.{subst}
use mail_tester.Prelude.{
  ℕ, suc, ◌+◌, ◌*◌, ◌≡◌, ◌∙◌, refl, ap, Bool, false, Option, none, some, List, [], ◌∷◌, Text, leb,
  ltb, ◌=ᵗ◌, =ᵗ_sound, Option-cases, Bool-cases, inl, inr, if◌then◌else◌, if_both, ltb→lt,
}
use mail_tester.Time.{second}
use mail_tester.Db.Redis.{Redis, IsRedis, IsUp, Entry, alive}
use mail_tester.Api.RateLimit.{hit, arm}
use mail_tester.Api.RateLimit.Window.{IsOpen, hit-IsOpen, hit_first}

-- A window of one key: how many requests it has had before the last one, and when it ends.
pub record Window : Type 0 where
  pub before : ℕ
  pub ends : ℕ

abbrev pub Limiter : Type 0
Limiter = Text → Option Window

-- A window that has ended is none.
abbrev pub current : ℕ → Option Window → Option Window
current now none = none
current now (some w) = if ltb now w.ends then some w else none

-- The window after one more request: the first request opens it.
abbrev pub counted : ℕ → ℕ → Option Window → Window
counted now window none = record { before = 0; ends = now + window * second }
counted now window (some w) = record w { before = suc w.before }

pub record Asked : Type 0 where
  pub now : ℕ
  pub key : Text
  pub limit : ℕ
  pub window : ℕ

-- One request: it passes if its window has had fewer than `limit` requests before.
unfoldable pub ask : Asked → Limiter → Bool × Limiter
ask q m =
    let w = counted q.now q.window (current q.now (m q.key)) in
    (leb (suc w.before) q.limit, λ j. if q.key =ᵗ j then some w else m j)

unfoldable pub answers_of : List Asked → Limiter → List Bool
answers_of [] m = []
answers_of (q ∷ qs) m = (ask q m).0 ∷ answers_of qs (ask q m).1

abbrev entry_of : Option Window → Option Entry
entry_of none = none
entry_of (some w) = some (record { value = suc w.before; deadline = some w.ends })

module _ (R : Redis) where
  -- The same requests, asked of the code.
  unfoldable pub hits : List Asked → R.State → List Bool
  unfolding hit
  hits [] s = []
  hits (q ∷ qs) s =
      let (result, t) = hit R q.now q.key q.limit q.window s in result.allowed ∷ hits qs t

  -- The cache holds the windows of a limiter.
  pub record Holds (m : Limiter) (s : R.State) : Type 0 where
    pub entries : (j : Text) → R.entry j s ≡ entry_of (m j)

module _ (R : Redis) (L : IsRedis R) (up : IsUp R) where
  arm_others :
      (now : ℕ) (key j : Text) (window : ℕ) (s : R.State)
      → (key =ᵗ j) ≡ false
      → R.entry j (arm R now key window s) ≡ R.entry j s
  arm_others now key j window s other = elim (Option-cases (R.expire now key window s)) [
    | inl e ↦ rw e refl
    | inr (t, e) ↦ rw e (L.entry-expire now key j window s e ∙ rw other refl)
  ]

  -- A request leaves the other keys alone.
  hit_others :
      (now : ℕ) (key j : Text) (limit window : ℕ) (s : R.State)
      → (key =ᵗ j) ≡ false
      → R.entry j (hit R now key limit window s).1 ≡ R.entry j s
  unfolding hit
  hit_others now key j limit window s other = elim (Option-cases (R.incr_ttl now key s)) [
    | inl e ↦ rw (e, hit) refl
    | inr ((n, ttl, t), e) ↦
        let kept = L.entry-incr_ttl now key j s e ∙ rw other refl in
        rw (e, hit)
          (if_both (λ t'. R.entry j t' ≡ R.entry j s) _ _ _
            (arm_others now key j window t other ∙ kept) kept)
  ]

  -- What a request does to the window of its key.
  hit-counted :
      (now : ℕ) (key : Text) (limit window : ℕ) (s : R.State) (o : Option Window)
      → R.entry key s ≡ entry_of o
      → let w = counted now window (current now o) in
        ((hit R now key limit window s).0.allowed ≡ leb (suc w.before) limit)
        × IsOpen R L up key (suc w.before) w.ends (hit R now key limit window s).1
  hit-counted now key limit window s none h =
      hit_first R L up now key limit window s (ap (alive now) h)
  hit-counted now key limit window s (some w) h = elim (Bool-cases (ltb now w.ends)) [
    | inl e ↦ rw e (
        hit-IsOpen R L up now key limit window w.before w.ends s (record { entry = h })
          (ltb→lt now w.ends e))
    | inr e ↦ rw e (hit_first R L up now key limit window s (ap (alive now) h ∙ rw e refl))
  ]

  hit-Holds :
      (q : Asked) (m : Limiter) (s : R.State)
      → Holds R m s
      → ((hit R q.now q.key q.limit q.window s).0.allowed ≡ (ask q m).0)
        × Holds R (ask q m).1 (hit R q.now q.key q.limit q.window s).1
  unfolding ask
  hit-Holds q m s H =
      let (same, open_) = hit-counted q.now q.key q.limit q.window s (m q.key) (H.entries q.key) in
      (
        same,
        record {
          entries = λ j. elim (Bool-cases (q.key =ᵗ j)) [
            | inl e ↦ rw e (
                subst
                  (λ k.
                    R.entry k (hit R q.now q.key q.limit q.window s).1
                    ≡ entry_of (some (counted q.now q.window (current q.now (m q.key)))))
                  (=ᵗ_sound q.key j e) open_.entry)
            | inr e ↦ hit_others q.now q.key j q.limit q.window s e ∙ H.entries j ∙ rw e refl
          ];
        },
      )

  -- While Redis answers, the code lets through exactly the requests that a limiter with fixed windows
  -- lets through, for any requests under any keys, in any order and at any times, if the cache holds
  -- the limiter's windows at the start.
  pub hits-answers_of :
      (qs : List Asked) (m : Limiter) (s : R.State) → Holds R m s → hits R qs s ≡ answers_of qs m
  unfolding hits answers_of
  hits-answers_of [] m s H = refl
  hits-answers_of (q ∷ qs) m s H =
      let (same, next) = hit-Holds q m s H in
      rw (same, hits-answers_of qs (ask q m).1 (hit R q.now q.key q.limit q.window s).1 next) refl
