-- ===== src/Api/RateLimit/Window.antt =====
-- `src/api/rate_limit.py`: how many requests of one identity pass in a window.
use mail_tester.Prelude.{
  ℕ, suc, ◌+◌, ◌*◌, ◌-◌, ◌<◌, ◌≡◌, ◌∙◌, Option, none, some, List, [], ◌∷◌, Text, arith, leb, min,
  length, All, Option-cases, inl, inr, if◌then◌else◌, =ᵗ_refl,
}
use mail_tester.Time.{second}
use mail_tester.Db.Redis.{Redis, IsRedis, IsUp, alive, value_of, deadline_of, ttl_of}
use mail_tester.Api.RateLimit.{hit, arm}

module _ (R : Redis) where
  -- The requests under one key, at these times: how many of them are let through.
  unfoldable pub passed : Text → ℕ → ℕ → List ℕ → R.State → ℕ
  passed key limit window [] s = 0
  passed key limit window (t ∷ ts) s =
      let (result, s') = hit R t key limit window s in
      (if result.allowed then 1 else 0) + passed key limit window ts s'

module _ (R : Redis) (L : IsRedis R) (up : IsUp R) where
  -- The counter of a key in an open window.
  pub record IsOpen (key : Text) (used : ℕ) (deadline : ℕ) (s : R.State) : Type 0 where
    pub entry : R.entry key s ≡ some (record { value = used; deadline = some deadline })

  -- What the pipeline answers, and the entry that it leaves.
  after_hit :
      (now : ℕ) (key : Text) (s : R.State) (a : ℕ × Option ℕ × R.State)
      → R.incr_ttl now key s ≡ some a
      → let old = alive now (R.entry key s) in
        (a.0 ≡ value_of old + 1)
        × (a.1 ≡ ttl_of now (deadline_of old))
        × (R.entry key a.2 ≡ some (record { value = a.0; deadline = deadline_of old }))
  after_hit now key s a e =
      let said = L.incr_ttl-entry now key s {n = a.0} {ttl = a.1} {t = a.2} e in
      (
        said.0,
        said.1,
        L.entry-incr_ttl now key key s {n = a.0} {ttl = a.1} {t = a.2} e ∙ rw (=ᵗ_refl key),
      )

  entry-arm :
      (now : ℕ) (key : Text) (window value : ℕ) (s : R.State)
      → R.entry key s ≡ some (record { value = value; deadline = none })
      → R.entry key (arm R now key window s)
        ≡ some (record { value = value; deadline = some (now + window * second) })
  entry-arm now key window value s h = elim (Option-cases (R.expire now key window s)) [
    | inl e ↦ ground (arith, up.expire_up now key window s)
    | inr (t, e) ↦ ground (arith, L.entry-expire now key key window s e, =ᵗ_refl key)
  ]

  pub hit-IsOpen :
      (now : ℕ) (key : Text) (limit window used deadline : ℕ) (s : R.State)
      → IsOpen key (suc used) deadline s
      → now < deadline
      → ((hit R now key limit window s).0.allowed ≡ leb (suc (suc used)) limit)
        × IsOpen key (suc (suc used)) deadline (hit R now key limit window s).1
  unfolding hit
  hit-IsOpen now key limit window used deadline s open_ before =
      elim (Option-cases (R.incr_ttl now key s)) [
        | inl e ↦ ground (arith, up.incr_ttl_up now key s)
        | inr (a, e) ↦ rw (e, hit) (ground (arith, after_hit now key s a e))
      ]

  -- The first request under a key opens its window.
  pub hit_first :
      (now : ℕ) (key : Text) (limit window : ℕ) (s : R.State)
      → alive now (R.entry key s) ≡ none
      → ((hit R now key limit window s).0.allowed ≡ leb 1 limit)
        × IsOpen key 1 (now + window * second) (hit R now key limit window s).1
  unfolding hit
  hit_first now key limit window s gone = elim (Option-cases (R.incr_ttl now key s)) [
    | inl e ↦ ground (arith, up.incr_ttl_up now key s)
    | inr (a, e) ↦
        rw (e, hit) (ground (arith, after_hit now key s a e, entry-arm now key window 1 a.2))
  ]

  passed_open :
      (key : Text) (limit window used deadline : ℕ) (ts : List ℕ) (s : R.State)
      → IsOpen key (suc used) deadline s
      → All (λ t. t < deadline) ts
      → passed R key limit window ts s ≡ min (length ts) (limit - suc used)
  unfolding passed
  passed_open key limit window used deadline [] s open_ h = omega arith
  passed_open key limit window used deadline (t ∷ ts) s open_ (h, hs) =
      let (allowed, next) = hit-IsOpen t key limit window used deadline s open_ h in
      ground (
        arith,
        passed_open key limit window (suc used) deadline ts (hit R t key limit window s).1 next hs,
      )

  -- Of the requests of one identity from the first, under a key that has no counter, to the end of
  -- the window that it opens, exactly the first `limit` pass, while Redis answers.
  pub passed_window :
      (key : Text) (limit window now : ℕ) (ts : List ℕ) (s : R.State)
      → alive now (R.entry key s) ≡ none
      → All (λ t. t < now + window * second) ts
      → passed R key limit window (now ∷ ts) s ≡ min (suc (length ts)) limit
  unfolding passed
  passed_window key limit window now ts s gone h =
      let (allowed, next) = hit_first now key limit window s gone in
      ground (
        arith,
        passed_open key limit window 0 (now + window * second) ts (hit R now key limit window s).1
            next h,
      )
