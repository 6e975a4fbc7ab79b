-- ===== src/Api/RateLimit/Progress.antt =====
-- `src/api/rate_limit.py`: nobody is kept out for longer than a window.
use mathlib.Core.Path.{subst}
use mail_tester.Prelude.{
  ℕ, suc, ◌+◌, ◌*◌, ◌≤◌, ◌≡◌, ◌∙◌, refl, sym, ap, arith, true, Option, none, some, List, [], ◌∷◌,
  ◌++◌, Text, leb, ◌=ᵗ◌, =ᵗ_sound, Bool-cases, inl, inr, All,
}
use mail_tester.Time.{second}
use mail_tester.Db.Redis.{Redis, IsRedis, IsUp}
use mail_tester.Api.RateLimit.Limiter.{
  Window, Limiter, current, counted, Asked, ask, answers_of, hits, Holds, hits-answers_of,
}

-- The window of a key, if it has one, ends at `n` at the latest.
abbrev pub EndsBy : ℕ → Option Window → Type 0
EndsBy n none = Unit
EndsBy n (some w) = w.ends ≤ n

counted-EndsBy :
    (n now window : ℕ) (o : Option Window)
    → now + window * second ≤ n
    → EndsBy n o
    → (counted now window (current now o)).ends ≤ n
counted-EndsBy n now window none h k = h
counted-EndsBy n now window (some w) h k = ground arith

ask-EndsBy :
    (n : ℕ) (key : Text) (q : Asked) (m : Limiter)
    → q.now + q.window * second ≤ n
    → EndsBy n (m key)
    → EndsBy n ((ask q m).1 key)
unfolding ask
ask-EndsBy n key q m h k = elim (Bool-cases (q.key =ᵗ key)) [
  | inl e ↦ rw e (
      counted-EndsBy n q.now q.window (m q.key) h
        (subst (λ j. EndsBy n (m j)) (sym (=ᵗ_sound q.key key e)) k))
  | inr e ↦ rw e k
]

ended-passes : (q : Asked) (m : Limiter) → 1 ≤ q.limit → EndsBy q.now (m q.key) → (ask q m).0 ≡ true
unfolding ask
ended-passes q m h k = ended (m q.key) k
  where
    ended :
        (o : Option Window)
        → EndsBy q.now o
        → leb (suc (counted q.now q.window (current q.now o)).before) q.limit ≡ true
    ended none k = ground arith
    ended (some w) k = ground arith

answers_of_last :
    (qs : List Asked) (q : Asked) (m : Limiter)
    → 1 ≤ q.limit
    → All (λ p. p.now + p.window * second ≤ q.now) qs
    → EndsBy q.now (m q.key)
    → answers_of (qs ++ q ∷ []) m ≡ answers_of qs m ++ true ∷ []
unfolding answers_of
answers_of_last [] q m h a k = rw (ended-passes q m h k) refl
answers_of_last (p ∷ qs) q m h (a, as_) k =
    ap (λ r. (ask p m).0 ∷ r)
      (answers_of_last qs q (ask p m).1 h as_ (ask-EndsBy q.now q.key p m a k))

-- However many requests a client has made, and however many of them were refused, a request that
-- comes a window after the last of them passes, while Redis answers and the limit is not zero.
pub hits_last :
    (R : Redis) (L : IsRedis R) (up : IsUp R) (qs : List Asked) (q : Asked) (m : Limiter)
    (s : R.State)
    → Holds R m s
    → 1 ≤ q.limit
    → All (λ p. p.now + p.window * second ≤ q.now) qs
    → EndsBy q.now (m q.key)
    → hits R (qs ++ q ∷ []) s ≡ hits R qs s ++ true ∷ []
hits_last R L up qs q m s H h a k =
    hits-answers_of R L up (qs ++ q ∷ []) m s H
    ∙ answers_of_last qs q m h a k
    ∙ ap (λ r. r ++ true ∷ []) (sym (hits-answers_of R L up qs m s H))
