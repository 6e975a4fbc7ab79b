-- ===== src/Prelude/Splits.antt =====
-- A text that is joined of words without the separator, split again and stripped.
use Prim.Native.Nat.{ℕ}
use mathlib.Core.Path.{◌≡◌, refl, ap, ◌∙◌}
use mathlib.Core.Bool.{Bool, false}
use mathlib.Core.List.{List, [], ◌∷◌, ◌++◌}
use native.Mathlib.Omega.{arith}
use mail_tester.Prelude.Lists.{null, All}
use mail_tester.Prelude.Texts.{Text, split, join, has_char, rstrip}

module _ (c : ℕ) where
  split-word : (w : Text) → has_char c w ≡ false → split c w ≡ w ∷ []
  unfolding split has_char
  split-word [] h = refl
  split-word (d ∷ w) h = ground (arith, split-word w)

  split-append : (w s : Text) → has_char c w ≡ false → split c (w ++ (c ∷ s)) ≡ w ∷ split c s
  unfolding split has_char
  split-append [] s h = ground arith
  split-append (d ∷ w) s h = ground (arith, split-append w s)

  split-join_cons :
      (w : Text) (ws : List Text)
      → has_char c w ≡ false
      → All (λ v. has_char c v ≡ false) ws
      → split c (join c (w ∷ ws)) ≡ w ∷ ws
  unfolding join
  split-join_cons w [] h hs = split-word w h
  split-join_cons w (v ∷ ws) h (k, hs) =
      split-append w (join c (v ∷ ws)) h ∙ ap (λ vs. w ∷ vs) (split-join_cons v ws k hs)

  -- A text is split into the words that it is joined of.
  pub split-join :
      (ws : List Text)
      → null ws ≡ false
      → All (λ v. has_char c v ≡ false) ws
      → split c (join c ws) ≡ ws
  split-join [] n h = ground arith
  split-join (w ∷ ws) n (h, hs) = split-join_cons w ws h hs

module _ (p : ℕ → Bool) where
  pub keep_rstrip : (c : ℕ) (s : Text) → null s ≡ false → rstrip p s ≡ s → rstrip p (c ∷ s) ≡ c ∷ s
  unfolding rstrip
  keep_rstrip c [] h e = ground arith
  keep_rstrip c (d ∷ s) h e = rw e refl

  -- What stands before a text that is not stripped is not stripped.
  pub rstrip-append :
      (s t : Text)
      → null t ≡ false
      → rstrip p t ≡ t
      → (rstrip p (s ++ t) ≡ s ++ t) × (null (s ++ t) ≡ false)
  rstrip-append [] t h e = (e, h)
  rstrip-append (c ∷ s) t h e =
      let (f, g) = rstrip-append s t h e in (keep_rstrip c (s ++ t) g f, refl)
