-- ===== src/Db/Mongo/Queries.antt =====
-- What the calls of the driver do to the documents of a collection, as functions on lists, and the
-- laws that relate a query to an update.
use mail_tester.Prelude.{
  ℕ, ◌+◌, ◌≡◌, refl, Bool, true, false, Option, none, some, List, [], ◌∷◌, ◌++◌, arith, leb,
  if◌then◌else◌, Bool-cases, inl, inr, ◌||◌, is_some, any,
}
use mathlib.Core.Option
use mathlib.Core.Option.{some-injective}
use mathlib.Core.Path.{subst}

module _ {ℓ} {D : Type ℓ} where
  abbrev pub filter : (D → Bool) → List D → List D
  filter p [] = []
  filter p (d ∷ ds) = let rest = filter p ds in if p d then d ∷ rest else rest

  abbrev pub first : (D → Bool) → List D → Option D
  first p [] = none
  first p (d ∷ ds) = if p d then some d else first p ds

  abbrev pub count : (D → Bool) → List D → ℕ
  count p [] = 0
  count p (d ∷ ds) = (if p d then 1 else 0) + count p ds

  abbrev pub modify_first : (D → Bool) → (D → D) → List D → List D
  modify_first p f [] = []
  modify_first p f (d ∷ ds) = if p d then f d ∷ ds else d ∷ modify_first p f ds

  abbrev pub modify_all : (D → Bool) → (D → D) → List D → List D
  modify_all p f [] = []
  modify_all p f (d ∷ ds) = (if p d then f d else d) ∷ modify_all p f ds

  abbrev pub remove_first : (D → Bool) → List D → List D
  remove_first p [] = []
  remove_first p (d ∷ ds) = if p d then ds else d ∷ remove_first p ds

  -- The order of ids, largest first.
  module _ (key : D → ℕ) where
    abbrev pub insert_newest : D → List D → List D
    insert_newest d [] = d ∷ []
    insert_newest d (e ∷ es) = if leb (key e) (key d) then d ∷ e ∷ es else e ∷ insert_newest d es

    abbrev pub newest_first : List D → List D
    newest_first [] = []
    newest_first (d ∷ ds) = insert_newest d (newest_first ds)

    abbrev pub head? : List D → Option D
    head? [] = none
    head? (d ∷ ds) = some d

    abbrev pub newest : List D → Option D
    newest ds = head? (newest_first ds)

module _ {ℓ} {D : Type ℓ} (p : D → Bool) (f : D → D) where
  pub first-modify_first :
      (ds : List D)
      → ((d : D) → p (f d) ≡ p d)
      → first p (modify_first p f ds) ≡ Option.map f (first p ds)
  first-modify_first [] h = refl
  first-modify_first (d ∷ ds) h = ground (arith, h d, first-modify_first ds h)

  -- A query that the update does not touch.
  module _ (q : D → Bool) (same : (d : D) → q (f d) ≡ q d) where
    pub count-modify_first : (ds : List D) → count q (modify_first p f ds) ≡ count q ds
    count-modify_first [] = refl
    count-modify_first (d ∷ ds) = ground (arith, same d, count-modify_first ds)

    pub any-modify_first : (ds : List D) → any q (modify_first p f ds) ≡ any q ds
    any-modify_first [] = refl
    any-modify_first (d ∷ ds) = ground (arith, same d, any-modify_first ds)

module _ {ℓ} {D : Type ℓ} where
  pub count-append : (p : D → Bool) (xs ys : List D) → count p (xs ++ ys) ≡ count p xs + count p ys
  count-append p [] ys = omega arith
  count-append p (x ∷ xs) ys = omega (arith, count-append p xs ys)

  pub first-append_none :
      (p : D → Bool) (xs ys : List D) → first p xs ≡ none → first p (xs ++ ys) ≡ first p ys
  first-append_none p [] ys h = refl
  first-append_none p (x ∷ xs) ys h = ground (arith, first-append_none p xs ys)

  pub any-first : (p : D → Bool) (xs : List D) → any p xs ≡ is_some (first p xs)
  any-first p [] = refl
  any-first p (x ∷ xs) = ground (arith, any-first p xs)

  pub any-append : (p : D → Bool) (xs ys : List D) → any p (xs ++ ys) ≡ (any p xs || any p ys)
  any-append p [] ys = refl
  any-append p (x ∷ xs) ys = ground (arith, any-append p xs ys)

  pub first_holds : (p : D → Bool) (xs : List D) {d : D} → first p xs ≡ some d → p d ≡ true
  first_holds p [] h = cc
  first_holds p (x ∷ xs) {d} h = elim (Bool-cases (p x)) [
    | inl e ↦ subst (λ y. p y ≡ true) (some-injective x d (rw e at h)) e
    | inr e ↦ first_holds p xs (rw e at h)
  ]

  -- Two updates of one document are one.
  pub modify_first-modify_first :
      (p : D → Bool) (f g : D → D)
      → ((d : D) → p (g d) ≡ p d)
      → (ds : List D) → modify_first p f (modify_first p g ds) ≡ modify_first p (λ d. f (g d)) ds
  modify_first-modify_first p f g same [] = refl
  modify_first-modify_first p f g same (d ∷ ds) =
      ground (arith, same d, modify_first-modify_first p f g same ds)

  pub modify_first_same : (p : D → Bool) (ds : List D) → modify_first p (λ d. d) ds ≡ ds
  modify_first_same p [] = refl
  modify_first_same p (d ∷ ds) = ground (arith, modify_first_same p ds)

  pub modify_first_none :
      (p : D → Bool) (f : D → D) (ds : List D) → any p ds ≡ false → modify_first p f ds ≡ ds
  modify_first_none p f [] h = refl
  modify_first_none p f (d ∷ ds) h = ground (arith, modify_first_none p f ds)
