-- ===== src/Api/Tokens/Sessions.antt =====
-- `src/api/token.py`: for whom a token speaks.
use mathlib.Core.Option.{some-injective}
use mathlib.Core.Path.{subst}
use mail_tester.Prelude.{
  ℕ, ◌+◌, ◌*◌, ◌/◌, ◌<◌, ◌≡◌, refl, sym, ap, ◌∙◌, arith, Bool, true, false, ◌&&◌, not, any, Option,
  none, some, Bool-cases, inl, inr, List, [], ◌∷◌, All, All-append, Text, null, ltb, ◌=ᵗ◌, =ᵗ_sound,
  =ᵗ_refl, if◌then◌else◌,
}
use mail_tester.Config.{Config}
use mail_tester.Time.{DateValue, naive, ensure_utc_aware, minute, second}
use mail_tester.Db.Mongo.{Mongo, IsMongo}
use mail_tester.Db.Mongo.Queries.{first, remove_first, any-append, first_holds}
use mail_tester.Db.Documents.{Token, Database}
use mail_tester.Exec.{ok}
use mail_tester.Api.Tokens.{
  Jwt, IsJwt, has_token, is_of_user, check_token, current_user, create_access_token, token_save,
  get_active_or_new_token, chosen, active, still_good,
}

module _ (J : Jwt) where
  -- The token was signed for its user and its expiry.
  abbrev pub IsIssued : Token → Type 0
  IsIssued t =
      (x : ℕ) × (t.token ≡ J.encode t.user_id (x / second))
      × (t.expire_at ≡ DateValue.date (naive x))

  -- What a token text leads to.
  abbrev pub IsValidFor : ℕ → ℕ → Token → Type 0
  IsValidFor u later t =
      (t.user_id ≡ u) × ((y : ℕ) × (t.expire_at ≡ DateValue.date (naive y)) × (later < y))

  module _ (K : IsJwt J) where
    find_issued :
        (u x later : ℕ) (ts : List Token)
        → All IsIssued ts
        → later < (x / second) * second
        → any (has_token (J.encode u (x / second))) ts ≡ true
        → (t : Token) × (first (has_token (J.encode u (x / second))) ts ≡ some t)
          × IsValidFor u later t
    find_issued u x later [] h l a = absurd (cc a)
    find_issued u x later (t ∷ ts) h l a = elim (Bool-cases (t.token =ᵗ J.encode u (x / second))) [
      | inl e ↦
          let (y, signed, expiry) = h.0 in
          let same =
            K.encode_injective t.user_id (y / second) u (x / second)
              (sym signed ∙ =ᵗ_sound t.token (J.encode u (x / second)) e) in
          (t, rw e refl, (same.0, (y, expiry, omega (arith, l, same.1))))
      | inr n ↦ let (t', f, v) = find_issued u x later ts h.1 l (rw n at a) in (t', rw n f, v)
    ]

    first-IsIssued :
        (p : Token → Bool) (ts : List Token)
        → All IsIssued ts
        → (t : Token) → first p ts ≡ some t
        → IsIssued t
    first-IsIssued p [] h t e = absurd (cc e)
    first-IsIssued p (d ∷ ds) h t e = elim (Bool-cases (p d)) [
      | inl y ↦ subst IsIssued (some-injective d t (rw y at e)) h.0
      | inr n ↦ first-IsIssued p ds h.1 t (rw n at e)
    ]

any_found :
    (p : Token → Bool) (ts : List Token) (t : Token)
    → first p ts ≡ some t
    → any (has_token t.token) ts ≡ true
any_found p [] t e = absurd (cc e)
any_found p (d ∷ ds) t e = elim (Bool-cases (p d)) [
  | inl y ↦ rw (ap (λ (x : Token). x.token) (some-injective d t (rw y at e)), =ᵗ_refl t.token) refl
  | inr n ↦ ground (arith, any_found p ds t (rw n at e))
]

remove_first-All :
    (P : Token → Type 0) (p : Token → Bool) (ts : List Token) → All P ts → All P (remove_first p ts)
remove_first-All P p [] h = tt
remove_first-All P p (d ∷ ds) h =
    elim (p d) as (λ b. All P (if b then ds else d ∷ remove_first p ds)) [
      | true ↦ h.1
      | false ↦ (h.0, remove_first-All P p ds h.1)
    ]

module _ (M : Mongo) (L : IsMongo M) (J : Jwt) (K : IsJwt J) (c : Config) where
  -- Every token of the store was signed for its user and its expiry.
  abbrev pub IsIssuedStore : Database M → Type 0
  IsIssuedStore db = All (IsIssued J) (M.docs db.tokens)

  valid-current_user :
      (u x later : ℕ) (db : Database M)
      → IsIssuedStore db
      → later < (x / second) * second
      → any (has_token (J.encode u (x / second))) (M.docs db.tokens) ≡ true
      → (t : Token) × (current_user M J later (J.encode u (x / second)) db ≡ ok t) × (t.user_id ≡ u)
  unfolding current_user check_token ensure_utc_aware
  valid-current_user u x later db h l a =
      let (t, f, (same, (y, expiry, l'))) = find_issued J K u x later (M.docs db.tokens) h l a in
      (
        t,
        ground (
          arith,
          K.decode-encode u (x / second) later l,
          L.find_one-docs (has_token (J.encode u (x / second))) db.tokens,
          f,
          same,
          expiry,
          l',
        ),
        same,
      )

  token_save-IsIssuedStore :
      (now u x : ℕ) (db : Database M)
      → IsIssuedStore db
      → IsIssuedStore (token_save M now (J.encode u (x / second)) u x db)
  unfolding token_save
  token_save-IsIssuedStore now u x db h =
      rw (L.docs-insert_one, L.docs-delete_one)
        (All-append (IsIssued J) _ _
          (remove_first-All (IsIssued J) (is_of_user u) (M.docs db.tokens) h) ((x, refl, refl), tt))

  token_save-any :
      (now u x : ℕ) (token : Text) (db : Database M)
      → any (has_token token) (M.docs (token_save M now token u x db).tokens) ≡ true
  unfolding token_save
  token_save-any now u x token db =
      rw (L.docs-insert_one, any-append (has_token token), =ᵗ_refl token) (ground arith)

  -- What a login gives: a pair, and the store after it.
  abbrev Speaks : ℕ → (Text × ℕ) × Database M → Type 0
  Speaks u r =
      (later : ℕ)
      → later < (r.0.1 / second) * second
      → (t : Token) × (current_user M J later r.0.0 r.1 ≡ ok t) × (t.user_id ≡ u)

  found-Speaks :
      (now u : ℕ) (db : Database M)
      → IsIssuedStore db
      → (t : Token) → M.find_one (is_of_user u) db.tokens ≡ some t
      → (x : ℕ) → t.token ≡ J.encode t.user_id (x / second)
      → Speaks u ((t.token, x), db)
  found-Speaks now u db h t e x signed later l =
      let e' = sym (L.find_one-docs (is_of_user u) db.tokens) ∙ e in
      let (t', f, same) = valid-current_user t.user_id x later db h l (
        subst (λ s. any (has_token s) (M.docs db.tokens) ≡ true) signed
          (any_found (is_of_user u) (M.docs db.tokens) t e')) in
      (
        t',
        ap (λ s. current_user M J later s db) signed ∙ f,
        same ∙ ground (arith, first_holds (is_of_user u) (M.docs db.tokens) e'),
      )

  new-Speaks :
      (now u x : ℕ) (db : Database M)
      → IsIssuedStore db
      → Speaks u ((J.encode u (x / second), x), token_save M now (J.encode u (x / second)) u x db)
  new-Speaks now u x db h later l =
      valid-current_user u x later _ (token_save-IsIssuedStore now u x db h) l
        (token_save-any now u x (J.encode u (x / second)) db)

  chosen-Speaks :
      (now u : ℕ) (db : Database M)
      → IsIssuedStore db
      → (o : Option Token) → M.find_one (is_of_user u) db.tokens ≡ o
      → Speaks u (chosen M J c now u db (active M J c now o))
  unfolding create_access_token ensure_utc_aware
  chosen-Speaks now u db h none e = new-Speaks now u (now + c.token_expire_minutes * minute) db h
  chosen-Speaks now u db h (some t) e =
      let (x, signed, expiry) =
        first-IsIssued J K (is_of_user u) (M.docs db.tokens) h t
          (sym (L.find_one-docs (is_of_user u) db.tokens) ∙ e) in
      subst (λ d. Speaks u (chosen M J c now u db (still_good M J c now t (ensure_utc_aware d))))
        (sym expiry)
        (elim (not (null t.token) && ltb now x)
          as (λ b. Speaks u (chosen M J c now u db (if b then some (t.token, x) else none))) [
            | true ↦ found-Speaks now u db h t e x signed
            | false ↦ new-Speaks now u (now + c.token_expire_minutes * minute) db h
          ])

  -- The token that a login gives, whether it is a new one or one that is still good, speaks for the user
  -- who logs in, in every request before the second of its expiry, if every stored token was signed for
  -- its user and its expiry.
  pub get_active_or_new_token-current_user :
      (now u later : ℕ) (db : Database M)
      → IsIssuedStore db
      → later < ((get_active_or_new_token M J c now u db).0.1 / second) * second
      → (t : Token) × (current_user M J later
            (get_active_or_new_token M J c now u db).0.0
            (get_active_or_new_token M J c now u db).1
          ≡ ok t)
        × (t.user_id ≡ u)
  unfolding get_active_or_new_token create_access_token ensure_utc_aware
  get_active_or_new_token-current_user now u later db h l =
      chosen-Speaks now u db h (M.find_one (is_of_user u) db.tokens) refl later l
