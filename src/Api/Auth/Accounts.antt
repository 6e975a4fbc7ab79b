-- ===== src/Api/Auth/Accounts.antt =====
-- `src/api/auth.py`: how many accounts an e-mail address has.
use mail_tester.Prelude.{
  ℕ, ◌≤◌, ◌≡◌, refl, sym, ap, ◌∙◌, arith, false, not, Option, List, [], ◌∷◌, Text, codes, null,
  length, ltb, ◌=ᵗ◌, =ᵗ_sound, =ᵗ_refl, is_some, Bool-cases, inl, inr, if_both,
}
use mail_tester.Config.{Config}
use mail_tester.Db.Mongo.{Mongo, IsMongo}
use mail_tester.Db.Mongo.Queries.{count, count-append, first}
use mail_tester.Db.Redis.{Redis}
use mail_tester.Db.Documents.{User}
use mail_tester.Exec.{World, Exec, bind_keeps}
use mail_tester.Api.RateLimit.{enforce}
use mail_tester.Api.Auth.{
  Passwords, has_email, insert_user, new_user, register, register_form, register_new,
  is_valid_email, normal_email,
}

-- No two accounts have one address.
abbrev pub IsUniqueEmails : {M : Mongo} {R : Redis} → World M R → Type 0
IsUniqueEmails {M} w = (email : Text) → count (has_email email) (M.docs w.db.users) ≤ 1

absent_email :
    (email : Text) (us : List User)
    → is_some (first (has_email email) us) ≡ false
    → count (has_email email) us ≡ 0
absent_email email [] h = refl
absent_email email (u ∷ us) h = ground (arith, absent_email email us)

module _ (M : Mongo) (L : IsMongo M) (R : Redis) (P : Passwords) (c : Config) where
  insert_user-IsUniqueEmails :
      (now : ℕ) (email password : Text) (ip : Option Text) (w : World M R)
      → count (has_email email) (M.docs w.db.users) ≡ 0
      → IsUniqueEmails w
      → IsUniqueEmails (insert_user P c now email password ip w).1
  unfolding insert_user new_user
  insert_user-IsUniqueEmails now email password ip w fresh S = λ other.
      rw (L.docs-insert_one, count-append)
        (elim (Bool-cases (email =ᵗ other)) [
          | inl e ↦ rw (sym (=ᵗ_sound email other e), =ᵗ_refl email, fresh) (omega arith)
          | inr n ↦ rw n (omega (arith, S other))
        ])

  register_new-IsUniqueEmails :
      (now : ℕ) (email password : Text) (ip : Option Text) (w : World M R)
      → IsUniqueEmails w
      → IsUniqueEmails (register_new P c now email password ip w).1
  unfolding register_new
  register_new-IsUniqueEmails now email password ip w S =
      elim (Bool-cases (is_some (M.find_one (has_email email) w.db.users))) [
        | inl e ↦ rw e S
        | inr n ↦ rw n (
            insert_user-IsUniqueEmails now email password ip w
              (absent_email email (M.docs w.db.users)
                (ap is_some (sym (L.find_one-docs (has_email email) w.db.users)) ∙ n))
              S)
      ]

  register_form-IsUniqueEmails :
      (now : ℕ) (email password : Text) (ip : Option Text) (w : World M R)
      → IsUniqueEmails w
      → IsUniqueEmails (register_form P c now email password ip w).1
  register_form-IsUniqueEmails now email password ip w S = if_both keeps (null email) _ _ S (
      if_both keeps (not (is_valid_email email)) _ _ S (
        if_both keeps (ltb (length password) c.password_min_length) _ _ S
          (register_new-IsUniqueEmails now email password ip w S)))
    where
      keeps : Exec (World M R) (ℕ × ℕ) → Type 0
      keeps m = IsUniqueEmails (m w).1

  -- A registration, with or without success, leaves no two accounts with one e-mail address, if there
  -- were none before.
  pub register-IsUniqueEmails :
      (now : ℕ) (email password ip : Option Text) (w : World M R)
      → IsUniqueEmails w
      → IsUniqueEmails (register P c now email password ip w).1
  unfolding register enforce
  register-IsUniqueEmails now email password ip w S =
      bind_keeps IsUniqueEmails _
        (enforce now (codes "register") ip c.auth_rate_limit c.auth_rate_window) w S
        (λ _ v T. register_form-IsUniqueEmails now (normal_email email) _ ip v T)
