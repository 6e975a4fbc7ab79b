-- ===== src/Processor/Domains/Alignment.antt =====
-- `domains_aligned` of `src/processor/service.py`: what DMARC calls aligned, by the labels of the two
-- domains.
use mathlib.Core.Path.{subst}
use mathlib.Core.List.{map-append}
use mail_tester.Prelude.{
  ℕ, zero, suc, ◌-◌, ◌+◌, ◌≡◌, ◌↔◌, ◌∙◌, refl, sym, ap, arith, true, false, Bool, Option, some,
  List, [], ◌∷◌, ◌++◌, map, length, length-append, drop, leb, All, Text, codes, null, ◌||◌, ◌&&◌,
  not, ◌=ᵗ◌, =ᵗ_iff, lower, lower_idem, split, if◌then◌else◌,
}
use mail_tester.Processor.Domains.{organizational_domain, domains_aligned, mode_of, normal}
use mail_tester.Processor.Domains.Labels.{
  IsLabel, name_of, lower-labels, normal-name_of, split-name_of, split-normal, name_of-rstrip,
}

-- The last two labels.
drop-length : (xs ys : List Text) → drop (length xs) (xs ++ ys) ≡ ys
drop-length [] ys = refl
drop-length (x ∷ xs) ys = drop-length xs ys

length_two : (xs : List Text) (a b : Text) → length (xs ++ a ∷ b ∷ []) ≡ length xs + 2
length_two xs a b = length-append xs (a ∷ b ∷ [])

map-two :
    (xs : List Text) (a b : Text)
    → map lower (xs ++ a ∷ b ∷ []) ≡ map lower xs ++ lower a ∷ lower b ∷ []
map-two xs a b = map-append lower xs (a ∷ b ∷ [])

null_two : (xs : List Text) (a b : Text) → null (xs ++ a ∷ b ∷ []) ≡ false
null_two [] a b = refl
null_two (x ∷ xs) a b = refl

two_left : (n : ℕ) → n + 2 - 2 ≡ n
two_left n = omega arith

enough : (n : ℕ) → leb 2 (n + 2) ≡ true
enough n = ground arith

organizational_two :
    (xs : List Text) (a b : Text)
    → All IsLabel (xs ++ a ∷ b ∷ [])
    → organizational_domain (name_of (xs ++ a ∷ b ∷ [])) ≡ name_of (lower a ∷ lower b ∷ [])
unfolding organizational_domain
organizational_two xs a b h =
    rw
      (
        split-normal (xs ++ a ∷ b ∷ []) (null_two xs a b) h,
        map-two xs a b,
        length_two (map lower xs) (lower a) (lower b),
        enough (length (map lower xs)),
        two_left (length (map lower xs)),
        drop-length (map lower xs) (lower a ∷ lower b ∷ []),
      )
      refl

organizational-normal :
    (xs : List Text) (a b : Text)
    → All IsLabel (xs ++ a ∷ b ∷ [])
    → organizational_domain (normal (name_of (xs ++ a ∷ b ∷ []))) ≡ name_of (lower a ∷ lower b ∷ [])
organizational-normal xs a b h =
    ap organizational_domain (normal-name_of (xs ++ a ∷ b ∷ []) h ∙ ap name_of (map-two xs a b))
    ∙ organizational_two (map lower xs) (lower a) (lower b)
        (subst (All IsLabel) (map-two xs a b) (lower-labels (xs ++ a ∷ b ∷ []) h))
    ∙ rw (lower_idem a, lower_idem b) refl

name_of-null : (ls : List Text) → null ls ≡ false → All IsLabel ls → null (name_of ls) ≡ false
name_of-null [] n h = ground (arith, n)
name_of-null (l ∷ ls) n h = (name_of-rstrip l ls h).1

-- The last two labels are all that a list of two is joined of.
two_labels :
    (a b : Text) (xs : List Text)
    → All IsLabel (xs ++ a ∷ b ∷ [])
    → All IsLabel (lower a ∷ lower b ∷ [])
two_labels a b [] h = lower-labels (a ∷ b ∷ []) h
two_labels a b (x ∷ xs) (k, h) = two_labels a b xs h

abbrev nth_label : ℕ → List Text → Text
nth_label n [] = []
nth_label zero (l ∷ ls) = l
nth_label (suc n) (l ∷ ls) = nth_label n ls

-- A test for `P`, or one for `Q` where `s` does not forbid it.
either_iff :
    (p q s : Bool) (P Q : Type 0)
    → (p ≡ true) ↔ P
    → (q ≡ true) ↔ Q
    → (P → Q)
    → ((p || (not s && q)) ≡ true) ↔ (if s then P else Q)
either_iff true q true P Q f g h = f
either_iff false q true P Q f g h = f
either_iff true q false P Q f g h = (λ e. h (f.0 refl), λ x. refl)
either_iff false q false P Q f g h = g

trans_iff : {P Q S : Type 0} → P ↔ Q → Q ↔ S → P ↔ S
trans_iff f g = (λ x. g.0 (f.0 x), λ x. f.1 (g.1 x))

aligned_iff :
    (x y : Text) (mode : Option Text)
    → null x ≡ false
    → null y ≡ false
    → (domains_aligned x (some y) mode ≡ true) ↔ (
        ((normal x =ᵗ normal y)
          || (not (mode_of mode =ᵗ codes "s")
              && (organizational_domain (normal x) =ᵗ organizational_domain (normal y))))
        ≡ true)
unfolding domains_aligned
aligned_iff x y mode m n = ground arith

module _ (xs ys : List Text) (a b c d : Text) (h : All IsLabel (xs ++ a ∷ b ∷ []))
    (k : All IsLabel (ys ++ c ∷ d ∷ [])) where
  normals_iff :
      (normal (name_of (xs ++ a ∷ b ∷ [])) ≡ normal (name_of (ys ++ c ∷ d ∷ [])))
      ↔ (map lower (xs ++ a ∷ b ∷ []) ≡ map lower (ys ++ c ∷ d ∷ []))
  normals_iff = (
    λ e.
        sym (split-normal (xs ++ a ∷ b ∷ []) (null_two xs a b) h)
        ∙ (ap (split b'.') e ∙ split-normal (ys ++ c ∷ d ∷ []) (null_two ys c d) k),
    λ e.
        normal-name_of (xs ++ a ∷ b ∷ []) h
        ∙ (ap name_of e ∙ sym (normal-name_of (ys ++ c ∷ d ∷ []) k)),
  )

  organizational_iff :
      (organizational_domain (normal (name_of (xs ++ a ∷ b ∷ [])))
        ≡ organizational_domain (normal (name_of (ys ++ c ∷ d ∷ []))))
      ↔ ((lower a ≡ lower c) × (lower b ≡ lower d))
  organizational_iff = (
    λ e.
        let two =
          sym (split-name_of (lower a ∷ lower b ∷ []) refl (two_labels a b xs h))
          ∙ (ap (split b'.')
                (sym (organizational-normal xs a b h) ∙ (e ∙ organizational-normal ys c d k))
              ∙ split-name_of (lower c ∷ lower d ∷ []) refl (two_labels c d ys k)) in
        (ap (nth_label 0) two, ap (nth_label 1) two),
    λ (e, f).
        organizational-normal xs a b h ∙ (rw (e, f) refl ∙ sym (organizational-normal ys c d k)),
  )

-- Two domains, given by their labels, two or more of them, none of them empty. In strict mode they are
-- aligned exactly if they have the same labels, in any other mode exactly if the last two are the same;
-- upper and lower case do not differ. The mode is strict if it is `s` or `S`.
pub domains_aligned_labels :
    (xs ys : List Text) (a b c d : Text) (mode : Option Text)
    → All IsLabel (xs ++ a ∷ b ∷ [])
    → All IsLabel (ys ++ c ∷ d ∷ [])
    → (domains_aligned (name_of (xs ++ a ∷ b ∷ [])) (some (name_of (ys ++ c ∷ d ∷ []))) mode ≡ true)
      ↔ (if mode_of mode =ᵗ codes "s"
          then map lower (xs ++ a ∷ b ∷ []) ≡ map lower (ys ++ c ∷ d ∷ [])
          else (lower a ≡ lower c) × (lower b ≡ lower d))
domains_aligned_labels xs ys a b c d mode h k =
    let x = name_of (xs ++ a ∷ b ∷ []) in
    let y = name_of (ys ++ c ∷ d ∷ []) in
    let normals = normals_iff xs ys a b c d h k in
    let organizationals = organizational_iff xs ys a b c d h k in
    trans_iff
      (aligned_iff x y mode (name_of-null (xs ++ a ∷ b ∷ []) (null_two xs a b) h)
        (name_of-null (ys ++ c ∷ d ∷ []) (null_two ys c d) k))
      (either_iff (normal x =ᵗ normal y)
        (organizational_domain (normal x) =ᵗ organizational_domain (normal y))
        (mode_of mode =ᵗ codes "s") _ _ (trans_iff (=ᵗ_iff (normal x) (normal y)) normals)
        (trans_iff (=ᵗ_iff (organizational_domain (normal x)) (organizational_domain (normal y)))
          organizationals)
        (λ e. organizationals.0 (ap organizational_domain (normals.1 e))))
