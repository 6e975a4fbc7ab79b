-- ===== src/Processor/Dmarc/Walk.antt =====
-- `check_dmarc_record` of `src/processor/service.py`: the domains that the loop walks through.
use mail_tester.Prelude.{
  ℕ, zero, suc, ◌≤◌, ◌≡◌, refl, arith, Bool, true, false, ◌||◌, some, Option-cases, Bool-cases, inl,
  inr, ◌⊎◌, List, [], ◌∷◌, ◌==◌, if◌then◌else◌, leb, Text, strip, is_dot, count_char, split_once,
}
use mail_tester.Processor.Dns.{Dns}
use mail_tester.Processor.Dmarc.{
  Round, record_here, none_here, failed_here, look, WalkResult, not_found, parent_of, walk,
  check_dmarc_record, has_failed,
}

-- What stands after each dot of a name: its parent, the parent of that, and so on.
unfoldable pub after_dots : Text → List Text
after_dots [] = []
after_dots (c ∷ s) = let rest = after_dots s in if b'.' == c then s ∷ rest else rest

unfoldable pub dotted : List Text → List Text
dotted [] = []
dotted (s ∷ ss) = let rest = dotted ss in if leb 1 (count_char b'.' s) then s ∷ rest else rest

-- The name and its parents, less those that have no dot.
abbrev pub candidates : Text → List Text
candidates s = dotted (s ∷ after_dots s)

-- The first of the names that has a record.
unfoldable pub nearest : Dns → List Text → Bool → WalkResult
nearest dns [] failed = not_found failed
nearest dns (c ∷ cs) failed = elim (look dns c) [
  | record_here r ↦ (some true, some r, some c)
  | none_here ↦ nearest dns cs failed
  | failed_here ↦ nearest dns cs true
]

no_dot-after_dots : (s : Text) → count_char b'.' s ≡ 0 → after_dots s ≡ []
unfolding after_dots count_char
no_dot-after_dots [] h = refl
no_dot-after_dots (c ∷ s) h = ground (arith, no_dot-after_dots s)

pub dot-after_dots :
    (s : Text)
    → 1 ≤ count_char b'.' s
    → (after_dots s ≡ parent_of s ∷ after_dots (parent_of s))
      × (suc (count_char b'.' (parent_of s)) ≡ count_char b'.' s)
unfolding after_dots count_char split_once
dot-after_dots [] h = ground arith
dot-after_dots (c ∷ s) h = elim (Bool-cases (b'.' == c)) [
  | inl e ↦ ground arith
  | inr e ↦ elim (Option-cases (split_once b'.' s)) [
    | inl n ↦ ground (arith, dot-after_dots s)
    | inr (r, n) ↦ ground (arith, dot-after_dots s)
  ]
]

no_dot-candidates : (s : Text) → count_char b'.' s ≡ 0 → candidates s ≡ []
unfolding dotted
no_dot-candidates s h = ground (arith, no_dot-after_dots s h)

dot-candidates : (s : Text) → 1 ≤ count_char b'.' s → candidates s ≡ s ∷ candidates (parent_of s)
unfolding dotted
dot-candidates s h = ground (arith, dot-after_dots s h)

pub Round-cases :
    (r : Round) → ((t : Text) × (r ≡ record_here t)) ⊎ ((r ≡ none_here) ⊎ (r ≡ failed_here))
Round-cases (record_here t) = inl (t, refl)
Round-cases none_here = inr (inl refl)
Round-cases failed_here = inr (inr refl)

-- One round on a name with a dot.
walk_step :
    (dns : Dns) (n : ℕ) (s : Text) (failed : Bool)
    → 1 ≤ count_char b'.' s
    → (walk dns n (parent_of s) (failed || has_failed (look dns s))
        ≡ nearest dns (candidates (parent_of s)) (failed || has_failed (look dns s)))
    → walk dns (suc n) s failed ≡ nearest dns (s ∷ candidates (parent_of s)) failed
unfolding walk nearest
walk_step dns n s failed h e = elim (Round-cases (look dns s)) [
  | inl (t, r) ↦ ground arith
  | inr (inl r) ↦ ground (arith, dot-after_dots s h, no_dot-candidates (parent_of s))
  | inr (inr r) ↦ ground (arith, dot-after_dots s h, no_dot-candidates (parent_of s))
]

-- With as many rounds as the name has dots, or more, the loop finds the nearest of its candidates.
walk-nearest :
    (dns : Dns) (n : ℕ) (s : Text) (failed : Bool)
    → count_char b'.' s ≤ n
    → walk dns n s failed ≡ nearest dns (candidates s) failed
unfolding walk nearest
walk-nearest dns zero s failed h = ground (arith, no_dot-candidates s)
walk-nearest dns (suc n) s failed h = elim (Bool-cases (leb 1 (count_char b'.' s))) [
  | inl e ↦ ground (
    arith,
    dot-candidates s,
    dot-after_dots s,
    walk_step dns n s failed,
    walk-nearest dns n (parent_of s) (failed || has_failed (look dns s)),
  )
  | inr e ↦ ground (arith, no_dot-candidates s)
]

-- The record that counts for a domain is that of the nearest candidate that has one: the domain
-- itself, less the dots at its ends, then its parents, as long as a dot is left. If there is none, the
-- answer is "missing", or "unknown" if a lookup failed on the way.
pub check_dmarc_record-nearest :
    (dns : Dns) (domain : Text)
    → check_dmarc_record dns domain ≡ nearest dns (candidates (strip is_dot domain)) false
unfolding check_dmarc_record
check_dmarc_record-nearest dns domain =
    walk-nearest dns (count_char b'.' (strip is_dot domain)) (strip is_dot domain) false
      (omega arith)
