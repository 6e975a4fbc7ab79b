-- ===== src/Processor/Dmarc/Loop.antt =====
-- `check_dmarc_record` of `src/processor/service.py`: its loop as the source has it, without fuel, and
-- that it comes to an end.
use mail_tester.Prelude.{
  ℕ, zero, suc, ◌≤◌, ◌≡◌, arith, Bool, true, false, ◌||◌, some, Bool-cases, inl, inr, ◌⊎◌, ◌==◌,
  if◌then◌else◌, leb, Text, strip, is_dot, count_char,
}
use mail_tester.Processor.Dns.{Dns}
use mail_tester.Processor.Dmarc.{
  Round, record_here, none_here, failed_here, look, WalkResult, not_found, parent_of, walk,
  check_dmarc_record, has_failed,
}
use mail_tester.Processor.Dmarc.Walk.{Round-cases, dot-after_dots}

abbrev IsAbsent : Round → Type 0
IsAbsent r = (r ≡ none_here) ⊎ (r ≡ failed_here)

-- `Runs dns candidate failed r`: from this candidate, after failed lookups or not, the loop ends and
-- `r` is returned.
pub data Runs (dns : Dns) : Text → Bool → WalkResult → Type 0 where
  -- The test of `while` is false.
  exhausted :
      {candidate : Text} {failed : Bool}
      → count_char b'.' candidate ≡ 0
      → Runs dns candidate failed (not_found failed)
  returned :
      {candidate : Text} {failed : Bool} {r : Text}
      → 1 ≤ count_char b'.' candidate
      → look dns candidate ≡ record_here r
      → Runs dns candidate failed (some true, some r, some candidate)
  -- `break`
  left :
      {candidate : Text} {failed : Bool}
      → count_char b'.' candidate ≡ 1
      → IsAbsent (look dns candidate)
      → Runs dns candidate failed (not_found (failed || has_failed (look dns candidate)))
  again :
      {candidate : Text} {failed : Bool} {r : WalkResult}
      → 2 ≤ count_char b'.' candidate
      → IsAbsent (look dns candidate)
      → Runs dns (parent_of candidate) (failed || has_failed (look dns candidate)) r
      → Runs dns candidate failed r

module _ (dns : Dns) where
  walk_absent :
      (n : ℕ) (s : Text) (failed : Bool)
      → 1 ≤ count_char b'.' s
      → IsAbsent (look dns s)
      → walk dns (suc n) s failed ≡ (
          if count_char b'.' s == 1
          then not_found (failed || has_failed (look dns s))
          else walk dns n (parent_of s) (failed || has_failed (look dns s)))
  unfolding walk
  walk_absent n s failed h (inl e) = ground arith
  walk_absent n s failed h (inr e) = ground arith

  absent-Runs :
      (n : ℕ) (s : Text) (failed : Bool)
      → 1 ≤ count_char b'.' s
      → IsAbsent (look dns s)
      → Runs dns
          (parent_of s)
          (failed || has_failed (look dns s))
          (walk dns n (parent_of s) (failed || has_failed (look dns s)))
      → Runs dns s failed (walk dns (suc n) s failed)
  absent-Runs n s failed h a rest = elim (Bool-cases (count_char b'.' s == 1)) [
    | inl one ↦ rw (walk_absent n s failed h a, one) (left (ground arith) a)
    | inr more ↦ rw (walk_absent n s failed h a, more) (again (ground arith) a rest)
  ]

  walk-Runs :
      (n : ℕ) (s : Text) (failed : Bool)
      → count_char b'.' s ≤ n
      → Runs dns s failed (walk dns n s failed)
  unfolding walk
  walk-Runs zero s failed h = exhausted (omega (arith, h))
  walk-Runs (suc n) s failed h = elim (Bool-cases (leb 1 (count_char b'.' s))) [
    | inl dotted ↦ elim (Round-cases (look dns s)) [
      | inl (r, e) ↦ rw (dotted, e) (returned (ground arith) e)
      | inr a ↦ absent-Runs n s failed (ground arith) a (
          walk-Runs n (parent_of s) (failed || has_failed (look dns s))
            (ground (arith, dot-after_dots s)))
    ]
    | inr bare ↦ rw bare (exhausted (ground arith))
  ]

  -- Whatever the resolver answers, the loop comes to an end for every domain, and
  -- `check_dmarc_record` is what it returns.
  pub check_dmarc_record-Runs :
      (domain : Text) → Runs dns (strip is_dot domain) false (check_dmarc_record dns domain)
  unfolding check_dmarc_record
  check_dmarc_record-Runs domain =
      walk-Runs (count_char b'.' (strip is_dot domain)) (strip is_dot domain) false (omega arith)
