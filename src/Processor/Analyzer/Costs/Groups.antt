-- ===== src/Processor/Analyzer/Costs/Groups.antt =====
-- `Analyzer.analyze` of `src/processor/analyzer.py`: what each group of deductions amounts to.
use mail_tester.Prelude.{
  ℕ, ◌+◌, ◌*◌, ◌≤◌, ◌≡◌, refl, min, Bool, true, false, Option, none, some, List, [], ◌∷◌, ◌++◌,
  Text, arith, All, All-append, Bool-cases, Option-cases, inl, inr, if_both, not, null, ltb, leb,
  ◌&&◌, ◌==◌, length,
}
use mail_tester.Db.Documents.{Connection}
use mail_tester.Processor.Score.{Deduction}
use mail_tester.Processor.Score.Totals.{points_lost, points_lost-append}
use mail_tester.Processor.Spf.{SpfCheck}
use mail_tester.Processor.Dkim.{DkimCheck}
use mail_tester.Processor.Dmarc.{DmarcCheck, Tags}
use mail_tester.Processor.Rdns.{RdnsCheck}
use mail_tester.Processor.Blacklists.Ips.{IpReport}
use mail_tester.Processor.Blacklists.Domains.{DomainReport}
use mail_tester.Processor.Content.Inspect.{Content}
use mail_tester.Worker.Spamd.{SpamCheck}
use mail_tester.Processor.Analyzer.Calls.{when}
use mail_tester.Processor.Analyzer.Authentication.{
  spf_penalty, spf_deductions, dkim_deductions, dmarc_deductions,
}
use mail_tester.Processor.Analyzer.Headers.{header_deductions, envelope_deductions}
use mail_tester.Processor.Analyzer.Delivery.{
  tls_deductions, helo_deductions, rdns_deductions, helo_rdns_deductions, listed_on,
  blacklist_deductions,
}
use mail_tester.Processor.Analyzer.Body.{
  body_deductions, unsubscribe_deductions, subject_deductions, domain_deductions, spam_penalty,
  spam_deductions,
}
use mail_tester.Processor.Analyzer.Analysis.{rdns_part, blacklist_part}

abbrev pub IsCharged : Deduction → Type 0
IsCharged d = 1 ≤ d.value

-- Deductions of at most `n` in all, each of them of more than nothing.
pub record IsWithin (n : ℕ) (ds : List Deduction) : Type 0 where
  pub lost : points_lost ds ≤ n
  pub charged : All IsCharged ds

nil-IsWithin : (n : ℕ) → IsWithin n []
nil-IsWithin n = record { lost = omega arith; charged = tt }

one-IsWithin : (n : ℕ) (d : Deduction) → 1 ≤ d.value → d.value ≤ n → IsWithin n (d ∷ [])
one-IsWithin n d h k = record { lost = omega arith; charged = (h, tt) }

-- A test of a deduction of a fixed amount, which computes.
abbrev is_within : ℕ → Deduction → Bool
is_within n d = leb 1 d.value && leb d.value n

if-IsWithin : (n : ℕ) (d : Deduction) → is_within n d ≡ true → IsWithin n (d ∷ [])
if-IsWithin n d h = one-IsWithin n d (ground arith) (ground arith)

when-IsWithin : (n : ℕ) (b : Bool) (d : Deduction) → is_within n d ≡ true → IsWithin n (when b d)
unfolding when
when-IsWithin n true d h = if-IsWithin n d h
when-IsWithin n false d h = nil-IsWithin n

pub append-IsWithin :
    (m n : ℕ) (ds es : List Deduction) → IsWithin m ds → IsWithin n es → IsWithin (m + n) (ds ++ es)
append-IsWithin m n ds es h k = record {
  lost = omega (arith, h.lost, k.lost, points_lost-append ds es);
  charged = All-append IsCharged ds es h.charged k.charged;
}

-- A deduction that is made if it is of more than nothing.
positive-IsWithin : (n : ℕ) (d : Deduction) → d.value ≤ n → IsWithin n (when (ltb 0 d.value) d)
unfolding when
positive-IsWithin n d h = elim (Bool-cases (ltb 0 d.value)) [
  | inl e ↦ rw e (one-IsWithin n d (ground arith) h)
  | inr e ↦ rw e (nil-IsWithin n)
]

module _ (domain : Text) where
  spf_penalty-bounds : (result : Text) → (1 ≤ spf_penalty result) × (spf_penalty result ≤ 200)
  unfolding spf_penalty
  spf_penalty-bounds result = ground arith

  pub spf_deductions-IsWithin :
      (ip : Option Text) (spf : SpfCheck) → IsWithin 200 (spf_deductions domain ip spf)
  unfolding spf_deductions
  spf_deductions-IsWithin ip spf = elim (Option-cases spf.result) [
    | inl e ↦ ground arith
    | inr (r, e) ↦ ground (arith, spf_penalty-bounds r)
  ]

  pub dkim_deductions-IsWithin : (dkim : DkimCheck) → IsWithin 150 (dkim_deductions domain dkim)
  unfolding dkim_deductions
  dkim_deductions-IsWithin dkim = ground arith

  pub dmarc_deductions-IsWithin :
      (dmarc : DmarcCheck) → IsWithin 100 (dmarc_deductions domain dmarc)
  unfolding dmarc_deductions
  dmarc_deductions-IsWithin dmarc = ground arith

pub header_deductions-IsWithin : (headers : Tags) → IsWithin 120 (header_deductions headers)
unfolding header_deductions
header_deductions-IsWithin headers =
    append-IsWithin 50 70 _ _ (when-IsWithin 50 _ _ refl)
      (append-IsWithin 50 20 _ _ (when-IsWithin 50 _ _ refl) (when-IsWithin 20 _ _ refl))

pub envelope_deductions-IsWithin :
    (domain : Text) (from : Option Text) → IsWithin 30 (envelope_deductions domain from)
unfolding envelope_deductions
envelope_deductions-IsWithin domain from = when-IsWithin 30 _ _ refl

pub tls_deductions-IsWithin : (c : Option Connection) → IsWithin 50 (tls_deductions c)
unfolding tls_deductions
tls_deductions-IsWithin c = when-IsWithin 50 _ _ refl

pub helo_deductions-IsWithin : (helo : Option Text) → IsWithin 30 (helo_deductions helo)
unfolding helo_deductions
helo_deductions-IsWithin none = nil-IsWithin 30
helo_deductions-IsWithin (some h) =
    if_both (IsWithin 30) (null h) _ _ (nil-IsWithin 30) (when-IsWithin 30 _ _ refl)

rdns_deductions-IsWithin : (ip : Text) (rdns : RdnsCheck) → IsWithin 50 (rdns_deductions ip rdns)
unfolding rdns_deductions
rdns_deductions-IsWithin ip rdns = ground arith

helo_rdns_deductions-IsWithin :
    (helo hostname : Option Text) → IsWithin 20 (helo_rdns_deductions helo hostname)
unfolding helo_rdns_deductions
helo_rdns_deductions-IsWithin none hostname = nil-IsWithin 20
helo_rdns_deductions-IsWithin (some h) none =
    if_both (IsWithin 20) (null h) _ _ (nil-IsWithin 20) (nil-IsWithin 20)
helo_rdns_deductions-IsWithin (some h) (some name) =
    if_both (IsWithin 20) (null h) _ _ (nil-IsWithin 20)
      (if_both (IsWithin 20) (null name) _ _ (nil-IsWithin 20) (when-IsWithin 20 _ _ refl))

-- What is charged for a list of things found, capped, if there are any.
found-IsWithin :
    {A : Type 0} (n : ℕ) (xs : List A) (d : Deduction)
    → 1 ≤ n
    → d.value ≡ min 200 (n * length xs)
    → IsWithin 200 (when (not (null xs)) d)
unfolding when
found-IsWithin n [] d h e = nil-IsWithin 200
found-IsWithin n (x ∷ xs) d h e = one-IsWithin 200 d (ground arith) (omega arith)

blacklist_deductions-IsWithin : (bl : IpReport) → IsWithin 200 (blacklist_deductions bl)
unfolding blacklist_deductions
blacklist_deductions-IsWithin bl = found-IsWithin 40 (listed_on bl.results) _ (omega arith) refl

pub domain_deductions-IsWithin : (bl : DomainReport) → IsWithin 200 (domain_deductions bl)
unfolding domain_deductions
domain_deductions-IsWithin bl = found-IsWithin 100 bl.listings _ (omega arith) refl

pub body_deductions-IsWithin : (k : Content) → IsWithin 220 (body_deductions k)
unfolding body_deductions
body_deductions-IsWithin k = append-IsWithin 50 170 _ _ (when-IsWithin 50 _ _ refl) (
    append-IsWithin 50 120 _ _ (when-IsWithin 50 _ _ refl) (
      append-IsWithin 50 70 _ _ (when-IsWithin 50 _ _ refl)
        (append-IsWithin 20 50 _ _ (when-IsWithin 20 _ _ refl) (when-IsWithin 50 _ _ refl))))

pub unsubscribe_deductions-IsWithin :
    (k : Content) (b : Bool) → IsWithin 20 (unsubscribe_deductions k b)
unfolding unsubscribe_deductions
unsubscribe_deductions-IsWithin k b = when-IsWithin 20 _ _ refl

pub subject_deductions-IsWithin : (k : Content) → IsWithin 70 (subject_deductions k)
unfolding subject_deductions
subject_deductions-IsWithin k =
    append-IsWithin 50 20 _ _
      (if_both (IsWithin 50) (k.subject_length == 0) _ _ (if-IsWithin 50 _ refl)
        (when-IsWithin 50 _ _ refl))
      (when-IsWithin 20 _ _ refl)

spam_penalty_le : (cap : ℕ) (sa : SpamCheck) → (spam_penalty cap sa).0 ≤ cap
unfolding spam_penalty
spam_penalty_le cap sa = ground arith

pub spam_deductions-IsWithin : (cap : ℕ) (sa : SpamCheck) → IsWithin cap (spam_deductions cap sa)
unfolding spam_deductions
spam_deductions-IsWithin cap sa = positive-IsWithin cap _ (spam_penalty_le cap sa)

pub rdns_part-IsWithin :
    (helo ip : Option Text) (rdns : Option RdnsCheck) → IsWithin 70 (rdns_part helo ip rdns)
rdns_part-IsWithin helo none rdns = nil-IsWithin 70
rdns_part-IsWithin helo (some ip) none = nil-IsWithin 70
rdns_part-IsWithin helo (some ip) (some rdns) =
    append-IsWithin 50 20 _ _ (rdns_deductions-IsWithin ip rdns)
      (helo_rdns_deductions-IsWithin helo rdns.hostname)

pub blacklist_part-IsWithin : (bl : Option IpReport) → IsWithin 200 (blacklist_part bl)
blacklist_part-IsWithin none = nil-IsWithin 200
blacklist_part-IsWithin (some bl) = blacklist_deductions-IsWithin bl
