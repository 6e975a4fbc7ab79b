-- ===== src/Processor/Analyzer/Authentication.antt =====
-- `src/processor/analyzer.py`: what SPF, DKIM and DMARC cost.
use mail_tester.Prelude.{
  ℕ, Bool, true, false, Option, none, some, List, [], ◌∷◌, ◌++◌, map, Text, codes, null, lower,
  ◌=ᵗ◌, if◌then◌else◌,
}
use mail_tester.Db.Cache.{text_or_empty}
use mail_tester.Ingest.Connection.{upper_char}
use mail_tester.Processor.Score.{Deduction, high, medium, low}
use mail_tester.Processor.Spf.{SpfCheck, Status, ok, unknown, missing, text_or}
use mail_tester.Processor.Dkim as Dkim
use mail_tester.Processor.Dkim.{DkimCheck}
use mail_tester.Processor.Dmarc.{DmarcCheck, Result, pass, fail, result_none, result_unknown}
use mail_tester.Processor.Analyzer.Calls.{deduction, shown}

-- `SPF_PENALTY.get(result, 0.5)`
unfoldable pub spf_penalty : Text → ℕ
spf_penalty result =
    if result =ᵗ codes "fail"
    then 200
    else if result =ᵗ codes "softfail"
    then 100
    else if result =ᵗ codes "neutral"
    then 50
    else if result =ᵗ codes "none"
    then 50
    else if result =ᵗ codes "permerror"
    then 100
    else if result =ᵗ codes "temperror"
    then 30
    else 50

module _ (domain : Text) (public_ip : Option Text) where
  abbrev spf_not_found : Deduction
  spf_not_found =
      deduction 200 (codes "SPF record not found") (codes "SPF_MISSING") high []
        (codes "Add an SPF TXT record for " ++ (domain ++ codes ". Example: v=spf1 a mx ~all"))

  abbrev spf_returned : Text → Option Text → Deduction
  spf_returned result explanation =
      deduction (spf_penalty result) (codes "SPF check returned " ++ result)
        (codes "SPF_" ++ map upper_char result) high (text_or_empty explanation)
        (codes "Add "
          ++ (shown public_ip ++ (codes " to the SPF record of " ++ (domain ++ codes "."))))

  abbrev spf_result : Option Text → Option Text → List Deduction
  spf_result none explanation = []
  spf_result (some result) explanation =
      if null result
      then []
      else if result =ᵗ codes "pass"
      then []
      else spf_returned result explanation ∷ []

  abbrev spf_by_status : Status → SpfCheck → List Deduction
  spf_by_status unknown spf = []
  spf_by_status missing spf = spf_not_found ∷ []
  spf_by_status ok spf = spf_result spf.result spf.explanation

  unfoldable pub spf_deductions : SpfCheck → List Deduction
  unfolding spf_penalty
  spf_deductions spf = spf_by_status spf.status spf

module _ (domain : Text) where
  abbrev dkim_verdict : Option Bool → DkimCheck → List Deduction
  dkim_verdict none dkim = []
  dkim_verdict (some true) dkim = []
  dkim_verdict (some false) dkim =
      deduction 150 (codes "DKIM signature does not verify") (codes "DKIM_INVALID") high
        (text_or_empty dkim.error)
        (codes
          "The signature does not match the message. Check whether a relay rewrites the body or headers after signing.")
      ∷ []

  abbrev dkim_by_status : Dkim.Status → DkimCheck → List Deduction
  dkim_by_status Dkim.unknown dkim = []
  dkim_by_status Dkim.missing dkim =
      deduction 150 (codes "DKIM signature not found") (codes "DKIM_MISSING") high [] (
        codes "Sign outgoing mail with DKIM and publish the selector at <selector>._domainkey."
        ++ (domain ++ codes "."))
      ∷ []
  dkim_by_status Dkim.broken dkim =
      deduction 100 (codes "DKIM signature is malformed") (codes "DKIM_BROKEN") high []
        (codes "The DKIM-Signature header has no selector tag. Check the signing setup.")
      ∷ []
  dkim_by_status Dkim.no_key dkim =
      deduction 150 (codes "DKIM public key not published") (codes "DKIM_NO_KEY") high
        (shown dkim.selector ++ (codes "._domainkey." ++ text_or dkim.signing_domain domain))
        (codes "Publish the DKIM selector TXT record in DNS.")
      ∷ []
  dkim_by_status Dkim.ok dkim = dkim_verdict dkim.verified dkim

  unfoldable pub dkim_deductions : DkimCheck → List Deduction
  dkim_deductions dkim = dkim_by_status dkim.status dkim

  abbrev dmarc_not_found : Deduction
  dmarc_not_found =
      deduction 100 (codes "DMARC record not found") (codes "DMARC_MISSING") medium [] (
        codes "Add a DMARC TXT record at _dmarc."
        ++ (domain ++ codes ". Start with p=none, then enforce."))

  abbrev dmarc_failed : DmarcCheck → Deduction
  dmarc_failed dmarc =
      deduction 100 (codes "DMARC alignment failed") (codes "DMARC_FAIL") high
        (codes "aspf=" ++ (dmarc.aspf ++ (codes " adkim=" ++ dmarc.adkim)))
        (codes "Make the From domain match the SPF or DKIM domain so DMARC can align.")

  abbrev dmarc_policy : Option Text → List Deduction
  dmarc_policy policy =
      if lower (text_or policy (codes "none")) =ᵗ codes "none"
      then deduction 30 (codes "DMARC policy is set to none") (codes "DMARC_POLICY_NONE") low []
          (codes "Move to p=quarantine and then p=reject once your reports look clean.")
        ∷ []
      else []

  -- The status, and then the result, where the status does not decide.
  abbrev dmarc_by_result : Result → DmarcCheck → List Deduction
  dmarc_by_result result_unknown dmarc = []
  dmarc_by_result pass dmarc = dmarc_policy dmarc.policy
  dmarc_by_result fail dmarc = dmarc_failed dmarc ∷ []
  dmarc_by_result result_none dmarc = dmarc_failed dmarc ∷ []

  abbrev dmarc_missing : Result → List Deduction
  dmarc_missing result_unknown = []
  dmarc_missing pass = dmarc_not_found ∷ []
  dmarc_missing fail = dmarc_not_found ∷ []
  dmarc_missing result_none = dmarc_not_found ∷ []

  abbrev dmarc_by_status : Status → DmarcCheck → List Deduction
  dmarc_by_status unknown dmarc = []
  dmarc_by_status missing dmarc = dmarc_missing dmarc.result
  dmarc_by_status ok dmarc = dmarc_by_result dmarc.result dmarc

  unfoldable pub dmarc_deductions : DmarcCheck → List Deduction
  dmarc_deductions dmarc = dmarc_by_status dmarc.status dmarc
