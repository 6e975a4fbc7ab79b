-- ===== src/Processor/Analyzer/Body.antt =====
-- `src/processor/analyzer.py`: what the content, listed domains and SpamAssassin cost.
use mail_tester.Prelude.{
  ℕ, ◌*◌, min, Bool, true, false, ◌&&◌, ◌||◌, not, Option, none, some, List, [], ◌∷◌, ◌++◌, map,
  any, Text, codes, null, length, starts_with, ltb, ◌==◌, ◌=ᵗ◌, if◌then◌else◌,
}
use mail_tester.Decimal.{Decimal, pow10, sum, hundredths, is_positive, show_nat, show_decimal}
use mail_tester.Processor.Score.{Deduction, high, medium, low}
use mail_tester.Processor.Content.Inspect.{Content, filter}
use mail_tester.Processor.Blacklists.Domains.{DomainReport}
use mail_tester.Worker.Spamd.{Rule, SpamCheck, Status, ok, error}
use mail_tester.Processor.Analyzer.Calls.{deduction, when, join_texts}

-- `content["text_ratio"] is not None and content["text_ratio"] < 0.05`
abbrev pub is_low_ratio : Option Decimal → Bool
is_low_ratio none = false
is_low_ratio (some r) = ltb (r.mantissa * 100) (5 * pow10 r.places)

abbrev shown_ratio : Option Decimal → Text
shown_ratio none = codes "None"
shown_ratio (some r) = show_decimal r

-- Lines 213 to 234, which depend on the bodies only.
unfoldable pub body_deductions : Content → List Deduction
unfolding pow10 show_decimal show_nat join_texts
body_deductions c =
    when (c.has_html && not c.has_plain) (
      deduction 50 (codes "No plain text alternative") (codes "BODY_NO_PLAIN") medium []
        (codes "Send multipart/alternative with both a text/plain and a text/html part."))
    ++ (when (is_low_ratio c.text_ratio) (
          deduction 50 (codes "Almost no text next to the HTML markup") (codes "BODY_LOW_TEXT")
            medium (codes "text/html ratio " ++ shown_ratio c.text_ratio)
            (codes "Add real text content instead of relying on images and markup."))
        ++ (when (ltb 0 c.image_count && ltb c.text_length 100) (
              deduction 50 (codes "Image heavy mail with very little text")
                (codes "BODY_IMAGE_ONLY") medium []
                (codes "Spam filters distrust image only mail. Add meaningful text."))
            ++ (when (ltb 0 c.images_without_alt) (
                  deduction 20 (show_nat c.images_without_alt ++ codes " image(s) without ALT text")
                    (codes "BODY_IMG_NO_ALT") low [] (codes "Add an alt attribute to every image."))
                ++ when (not (null c.shortened_links)) (
                    deduction 50
                      (codes "Shortened links found: " ++ join_texts (codes ", ") c.shortened_links)
                      (codes "BODY_SHORT_LINKS") medium []
                      (codes "Use your own domain for links instead of a URL shortener.")))))

-- Lines 236 to 238; the flag is `"List-Unsubscribe" not in headers`.
unfoldable pub unsubscribe_deductions : Content → Bool → List Deduction
unsubscribe_deductions c no_list_header = when (not c.has_unsubscribe_link && no_list_header) (
    deduction 20 (codes "No unsubscribe link in the body") (codes "BODY_NO_UNSUB") low []
      (codes "Add a visible unsubscribe link for bulk mail."))

unfoldable pub subject_deductions : Content → List Deduction
subject_deductions c =
    (if c.subject_length == 0
      then deduction 50 (codes "Subject is empty") (codes "SUBJ_EMPTY") medium []
          (codes "Always send a meaningful subject.")
        ∷ []
      else when c.subject_all_caps (
          deduction 30 (codes "Subject is written in all capitals") (codes "SUBJ_ALL_CAPS") low []
            (codes "Use normal capitalisation in the subject.")))
    ++ when (ltb 2 c.subject_exclamations) (
        deduction 20 (codes "Subject has too many exclamation marks") (codes "SUBJ_EXCLAIM") low []
          (codes "Keep punctuation in the subject to a minimum."))

-- `s < t`, for texts
unfoldable pub precedes : Text → Text → Bool
precedes [] [] = false
precedes [] (d ∷ t) = true
precedes (c ∷ s) [] = false
precedes (c ∷ s) (d ∷ t) = let rest = precedes s t in ltb c d || ((c == d) && rest)

abbrev insert : Text → List Text → List Text
insert t [] = t ∷ []
insert t (u ∷ us) = if t =ᵗ u then u ∷ us else if precedes t u then t ∷ u ∷ us else u ∷ insert t us

-- `sorted({…})`
unfoldable pub sorted_set : List Text → List Text
unfolding precedes
sorted_set [] = []
sorted_set (t ∷ ts) = insert t (sorted_set ts)

abbrev domain_on : Text × Text → Text
domain_on (domain, dnsbl) = domain ++ (codes " on " ++ dnsbl)

abbrev domain_of : Text × Text → Text
domain_of (domain, dnsbl) = domain

unfoldable pub domain_deductions : DomainReport → List Deduction
unfolding sorted_set join_texts
domain_deductions bl = when (not (null bl.listings)) (
    deduction (min 200 (100 * length bl.listings))
      (codes "Domain is listed in blacklists: "
        ++ join_texts (codes ", ") (sorted_set (map domain_of bl.listings)))
      (codes "URIBL_LISTED") high (join_texts (codes "; ") (map domain_on bl.listings))
      (codes "Request delisting for the listed domain, or remove the link from the mail."))

-- The prefixes of rules that judge what other checks judge already.
abbrev pub spam_rule_skip : List Text
spam_rule_skip =
    codes "SPF_"
    ∷ codes "T_SPF_"
    ∷ codes "DKIM_"
    ∷ codes "T_DKIM_"
    ∷ codes "DKIMWL_"
    ∷ codes "DMARC_"
    ∷ codes "RCVD_IN_"
    ∷ codes "URIBL_"
    ∷ codes "RDNS_"
    ∷ codes "HELO_"
    ∷ codes "MISSING_DATE"
    ∷ codes "MISSING_MID"
    ∷ codes "MISSING_SUBJECT"
    ∷ codes "NO_SUBJECT"
    ∷ codes "NO_RELAYS"
    ∷ codes "ALL_TRUSTED"
    ∷ codes "NO_RECEIVED"
    ∷ codes "SUBJ_ALL_CAPS"
    ∷ codes "HTML_IMAGE_ONLY"
    ∷ codes "HTML_IMAGE_RATIO"
    ∷ codes "MIME_HTML_ONLY"
    ∷ codes "T_SHORT_SHORTNER"
    ∷ codes "SHORT_SHORTNER"
    ∷ []

-- `name.startswith(SPAM_RULE_SKIP)`
abbrev pub is_skipped_rule : Text → Bool
is_skipped_rule name = any (starts_with name) spam_rule_skip

unfoldable pub is_counted : Rule → Bool
unfolding starts_with
is_counted r = is_positive r.points && not (is_skipped_rule r.name)

abbrev points_of : Rule → Decimal
points_of r = r.points

abbrev pub capped : ℕ → List Rule → ℕ × List Rule
capped cap [] = (0, [])
capped cap (r ∷ rs) = (min cap (hundredths (sum (map points_of (r ∷ rs)))), r ∷ rs)

abbrev pub penalty_of : ℕ → List Rule → Status → Option Decimal → ℕ × List Rule
penalty_of cap rules error score = (0, [])
penalty_of cap rules ok none = (0, [])
penalty_of cap rules ok (some score) = capped cap (filter is_counted rules)

-- `cap` is SPAM_PENALTY_CAP. The points are hundredths.
unfoldable pub spam_penalty : ℕ → SpamCheck → ℕ × List Rule
unfolding is_counted sum hundredths
spam_penalty cap sa = penalty_of cap sa.rules sa.status sa.score

abbrev shown_rule : Rule → Text
shown_rule r = r.name ++ (codes " +" ++ show_decimal r.points)

unfoldable pub spam_deductions : ℕ → SpamCheck → List Deduction
unfolding spam_penalty show_nat show_decimal join_texts
spam_deductions cap sa =
    let (penalty, counted) = spam_penalty cap sa in
    when (ltb 0 penalty) (
      deduction penalty
        (codes "SpamAssassin flagged " ++ (show_nat (length counted) ++ codes " content rule(s)"))
        (codes "SPAM_RULES") high (join_texts (codes "; ") (map shown_rule counted))
        (codes "Fix the wording, formatting and links the rules above point at."))
