-- ===== src/Processor/Analyzer/Headers.antt =====
-- `src/processor/analyzer.py`: the headers and the envelope, and what they cost.
use mail_tester.Prelude.{
  Bool, ◌&&◌, ◌||◌, not, Option, none, some, List, [], ◌∷◌, ◌++◌, Text, codes, null, after_last,
  ◌=ᵗ◌, is_some, if◌then◌else◌,
}
use mail_tester.Db.Cache.{text_or_empty}
use mail_tester.Processor.Score.{Deduction, medium, low}
use mail_tester.Processor.Spf.{is_given}
use mail_tester.Processor.Dmarc.{Tags, get_tag}
use mail_tester.Processor.Domains.{organizational_domain}
use mail_tester.Processor.Analyzer.Calls.{deduction, when}

-- `decode_header` is `str(make_header(decode_header(…)))`, `none` where that raises.
module _ (decode_header : Text → Option Text) where
  abbrev text_if_decoded : Option Text → Text → Text
  text_if_decoded none value = value
  text_if_decoded (some t) value = t

  unfoldable pub decode_header_value : Text → Text
  decode_header_value value =
      if null value then value else text_if_decoded (decode_header value) value

  -- The dict of the decoded headers, as the list of its assignments.
  unfoldable pub decode_headers : List (Text × Text) → Tags
  unfolding decode_header_value
  decode_headers [] = []
  decode_headers ((name, value) ∷ hs) = (name, decode_header_value value) ∷ decode_headers hs

-- `name not in headers`; the names of a dict are compared with their case.
unfoldable pub lacks : Text → Tags → Bool
unfolding get_tag
lacks name headers = not (is_some (get_tag name headers))

pub record HeaderCheck : Type 0 where
  pub is_warning : Bool
  pub missing_required : List Text
  pub missing_recommended : List Text
  pub raw : List (Text × Option Text)

abbrev raw_headers : Tags → List (Text × Option Text)
raw_headers headers =
    (codes "from", get_tag (codes "From") headers)
    ∷ (codes "to", get_tag (codes "To") headers)
    ∷ (codes "subject", get_tag (codes "Subject") headers)
    ∷ (codes "date", get_tag (codes "Date") headers)
    ∷ (codes "message_id", get_tag (codes "Message-ID") headers)
    ∷ (codes "reply_to", get_tag (codes "Reply-To") headers)
    ∷ (codes "return_path", get_tag (codes "Return-Path") headers)
    ∷ []

abbrev named_if : Bool → Text → List Text
named_if b name = if b then name ∷ [] else []

unfoldable pub check_headers : Tags → HeaderCheck
unfolding lacks get_tag
check_headers headers =
    let no_id = lacks (codes "Message-ID") headers in
    let no_date = lacks (codes "Date") headers in
    let no_list = lacks (codes "List-Unsubscribe") headers in
    record {
      is_warning = no_id || (no_date || no_list);
      missing_required = named_if no_id (codes "Message-ID") ++ named_if no_date (codes "Date");
      missing_recommended = named_if no_list (codes "List-Unsubscribe");
      raw = raw_headers headers;
    }

unfoldable pub header_deductions : Tags → List Deduction
unfolding lacks
header_deductions headers =
    when (lacks (codes "Message-ID") headers) (
      deduction 50 (codes "Message-ID header missing") (codes "HDR_MESSAGE_ID_MISSING") medium []
        (codes "Let the sending server generate a unique Message-ID for every mail."))
    ++ (when (lacks (codes "Date") headers) (
          deduction 50 (codes "Date header missing") (codes "HDR_DATE_MISSING") medium []
            (codes "Add a Date header in RFC 5322 format."))
        ++ when (lacks (codes "List-Unsubscribe") headers) (
            deduction 20 (codes "List-Unsubscribe header missing") (codes "HDR_LIST_UNSUB_MISSING")
              low []
              (codes
                "Add List-Unsubscribe with a mailto and https URL, plus List-Unsubscribe-Post for one click unsubscribe.")))

-- `organizational_domain((envelope_from or "").rsplit("@", 1)[-1])`
abbrev pub envelope_domain : Option Text → Text
envelope_domain envelope_from =
    organizational_domain (after_last b'@' (text_or_empty envelope_from))

unfoldable pub envelope_deductions : Text → Option Text → List Deduction
unfolding organizational_domain after_last
envelope_deductions domain envelope_from =
    let from = organizational_domain domain in
    let envelope = envelope_domain envelope_from in
    when (is_given envelope_from && (not (null envelope) && not (from =ᵗ envelope))) (
      deduction 30 (codes "Envelope sender domain differs from the From domain")
        (codes "HDR_ENVELOPE_MISMATCH") low
        (codes "envelope=" ++ (envelope ++ (codes " from=" ++ from)))
        (codes "Use the same domain in the envelope sender and the From header."))
