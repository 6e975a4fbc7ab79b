-- ===== src/Processor/Content/Inspect.antt =====
-- `inspect_content` of `src/processor/content.py`.
use mail_tester.Prelude.{
  ℕ, ◌*◌, Bool, true, false, ◌&&◌, not, Option, none, some, List, [], ◌∷◌, ◌++◌, any, take, Text,
  codes, null, length, lower, strip, is_space, starts_with, count_char, leb, ◌==◌, ◌||◌,
  if◌then◌else◌,
}
use mail_tester.Decimal.{Decimal, nearest}
use mail_tester.Db.Cache.{text_or_empty}
use mail_tester.Regex.{Regex, seq, group, class, plus, optional, literal_nocase, findall}
use mail_tester.Ingest.Message.{Message}
use mail_tester.Processor.Content.{
  Attachment, Bodies, extract_bodies, link_hosts, bare_host, shortener_hosts, is_in, contains,
}
use mail_tester.Processor.Content.Parser.{Event, Image, BodyParser, new_parser, feed, text}

pub record Content : Type 0 where
  pub preview : Text
  pub plain : Text
  pub html_text : Text
  pub html : Text
  pub has_plain : Bool
  pub has_html : Bool
  pub text_length : ℕ
  pub html_length : ℕ
  pub text_ratio : Option Decimal
  pub link_count : ℕ
  pub link_hosts : List Text
  pub shortened_links : List Text
  pub image_count : ℕ
  pub images_without_alt : ℕ
  pub attachment_count : ℕ
  pub attachments : List Attachment
  pub has_unsubscribe_link : Bool
  pub subject_length : ℕ
  pub subject_all_caps : Bool
  pub subject_exclamations : ℕ

abbrev pub unsubscribe_words : List Text
unsubscribe_words =
    codes "unsubscribe"
    ∷ codes "abonelikten"
    ∷ codes "listeden çık"
    ∷ codes "listeden cik"
    ∷ codes "opt out"
    ∷ codes "opt-out"
    ∷ []

-- `[^\s<>"')]`
abbrev is_url_char : ℕ → Bool
is_url_char c =
    not (is_space c || (c == b'<' || (c == b'>' || (c == 34 || (c == 39 || c == b')')))))

-- `https?://[^\s<>"')]+`, without regard to case. The whole match is the group.
abbrev pub url_pattern : Regex
url_pattern = group (
    seq (literal_nocase (codes "http")) (
      seq (optional (literal_nocase (codes "s")))
        (seq (literal_nocase (codes "://")) (plus (class is_url_char)))))

abbrev is_upper : ℕ → Bool
is_upper c = leb b'A' c && leb c b'Z'

abbrev is_alpha : ℕ → Bool
is_alpha c = is_upper c || (leb b'a' c && leb c b'z')

module _ {A : Type 0} (p : A → Bool) where
  abbrev pub filter : List A → List A
  filter [] = []
  filter (x ∷ xs) = if p x then x ∷ filter xs else filter xs

  abbrev pub all : List A → Bool
  all [] = true
  all (x ∷ xs) = p x && all xs

abbrev pub is_web_link : Text → Bool
is_web_link u = starts_with (lower u) (codes "http")

abbrev pub lacks_alt : Image → Bool
lacks_alt i = null (strip is_space (text_or_empty i.alt))

abbrev pub is_shortener : Text → Bool
is_shortener h = is_in (bare_host h) shortener_hosts

-- `round(text_length / html_length, 3) if html_length else None`
unfoldable pub ratio_of : ℕ → ℕ → Option Decimal
unfolding nearest
ratio_of text_length html_length =
    if html_length == 0
    then none
    else some (record {
      negative = false;
      mantissa = nearest (text_length * 1000) html_length;
      places = 3;
    })

abbrev text_or_else : Text → Text → Text
text_or_else t d = if null t then d else t

module _ (html_events : Text → List Event) (hostname : Text → Option Text) where
  -- The parser, once it has read the body.
  unfoldable pub parsed : Text → BodyParser
  unfolding feed
  parsed html = if null html then new_parser else feed (html_events html) new_parser

  unfoldable pub urls_of : Text → BodyParser → List Text
  unfolding findall
  urls_of plain p = findall url_pattern plain ++ filter is_web_link p.links

  unfoldable pub inspect_bodies : Bodies → Option Text → Content
  unfolding parsed urls_of text link_hosts bare_host contains ratio_of strip count_char
  inspect_bodies b subject =
      let p = parsed b.html in
      let html_text = text p in
      let visible_text = text_or_else (strip is_space b.plain) html_text in
      let urls = urls_of b.plain p in
      let hosts = link_hosts hostname urls in
      let body_lower = lower (b.plain ++ (codes " " ++ html_text)) in
      let subject_value = strip is_space (text_or_empty subject) in
      let letters = filter is_alpha subject_value in
      record {
        preview = take 20000 visible_text;
        plain = take 40000 b.plain;
        html_text = take 20000 html_text;
        html = take 80000 b.html;
        has_plain = not (null (strip is_space b.plain));
        has_html = not (null (strip is_space b.html));
        text_length = length visible_text;
        html_length = length b.html;
        text_ratio = ratio_of (length visible_text) (length b.html);
        link_count = length urls;
        link_hosts = hosts;
        shortened_links = filter is_shortener hosts;
        image_count = length p.images;
        images_without_alt = length (filter lacks_alt p.images);
        attachment_count = length b.attachments;
        attachments = b.attachments;
        has_unsubscribe_link = any (λ word. contains word body_lower) unsubscribe_words;
        subject_length = length subject_value;
        subject_all_caps = not (null letters) && all is_upper letters;
        subject_exclamations = count_char b'!' subject_value;
      }

  unfoldable pub inspect_content : Message → Option Text → Content
  unfolding extract_bodies inspect_bodies
  inspect_content m subject = inspect_bodies (extract_bodies m) subject
