-- ===== src/Ingest/Connection.antt =====
-- `src/ingest/connection.py`
pub mod Facts
use mail_tester.Prelude.{
  ℕ, Bool, true, false, Option, none, some, List, [], ◌∷◌, ◌++◌, Text, codes, null, join, is_space,
  ◌=ᵗ◌, ◌||◌, ends_with, map, lower_char, if◌then◌else◌, is_some, leb, ◌-◌, ◌&&◌,
}
use mail_tester.Regex.{
  Regex, empty, seq, alt, star, group, char, digit, space, nonspace, plus, optional, literal,
  literal_nocase, match_front, search_text, group_of,
}
use mail_tester.Db.Documents.{Connection, received_header, missing}
use mail_tester.Ingest.Message.{Message, headers, get_all}

-- `^` is a search that does not move on: `HELO_PATTERN` is matched at the front.
abbrev pub helo_pattern : Regex
helo_pattern = seq (literal_nocase (codes "from")) (seq (plus space) (group (plus nonspace)))

-- `\d{1,3}`
abbrev pub octet : Regex
octet = seq digit (optional (seq digit (optional digit)))

abbrev dot_octet : Regex
dot_octet = seq (char b'.') octet

-- `\d{1,3}(?:\.\d{1,3}){3}`
abbrev pub dotted_quad : Regex
dotted_quad = seq octet (seq dot_octet (seq dot_octet dot_octet))

abbrev pub client_ip_pattern : Regex
client_ip_pattern = seq (char b'[') (seq (group dotted_quad) (char b']'))

abbrev pub tls_pattern : Regex
tls_pattern = seq (literal_nocase (codes "using")) (
    seq (plus space) (
      seq (group (plus nonspace)) (
        seq (plus space) (
          seq (literal_nocase (codes "with")) (
            seq (plus space) (
              seq (literal_nocase (codes "cipher")) (seq (plus space) (group (plus nonspace)))))))))

-- `E?SMTPS?A?`
abbrev protocol_name : Regex
protocol_name = seq (optional (literal_nocase (codes "E"))) (
    seq (literal_nocase (codes "SMTP"))
      (seq (optional (literal_nocase (codes "S"))) (optional (literal_nocase (codes "A")))))

abbrev pub protocol_pattern : Regex
protocol_pattern =
    seq (literal_nocase (codes "with")) (seq (plus space) (seq (group protocol_name) space))

abbrev pub upper_char : ℕ → ℕ
upper_char c = if leb b'a' c && leb c b'z' then c - 32 else c

-- `s.split()`
abbrev push_char : ℕ → Bool → List Text → List Text
push_char c true ws = (c ∷ []) ∷ ws
push_char c false [] = (c ∷ []) ∷ []
push_char c false (w ∷ ws) = (c ∷ w) ∷ ws

-- Whether `c` ends a word is told by what follows it.
abbrev ends_word : Text → Bool
ends_word [] = true
ends_word (c ∷ s) = is_space c

unfoldable pub words : Text → List Text
words [] = []
words (c ∷ s) = let ws = words s in if is_space c then ws else push_char c (ends_word s) ws

abbrev first_or_empty : List Text → Text
first_or_empty [] = []
first_or_empty (t ∷ ts) = t

-- `" ".join(str(received[0]).split())`
unfoldable pub top_received : Message → Text
unfolding words join
top_received m = join b' ' (words (first_or_empty (get_all (codes "Received") (headers m))))

abbrev no_info : Connection
no_info = record {
  client_ip = none;
  helo = none;
  protocol = none;
  tls = false;
  tls_protocol = none;
  tls_cipher = none;
  source = missing;
}

abbrev pub says_tls : Option Text → Bool
says_tls none = false
says_tls (some p) = ends_with p (codes "S") || ends_with p (codes "SA")

abbrev upper_text : Option Text → Option Text
upper_text none = none
upper_text (some t) = some (map upper_char t)

-- The four searches in the normalised header.
unfoldable pub read_connection : Text → Connection
read_connection top =
    let helo = match_front helo_pattern top in
    let client_ip = search_text client_ip_pattern top in
    let protocol = upper_text (group_of 1 (search_text protocol_pattern top)) in
    let tls = search_text tls_pattern top in
    record {
      client_ip = group_of 1 client_ip;
      helo = group_of 1 helo;
      protocol = protocol;
      tls = is_some tls || says_tls protocol;
      tls_protocol = group_of 1 tls;
      tls_cipher = group_of 2 tls;
      source = received_header;
    }

unfoldable pub get_connection_info : Message → Connection
unfolding read_connection top_received
get_connection_info m =
    let top = top_received m in if null top then no_info else read_connection top
