-- ===== src/Ingest/RecipientMap.antt =====
-- `src/ingest/recipient_map.py`: the table that Postfix asks whether a recipient exists.
pub mod Answers
use mail_tester.Prelude.{
  ℕ, ◌+◌, ◌-◌, ◌*◌, Bool, true, false, Option, none, some, List, [], ◌∷◌, Text, codes, strip, lower,
  is_space, split_once, leb, ◌==◌, ◌=ᵗ◌, ◌&&◌, if◌then◌else◌,
}
use mail_tester.Db.Redis.{Redis}
use mail_tester.Db.Cache.{address_key}

pub data Action : Type 0 where
  accept reject : Action

-- `none` where the cache raises.
unfoldable pub lookup : (R : Redis) → ℕ → Text → R.State → Option Action
lookup R now to_address s = elim (R.exists now (address_key (some to_address)) s) [
  | none ↦ none
  | some true ↦ some accept
  | some false ↦ some reject
]

-- `urllib.parse.unquote`, for escapes of ASCII characters.
abbrev hex_value : ℕ → Option ℕ
hex_value c =
    if leb b'0' c && leb c b'9'
    then some (c - b'0')
    else if leb b'a' c && leb c b'f'
    then some (c - 87)
    else if leb b'A' c && leb c b'F'
    then some (c - 55)
    else none

abbrev both_digits : Option ℕ → Option ℕ → Option ℕ
both_digits none b = none
both_digits (some a) none = none
both_digits (some a) (some b) = some (16 * a + b)

abbrev unescape : ℕ → ℕ → ℕ → Option ℕ
unescape c d e = if c == b'%' then both_digits (hex_value d) (hex_value e) else none

unfoldable pub unquote : Text → Text
unquote [] = []
unquote (c ∷ []) = c ∷ []
unquote (c ∷ d ∷ []) = c ∷ d ∷ []
unquote (c ∷ d ∷ e ∷ s) =
    let decoded = unquote s in
    let kept = unquote (d ∷ e ∷ s) in
    elim (unescape c d e) [ none ↦ c ∷ kept | some v ↦ v ∷ decoded ]

-- The lines that are written: `quote(action)` after 200, or one of the two 400 lines.
pub data Reply : Type 0 where
  answer_200 : Action → Reply
  only_get_400 lookup_failed_400 : Reply

-- The address of a request `get ADDRESS`.
unfoldable pub requested : Text → Option Text
requested line = elim (split_once b' ' (strip is_space line)) [
  | none ↦ none
  | some (verb, argument) ↦ if lower verb =ᵗ codes "get" then some (unquote argument) else none
]

abbrev reply_of : Option Action → Reply
reply_of none = lookup_failed_400
reply_of (some a) = answer_200 a

-- The lines that come before the end of the stream, each with the time and the cache at which it
-- is read.
unfoldable pub handle_client : (R : Redis) → List (Text × ℕ × R.State) → List Reply
unfolding requested lookup
handle_client R [] = []
handle_client R ((line, now, s) ∷ lines) =
    let rest = handle_client R lines in
    elim (requested line) [
      | none ↦ only_get_400 ∷ rest
      | some to_address ↦ reply_of (lookup R now to_address s) ∷ rest
    ]
