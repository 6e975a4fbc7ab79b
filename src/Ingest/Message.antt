-- ===== src/Ingest/Message.antt =====
-- What `email.message_from_bytes` makes of the bytes of a mail: the parts, each with its headers,
-- and what the accessors of the package say of it. The parser itself is a parameter.
use mail_tester.Prelude.{Bool, Option, none, some, List, [], ◌∷◌, Text, lower, ◌=ᵗ◌, if◌then◌else◌}

pub record Entity : Type 0 where
  pub headers : List (Text × Text)
  pub is_multipart : Bool
  pub maintype : Text
  pub content_type : Text
  pub filename : Option Text
  -- `get_payload(decode=True)`, and that decoded by the declared charset, `none` where it raises.
  pub payload : Option Text
  pub decoded : Option Text

mutual
  pub data Message : Type 0 where
    message : Entity → Parts → Message

  pub data Parts : Type 0 where
    no_parts : Parts
    part : Message → Parts → Parts

abbrev pub entity : Message → Entity
entity (message e ps) = e

abbrev pub headers : Message → List (Text × Text)
headers m = (entity m).headers

-- `msg.get_all(name) or []` and `msg.get(name)`: names are compared without regard to case.
abbrev pub get_all : Text → List (Text × Text) → List Text
get_all name [] = []
get_all name ((n, value) ∷ hs) =
    let rest = get_all name hs in if lower n =ᵗ lower name then value ∷ rest else rest

abbrev pub get_header : Text → List (Text × Text) → Option Text
get_header name [] = none
get_header name ((n, value) ∷ hs) = if lower n =ᵗ lower name then some value else get_header name hs
