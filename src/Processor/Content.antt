-- ===== src/Processor/Content.antt =====
-- `src/processor/content.py`: the bodies of a mail and what stands in them. The scanner of
-- `html.parser` is a parameter, by the handlers that it calls, in order; so is `urlparse(…).hostname`.
pub mod Parser
pub mod Inspect
pub mod Hosts
pub mod Chosen
pub mod Visible
use mail_tester.Prelude.{
  ℕ, Bool, true, false, ◌&&◌, ◌++◌, Option, none, some, List, [], ◌∷◌, any, Text, codes, null,
  length, drop, lower, strip, is_dot, starts_with, ◌=ᵗ◌, if◌then◌else◌,
}
use mail_tester.Db.Cache.{text_or_empty}
use mail_tester.Ingest.Message.{Message, message, Parts, no_parts, part, Entity, entity, get_header}

-- `t in s`, for texts
unfoldable pub contains : Text → Text → Bool
contains t [] = null t
contains t (c ∷ s) = let rest = contains t s in if starts_with (c ∷ s) t then true else rest

unfoldable mutual
  -- `msg.walk()`
  pub walk : Message → List Entity
  walk (message e ps) = e ∷ walk_parts ps

  pub walk_parts : Parts → List Entity
  walk_parts no_parts = []
  walk_parts (part m ps) = walk m ++ walk_parts ps

pub record Attachment : Type 0 where
  pub name : Option Text
  pub content_type : Text
  pub size : ℕ

-- The payload decoded by the charset, and the empty text where that raises.
unfoldable pub decode_part : Entity → Text
decode_part e = text_or_empty e.decoded

pub record Bodies : Type 0 where
  pub plain : Text
  pub html : Text
  pub attachments : List Attachment

abbrev pub is_multipart_type : Entity → Bool
is_multipart_type e = e.maintype =ᵗ codes "multipart"

-- `"attachment" in disposition`
abbrev pub is_attached : Entity → Bool
is_attached e =
    contains (codes "attachment")
      (text_or_empty (get_header (codes "Content-Disposition") e.headers))

abbrev pub is_plain : Entity → Bool
is_plain e = e.content_type =ᵗ codes "text/plain"

abbrev pub is_html : Entity → Bool
is_html e = e.content_type =ᵗ codes "text/html"

abbrev pub attachment_of : Entity → Attachment
attachment_of e = record {
  name = e.filename;
  content_type = e.content_type;
  size = length (text_or_empty e.payload);
}

-- One round of the loop over the parts.
unfoldable pub take_part : Entity → Bodies → Bodies
unfolding decode_part contains
take_part e b =
    if is_multipart_type e
    then b
    else if is_attached e
    then record b { attachments = b.attachments ++ attachment_of e ∷ [] }
    else if is_plain e && null b.plain
    then record b { plain = decode_part e }
    else if is_html e && null b.html
    then record b { html = decode_part e }
    else b

unfoldable pub take_parts : List Entity → Bodies → Bodies
unfolding take_part
take_parts [] b = b
take_parts (e ∷ es) b = take_parts es (take_part e b)

abbrev pub no_bodies : Bodies
no_bodies = record { plain = []; html = []; attachments = [] }

unfoldable pub extract_bodies : Message → Bodies
unfolding take_parts walk
extract_bodies m = take_parts (if (entity m).is_multipart then walk m else entity m ∷ []) no_bodies

abbrev pub shortener_hosts : List Text
shortener_hosts =
    codes "bit.ly"
    ∷ codes "t.co"
    ∷ codes "tinyurl.com"
    ∷ codes "goo.gl"
    ∷ codes "ow.ly"
    ∷ codes "is.gd"
    ∷ codes "buff.ly"
    ∷ codes "rebrand.ly"
    ∷ codes "cutt.ly"
    ∷ codes "shorturl.at"
    ∷ codes "rb.gy"
    ∷ codes "t.ly"
    ∷ codes "s.id"
    ∷ codes "lnkd.in"
    ∷ []

unfoldable pub bare_host : Text → Text
bare_host host = if starts_with host (codes "www.") then drop 4 host else host

-- `t in ts`
abbrev pub is_in : Text → List Text → Bool
is_in t ts = any (λ u. t =ᵗ u) ts

-- `hostname` is `none` where there is none, or where the parser raises.
module _ (hostname : Text → Option Text) where
  unfoldable pub host_of : Text → Text
  unfolding strip
  host_of url = strip is_dot (lower (text_or_empty (hostname url)))

  -- The loop, with the hosts that are found already.
  unfoldable pub add_hosts : List Text → List Text → List Text
  unfolding host_of
  add_hosts [] hosts = hosts
  add_hosts (url ∷ urls) hosts =
      let host = host_of url in
      add_hosts urls
        (if null host then hosts else if is_in host hosts then hosts else hosts ++ host ∷ [])

  unfoldable pub link_hosts : List Text → List Text
  unfolding add_hosts
  link_hosts urls = add_hosts urls []
