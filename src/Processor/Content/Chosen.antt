-- ===== src/Processor/Content/Chosen.antt =====
-- `extract_bodies` of `src/processor/content.py`: which parts of a mail become its bodies.
use mail_tester.Prelude.{
  ◌≡◌, ◌∙◌, refl, arith, Bool, true, false, ◌&&◌, not, List, [], ◌∷◌, ◌++◌, Text, codes, null, ◌=ᵗ◌,
  =ᵗ_sound, if◌then◌else◌,
}
use mathlib.Core.List.{append-nil, append_assoc}
use mail_tester.Ingest.Message.{Message, Entity, entity}
use mail_tester.Processor.Content.{
  walk, decode_part, is_multipart_type, is_attached, is_plain, is_html, Attachment, attachment_of,
  Bodies, no_bodies, take_part, take_parts, extract_bodies,
}

-- The parts that the loop looks at: all of them, or the mail itself where it has none.
abbrev pub parts_of : Message → List Entity
parts_of m = if (entity m).is_multipart then walk m else entity m ∷ []

-- A part that may become a body.
abbrev pub is_inline : Entity → Bool
is_inline e = not (is_multipart_type e) && not (is_attached e)

-- The text of the first inline part of a kind whose text is not empty.
unfoldable pub first_text : (Entity → Bool) → List Entity → Text
first_text kind [] = []
first_text kind (e ∷ es) =
    let rest = first_text kind es in
    if is_inline e && (kind e && not (null (decode_part e))) then decode_part e else rest

unfoldable pub attached : List Entity → List Attachment
attached [] = []
attached (e ∷ es) =
    let rest = attached es in
    if not (is_multipart_type e) && is_attached e then attachment_of e ∷ rest else rest

plain-html : (e : Entity) → is_plain e ≡ true → is_html e ≡ false
unfolding ◌=ᵗ◌
plain-html e h = rw (=ᵗ_sound e.content_type (codes "text/plain") h) refl

take_parts-plain :
    (es : List Entity) (b : Bodies)
    → (take_parts es b).plain ≡ (if null b.plain then first_text is_plain es else b.plain)
unfolding take_parts take_part first_text
take_parts-plain [] b = ground arith
take_parts-plain (e ∷ es) b = ground (arith, take_parts-plain es (take_part e b), plain-html e)

take_parts-html :
    (es : List Entity) (b : Bodies)
    → (take_parts es b).html ≡ (if null b.html then first_text is_html es else b.html)
unfolding take_parts take_part first_text
take_parts-html [] b = ground arith
take_parts-html (e ∷ es) b = ground (arith, take_parts-html es (take_part e b), plain-html e)

attached-cons :
    (e : Entity) (es : List Entity) → attached (e ∷ es) ≡ attached (e ∷ []) ++ attached es
unfolding attached
attached-cons e es = ground arith

attached_none : attached [] ≡ []
unfolding attached
attached_none = refl

take_part-attachments :
    (e : Entity) (b : Bodies) → (take_part e b).attachments ≡ b.attachments ++ attached (e ∷ [])
unfolding take_part attached
take_part-attachments e b = ground (arith, append-nil b.attachments)

take_parts-attachments :
    (es : List Entity) (b : Bodies) → (take_parts es b).attachments ≡ b.attachments ++ attached es
unfolding take_parts
take_parts-attachments [] b = rw (attached_none, append-nil) refl
take_parts-attachments (e ∷ es) b =
    take_parts-attachments es (take_part e b)
    ∙ rw (take_part-attachments e b, attached-cons e es)
        (append_assoc b.attachments (attached (e ∷ [])) (attached es))

-- The plain body of a mail is the text of the first part of type `text/plain` that is neither a
-- container nor an attachment and whose text is not empty, the HTML body that of the first such part
-- of type `text/html`, and the attachments are all parts that say so, in order. A part that says it is
-- an attachment is never a body.
pub extract_bodies_chosen :
    (m : Message)
    → ((extract_bodies m).plain ≡ first_text is_plain (parts_of m))
      × ((extract_bodies m).html ≡ first_text is_html (parts_of m))
      × ((extract_bodies m).attachments ≡ attached (parts_of m))
unfolding extract_bodies
extract_bodies_chosen m = (
  take_parts-plain (parts_of m) no_bodies,
  take_parts-html (parts_of m) no_bodies,
  take_parts-attachments (parts_of m) no_bodies,
)
