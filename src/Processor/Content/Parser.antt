-- ===== src/Processor/Content/Parser.antt =====
-- `BodyParser` of `src/processor/content.py`, with its handlers.
use mail_tester.Prelude.{
  ℕ, zero, suc, Bool, true, false, ◌||◌, Option, none, List, [], ◌∷◌, ◌++◌, Text, codes, null,
  strip, is_space, ◌=ᵗ◌, if◌then◌else◌,
}
use mail_tester.Db.Cache.{text_or_empty}

-- The attributes of a tag: an attribute may stand without a value.
abbrev pub Attributes : Type 0
Attributes = List (Text × Option Text)

pub data Event : Type 0 where
  start_tag : Text → Attributes → Event
  end_tag : Text → Event
  data_ : Text → Event

pub record Image : Type 0 where
  pub src : Text
  pub alt : Option Text

pub record BodyParser : Type 0 where
  pub text_parts : List Text
  pub links : List Text
  pub images : List Image
  pub skip : ℕ

abbrev pub new_parser : BodyParser
new_parser = record { text_parts = []; links = []; images = []; skip = 0 }

abbrev has_attribute : Text → Attributes → Bool
has_attribute name [] = false
has_attribute name ((n, v) ∷ attrs) = (n =ᵗ name) || has_attribute name attrs

-- `dict(attrs).get(name)`: the last attribute of that name.
unfoldable pub attribute : Text → Attributes → Option Text
attribute name [] = none
attribute name ((n, v) ∷ attrs) =
    let later = attribute name attrs in
    if has_attribute name attrs then later else if n =ᵗ name then v else none

abbrev pub is_skipped : Text → Bool
is_skipped tag = (tag =ᵗ codes "script") || (tag =ᵗ codes "style")

abbrev add_link : Text → BodyParser → BodyParser
add_link href p = if null href then p else record p { links = p.links ++ strip is_space href ∷ [] }

abbrev image_of : Attributes → Image
image_of attrs = record {
  src = strip is_space (text_or_empty (attribute (codes "src") attrs));
  alt = attribute (codes "alt") attrs;
}

-- An `a` without an address falls through to the test for `img`, which is false for it.
unfoldable pub handle_starttag : Text → Attributes → BodyParser → BodyParser
unfolding attribute strip
handle_starttag tag attrs p =
    if is_skipped tag
    then record p { skip = suc p.skip }
    else if tag =ᵗ codes "a"
    then add_link (text_or_empty (attribute (codes "href") attrs)) p
    else if tag =ᵗ codes "img"
    then record p { images = p.images ++ image_of attrs ∷ [] }
    else p

abbrev less_one : ℕ → ℕ
less_one zero = zero
less_one (suc n) = n

unfoldable pub handle_endtag : Text → BodyParser → BodyParser
handle_endtag tag p = if is_skipped tag then record p { skip = less_one p.skip } else p

abbrev pub add_data : Text → ℕ → BodyParser → BodyParser
add_data t zero p = record p { text_parts = p.text_parts ++ t ∷ [] }
add_data t (suc n) p = p

unfoldable pub handle_data : Text → BodyParser → BodyParser
handle_data t p = add_data t p.skip p

abbrev pub handle : Event → BodyParser → BodyParser
handle (start_tag tag attrs) p = handle_starttag tag attrs p
handle (end_tag tag) p = handle_endtag tag p
handle (data_ t) p = handle_data t p

-- `parser.feed(html)`, up to the exception if it raises.
unfoldable pub feed : List Event → BodyParser → BodyParser
feed [] p = p
feed (e ∷ es) p = feed es (handle e p)

-- `re.sub(r"\s+", " ", s)`: whether white space stands before.
unfoldable pub collapse : Bool → Text → Text
collapse after [] = []
collapse after (c ∷ s) =
    let inside = collapse true s in
    let outside = collapse false s in
    if is_space c then (if after then inside else b' ' ∷ inside) else c ∷ outside

abbrev pub concat : List Text → Text
concat [] = []
concat (t ∷ ts) = t ++ concat ts

unfoldable pub text : BodyParser → Text
unfolding collapse strip
text p = strip is_space (collapse false (concat p.text_parts))
