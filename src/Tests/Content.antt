-- ===== src/Tests/Content.antt =====
-- Tests of `src/processor/content.py`.
use mail_tester.Prelude.{
  ◌≡◌, refl, true, false, Option, none, some, List, [], ◌∷◌, Text, codes, strip, is_space, ◌=ᵗ◌,
  lower_char, starts_with,
}
use mail_tester.Ingest.Message.{Message, message, no_parts, part}
use mail_tester.Processor.Content.{extract_bodies, link_hosts, is_plain, is_html}
use mail_tester.Processor.Content.Hosts.{hosts_of, link_hosts-distinct}
use mail_tester.Processor.Content.Chosen.{parts_of, first_text, attached, extract_bodies_chosen}
use mail_tester.Processor.Content.Parser.{
  new_parser, feed, handle_data, handle_starttag, handle_endtag, text, collapse, concat,
}
use mail_tester.Processor.Content.Visible.{
  Nodes, no_nodes, node, text_node, void, element, events, visible, AreNested, text-feed,
}

abbrev hostname : Text → Option Text
hostname url = some url

abbrev urls : List Text
urls = codes "Bit.ly." ∷ codes "" ∷ codes "bit.ly" ∷ codes "x.test" ∷ []

link_hosts-distinct_example : link_hosts hostname urls ≡ hosts_of hostname urls
link_hosts-distinct_example = link_hosts-distinct hostname urls

abbrev leaf : Text → Text → Text → Message
leaf disposition content_type body =
    message
      (record {
        headers = (codes "Content-Disposition", disposition) ∷ [];
        is_multipart = false;
        maintype = codes "text";
        content_type = content_type;
        filename = none;
        payload = some body;
        decoded = some body;
      })
      no_parts

-- An attached text before the text and the HTML.
abbrev mixed : Message
mixed =
    message
      (record {
        headers = [];
        is_multipart = true;
        maintype = codes "multipart";
        content_type = codes "multipart/mixed";
        filename = none;
        payload = none;
        decoded = none;
      })
      (part (leaf (codes "attachment") (codes "text/plain") (codes "notes")) (
        part (leaf (codes "inline") (codes "text/plain") (codes "hello"))
          (part (leaf (codes "inline") (codes "text/html") (codes "<p>hello")) no_parts)))

extract_bodies_chosen_example :
    ((extract_bodies mixed).plain ≡ first_text is_plain (parts_of mixed))
    × ((extract_bodies mixed).html ≡ first_text is_html (parts_of mixed))
    × ((extract_bodies mixed).attachments ≡ attached (parts_of mixed))
extract_bodies_chosen_example = extract_bodies_chosen mixed

-- The attachment is no body.
mixed_plain : (extract_bodies mixed).plain ≡ codes "hello"
unfolding extract_bodies ◌=ᵗ◌ lower_char starts_with
mixed_plain = refl

-- `a<style>b<b>c</b></style><img>d`
abbrev page : Nodes
page = node (text_node (codes "a ")) (
    node
      (element (codes "style") [] (
        node (text_node (codes "b"))
          (node (element (codes "b") [] (node (text_node (codes "c")) no_nodes)) no_nodes)))
      (node (void (codes "img") []) (node (text_node (codes " d")) no_nodes)))

page-AreNested : AreNested page
unfolding AreNested ◌=ᵗ◌
page-AreNested = (tt, ((tt, ((tt, tt), tt)), (refl, (tt, tt))))

text-feed_example :
    text (feed (events page) new_parser) ≡ strip is_space (collapse false (concat (visible page)))
text-feed_example = text-feed page page-AreNested

page_text : text (feed (events page) new_parser) ≡ codes "a d"
unfolding text events feed handle_data handle_starttag ◌=ᵗ◌ handle_endtag
page_text = refl
