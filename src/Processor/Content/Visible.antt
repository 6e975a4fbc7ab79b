-- ===== src/Processor/Content/Visible.antt =====
-- `BodyParser` of `src/processor/content.py`: the text that it collects from well-nested HTML.
use mathlib.Core.List.{append-nil, append_assoc}
use mail_tester.Prelude.{
  ℕ, zero, suc, ◌≡◌, ◌∙◌, refl, ap, arith, false, List, [], ◌∷◌, ◌++◌, Text, strip, is_space,
  Bool-cases, inl, inr, if◌then◌else◌, if_both, null, codes, ◌=ᵗ◌, ◌-◌,
}
use mail_tester.Processor.Content.Parser.{
  Attributes, Event, start_tag, end_tag, data_, BodyParser, new_parser, is_skipped, handle,
  handle_starttag, handle_endtag, handle_data, add_data, feed, collapse, concat, text,
}

-- Well-nested HTML. A void element, such as `img`, has no end tag.
mutual
  pub data Node : Type 0 where
    text_node : Text → Node
    void : Text → Attributes → Node
    element : Text → Attributes → Nodes → Node

  pub data Nodes : Type 0 where
    no_nodes : Nodes
    node : Node → Nodes → Nodes

-- What the scanner calls for it.
unfoldable mutual
  pub events_of : Node → List Event
  events_of (text_node t) = data_ t ∷ []
  events_of (void tag attrs) = start_tag tag attrs ∷ []
  events_of (element tag attrs ns) = start_tag tag attrs ∷ (events ns ++ end_tag tag ∷ [])

  pub events : Nodes → List Event
  events no_nodes = []
  events (node n ns) = events_of n ++ events ns

-- `script` and `style` are no void elements.
unfoldable mutual
  pub IsNested : Node → Type 0
  IsNested (text_node t) = Unit
  IsNested (void tag attrs) = is_skipped tag ≡ false
  IsNested (element tag attrs ns) = AreNested ns

  pub AreNested : Nodes → Type 0
  AreNested no_nodes = Unit
  AreNested (node n ns) = IsNested n × AreNested ns

-- The texts that do not stand inside a `script` or a `style`.
unfoldable mutual
  pub visible_of : Node → List Text
  visible_of (text_node t) = t ∷ []
  visible_of (void tag attrs) = []
  visible_of (element tag attrs ns) = if is_skipped tag then [] else visible ns

  pub visible : Nodes → List Text
  visible no_nodes = []
  visible (node n ns) = visible_of n ++ visible ns

-- What is left of texts under `skip` open elements that are skipped.
abbrev under : ℕ → List Text → List Text
under zero ts = ts
under (suc n) ts = []

feed-append : (es fs : List Event) (p : BodyParser) → feed (es ++ fs) p ≡ feed fs (feed es p)
unfolding feed
feed-append [] fs p = refl
feed-append (e ∷ es) fs p = feed-append es fs (handle e p)

-- The parser has read texts, and is where it was.
record HasRead (ts : List Text) (p q : BodyParser) : Type 0 where
  texts : q.text_parts ≡ p.text_parts ++ under p.skip ts
  depth : q.skip ≡ p.skip

module _ (tag : Text) where
  start_texts :
      (attrs : Attributes) (p : BodyParser)
      → (handle_starttag tag attrs p).text_parts ≡ p.text_parts
  unfolding handle_starttag
  start_texts attrs p =
      let P : BodyParser → Type 0 = λ (q : BodyParser). q.text_parts ≡ p.text_parts in
      if_both P (is_skipped tag) _ _ refl (
        if_both P (tag =ᵗ codes "a") _ _ (if_both P (null _) _ _ refl refl)
          (if_both P (tag =ᵗ codes "img") _ _ refl refl))

  start_depth :
      (attrs : Attributes) (p : BodyParser)
      → (handle_starttag tag attrs p).skip ≡ (if is_skipped tag then suc p.skip else p.skip)
  unfolding handle_starttag
  start_depth attrs p =
      let P : BodyParser → Type 0 = λ (q : BodyParser). q.skip ≡ p.skip in
      elim (Bool-cases (is_skipped tag)) [
        | inl e ↦ rw e refl
        | inr e ↦ rw e (
            if_both P (tag =ᵗ codes "a") _ _ (if_both P (null _) _ _ refl refl)
              (if_both P (tag =ᵗ codes "img") _ _ refl refl))
      ]

  end_texts : (p : BodyParser) → (handle_endtag tag p).text_parts ≡ p.text_parts
  unfolding handle_endtag
  end_texts p = ground arith

  end_depth :
      (p : BodyParser)
      → (handle_endtag tag p).skip ≡ (if is_skipped tag then p.skip - 1 else p.skip)
  unfolding handle_endtag
  end_depth p = ground arith

under-nil : (n : ℕ) → under n [] ≡ []
under-nil zero = refl
under-nil (suc n) = refl

under-append : (n : ℕ) (ts us : List Text) → under n (ts ++ us) ≡ under n ts ++ under n us
under-append zero ts us = refl
under-append (suc n) ts us = refl

data-HasRead : (t : Text) (p : BodyParser) → HasRead (t ∷ []) p (handle_data t p)
unfolding handle_data
data-HasRead t p = record { texts = added p.skip; depth = kept p.skip }
  where
    added : (n : ℕ) → (add_data t n p).text_parts ≡ p.text_parts ++ under n (t ∷ [])
    added zero = refl
    added (suc n) = rw append-nil

    kept : (n : ℕ) → (add_data t n p).skip ≡ p.skip
    kept zero = refl
    kept (suc n) = refl

void-HasRead :
    (tag : Text) (attrs : Attributes) (p : BodyParser)
    → is_skipped tag ≡ false
    → HasRead [] p (handle_starttag tag attrs p)
void-HasRead tag attrs p h = record {
  texts = start_texts tag attrs p ∙ rw (under-nil p.skip, append-nil) refl;
  depth = start_depth tag attrs p ∙ rw h refl;
}

element-HasRead :
    (tag : Text) (attrs : Attributes) (ts : List Text) (p r : BodyParser)
    → HasRead ts (handle_starttag tag attrs p) r
    → HasRead (if is_skipped tag then [] else ts) p (handle_endtag tag r)
element-HasRead tag attrs ts p r h = elim (Bool-cases (is_skipped tag)) [
  | inl e ↦ rw e (record {
    texts =
        end_texts tag r
        ∙ h.texts
        ∙ rw (start_texts tag attrs p, start_depth tag attrs p, e, under-nil p.skip) refl;
    depth = end_depth tag r ∙ rw (e, h.depth, start_depth tag attrs p, e) (omega arith);
  })
  | inr e ↦ rw e (record {
    texts =
        end_texts tag r ∙ h.texts ∙ rw (start_texts tag attrs p, start_depth tag attrs p, e) refl;
    depth = end_depth tag r ∙ rw (e, h.depth, start_depth tag attrs p, e) refl;
  })
]

then-HasRead :
    (ts us : List Text) (p q r : BodyParser)
    → HasRead ts p q
    → HasRead us q r
    → HasRead (ts ++ us) p r
then-HasRead ts us p q r h k = record {
  texts =
      k.texts
      ∙ rw (h.texts, h.depth, under-append p.skip ts us)
          (append_assoc p.text_parts (under p.skip ts) (under p.skip us));
  depth = k.depth ∙ h.depth;
}

mutual
  unfolding visible events AreNested feed

  read_of :
      (n : Node) → IsNested n → (p : BodyParser) → HasRead (visible_of n) p (feed (events_of n) p)
  read_of (text_node t) h p = data-HasRead t p
  read_of (void tag attrs) h p = void-HasRead tag attrs p h
  read_of (element tag attrs ns) h p =
      rw (feed-append (events ns) (end_tag tag ∷ []) (handle_starttag tag attrs p))
        (element-HasRead tag attrs (visible ns) p _ (read_all ns h (handle_starttag tag attrs p)))

  read_all :
      (ns : Nodes) → AreNested ns → (p : BodyParser) → HasRead (visible ns) p (feed (events ns) p)
  read_all no_nodes h p = record { texts = rw (under-nil p.skip, append-nil) refl; depth = refl }
  read_all (node n ns) (h, hs) p = rw (feed-append (events_of n) (events ns) p) (
      then-HasRead (visible_of n) (visible ns) p _ _ (read_of n h p)
        (read_all ns hs (feed (events_of n) p)))

-- The visible text of well-nested HTML is what stands outside `script` and `style`, in order, with
-- white space collapsed; markup and skipped elements leave nothing behind, however deep they nest.
pub text-feed :
    (ns : Nodes)
    → AreNested ns
    → text (feed (events ns) new_parser) ≡ strip is_space (collapse false (concat (visible ns)))
unfolding text
text-feed ns h =
    ap (λ ts. strip is_space (collapse false (concat ts))) (read_all ns h new_parser).texts
