-- ===== src/Processor/Sender/Received.antt =====
-- `get_sender_ip` of `src/processor/service.py`: which address it takes.
use mathlib.Core.Path.{subst}
use mathlib.Core.Option.{some-injective}
use mail_tester.Prelude.{
  ◌≡◌, ◌⊎◌, ◌∙◌, refl, sym, ap, arith, Bool, true, false, Option, none, some, List, [], ◌∷◌, ◌++◌,
  reverse, All, All-append, Text, codes, Option-cases, Bool-cases, inl, inr,
}
use mail_tester.Regex.{findall}
use mail_tester.Regex.Language.{IsFound}
use mail_tester.Regex.Found.{IsGroup, findall-IsFound}
use mail_tester.Ingest.Message.{Message, headers, get_all}
use mail_tester.Ingest.Connection.{client_ip_pattern}
use mail_tester.Processor.Sender.{is_public_ip, first_public, search_headers, get_sender_ip}

-- The bracketed addresses of some headers, in order.
unfoldable pub bracketed : List Text → List Text
bracketed [] = []
bracketed (h ∷ hs) = findall client_ip_pattern h ++ bracketed hs

-- A header of the list writes the address in brackets.
pub data Stands (ip : Text) : List Text → Type 0 where
  here : {h : Text} {hs gs : List Text} → IsFound client_ip_pattern h (ip ∷ gs) → Stands ip (h ∷ hs)
  there : {h : Text} {hs : List Text} → Stands ip hs → Stands ip (h ∷ hs)

-- The first public one of some addresses, and those before it.
pub record IsFirstPublic (is_global : Text → Option Bool) (ip : Text) (ips : List Text)
    : Type 0 where
  pub before : List Text
  pub after : List Text
  pub split : ips ≡ before ++ ip ∷ after
  pub public : is_public_ip is_global ip ≡ true
  pub passed : All (λ jp. is_public_ip is_global jp ≡ false) before

here-Stands :
    (h : Text) (hs ips : List Text)
    → All (IsGroup client_ip_pattern h) ips
    → All (λ ip. Stands ip (h ∷ hs)) ips
here-Stands h hs [] k = tt
here-Stands h hs (ip ∷ ips) ((gs, f), k) = (here f, here-Stands h hs ips k)

there-Stands :
    (h : Text) (hs ips : List Text)
    → All (λ ip. Stands ip hs) ips
    → All (λ ip. Stands ip (h ∷ hs)) ips
there-Stands h hs [] k = tt
there-Stands h hs (ip ∷ ips) (s, k) = (there s, there-Stands h hs ips k)

bracketed-Stands : (hs : List Text) → All (λ ip. Stands ip hs) (bracketed hs)
unfolding bracketed
bracketed-Stands [] = tt
bracketed-Stands (h ∷ hs) =
    All-append (λ ip. Stands ip (h ∷ hs)) (findall client_ip_pattern h) (bracketed hs)
      (here-Stands h hs _ (findall-IsFound client_ip_pattern h))
      (there-Stands h hs _ (bracketed-Stands hs))

middle-All :
    (P : Text → Type 0) (before after : List Text) (ip : Text) → All P (before ++ ip ∷ after) → P ip
middle-All P [] after ip h = h.0
middle-All P (jp ∷ before) after ip h = middle-All P before after ip h.1

module _ (is_global : Text → Option Bool) where
  first_public-append :
      (ips jps : List Text)
      → first_public is_global (ips ++ jps) ≡ (elim (first_public is_global ips) [
        | none ↦ first_public is_global jps
        | some ip ↦ some ip
      ])
  unfolding first_public
  first_public-append [] jps = refl
  first_public-append (ip ∷ ips) jps = ground (arith, first_public-append ips jps)

  search_headers-bracketed :
      (hs : List Text) → search_headers is_global hs ≡ first_public is_global (bracketed hs)
  unfolding search_headers bracketed
  search_headers-bracketed [] = refl
  search_headers-bracketed (h ∷ hs) =
      ap
        (λ rest. elim (first_public is_global (findall client_ip_pattern h)) [
          | none ↦ rest
          | some ip ↦ some ip
        ])
        (search_headers-bracketed hs)
      ∙ sym (first_public-append (findall client_ip_pattern h) (bracketed hs))

  -- The addresses that the `Received` headers write in brackets, the oldest header first.
  abbrev pub received_ips : Message → List Text
  received_ips m = bracketed (reverse (get_all (codes "Received") (headers m)))

  get_sender_ip-first :
      (m : Message) → get_sender_ip is_global m ≡ first_public is_global (received_ips m)
  unfolding get_sender_ip
  get_sender_ip-first m = search_headers-bracketed _

  abbrev pub IsPrivate : Text → Type 0
  IsPrivate ip = is_public_ip is_global ip ≡ false

  first_public-none : (ips : List Text) → first_public is_global ips ≡ none → All IsPrivate ips
  unfolding first_public
  first_public-none [] e = tt
  first_public-none (ip ∷ ips) e = elim (Bool-cases (is_public_ip is_global ip)) [
    | inl p ↦ ground arith
    | inr p ↦ (p, first_public-none ips (ground arith))
  ]

  first_public-some :
      (ips : List Text) (ip : Text)
      → first_public is_global ips ≡ some ip
      → IsFirstPublic is_global ip ips
  unfolding first_public
  first_public-some [] ip e = cc
  first_public-some (jp ∷ ips) ip e = elim (Bool-cases (is_public_ip is_global jp)) [
    | inl p ↦
        let same = some-injective jp ip (rw (p, first_public) at e) in
        record {
          before = [];
          after = ips;
          split = ap (λ i. i ∷ ips) same;
          public = subst (λ i. is_public_ip is_global i ≡ true) same p;
          passed = tt;
        }
    | inr p ↦
        let later = first_public-some ips ip (rw (p, first_public) at e) in
        record {
          before = jp ∷ later.before;
          after = later.after;
          split = ap (λ is. jp ∷ is) later.split;
          public = later.public;
          passed = (p, later.passed);
        }
  ]

  -- The sender's address is the first public one that the `Received` headers write in brackets, the
  -- oldest header first; it does stand in brackets in one of them. There is none only if no bracketed
  -- address is public.
  pub get_sender_ip-IsFirstPublic :
      (m : Message)
      → ((get_sender_ip is_global m ≡ none) × All IsPrivate (received_ips m))
        ⊎ ((ip : Text) × (get_sender_ip is_global m ≡ some ip)
            × IsFirstPublic is_global ip (received_ips m)
            × Stands ip (reverse (get_all (codes "Received") (headers m))))
  get_sender_ip-IsFirstPublic m = elim (Option-cases (get_sender_ip is_global m)) [
    | inl e ↦ inl (e, first_public-none (received_ips m) (sym (get_sender_ip-first m) ∙ e))
    | inr (ip, e) ↦
        let found = first_public-some (received_ips m) ip (sym (get_sender_ip-first m) ∙ e) in
        inr (
          ip,
          e,
          found,
          middle-All _ found.before found.after ip (subst (All _) found.split (bracketed-Stands _)),
        )
  ]
