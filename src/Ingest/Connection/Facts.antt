-- ===== src/Ingest/Connection/Facts.antt =====
-- `src/ingest/connection.py`: what the fields of a connection hold.
use mathlib.Core.Path.{subst}
use mathlib.Core.Option.{some-injective}
use mathlib.Core.List.{append_assoc}
use mail_tester.Prelude.{
  ==_iff, ◌≡◌, sym, ◌∙◌, some, Option-cases, inl, inr, List, [], ◌∷◌, ◌++◌, Text,
}
use mail_tester.Regex.{group_of, search_text}
use mail_tester.Regex.Language.{Matches, class, seq, group, IsFound, search_text-IsFound}
use mail_tester.Ingest.Connection.{read_connection, dotted_quad, client_ip_pattern}

-- The text `ip` stands in `top` between brackets.
pub record IsBracketed (ip top : Text) : Type 0 where
  pub before : Text
  pub after : Text
  pub place : top ≡ before ++ (b'[' ∷ (ip ++ (b']' ∷ after)))

-- The text is four groups of one to three digits with dots between them.
abbrev pub IsDottedQuad : Text → Type 0
IsDottedQuad ip = (gs : List Text) × Matches dotted_quad ip gs

-- A match of the pattern is the brackets and what its group holds.
bracketed :
    {t : Text} {gs : List Text} (ip : Text)
    → Matches client_ip_pattern t gs
    → group_of 1 (some gs) ≡ some ip
    → (t ≡ b'[' ∷ (ip ++ (b']' ∷ []))) × IsDottedQuad ip
bracketed ip (seq (class {c = o} oe) (seq (group {s = q} {gs = hs} quad) (class {c = e} ce))) h =
    let same = some-injective q ip h in
    (
      rw (sym ((==_iff b'[' o).0 oe), sym ((==_iff b']' e).0 ce), same),
      subst IsDottedQuad same (hs, quad),
    )

-- The client address that is taken from the header is a dotted quad, and stands in it in brackets.
pub client_ip-read_connection :
    (top ip : Text)
    → (read_connection top).client_ip ≡ some ip
    → IsBracketed ip top × IsDottedQuad ip
unfolding read_connection
client_ip-read_connection top ip h = elim (Option-cases (search_text client_ip_pattern top)) [
  | inl e ↦ absurd (cc (rw e at h))
  | inr (gs, e) ↦ found (search_text-IsFound client_ip_pattern top e) (rw e at h)
]
  where
    found :
        {gs : List Text}
        → IsFound client_ip_pattern top gs
        → group_of 1 (some gs) ≡ some ip
        → IsBracketed ip top × IsDottedQuad ip
    found f g =
        let (shape, quad) = bracketed ip f.matches g in
        (
          record { before = f.before; after = f.after; place = f.place ∙ rw (shape, append_assoc) },
          quad,
        )
