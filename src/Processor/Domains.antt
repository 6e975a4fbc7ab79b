-- ===== src/Processor/Domains.antt =====
-- `organizational_domain`, `domains_aligned` and `_sender_domain_of` of `src/processor/service.py`.
pub mod Labels
pub mod Alignment
use mail_tester.Prelude.{
  ℕ, zero, suc, ◌-◌, Bool, true, false, Option, none, some, List, [], ◌∷◌, ◌++◌, Text, codes, strip,
  lower, is_dot, is_space, split, join, after_last, has_char, null, length, drop, leb, ◌=ᵗ◌,
  if◌then◌else◌,
}
use mail_tester.Db.Cache.{text_or_empty}

-- `labels[-2:]`
abbrev last_two : List Text → List Text
last_two ls = drop (length ls - 2) ls

unfoldable pub organizational_domain : Text → Text
organizational_domain domain =
    let labels = split b'.' (lower (strip is_dot domain)) in
    if leb 2 (length labels) then join b'.' (last_two labels) else lower domain

-- `(mode or "r").lower()`
abbrev pub mode_of : Option Text → Text
mode_of none = codes "r"
mode_of (some m) = if null m then codes "r" else lower m

abbrev pub normal : Text → Text
normal d = lower (strip is_dot d)

-- An absent domain is the empty text here: both are false in Python.
unfoldable pub domains_aligned : Text → Option Text → Option Text → Bool
unfolding organizational_domain
domains_aligned from_domain auth_domain mode =
    let auth = text_or_empty auth_domain in
    if null from_domain
    then false
    else if null auth
    then false
    else if normal from_domain =ᵗ normal auth
    then true
    else if mode_of mode =ᵗ codes "s"
    then false
    else organizational_domain (normal from_domain) =ᵗ organizational_domain (normal auth)

unfoldable pub sender_domain_of : Option Text → Option Text
sender_domain_of none = none
sender_domain_of (some address) =
    if has_char b'@' address then some (lower (strip is_space (after_last b'@' address))) else none
