-- ===== src/Api/WebFiles/Hidden.antt =====
-- `WebFiles` of `src/api/main.py`: which files are never served.
use mail_tester.Prelude.{
  ℕ, ◌≡◌, ◌∙◌, refl, ap, arith, true, false, List, [], ◌∷◌, ◌++◌, any, All, All-append, Text, null,
  split, join, split-join, starts_with, has_char, ◌=ᵗ◌,
}
use mail_tester.Api.WebFiles.{Reply, raises, is_hidden, get_response}

-- A name in a path.
abbrev pub IsName : Text → Type 0
IsName part = has_char b'/' part ≡ false

null-append : (xs ys : List Text) → null ys ≡ false → null (xs ++ ys) ≡ false
null-append [] ys h = h
null-append (x ∷ xs) ys h = refl

dot-IsName : (c : ℕ) (rest : Text) → IsName (c ∷ rest) → IsName (b'.' ∷ c ∷ rest)
unfolding has_char
dot-IsName c rest h = h

dot_hidden : (c : ℕ) (rest : Text) → is_hidden (b'.' ∷ c ∷ rest) ≡ true
unfolding starts_with ◌=ᵗ◌
dot_hidden c rest = refl

hidden_part :
    (before after : List Text) (name : Text)
    → is_hidden name ≡ true
    → any is_hidden (before ++ name ∷ after) ≡ true
hidden_part [] after name h = rw h refl
hidden_part (part ∷ before) after name h = ground (arith, hidden_part before after name h)

hidden_path :
    (static : Text → Reply) (path : Text)
    → any is_hidden (split b'/' path) ≡ true
    → get_response static path ≡ raises 404
unfolding get_response
hidden_path static path h = rw h refl

-- A file whose name begins with a dot, or one in a directory whose name does, at any depth, is never
-- served: whatever the static files are, the answer is 404.
pub get_response_hidden :
    (static : Text → Reply) (before after : List Text) (c : ℕ) (rest : Text)
    → All IsName before
    → IsName (c ∷ rest)
    → All IsName after
    → get_response static (join b'/' (before ++ (b'.' ∷ c ∷ rest) ∷ after)) ≡ raises 404
get_response_hidden static before after c rest h k l =
    let parts = before ++ (b'.' ∷ c ∷ rest) ∷ after in
    hidden_path static (join b'/' parts) (
      ap (any is_hidden) (
        split-join b'/' parts (null-append before _ refl)
          (All-append IsName before _ h (dot-IsName c rest k, l)))
      ∙ hidden_part before after (b'.' ∷ c ∷ rest) (dot_hidden c rest))
