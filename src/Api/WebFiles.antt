-- ===== src/Api/WebFiles.antt =====
-- `WebFiles` of `src/api/main.py`. `StaticFiles` is a parameter: its response to a path.
pub mod Hidden
use mail_tester.Prelude.{
  ℕ, Bool, true, false, ◌&&◌, not, List, [], ◌∷◌, any, Text, codes, lower, split, starts_with,
  ends_with, ◌=ᵗ◌, if◌then◌else◌,
}

-- A response by its headers, or the status of the exception that is raised.
pub data Reply : Type 0 where
  response : List (Text × Text) → Reply
  raises : ℕ → Reply

abbrev pub blocked_web_suffixes : List Text
blocked_web_suffixes =
    codes ".md"
    ∷ codes ".yml"
    ∷ codes ".yaml"
    ∷ codes ".toml"
    ∷ codes ".ini"
    ∷ codes ".log"
    ∷ codes ".bak"
    ∷ codes ".sql"
    ∷ []

abbrev pub immutable_cache : Text
immutable_cache = codes "public, max-age=31536000, immutable"

abbrev pub immutable_web_prefix : Text
immutable_web_prefix = codes "fonts/"

-- `headers[name] = value`: names are compared without regard to case.
unfoldable pub set_header : Text → Text → List (Text × Text) → List (Text × Text)
set_header name value [] = (name, value) ∷ []
set_header name value ((n, v) ∷ headers) =
    let rest = set_header name value headers in
    if lower n =ᵗ lower name then (name, value) ∷ headers else (n, v) ∷ rest

-- `part.startswith(".") and part != "."`
abbrev pub is_hidden : Text → Bool
is_hidden part = starts_with part (codes ".") && not (part =ᵗ codes ".")

abbrev pub is_blocked : Text → Bool
is_blocked path = any (ends_with (lower path)) blocked_web_suffixes

abbrev pub with_cache : Text → Reply → Reply
with_cache path (raises status) = raises status
with_cache path (response headers) = response (
    if starts_with path immutable_web_prefix
    then set_header (codes "cache-control") immutable_cache headers
    else headers)

unfoldable pub get_response : (Text → Reply) → Text → Reply
unfolding split set_header
get_response static path =
    if any is_hidden (split b'/' path)
    then raises 404
    else if is_blocked path
    then raises 404
    else with_cache path (static path)
