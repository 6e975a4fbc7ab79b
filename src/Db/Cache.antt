-- ===== src/Db/Cache.antt =====
-- `src/db/cache.py`
use mail_tester.Prelude.{Option, none, some, ◌++◌, [], Text, codes, strip, lower, is_space}

abbrev pub text_or_empty : Option Text → Text
text_or_empty none = []
text_or_empty (some s) = s

unfoldable pub address_key : Option Text → Text
address_key to_address =
    codes "mailtester:rcpt:" ++ lower (strip is_space (text_or_empty to_address))
