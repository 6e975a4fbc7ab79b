-- ===== src/Config.antt =====
-- `src/config.py`: the settings that the modelled code reads. They come from the environment, so
-- they are a parameter. Units are the source's.
use mail_tester.Prelude.{ℕ, Text}

pub record Config : Type 0 where
  pub mail_domain : Text
  pub message_size_limit : ℕ
  pub test_address_ttl_minutes : ℕ
  pub anon_daily_limit : ℕ
  pub user_daily_limit : ℕ
  pub api_daily_limit : ℕ
  pub generate_rate_limit : ℕ
  pub generate_rate_window : ℕ
  pub auth_rate_limit : ℕ
  pub auth_rate_window : ℕ
  pub password_min_length : ℕ
  pub check_rate_limit : ℕ
  pub check_rate_window : ℕ
  pub read_rate_limit : ℕ
  pub read_rate_window : ℕ
  pub api_key_prefix : Text
  pub api_keys_per_user : ℕ
  pub api_rate_limit : ℕ
  pub api_rate_window : ℕ
  pub history_page_size : ℕ
  pub history_max_page_size : ℕ
  pub token_expire_minutes : ℕ
  -- In hundredths of a point.
  pub spam_penalty_cap : ℕ
  pub dnsbl_max_lists : ℕ
  pub uribl_max_domains : ℕ
