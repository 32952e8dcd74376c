-- ===== src/Config/Tests.antt =====
-- Runs of the settings.
use thaum.Prelude.{◌≡◌, refl, true, false, some, [], ◌∷◌}
use thaum.Text.{
  Text, codes, text_eq, is_space, lstrip, rstrip, strip, lower_char, lower, rstrip_char,
  lstrip_char, one_of,
}
use thaum.Dict.{Dict, get}
use thaum.Config.Url.{
  from_azure, strip_base_url_candidate, env_candidate, url_of, first_url, app_host, url_sources,
  resolve_base_url,
}
use thaum.Config.Url.Trailing.{slashes}
use thaum.Config.Alerting.{BaseChatBotConfig}
use thaum.Config.Logging.{string, to, log_file_of_text, normalize_log_file_value}

abbrev azure_env : Dict Text
azure_env =
    (codes "CONTAINER_APP_NAME", codes "thaum")
    ∷ (codes "CONTAINER_APP_ENV_DNS_SUFFIX", codes ".x.io/ ")
    ∷ []

azure_url :
    resolve_base_url azure_env (some (codes "  ")) ≡ some (codes "https://thaum.x.io", from_azure)
unfolding resolve_base_url first_url url_of url_sources env_candidate strip_base_url_candidate
    app_host get strip lstrip rstrip is_space text_eq rstrip_char lstrip_char
azure_url = refl

abbrev slash_env : Dict Text
slash_env = (codes "THAUM_BASE_URL", codes "//") ∷ []

slash_set : get (codes "THAUM_BASE_URL") slash_env ≡ some (slashes 2)
unfolding get text_eq slashes
slash_set = refl

abbrev quiet_bot : BaseChatBotConfig
quiet_bot = record { send_alerts = false; high_pri_on = true; alert_type = codes "null" }

goes_to_path : normalize_log_file_value (string (codes " logs/t.log ")) ≡ to (codes "logs/t.log")
unfolding normalize_log_file_value log_file_of_text strip lstrip rstrip is_space lower lower_char
    one_of text_eq
goes_to_path = refl
