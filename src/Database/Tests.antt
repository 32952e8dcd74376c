-- ===== src/Database/Tests.antt =====
-- Tests of the URL of the database.
use thaum.Prelude.{◌≡◌, refl, none, some}
use thaum.Text.{
  codes, text_eq, is_space, lstrip, rstrip, strip, strip_opt, lower_char, lower, starts_with,
  has_char, one_of,
}
use thaum.Database.{
  contains, external_db_env_true, is_psycopg, has_encoding, with_encoding,
  ensure_psycopg_client_encoding_utf8, Environment, resolve_app_db_url,
}

abbrev env : Environment
env = record {
  thaum_pg_user = none;
  thaum_pg_database = some (codes " ");
  thaum_pg_socket_dir = none;
  thaum_external_db = some (codes " Yes");
}

given_url :
    resolve_app_db_url (λ s. s) env (some (codes "PostgreSQL+psycopg://h/d?a=b "))
    ≡ some (codes "PostgreSQL+psycopg://h/d?a=b&client_encoding=utf8")
unfolding resolve_app_db_url ensure_psycopg_client_encoding_utf8 is_psycopg has_encoding
    with_encoding contains starts_with has_char lower lower_char strip_opt strip lstrip rstrip
    is_space
given_url = refl

external_without_url : resolve_app_db_url (λ s. s) env (some (codes " ")) ≡ none
unfolding resolve_app_db_url external_db_env_true one_of text_eq lower lower_char strip_opt strip
    lstrip rstrip is_space
external_without_url = refl
