-- ===== src/Database.antt =====
-- thaum/db_bootstrap.py: the URL of the database.
--
-- Parameters: the variables of the environment, and `quote_plus` of urllib. `lower` is exact on ASCII.
-- The connection and the tables are SQLAlchemy's.
pub mod Encoding
mod Tests
use thaum.Prelude.{
  Bool, true, false, not, ◌&&◌, ◌||◌, Option, none, some, [], ◌∷◌, ◌++◌, if◌then◌else◌,
}
use thaum.Text.{
  Text, codes, truthy, or_else, strip, strip_opt, lower, starts_with, has_char, one_of,
}

-- `needle in s`.
unfoldable pub contains : Text → Text → Bool
unfolding starts_with
contains needle [] = starts_with [] needle
contains needle (c ∷ s) = starts_with (c ∷ s) needle || contains needle s

unfoldable pub external_db_env_true : Option Text → Bool
unfolding strip_opt lower one_of
external_db_env_true thaum_external_db =
    one_of (lower (strip_opt thaum_external_db))
      (codes "1" ∷ codes "true" ∷ codes "yes" ∷ codes "on" ∷ [])

unfoldable pub is_psycopg : Text → Bool
unfolding lower starts_with
is_psycopg url = starts_with (lower url) (codes "postgresql+psycopg://")

unfoldable pub has_encoding : Text → Bool
unfolding lower contains
has_encoding url = contains (codes "client_encoding=") (lower url)

unfoldable pub with_encoding : Text → Text
unfolding has_char
with_encoding url =
    url ++ ((if has_char b'?' url then b'&' else b'?') ∷ codes "client_encoding=utf8")

unfoldable pub ensure_psycopg_client_encoding_utf8 : Text → Text
unfolding strip is_psycopg has_encoding with_encoding
ensure_psycopg_client_encoding_utf8 db_url =
    let u = strip db_url in
    if not (is_psycopg u) then u else if has_encoding u then u else with_encoding u

-- `(os.environ.get(name) or default).strip() or default`.
setting_or : Option Text → Text → Text
unfolding strip
setting_or none fallback = or_else (strip fallback) fallback
setting_or (some s) fallback = or_else (strip (or_else s fallback)) fallback

-- THAUM_PG_USER, THAUM_PG_DATABASE, THAUM_PG_SOCKET_DIR and THAUM_EXTERNAL_DB.
pub record Environment : Type 0 where
  pub thaum_pg_user : Option Text
  pub thaum_pg_database : Option Text
  pub thaum_pg_socket_dir : Option Text
  pub thaum_external_db : Option Text

unfoldable pub default_bundled_db_url : (Text → Text) → Environment → Text
unfolding setting_or ensure_psycopg_client_encoding_utf8
default_bundled_db_url quote_plus env =
    let user = setting_or env.thaum_pg_user (codes "thaum") in
    let dbname = setting_or env.thaum_pg_database (codes "thaum") in
    let sock_dir = setting_or env.thaum_pg_socket_dir (codes "/tmp/postgres") in
    ensure_psycopg_client_encoding_utf8 (
      codes "postgresql+psycopg://"
      ++ quote_plus user
      ++ codes "@/"
      ++ quote_plus dbname
      ++ codes "?host="
      ++ quote_plus sock_dir)

bundled_unless : Bool → (Text → Text) → Environment → Option Text
unfolding default_bundled_db_url
bundled_unless true quote_plus env = none
bundled_unless false quote_plus env = some (default_bundled_db_url quote_plus env)

-- `none` is a ValueError.
unfoldable pub resolve_app_db_url : (Text → Text) → Environment → Option Text → Option Text
unfolding strip_opt ensure_psycopg_client_encoding_utf8 bundled_unless external_db_env_true strip
resolve_app_db_url quote_plus env db_url =
    if truthy (strip_opt db_url)
    then some (ensure_psycopg_client_encoding_utf8 (strip_opt db_url))
    else bundled_unless (external_db_env_true env.thaum_external_db) quote_plus env

-- Whether the engine gets the single shared connection.
unfoldable pub is_memory_sqlite : Text → Bool
unfolding lower strip starts_with contains
is_memory_sqlite db_url =
    let u = lower (strip db_url) in starts_with u (codes "sqlite") && contains (codes ":memory:") u
