-- ===== src/Database/Encoding.antt =====
-- thaum/db_bootstrap.py: every psycopg URL that is resolved names its client encoding.
use thaum.Prelude.{
  ◌≡◌, refl, sym, ap, ◌∙◌, ◌⊎◌, inl, inr, Bool, true, false, Option, none, some, [], ◌∷◌, ◌++◌,
  append_assoc, arith, if◌then◌else◌, Bool-cases,
}
use thaum.Text.{Text, codes, truthy, strip, strip_opt, lower_char, lower, starts_with, has_char}
use thaum.Database.{
  contains, external_db_env_true, is_psycopg, has_encoding, with_encoding,
  ensure_psycopg_client_encoding_utf8, setting_or, Environment, default_bundled_db_url,
  bundled_unless, resolve_app_db_url,
}

contains-append : (needle s t : Text) → contains needle t ≡ true → contains needle (s ++ t) ≡ true
unfolding contains
contains-append needle [] t e = e
contains-append needle (c ∷ s) t e = rw (contains-append needle s t e) ground arith

lower-append : (s t : Text) → lower (s ++ t) ≡ lower s ++ lower t
unfolding lower
lower-append [] t = refl
lower-append (c ∷ s) t =
    ap (λ rest. lower_char c ++ rest) (lower-append s t)
    ∙ sym (append_assoc (lower_char c) (lower s) (lower t))

separator-contains :
    (b : Bool)
    → contains
        (codes "client_encoding=")
        (lower ((if b then b'&' else b'?') ∷ codes "client_encoding=utf8"))
      ≡ true
unfolding contains lower lower_char starts_with
separator-contains true = refl
separator-contains false = refl

has_encoding-with_encoding : (url : Text) → has_encoding (with_encoding url) ≡ true
unfolding has_encoding with_encoding
has_encoding-with_encoding url =
    ap (contains (codes "client_encoding=")) (lower-append url _)
    ∙ contains-append (codes "client_encoding=") (lower url) _
        (separator-contains (has_char b'?' url))

abbrev pub NamesEncoding : Text → Type 0
NamesEncoding url = (is_psycopg url ≡ false) ⊎ (has_encoding url ≡ true)

ensure-NamesEncoding : (db_url : Text) → NamesEncoding (ensure_psycopg_client_encoding_utf8 db_url)
unfolding ensure_psycopg_client_encoding_utf8
ensure-NamesEncoding db_url =
    let u = strip db_url in
    elim (Bool-cases (is_psycopg u)) [
      | inr other_driver ↦ rw other_driver (inl other_driver)
      | inl psycopg ↦ rw psycopg (elim (Bool-cases (has_encoding u)) [
        | inl named ↦ rw named (inr named)
        | inr unnamed ↦ rw unnamed (inr (has_encoding-with_encoding u))
      ])
    ]

bundled-NamesEncoding :
    (quote_plus : Text → Text) (env : Environment)
    → NamesEncoding (default_bundled_db_url quote_plus env)
unfolding default_bundled_db_url
bundled-NamesEncoding quote_plus env = ensure-NamesEncoding (
    codes "postgresql+psycopg://"
    ++ quote_plus (setting_or env.thaum_pg_user (codes "thaum"))
    ++ codes "@/"
    ++ quote_plus (setting_or env.thaum_pg_database (codes "thaum"))
    ++ codes "?host="
    ++ quote_plus (setting_or env.thaum_pg_socket_dir (codes "/tmp/postgres")))

-- A URL comes out unless the settings have none and an external database is asked for; and a URL that
-- comes out, from the settings or the bundled one, names its client encoding if it is one of psycopg.
pub resolve_app_db_url-NamesEncoding :
    (quote_plus : Text → Text) (env : Environment) (db_url : Option Text)
    → ((resolve_app_db_url quote_plus env db_url ≡ none)
        × (truthy (strip_opt db_url) ≡ false)
        × (external_db_env_true env.thaum_external_db ≡ true))
      ⊎ ((url : Text) × (resolve_app_db_url quote_plus env db_url ≡ some url) × NamesEncoding url)
unfolding resolve_app_db_url
resolve_app_db_url-NamesEncoding quote_plus env db_url =
    elim (Bool-cases (truthy (strip_opt db_url))) [
      | inl given ↦ inr (
        ensure_psycopg_client_encoding_utf8 (strip_opt db_url),
        rw given refl,
        ensure-NamesEncoding (strip_opt db_url),
      )
      | inr blank ↦ elim (Bool-cases (external_db_env_true env.thaum_external_db)) [
        | inl external ↦
            inl ((rw (blank, external) (unfold bundled_unless in refl)), blank, external)
        | inr bundled ↦ inr (
          default_bundled_db_url quote_plus env,
          rw (blank, bundled) (unfold bundled_unless in refl),
          bundled-NamesEncoding quote_plus env,
        )
      ]
    ]
