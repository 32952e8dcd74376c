-- ===== src/Admin/Post.antt =====
-- thaum/admin_log_level.py: the signed request for a log level.
--
-- Parameters: the decoding of base64, the keyed hash HMAC-SHA256 and the parser of the time stamp.
-- Bytes and texts are both lists of numbers, since what is encoded is ASCII. Clocks are in
-- microseconds. The time of a request is in whole seconds since 1970: an earlier one is a time that
-- the parser refuses, which gives the answer that the test of the clock gives. The configured skew
-- is not negative.
pub mod Replay
pub mod Effect
pub mod Level
mod Tests
use thaum.Prelude.{
  ℕ, zero, suc, ◌+◌, ◌-◌, ◌*◌, ◌/◌, ◌%◌, Bool, true, false, not, ◌&&◌, ◌||◌, Option, none, some,
  List, [], ◌∷◌, ◌++◌, ltb, leb, ◌==◌, if◌then◌else◌, length, drop, all,
}
use thaum.Text.{Text, codes, text_eq, truthy, or_else, strip, strip_opt, lower, upper, starts_with}
use thaum.Table.{add_row, delete_where}
use thaum.Admin.LogLevel.{
  log_levels, level_of, parse_level_name, parsed_level, AdminLogLevelState, Worker,
  set_runtime_root_log_level, mark_db_log_state_applied,
}

-- The answers of the handler, by their status codes.
pub data Response : Type 0 where
  ok unauthorized bad_request not_found internal_error : Response

pub record AdminConfig : Type 0 where
  pub route_id : Text
  pub hmac_secret : Option Text
  pub clock_skew_seconds : ℕ

-- The values of the request's JSON object that the handler tells apart. A truth value, or a number
-- that equals an integer, is that integer.
pub data Value : Type 0 where
  number : ℕ → Value
  string : Text → Value
  absent : Value

-- The body is `none` where it is no JSON object.
pub record Request : Type 0 where
  pub timestamp : Text
  pub nonce : Text
  pub signature : Text
  pub body : Option (Value × Value)

-- The times at which the handler reads the clock, and whether the database answers.
pub record Moment : Type 0 where
  pub checked_at : ℕ
  pub expiry_from : ℕ
  pub stored_at : ℕ
  pub database_works : Bool

pub record Nonce : Type 0 where
  pub nonce : Text
  pub expires_at : ℕ

pub record Server : Type 0 where
  pub nonces : List Nonce
  pub level_row : Option AdminLogLevelState
  pub worker : Worker

is_hex : ℕ → Bool
is_hex c = (leb b'0' c && leb c b'9') || (leb b'a' c && leb c b'f')

-- `_NONCE_RE`, on a text without a line end.
unfoldable pub nonce_matches : Text → Bool
unfolding is_hex
nonce_matches s = length s == 32 && all is_hex s

is_route_char : ℕ → Bool
unfolding is_hex
is_route_char c =
    is_hex c || (leb b'g' c && leb c b'z') || (leb b'A' c && leb c b'Z') || c == b'_' || c == b'-'

-- `_ROUTE_ID_RE`, on a text without a line end.
unfoldable pub route_matches : Text → Bool
unfolding is_route_char
route_matches s = leb 8 (length s) && leb (length s) 128 && all is_route_char s

-- `str(n)`.
digits_within : ℕ → ℕ → Text
digits_within zero n = []
digits_within (suc fuel) n =
    let front = digits_within fuel (n / 10) in
    if ltb n 10 then (n + 48) ∷ [] else front ++ (n % 10 + 48) ∷ []

unfoldable pub decimal : ℕ → Text
unfolding digits_within
decimal n = digits_within (suc n) n

abbrev pub admin_scheme : Text
admin_scheme = codes "thaum-log-level-v1"

unfoldable pub build_canonical_message : Text → ℕ → Text → Text → Text
unfolding decimal
build_canonical_message route_id epoch_seconds nonce_hex loglevel =
    admin_scheme
    ++ 10 ∷ codes "POST"
    ++ 10 ∷ codes "/"
    ++ route_id
    ++ codes "/log-level"
    ++ 10 ∷ decimal epoch_seconds
    ++ 10 ∷ nonce_hex
    ++ 10 ∷ codes "loglevel="
    ++ loglevel
    ++ 10 ∷ codes "v=1"
    ++ 10 ∷ []

unfoldable pub normalize_loglevel_token : Text → Text
unfolding upper strip
normalize_loglevel_token raw = upper (strip raw)

abbrev pub is_some {ℓ} : {A : Type ℓ} → Option A → Bool
is_some none = false
is_some (some a) = true

unfoldable pub allowed_loglevel_name : Text → Bool
unfolding upper text_eq level_of
allowed_loglevel_name name =
    let u = upper name in text_eq u (codes "DEFAULT") || is_some (level_of u log_levels)

unfoldable pub has_nonce : Text → List Nonce → Bool
unfolding text_eq
has_nonce n [] = false
has_nonce n (r ∷ rows) = text_eq r.nonce n || has_nonce n rows

-- The rows that stay when those whose time is over are deleted.
unfoldable pub live_nonces : ℕ → List Nonce → List Nonce
unfolding delete_where
live_nonces now rows = delete_where (λ r. ltb r.expires_at now) rows

abbrev pub db_level : Text → Option Text
db_level norm = if text_eq norm (codes "DEFAULT") then none else some norm

unfoldable pub apply_level : Option Text → ℕ → Worker → Worker
unfolding parse_level_name set_runtime_root_log_level mark_db_log_state_applied
apply_level level at w =
    mark_db_log_state_applied level at (set_runtime_root_log_level (parsed_level level) w)

-- What the database does with an accepted request. A transaction that fails leaves the tables as
-- they are; a nonce that is there already keeps the deletions.
unfoldable pub store : ℕ → Text → Text → Moment → Server → Response × Server
unfolding live_nonces has_nonce apply_level add_row
store skew nonce norm m s =
    let live = live_nonces m.stored_at s.nonces in
    let row : Nonce = record {
      nonce = nonce;
      expires_at = m.expiry_from + (skew + 120) * 1000000;
    } in
    let level : AdminLogLevelState = record {
      log_level = db_level norm;
      updated_at = m.stored_at;
    } in
    if not m.database_works
    then (internal_error, s)
    else if has_nonce nonce live
    then (unauthorized, record s { nonces = live })
    else (
      ok,
      record {
        nonces = add_row row live;
        level_row = some level;
        worker = apply_level (db_level norm) m.stored_at s.worker;
      },
    )

-- `abs(now - req_epoch) <= skew`, in whole seconds.
abbrev pub within_skew : ℕ → ℕ → ℕ → Bool
within_skew skew now epoch = leb (now - epoch) skew && leb (epoch - now) skew

padding : ℕ → Text
padding n =
    if n % 4 == 0
    then []
    else if n % 4 == 1
    then codes "==="
    else if n % 4 == 2
    then codes "=="
    else codes "="

has_key_length : Option Text → Option Text
has_key_length none = none
has_key_length (some key) = if length key == 32 then some key else none

-- The guards on the body of the request: the level that it asks for, in capitals, and `none` where
-- the answer is a bad request.
unfoldable pub level_of_body : Option (Value × Value) → Option Text
unfolding normalize_loglevel_token allowed_loglevel_name
level_of_body none = none
level_of_body (some (number (suc zero), string raw)) =
    let norm = normalize_loglevel_token raw in
    if allowed_loglevel_name norm then some norm else none
level_of_body (some (v, level)) = none

unfoldable pub headers_ok : Text → Text → Text → Bool
unfolding nonce_matches
headers_ok ts nonce sig = truthy ts && truthy nonce && truthy sig && nonce_matches nonce

module _ (urlsafe_b64decode : Text → Option Text) (hmac_sha256 : Text → Text → Text)
    (parse_iso_utc : Text → Option ℕ) where
  -- The first argument is the variable `THAUM_LOG_ADMIN_HMAC_SECRET_B64U`, empty where it is unset.
  unfoldable pub admin_hmac_secret_bytes : Text → AdminConfig → Option Text
  unfolding strip strip_opt padding has_key_length
  admin_hmac_secret_bytes env cfg =
      let raw = or_else (strip env) (strip_opt cfg.hmac_secret) in
      if truthy raw then has_key_length (urlsafe_b64decode (raw ++ padding (length raw))) else none

  unfoldable pub admin_log_routes_enabled : Text → AdminConfig → Bool
  unfolding strip route_matches admin_hmac_secret_bytes
  admin_log_routes_enabled env cfg =
      let rid = strip cfg.route_id in
      truthy rid && route_matches rid && is_some (admin_hmac_secret_bytes env cfg)

  compare_digest : Text → Option Text → Bool
  unfolding text_eq
  compare_digest mac none = false
  compare_digest mac (some expected) = text_eq mac expected

  unfoldable pub verify_signature : Text → Text → Text → Bool
  unfolding starts_with strip padding compare_digest
  verify_signature key message sig =
      let encoded = strip (drop 6 sig) in
      starts_with sig (codes "HS256.")
      && truthy encoded
      && compare_digest (hmac_sha256 key message)
          (urlsafe_b64decode (encoded ++ padding (length encoded)))

  -- The request after the test of its clock.
  unfoldable pub signed_request :
      Text → AdminConfig → Text → Text → ℕ → Option Text → Moment → Server → Response × Server
  unfolding build_canonical_message verify_signature store strip
  signed_request key cfg nonce sig epoch none m s = (bad_request, s)
  signed_request key cfg nonce sig epoch (some norm) m s =
      if verify_signature key (build_canonical_message (strip cfg.route_id) epoch nonce norm) sig
      then store cfg.clock_skew_seconds nonce norm m s
      else (unauthorized, s)

  unfoldable pub timed_request :
      Text
      → AdminConfig
      → Text
      → Text
      → Option ℕ
      → Option Text
      → Moment
      → Server
      → Response × Server
  unfolding signed_request
  timed_request key cfg nonce sig none body m s = (unauthorized, s)
  timed_request key cfg nonce sig (some epoch) body m s =
      if within_skew cfg.clock_skew_seconds (m.checked_at / 1000000) epoch
      then signed_request key cfg nonce sig epoch body m s
      else (unauthorized, s)

  -- The request of a server that has a key.
  unfoldable pub keyed_request : Text → AdminConfig → Request → Moment → Server → Response × Server
  unfolding strip lower headers_ok timed_request level_of_body
  keyed_request key cfg r m s =
      let nonce = lower (strip r.nonce) in
      let sig = strip r.signature in
      if headers_ok r.timestamp nonce sig
      then timed_request key cfg nonce sig (parse_iso_utc r.timestamp) (level_of_body r.body) m s
      else (unauthorized, s)

  -- The request of a server with the given key, if any.
  unfoldable pub admin_request :
      Option Text → AdminConfig → Request → Moment → Server → Response × Server
  unfolding strip keyed_request
  admin_request none cfg r m s = (not_found, s)
  admin_request (some key) cfg r m s =
      if truthy (strip cfg.route_id) then keyed_request key cfg r m s else (not_found, s)

  unfoldable pub handle_admin_log_level_post :
      Text → AdminConfig → Request → Moment → Server → Response × Server
  unfolding admin_hmac_secret_bytes admin_request
  handle_admin_log_level_post env cfg r m s =
      admin_request (admin_hmac_secret_bytes env cfg) cfg r m s
