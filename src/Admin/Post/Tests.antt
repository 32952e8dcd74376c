-- ===== src/Admin/Post/Tests.antt =====
-- A request for the level DEBUG whose time stamp is ahead of the clock, accepted and sent again.
use thaum.Prelude.{
  ℕ, ◌*◌, ◌≡◌, refl, ◌≢◌, ◌⊎◌, inl, inr, true, false, Option, none, some, [], ◌∷◌, ◌++◌, arith,
  if◌then◌else◌, take, drop,
}
use thaum.Text.{
  Text, codes, text_eq, is_space, lstrip, rstrip, strip, strip_opt, lower_char, lower, upper_char,
  upper, starts_with,
}
use thaum.Table.{add_row, delete_where}
use thaum.Admin.LogLevel.{
  level_of, nothing, Worker, same_state, state_of_row, apply_runtime_log_level_from_db,
}
use thaum.Admin.Post.{
  ok, AdminConfig, number, string, Request, Moment, Server, is_hex, nonce_matches, digits_within,
  decimal, build_canonical_message, normalize_loglevel_token, allowed_loglevel_name, has_nonce,
  live_nonces, apply_level, store, padding, has_key_length, level_of_body, headers_ok,
  admin_hmac_secret_bytes, compare_digest, verify_signature, signed_request, timed_request,
  keyed_request, admin_request, handle_admin_log_level_post,
}
use thaum.Admin.Post.Effect.{handle}
use thaum.Admin.Post.Level.{handle-followed}
use thaum.Admin.Post.Replay.{serve_all, handle-replay_refused, handle-replay_accepted}

abbrev decoder : Text → Option Text
decoder s = some (take 32 s)

-- Sixteen characters of the key and sixteen of the message.
abbrev mac : Text → Text → Text
mac key message = take 16 key ++ take 16 (drop 18 message)

abbrev time_parser : Text → Option ℕ
time_parser s = if text_eq s (codes "2026") then some 1000 else none

abbrev config : AdminConfig
config = record {
  route_id = codes "admin-route";
  hmac_secret = some (codes "kkkkkkkkkkkkkkkkkkkkkkkkkkkkkkkk ");
  clock_skew_seconds = 300;
}

abbrev request : Request
request = record {
  timestamp = codes "2026";
  nonce = codes "0123456789ABCDEF0123456789abcdef";
  signature = codes "HS256.kkkkkkkkkkkkkkkk" ++ 10 ∷ codes "POST" ++ 10 ∷ codes "/admin-rou";
  body = some (number 1, string (codes " debug"));
}

abbrev at_time : ℕ → Moment
at_time t = record {
  checked_at = t * 1000000;
  expiry_from = t * 1000000;
  stored_at = t * 1000000;
  database_works = true;
}

abbrev worker : Worker
worker = record { root_level = 20; configured_level = 20; last_db_log_state = nothing }

abbrev server : Server
server = record { nonces = []; level_row = none; worker = worker }

is_accepted :
    (t : ℕ)
    → (t ≡ 750) ⊎ (t ≡ 900)
    → (handle decoder mac time_parser [] config request (at_time t) server).0 ≡ ok
unfolding handle_admin_log_level_post admin_hmac_secret_bytes padding has_key_length admin_request
    keyed_request headers_ok nonce_matches is_hex timed_request signed_request level_of_body
    normalize_loglevel_token allowed_loglevel_name level_of verify_signature compare_digest
    build_canonical_message decimal digits_within store live_nonces has_nonce delete_where add_row
    apply_level strip lstrip rstrip is_space strip_opt lower lower_char upper upper_char starts_with
    text_eq
is_accepted t (inl e) = rw e refl
is_accepted t (inr e) = rw e refl

abbrev down : Moment
down = record (at_time 900) { database_works = false }

is_refused : (handle decoder mac time_parser [] config request down server).0 ≢ ok
unfolding handle_admin_log_level_post admin_hmac_secret_bytes padding has_key_length admin_request
    keyed_request headers_ok nonce_matches is_hex timed_request signed_request level_of_body
    normalize_loglevel_token allowed_loglevel_name level_of verify_signature compare_digest
    build_canonical_message decimal digits_within store strip lstrip rstrip is_space strip_opt lower
    lower_char upper upper_char starts_with text_eq
is_refused e = cc

row_is_new :
    same_state
      (state_of_row
        (handle decoder mac time_parser [] config request (at_time 900) server).1.level_row)
      worker.last_db_log_state
    ≡ false
unfolding handle_admin_log_level_post admin_hmac_secret_bytes padding has_key_length admin_request
    keyed_request headers_ok nonce_matches is_hex timed_request signed_request level_of_body
    normalize_loglevel_token allowed_loglevel_name level_of verify_signature compare_digest
    build_canonical_message decimal digits_within store live_nonces has_nonce delete_where strip
    lstrip rstrip is_space strip_opt lower lower_char upper upper_char starts_with text_eq
    same_state state_of_row
row_is_new = refl

handle-followed_example :
    let s' = (handle decoder mac time_parser [] config request (at_time 900) server).1 in
    (apply_runtime_log_level_from_db (some s'.level_row) worker).root_level ≡ s'.worker.root_level
handle-followed_example =
    handle-followed decoder mac time_parser [] config request (at_time 900) server worker
      (is_accepted 900 (inr refl)) refl row_is_new

has_time : time_parser (codes "2026") ≡ some 1000
unfolding text_eq
has_time = refl

handle-replay_refused_example :
    (handle decoder mac time_parser [] config request (at_time 1290) (
      serve_all decoder mac time_parser [] config
        ((request, at_time 1000) ∷ [])
        (handle decoder mac time_parser [] config request (at_time 900) server).1)).0
    ≢ ok
handle-replay_refused_example =
    handle-replay_refused decoder mac time_parser 0 1000 [] config request (at_time 900)
      (at_time 1290) ((request, at_time 1000) ∷ []) server (is_accepted 900 (inr refl)) has_time
      (omega arith) ((omega arith), tt) (omega arith)

handle-replay_accepted_example :
    (handle decoder mac time_parser [] config request
      (at_time 1200)
      (handle decoder mac time_parser [] config request (at_time 750) server).1).0
    ≡ ok
handle-replay_accepted_example =
    handle-replay_accepted decoder mac time_parser [] config request (at_time 750) (at_time 1200)
      server 1000 refl (is_accepted 750 (inl refl)) has_time refl (omega arith) refl
