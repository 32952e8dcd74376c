-- ===== src/Bearer/Validate.antt =====
-- alerts/webhook_bearer.py: the test of the bearer token of a request.
--
-- Parameters: the parser of the header's payload (base64 and JSON), which gives the fields of the
-- token and its canonical bytes, the canonical bytes of the configured secret (`none` where either
-- raises), and SHA-256 in hexadecimal digits. Clocks are in microseconds, the fields of the token
-- in seconds; a negative `warn` counts as zero, which the source treats the same.
pub mod Laws
mod Tests
use thaum.Prelude.{
  ℕ, zero, ◌+◌, ◌*◌, Bool, true, false, ◌&&◌, Option, none, some, List, ltb, leb, if◌then◌else◌,
}
use thaum.Text.{Text, text_eq, truthy}
use thaum.Bearer.Throttle.{
  RotationThrottleResult, emit, suppress, storage_failed, WebhookBearerWarnState, day, Insertion,
  db_throttle_should_log,
}

pub record BearerPayload : Type 0 where
  pub exp : Option ℕ
  pub warn : ℕ
  pub canonical : Text

-- One request's view of the world: the clock when it compares the expiry, when it looks at the
-- window before it, and when the throttle reads it; the race of its insertion, and the database.
pub record Moment : Type 0 where
  pub expiry_checked_at : ℕ
  pub window_checked_at : ℕ
  pub throttled_at : ℕ
  pub insertion : Insertion
  pub database_works : Bool

-- Whether the token is accepted, whether the warning is logged, and the table.
pub record Verdict : Type 0 where
  pub accepted : Bool
  pub warned : Bool
  pub table : List WebhookBearerWarnState

abbrev pub seconds : ℕ
seconds = 1000000

abbrev pub rejected : List WebhookBearerWarnState → Verdict
rejected t = record { accepted = false; warned = false; table = t }

abbrev pub silent : List WebhookBearerWarnState → Verdict
silent t = record { accepted = true; warned = false; table = t }

abbrev pub is_emit : RotationThrottleResult → Bool
is_emit emit = true
is_emit suppress = false
is_emit storage_failed = false

module _ (parse_payload : Text → Option BearerPayload) (expected_canonical : Text → Option Text)
    (sha256_hex : Text → Text) where
  unfoldable pub maybe_log_rotation_warning :
      BearerPayload → ℕ → Option Text → Moment → List WebhookBearerWarnState → Verdict
  unfolding db_throttle_should_log
  maybe_log_rotation_warning p exp bot_key m t =
      let (result, t') =
        db_throttle_should_log (sha256_hex p.canonical) m.throttled_at (exp * seconds) bot_key
          m.insertion m.database_works t in
      record { accepted = true; warned = is_emit result; table = t' }

  -- The token's expiry and the window before it; `warn_before` may lie before 1970.
  unfoldable pub check_expiry :
      BearerPayload → Option ℕ → Option Text → Moment → List WebhookBearerWarnState → Verdict
  unfolding maybe_log_rotation_warning
  check_expiry p none bot_key m t = silent t
  check_expiry p (some exp) bot_key m t =
      if ltb (exp * seconds) m.expiry_checked_at
      then rejected t
      else if ltb 0 p.warn && leb (exp * seconds) (m.window_checked_at + p.warn * day)
      then maybe_log_rotation_warning p exp bot_key m t
      else silent t

  compare_canonical :
      Option BearerPayload
      → Option Text
      → Option Text
      → Moment
      → List WebhookBearerWarnState
      → Verdict
  unfolding check_expiry text_eq
  compare_canonical none expected bot_key m t = rejected t
  compare_canonical (some p) none bot_key m t = rejected t
  compare_canonical (some p) (some expected) bot_key m t =
      if text_eq p.canonical expected then check_expiry p p.exp bot_key m t else rejected t

  parsed : Option Text → Option BearerPayload
  parsed none = none
  parsed (some header) = if truthy header then parse_payload header else none

  -- The arguments are the header, the secret and the bot's key.
  unfoldable pub validate_webhook_bearer :
      Option Text → Text → Option Text → Moment → List WebhookBearerWarnState → Verdict
  unfolding compare_canonical parsed
  validate_webhook_bearer header secret bot_key m t =
      compare_canonical (parsed header) (expected_canonical secret) bot_key m t
