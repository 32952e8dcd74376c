-- ===== src/Bearer/Throttle.antt =====
-- alerts/webhook_bearer.py and thaum/webhook_bearer_warn.py: the table by which all workers
-- together warn at most once a day of a token that is about to expire.
--
-- Times are in microseconds since 1970, and the clock is at least a day past that. A last warning
-- that lies ahead of the clock has the age zero here and a negative one in the source: both are
-- less than a day.
pub mod Once
mod Tests
use thaum.Prelude.{
  ℕ, zero, ◌-◌, Bool, true, false, Option, none, some, List, ltb, if◌then◌else◌, all,
}
use thaum.Text.{Text, text_eq}
use thaum.Table.{find_row, update_row, add_row, delete_where}

pub data RotationThrottleResult : Type 0 where
  emit suppress storage_failed : RotationThrottleResult

pub record WebhookBearerWarnState : Type 0 where
  pub token_fp : Text
  pub last_warn_at : ℕ
  pub expires_at : Option ℕ
  pub bot_key : Option Text

abbrev pub day : ℕ
day = 86400000000

-- What the insertion meets: no other row, or the row of a worker that was faster, with what is found
-- of it by then.
pub data Insertion : Type 0 where
  inserted : Insertion
  lost_to : Option WebhookBearerWarnState → Insertion

-- The rows that the deletion removes.
unfoldable pub is_long_expired : ℕ → WebhookBearerWarnState → Bool
is_long_expired now row = elim row.expires_at [ none ↦ false | some at ↦ ltb at (now - day) ]

unfoldable pub has_fp : Text → WebhookBearerWarnState → Bool
unfolding text_eq
has_fp fp row = text_eq row.token_fp fp

abbrev pub keep_or : Option Text → Option Text → Option Text
keep_or none old = old
keep_or (some key) old = some key

unfoldable pub warned_row : ℕ → ℕ → Option Text → WebhookBearerWarnState → WebhookBearerWarnState
warned_row now expires bot_key row = record row {
  last_warn_at = now;
  expires_at = some expires;
  bot_key = keep_or bot_key row.bot_key;
}

abbrev pub Throttled : Type 0
Throttled = RotationThrottleResult × List WebhookBearerWarnState

-- A row of the token is there.
unfoldable pub throttle_row :
    Text → ℕ → ℕ → Option Text → WebhookBearerWarnState → List WebhookBearerWarnState → Throttled
unfolding warned_row has_fp update_row
throttle_row fp now expires bot_key row t =
    if ltb (now - row.last_warn_at) day
    then (suppress, t)
    else (emit, update_row (has_fp fp) (warned_row now expires bot_key) t)

throttle_new : Text → ℕ → ℕ → Option Text → Insertion → List WebhookBearerWarnState → Throttled
unfolding throttle_row add_row
throttle_new fp now expires bot_key inserted t = (
  emit,
  add_row
      (record { token_fp = fp; last_warn_at = now; expires_at = some expires; bot_key = bot_key })
      t,
)
throttle_new fp now expires bot_key (lost_to none) t = (emit, t)
throttle_new fp now expires bot_key (lost_to (some row)) t =
    throttle_row fp now expires bot_key row (add_row row t)

throttle_found :
    Text
    → ℕ
    → ℕ
    → Option Text
    → Insertion
    → Option WebhookBearerWarnState
    → List WebhookBearerWarnState
    → Throttled
unfolding throttle_row throttle_new
throttle_found fp now expires bot_key insertion none t =
    throttle_new fp now expires bot_key insertion t
throttle_found fp now expires bot_key insertion (some row) t =
    throttle_row fp now expires bot_key row t

-- The last argument but one is whether the database works.
unfoldable pub db_throttle_should_log :
    Text → ℕ → ℕ → Option Text → Insertion → Bool → List WebhookBearerWarnState → Throttled
unfolding throttle_found is_long_expired has_fp delete_where find_row
db_throttle_should_log fp now expires bot_key insertion false t = (storage_failed, t)
db_throttle_should_log fp now expires bot_key insertion true t =
    let live = delete_where (is_long_expired now) t in
    throttle_found fp now expires bot_key insertion (find_row (has_fp fp) live) live
