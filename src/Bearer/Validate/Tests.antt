-- ===== src/Bearer/Validate/Tests.antt =====
-- A token that is close to its expiry.
use thaum.Prelude.{false, Option, none, some, if◌then◌else◌}
use thaum.Text.{Text, codes, text_eq, truthy}
use thaum.Bearer.Throttle.{inserted}
use thaum.Bearer.Validate.{BearerPayload, Moment}

abbrev payload : BearerPayload
payload = record { exp = some 200000; warn = 2; canonical = codes "token" }

abbrev parser : Text → Option BearerPayload
parser header = if text_eq header (codes "Bearer token") then some payload else none

abbrev canonical_of : Text → Option Text
canonical_of secret = if truthy secret then some secret else none

abbrev digest : Text → Text
digest s = s

abbrev now : Moment
now = record {
  expiry_checked_at = 150000000000;
  window_checked_at = 150000000000;
  throttled_at = 150000000001;
  insertion = inserted;
  database_works = false;
}
