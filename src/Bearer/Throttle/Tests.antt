-- ===== src/Bearer/Throttle/Tests.antt =====
-- Two workers that see the same token on the same day.
use thaum.Prelude.{ℕ, ◌≡◌, refl, ◌≢◌, true, some, [], ◌∷◌, arith}
use thaum.Text.{Text, codes, text_eq_refl}
use thaum.Table.{find_row, add_row, delete_where}
use thaum.Bearer.Throttle.{emit, inserted, throttle_new, throttle_found, db_throttle_should_log}
use thaum.Bearer.Throttle.Once.{Call, call, call_all, db_throttle_should_log-once}

abbrev token_call : ℕ → Text → Call
token_call now fp = record {
  fp = fp;
  now = now;
  expires = 500000000000;
  bot_key = some (codes "ops");
  insertion = inserted;
  database_works = true;
}

first_warns : (call (token_call 100000000000 (codes "t")) []).0 ≡ emit
unfolding call db_throttle_should_log throttle_found throttle_new delete_where find_row add_row
first_warns = refl

db_throttle_should_log-once_example :
    (call (token_call 150000000000 (codes "t")) (
      call_all
        (token_call 110000000000 (codes "other") ∷ token_call 120000000000 (codes "t") ∷ [])
        (call (token_call 100000000000 (codes "t")) []).1)).0
    ≢ emit
db_throttle_should_log-once_example =
    db_throttle_should_log-once (token_call 100000000000 (codes "t"))
      (token_call 150000000000 (codes "t"))
      (token_call 110000000000 (codes "other") ∷ token_call 120000000000 (codes "t") ∷ []) []
      first_warns tt (omega arith)
      (
        ((omega arith), (omega arith), (omega arith), tt),
        (((omega arith), (omega arith), (omega arith), tt), tt),
      )
      ((omega arith), (omega arith), (omega arith), tt) (text_eq_refl (codes "t"))
