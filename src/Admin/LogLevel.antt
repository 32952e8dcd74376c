-- ===== src/Admin/LogLevel.antt =====
-- thaum/types.py and log_setup.py: the names of the log levels, and the level of the root logger
-- that is in force: the configured one, or the one that an administrator set for all workers.
pub mod Levels
use thaum.Prelude.{
  ℕ, Bool, true, false, not, ◌&&◌, ◌||◌, Option, none, some, List, [], ◌∷◌, ◌==◌, if◌then◌else◌,
  all,
}
use thaum.Text.{Text, codes, text_eq, truthy, strip, upper}

-- The members of the enum `LogLevel`, with their numbers.
abbrev pub log_levels : List (Text × ℕ)
log_levels =
    (codes "SPAM", 5)
    ∷ (codes "DEBUG", 10)
    ∷ (codes "VERBOSE", 15)
    ∷ (codes "INFO", 20)
    ∷ (codes "NOTICE", 25)
    ∷ (codes "WARNING", 30)
    ∷ (codes "ERROR", 40)
    ∷ (codes "CRITICAL", 50)
    ∷ []

-- The attributes of the module `logging` that are numbers and have a name in capitals.
abbrev pub logging_levels : List (Text × ℕ)
logging_levels =
    (codes "CRITICAL", 50)
    ∷ (codes "FATAL", 50)
    ∷ (codes "ERROR", 40)
    ∷ (codes "WARNING", 30)
    ∷ (codes "WARN", 30)
    ∷ (codes "INFO", 20)
    ∷ (codes "DEBUG", 10)
    ∷ (codes "NOTSET", 0)
    ∷ []

unfoldable pub level_of : Text → List (Text × ℕ) → Option ℕ
unfolding text_eq
level_of name [] = none
level_of name ((n, level) ∷ levels) = if text_eq name n then some level else level_of name levels

abbrev pub first_level : Option ℕ → Option ℕ → Option ℕ
first_level (some level) other = some level
first_level none other = other

-- The level of a name in capitals: neither empty nor `DEFAULT`.
unfoldable pub level_of_key : Text → Option ℕ
unfolding text_eq level_of
level_of_key key =
    if not (truthy key) || text_eq key (codes "DEFAULT")
    then none
    else first_level (level_of key log_levels) (level_of key logging_levels)

unfoldable pub parse_level_name : Text → Option ℕ
unfolding level_of_key upper strip
parse_level_name name = level_of_key (upper (strip name))

abbrev pub parsed_level : Option Text → Option ℕ
parsed_level none = none
parsed_level (some name) = parse_level_name name

-- The row that the administrator's request writes. Times are in microseconds.
pub record AdminLogLevelState : Type 0 where
  pub log_level : Option Text
  pub updated_at : ℕ

-- One worker: the level of its root logger, the configured one, and the last row that it applied
-- (`missing` for the mark that there was no row).
pub data Applied : Type 0 where
  nothing missing : Applied
  applied : Option Text → ℕ → Applied

pub record Worker : Type 0 where
  pub root_level : ℕ
  pub configured_level : ℕ
  pub last_db_log_state : Applied

-- `none` restores the configured level.
unfoldable pub set_runtime_root_log_level : Option ℕ → Worker → Worker
set_runtime_root_log_level none w = record w { root_level = w.configured_level }
set_runtime_root_log_level (some level) w = record w { root_level = level }

unfoldable pub mark_db_log_state_applied : Option Text → ℕ → Worker → Worker
mark_db_log_state_applied level at w = record w { last_db_log_state = applied level at }

unfoldable pub opt_text_eq : Option Text → Option Text → Bool
unfolding text_eq
opt_text_eq none none = true
opt_text_eq none (some b) = false
opt_text_eq (some a) none = false
opt_text_eq (some a) (some b) = text_eq a b

unfoldable pub same_state : Applied → Applied → Bool
unfolding opt_text_eq
same_state nothing nothing = true
same_state missing missing = true
same_state (applied a m) (applied b n) = opt_text_eq a b && m == n
same_state nothing missing = false
same_state nothing (applied b n) = false
same_state missing nothing = false
same_state missing (applied b n) = false
same_state (applied a m) nothing = false
same_state (applied a m) missing = false

-- The level that a row asks for. A text of spaces, or one that names no level, asks for none.
unfoldable pub level_of_row : Option AdminLogLevelState → Option ℕ
unfolding strip parse_level_name
level_of_row none = none
level_of_row (some row) = elim row.log_level [
  | none ↦ none
  | some name ↦ if truthy (strip name) then parse_level_name name else none
]

unfoldable pub state_of_row : Option AdminLogLevelState → Applied
state_of_row none = missing
state_of_row (some row) = applied row.log_level row.updated_at

-- The row is `none` where reading the table fails, and `some none` where it is empty.
unfoldable pub apply_runtime_log_level_from_db :
    Option (Option AdminLogLevelState) → Worker → Worker
unfolding same_state state_of_row level_of_row set_runtime_root_log_level
apply_runtime_log_level_from_db none w = w
apply_runtime_log_level_from_db (some row) w =
    if same_state (state_of_row row) w.last_db_log_state
    then w
    else set_runtime_root_log_level (level_of_row row)
        (record w { last_db_log_state = state_of_row row })
