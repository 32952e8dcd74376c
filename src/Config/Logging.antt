-- ===== src/Config/Logging.antt =====
-- thaum/types.py: the settings of the log files.
--
-- A value of the configuration is null, a truth value, a whole number or, for all else, the text
-- that `str` gives.
pub mod Stable
use thaum.Prelude.{ℕ, zero, suc, Bool, true, false, not, [], ◌∷◌, ◌==◌, if◌then◌else◌, drop, all}
use thaum.Text.{Text, codes, text_eq, strip, lower, starts_with, one_of}

pub data Value : Type 0 where
  null : Value
  boolean : Bool → Value
  integer : ℕ → Value
  negative : ℕ → Value
  string : Text → Value

abbrev pub default_log_file_path : Text
default_log_file_path = codes "/var/log/thaum/thaum.log"

abbrev pub default_json_log_file_path : Text
default_json_log_file_path = codes "/var/log/thaum/thaum.json"

-- What a setting becomes: off, a path (or `stderr`), or the ValueError.
pub data Setting : Type 0 where
  off : Setting
  to : Text → Setting
  invalid : Setting

unfoldable pub log_file_of_text : Text → Setting
unfolding lower one_of
log_file_of_text [] = off
log_file_of_text (c ∷ s) =
    let low = lower (c ∷ s) in
    if one_of low (codes "no" ∷ codes "false" ∷ codes "0" ∷ [])
    then off
    else if one_of low (codes "yes" ∷ codes "true" ∷ codes "1" ∷ [])
    then to default_log_file_path
    else to (c ∷ s)

unfoldable pub normalize_log_file_value : Value → Setting
unfolding strip log_file_of_text
normalize_log_file_value null = off
normalize_log_file_value (boolean true) = to default_log_file_path
normalize_log_file_value (boolean false) = off
normalize_log_file_value (integer zero) = off
normalize_log_file_value (integer (suc zero)) = to default_log_file_path
normalize_log_file_value (integer (suc (suc n))) = invalid
normalize_log_file_value (negative n) = invalid
normalize_log_file_value (string s) = log_file_of_text (strip s)

explicit_path : Text → Setting
explicit_path [] = invalid
explicit_path (c ∷ s) = to (c ∷ s)

unfoldable pub json_log_of_text : Text → Setting
unfolding lower one_of text_eq starts_with strip explicit_path
json_log_of_text [] = off
json_log_of_text (c ∷ s) =
    let low = lower (c ∷ s) in
    if one_of low (codes "no" ∷ codes "false" ∷ codes "0" ∷ codes "off" ∷ [])
    then off
    else if one_of low (codes "yes" ∷ codes "true" ∷ codes "1" ∷ codes "on" ∷ codes "truthy" ∷ [])
    then to default_json_log_file_path
    else if text_eq low (codes "stderr")
    then to (codes "stderr")
    else if starts_with low (codes "file:")
    then explicit_path (strip (drop 5 (c ∷ s)))
    else invalid

unfoldable pub normalize_json_log_value : Value → Setting
unfolding strip json_log_of_text
normalize_json_log_value null = off
normalize_json_log_value (boolean true) = to default_json_log_file_path
normalize_json_log_value (boolean false) = off
normalize_json_log_value (integer zero) = off
normalize_json_log_value (integer (suc zero)) = to default_json_log_file_path
normalize_json_log_value (integer (suc (suc n))) = invalid
normalize_json_log_value (negative n) = invalid
normalize_json_log_value (string s) = json_log_of_text (strip s)

unfoldable pub normalize_override_env_boolean : Value → Bool
unfolding lower strip one_of
normalize_override_env_boolean null = false
normalize_override_env_boolean (boolean b) = b
normalize_override_env_boolean (integer n) = not (n == 0)
normalize_override_env_boolean (negative n) = true
normalize_override_env_boolean (string s) =
    one_of (lower (strip s))
      (codes "1" ∷ codes "true" ∷ codes "yes" ∷ codes "on" ∷ codes "truthy" ∷ [])
