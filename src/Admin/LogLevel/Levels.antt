-- ===== src/Admin/LogLevel/Levels.antt =====
-- thaum/types.py and log_setup.py: the names of the levels, and the workers that follow the row.
use thaum.Prelude.{
  ℕ, ◌≡◌, refl, ap, ◌∙◌, inl, inr, true, false, Option, none, some, List, [], ◌∷◌, arith,
  Bool-cases, All,
}
use thaum.Text.{
  Text, text_eq, text_eq_iff, text_eq_refl, truthy, is_space, lstrip, rstrip, strip, upper_char,
  upper,
}
use thaum.Admin.LogLevel.{
  log_levels, level_of, level_of_key, parse_level_name, parsed_level, AdminLogLevelState, Applied,
  nothing, missing, applied, Worker, set_runtime_root_log_level, opt_text_eq, same_state,
  level_of_row, state_of_row, apply_runtime_log_level_from_db,
}

level_of-parsed :
    (name : Text) (level : ℕ) (levels : List (Text × ℕ))
    → All (λ p. parse_level_name p.0 ≡ some p.1) levels
    → level_of name levels ≡ some level
    → parse_level_name name ≡ some level
unfolding level_of
level_of-parsed name level [] parsed e = absurd (none-some e)
  where
    none-some : none ≡ some level → ⊥
    none-some h = cc
level_of-parsed name level ((n, l) ∷ levels) parsed e = elim (Bool-cases (text_eq name n)) [
  | inl same ↦ ap parse_level_name ((text_eq_iff name n).0 same) ∙ parsed.0 ∙ rw same at e
  | inr other ↦ level_of-parsed name level levels parsed.1 (rw other at e)
]

-- A member of `LogLevel` keeps its number when its name is parsed.
pub parse_level_name-member :
    (name : Text) (level : ℕ)
    → level_of name log_levels ≡ some level
    → parse_level_name name ≡ some level
unfolding parse_level_name level_of_key level_of upper upper_char strip lstrip rstrip is_space
    text_eq
parse_level_name-member name level e =
    level_of-parsed name level log_levels
      (refl, (refl, (refl, (refl, (refl, (refl, (refl, (refl, tt)))))))) e

pub level_of_row-parsed :
    (level : Option Text) (at : ℕ)
    → level_of_row (some (record { log_level = level; updated_at = at })) ≡ parsed_level level
unfolding level_of_row parse_level_name level_of_key upper
level_of_row-parsed none at = refl
level_of_row-parsed (some name) at = elim (Bool-cases (truthy (strip name))) [
  | inl present ↦ rw present refl
  | inr blank ↦ rw (blank, blank_of (strip name) blank) refl
]
  where
    blank_of : (s : Text) → truthy s ≡ false → level_of_key (upper s) ≡ none
    blank_of [] h = refl
    blank_of (c ∷ s) h = absurd cc

opt_text_eq_refl : (o : Option Text) → opt_text_eq o o ≡ true
unfolding opt_text_eq
opt_text_eq_refl none = refl
opt_text_eq_refl (some a) = text_eq_refl a

pub same_state_refl : (a : Applied) → same_state a a ≡ true
unfolding same_state
same_state_refl nothing = refl
same_state_refl missing = refl
same_state_refl (applied o n) = rw (opt_text_eq_refl o) (ground arith)

set_runtime_root_log_level-last :
    (level : Option ℕ) (w : Worker)
    → (set_runtime_root_log_level level w).last_db_log_state ≡ w.last_db_log_state
unfolding set_runtime_root_log_level
set_runtime_root_log_level-last none w = refl
set_runtime_root_log_level-last (some level) w = refl

apply_runtime_log_level_from_db-last :
    (row : Option AdminLogLevelState) (w : Worker)
    → same_state (state_of_row row) (apply_runtime_log_level_from_db (some row) w).last_db_log_state
      ≡ true
unfolding apply_runtime_log_level_from_db
apply_runtime_log_level_from_db-last row w =
    elim (Bool-cases (same_state (state_of_row row) w.last_db_log_state)) [
      | inl same ↦ rw same same
      | inr other ↦
          rw
            (
              other,
              set_runtime_root_log_level-last (level_of_row row)
                  (record w { last_db_log_state = state_of_row row }),
            )
            (same_state_refl (state_of_row row))
    ]

pub no_change :
    (row : Option AdminLogLevelState) (w : Worker)
    → same_state (state_of_row row) w.last_db_log_state ≡ true
    → apply_runtime_log_level_from_db (some row) w ≡ w
unfolding apply_runtime_log_level_from_db
no_change row w same = rw same refl

-- A worker that has followed the row once does not change again until the row does: its root
-- logger keeps the level that it was given since, whatever that level is.
pub apply_runtime_log_level_from_db-once :
    (row : Option AdminLogLevelState) (level : ℕ) (w : Worker)
    → apply_runtime_log_level_from_db
        (some row)
        (record (apply_runtime_log_level_from_db (some row) w) { root_level = level })
      ≡ record (apply_runtime_log_level_from_db (some row) w) { root_level = level }
apply_runtime_log_level_from_db-once row level w =
    no_change row (record (apply_runtime_log_level_from_db (some row) w) { root_level = level })
      (apply_runtime_log_level_from_db-last row w)
