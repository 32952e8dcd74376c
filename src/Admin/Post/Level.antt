-- ===== src/Admin/Post/Level.antt =====
-- thaum/admin_log_level.py and log_setup.py: the level that a worker has after an accepted request,
-- and the level of the workers that follow it.
use thaum.Prelude.{
  ℕ, zero, suc, ◌≡◌, refl, sym, ◌⊎◌, inl, inr, Bool, true, false, Option, none, some, if◌then◌else◌,
  Bool-cases, Option-cases,
}
use thaum.Text.{Text, codes, text_eq, text_eq_iff, strip, upper}
use thaum.Admin.LogLevel.{
  log_levels, level_of, parsed_level, applied, Worker, set_runtime_root_log_level,
  mark_db_log_state_applied, same_state, state_of_row, apply_runtime_log_level_from_db,
}
use thaum.Admin.LogLevel.Levels.{
  parse_level_name-member, level_of_row-parsed, same_state_refl, no_change,
}
use thaum.Admin.Post.{
  ok, AdminConfig, Value, number, string, absent, Request, Moment, Server, normalize_loglevel_token,
  allowed_loglevel_name, db_level, apply_level, level_of_body,
}
use thaum.Text.Upper.{upper_idem}
use thaum.Admin.Post.Effect.{handle, handle-HasSet}

-- The level of a request's name: the one in force before any request, or a member of `LogLevel`.
abbrev pub HasLevel : Text → Worker → Worker → Type 0
HasLevel norm before after =
    ((norm ≡ codes "DEFAULT") × (after.root_level ≡ before.configured_level))
    ⊎ ((level : ℕ) × (level_of norm log_levels ≡ some level) × (after.root_level ≡ level))

none-some : (norm : Text) → none ≡ some norm → ⊥
none-some norm e = cc

asked-allowed :
    (b : Bool) (raw norm : Text)
    → b ≡ allowed_loglevel_name (upper raw)
    → (if b then some (upper raw) else none) ≡ some norm
    → (norm ≡ upper norm) × (allowed_loglevel_name norm ≡ true)
asked-allowed false raw norm h e = absurd (none-some norm e)
asked-allowed true raw norm h e =
    let same : upper raw ≡ norm = cc in (rw (sym same, upper_idem raw) refl, rw (sym same) (sym h))

level_of_body-allowed :
    (body : Option (Value × Value)) (norm : Text)
    → level_of_body body ≡ some norm
    → (norm ≡ upper norm) × (allowed_loglevel_name norm ≡ true)
unfolding level_of_body normalize_loglevel_token
level_of_body-allowed none norm e = absurd (none-some norm e)
level_of_body-allowed (some (string v, l)) norm e = absurd (none-some norm e)
level_of_body-allowed (some (absent, l)) norm e = absurd (none-some norm e)
level_of_body-allowed (some (number zero, l)) norm e = absurd (none-some norm e)
level_of_body-allowed (some (number (suc (suc v)), l)) norm e = absurd (none-some norm e)
level_of_body-allowed (some (number (suc zero), number l)) norm e = absurd (none-some norm e)
level_of_body-allowed (some (number (suc zero), absent)) norm e = absurd (none-some norm e)
level_of_body-allowed (some (number (suc zero), string raw)) norm e =
    asked-allowed (allowed_loglevel_name (upper (strip raw))) (strip raw) norm refl e

apply_level-HasLevel :
    (norm : Text) (at : ℕ) (w : Worker)
    → norm ≡ upper norm
    → allowed_loglevel_name norm ≡ true
    → HasLevel norm w (apply_level (db_level norm) at w)
unfolding apply_level allowed_loglevel_name set_runtime_root_log_level mark_db_log_state_applied
apply_level-HasLevel norm at w fixed allowed = elim (Bool-cases (text_eq norm (codes "DEFAULT"))) [
  | inl default ↦ inl ((text_eq_iff norm (codes "DEFAULT")).0 default, rw default refl)
  | inr other ↦ elim (Option-cases (level_of norm log_levels)) [
    | inl unknown ↦ absurd (blocked (rw (sym fixed, other, unknown) at allowed))
    | inr (level, known) ↦
        inr (level, known, rw (other, parse_level_name-member norm level known) refl)
  ]
]
  where
    blocked : false ≡ true → ⊥
    blocked e = cc

set_runtime_root_log_level-agrees :
    (level : Option ℕ) (v w : Worker)
    → v.configured_level ≡ w.configured_level
    → (set_runtime_root_log_level level v).root_level
      ≡ (set_runtime_root_log_level level w).root_level
unfolding set_runtime_root_log_level
set_runtime_root_log_level-agrees none v w same = same
set_runtime_root_log_level-agrees (some level) v w same = refl

module _ (urlsafe_b64decode : Text → Option Text) (hmac_sha256 : Text → Text → Text)
    (parse_iso_utc : Text → Option ℕ) where
  -- After an accepted request the worker that served it is at the level of the request: the
  -- configured level for DEFAULT, and otherwise the number of the member of `LogLevel` that the
  -- request names (in any case, with spaces around it). The stored row holds the same name, and
  -- the worker's next look at the row changes nothing.
  pub handle-HasLevel :
      (env : Text) (cfg : AdminConfig) (r : Request) (m : Moment) (s : Server)
      → (handle urlsafe_b64decode hmac_sha256 parse_iso_utc env cfg r m s).0 ≡ ok
      → let s' = (handle urlsafe_b64decode hmac_sha256 parse_iso_utc env cfg r m s).1 in
        (norm : Text) × (level_of_body r.body ≡ some norm)
        × HasLevel norm s.worker s'.worker
        × (apply_runtime_log_level_from_db (some s'.level_row) s'.worker ≡ s'.worker)
  unfolding apply_level mark_db_log_state_applied state_of_row
  handle-HasLevel env cfg r m s accepted =
      let (norm, has_level, (row, worker)) =
        handle-HasSet urlsafe_b64decode hmac_sha256 parse_iso_utc env cfg r m s accepted in
      let (fixed, allowed) = level_of_body-allowed r.body norm has_level in
      (
        norm,
        has_level,
        rw worker (apply_level-HasLevel norm m.stored_at s.worker fixed allowed),
        rw (row, worker)
            (no_change (some (record { log_level = db_level norm; updated_at = m.stored_at }))
              (apply_level (db_level norm) m.stored_at s.worker)
              (same_state_refl (applied (db_level norm) m.stored_at))),
      )

  -- Any other worker with the same configured level, when it next looks at the row and has not
  -- applied this row yet, comes to the level of the worker that served the request.
  pub handle-followed :
      (env : Text) (cfg : AdminConfig) (r : Request) (m : Moment) (s : Server) (other : Worker)
      → (handle urlsafe_b64decode hmac_sha256 parse_iso_utc env cfg r m s).0 ≡ ok
      → other.configured_level ≡ s.worker.configured_level
      → let s' = (handle urlsafe_b64decode hmac_sha256 parse_iso_utc env cfg r m s).1 in
        same_state (state_of_row s'.level_row) other.last_db_log_state ≡ false
        → (apply_runtime_log_level_from_db (some s'.level_row) other).root_level
          ≡ s'.worker.root_level
  unfolding apply_runtime_log_level_from_db apply_level mark_db_log_state_applied state_of_row
  handle-followed env cfg r m s other accepted same_config new =
      let (norm, has_level, (row, worker)) =
        handle-HasSet urlsafe_b64decode hmac_sha256 parse_iso_utc env cfg r m s accepted in
      rw (new, row, worker, level_of_row-parsed (db_level norm) m.stored_at)
        (set_runtime_root_log_level-agrees (parsed_level (db_level norm))
          (record other { last_db_log_state = applied (db_level norm) m.stored_at }) s.worker
          same_config)
