-- ===== src/Bearer/Throttle/Once.antt =====
-- alerts/webhook_bearer.py: at most one warning a day, over the calls of all workers.
use mathlib.Core.Option
use thaum.Prelude.{
  ℕ, ◌+◌, ◌-◌, ◌≤◌, ◌<◌, ◌≡◌, refl, ap, ◌∙◌, ◌≢◌, inl, inr, Bool, true, false, Option, none, some,
  List, [], ◌∷◌, arith, ltb, Bool-cases, All,
}
use thaum.Text.{Text, text_eq, text_eq_iff, text_eq_refl}
use thaum.Table.{find_row, update_row, add_row, delete_where}
use thaum.Table.Laws.{
  find_row-add_row, find_row-update_row, find_row-update_row_other, find_row-delete_where_kept,
}
use thaum.Bearer.Throttle.{
  emit, suppress, storage_failed, WebhookBearerWarnState, day, Insertion, inserted, lost_to,
  is_long_expired, has_fp, warned_row, Throttled, throttle_row, throttle_new, throttle_found,
  db_throttle_should_log,
}

-- One call, by any worker.
pub record Call : Type 0 where
  pub fp : Text
  pub now : ℕ
  pub expires : ℕ
  pub bot_key : Option Text
  pub insertion : Insertion
  pub database_works : Bool

unfoldable pub call : Call → List WebhookBearerWarnState → Throttled
unfolding db_throttle_should_log
call c t = db_throttle_should_log c.fp c.now c.expires c.bot_key c.insertion c.database_works t

unfoldable pub call_all : List Call → List WebhookBearerWarnState → List WebhookBearerWarnState
unfolding call
call_all [] t = t
call_all (c ∷ cs) t = call_all cs (call c t).1

-- The insertion fails only because of a row of the same token, which is then found.
abbrev pub IsFair : Call → Type 0
IsFair c = elim c.insertion [
  | inserted ↦ Unit
  | lost_to o ↦ elim o [ none ↦ ⊥ | some row ↦ row.token_fp ≡ c.fp ]
]

-- A call less than a day after the given time, for a token that expires after it.
abbrev pub IsWithinDay : ℕ → Call → Type 0
IsWithinDay at c = (at ≤ c.now) × (c.now < at + day) × (at ≤ c.expires) × IsFair c

-- The expiry, if any, is not before the given time.
abbrev pub IsAlive : ℕ → Option ℕ → Type 0
IsAlive at none = Unit
IsAlive at (some e) = at ≤ e

-- The table knows of a warning at the given time or later, and keeps the row.
abbrev pub IsWarned : Text → ℕ → List WebhookBearerWarnState → Type 0
IsWarned fp at t =
    (row : WebhookBearerWarnState) × (find_row (has_fp fp) t ≡ some row)
    × (at ≤ row.last_warn_at)
    × IsAlive at row.expires_at

kept_for :
    (at now : ℕ) (row : WebhookBearerWarnState) (e : Option ℕ)
    → row.expires_at ≡ e
    → now < at + day
    → IsAlive at e
    → is_long_expired now row ≡ false
unfolding is_long_expired
kept_for at now row none h soon lives = rw h refl
kept_for at now row (some x) h soon lives = rw h (ground arith)

delete_where-IsWarned :
    (fp : Text) (at now : ℕ) (t : List WebhookBearerWarnState)
    → now < at + day
    → IsWarned fp at t
    → IsWarned fp at (delete_where (is_long_expired now) t)
delete_where-IsWarned fp at now t soon (row, found, late, lives) = (
  row,
  find_row-delete_where_kept (is_long_expired now) (has_fp fp) t row found
      (kept_for at now row row.expires_at refl soon lives),
  late,
  lives,
)

add_row-IsWarned :
    (fp : Text) (at : ℕ) (r : WebhookBearerWarnState) (t : List WebhookBearerWarnState)
    → IsWarned fp at t
    → IsWarned fp at (add_row r t)
add_row-IsWarned fp at r t (row, found, late, lives) =
    (row, rw (find_row-add_row (has_fp fp) r t, found) refl, late, lives)

warned_row-has_fp :
    (now expires : ℕ) (bot_key : Option Text) (fp : Text) (row : WebhookBearerWarnState)
    → has_fp fp row ≡ true
    → has_fp fp (warned_row now expires bot_key row) ≡ true
unfolding warned_row has_fp
warned_row-has_fp now expires bot_key fp row h = h

other_fp :
    (fp other : Text) (now expires : ℕ) (bot_key : Option Text) (row : WebhookBearerWarnState)
    → text_eq fp other ≡ false
    → has_fp fp row ≡ true
    → (has_fp other row ≡ false) × (has_fp other (warned_row now expires bot_key row) ≡ false)
unfolding warned_row has_fp
other_fp fp other now expires bot_key row apart h =
    rw ((text_eq_iff row.token_fp fp).0 h) (apart, apart)

-- The row of the token was just warned of.
update_row-IsWarned :
    (fp : Text) (now expires : ℕ) (bot_key : Option Text) (row : WebhookBearerWarnState)
    (t : List WebhookBearerWarnState)
    → find_row (has_fp fp) t ≡ some row
    → now ≤ expires
    → IsWarned fp now (update_row (has_fp fp) (warned_row now expires bot_key) t)
unfolding warned_row
update_row-IsWarned fp now expires bot_key row t found ahead = (
  warned_row now expires bot_key row,
  find_row-update_row (has_fp fp) (warned_row now expires bot_key) t
        (λ r h. warned_row-has_fp now expires bot_key fp r h)
      ∙ ap (Option.map (warned_row now expires bot_key)) found,
  (omega arith),
  ahead,
)

update_row-IsWarned_other :
    (fp other : Text) (at now expires : ℕ) (bot_key : Option Text) (t : List WebhookBearerWarnState)
    → text_eq other fp ≡ false
    → IsWarned fp at t
    → IsWarned fp at (update_row (has_fp other) (warned_row now expires bot_key) t)
update_row-IsWarned_other fp other at now expires bot_key t apart (row, found, late, lives) = (
  row,
  find_row-update_row_other (has_fp other) (has_fp fp) (warned_row now expires bot_key) t
        (λ r h. other_fp other fp now expires bot_key r apart h)
      ∙ found,
  late,
  lives,
)

throttle_row-IsWarned_other :
    (fp other : Text) (at now expires : ℕ) (bot_key : Option Text) (row : WebhookBearerWarnState)
    (t : List WebhookBearerWarnState)
    → text_eq other fp ≡ false
    → IsWarned fp at t
    → IsWarned fp at (throttle_row other now expires bot_key row t).1
unfolding throttle_row
throttle_row-IsWarned_other fp other at now expires bot_key row t apart warned =
    elim (Bool-cases (ltb (now - row.last_warn_at) day)) [
      | inl recent ↦ rw recent warned
      | inr old ↦ rw old (update_row-IsWarned_other fp other at now expires bot_key t apart warned)
    ]

throttle_found-IsWarned_other :
    (fp other : Text) (at now expires : ℕ) (bot_key : Option Text) (insertion : Insertion)
    (o : Option WebhookBearerWarnState) (t : List WebhookBearerWarnState)
    → text_eq other fp ≡ false
    → IsWarned fp at t
    → IsWarned fp at (throttle_found other now expires bot_key insertion o t).1
unfolding throttle_found throttle_new
throttle_found-IsWarned_other fp other at now expires bot_key insertion (some row) t apart warned =
    throttle_row-IsWarned_other fp other at now expires bot_key row t apart warned
throttle_found-IsWarned_other fp other at now expires bot_key inserted none t apart warned =
    add_row-IsWarned fp at _ t warned
throttle_found-IsWarned_other fp other at now expires bot_key (lost_to none) none t apart warned =
    warned
throttle_found-IsWarned_other fp other at now expires bot_key (lost_to (some row)) none t apart
      warned =
    throttle_row-IsWarned_other fp other at now expires bot_key row (add_row row t) apart
      (add_row-IsWarned fp at row t warned)

-- A call for a token that was warned of less than a day ago says nothing, and the table keeps it.
throttle_found-suppressed :
    (fp : Text) (at now expires : ℕ) (bot_key : Option Text) (insertion : Insertion)
    (t : List WebhookBearerWarnState)
    → now < at + day
    → IsWarned fp at t
    → throttle_found fp now expires bot_key insertion (find_row (has_fp fp) t) t ≡ (suppress, t)
unfolding throttle_found throttle_row
throttle_found-suppressed fp at now expires bot_key insertion t soon (row, found, late, lives) =
    rw (found, recent now row.last_warn_at at soon late) refl
  where
    recent : (now last at : ℕ) → now < at + day → at ≤ last → ltb (now - last) day ≡ true
    recent now last at soon late = ground arith

call-IsWarned :
    (fp : Text) (at : ℕ) (c : Call) (t : List WebhookBearerWarnState)
    → IsWithinDay at c
    → IsWarned fp at t
    → IsWarned fp at (call c t).1 × (text_eq c.fp fp ≡ true → (call c t).0 ≢ emit)
unfolding call db_throttle_should_log
call-IsWarned fp at c t (late, soon, ahead, fair) warned = elim (Bool-cases c.database_works) [
  | inr down ↦ rw down (warned, λ same e. cc)
  | inl up ↦
      let live = delete_where (is_long_expired c.now) t in
      let still = delete_where-IsWarned fp at c.now t soon warned in
      elim (Bool-cases (text_eq c.fp fp)) [
        | inr other ↦ rw up (
          throttle_found-IsWarned_other fp c.fp at c.now c.expires c.bot_key c.insertion
              (find_row (has_fp c.fp) live) live other still,
          λ same e. absurd (apart other same),
        )
        | inl same ↦
            rw
              (
                up,
                (text_eq_iff c.fp fp).0 same,
                throttle_found-suppressed fp at c.now c.expires c.bot_key c.insertion live soon
                    still,
              )
              (still, λ _ e. cc)
      ]
]
  where
    apart : {b : Bool} → b ≡ false → b ≡ true → ⊥
    apart f g = cc

call_all-IsWarned :
    (fp : Text) (at : ℕ) (cs : List Call) (t : List WebhookBearerWarnState)
    → All (IsWithinDay at) cs
    → IsWarned fp at t
    → IsWarned fp at (call_all cs t)
unfolding call_all
call_all-IsWarned fp at [] t fair warned = warned
call_all-IsWarned fp at (c ∷ cs) t fair warned =
    call_all-IsWarned fp at cs (call c t).1 fair.1 (call-IsWarned fp at c t fair.0 warned).0

-- What a warning leaves behind: the calls that say something write it down.
throttle_row-emit :
    (fp : Text) (now expires : ℕ) (bot_key : Option Text) (row : WebhookBearerWarnState)
    (t : List WebhookBearerWarnState)
    → find_row (has_fp fp) t ≡ some row
    → now ≤ expires
    → (throttle_row fp now expires bot_key row t).0 ≡ emit
    → IsWarned fp now (throttle_row fp now expires bot_key row t).1
unfolding throttle_row
throttle_row-emit fp now expires bot_key row t found ahead =
    elim (Bool-cases (ltb (now - row.last_warn_at) day)) [
      | inl recent ↦ rw recent (λ e. absurd (no_emit e))
      | inr old ↦ rw old (λ e. update_row-IsWarned fp now expires bot_key row t found ahead)
    ]
  where
    no_emit : suppress ≡ emit → ⊥
    no_emit e = cc

new_row-found :
    (fp : Text) (r : WebhookBearerWarnState) (t : List WebhookBearerWarnState)
    → find_row (has_fp fp) t ≡ none
    → r.token_fp ≡ fp
    → find_row (has_fp fp) (add_row r t) ≡ some r
unfolding has_fp
new_row-found fp r t absent same =
    rw (find_row-add_row (has_fp fp) r t, absent, same, text_eq_refl fp) refl

throttle_found-emit :
    (fp : Text) (now expires : ℕ) (bot_key : Option Text) (insertion : Insertion)
    (o : Option WebhookBearerWarnState) (t : List WebhookBearerWarnState)
    → IsFair (record {
      fp = fp;
      now = now;
      expires = expires;
      bot_key = bot_key;
      insertion = insertion;
      database_works = true;
    })
    → find_row (has_fp fp) t ≡ o
    → now ≤ expires
    → (throttle_found fp now expires bot_key insertion o t).0 ≡ emit
    → IsWarned fp now (throttle_found fp now expires bot_key insertion o t).1
unfolding throttle_found throttle_new
throttle_found-emit fp now expires bot_key insertion (some row) t fair found ahead said =
    throttle_row-emit fp now expires bot_key row t found ahead said
throttle_found-emit fp now expires bot_key inserted none t fair absent ahead said =
    (_, new_row-found fp _ t absent refl, (omega arith), ahead)
throttle_found-emit fp now expires bot_key (lost_to none) none t fair absent ahead said =
    absurd fair
throttle_found-emit fp now expires bot_key (lost_to (some row)) none t fair absent ahead said =
    throttle_row-emit fp now expires bot_key row (add_row row t)
      (new_row-found fp row t absent fair) ahead said

call-emit :
    (c : Call) (t : List WebhookBearerWarnState)
    → IsFair c
    → c.now ≤ c.expires
    → (call c t).0 ≡ emit
    → IsWarned c.fp c.now (call c t).1
unfolding call db_throttle_should_log
call-emit c t fair ahead = elim (Bool-cases c.database_works) [
  | inr down ↦ rw down (λ e. absurd (no_emit e))
  | inl up ↦
      let live = delete_where (is_long_expired c.now) t in
      rw up (
        throttle_found-emit c.fp c.now c.expires c.bot_key c.insertion (find_row (has_fp c.fp) live)
          live fair refl ahead)
]
  where
    no_emit : storage_failed ≡ emit → ⊥
    no_emit e = cc

-- Once a call has let a token's warning through, no call for the token does so again before a day
-- is over, whichever worker makes it and whatever calls for this and other tokens come in between,
-- some of them with a database that fails: provided that the tokens of all these calls expire
-- after the first one, and that an insertion fails only because of a row of the same token which is
-- then found.
pub db_throttle_should_log-once :
    (first again : Call) (between : List Call) (t : List WebhookBearerWarnState)
    → (call first t).0 ≡ emit
    → IsFair first
    → first.now ≤ first.expires
    → All (IsWithinDay first.now) between
    → IsWithinDay first.now again
    → text_eq again.fp first.fp ≡ true
    → (call again (call_all between (call first t).1)).0 ≢ emit
db_throttle_should_log-once first again between t said fair ahead rest soon same =
    (call-IsWarned first.fp first.now again (call_all between (call first t).1) soon (
        call_all-IsWarned first.fp first.now between (call first t).1 rest
          (call-emit first t fair ahead said))).1
      same
