-- ===== src/Leader/Service/Due.antt =====
-- thaum/leader_service.py: when the tasks of the leader run.
use thaum.Prelude.{
  ℕ, ◌+◌, ◌≤◌, ◌<◌, ◌≡◌, refl, ap, ◌∙◌, ◌⊎◌, inl, inr, Bool, true, false, Option, some, List, [],
  ◌∷◌, ◌++◌, arith, if◌then◌else◌, Bool-cases, All,
}
use thaum.Text.{Text, text_eq, text_eq_refl}
use thaum.Dict.{Dict, get, set, get-set}
use thaum.Leader.Service.{
  LeaderTask, Tick, election_failed, following, leading, or_zero, last_of, is_due, run_task,
  run_due_tasks, tick, leader_loop_body,
}

or_zero-if :
    (b : Bool) (v : ℕ) (o : Option ℕ)
    → or_zero (if b then some v else o) ≡ (if b then v else or_zero o)
or_zero-if true v o = refl
or_zero-if false v o = refl

pub last_of-set :
    (k j : Text) (v : ℕ) (d : Dict ℕ)
    → last_of (set k v d) j ≡ (if text_eq k j then v else last_of d j)
last_of-set k j v d = ap or_zero (get-set k j v d) ∙ or_zero-if (text_eq k j) v (get j d)

-- Every round's clock is at or after the given one.
abbrev pub NotBefore : ℕ → Tick → Type 0
NotBefore now election_failed = Unit
NotBefore now following = Unit
NotBefore now (leading at) = now ≤ at

module _ {W : Type 0} where
  run_task-quiet :
      (now : ℕ) (b : Bool) (t : LeaderTask W) (s : Dict ℕ × W) (u : LeaderTask W)
      → 0 < u.interval
      → is_due now u s.0 ≡ false
      → is_due now u (run_task b now t s).0 ≡ false
  unfolding run_task is_due
  run_task-quiet now false t s u positive q = q
  run_task-quiet now true t s u positive q = elim (Bool-cases (text_eq t.name u.name)) [
    | inl e ↦ ground (arith, last_of-set t.name u.name now s.0)
    | inr e ↦ rw (last_of-set t.name u.name now s.0, e) q
  ]

  run_due_tasks-quiet :
      (now : ℕ) (tasks : List (LeaderTask W)) (s : Dict ℕ × W) (u : LeaderTask W)
      → 0 < u.interval
      → is_due now u s.0 ≡ false
      → is_due now u (run_due_tasks now tasks s).0 ≡ false
  unfolding run_due_tasks
  run_due_tasks-quiet now [] s u positive q = q
  run_due_tasks-quiet now (t ∷ tasks) s u positive q =
      run_due_tasks-quiet now tasks (run_task (is_due now t s.0) now t s) u positive
        (run_task-quiet now (is_due now t s.0) t s u positive q)

  run_task_self :
      (now : ℕ) (t : LeaderTask W) (s : Dict ℕ × W)
      → 0 < t.interval
      → is_due now t (run_task (is_due now t s.0) now t s).0 ≡ false
  unfolding run_task
  run_task_self now t s positive = elim (Bool-cases (is_due now t s.0)) [
    | inl e ↦
        rw e (
          unfold is_due in (ground (arith, last_of-set t.name t.name now s.0, text_eq_refl t.name)))
    | inr e ↦ rw e e
  ]

  -- After a round of the leader, no registered task is due at the round's clock, whether it ran in
  -- it or not, and whether it raised or not: every interval must be positive.
  pub run_due_tasks-none_due :
      (now : ℕ) (tasks : List (LeaderTask W)) (s : Dict ℕ × W)
      → All (λ t. 0 < t.interval) tasks
      → All (λ t. is_due now t (run_due_tasks now tasks s).0 ≡ false) tasks
  unfolding run_due_tasks
  run_due_tasks-none_due now [] s positive = tt
  run_due_tasks-none_due now (t ∷ tasks) s positive =
      let s' = run_task (is_due now t s.0) now t s in
      (
        run_due_tasks-quiet now tasks s' t positive.0 (run_task_self now t s positive.0),
        run_due_tasks-none_due now tasks s' positive.1,
      )

  run_task-not_before :
      (b : Bool) (floor now : ℕ) (t : LeaderTask W) (s : Dict ℕ × W) (name : Text)
      → floor ≤ now
      → floor ≤ last_of s.0 name
      → floor ≤ last_of (run_task b now t s).0 name
  unfolding run_task
  run_task-not_before false floor now t s name h g = g
  run_task-not_before true floor now t s name h g = ground (arith, last_of-set t.name name now s.0)

  run_due_tasks-not_before :
      (floor now : ℕ) (tasks : List (LeaderTask W)) (s : Dict ℕ × W) (name : Text)
      → floor ≤ now
      → floor ≤ last_of s.0 name
      → floor ≤ last_of (run_due_tasks now tasks s).0 name
  unfolding run_due_tasks
  run_due_tasks-not_before floor now [] s name h g = g
  run_due_tasks-not_before floor now (t ∷ tasks) s name h g =
      run_due_tasks-not_before floor now tasks (run_task (is_due now t s.0) now t s) name h
        (run_task-not_before (is_due now t s.0) floor now t s name h g)

  leader_loop_body-NotBefore :
      (floor : ℕ) (tasks : List (LeaderTask W)) (events : List Tick) (s : Dict ℕ × W) (name : Text)
      → All (NotBefore floor) events
      → floor ≤ last_of s.0 name
      → floor ≤ last_of (leader_loop_body tasks events s).0 name
  unfolding leader_loop_body tick
  leader_loop_body-NotBefore floor tasks [] s name h g = g
  leader_loop_body-NotBefore floor tasks (election_failed ∷ es) s name h g =
      leader_loop_body-NotBefore floor tasks es s name h.1 g
  leader_loop_body-NotBefore floor tasks (following ∷ es) s name h g =
      leader_loop_body-NotBefore floor tasks es s name h.1 g
  leader_loop_body-NotBefore floor tasks (leading now ∷ es) s name h g =
      leader_loop_body-NotBefore floor tasks es (run_due_tasks now tasks s) name h.1
        (run_due_tasks-not_before floor now tasks s name h.0 g)

  -- While a task that is due has not run, it stays due or a task of its name has run.
  run_due_tasks-pending :
      (now : ℕ) (tasks : List (LeaderTask W)) (s : Dict ℕ × W) (u : LeaderTask W)
      → (is_due now u s.0 ≡ true) ⊎ (now ≤ last_of s.0 u.name)
      → (is_due now u (run_due_tasks now tasks s).0 ≡ true)
        ⊎ (now ≤ last_of (run_due_tasks now tasks s).0 u.name)
  unfolding run_due_tasks run_task
  run_due_tasks-pending now [] s u p = p
  run_due_tasks-pending now (t ∷ tasks) s u p =
      run_due_tasks-pending now tasks (run_task (is_due now t s.0) now t s) u
        (elim (Bool-cases (is_due now t s.0)) [
          | inr e ↦ rw e p
          | inl e ↦ rw e (elim (Bool-cases (text_eq t.name u.name)) [
            | inl same ↦ inr (ground (arith, last_of-set t.name u.name now s.0))
            | inr other ↦ unfold is_due in (rw (last_of-set t.name u.name now s.0, other) p)
          ])
        ])

  run_due_tasks-ran :
      (now : ℕ) (before after : List (LeaderTask W)) (t : LeaderTask W) (s : Dict ℕ × W)
      → is_due now t s.0 ≡ true
      → now ≤ last_of (run_due_tasks now (before ++ t ∷ after) s).0 t.name
  unfolding run_due_tasks run_task
  run_due_tasks-ran now [] after t s due =
      run_due_tasks-not_before now now after (run_task (is_due now t s.0) now t s) t.name
        (omega arith)
        (rw due (ground (arith, last_of-set t.name t.name now s.0, text_eq_refl t.name)))
  run_due_tasks-ran now (u ∷ before) after t s due =
      elim (run_due_tasks-pending now (u ∷ []) s t (inl due)) [
        | inl still ↦
            run_due_tasks-ran now before after t (run_task (is_due now u s.0) now u s) still
        | inr done ↦
            run_due_tasks-not_before now now (before ++ t ∷ after)
              (run_task (is_due now u s.0) now u s) t.name (omega arith) done
      ]

  leader_loop_body-after :
      (now : ℕ) (before after : List (LeaderTask W)) (t : LeaderTask W) (events : List Tick)
      (s : Dict ℕ × W)
      → is_due now t s.0 ≡ true
      → All (NotBefore now) events
      → now ≤ last_of (leader_loop_body (before ++ t ∷ after) (leading now ∷ events) s).0 t.name
  unfolding leader_loop_body tick
  leader_loop_body-after now before after t events s due later =
      leader_loop_body-NotBefore now (before ++ t ∷ after) events
        (run_due_tasks now (before ++ t ∷ after) s) t.name later
        (run_due_tasks-ran now before after t s due)

  -- Once a round of the leader at the time `now` finds a registered task of a positive interval due, then whatever rounds
  -- the loop goes through afterwards (failed elections, terms of other workers and rounds of its
  -- own, whose clocks are not before `now`), the task is not due at any time that is less than its
  -- interval after `now`.
  pub leader_loop_body-spacing :
      (now at : ℕ) (before after : List (LeaderTask W)) (t : LeaderTask W) (events : List Tick)
      (s : Dict ℕ × W)
      → 0 < t.interval
      → is_due now t s.0 ≡ true
      → All (NotBefore now) events
      → at < now + t.interval
      → is_due at t (leader_loop_body (before ++ t ∷ after) (leading now ∷ events) s).0 ≡ false
  unfolding is_due
  leader_loop_body-spacing now at before after t events s positive due later soon =
      ground (arith, leader_loop_body-after now before after t events s due later)
