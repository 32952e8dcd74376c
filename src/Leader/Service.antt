-- ===== src/Leader/Service.antt =====
-- thaum/leader_service.py: the tasks that the leader repeats.
--
-- Clocks and intervals are in milliseconds. The state of everything that the tasks change is the
-- type `W`; an exception of a repeated task is logged, and what the task did before it stays.
-- A clock that is behind a task's last run counts as no time since then, and the task is not due,
-- as with the source's negative difference. A task's `task_data` is part of its function.
pub mod Due
pub mod Round
mod Tests
use thaum.Prelude.{
  ℕ, ◌-◌, Bool, true, false, not, Option, none, some, List, [], ◌∷◌, ◌++◌, ltb, leb, if◌then◌else◌,
}
use thaum.Text.{Text}
use thaum.Dict.{Dict, get, set}
use thaum.Leader.Barrier.{Task, run_registered_init_tasks}

pub record LeaderTask (W : Type 0) : Type 0 where
  pub name : Text
  pub interval : ℕ
  pub fn : Task W
  pub run_on_startup : Bool

-- What one round of the loop meets: the election raises, another worker leads, or this one leads
-- and reads the clock.
pub data Tick : Type 0 where
  election_failed following : Tick
  leading : ℕ → Tick

abbrev pub or_zero : Option ℕ → ℕ
or_zero none = 0
or_zero (some at) = at

abbrev pub last_of : Dict ℕ → Text → ℕ
last_of last name = or_zero (get name last)

module _ {W : Type 0} where
  -- `none` is the ValueError.
  unfoldable pub register_task : LeaderTask W → List (LeaderTask W) → Option (List (LeaderTask W))
  register_task t tasks = if ltb 0 t.interval then some (tasks ++ t ∷ []) else none

  startup_tasks : List (LeaderTask W) → List (Text × Task W)
  startup_tasks [] = []
  startup_tasks (t ∷ tasks) =
      if t.run_on_startup then (t.name, t.fn) ∷ startup_tasks tasks else startup_tasks tasks

  -- The tasks that are marked for the start, in order; the first that raises ends the run.
  unfoldable pub run_startup_leader_tasks : List (LeaderTask W) → W → W × Option Text
  unfolding startup_tasks run_registered_init_tasks
  run_startup_leader_tasks tasks w = run_registered_init_tasks (startup_tasks tasks) w

  unfoldable pub is_due : ℕ → LeaderTask W → Dict ℕ → Bool
  unfolding get
  is_due now t last = leb t.interval (now - last_of last t.name)

  run_task : Bool → ℕ → LeaderTask W → Dict ℕ × W → Dict ℕ × W
  unfolding set
  run_task false now t (last, w) = (last, w)
  run_task true now t (last, w) = (set t.name now last, (t.fn w).0)

  unfoldable pub run_due_tasks : ℕ → List (LeaderTask W) → Dict ℕ × W → Dict ℕ × W
  unfolding is_due run_task
  run_due_tasks now [] s = s
  run_due_tasks now (t ∷ tasks) s = run_due_tasks now tasks (run_task (is_due now t s.0) now t s)

  -- One round of `_leader_loop_body`.
  unfoldable pub tick : List (LeaderTask W) → Tick → Dict ℕ × W → Dict ℕ × W
  unfolding run_due_tasks
  tick tasks election_failed s = s
  tick tasks following s = s
  tick tasks (leading now) s = run_due_tasks now tasks s

  -- The loop over the rounds until the shutdown.
  unfoldable pub leader_loop_body : List (LeaderTask W) → List Tick → Dict ℕ × W → Dict ℕ × W
  unfolding tick
  leader_loop_body tasks [] s = s
  leader_loop_body tasks (e ∷ events) s = leader_loop_body tasks events (tick tasks e s)
