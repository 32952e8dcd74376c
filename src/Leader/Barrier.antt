-- ===== src/Leader/Barrier.antt =====
-- thaum/leader_init.py, thaum/leader_init_status.py and thaum/leader_bootstrap.py: the row by which
-- the leader tells the other workers that it has finished its tasks, and the wait of a follower.
--
-- Clocks are in milliseconds. The wait is a function of what the follower observes, one item for
-- each round of its loop; the sleep between the rounds is what makes the clock differ. The state of
-- everything that the tasks change is the type `W`.
pub mod Waiting
pub mod Cycle
mod Tests
use thaum.Prelude.{
  ℕ, ◌+◌, ◌-◌, Bool, true, false, ◌||◌, Option, none, some, List, [], ◌∷◌, ltb, leb, if◌then◌else◌,
  take,
}
use thaum.Text.{Text, codes, or_else}

pub data State : Type 0 where
  idle running finished failed : State

pub record StatusRow : Type 0 where
  pub barrier_ticket : ℕ
  pub state : State
  pub error_message : Option Text

-- `_ensure_row`: the table holds at most the one row.
unfoldable pub ensure_row : Option StatusRow → StatusRow
ensure_row none = record { barrier_ticket = 0; state = idle; error_message = none }
ensure_row (some r) = r

unfoldable pub mark_leader_init_running : Option StatusRow → StatusRow
unfolding ensure_row
mark_leader_init_running r = record {
  barrier_ticket = (ensure_row r).barrier_ticket + 1;
  state = running;
  error_message = none;
}

unfoldable pub mark_leader_init_done : Option StatusRow → StatusRow
unfolding ensure_row
mark_leader_init_done r = record (ensure_row r) { state = finished; error_message = none }

unfoldable pub mark_leader_init_failed : Text → Option StatusRow → StatusRow
unfolding ensure_row
mark_leader_init_failed message r = record (ensure_row r) {
  state = failed;
  error_message = some (take 1024 message);
}

-- What a task leaves, and the text of the exception where it raises.
abbrev pub Task : Type 0 → Type 0
Task W = W → W × Option Text

closing_row : Option Text → Option StatusRow → StatusRow
unfolding mark_leader_init_done mark_leader_init_failed
closing_row none r = mark_leader_init_done r
closing_row (some e) r = mark_leader_init_failed e r

-- The leader's branch of `run_leader_bootstrap_phase`: the row while the tasks run, the row and
-- the state afterwards, and the exception that leaves it. Nobody else writes the row meanwhile.
pub record LeaderRun (W : Type 0) : Type 0 where
  pub during : StatusRow
  pub after : StatusRow
  pub world : W
  pub raised : Option Text

module _ {W : Type 0} where
  next_task : Option Text → W → (W → W × Option Text) → W × Option Text
  next_task (some e) w later = (w, some e)
  next_task none w later = later w

  -- The tasks in order; the first that raises ends the run.
  unfoldable pub run_registered_init_tasks : List (Text × Task W) → W → W × Option Text
  unfolding next_task
  run_registered_init_tasks [] w = (w, none)
  run_registered_init_tasks ((name, fn) ∷ tasks) w =
      let (w', raised) = fn w in next_task raised w' (run_registered_init_tasks tasks)

  unfoldable pub run_leader_phase : List (Text × Task W) → Option StatusRow → W → LeaderRun W
  unfolding mark_leader_init_running closing_row run_registered_init_tasks
  run_leader_phase tasks r w =
      let during = mark_leader_init_running r in
      let (w', raised) = run_registered_init_tasks tasks w in
      record {
        during = during;
        after = closing_row raised (some during);
        world = w';
        raised = raised;
      }

-- What a follower sees in one round: the clock at the deadline test, the row, and the clock again
-- where the code reads it for a failed row.
pub record Observation : Type 0 where
  pub now : ℕ
  pub row : Option StatusRow
  pub later : ℕ

pub record Follower : Type 0 where
  pub baseline : Option ℕ
  pub saw_running : Bool
  pub failed_seen_at : Option ℕ

abbrev pub new_follower : Follower
new_follower = record { baseline = none; saw_running = false; failed_seen_at = none }

pub data Wait : Type 0 where
  waiting : Follower → Wait
  ready timed_out : Wait
  leader_failed : Text → Wait

abbrev pub baseline_of : Follower → ℕ → ℕ
baseline_of f ticket = elim f.baseline [ none ↦ ticket | some b ↦ b ]

failure_text : StatusRow → Text
failure_text r =
    or_else (elim r.error_message [ none ↦ [] | some m ↦ m ]) (codes "leader init failed")

-- A failed row at the baseline ticket that was never seen running counts after two seconds.
failed_again : Follower → StatusRow → ℕ → Option ℕ → Wait
unfolding failure_text
failed_again f r later none = waiting (record f { failed_seen_at = some later })
failed_again f r later (some since) =
    if leb 2000 (later - since) then leader_failed (failure_text r) else waiting f

on_state : Follower → StatusRow → ℕ → ℕ → State → Wait
unfolding failed_again
on_state f r base later idle = waiting f
on_state f r base later running = waiting (record f { saw_running = true; failed_seen_at = none })
on_state f r base later failed =
    if ltb base r.barrier_ticket || f.saw_running
    then leader_failed (failure_text r)
    else failed_again f r later f.failed_seen_at
on_state f r base later finished =
    if ltb base r.barrier_ticket || f.saw_running then ready else waiting f

seen_row : Follower → ℕ → Option StatusRow → Wait
unfolding on_state
seen_row f later none = waiting f
seen_row f later (some r) =
    let base = baseline_of f r.barrier_ticket in
    on_state (record f { baseline = some base }) r base later r.state

-- One round of the loop.
unfoldable pub poll : ℕ → Follower → Observation → Wait
unfolding seen_row
poll deadline f o = if ltb deadline o.now then timed_out else seen_row f o.later o.row

-- The loop over the rounds that were observed.
unfoldable pub wait_for_leader_init_barrier : ℕ → List Observation → Wait → Wait
unfolding poll
wait_for_leader_init_barrier deadline [] w = w
wait_for_leader_init_barrier deadline (o ∷ os) (waiting f) =
    wait_for_leader_init_barrier deadline os (poll deadline f o)
wait_for_leader_init_barrier deadline (o ∷ os) ready = ready
wait_for_leader_init_barrier deadline (o ∷ os) timed_out = timed_out
wait_for_leader_init_barrier deadline (o ∷ os) (leader_failed m) = leader_failed m
