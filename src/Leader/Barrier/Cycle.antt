-- ===== src/Leader/Barrier/Cycle.antt =====
-- thaum/leader_init.py and thaum/leader_bootstrap.py: the leader's run as a follower meets it.
use thaum.Prelude.{
  ℕ, ◌≤◌, ◌<◌, ◌≡◌, refl, ap, ◌∙◌, inl, inr, true, false, Option, none, some, List, [], ◌∷◌, ◌++◌,
  arith, ltb, Bool-cases, take,
}
use thaum.Text.{Text, codes, or_else}
use thaum.Leader.Barrier.{
  State, idle, running, finished, failed, StatusRow, ensure_row, mark_leader_init_running,
  mark_leader_init_done, mark_leader_init_failed, Task, closing_row, next_task,
  run_registered_init_tasks, run_leader_phase, Observation, Follower, new_follower, Wait, waiting,
  ready, leader_failed, baseline_of, failure_text, failed_again, on_state, seen_row, poll,
  wait_for_leader_init_barrier,
}

-- How the wait should end, by what the leader's tasks raised.
abbrev pub told : Option Text → Wait
told none = ready
told (some e) = leader_failed (or_else (take 1024 e) (codes "leader init failed"))

closing_row-told :
    (raised : Option Text) (r : StatusRow) (f : Follower) (base later : ℕ)
    → ltb base r.barrier_ticket ≡ true
    → on_state f (closing_row raised (some r)) base later (closing_row raised (some r)).state
      ≡ told raised
unfolding closing_row mark_leader_init_done mark_leader_init_failed ensure_row on_state failure_text
closing_row-told none r f base later more = rw more refl
closing_row-told (some e) r f base later more = rw more refl

-- The follower still waits, and has the given ticket as its baseline.
abbrev pub WaitsFrom : ℕ → Wait → Type 0
WaitsFrom ticket w = (f : Follower) × (w ≡ waiting f) × (f.baseline ≡ some ticket)

base_follower : ℕ → Follower
base_follower ticket = record { baseline = some ticket; saw_running = false; failed_seen_at = none }

on_state-first :
    (r : StatusRow) (later : ℕ) (s : State)
    → WaitsFrom r.barrier_ticket
        (on_state (base_follower r.barrier_ticket) r r.barrier_ticket later s)
unfolding on_state failed_again base_follower
on_state-first r later idle = (_, refl, refl)
on_state-first r later running = (_, refl, refl)
on_state-first r later failed = elim (Bool-cases (ltb r.barrier_ticket r.barrier_ticket)) [
  | inl more ↦ absurd (ground (arith, more))
  | inr same ↦ rw same (_, refl, refl)
]
on_state-first r later finished = elim (Bool-cases (ltb r.barrier_ticket r.barrier_ticket)) [
  | inl more ↦ absurd (ground (arith, more))
  | inr same ↦ rw same (_, refl, refl)
]

poll-first :
    (deadline : ℕ) (o : Observation) (r : StatusRow)
    → o.now ≤ deadline
    → o.row ≡ some r
    → WaitsFrom r.barrier_ticket (poll deadline new_follower o)
unfolding poll seen_row base_follower
poll-first deadline o r soon e = elim (Bool-cases (ltb deadline o.now)) [
  | inl late ↦ absurd (ground (arith, late))
  | inr early ↦ rw (early, e) (on_state-first r o.later r.state)
]

above_baseline :
    (f : Follower) (ticket n other : ℕ)
    → f.baseline ≡ some ticket
    → ticket < n
    → ltb (baseline_of f other) n ≡ true
above_baseline f ticket n other based more = rw based (ground arith)

poll-told :
    (deadline : ℕ) (f : Follower) (o : Observation) (raised : Option Text) (r : StatusRow)
    (ticket : ℕ)
    → o.now ≤ deadline
    → o.row ≡ some (closing_row raised (some r))
    → f.baseline ≡ some ticket
    → ticket < r.barrier_ticket
    → poll deadline f o ≡ told raised
unfolding poll seen_row
poll-told deadline f o raised r ticket soon e based more = elim (Bool-cases (ltb deadline o.now)) [
  | inl late ↦ absurd (ground (arith, late))
  | inr early ↦
      let row = closing_row raised (some r) in
      let base = baseline_of f row.barrier_ticket in
      rw (early, e)
        (closing_row-told raised r (record f { baseline = some base }) base o.later
          (above_baseline f ticket r.barrier_ticket row.barrier_ticket based more))
]

two_rounds :
    (deadline ticket : ℕ) (first second : Observation) (w : Wait)
    → WaitsFrom ticket (poll deadline new_follower first)
    → ((f : Follower) → f.baseline ≡ some ticket → poll deadline f second ≡ w)
    → wait_for_leader_init_barrier deadline (first ∷ second ∷ []) (waiting new_follower) ≡ w
unfolding wait_for_leader_init_barrier
two_rounds deadline ticket first second w (f, e, based) next =
    ap (wait_for_leader_init_barrier deadline (second ∷ [])) e ∙ next f based

-- A new follower that sees the row before the leader's run, whatever it holds, and next sees it
-- after the run, both before its deadline, is released when all the tasks of the leader went
-- through, and fails with the text of the exception, cut to 1024 characters, when one raised (with
-- a standard text where the exception has none).
pub run_leader_phase-told :
    {W : Type 0} (deadline : ℕ) (tasks : List (Text × Task W)) (r : StatusRow) (w : W)
    (first second : Observation)
    → first.now ≤ deadline
    → second.now ≤ deadline
    → first.row ≡ some r
    → second.row ≡ some (run_leader_phase tasks (some r) w).after
    → wait_for_leader_init_barrier deadline (first ∷ second ∷ []) (waiting new_follower)
      ≡ told (run_registered_init_tasks tasks w).1
unfolding run_leader_phase mark_leader_init_running ensure_row
run_leader_phase-told deadline tasks r w first second soon soon' e e' =
    two_rounds deadline r.barrier_ticket first second (told (run_registered_init_tasks tasks w).1)
      (poll-first deadline first r soon e)
      (λ f based.
        poll-told deadline f second (run_registered_init_tasks tasks w).1
          (mark_leader_init_running (some r)) r.barrier_ticket soon' e' based (omega arith))

next_task-continued :
    {W : Type 0} (raised : Option Text) (w w' : W) (k k' : W → W × Option Text)
    (r : W × Option Text)
    → next_task raised w k ≡ (w', none)
    → (k w ≡ (w', none) → k' w ≡ r)
    → next_task raised w k' ≡ r
unfolding next_task
next_task-continued none w w' k k' r done next = next done
next_task-continued (some e) w w' k k' r done next = absurd (some-none (ap (λ p. p.1) done))
  where
    some-none : some e ≡ none → ⊥
    some-none h = cc

-- The tasks in front of the first one that raises run in order, that one runs, and the others do
-- not: the state and the exception are those that it left.
pub run_registered_init_tasks-stops :
    {W : Type 0} (before after : List (Text × Task W)) (name : Text) (fn : Task W) (w w' w'' : W)
    (e : Text)
    → run_registered_init_tasks before w ≡ (w', none)
    → fn w' ≡ (w'', some e)
    → run_registered_init_tasks (before ++ (name, fn) ∷ after) w ≡ (w'', some e)
unfolding run_registered_init_tasks
run_registered_init_tasks-stops [] after name fn w w' w'' e done raised =
    rw (ap (λ p. p.0) done) (rw raised refl)
run_registered_init_tasks-stops ((_, run) ∷ before) after name fn w w' w'' e done raised =
    next_task-continued (run w).1 (run w).0 w' (run_registered_init_tasks before)
      (run_registered_init_tasks (before ++ (name, fn) ∷ after)) (w'', some e) done
      (λ rest. run_registered_init_tasks-stops before after name fn (run w).0 w' w'' e rest raised)
