-- ===== src/Leader/Barrier/Tests.antt =====
-- Runs of the leader's start and of a follower's wait.
use thaum.Prelude.{ℕ, ◌+◌, ◌≡◌, refl, ◌⊎◌, inl, none, some, List, [], ◌∷◌, arith}
use thaum.Text.{Text, codes}
use thaum.Leader.Barrier.{
  finished, StatusRow, Task, next_task, run_registered_init_tasks, run_leader_phase, Observation,
  Follower, new_follower, waiting, timed_out, wait_for_leader_init_barrier,
}
use thaum.Leader.Barrier.Waiting.{wait_for_leader_init_barrier-stale}
use thaum.Leader.Barrier.Cycle.{told, run_leader_phase-told}

abbrev old_row : StatusRow
old_row = record { barrier_ticket = 4; state = finished; error_message = none }

abbrev sees : ℕ → StatusRow → Observation
sees now r = record { now = now; row = some r; later = now + 1 }

abbrev adds_one : Task ℕ
adds_one n = (n + 1, none)

abbrev breaks : Task ℕ
breaks n = (n + 10, some (codes "no database"))

abbrev plan : List (Text × Task ℕ)
plan = (codes "count", adds_one) ∷ (codes "break", breaks) ∷ (codes "count again", adds_one) ∷ []

wait_for_leader_init_barrier-stale_example :
    (wait_for_leader_init_barrier 1000
        (sees 10 old_row ∷ sees 260 old_row ∷ [])
        (waiting new_follower)
      ≡ timed_out)
    ⊎ ((f : Follower) × (wait_for_leader_init_barrier 1000
            (sees 10 old_row ∷ sees 260 old_row ∷ [])
            (waiting new_follower)
          ≡ waiting f))
wait_for_leader_init_barrier-stale_example =
    wait_for_leader_init_barrier-stale 4 1000 (sees 10 old_row ∷ sees 260 old_row ∷ [])
      ((refl, inl refl), ((refl, inl refl), tt))

run_leader_phase-told_example :
    wait_for_leader_init_barrier 1000
      (sees 10 old_row ∷ sees 900 (run_leader_phase plan (some old_row) 0).after ∷ [])
      (waiting new_follower)
    ≡ told (run_registered_init_tasks plan 0).1
run_leader_phase-told_example =
    run_leader_phase-told 1000 plan old_row 0 (sees 10 old_row)
      (sees 900 (run_leader_phase plan (some old_row) 0).after) (omega arith) (omega arith) refl
      refl

first_part : run_registered_init_tasks ((codes "count", adds_one) ∷ []) 0 ≡ (1, none)
unfolding run_registered_init_tasks next_task
first_part = refl
