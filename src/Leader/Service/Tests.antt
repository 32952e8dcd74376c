-- ===== src/Leader/Service/Tests.antt =====
-- Runs of the leader's loop over two tasks.
use thaum.Prelude.{ℕ, ◌+◌, ◌≡◌, refl, true, false, none, some, List, [], ◌∷◌, arith}
use thaum.Text.{codes, text_eq}
use thaum.Dict.{get}
use thaum.Leader.Service.{
  LeaderTask, election_failed, following, leading, is_due, run_due_tasks, leader_loop_body,
}
use thaum.Leader.Service.Due.{leader_loop_body-spacing}
use thaum.Leader.Service.Round.{HasDistinctNames, due_tasks, each_once, run_due_tasks-each_once}

abbrev prune_task : LeaderTask ℕ
prune_task = record {
  name = codes "prune";
  interval = 1000;
  fn = λ n. (n + 1, none);
  run_on_startup = false;
}

abbrev rotate_task : LeaderTask ℕ
rotate_task = record {
  name = codes "rotate";
  interval = 500;
  fn = λ n. (n + 10, some (codes "no key"));
  run_on_startup = true;
}

abbrev both_tasks : List (LeaderTask ℕ)
both_tasks = prune_task ∷ rotate_task ∷ []

rotate_due : is_due 1200 rotate_task [] ≡ true
unfolding is_due get
rotate_due = refl

leader_loop_body-spacing_example :
    is_due 1699 rotate_task
      (leader_loop_body both_tasks
        (leading 1200 ∷ following ∷ leading 1400 ∷ election_failed ∷ [])
        ([], 0)).0
    ≡ false
leader_loop_body-spacing_example =
    leader_loop_body-spacing 1200 1699 (prune_task ∷ []) [] rotate_task
      (following ∷ leading 1400 ∷ election_failed ∷ []) ([], 0) (omega arith) rotate_due
      (tt, ((omega arith), (tt, tt))) (omega arith)

names_apart : HasDistinctNames both_tasks
unfolding text_eq
names_apart = ((refl, tt), (tt, tt))

run_due_tasks-each_once_example :
    (run_due_tasks 700 both_tasks ([], 0)).1 ≡ each_once (due_tasks 700 [] both_tasks) 0
run_due_tasks-each_once_example = run_due_tasks-each_once 700 both_tasks [] 0 names_apart
