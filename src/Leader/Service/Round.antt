-- ===== src/Leader/Service/Round.antt =====
-- thaum/leader_service.py: which tasks a round of the leader runs, and the registry of the tasks.
use thaum.Prelude.{
  ℕ, ◌<◌, ◌≡◌, refl, ap, ◌∙◌, ◌⊎◌, inl, inr, Bool, true, false, none, some, List, [], ◌∷◌, ◌++◌,
  arith, ltb, if◌then◌else◌, Bool-cases, All, All-append,
}
use thaum.Text.{Text, text_eq}
use thaum.Dict.{Dict, set}
use thaum.Leader.Service.{LeaderTask, register_task, is_due, run_task, run_due_tasks}
use thaum.Leader.Service.Due.{last_of-set}

-- No two tasks have the same name.
abbrev pub HasDistinctNames : {W : Type 0} → List (LeaderTask W) → Type 0
HasDistinctNames [] = Unit
HasDistinctNames (t ∷ tasks) =
    All (λ u. text_eq t.name u.name ≡ false) tasks × HasDistinctNames tasks

module _ {W : Type 0} where
  -- The tasks that are due by the given record of their last runs.
  unfoldable pub due_tasks : ℕ → Dict ℕ → List (LeaderTask W) → List (LeaderTask W)
  due_tasks now last [] = []
  due_tasks now last (t ∷ tasks) =
      let rest = due_tasks now last tasks in if is_due now t last then t ∷ rest else rest

  -- Each of the tasks once, in order, whether they raise or not.
  unfoldable pub each_once : List (LeaderTask W) → W → W
  each_once [] w = w
  each_once (t ∷ tasks) w = each_once tasks (t.fn w).0

  due_tasks-set :
      (now at : ℕ) (name : Text) (last : Dict ℕ) (tasks : List (LeaderTask W))
      → All (λ u. text_eq name u.name ≡ false) tasks
      → due_tasks now (set name at last) tasks ≡ due_tasks now last tasks
  unfolding due_tasks is_due
  due_tasks-set now at name last [] other = refl
  due_tasks-set now at name last (t ∷ tasks) other =
      rw (last_of-set name t.name at last, other.0, due_tasks-set now at name last tasks other.1)
        refl

  run_due_tasks-step :
      (now : ℕ) (t : LeaderTask W) (tasks : List (LeaderTask W)) (last : Dict ℕ) (w : W) (b : Bool)
      → due_tasks now (set t.name now last) tasks ≡ due_tasks now last tasks
      → ((last' : Dict ℕ) (w' : W)
          → (run_due_tasks now tasks (last', w')).1 ≡ each_once (due_tasks now last' tasks) w')
      → (run_due_tasks now tasks (run_task b now t (last, w))).1
        ≡ each_once (if b then t ∷ due_tasks now last tasks else due_tasks now last tasks) w
  unfolding run_task each_once
  run_due_tasks-step now t tasks last w true same later =
      later (set t.name now last) (t.fn w).0 ∙ ap (λ due. each_once due (t.fn w).0) same
  run_due_tasks-step now t tasks last w false same later = later last w

  -- When the registered tasks have distinct names, a round of the leader runs every task that was
  -- due when the round began exactly once, in the order of registration, and no other: a task that
  -- raises does not stop the others.
  pub run_due_tasks-each_once :
      (now : ℕ) (tasks : List (LeaderTask W)) (last : Dict ℕ) (w : W)
      → HasDistinctNames tasks
      → (run_due_tasks now tasks (last, w)).1 ≡ each_once (due_tasks now last tasks) w
  unfolding run_due_tasks run_task due_tasks each_once
  run_due_tasks-each_once now [] last w distinct = refl
  run_due_tasks-each_once now (t ∷ tasks) last w distinct =
      run_due_tasks-step now t tasks last w (is_due now t last)
        (due_tasks-set now now t.name last tasks distinct.0)
        (λ last' w'. run_due_tasks-each_once now tasks last' w' distinct.1)

  -- Registering a task either puts it behind the others, and then the intervals of all the tasks
  -- are positive if those of the others are, or is refused, and then its interval is zero.
  pub register_task-positive :
      (t : LeaderTask W) (tasks : List (LeaderTask W))
      → All (λ u. 0 < u.interval) tasks
      → ((register_task t tasks ≡ some (tasks ++ t ∷ []))
          × All (λ u. 0 < u.interval) (tasks ++ t ∷ []))
        ⊎ ((register_task t tasks ≡ none) × (t.interval ≡ 0))
  unfolding register_task
  register_task-positive t tasks positive = elim (Bool-cases (ltb 0 t.interval)) [
    | inl e ↦
        inl (rw e refl, All-append (λ u. 0 < u.interval) tasks (t ∷ []) positive (ground arith, tt))
    | inr e ↦ inr (rw e refl, ground arith)
  ]
