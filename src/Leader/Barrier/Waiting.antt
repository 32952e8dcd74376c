-- ===== src/Leader/Barrier/Waiting.antt =====
-- thaum/leader_init.py: how the wait of a follower ends.
use thaum.Prelude.{
  ℕ, ◌<◌, ◌≡◌, refl, sym, ap, ◌∙◌, ◌≢◌, ◌⊎◌, inl, inr, Bool, false, ◌||◌, Option, none, some, List,
  [], ◌∷◌, ◌++◌, arith, ltb, if◌then◌else◌, Bool-cases, All,
}
use thaum.Leader.Barrier.{
  State, idle, finished, StatusRow, Observation, Follower, new_follower, Wait, waiting, ready,
  timed_out, leader_failed, baseline_of, on_state, seen_row, poll, wait_for_leader_init_barrier,
}

-- What a follower sees when the row stays as an earlier start of the workers left it.
abbrev pub IsStale : ℕ → Observation → Type 0
IsStale ticket o = elim o.row [
  | none ↦ Unit
  | some r ↦ (r.barrier_ticket ≡ ticket) × ((r.state ≡ finished) ⊎ (r.state ≡ idle))
]

-- The follower has seen at most the given ticket, and never saw the leader run.
abbrev pub SawOnly : ℕ → Wait → Type 0
SawOnly ticket (waiting f) =
    ((f.baseline ≡ none) ⊎ (f.baseline ≡ some ticket)) × (f.saw_running ≡ false)
SawOnly ticket ready = ⊥
SawOnly ticket timed_out = Unit
SawOnly ticket (leader_failed m) = ⊥

baseline_of-SawOnly :
    (ticket : ℕ) (f : Follower)
    → (f.baseline ≡ none) ⊎ (f.baseline ≡ some ticket)
    → baseline_of f ticket ≡ ticket
baseline_of-SawOnly ticket f (inl e) = rw e refl
baseline_of-SawOnly ticket f (inr e) = rw e refl

held_back :
    (ticket : ℕ) (b : Bool) (f : Follower)
    → b ≡ false
    → SawOnly ticket (waiting f)
    → SawOnly ticket (if b then ready else waiting f)
held_back ticket b f e seen = rw e seen

not_yet :
    (ticket base other : ℕ) (b : Bool)
    → other ≡ ticket
    → base ≡ ticket
    → b ≡ false
    → (ltb base other || b) ≡ false
not_yet ticket base other b h e q = ground arith

on_state-SawOnly :
    (ticket base : ℕ) (f : Follower) (r : StatusRow) (later : ℕ) (s : State)
    → r.barrier_ticket ≡ ticket
    → base ≡ ticket
    → (s ≡ finished) ⊎ (s ≡ idle)
    → SawOnly ticket (waiting f)
    → SawOnly ticket (on_state f r base later s)
unfolding on_state
on_state-SawOnly ticket base f r later s h e (inl done) seen = rw done (
    held_back ticket (ltb base r.barrier_ticket || f.saw_running) f
      (not_yet ticket base r.barrier_ticket f.saw_running h e seen.1) seen)
on_state-SawOnly ticket base f r later s h e (inr quiet) seen = rw quiet seen

seen_row-SawOnly :
    (ticket : ℕ) (f : Follower) (later : ℕ) (row : Option StatusRow) (o : Observation)
    → o.row ≡ row
    → IsStale ticket o
    → SawOnly ticket (waiting f)
    → SawOnly ticket (seen_row f later row)
unfolding seen_row
seen_row-SawOnly ticket f later none o e stale seen = seen
seen_row-SawOnly ticket f later (some r) o e stale seen =
    let (h, s) = stale_of o r e stale in
    let base = baseline_of f r.barrier_ticket in
    let here = ap (baseline_of f) h ∙ baseline_of-SawOnly ticket f seen.0 in
    on_state-SawOnly ticket base (record f { baseline = some base }) r later r.state h here s
      (inr (ap some here), seen.1)
  where
    stale_of :
        (o : Observation) (r : StatusRow)
        → o.row ≡ some r
        → IsStale ticket o
        → (r.barrier_ticket ≡ ticket) × ((r.state ≡ finished) ⊎ (r.state ≡ idle))
    stale_of o r e stale = rw e at stale

poll-SawOnly :
    (ticket deadline : ℕ) (f : Follower) (o : Observation)
    → IsStale ticket o
    → SawOnly ticket (waiting f)
    → SawOnly ticket (poll deadline f o)
unfolding poll
poll-SawOnly ticket deadline f o stale seen = elim (Bool-cases (ltb deadline o.now)) [
  | inl late ↦ rw late tt
  | inr early ↦ rw early (seen_row-SawOnly ticket f o.later o.row o refl stale seen)
]

wait-SawOnly :
    (ticket deadline : ℕ) (os : List Observation) (w : Wait)
    → All (IsStale ticket) os
    → SawOnly ticket w
    → SawOnly ticket (wait_for_leader_init_barrier deadline os w)
unfolding wait_for_leader_init_barrier
wait-SawOnly ticket deadline [] w stale seen = seen
wait-SawOnly ticket deadline (o ∷ os) (waiting f) stale seen =
    wait-SawOnly ticket deadline os (poll deadline f o) stale.1
      (poll-SawOnly ticket deadline f o stale.0 seen)
wait-SawOnly ticket deadline (o ∷ os) timed_out stale seen = seen
wait-SawOnly ticket deadline (o ∷ os) ready stale seen = absurd seen
wait-SawOnly ticket deadline (o ∷ os) (leader_failed m) stale seen = absurd seen

SawOnly-unfinished :
    (ticket : ℕ) (w : Wait)
    → SawOnly ticket w
    → (w ≡ timed_out) ⊎ ((f : Follower) × (w ≡ waiting f))
SawOnly-unfinished ticket (waiting f) seen = inr (f, refl)
SawOnly-unfinished ticket timed_out seen = inl refl
SawOnly-unfinished ticket ready seen = absurd seen
SawOnly-unfinished ticket (leader_failed m) seen = absurd seen

-- A new follower that sees the row only as finished or idle, always with the same ticket (or sees
-- no row), is never released: it still waits, or it has timed out. The row that an earlier start
-- of the workers left behind does not let it pass.
pub wait_for_leader_init_barrier-stale :
    (ticket deadline : ℕ) (os : List Observation)
    → All (IsStale ticket) os
    → (wait_for_leader_init_barrier deadline os (waiting new_follower) ≡ timed_out)
      ⊎ ((f : Follower) × (wait_for_leader_init_barrier deadline os (waiting new_follower)
            ≡ waiting f))
wait_for_leader_init_barrier-stale ticket deadline os stale =
    SawOnly-unfinished ticket (wait_for_leader_init_barrier deadline os (waiting new_follower))
      (wait-SawOnly ticket deadline os (waiting new_follower) stale (inl refl, refl))

timed_out-stays :
    (deadline : ℕ) (os : List Observation)
    → wait_for_leader_init_barrier deadline os timed_out ≡ timed_out
unfolding wait_for_leader_init_barrier
timed_out-stays deadline [] = refl
timed_out-stays deadline (o ∷ os) = refl

poll-late :
    (deadline : ℕ) (f : Follower) (o : Observation)
    → deadline < o.now
    → poll deadline f o ≡ timed_out
unfolding poll
poll-late deadline f o passed = ground arith

-- A round whose clock is past the deadline ends the wait, whatever the rounds before it and after
-- it showed: it is released, or it has failed.
pub wait_for_leader_init_barrier-ends :
    (deadline : ℕ) (before after : List Observation) (late : Observation) (w : Wait) (f : Follower)
    → deadline < late.now
    → wait_for_leader_init_barrier deadline (before ++ late ∷ after) w ≢ waiting f
unfolding wait_for_leader_init_barrier poll
wait_for_leader_init_barrier-ends deadline [] after late (waiting g) f passed h = never (
    sym (timed_out-stays deadline after)
    ∙ ap (wait_for_leader_init_barrier deadline after) (sym (poll-late deadline g late passed))
    ∙ h)
  where
    never : timed_out ≡ waiting f → ⊥
    never e = cc
wait_for_leader_init_barrier-ends deadline [] after late ready f passed h = cc
wait_for_leader_init_barrier-ends deadline [] after late timed_out f passed h = cc
wait_for_leader_init_barrier-ends deadline [] after late (leader_failed m) f passed h = cc
wait_for_leader_init_barrier-ends deadline (o ∷ before) after late (waiting g) f passed h =
    wait_for_leader_init_barrier-ends deadline before after late (poll deadline g o) f passed h
wait_for_leader_init_barrier-ends deadline (o ∷ before) after late ready f passed h = cc
wait_for_leader_init_barrier-ends deadline (o ∷ before) after late timed_out f passed h = cc
wait_for_leader_init_barrier-ends deadline (o ∷ before) after late (leader_failed m) f passed h = cc
