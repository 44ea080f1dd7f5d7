-- ===== src/ExecutionQueue/Lifecycle.antt =====
-- The steps that the table of backend/app/execution_queue.py may take, as a relation on states of the
-- queue, and what every sequence of steps keeps.
use aira_agent.Base.{
  ℕ, ◌≤◌, ◌<◌, String, ◌≡◌, ◌≢◌, refl, Option, none, some, ◌∷◌, [], ◌++◌, true, arith, All,
  All-append,
}
use mathlib.Core.Path.{subst}
use aira_agent.Base.Int.{at_least-ge}
use aira_agent.Base.Table.{update, find-append, find-update_linked, All-update}
use aira_agent.JobPolicy.{Settings}
use aira_agent.ExecutionQueue.Status.{queued, is_terminal}
use aira_agent.ExecutionQueue.Job.{ExecutionJob, Queue, job_id, get_row}
use aira_agent.ExecutionQueue.Enqueue.{in_flight_job}
use aira_agent.ExecutionQueue.Claim.{start_row}
use aira_agent.ExecutionQueue.Worker.{max_attempts}

-- What is fixed when a job is queued.
pub record SameJob (r r' : ExecutionJob) : Type 0 where
  pub id : r'.id ≡ r.id
  pub owner : r'.owner ≡ r.owner
  pub kind : r'.kind ≡ r.kind
  pub payload_json : r'.payload_json ≡ r.payload_json
  pub exec_class : r'.exec_class ≡ r.exec_class
  pub priority : r'.priority ≡ r.priority
  pub dedup_key : r'.dedup_key ≡ r.dedup_key
  pub parent_job_id : r'.parent_job_id ≡ r.parent_job_id
  pub origin : r'.origin ≡ r.origin
  pub created_at : r'.created_at ≡ r.created_at

-- A write that starts no run: a status that is terminal stays, and a job goes back to the queue
-- only while it has an attempt left.
pub record Moves (s : Settings) (r r' : ExecutionJob) : Type 0 where
  pub attempts : r'.attempts ≡ r.attempts
  pub terminal : is_terminal r.status ≡ true → r'.status ≡ r.status
  pub requeued : r'.status ≡ queued → r.attempts < max_attempts s

pub data Step (s : Settings) (q q' : Queue) : Type 0 where
  quiet : q'.jobs ≡ q.jobs → Step s q q'
  insert :
      (r : ExecutionJob)
      → r.status ≡ queued
      → r.attempts ≡ 0
      → ((key : String) → r.dedup_key ≡ some key → key ≢ "" → in_flight_job r.owner key q ≡ none)
      → q'.jobs ≡ q.jobs ++ r ∷ []
      → Step s q q'
  start :
      (id : String) (r : ExecutionJob) (now : ℕ)
      → get_row id q ≡ some r
      → r.status ≡ queued
      → q'.jobs ≡ update job_id id (start_row now) q.jobs
      → Step s q q'
  move :
      (id : String) (r : ExecutionJob) (f : ExecutionJob → ExecutionJob)
      → get_row id q ≡ some r
      → ((x : ExecutionJob) → SameJob x (f x))
      → Moves s r (f r)
      → q'.jobs ≡ update job_id id f q.jobs
      → Step s q q'

pub data Reach (s : Settings) (q : Queue) : Queue → Type 0 where
  here : Reach s q q
  next : {t u : Queue} → Reach s q t → Step s t u → Reach s q u

pub Reach-trans : {s : Settings} {q t u : Queue} → Reach s q t → Reach s t u → Reach s q u
Reach-trans a here = a
Reach-trans a (next b c) = next (Reach-trans a b) c

-- An invariant of the steps holds wherever a sequence of steps leads.
pub Reach-induction {ℓ} :
    {s : Settings} (P : Queue → Type ℓ)
    → ((q q' : Queue) → Step s q q' → P q → P q')
    → {q q' : Queue} → Reach s q q'
    → P q
    → P q'
Reach-induction P step here h = h
Reach-induction P step (next {t} {u} a b) h = step t u b (Reach-induction P step a h)

-- How a row is related to what it was: the same work, no fewer attempts, and over once it is over.
pub record Link (r r' : ExecutionJob) : Type 0 where
  pub same : SameJob r r'
  pub attempts : r.attempts ≤ r'.attempts
  pub terminal : is_terminal r.status ≡ true → r'.status ≡ r.status

SameJob-refl : (r : ExecutionJob) → SameJob r r
SameJob-refl r = record {
  id = refl;
  owner = refl;
  kind = refl;
  payload_json = refl;
  exec_class = refl;
  priority = refl;
  dedup_key = refl;
  parent_job_id = refl;
  origin = refl;
  created_at = refl;
}

pub SameJob-start_row : (now : ℕ) (r : ExecutionJob) → SameJob r (start_row now r)
unfolding start_row
SameJob-start_row now r = ground arith

Link-refl : (r : ExecutionJob) → Link r r
Link-refl r = record { same = SameJob-refl r; attempts = omega arith; terminal = λ _. refl }

Link-trans : (a b c : ExecutionJob) → Link a b → Link b c → Link a c
Link-trans a b c p q = ground arith

-- Every job of `q` is still there, linked to what it was.
abbrev pub Linked : Queue → Queue → Type 0
Linked q q' =
    (id : String) (r : ExecutionJob)
    → get_row id q ≡ some r
    → (r' : ExecutionJob) × (get_row id q' ≡ some r') × Link r r'

Link-start_row : (now : ℕ) (r : ExecutionJob) → r.status ≡ queued → Link r (start_row now r)
unfolding start_row is_terminal
Link-start_row now r idle = record {
  same = SameJob-start_row now r;
  attempts = omega arith;
  terminal = λ over. ground arith;
}

Link-move : {s : Settings} {r r' : ExecutionJob} → SameJob r r' → Moves s r r' → Link r r'
Link-move same moves = record { same = same; attempts = omega arith; terminal = moves.terminal }

-- The row that a lookup finds is the one that it found before.
pub at_row {ℓ} :
    (P : ExecutionJob → Type ℓ) {o : Option ExecutionJob} {x y : ExecutionJob}
    → o ≡ some x
    → o ≡ some y
    → P x
    → P y
at_row P {x} {y} a b = let e : x ≡ y = cc in subst P e

Step-Linked : {s : Settings} (q q' : Queue) → Step s q q' → Linked q q'
unfolding get_row
Step-Linked q q' (quiet e) id r h = (r, rw e h, Link-refl r)
Step-Linked q q' (insert x _ _ _ e) id r h =
    (r, rw e (find-append job_id id q.jobs (x ∷ []) h), Link-refl r)
Step-Linked q q' (start k x now at idle e) id r h = rw e (
    find-update_linked job_id Link k id (start_row now) q.jobs (λ y. (SameJob-start_row now y).id)
      Link-refl (λ y g. at_row (λ z. Link z (start_row now z)) at g (Link-start_row now x idle)) r
      h)
Step-Linked q q' (move k x f at same moves e) id r h = rw e (
    find-update_linked job_id Link k id f q.jobs (λ y. (same y).id) Link-refl
      (λ y g. at_row (λ z. Link z (f z)) at g (Link-move (same x) moves)) r h)

-- Whatever steps are taken, no job is lost, none changes its identity, its work, its owner or its
-- place in the order, its count of attempts never falls, and a status that is terminal stays.
pub Reach-Linked : {s : Settings} (q : Queue) {q' : Queue} → Reach s q q' → Linked q q'
Reach-Linked q here id r h = (r, h, Link-refl r)
Reach-Linked q (next {t} {u} a b) id r h =
    let (r1, h1, l1) = Reach-Linked q a id r h in
    let (r2, h2, l2) = Step-Linked t u b id r1 h1 in (r2, h2, Link-trans r r1 r2 l1 l2)

-- The bound on the runs of a job: at most the configured attempts, and one left while it waits.
pub record IsBounded (s : Settings) (r : ExecutionJob) : Type 0 where
  pub bounded : r.attempts ≤ max_attempts s
  pub waiting : r.status ≡ queued → r.attempts < max_attempts s

abbrev pub AllBounded : Settings → Queue → Type 0
AllBounded s q = All (IsBounded s) q.jobs

IsBounded-start_row :
    (s : Settings) (now : ℕ) (r : ExecutionJob)
    → r.status ≡ queued
    → IsBounded s r
    → IsBounded s (start_row now r)
unfolding start_row
IsBounded-start_row s now r idle h = record {
  bounded = omega (arith, h.waiting idle);
  waiting = λ e. cc;
}

IsBounded-move :
    (s : Settings) (r r' : ExecutionJob) → Moves s r r' → IsBounded s r → IsBounded s r'
IsBounded-move s r r' m h = record {
  bounded = omega arith;
  waiting = λ e. omega (arith, m.requeued e, m.attempts);
}

IsBounded-insert : (s : Settings) (r : ExecutionJob) → r.attempts ≡ 0 → IsBounded s r
IsBounded-insert s r e = omega (arith, at_least-ge 1 s.job_max_attempts)

Step-AllBounded : {s : Settings} (q q' : Queue) → Step s q q' → AllBounded s q → AllBounded s q'
unfolding get_row
Step-AllBounded {s} q q' (quiet e) h = rw e h
Step-AllBounded {s} q q' (insert x _ none_run _ e) h =
    rw e (All-append (IsBounded s) q.jobs (x ∷ []) h (IsBounded-insert s x none_run, tt))
Step-AllBounded {s} q q' (start k x now at idle e) h = rw e (
    All-update job_id (IsBounded s) k (start_row now) q.jobs
      (λ y g.
        at_row (λ z. IsBounded s z → IsBounded s (start_row now z)) at g
          (IsBounded-start_row s now x idle))
      h)
Step-AllBounded {s} q q' (move k x f at same moves e) h = rw e (
    All-update job_id (IsBounded s) k f q.jobs
      (λ y g. at_row (λ z. IsBounded s z → IsBounded s (f z)) at g (IsBounded-move s x (f x) moves))
      h)

-- No job is run more often than the configured attempts, whatever steps are taken.
pub Reach-AllBounded :
    (s : Settings) (q q' : Queue) → Reach s q q' → AllBounded s q → AllBounded s q'
Reach-AllBounded s q q' = Reach-induction (AllBounded s) Step-AllBounded
