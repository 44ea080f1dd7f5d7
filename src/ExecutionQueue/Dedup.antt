-- ===== src/ExecutionQueue/Dedup.antt =====
-- Idempotent enqueue of backend/app/execution_queue.py: at most one job is in flight under a key.
use mathlib.Core.Path.{subst}
use aira_agent.Base.{
  ℕ, ◌≤◌, String, ◌≡◌, ◌≢◌, refl, Option, none, some, List, ◌∷◌, [], ◌++◌, Bool, true, ◌||◌, arith,
  ◌==◌, eq_iff, inl, inr, Bool-cases, first, tally, tally-append, is_text_iff,
}
use aira_agent.Base.Table.{tally-update-le}
use aira_agent.JobPolicy.{Settings}
use aira_agent.ExecutionQueue.Status.{queued, is_active, is_terminal}
use aira_agent.ExecutionQueue.Job.{
  ExecutionJob, NewJob, Queue, Signal, queued_event, job_id, get_row, emit,
}
use aira_agent.ExecutionQueue.Enqueue.{
  in_flight_under, in_flight_job, enqueue, existing_job, enqueue_row, new_row, insert_row,
}
use aira_agent.ExecutionQueue.Claim.{start_row}
use aira_agent.ExecutionQueue.Lifecycle.{
  SameJob, Moves, Step, quiet, insert, start, move, Reach, Reach-induction, at_row,
}

module _ {ℓ} {A : Type ℓ} (p : A → Bool) where
  tally_of-first-none : (xs : List A) → first p xs ≡ none → tally p xs ≡ 0
  unfolding first tally
  tally_of-first-none [] h = refl
  tally_of-first-none (x ∷ xs) h = ground (arith, tally_of-first-none xs)

  first_kept :
      (xs : List A) (x : A) (ys : List A) → first p xs ≡ some x → first p (xs ++ ys) ≡ some x
  unfolding first
  first_kept [] x ys h = cc
  first_kept (y ∷ xs) x ys h = ground (arith, first_kept xs x ys)

  pub first_append :
      (xs : List A) (x : A) → first p xs ≡ none → p x ≡ true → first p (xs ++ x ∷ []) ≡ some x
  unfolding first
  first_append [] x h e = ground arith
  first_append (y ∷ xs) x h e = ground (arith, first_append xs x)

-- How many jobs are in flight for an owner under a key.
unfoldable pub in_flight_count : String → String → Queue → ℕ
in_flight_count owner key q = tally (in_flight_under owner key) q.jobs

-- Under every key but the empty one, which stands for none, at most one job is in flight.
abbrev pub IsDeduped : Queue → Type 0
IsDeduped q = (owner key : String) → key ≢ "" → in_flight_count owner key q ≤ 1

move_in_flight :
    {s : Settings} (owner key : String) (r r' : ExecutionJob)
    → SameJob r r'
    → Moves s r r'
    → in_flight_under owner key r' ≡ true
    → in_flight_under owner key r ≡ true
unfolding in_flight_under is_active is_terminal
move_in_flight owner key r r' same moves h = ground (
  arith,
  eq_iff r.owner owner,
  eq_iff r'.owner owner,
  is_text_iff r.dedup_key key,
  is_text_iff r'.dedup_key key,
)

start_in_flight :
    (owner key : String) (now : ℕ) (r : ExecutionJob)
    → r.status ≡ queued
    → in_flight_under owner key (start_row now r) ≡ true
    → in_flight_under owner key r ≡ true
unfolding in_flight_under is_active start_row
start_in_flight owner key now r idle h = ground arith

-- A row that is queued under a key adds to its count only where the count was nothing.
insert_in_flight :
    (owner key : String) (x : ExecutionJob) (rows : List ExecutionJob)
    → tally (in_flight_under owner key) rows ≤ 1
    → (x.dedup_key ≡ some key → first (in_flight_under x.owner key) rows ≡ none)
    → tally (in_flight_under owner key) (rows ++ x ∷ []) ≤ 1
insert_in_flight owner key x rows d alone = elim (Bool-cases (in_flight_under owner key x)) [
  | inl e ↦
      let o : x.owner ≡ owner = unfold in_flight_under in ground (arith, eq_iff x.owner owner) in
      let k : x.dedup_key ≡ some key =
        unfold in_flight_under in ground (arith, is_text_iff x.dedup_key key) in
      let nothing : tally (in_flight_under owner key) rows ≡ 0 =
        tally_of-first-none (in_flight_under owner key) rows
          (subst (λ w. first (in_flight_under w key) rows ≡ none) o (alone k)) in
      rw tally-append (unfold tally in ground arith)
  | inr e ↦ rw tally-append (unfold tally in ground arith)
]

Step-IsDeduped : {s : Settings} (q q' : Queue) → Step s q q' → IsDeduped q → IsDeduped q'
unfolding in_flight_count get_row in_flight_job
Step-IsDeduped q q' (quiet e) d owner key full = rw e (d owner key full)
Step-IsDeduped q q' (insert x idle fresh alone e) d owner key full =
    rw e (insert_in_flight owner key x q.jobs (d owner key full) (λ k. alone key k full))
Step-IsDeduped q q' (start k x now at idle e) d owner key full = rw e (
    omega (
      arith,
      d owner key full,
      tally-update-le job_id (in_flight_under owner key) k (start_row now) q.jobs (λ y g.
          at_row
            (λ z.
              in_flight_under owner key (start_row now z) ≡ true
              → in_flight_under owner key z ≡ true)
            at g (start_in_flight owner key now x idle)),
    ))
Step-IsDeduped q q' (move k x f at same moves e) d owner key full = rw e (
    omega (
      arith,
      d owner key full,
      tally-update-le job_id (in_flight_under owner key) k f q.jobs (λ y g.
          at_row (λ z. in_flight_under owner key (f z) ≡ true → in_flight_under owner key z ≡ true)
            at g (move_in_flight owner key x (f x) (same x) moves)),
    ))

pub Reach-IsDeduped : {s : Settings} {q q' : Queue} → Reach s q q' → IsDeduped q → IsDeduped q'
Reach-IsDeduped = Reach-induction IsDeduped Step-IsDeduped

-- Once a job is queued under a key, the query for work in flight finds it.
queued_row_found :
    (a : NewJob) (id key : String) (q : Queue) (x : Signal)
    → a.dedup_key ≡ some key
    → key ≢ ""
    → existing_job a q ≡ none
    → existing_job a (emit x (insert_row (new_row a id q.now) q)) ≡ some (new_row a id q.now)
unfolding existing_job emit insert_row in_flight_job
queued_row_found a id key q x k full e = ground (
  arith,
  eq_iff key "",
  first_append (in_flight_under a.owner key) q.jobs (new_row a id q.now),
  hit,
)
  where
    hit : in_flight_under a.owner key (new_row a id q.now) ≡ true
    hit =
        unfold in_flight_under new_row is_active in
        ground (arith, eq_iff a.owner a.owner, is_text_iff a.dedup_key key)

again_row :
    (o : Option ExecutionJob) (a : NewJob) (id id2 : String) (key : String) (q : Queue)
    → a.dedup_key ≡ some key
    → key ≢ ""
    → existing_job a q ≡ o
    → enqueue_row (existing_job a (enqueue_row o a id q).1) a id2 (enqueue_row o a id q).1
      ≡ ((enqueue_row o a id q).0, (enqueue_row o a id q).1)
again_row (some x) a id id2 key q k full e = unfold enqueue_row in rw e refl
again_row none a id id2 key q k full e =
    let found : existing_job a (enqueue_row none a id q).1 ≡ some (new_row a id q.now) =
      unfold enqueue_row in queued_row_found a id key q (queued_event a.owner id a.kind) k full e in
    unfold enqueue_row in rw found refl

-- Enqueueing again under a key that is not empty, with no time or call in between, returns what the
-- first call returned and changes nothing: a second approval cannot queue the work twice.
pub enqueue_again :
    (a : NewJob) (id id2 key : String) (q : Queue)
    → a.dedup_key ≡ some key
    → key ≢ ""
    → enqueue a id2 (enqueue a id q).1 ≡ enqueue a id q
unfolding enqueue
enqueue_again a id id2 key q k full = elim (Bool-cases (a.owner == "" || a.kind == "")) [
  | inl e ↦ rw e refl
  | inr e ↦ rw e (again_row (existing_job a q) a id id2 key q k full refl)
]
