-- ===== src/ExecutionQueue/Retry.antt =====
-- Retries and scopes in backend/app/execution_queue.py: who may retry what, and what a retry queues.
use Prim.Native.String.{◌++◌ as append}
use aira_agent.Base.{
  String, ◌≡◌, ◌≢◌, refl, Option, none, some, [], ◌∷◌, ◌++◌, true, arith, ◌==◌, eq_iff, inl, inr,
  Bool-cases, first,
}
use aira_agent.Base.Table.{find-append}
use aira_agent.ExecutionQueue.Status.{failed, is_active, is_retryable}
use aira_agent.ExecutionQueue.Job.{
  ExecutionJob, Queue, Signal, retry_activity, job_id, get_row, emit,
}
use aira_agent.ExecutionQueue.Enqueue.{
  in_flight_under, in_flight_job, insert_row, clone_row, enqueue_clone, enqueue_clone_row,
  retry_not_found, retried, retry, retry_found,
}
use aira_agent.ExecutionQueue.Cancel.{get, get_owned, request_cancel, cancel_row, cancel_not_found}
use aira_agent.ExecutionQueue.Dedup.{first_append}

-- To a scope that does not own the job of an id, it does not exist: reading, cancelling and
-- retrying it answer what they answer for an id that is in no row, and change nothing.
pub other_scope_sees_nothing :
    (owner id new_id : String) (q : Queue)
    → ((r : ExecutionJob) → get_row id q ≡ some r → r.owner ≢ owner)
    → (get owner id q ≡ none)
      × (request_cancel owner id q ≡ (cancel_not_found, q))
      × (retry owner id new_id q ≡ (retry_not_found, q))
unfolding get request_cancel retry
other_scope_sees_nothing owner id new_id q other = go (get_row id q) refl
  where
    go :
        (o : Option ExecutionJob)
        → get_row id q ≡ o
        → (get_owned o owner ≡ none)
          × (cancel_row o owner id q ≡ (cancel_not_found, q))
          × (retry_found o owner id new_id q ≡ (retry_not_found, q))
    go none e = (refl, refl, refl)
    go (some r) e = elim (Bool-cases (r.owner == owner)) [
      | inl t ↦ absurd (other r e ((eq_iff r.owner owner).0 t))
      | inr f ↦ rw f (refl, refl, refl)
    ]

clone_found :
    (p : ExecutionJob) (origin key id : String) (q : Queue)
    → first (in_flight_under p.owner key) q.jobs ≡ none
    → first (in_flight_under p.owner key) (q.jobs ++ clone_row p origin key id q.now ∷ [])
      ≡ some (clone_row p origin key id q.now)
clone_found p origin key id q e =
    first_append (in_flight_under p.owner key) q.jobs (clone_row p origin key id q.now) e (
      unfold in_flight_under clone_row is_active in
      ground (arith, eq_iff p.owner p.owner, eq_iff key key))

clone_again :
    (p : ExecutionJob) (origin key id id2 : String) (x : Signal) (q : Queue)
    → enqueue_clone p origin key id2 (emit x (enqueue_clone p origin key id q).1)
      ≡ ((enqueue_clone p origin key id q).0, emit x (enqueue_clone p origin key id q).1)
unfolding enqueue_clone enqueue_clone_row in_flight_job insert_row emit
clone_again p origin key id id2 x q = go (in_flight_job p.owner key q) refl
  where
    go :
        (o : Option ExecutionJob)
        → in_flight_job p.owner key q ≡ o
        → (let t = enqueue_clone_row o p origin key id q in
            enqueue_clone_row (in_flight_job p.owner key (emit x t.1)) p origin key id2 (emit x t.1)
            ≡ (t.0, emit x t.1))
    go (some r) e = rw e refl
    go none e = rw (clone_found p origin key id q e) refl

retryable : (r : ExecutionJob) → r.status ≡ failed → is_retryable r.status ≡ true
unfolding is_retryable
retryable r over = rw over refl

retry_failed :
    (owner id new_id : String) (q : Queue) (r : ExecutionJob)
    → get_row id q ≡ some r
    → r.owner ≡ owner
    → r.status ≡ failed
    → retry owner id new_id q ≡ (
      retried (enqueue_clone r "retry" (append "retry:" id) new_id q).0,
      emit
          (retry_activity owner r.actor_account_id r.title)
          (enqueue_clone r "retry" (append "retry:" id) new_id q).1,
    )
unfolding retry retry_found
retry_failed owner id new_id q r at mine over =
    rw at (rw ((eq_iff r.owner owner).1 mine) (rw (retryable r over) refl))

enqueue_clone-keeps :
    (p : ExecutionJob) (origin key id new_id : String) (x : Signal) (q : Queue) (r : ExecutionJob)
    → get_row id q ≡ some r
    → get_row id (emit x (enqueue_clone p origin key new_id q).1) ≡ some r
unfolding enqueue_clone get_row emit
enqueue_clone-keeps p origin key id new_id x q r at = go (in_flight_job p.owner key q)
  where
    go :
        (o : Option ExecutionJob)
        → get_row id (emit x (enqueue_clone_row o p origin key new_id q).1) ≡ some r
    go (some y) = unfold enqueue_clone_row in at
    go none =
        unfold enqueue_clone_row insert_row in
        find-append job_id id q.jobs (clone_row p origin key new_id q.now ∷ []) at

-- If a failed job is its owner's, then a second retry of it right after the first answers with the
-- job that the first one queued, or found, and adds no row: a double click cannot run the work
-- twice.
pub retry_again :
    (owner id new_id new_id2 : String) (q : Queue) (r : ExecutionJob)
    → get_row id q ≡ some r
    → r.owner ≡ owner
    → r.status ≡ failed
    → ((retry owner id new_id2 (retry owner id new_id q).1).0 ≡ (retry owner id new_id q).0)
      × ((retry owner id new_id2 (retry owner id new_id q).1).1.jobs
          ≡ (retry owner id new_id q).1.jobs)
retry_again owner id new_id new_id2 q r at mine over =
    let x = retry_activity owner r.actor_account_id r.title in
    let key = append "retry:" id in
    rw (retry_failed owner id new_id q r at mine over) (
      rw
        (retry_failed owner id new_id2 _ r (enqueue_clone-keeps r "retry" key id new_id x q r at)
          mine over)
        (rw (clone_again r "retry" key new_id new_id2 x q) (refl, unfold emit in refl)))
