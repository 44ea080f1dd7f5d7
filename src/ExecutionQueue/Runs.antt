-- ===== src/ExecutionQueue/Runs.antt =====
-- `run_once` and `drain` of backend/app/execution_queue.py as sequences of steps, around handlers
-- during which other processes may take steps of their own.
use Prim.Native.String.{◌++◌ as append}
use aira_agent.Base.{
  ℕ, suc, zero, ◌<◌, String, ◌≡◌, refl, Option, none, some, not, ◌&&◌, arith, inl, inr, if_both,
  if_split, Bool-cases, ltb,
}
use aira_agent.Base.Table.{update, find-update_self}
use aira_agent.JobPolicy.{Settings}
use aira_agent.ExecutionQueue.Status.{
  Status, queued, running, canceled, completed, failed, is_queued,
}
use aira_agent.ExecutionQueue.Job.{
  ExecutionJob, Value, JobView, Queue, Signal, job_id, get_row, emit, is_cancelled, view_of,
  claimed_event, canceled_event, canceled_activity, failed_event, completed_event, canceled_result,
  error_result,
}
use aira_agent.ExecutionQueue.Claim.{claim, claim_picked, guarded_update, start_row, select_next}
use aira_agent.ExecutionQueue.Cancel.{transition}
use aira_agent.ExecutionQueue.Worker.{
  HandlerOutcome, returned, raised_canceled, raised, Handler, Handlers, handler_for, Run, idle,
  crashed, ran, max_attempts, and_then, report, finish_canceled, finish_failed, finish_completed,
  requeue, after_handler, call_handler, run_claimed, run_once, drain, after_round, error_text,
}
use aira_agent.ExecutionQueue.Lifecycle.{Reach, here, Reach-trans, SameJob-start_row}
use aira_agent.ExecutionQueue.Refine.{Reach-emit, claim_picked-Reach, transition-Reach}

-- What is asked of a handler, and of what other processes do while it runs: the queue changes by
-- steps only, and nobody else runs the job that the handler was given.
pub record IsHandler (s : Settings) (h : Handler) : Type 0 where
  pub steps : (v : JobView) (q : Queue) → Reach s q (h v q).1
  pub alone :
      (v : JobView) (q : Queue) (r r' : ExecutionJob)
      → get_row v.id q ≡ some r
      → r.attempts ≡ v.attempts
      → get_row v.id (h v q).1 ≡ some r'
      → r'.attempts ≡ v.attempts

abbrev pub AreHandlers : Settings → Handlers → Type 0
AreHandlers s hs = (kind : String) (h : Handler) → handler_for kind hs ≡ some h → IsHandler s h

-- The row of a job that was just claimed.
pub record IsClaimed (v : JobView) (q : Queue) : Type 0 where
  pub row : ExecutionJob
  pub found : get_row v.id q ≡ some row
  pub attempts : row.attempts ≡ v.attempts
  pub status : row.status ≡ running

started-IsClaimed :
    (id : String) (r : ExecutionJob) (q : Queue) (x : Signal)
    → get_row id q ≡ some r
    → IsClaimed
        (view_of (start_row q.now r))
        (emit x (record q { jobs = update job_id id (start_row q.now) q.jobs }))
unfolding get_row view_of start_row emit
started-IsClaimed id r q x at = record {
  row = start_row q.now r;
  found =
      find-update_self job_id id (start_row q.now) q.jobs (λ y. (SameJob-start_row q.now y).id) at;
  attempts = refl;
  status = refl;
}

guarded_update-IsClaimed :
    (id : String) (o : Option ExecutionJob) (q : Queue) (v : JobView)
    → get_row id q ≡ o
    → (guarded_update id o q).0 ≡ some v
    → IsClaimed v (guarded_update id o q).1
unfolding guarded_update
guarded_update-IsClaimed id none q v at h = cc
guarded_update-IsClaimed id (some r) q v at h = elim (Bool-cases (is_queued r.status)) [
  | inl e ↦
      let same : view_of (start_row q.now r) ≡ v = cc (rw e at h) in
      rw (e, ← same) (started-IsClaimed id r q (claimed_event r.owner id r.kind) at)
  | inr e ↦ cc (rw e at h)
]

-- A claim that wins hands out a view of a row that is running, with its attempt counted.
pub claim_picked-IsClaimed :
    (picked : Option ExecutionJob) (q : Queue) (v : JobView)
    → (claim_picked picked q).0 ≡ some v
    → IsClaimed v (claim_picked picked q).1
unfolding claim_picked
claim_picked-IsClaimed none q v h = cc
claim_picked-IsClaimed (some row) q v h =
    guarded_update-IsClaimed row.id (get_row row.id q) q v refl h

module _ {s : Settings} where
  and_then-Reach :
      (o : Option Queue) (q : Queue) (rest : Queue → Run × Queue)
      → ((q' : Queue) → o ≡ some q' → Reach s q (rest q').1)
      → Reach s q (and_then o q rest).1
  unfolding and_then
  and_then-Reach none q rest h = here
  and_then-Reach (some q') q rest h = h q' refl

  settle-Reach :
      (v : JobView) (status : Status) (progress : Option String) (result : Option Value) (q : Queue)
      (rest : Queue → Run × Queue)
      → ((r : ExecutionJob)
          → get_row v.id q ≡ some r
          → status ≡ queued
          → r.attempts < max_attempts s)
      → ((q' : Queue) → Reach s q q' → Reach s q (rest q').1)
      → Reach s q (and_then (transition v.id status progress result q) q rest).1
  settle-Reach v status progress result q rest room more =
      and_then-Reach (transition v.id status progress result q) q rest
        λ q' e. more q' (transition-Reach v.id status progress result q room e)

  finish_canceled-Reach : (v : JobView) (q : Queue) → Reach s q (finish_canceled v q).1
  unfolding finish_canceled
  finish_canceled-Reach v q =
      settle-Reach v canceled (some "Canceled") (some canceled_result) q
        (λ q'. report v (
          emit (canceled_event v.owner v.id v.kind)
            (emit (canceled_activity v.owner v.actor_account_id v.title) q')))
        (λ r f c. cc)
        λ q' a.
          Reach-emit (canceled_event v.owner v.id v.kind)
            (Reach-emit (canceled_activity v.owner v.actor_account_id v.title) a)

  finish_failed-Reach :
      (v : JobView) (progress : String) (result : Value) (name : String) (q : Queue)
      → Reach s q (finish_failed v progress result name q).1
  unfolding finish_failed
  finish_failed-Reach v progress result name q =
      settle-Reach v failed (some progress) (some result) q
        (λ q'. report v (emit (failed_event v.owner v.id v.kind name) q')) (λ r f c. cc)
        λ q' a. Reach-emit (failed_event v.owner v.id v.kind name) a

  finish_completed-Reach :
      (v : JobView) (result : Value) (q : Queue) → Reach s q (finish_completed v result q).1
  unfolding finish_completed
  finish_completed-Reach v result q =
      settle-Reach v completed (some "Completed") (some result) q
        (λ q'. report v (emit (completed_event v.owner v.id v.kind) q')) (λ r f c. cc)
        λ q' a. Reach-emit (completed_event v.owner v.id v.kind) a

  requeue-Reach :
      (v : JobView) (q : Queue)
      → v.attempts < max_attempts s
      → ((r : ExecutionJob) → get_row v.id q ≡ some r → r.attempts ≡ v.attempts)
      → Reach s q (requeue v q).1
  unfolding requeue
  requeue-Reach v q room alone =
      settle-Reach v queued (some "Retrying") none q (report v) (λ r f _. omega (arith, alone r f))
        λ q' a. a

  after_handler-Reach :
      (v : JobView) (end : HandlerOutcome) (q : Queue)
      → ((r : ExecutionJob) → get_row v.id q ≡ some r → r.attempts ≡ v.attempts)
      → Reach s q (after_handler s v end q).1
  unfolding after_handler
  after_handler-Reach v raised_canceled q alone = finish_canceled-Reach v q
  after_handler-Reach v (raised name message) q alone =
      if_split (λ (p : Run × Queue). Reach s q p.1)
        (ltb v.attempts (max_attempts s) && not (is_cancelled v.id q)) _ _
        (λ room. requeue-Reach v q (ground arith) alone)
        λ _.
          if_both (λ (p : Run × Queue). Reach s q p.1) (is_cancelled v.id q) _ _
            (finish_canceled-Reach v q)
            (finish_failed-Reach v "Failed" (error_result (error_text name message)) name q)
  after_handler-Reach v (returned result) q alone =
      if_both (λ (p : Run × Queue). Reach s q p.1) (is_cancelled v.id q) _ _
        (finish_canceled-Reach v q) (finish_completed-Reach v result q)

  call_handler-Reach :
      (o : Option Handler) (v : JobView) (q : Queue)
      → ((h : Handler) → o ≡ some h → IsHandler s h)
      → IsClaimed v q
      → Reach s q (call_handler s o v q).1
  unfolding call_handler
  call_handler-Reach none v q ok c =
      finish_failed-Reach v "No handler" (error_result (append "no handler for " v.kind))
        "NoHandler" q
  call_handler-Reach (some h) v q ok c = Reach-trans ((ok h refl).steps v q) (
      after_handler-Reach v (h v q).0 (h v q).1
        λ r f. (ok h refl).alone v q c.row r c.found c.attempts f)

  pub run_claimed-Reach :
      (hs : Handlers) (o : Option JobView) (q : Queue)
      → AreHandlers s hs
      → ((v : JobView) → o ≡ some v → IsClaimed v q)
      → Reach s q (run_claimed s hs o q).1
  unfolding run_claimed
  run_claimed-Reach hs none q ok c = here
  run_claimed-Reach hs (some v) q ok c =
      if_both (λ (p : Run × Queue). Reach s q p.1) (is_cancelled v.id q) _ _
        (finish_canceled-Reach v q)
        (call_handler-Reach (handler_for v.kind hs) v q (ok v.kind) (c v refl))

  -- One call of `run_once` is a sequence of steps, if its handlers are.
  pub run_once-Reach :
      (hs : Handlers) (q : Queue) → AreHandlers s hs → Reach s q (run_once s hs q).1
  unfolding run_once claim
  run_once-Reach hs q ok = Reach-trans (claim_picked-Reach (select_next s q.jobs) q) (
      run_claimed-Reach hs (claim s q).0 (claim s q).1 ok
        (claim_picked-IsClaimed (select_next s q.jobs) q))

  -- So is `drain`, however many rounds it makes.
  pub drain-Reach :
      (hs : Handlers) (left : ℕ) (q : Queue) → AreHandlers s hs → Reach s q (drain s hs left q).1
  unfolding drain
  drain-Reach hs zero q ok = here
  drain-Reach hs (suc left) q ok =
      go (run_once s hs q).0 (drain-Reach hs left (run_once s hs q).1 ok)
    where
      go :
          (run : Run)
          → Reach s (run_once s hs q).1 (drain s hs left (run_once s hs q).1).1
          → Reach s q (after_round run (run_once s hs q).1 (drain s hs left (run_once s hs q).1)).1
      go idle more = run_once-Reach hs q ok
      go crashed more = run_once-Reach hs q ok
      go (ran none) more = run_once-Reach hs q ok
      go (ran (some job)) more = Reach-trans (run_once-Reach hs q ok) more
