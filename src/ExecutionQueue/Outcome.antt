-- ===== src/ExecutionQueue/Outcome.antt =====
-- How a run of backend/app/execution_queue.py ends: the row that `run_once` leaves for each way that
-- a handler ends.
use aira_agent.Base.{
  ℕ, String, ◌≡◌, refl, ◌∙◌, Option, none, some, false, if◌then◌else◌, ltb, inl, inr, Bool-cases,
}
use aira_agent.JobPolicy.{Settings}
use aira_agent.ExecutionQueue.Status.{
  Status, queued, completed, failed, canceled, is_terminal, is_cancel,
}
use aira_agent.ExecutionQueue.Job.{
  ExecutionJob, Value, error_result, canceled_result, JobView, Queue, get_row, get_raw, emit, clean,
  canceled_event, canceled_activity, failed_event, completed_event,
}
use aira_agent.ExecutionQueue.Cancel.{transition, encode, set_row}
use aira_agent.ExecutionQueue.Worker.{
  HandlerOutcome, returned, raised_canceled, raised, Run, ran, max_attempts, and_then, report,
  finish_canceled, finish_failed, finish_completed, requeue, after_handler, error_text,
}
use aira_agent.ExecutionQueue.Writes.{get_row-write_row, transition_writes}
use aira_agent.ExecutionQueue.Race.{is_cancelled_row}

-- The row of a job once its handler has ended, as the documentation of the queue has it: an honoured
-- cancel, a completion, a retry while attempts are left, an honest failure.
abbrev pub ended_row : Settings → JobView → HandlerOutcome → ℕ → ExecutionJob → ExecutionJob
ended_row s v raised_canceled now r =
    set_row canceled (some "Canceled") (some canceled_result) now r
ended_row s v (returned result) now r =
    if is_cancel r.status
    then set_row canceled (some "Canceled") (some canceled_result) now r
    else set_row completed (some "Completed") (some result) now r
ended_row s v (raised name message) now r =
    if is_cancel r.status
    then set_row canceled (some "Canceled") (some canceled_result) now r
    else if ltb v.attempts (max_attempts s)
    then set_row queued (some "Retrying") none now r
    else set_row failed (some "Failed") (some (error_result (error_text name message))) now r

-- The run is reported as the row that it left.
abbrev pub Ends : JobView → Run × Queue → ExecutionJob → Type 0
Ends v p r = (get_row v.id p.1 ≡ some r) × (p.0 ≡ ran (some (clean r)))

-- A handler's result that JSON can hold; an exception has none.
abbrev pub IsEncodable : HandlerOutcome → Type 0
IsEncodable (returned result) = encode (some result) ≡ some (some result)
IsEncodable _ = Unit {0}

module _ (v : JobView) (q : Queue) (r : ExecutionJob) (at : get_row v.id q ≡ some r)
    (live : is_terminal r.status ≡ false) where
  settled :
      (status : Status) (progress : Option String) (result text : Option Value)
      (more : Queue → Queue)
      → ((t : Queue) → get_row v.id (more t) ≡ get_row v.id t)
      → encode result ≡ some text
      → Ends v
          (and_then (transition v.id status progress result q) q (λ t. report v (more t)))
          (set_row status progress text q.now r)
  unfolding and_then report get_raw
  settled status progress result text more same e =
      rw (transition_writes v.id status progress result text q r at (rw live refl) e) (
        let left =
          same _
          ∙ get_row-write_row v.id (set_row status progress text q.now) q
              (λ x. unfold set_row in refl) at in
        (left, rw left refl))

  canceled-Ends :
      Ends v
        (finish_canceled v q)
        (set_row canceled (some "Canceled") (some canceled_result) q.now r)
  unfolding finish_canceled
  canceled-Ends =
      settled canceled (some "Canceled") (some canceled_result) (some canceled_result)
        (λ t.
          emit (canceled_event v.owner v.id v.kind)
            (emit (canceled_activity v.owner v.actor_account_id v.title) t))
        (λ t. unfold emit get_row in refl) (unfold encode in refl)

  failed-Ends :
      (progress message name : String)
      → Ends v
          (finish_failed v progress (error_result message) name q)
          (set_row failed (some progress) (some (error_result message)) q.now r)
  unfolding finish_failed
  failed-Ends progress message name =
      settled failed (some progress) (some (error_result message)) (some (error_result message))
        (emit (failed_event v.owner v.id v.kind name)) (λ t. unfold emit get_row in refl)
        (unfold encode in refl)

  completed-Ends :
      (result : Value)
      → encode (some result) ≡ some (some result)
      → Ends v
          (finish_completed v result q)
          (set_row completed (some "Completed") (some result) q.now r)
  unfolding finish_completed
  completed-Ends result e =
      settled completed (some "Completed") (some result) (some result)
        (emit (completed_event v.owner v.id v.kind)) (λ t. unfold emit get_row in refl) e

  requeued-Ends : Ends v (requeue v q) (set_row queued (some "Retrying") none q.now r)
  unfolding requeue
  requeued-Ends =
      settled queued (some "Retrying") none none (λ t. t) (λ t. refl) (unfold encode in refl)

  -- If the job of a view is in the table and not over, and the handler's result, if it returned
  -- one, is one that JSON can hold, then the run ends without an exception and leaves, and reports,
  -- the row canceled where a cancel is on record or the handler bailed, completed with the result,
  -- queued again while attempts are left, and failed with the error otherwise.
  pub after_handler-Ends :
      (s : Settings) (end : HandlerOutcome)
      → IsEncodable end
      → Ends v (after_handler s v end q) (ended_row s v end q.now r)
  unfolding after_handler
  after_handler-Ends s raised_canceled ok = canceled-Ends
  after_handler-Ends s (returned result) ok =
      rw (is_cancelled_row v.id q r at) (elim (Bool-cases (is_cancel r.status)) [
        | inl c ↦ rw c canceled-Ends
        | inr c ↦ rw c (completed-Ends result ok)
      ])
  after_handler-Ends s (raised name message) ok =
      rw (is_cancelled_row v.id q r at) (elim (Bool-cases (is_cancel r.status)) [
        | inl c ↦ rw c (elim (Bool-cases (ltb v.attempts (max_attempts s))) [
          | inl left ↦ rw left canceled-Ends
          | inr spent ↦ rw spent canceled-Ends
        ])
        | inr c ↦ rw c (elim (Bool-cases (ltb v.attempts (max_attempts s))) [
          | inl left ↦ rw left requeued-Ends
          | inr spent ↦ rw spent (failed-Ends "Failed" (error_text name message) name)
        ])
      ])
