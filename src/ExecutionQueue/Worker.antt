-- ===== src/ExecutionQueue/Worker.antt =====
-- `run_once` and `drain` of backend/app/execution_queue.py. A handler is a parameter: it sees a view
-- of its job and may change the queue, as other processes may while it runs.
use aira_agent.Base.{
  ℕ, zero, suc, ◌+◌, String, Option, none, some, List, ◌∷◌, [], not, ◌&&◌, ◌==◌, ltb, if◌then◌else◌,
}
use aira_agent.Base.Int.{at_least}
use aira_agent.Base.Text.{take_text}
use Prim.Native.String.{◌++◌ as append}
use aira_agent.JobPolicy.{Settings}
use aira_agent.ExecutionQueue.Status.{queued, completed, failed, canceled}
use aira_agent.ExecutionQueue.Job.{
  Value, error_result, canceled_result, JobView, JobDict, Queue, failed_event, canceled_event,
  completed_event, canceled_activity, emit, is_cancelled, get_raw,
}
use aira_agent.ExecutionQueue.Claim.{claim}
use aira_agent.ExecutionQueue.Cancel.{transition}

-- How a handler ends: it returns a result, raises JobCanceled, or raises another exception, given
-- by its class's name and its text.
pub data HandlerOutcome : Type 0 where
  returned : Value → HandlerOutcome
  raised_canceled : HandlerOutcome
  raised : (name message : String) → HandlerOutcome

abbrev pub Handler : Type 0
Handler = JobView → Queue → HandlerOutcome × Queue

abbrev pub Handlers : Type 0
Handlers = List (String × Handler)

-- self._handlers[kind] = handler
unfoldable pub register_handler : String → Handler → Handlers → Handlers
register_handler kind h [] = (kind, h) ∷ []
register_handler kind h ((k, g) ∷ hs) =
    if k == kind then (k, h) ∷ hs else (k, g) ∷ register_handler kind h hs

-- self._handlers.get(kind)
unfoldable pub handler_for : String → Handlers → Option Handler
handler_for kind [] = none
handler_for kind ((k, h) ∷ hs) = if k == kind then some h else handler_for kind hs

-- What one call of `run_once` comes to: nothing to claim, an exception that leaves it, or the
-- dictionary of the job that ran.
pub data Run : Type 0 where
  idle crashed : Run
  ran : Option JobDict → Run

-- max(1, settings.job_max_attempts)
abbrev pub max_attempts : Settings → ℕ
max_attempts s = at_least 1 s.job_max_attempts

-- `self.transition(...)`, then the rest of the branch, which an exception skips
unfoldable pub and_then : Option Queue → Queue → (Queue → Run × Queue) → Run × Queue
and_then none q rest = (crashed, q)
and_then (some q') q rest = rest q'

unfoldable pub report : JobView → Queue → Run × Queue
report view q = (ran (get_raw view.id q), q)

-- `_finish_canceled`, and the return of the job's dictionary
unfoldable pub finish_canceled : JobView → Queue → Run × Queue
unfolding and_then report
finish_canceled view q =
    and_then (transition view.id canceled (some "Canceled") (some canceled_result) q) q λ q'.
      report view (
        emit (canceled_event view.owner view.id view.kind)
          (emit (canceled_activity view.owner view.actor_account_id view.title) q'))

unfoldable pub finish_failed : JobView → String → Value → String → Queue → Run × Queue
unfolding and_then report
finish_failed view progress result failure_class q =
    and_then (transition view.id failed (some progress) (some result) q) q
      λ q'. report view (emit (failed_event view.owner view.id view.kind failure_class) q')

unfoldable pub finish_completed : JobView → Value → Queue → Run × Queue
unfolding and_then report
finish_completed view result q =
    and_then (transition view.id completed (some "Completed") (some result) q) q
      λ q'. report view (emit (completed_event view.owner view.id view.kind) q')

unfoldable pub requeue : JobView → Queue → Run × Queue
unfolding and_then report
requeue view q = and_then (transition view.id queued (some "Retrying") none q) q (report view)

unfoldable pub error_text : String → String → String
error_text name message = take_text 300 (append name (append ": " message))

-- What follows the call of the handler: its `except` clauses, and checkpoint 2.
unfoldable pub after_handler : Settings → JobView → HandlerOutcome → Queue → Run × Queue
unfolding finish_canceled finish_failed finish_completed requeue error_text
after_handler s view raised_canceled q = finish_canceled view q
after_handler s view (raised name message) q =
    if ltb view.attempts (max_attempts s) && not (is_cancelled view.id q)
    then requeue view q
    else if is_cancelled view.id q
    then finish_canceled view q
    else finish_failed view "Failed" (error_result (error_text name message)) name q
after_handler s view (returned result) q =
    if is_cancelled view.id q then finish_canceled view q else finish_completed view result q

unfoldable pub call_handler : Settings → Option Handler → JobView → Queue → Run × Queue
unfolding after_handler finish_failed
call_handler s none view q =
    finish_failed view "No handler" (error_result (append "no handler for " view.kind)) "NoHandler"
      q
call_handler s (some h) view q = let (end, q') = h view q in after_handler s view end q'

unfoldable pub run_claimed : Settings → Handlers → Option JobView → Queue → Run × Queue
unfolding call_handler finish_canceled
run_claimed s handlers none q = (idle, q)
run_claimed s handlers (some view) q =
    if is_cancelled view.id q
    then finish_canceled view q
    else call_handler s (handler_for view.kind handlers) view q

unfoldable pub run_once : Settings → Handlers → Queue → Run × Queue
unfolding run_claimed
run_once s handlers q = let (view, q') = claim s q in run_claimed s handlers view q'

-- How `drain` ends: its count, or an exception of `run_once`.
pub data Drained : Type 0 where
  drained : ℕ → Drained
  drain_crashed : Drained

abbrev pub one_more : Drained → Drained
one_more (drained n) = drained (n + 1)
one_more drain_crashed = drain_crashed

-- What a round of the loop makes of its run: the loop stops, or goes on with `rest`.
unfoldable pub after_round : Run → Queue → Drained × Queue → Drained × Queue
after_round idle q rest = (drained 0, q)
after_round crashed q rest = (drain_crashed, q)
after_round (ran none) q rest = (drained 0, q)
after_round (ran (some job)) q rest = (one_more rest.0, rest.1)

-- `while ran < max_jobs and self.run_once() is not None`, on the rounds that are left
unfoldable pub drain : Settings → Handlers → ℕ → Queue → Drained × Queue
unfolding after_round
drain s handlers zero q = (drained 0, q)
drain s handlers (suc left) q =
    let (run, q') = run_once s handlers q in
    let rest = drain s handlers left q' in after_round run q' rest
