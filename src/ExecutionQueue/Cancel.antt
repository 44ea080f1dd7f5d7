-- ===== src/ExecutionQueue/Cancel.antt =====
-- `transition` and `request_cancel` of backend/app/execution_queue.py, and the reads `get`, `recent`.
use aira_agent.Base.{
  ℕ, String, Option, none, some, Bool, true, false, not, ◌&&◌, ◌==◌, if◌then◌else◌,
}
use aira_agent.Base.Table.{update}
use aira_agent.ExecutionQueue.Status.{
  Status, cancel_requested, canceled, same_status, is_queued, is_terminal,
}
use aira_agent.ExecutionQueue.Job.{
  ExecutionJob, Value, not_json, JobDict, Queue, canceled_event, canceled_activity, job_id, get_row,
  emit, clean,
}

or_old {ℓ} : {A : Type ℓ} → Option A → Option A → Option A
or_old none old = old
or_old (some new) old = some new

unfoldable pub set_row : Status → Option String → Option Value → ℕ → ExecutionJob → ExecutionJob
unfolding or_old
set_row status progress result now r = record r {
  status = status;
  progress = or_old progress r.progress;
  result_json = or_old result r.result_json;
  updated_at = now;
  finished_at = if is_terminal status then some now else r.finished_at;
}

unfoldable pub write_row : String → (ExecutionJob → ExecutionJob) → Queue → Queue
write_row id f q = record q { jobs = update job_id id f q.jobs }

-- `json.dumps` of the result, if there is one; none is its TypeError
unfoldable pub encode : Option Value → Option (Option Value)
encode (some not_json) = none
encode other = some other

unfoldable pub transition_row :
    Option ExecutionJob → String → Status → Option String → Option Value → Queue → Option Queue
unfolding encode
transition_row none id status progress result q = some q
transition_row (some row) id status progress result q =
    if is_terminal row.status && not (same_status status row.status)
    then some q
    else elim (encode result) [
      | none ↦ none
      | some text ↦ some (write_row id (set_row status progress text q.now) q)
    ]

-- none: `json.dumps` raised, and nothing was committed
unfoldable pub transition : String → Status → Option String → Option Value → Queue → Option Queue
unfolding transition_row
transition id status progress result q = transition_row (get_row id q) id status progress result q

-- The dictionaries that `request_cancel` returns.
pub data CancelReply : Type 0 where
  cancel_not_found : CancelReply
  already_finished : Status → CancelReply
  already_requested canceled_now requested : CancelReply

unfoldable pub cancel_queued : ℕ → ExecutionJob → ExecutionJob
cancel_queued now r = record r {
  status = canceled;
  progress = some "Canceled";
  finished_at = some now;
  updated_at = now;
}

unfoldable pub ask_cancel : ℕ → ExecutionJob → ExecutionJob
ask_cancel now r = record r {
  status = cancel_requested;
  progress = some "Cancel requested";
  updated_at = now;
}

unfoldable pub cancel_owned : ExecutionJob → String → String → Queue → CancelReply × Queue
cancel_owned row owner id q =
    if is_terminal row.status
    then (already_finished row.status, q)
    else if same_status row.status cancel_requested
    then (already_requested, q)
    else if is_queued row.status
    then (
      canceled_now,
      emit (canceled_event owner id row.kind) (
          emit (canceled_activity owner row.actor_account_id row.title)
            (write_row id (cancel_queued q.now) q)),
    )
    else (requested, write_row id (ask_cancel q.now) q)

unfoldable pub cancel_row : Option ExecutionJob → String → String → Queue → CancelReply × Queue
unfolding cancel_owned
cancel_row none owner id q = (cancel_not_found, q)
cancel_row (some row) owner id q =
    if row.owner == owner then cancel_owned row owner id q else (cancel_not_found, q)

unfoldable pub request_cancel : String → String → Queue → CancelReply × Queue
unfolding cancel_row
request_cancel owner id q = cancel_row (get_row id q) owner id q

reply_ok : CancelReply → Bool
reply_ok cancel_not_found = false
reply_ok (already_finished s) = false
reply_ok _ = true

unfoldable pub cancel_request : String → String → Queue → Bool × Queue
unfolding reply_ok
cancel_request owner id q = let (r, q') = request_cancel owner id q in (reply_ok r, q')

unfoldable pub get_owned : Option ExecutionJob → String → Option JobDict
get_owned none owner = none
get_owned (some row) owner = if row.owner == owner then some (clean row) else none

unfoldable pub get : String → String → Queue → Option JobDict
unfolding get_owned
get owner id q = get_owned (get_row id q) owner
