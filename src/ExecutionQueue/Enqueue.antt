-- ===== src/ExecutionQueue/Enqueue.antt =====
-- `enqueue`, `_enqueue_clone`, `retry` and `replay` of backend/app/execution_queue.py. The id that
-- `uuid4().hex` draws is the argument `new_id`.
use Prim.Native.String.{◌++◌ as append}
use aira_agent.Base.{
  ℕ, String, Option, none, some, ◌∷◌, [], ◌++◌, Bool, ◌&&◌, ◌||◌, ◌==◌, is_text, truthy,
  if◌then◌else◌, first,
}
use aira_agent.JobPolicy.{class_for}
use aira_agent.ExecutionQueue.Status.{Status, queued, is_active, is_retryable}
use aira_agent.ExecutionQueue.Job.{
  ExecutionJob, NewJob, JobDict, Queue, Signal, queued_event, retrying_event, replayed_event,
  retry_activity, get_row, emit, clean,
}

-- The filter that looks for work already in flight under a key.
unfoldable pub in_flight_under : String → String → ExecutionJob → Bool
in_flight_under owner dedup_key r =
    r.owner == owner && is_text r.dedup_key dedup_key && is_active r.status

unfoldable pub in_flight_job : String → String → Queue → Option ExecutionJob
in_flight_job owner dedup_key q = first (in_flight_under owner dedup_key) q.jobs

-- `if dedup_key:` and the query under it
unfoldable pub existing_job : NewJob → Queue → Option ExecutionJob
existing_job a q = elim a.dedup_key [
  | none ↦ none
  | some key ↦ if key == "" then none else in_flight_job a.owner key q
]

-- `title or None`
or_none : Option String → Option String
or_none t = if truthy t then t else none

unfoldable pub new_row : NewJob → String → ℕ → ExecutionJob
unfolding or_none
new_row a new_id now =
    let exec_class = class_for a.kind none in
    record {
      id = new_id;
      owner = a.owner;
      session_id = a.session_id;
      actor_account_id = a.actor_account_id;
      kind = a.kind;
      status = queued;
      exec_class = some exec_class.name;
      priority = exec_class.priority;
      title = or_none a.title;
      progress = some "Queued";
      payload_json = a.payload;
      result_json = none;
      dedup_key = a.dedup_key;
      attempts = 0;
      run_id = a.run_id;
      parent_job_id = none;
      origin = none;
      created_at = now;
      updated_at = now;
      started_at = none;
      finished_at = none;
    }

unfoldable pub insert_row : ExecutionJob → Queue → Queue
insert_row r q = record q { jobs = q.jobs ++ r ∷ [] }

-- the rest of `enqueue`, once the query for work in flight has run
unfoldable pub enqueue_row : Option ExecutionJob → NewJob → String → Queue → Option JobDict × Queue
enqueue_row (some existing) a new_id q = (some (clean existing), q)
enqueue_row none a new_id q =
    let row = new_row a new_id q.now in
    (some (clean row), emit (queued_event a.owner new_id a.kind) (insert_row row q))

unfoldable pub enqueue : NewJob → String → Queue → Option JobDict × Queue
unfolding existing_job enqueue_row
enqueue a new_id q =
    if a.owner == "" || a.kind == "" then (none, q) else enqueue_row (existing_job a q) a new_id q

unfoldable pub clone_row : ExecutionJob → String → String → String → ℕ → ExecutionJob
clone_row parent origin dedup_key new_id now =
    let exec_class = class_for parent.kind (some origin) in
    record {
      id = new_id;
      owner = parent.owner;
      session_id = parent.session_id;
      actor_account_id = parent.actor_account_id;
      kind = parent.kind;
      status = queued;
      exec_class = some exec_class.name;
      priority = exec_class.priority;
      title = parent.title;
      progress = some "Queued";
      payload_json = parent.payload_json;
      result_json = none;
      dedup_key = some dedup_key;
      attempts = 0;
      run_id = none;
      parent_job_id = some parent.id;
      origin = some origin;
      created_at = now;
      updated_at = now;
      started_at = none;
      finished_at = none;
    }

clone_event : String → String → ExecutionJob → Signal
clone_event origin new_id parent =
    if origin == "retry"
    then retrying_event parent.owner new_id parent.kind parent.id
    else replayed_event parent.owner new_id parent.kind parent.id

unfoldable pub enqueue_clone_row :
    Option ExecutionJob → ExecutionJob → String → String → String → Queue → JobDict × Queue
unfolding clone_event
enqueue_clone_row (some existing) parent origin dedup_key new_id q = (clean existing, q)
enqueue_clone_row none parent origin dedup_key new_id q =
    let row = clone_row parent origin dedup_key new_id q.now in
    (clean row, emit (clone_event origin new_id parent) (insert_row row q))

-- `_enqueue_clone`: `parent` carries the fields that `retry` and `replay` read off the row.
unfoldable pub enqueue_clone : ExecutionJob → String → String → String → Queue → JobDict × Queue
unfolding enqueue_clone_row
enqueue_clone parent origin dedup_key new_id q =
    enqueue_clone_row (in_flight_job parent.owner dedup_key q) parent origin dedup_key new_id q

-- The dictionaries that `retry` returns.
pub data RetryReply : Type 0 where
  retry_not_found : RetryReply
  not_failed : Status → RetryReply
  retried : JobDict → RetryReply

unfoldable pub retry_found :
    Option ExecutionJob → String → String → String → Queue → RetryReply × Queue
retry_found none owner id new_id q = (retry_not_found, q)
retry_found (some row) owner id new_id q =
    if row.owner == owner
    then if is_retryable row.status
      then (let (job, q') = enqueue_clone row "retry" (append "retry:" id) new_id q in
          (retried job, emit (retry_activity owner row.actor_account_id row.title) q'))
      else (not_failed row.status, q)
    else (retry_not_found, q)

unfoldable pub retry : String → String → String → Queue → RetryReply × Queue
unfolding retry_found
retry owner id new_id q = retry_found (get_row id q) owner id new_id q

unfoldable pub replay_key : String → String → String
replay_key id requested_by = append "replay:" (append id (append ":" requested_by))

unfoldable pub replay_found :
    Option ExecutionJob → String → String → String → Queue → Option JobDict × Queue
replay_found none id requested_by new_id q = (none, q)
replay_found (some row) id requested_by new_id q =
    let (job, q') = enqueue_clone row "replay" (replay_key id requested_by) new_id q in
    (some job, q')

unfoldable pub replay : String → String → String → Queue → Option JobDict × Queue
unfolding replay_found
replay id requested_by new_id q = replay_found (get_row id q) id requested_by new_id q
