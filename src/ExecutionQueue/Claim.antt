-- ===== src/ExecutionQueue/Claim.antt =====
-- `claim` of backend/app/execution_queue.py, in its two halves: the query that picks a row from one
-- state of the table, and the guarded UPDATE, which may meet a later state.
use aira_agent.Base.{
  ℕ, ◌+◌, String, Option, none, some, List, ◌∷◌, [], Bool, true, not, ◌&&◌, ◌||◌, ltb, leb, eqb,
  if◌then◌else◌, or_text, keep, best,
}
use aira_agent.Base.Table.{update}
use aira_agent.JobPolicy.{Settings, Counts, bump, blocked_classes, blocked_owners, contains}
use aira_agent.ExecutionQueue.Status.{running, is_queued, is_interruptible}
use aira_agent.ExecutionQueue.Job.{
  ExecutionJob, JobView, Queue, claimed_event, job_id, get_row, emit, view_of,
}

-- The statuses that the count of slots in use goes by.
unfoldable pub occupies : ExecutionJob → Bool
occupies r = is_interruptible r.status

unfoldable pub class_key : ExecutionJob → String
class_key r = or_text r.exec_class ""

-- The loop that fills `class_counts`, and the one that fills `owner_counts`.
unfoldable pub count_from : (ExecutionJob → String) → List ExecutionJob → Counts → Counts
count_from key [] counts = counts
count_from key (r ∷ rs) counts = count_from key rs (bump (key r) counts)

unfoldable pub owner_key : ExecutionJob → String
owner_key r = r.owner

unfoldable pub class_counts : List ExecutionJob → Counts
class_counts rows = count_from class_key (keep occupies rows) []

unfoldable pub owner_counts : List ExecutionJob → Counts
owner_counts rows = count_from owner_key (keep occupies rows) []

-- exec_class IS NULL OR exec_class NOT IN blocked
class_allowed : Option String → List String → Bool
class_allowed none blocked = true
class_allowed (some c) blocked = not (contains c blocked)

unfoldable pub eligible : Settings → List ExecutionJob → ExecutionJob → Bool
unfolding class_allowed
eligible s rows r =
    is_queued r.status
    && class_allowed r.exec_class (blocked_classes (class_counts rows) s)
    && not (contains r.owner (blocked_owners (owner_counts rows) s))

-- ORDER BY created_at ASC
unfoldable pub created_before : ExecutionJob → ExecutionJob → Bool
created_before a b = leb a.created_at b.created_at

-- ORDER BY priority DESC, created_at ASC
unfoldable pub scheduled_before : ExecutionJob → ExecutionJob → Bool
scheduled_before a b =
    ltb b.priority a.priority || eqb a.priority b.priority && leb a.created_at b.created_at

queued_row : ExecutionJob → Bool
queued_row r = is_queued r.status

unfoldable pub select_next : Settings → List ExecutionJob → Option ExecutionJob
unfolding queued_row
select_next s rows =
    if s.queue_scheduling_enabled
    then best scheduled_before (keep (eligible s rows) rows)
    else best created_before (keep queued_row rows)

unfoldable pub start_row : ℕ → ExecutionJob → ExecutionJob
start_row now r = record r {
  status = running;
  started_at = some now;
  updated_at = now;
  progress = some "Working";
  attempts = r.attempts + 1;
}

-- UPDATE ... WHERE id = picked AND status = 'queued', on the row that has the id by then
unfoldable pub guarded_update : String → Option ExecutionJob → Queue → Option JobView × Queue
guarded_update id none q = (none, q)
guarded_update id (some r) q =
    if is_queued r.status
    then (
      some (view_of (start_row q.now r)),
      emit (claimed_event r.owner id r.kind)
          (record q { jobs = update job_id id (start_row q.now) q.jobs }),
    )
    else (none, q)

-- The second half of `claim`, in the state that the table has by then.
unfoldable pub claim_picked : Option ExecutionJob → Queue → Option JobView × Queue
unfolding guarded_update
claim_picked none q = (none, q)
claim_picked (some row) q = guarded_update row.id (get_row row.id q) q

unfoldable pub claim : Settings → Queue → Option JobView × Queue
claim s q = claim_picked (select_next s q.jobs) q
