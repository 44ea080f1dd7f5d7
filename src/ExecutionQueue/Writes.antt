-- ===== src/ExecutionQueue/Writes.antt =====
-- What one status write of backend/app/execution_queue.py does, branch by branch.
use aira_agent.Base.{
  String, ◌≡◌, ◌≢◌, refl, Option, some, true, false, not, ◌&&◌, arith, ◌==◌, eq_iff, if◌then◌else◌,
}
use aira_agent.Base.Table.{find-update}
use aira_agent.ExecutionQueue.Status.{
  Status, queued, canceled, cancel_requested, is_terminal, same_status, is_interruptible, is_queued,
}
use aira_agent.ExecutionQueue.Job.{
  ExecutionJob, Value, Queue, job_id, get_row, emit, canceled_event, canceled_activity,
}
use aira_agent.ExecutionQueue.Cancel.{
  transition, transition_row, encode, set_row, write_row, request_cancel, cancel_row, cancel_owned,
  ask_cancel, cancel_queued, CancelReply, cancel_not_found, already_finished, already_requested,
  canceled_now, requested,
}

pub get_row-write_row :
    (id : String) (f : ExecutionJob → ExecutionJob) (q : Queue) {r : ExecutionJob}
    → ((x : ExecutionJob) → (f x).id ≡ x.id)
    → get_row id q ≡ some r
    → get_row id (write_row id f q) ≡ some (f r)
unfolding get_row write_row
get_row-write_row id f q {r} same at =
    ground (arith, find-update job_id id id f q.jobs same, eq_iff id id)

pub get_row-write_row_ne :
    (id j : String) (f : ExecutionJob → ExecutionJob) (q : Queue)
    → ((x : ExecutionJob) → (f x).id ≡ x.id)
    → id ≢ j
    → get_row j (write_row id f q) ≡ get_row j q
unfolding get_row write_row
get_row-write_row_ne id j f q same apart =
    ground (arith, find-update job_id id j f q.jobs same, eq_iff id j)

-- A write that the guard lets through, of a result that JSON can hold.
pub transition_writes :
    (id : String) (status : Status) (progress : Option String) (result text : Option Value)
    (q : Queue) (r : ExecutionJob)
    → get_row id q ≡ some r
    → (is_terminal r.status && not (same_status status r.status)) ≡ false
    → encode result ≡ some text
    → transition id status progress result q
      ≡ some (write_row id (set_row status progress text q.now) q)
unfolding transition transition_row
transition_writes id status progress result text q r at g e = rw at (rw g (rw e refl))

-- The complete answer of `request_cancel` about a job that the owner has, by its status.
abbrev pub cancel_outcome : ExecutionJob → String → String → Queue → CancelReply × Queue
cancel_outcome r owner id q = elim r.status [
  | queued ↦ (
    canceled_now,
    emit (canceled_event owner id r.kind) (
        emit (canceled_activity owner r.actor_account_id r.title)
          (write_row id (cancel_queued q.now) q)),
  )
  | cancel_requested ↦ (already_requested, q)
  | Status.completed ↦ (already_finished Status.completed, q)
  | Status.failed ↦ (already_finished Status.failed, q)
  | canceled ↦ (already_finished canceled, q)
  | _ ↦ (requested, write_row id (ask_cancel q.now) q)
]

-- If a job is in the table, `request_cancel` answers not-found to any scope but its owner's and
-- changes nothing; to its owner it cancels a queued job outright, marks one that is running,
-- validating, repairing or awaiting approval, and answers without a change for one that is over or
-- marked already.
pub request_cancel_by_status :
    (owner id : String) (q : Queue) (r : ExecutionJob)
    → get_row id q ≡ some r
    → request_cancel owner id q
      ≡ (if r.owner == owner then cancel_outcome r owner id q else (cancel_not_found, q))
unfolding request_cancel cancel_row cancel_owned is_terminal same_status is_queued
request_cancel_by_status owner id q r at = rw at (ground arith)

pub request_cancel_busy :
    (owner id : String) (q : Queue) (r : ExecutionJob)
    → get_row id q ≡ some r
    → r.owner ≡ owner
    → is_interruptible r.status ≡ true
    → request_cancel owner id q ≡ (requested, write_row id (ask_cancel q.now) q)
unfolding request_cancel cancel_row cancel_owned is_terminal same_status is_queued is_interruptible
request_cancel_busy owner id q r at mine busy = rw at (ground (arith, eq_iff r.owner owner))
