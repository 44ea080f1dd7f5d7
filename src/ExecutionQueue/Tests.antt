-- ===== src/ExecutionQueue/Tests.antt =====
-- Runs of the queue at concrete tables, and the theorems at those.
use mathlib.Core.List.{Memᴰ}
use mathlib.Core.Path.{subst}
use aira_agent.Base.{
  ℕ, ◌≤◌, ◌<◌, String, ◌≡◌, refl, none, some, [], ◌∷◌, true, false, arith, ◌==◌, eq_iff, tally, All,
  inl, inr, Bool-cases, tally-le-length, keep, best, Option,
}
use aira_agent.Base.Int.{pos}
use aira_agent.Base.Table.{find, update}
use aira_agent.JobPolicy.{
  Settings, artifact, concurrency_cap, per_owner_cap, blocked_classes, blocked_owners, contains,
  count_of, bump,
}
use aira_agent.ExecutionQueue.Status.{
  queued, running, validating, failed, is_queued, is_terminal, is_interruptible, is_cancel,
  same_status,
}
use aira_agent.ExecutionQueue.Job.{
  ExecutionJob, NewJob, outcome, JobView, Queue, job_id, get_row, get_raw, emit, view_of,
  is_cancelled, Value,
}
use aira_agent.ExecutionQueue.Enqueue.{enqueue, retry, replay, in_flight_under, retry_not_found}
use aira_agent.ExecutionQueue.Claim.{
  claim, claim_picked, select_next, eligible, occupies, class_key, owner_key, count_from,
  class_counts, owner_counts, scheduled_before, start_row,
}
use aira_agent.ExecutionQueue.Cancel.{
  transition, set_row, write_row, request_cancel, cancel_not_found, get, encode,
}
use aira_agent.ExecutionQueue.Worker.{
  returned, raised, Handler, Handlers, handler_for, run_once, drained, drain, after_handler,
}
use aira_agent.ExecutionQueue.Lifecycle.{Reach, here, Linked, AllBounded, at_row}
use aira_agent.ExecutionQueue.Runs.{IsHandler, AreHandlers}
use aira_agent.ExecutionQueue.Dedup.{IsDeduped, in_flight_count, enqueue_again}
use aira_agent.ExecutionQueue.Scheduling.{
  IsKeyed, IsNext, claim-IsNext, claim_idle, class_load, owner_load,
}
use aira_agent.ExecutionQueue.Caps.{claim_class_cap, claim_owner_cap}
use aira_agent.ExecutionQueue.Race.{winners, winners-le_one, lost_cancel}
use aira_agent.ExecutionQueue.Outcome.{Ends, ended_row, after_handler-Ends}
use aira_agent.ExecutionQueue.Drain.{operations-Reach, drain_keeps, drain_stops, or_same}
use aira_agent.ExecutionQueue.Retry.{other_scope_sees_nothing}

abbrev settings : Settings
settings = record {
  queue_concurrency = λ name. none;
  queue_per_owner_inflight_cap = pos 3;
  queue_scheduling_enabled = true;
  job_max_attempts = pos 2;
}

abbrev report_job : NewJob
report_job = record {
  owner = "account:1";
  kind = "artifact";
  payload = "{}";
  session_id = none;
  actor_account_id = none;
  title = some "Report";
  dedup_key = some "run-1";
  run_id = none;
}

abbrev empty : Queue
empty = record { jobs = []; signals = []; now = 5 }

abbrev waiting_row : ExecutionJob
waiting_row = record {
  id = "j1";
  owner = "account:1";
  session_id = none;
  actor_account_id = none;
  kind = "artifact";
  status = queued;
  exec_class = some "artifact";
  priority = 50;
  title = some "Report";
  progress = some "Queued";
  payload_json = "{}";
  result_json = none;
  dedup_key = some "run-1";
  attempts = 0;
  run_id = none;
  parent_job_id = none;
  origin = none;
  created_at = 5;
  updated_at = 5;
  started_at = none;
  finished_at = none;
}

abbrev busy_row : ExecutionJob
busy_row = record waiting_row { status = running; attempts = 1 }

abbrev failed_row : ExecutionJob
failed_row = record waiting_row { status = failed; attempts = 2 }

abbrev with_row : ExecutionJob → Queue
with_row r = record { jobs = r ∷ []; signals = []; now = 9 }

-- A handler that changes nothing and returns a result.
abbrev builder : Handler
builder v q = (returned (outcome "{\"title\": \"Report\"}"), q)

abbrev handlers : Handlers
handlers = ("artifact", builder) ∷ []

-- A handler that always fails.
abbrev breaker : Handler
breaker v q = (raised "RuntimeError" "boom", q)

builder-IsHandler : IsHandler settings builder
builder-IsHandler = record {
  steps = λ v q. here;
  alone = λ v q r r' f a g. at_row (λ z. z.attempts ≡ v.attempts) f g a;
}

handlers_ok : AreHandlers settings handlers
unfolding handler_for
handlers_ok kind h e = elim (Bool-cases ("artifact" == kind)) [
  | inl t ↦
      (let same : builder ≡ h = cc (rw t at e) in subst (IsHandler settings) same builder-IsHandler)
  | inr f ↦ absurd (cc (rw f at e))
]

-- The job is claimed, runs, and completes; one job ran.
drain_runs : (drain settings handlers 5 (with_row waiting_row)).0 ≡ drained 1
unfolding drain run_once claim claim_picked select_next eligible occupies class_key count_from
    class_counts owner_counts scheduled_before start_row blocked_classes blocked_owners contains
    count_of bump keep best find update get_row emit view_of is_cancelled is_cancel is_queued
    is_interruptible handler_for transition set_row write_row encode is_terminal same_status get_raw
    concurrency_cap per_owner_cap after_handler owner_key
drain_runs = refl

-- Two failing attempts, and then an honest failure.
breaker_fails : (drain settings (("artifact", breaker) ∷ []) 5 (with_row waiting_row)).0 ≡ drained 2
unfolding drain run_once claim claim_picked select_next eligible occupies class_key count_from
    class_counts owner_counts scheduled_before start_row blocked_classes blocked_owners contains
    count_of bump keep best find update get_row emit view_of is_cancelled is_cancel is_queued
    is_interruptible handler_for transition set_row write_row encode is_terminal same_status get_raw
    concurrency_cap per_owner_cap after_handler owner_key
breaker_fails = refl

operations-Reach_example :
    (let q = with_row waiting_row in
      ((a : NewJob) (id : String) → Reach settings q (enqueue a id q).1)
      × ((owner id new_id : String) → Reach settings q (retry owner id new_id q).1)
      × ((id by new_id : String) → Reach settings q (replay id by new_id q).1)
      × ((owner id : String) → Reach settings q (request_cancel owner id q).1)
      × ((progress : Option String) (result : Option Value)
          → Reach settings q (or_same (transition waiting_row.id queued progress result q) q))
      × Reach settings q (claim settings q).1
      × Reach settings q (run_once settings handlers q).1
      × ((left : ℕ) → Reach settings q (drain settings handlers left q).1))
unfolding get_row find
operations-Reach_example =
    operations-Reach settings handlers (with_row waiting_row) waiting_row.id queued handlers_ok
      (λ r f _. ground (arith, f))

waiting_bounded : AllBounded settings (with_row waiting_row)
waiting_bounded = omega arith

waiting-IsDeduped : IsDeduped (with_row waiting_row)
unfolding in_flight_count
waiting-IsDeduped owner key full = tally-le-length (in_flight_under owner key) (waiting_row ∷ [])

drain_keeps_example :
    (let q' = (drain settings handlers 5 (with_row waiting_row)).1 in
      Linked (with_row waiting_row) q' × AllBounded settings q' × IsDeduped q')
drain_keeps_example =
    drain_keeps settings handlers 5 (with_row waiting_row) handlers_ok waiting_bounded
      waiting-IsDeduped

drain_stops_example :
    (1 ≤ 5)
    × (1 < 5 → (claim settings (drain settings handlers 5 (with_row waiting_row)).1).0 ≡ none)
drain_stops_example =
    drain_stops settings handlers 5 1 (with_row waiting_row) handlers_ok drain_runs

enqueue_again_example :
    enqueue report_job "b" (enqueue report_job "a" empty).1 ≡ enqueue report_job "a" empty
enqueue_again_example =
    enqueue_again report_job "a" "b" "run-1" empty refl (λ e. ground (arith, eq_iff "run-1" ""))

waiting-IsKeyed : IsKeyed (with_row waiting_row).jobs
unfolding find
waiting-IsKeyed = (refl, tt)

abbrev won : JobView
won = view_of (start_row 9 waiting_row)

waiting_claimed : (claim settings (with_row waiting_row)).0 ≡ some won
unfolding claim claim_picked select_next eligible occupies class_key count_from class_counts
    owner_counts scheduled_before start_row blocked_classes blocked_owners contains count_of bump
    keep best find update get_row emit view_of is_queued is_interruptible concurrency_cap
    per_owner_cap owner_key
waiting_claimed = refl

claim-IsNext_example :
    (r : ExecutionJob) × IsNext settings (with_row waiting_row).jobs r
    × (won ≡ view_of (start_row 9 r))
    × ((claim settings (with_row waiting_row)).1.jobs
        ≡ update job_id r.id (start_row 9) (with_row waiting_row).jobs)
claim-IsNext_example =
    claim-IsNext settings (with_row waiting_row) refl waiting-IsKeyed won waiting_claimed

busy-IsKeyed : IsKeyed (with_row busy_row).jobs
unfolding find
busy-IsKeyed = (refl, tt)

busy_idle : (claim settings (with_row busy_row)).0 ≡ none
unfolding claim claim_picked select_next eligible occupies class_key count_from class_counts
    owner_counts scheduled_before start_row blocked_classes blocked_owners contains count_of bump
    keep best find update get_row emit view_of is_queued is_interruptible concurrency_cap
    per_owner_cap owner_key
busy_idle = refl

claim_idle_example :
    All (λ x. eligible settings (with_row busy_row).jobs x ≡ false) (with_row busy_row).jobs
claim_idle_example = claim_idle settings (with_row busy_row) refl busy-IsKeyed busy_idle

claim_class_cap_example :
    class_load "artifact" (claim settings (with_row waiting_row)).1.jobs
    ≤ concurrency_cap artifact settings
unfolding class_load concurrency_cap tally occupies class_key is_interruptible
claim_class_cap_example =
    claim_class_cap settings (with_row waiting_row) refl waiting-IsKeyed artifact
      (Memᴰ.tail (Memᴰ.head refl)) (omega arith) (omega arith)

claim_owner_cap_example :
    owner_load "account:1" (claim settings (with_row waiting_row)).1.jobs ≤ per_owner_cap settings
unfolding owner_load per_owner_cap tally occupies owner_key is_interruptible
claim_owner_cap_example =
    claim_owner_cap settings (with_row waiting_row) refl waiting-IsKeyed "account:1" (omega arith)

winners-le_one_example : winners 3 waiting_row (with_row waiting_row) ≤ 1
winners-le_one_example = winners-le_one 3 waiting_row (with_row waiting_row)

lost_cancel_example :
    (is_cancelled "j1" (request_cancel "account:1" "j1" (with_row busy_row)).1 ≡ true)
    × (q2 : Queue) × (transition "j1" validating
          (some "Generating & validating")
          none
          (request_cancel "account:1" "j1" (with_row busy_row)).1
        ≡ some q2)
    × (is_cancelled "j1" q2 ≡ false)
unfolding get_row find is_interruptible is_cancel
lost_cancel_example =
    lost_cancel "account:1" "j1" (with_row busy_row) busy_row refl refl refl validating
      (some "Generating & validating") refl

abbrev busy_view : JobView
busy_view = view_of busy_row

after_handler-Ends_example :
    Ends busy_view
      (after_handler settings busy_view (raised "RuntimeError" "boom") (with_row busy_row))
      (ended_row settings busy_view (raised "RuntimeError" "boom") 9 busy_row)
unfolding get_row find is_terminal view_of
after_handler-Ends_example =
    after_handler-Ends busy_view (with_row busy_row) busy_row refl refl settings
      (raised "RuntimeError" "boom") tt

other_scope_sees_nothing_example :
    (get "account:2" "j1" (with_row busy_row) ≡ none)
    × (request_cancel "account:2" "j1" (with_row busy_row) ≡ (cancel_not_found, with_row busy_row))
    × (retry "account:2" "j1" "j2" (with_row busy_row) ≡ (retry_not_found, with_row busy_row))
other_scope_sees_nothing_example =
    other_scope_sees_nothing "account:2" "j1" "j2" (with_row busy_row)
      (unfold get_row find in λ r f e. ground (arith, eq_iff "account:1" "account:2"))
