-- ===== src/Lib.antt =====
-- AIRA-X backend: a background execution queue with its scheduling policy, the operational policy that
-- classifies its jobs, the incident ledger that the alerts feed, and the roles of shared workspaces.
--
-- The parts and how they meet. The queue (ExecutionQueue) keeps a table of jobs; workers claim jobs
-- under the caps of the scheduling policy (JobPolicy), run a handler and write the outcome. The
-- operational policy (OpsPolicy) reads the same table and turns it into alerts. The incident ledger
-- (Incidents) opens, bumps and recovers incidents by the signals of the alerts, and gives the routing
-- of alerts the signals that an operator has silenced. Workspaces keep members with roles, and
-- authorization (Authz) turns a role into a decision. Webhooks routes the same alerts to the
-- destinations that operators configure, but for the signals that the incident ledger has silenced, and
-- delivers them with retries, cooldown and redrive. IncidentSync mirrors the transitions of incidents
-- to external systems under the policies of their targets, and IncidentMetrics sums them up. Apart from
-- these, GuidedFlows keeps the steps of a conversation that wait for an approval, and UsageLimits the
-- quotas.
--
-- Files and code:
-- - JobPolicy: backend/app/job_policy.py, a definition for each function. `getattr(settings,
--   "queue_concurrency_...")` is a function of the class's name in the record Settings.
-- - ExecutionQueue: backend/app/execution_queue.py and ExecutionJob of backend/app/db/models.py.
--   Status and Job hold the data, Enqueue has enqueue, _enqueue_clone, retry and replay, Claim
--   has claim, Cancel has transition, request_cancel and get, Worker has run_once and drain,
--   Reads has recent. The other files hold proofs: Lifecycle the step relation and what it keeps,
--   Refine and Runs that each operation is a sequence of steps, Dedup, Scheduling, Caps, Writes,
--   Race, Outcome, Drain and Retry one subject each.
-- - Incidents: backend/app/incidents.py with OperatorIncident of backend/app/db/models.py. Row
--   holds the data and _clean, Observe has observe, recover_stale and silenced_signals, Actions
--   has _apply and the operator's actions, Reads the reads. Ledger, Sound, Silence, Sweep, Commit
--   and Exact hold proofs.
-- - OpsPolicy: backend/app/ops_policy.py, with scope_of and failure_class_of of
--   backend/app/observability.py. Classify has the verdict on one job, Health the snapshot and
--   the alerts; Verdicts and Alerts hold proofs.
-- - Authz: backend/app/authz.py. Workspaces: backend/app/workspaces.py.
-- - Base: numbers, texts, lists, tables and sorting that the parts share.
-- - UsageLimits: backend/app/usage_limits.py; Quota holds proofs.
-- - AgentWorkflow: the agents of backend/agents that decide without a language model, on the state of
--   backend/schemas/aira_state.py. State has the data, Decision the decision and reflection agents,
--   Validation the validation agent, Gates the safety and approval agents, Loop the loop of
--   backend/graph/aira_workflow.py; Stops, Budget and Retries hold proofs, and Gates does too.
-- - Webhooks: backend/app/webhooks.py with its three tables of backend/app/db/models.py. Row has the
--   data and the adapters, Decision the routing decision, Destinations and Configure the
--   configuration, Occurrences, Routing and Preview the routing, Delivery the worker step, Redrive
--   the recovery, Reads and Health the reads. Ledger is the step relation of all operations; the
--   other files hold proofs, one subject each.
-- - GuidedFlows: backend/app/guided_flow_store.py. Store has the table, the operations and the
--   adapters, Race the steps of processes that share it; Once, Single and Resume hold proofs.
-- - IncidentSync: backend/app/incident_sync.py. Adapters has the capabilities, Policy the profiles and
--   policies, Row the records and links, Records their operations, Checks the verdicts, Runs sequences of
--   calls; Narrowing, Links, Mirrored and Verdicts hold proofs.
-- - IncidentMetrics: backend/app/incident_metrics.py; Windows and Candidates hold proofs.
--
-- State. A table is the list of its rows in the order of insertion, and a call passes the state on. The
-- clock is a number in the state, in microseconds; the ids that uuid4 would draw are arguments. A query
-- with an order takes the first row that no other row precedes; rows that the order leaves equal stay
-- in the order of the table. `claim` is two definitions, the query that picks a row and the guarded
-- UPDATE, so that the UPDATEs of several workers may meet any state of the table. Events for the
-- observability, activity and sync services, which are best effort in the code, are lists in the state.
--
-- Parameters. A handler is a function of the view and the queue, which may leave an exception, a bail
-- at a checkpoint or a result; its hypothesis is that it changes the table by lifecycle steps and
-- does not take its own job away. The transport of a webhook is a function of the number of the
-- request and of what is sent, so that it may answer as it likes. `json.dumps` and `json.loads` of a
-- guided flow are functions that may raise. The execution agent of a workflow is a
-- function of its state, as are the texts built from execution outputs. `json.loads` of a handler's
-- result and `isoformat` of a time are functions.
--
-- Bounds and fuel. `drain` recurs on the number of jobs that it may still run, which is the
-- `max_jobs` of the code, so it needs no fuel. The loop of a workflow ends when its agents let it:
-- `execute_loop` says of a number of rounds what they do and whether it is still going on. No other
-- loop is unbounded. Thresholds in seconds are natural numbers, as the validators of the settings
-- demand; settings that may be negative are integers.
--
-- Not modelled: HTTP routes, the frontend, language models, retrieval, document generation and the
-- tools, which are calls of other programs; database errors other than a violated UNIQUE constraint;
-- reads that only format rows; the inbound side of incident sync, the planner and the plan executor.
pub mod Base
pub mod JobPolicy
pub mod ExecutionQueue
pub mod Incidents
pub mod Authz
pub mod Workspaces
pub mod OpsPolicy
pub mod UsageLimits
pub mod AgentWorkflow
pub mod Webhooks
pub mod GuidedFlows
pub mod IncidentSync
pub mod IncidentMetrics
