-- ===== src/ExecutionQueue/Status.antt =====
-- The lifecycle states of backend/app/execution_queue.py and the sets that the code tests.
use aira_agent.Base.{ℕ, ◌≡◌, ◌↔◌, Bool, true, false, not, ◌||◌, arith, eqb}

pub data Status : Type 0 where
  queued running awaiting_approval validating repairing : Status
  completed failed cancel_requested canceled : Status

-- `==` on the texts that the states are in the source.
abbrev code : Status → ℕ
code queued = 0
code running = 1
code awaiting_approval = 2
code validating = 3
code repairing = 4
code completed = 5
code failed = 6
code cancel_requested = 7
code canceled = 8

unfoldable pub same_status : Status → Status → Bool
same_status a b = eqb (code a) (code b)

unfoldable pub is_queued : Status → Bool
is_queued queued = true
is_queued _ = false

-- _TERMINAL
unfoldable pub is_terminal : Status → Bool
is_terminal completed = true
is_terminal failed = true
is_terminal canceled = true
is_terminal _ = false

-- _INTERRUPTIBLE
unfoldable pub is_interruptible : Status → Bool
is_interruptible running = true
is_interruptible awaiting_approval = true
is_interruptible validating = true
is_interruptible repairing = true
is_interruptible _ = false

-- _RETRYABLE
unfoldable pub is_retryable : Status → Bool
is_retryable failed = true
is_retryable _ = false

-- _ACTIVE
unfoldable pub is_active : Status → Bool
is_active queued = true
is_active running = true
is_active awaiting_approval = true
is_active validating = true
is_active repairing = true
is_active cancel_requested = true
is_active _ = false

-- row.status in (CANCEL_REQUESTED, CANCELED)
unfoldable pub is_cancel : Status → Bool
is_cancel cancel_requested = true
is_cancel canceled = true
is_cancel _ = false

unfoldable pub can_cancel : Status → Bool
unfolding is_queued is_interruptible
can_cancel s = is_queued s || is_interruptible s

unfoldable pub can_retry : Status → Bool
unfolding is_retryable
can_retry s = is_retryable s

pub same_status_iff : (a b : Status) → (same_status a b ≡ true) ↔ (a ≡ b)
unfolding same_status
same_status_iff a b = ground arith

-- The two sets divide the states: a job is over, or it is still active.
pub active_or_terminal : (s : Status) → is_active s ≡ not (is_terminal s)
unfolding is_active is_terminal
active_or_terminal s = ground arith

pub is_queued_iff : (s : Status) → (is_queued s ≡ true) ↔ (s ≡ queued)
unfolding is_queued
is_queued_iff s = ground arith
