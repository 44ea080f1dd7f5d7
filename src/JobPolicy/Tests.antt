-- ===== src/JobPolicy/Tests.antt =====
-- A policy with one override, and the theorems at concrete kinds.
use aira_agent.Base.{String, Option, none, some, true, ◌==◌, if◌then◌else◌}
use aira_agent.Base.Int.{ℤ, pos}
use aira_agent.JobPolicy.{Settings}

abbrev overrides : String → Option ℤ
overrides name = if name == "artifact" then some (pos 4) else none

abbrev settings : Settings
settings = record {
  queue_concurrency = overrides;
  queue_per_owner_inflight_cap = pos 3;
  queue_scheduling_enabled = true;
  job_max_attempts = pos 3;
}
