-- ===== src/IncidentMetrics.antt =====
-- backend/app/incident_metrics.py: the classes of outcomes, the trend windows and the candidate alerts,
-- without the texts of their details. Times are numbers of microseconds. `pct`, which rounds a float,
-- is a function.
pub mod Windows
pub mod Candidates
mod Tests
use aira_agent.Base.{
  ℕ, suc, ◌+◌, ◌-◌, ◌*◌, String, Option, none, some, List, [], ◌∷◌, ◌++◌, map, Bool, true, false,
  ◌&&◌, ◌||◌, leb, ltb, eqb, if◌then◌else◌, ◌==◌, is_text, or_text, tally,
}
use aira_agent.Base.Text.{starts_with}
use aira_agent.Base.Order.{sort_by}

pub data Class : Type 0 where
  pass fail neutral : Class

unfoldable pub validation_class : Option String → String → Class
validation_class outcome ready_state = if is_text outcome ready_state then pass else fail

unfoldable pub recon_class : Option String → Class
recon_class outcome =
    if is_text outcome "ok"
    then pass
    else if is_text outcome "failed" || is_text outcome "missing"
    then fail
    else neutral

unfoldable pub sync_class : Option String → String → String → Class
sync_class status synced failed =
    if is_text status synced then pass else if is_text status failed then fail else neutral

unfoldable pub recon_category : Option String → String
recon_category action =
    let a = or_text action "" in
    if starts_with "apply:" a
    then "apply"
    else if starts_with "external:" a
    then "external_action"
    else if a == ""
    then "unknown"
    else a

pub record Window : Type 0 where
  pub label : String
  pub seconds : ℕ

-- `WINDOWS`
abbrev pub windows : List Window
windows =
    record { label = "24h"; seconds = 86400 }
    ∷ record { label = "7d"; seconds = 604800 }
    ∷ record { label = "30d"; seconds = 2592000 }
    ∷ []

-- 0 <= now - ts <= seconds
unfoldable pub within : ℕ → ℕ → Option ℕ → Bool
within now seconds none = false
within now seconds (some t) = leb t now && leb (now - t) (seconds * 1000000)

pub record Sample : Type 0 where
  pub time : Option ℕ
  pub class : Class

pub record Counts : Type 0 where
  pub passed : ℕ
  pub failed : ℕ
  pub undecided : ℕ

abbrev pub no_counts : Counts
no_counts = record { passed = 0; failed = 0; undecided = 0 }

abbrev pub add_class : Class → Counts → Counts
add_class pass c = record c { passed = suc c.passed }
add_class fail c = record c { failed = suc c.failed }
add_class neutral c = record c { undecided = suc c.undecided }

-- The loop over the samples.
unfoldable pub count_samples : ℕ → ℕ → List Sample → Counts → Counts
count_samples now seconds [] c = c
count_samples now seconds (x ∷ xs) c =
    count_samples now seconds xs (if within now seconds x.time then add_class x.class c else c)

pub record Rollup {ℓ} (F : Type ℓ) : Type ℓ where
  pub label : String
  pub passed : ℕ
  pub failed : ℕ
  pub undecided : ℕ
  pub total : ℕ
  pub pass_pct : Option F

module _ {ℓ} {F : Type ℓ} (percent : ℕ → ℕ → F) where
  -- None for no samples, and else round(100.0 * numerator / denominator, 1)
  unfoldable pub pct : ℕ → ℕ → Option F
  pct numerator denominator =
      if eqb denominator 0 then none else some (percent numerator denominator)

  unfoldable pub rollup_in : List Sample → ℕ → Window → Rollup F
  rollup_in samples now w =
      let c = count_samples now w.seconds samples no_counts in
      record {
        label = w.label;
        passed = c.passed;
        failed = c.failed;
        undecided = c.undecided;
        total = c.passed + c.failed + c.undecided;
        pass_pct = pct c.passed (c.passed + c.failed);
      }

  unfoldable pub window_rollup : List Sample → ℕ → List (Rollup F)
  window_rollup samples now = map (rollup_in samples now) windows

unfoldable pub count_in : List (Option ℕ) → ℕ → Window → String × ℕ
count_in times now w = (w.label, tally (within now w.seconds) times)

unfoldable pub count_in_windows : List (Option ℕ) → ℕ → List (String × ℕ)
count_in_windows times now = map (count_in times now) windows

pub data Code : Type 0 where
  repeated_auth_failures repeated_validation_failures drift_backlog : Code
  stale_readiness reconciliation_failures : Code

pub data Severity : Type 0 where
  critical warning : Severity

pub record Candidate : Type 0 where
  pub code : Code
  pub severity : Severity
  pub subject : String
  pub count : ℕ
  pub threshold : ℕ

unfoldable pub severity_of : ℕ → ℕ → Severity
severity_of count threshold = if leb (2 * threshold) count then critical else warning

-- One alert if a count has reached its threshold.
unfoldable pub crossed : Code → String → ℕ → ℕ → List Candidate
crossed code subject threshold count =
    if leb threshold count
    then record {
      code = code;
      severity = severity_of count threshold;
      subject = subject;
      count = count;
      threshold = threshold;
    }
      ∷ []
    else []

-- The alerts of the targets, by name and count.
unfoldable pub crossed_by : Code → ℕ → List (String × ℕ) → List Candidate
crossed_by code threshold [] = []
crossed_by code threshold ((name, count) ∷ rest) =
    crossed code name threshold count ++ crossed_by code threshold rest

abbrev pub severity_rank : Severity → ℕ
severity_rank critical = 0
severity_rank warning = 1

-- The key is (0 if critical else 1, -count).
unfoldable pub comes_before : Candidate → Candidate → Bool
comes_before a b =
    ltb (severity_rank a.severity) (severity_rank b.severity)
    || eqb (severity_rank a.severity) (severity_rank b.severity) && leb b.count a.count

pub record Aggregates : Type 0 where
  pub auth_failures_by_target : List (String × ℕ)
  pub validation_failures_by_target : List (String × ℕ)
  pub drift_backlog : ℕ
  pub stale_count : ℕ
  pub recon_failures_24h : ℕ

unfoldable pub found_alerts : Aggregates → List Candidate
found_alerts g =
    crossed_by repeated_auth_failures 3 g.auth_failures_by_target
    ++ (crossed_by repeated_validation_failures 3 g.validation_failures_by_target
        ++ (crossed drift_backlog "incident-sync" 5 g.drift_backlog
            ++ (crossed stale_readiness "incident-sync" 3 g.stale_count
                ++ crossed reconciliation_failures "incident-sync" 5 g.recon_failures_24h)))

unfoldable pub candidate_alerts : Aggregates → List Candidate
candidate_alerts g = sort_by comes_before (found_alerts g)
