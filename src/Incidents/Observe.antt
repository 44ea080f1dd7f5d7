-- ===== src/Incidents/Observe.antt =====
-- `observe`, `recover_stale` and `silenced_signals` of backend/app/incidents.py. The id that
-- `uuid4().hex` would draw for an alert comes with it. The sessions do not flush on their own, so the
-- query of one alert does not see the rows that earlier alerts of the same sweep added.
use aira_agent.Base.{
  ℕ, ◌+◌, String, Option, none, some, List, [], ◌∷◌, ◌++◌, map, Bool, true, false, not, ◌&&◌, ◌||◌,
  ltb, if◌then◌else◌, keep, tally,
}
use aira_agent.Base.Table.{find, update}
use aira_agent.JobPolicy.{contains}
use aira_agent.Incidents.Row.{
  opened, recovered, Incident, IncidentEvent, Exported, Incidents, Alert, row_signal, signal_of,
  subject_of, log_event, is_silenced, is_recovered, elapsed,
}

-- The session of one sweep: rows as written so far, rows added, trail entries, and the transitions
-- to mirror after the commit.
pub record Sweep : Type 0 where
  pub rows : List Incident
  pub added : List Incident
  pub events : List IncidentEvent
  pub transitions : List (String × String)

unfoldable pub new_incident : Alert → String → ℕ → Incident
new_incident a new_id now = record {
  id = new_id;
  signal = signal_of a;
  classification = a.classification;
  subject = subject_of a;
  source = "alert";
  state = opened;
  severity = a.severity;
  occurrences = 1;
  note = none;
  acknowledged_at = none;
  silenced_until = none;
  recovered_at = none;
  assignee = none;
  assigned_at = none;
  first_seen = now;
  last_seen = now;
}

-- A condition that was cleared, or whose silence is over, and recurs.
unfoldable pub recurs : ℕ → Incident → Bool
recurs now r = is_recovered r.state || is_silenced r.state && elapsed r.silenced_until now

unfoldable pub reopen : ℕ → Incident → Incident
reopen now r = record r {
  state = opened;
  recovered_at = none;
  silenced_until = none;
  acknowledged_at = none;
  note = none;
  first_seen = now;
}

unfoldable pub touch : Alert → ℕ → Incident → Incident
unfolding recurs reopen
touch a now r =
    let base = if recurs now r then reopen now r else r in
    record base { occurrences = base.occurrences + 1; severity = a.severity; last_seen = now }

unfoldable pub observe_known : Incident → Alert → ℕ → Sweep → Sweep
observe_known r a now w =
    let rows = update row_signal (signal_of a) (touch a now) w.rows in
    if recurs now r
    then record w {
      rows = rows;
      events = w.events ++ log_event r.id "reopened" none (some "recurred") opened now ∷ [];
      transitions = w.transitions ++ (r.id, "reopened") ∷ [];
    }
    else record w { rows = rows }

unfoldable pub observe_found : Option Incident → Alert → String → ℕ → Sweep → Sweep
unfolding observe_known
observe_found none a new_id now w = record w {
  added = w.added ++ new_incident a new_id now ∷ [];
  events = w.events ++ log_event new_id "opened" none a.classification opened now ∷ [];
  transitions = w.transitions ++ (new_id, "opened") ∷ [];
}
observe_found (some r) a new_id now w = observe_known r a now w

-- the body of the loop over the alerts
unfoldable pub observe_alert : Alert × String → ℕ → Sweep → Sweep
unfolding observe_found
observe_alert (a, new_id) now w =
    observe_found (find row_signal (signal_of a) w.rows) a new_id now w

unfoldable pub observe_loop : List (Alert × String) → ℕ → Sweep → Sweep
observe_loop [] now w = w
observe_loop (a ∷ alerts) now w = observe_loop alerts now (observe_alert a now w)

-- the UNIQUE constraint on `signal`
unfoldable pub distinct : List Incident → Bool
distinct [] = true
distinct (r ∷ rs) = not (contains r.signal (map row_signal rs)) && distinct rs

abbrev export_transition : String × String → Exported
export_transition (id, action) = record { incident_id = id; action = action; actor = none }

unfoldable pub begin_sweep : Incidents → Sweep
begin_sweep s = record { rows = s.rows; added = []; events = []; transitions = [] }

-- The commit: a violated constraint raises, and `except Exception: return` leaves all as it was.
unfoldable pub commit_sweep : Sweep → Incidents → Incidents
commit_sweep w s =
    if distinct (w.rows ++ w.added)
    then record s {
      rows = w.rows ++ w.added;
      events = s.events ++ w.events;
      exported = s.exported ++ map export_transition w.transitions;
    }
    else s

unfoldable pub observe : List (Alert × String) → Incidents → Incidents
observe [] s = s
observe (a ∷ alerts) s = commit_sweep (observe_loop (a ∷ alerts) s.now (begin_sweep s)) s

unfoldable pub is_stale : List String → Incident → Bool
is_stale active r = not (is_recovered r.state) && not (contains r.signal active)

unfoldable pub recover : ℕ → Incident → Incident
recover now r = record r { state = recovered; recovered_at = some now; silenced_until = none }

unfoldable pub recover_row : List String → ℕ → Incident → Incident
recover_row active now r = if is_stale active r then recover now r else r

unfoldable pub recovery_event : ℕ → Incident → IncidentEvent
recovery_event now r = log_event r.id "recovered" none (some "condition cleared") recovered now

abbrev export_recovery : Incident → Exported
export_recovery r = record { incident_id = r.id; action = "recovered"; actor = none }

unfoldable pub recover_stale : List String → Incidents → Incidents
recover_stale active s = record s {
  rows = map (recover_row active s.now) s.rows;
  events = s.events ++ map (recovery_event s.now) (keep (is_stale active) s.rows);
  exported = s.exported ++ map export_recovery (keep (is_stale active) s.rows);
}

-- The number that `recover_stale` returns.
unfoldable pub recovered_count : List String → Incidents → ℕ
recovered_count active s = tally (is_stale active) s.rows

-- silenced_until IS NOT NULL AND silenced_until > now
abbrev ahead : Option ℕ → ℕ → Bool
ahead none now = false
ahead (some t) now = ltb now t

unfoldable pub mutes : ℕ → Incident → Bool
mutes now r = is_silenced r.state && ahead r.silenced_until now

unfoldable pub silenced_signals : Incidents → List String
silenced_signals s = map row_signal (keep (mutes s.now) s.rows)
