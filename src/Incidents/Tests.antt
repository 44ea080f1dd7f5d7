-- ===== src/Incidents/Tests.antt =====
-- A ledger of one acknowledged incident, and the theorems at it.
use aira_agent.Base.{ℕ, String, none, some, List, [], ◌∷◌, true, ◌≡◌, All, refl}
use aira_agent.Base.Int.{pos, negsuc}
use aira_agent.Base.Table.{find}
use aira_agent.JobPolicy.{contains}
use aira_agent.Incidents.Row.{
  Incident, Incidents, Alert, Settings, acknowledged, incident_id, signal_of,
}
use aira_agent.Incidents.Observe.{observe, recover_stale, distinct, is_stale}
use aira_agent.Incidents.Actions.{silence, unsilence}
use aira_agent.Incidents.Ledger.{Reach, Step}
use aira_agent.Incidents.Sound.{IsSound, Reach-IsSound}
use aira_agent.Incidents.Sweep.{signals}
use aira_agent.Incidents.Commit.{unique, observe_loses_sweep}
use aira_agent.Incidents.Exact.{agrees, sweep_exact, unsilence_undoes_recovery}

abbrev isoformat : ℕ → String
isoformat t = "2026-01-01T00:00:00"

abbrev settings : Settings
settings = record {
  incident_max_silence_seconds = pos 86400;
  incident_default_silence_seconds = pos 3600;
}

abbrev stuck : Alert
stuck = record {
  classification = some "stuck";
  job_id = some "j1";
  exec_class = none;
  severity = some "high";
}

abbrev backlog : Alert
backlog = record {
  classification = some "backlog";
  job_id = none;
  exec_class = some "interactive";
  severity = some "low";
}

abbrev known : Incident
known = record {
  id = "i1";
  signal = "stuck:j1";
  classification = some "stuck";
  subject = "j1";
  source = "alert";
  state = acknowledged;
  severity = some "high";
  occurrences = 2;
  note = none;
  acknowledged_at = some 10;
  silenced_until = none;
  recovered_at = none;
  assignee = none;
  assigned_at = none;
  first_seen = 5;
  last_seen = 20;
}

abbrev empty : Incidents
empty = record { rows = []; events = []; exported = []; now = 0 }

abbrev ledger : Incidents
ledger = record { rows = known ∷ []; events = []; exported = []; now = 30 }

abbrev alerts : List (Alert × String)
alerts = (backlog, "i2") ∷ []

abbrev observed : Incidents
observed = observe ((stuck, "i1") ∷ []) empty

abbrev muted : Incidents
muted = (silence isoformat settings "i1" (some (negsuc 4)) (some "ops") observed).1

Reach-IsSound_example : All IsSound muted.rows
Reach-IsSound_example =
    Reach-IsSound isoformat settings {s = empty} {t = muted}
      (Reach.next (Step.observes ((stuck, "i1") ∷ []))
        (Reach.next (Step.silences "i1" (some (negsuc 4)) (some "ops")) Reach.done))
      tt

sweep_exact_example :
    agrees "stuck:j1" (signals alerts) (recover_stale (signals alerts) (observe alerts ledger))
    ≡ true
sweep_exact_example =
    sweep_exact alerts ledger "stuck:j1" (unfold distinct contains in refl)
      (unfold unique contains in refl)

observe_loses_sweep_example :
    observe ((backlog, "i2") ∷ (backlog, "i3") ∷ (stuck, "i4") ∷ []) ledger ≡ ledger
observe_loses_sweep_example =
    observe_loses_sweep backlog backlog "i2" "i3" ((stuck, "i4") ∷ []) ledger refl
      (unfold find signal_of in refl)

unsilence_undoes_recovery_example :
    (x : Incident) × (find incident_id "i1"
        (unsilence "i1" none (recover_stale ("backlog:interactive" ∷ []) ledger)).1.rows
      ≡ some x)
    × (x.state ≡ acknowledged)
unsilence_undoes_recovery_example =
    unsilence_undoes_recovery ("backlog:interactive" ∷ []) "i1" none ledger known 10
      (unfold find in refl) (unfold is_stale contains in refl) refl
