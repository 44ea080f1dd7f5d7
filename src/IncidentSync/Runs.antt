-- ===== src/IncidentSync/Runs.antt =====
-- Sequences of calls of the mirroring of backend/app/incident_sync.py.
use aira_agent.Base.{ℕ, ◌+◌, String, Option, List, [], ◌∷◌}
use aira_agent.IncidentSync.Row.{Snapshot, Sync, Settings, Transport}
use aira_agent.IncidentSync.Records.{export, flush_pending, redrive, delete_target}

pub data Op : Type 0 where
  mirror : Option Snapshot → String → Option String → Op
  flush : ℕ → Op
  recover : String → Op
  delete : String → Op
  wait : ℕ → Op

module _ (c : Settings) (send : Transport) (uuid4 : ℕ → String) where
  unfoldable pub step : Op → Sync → Sync
  step (mirror incident action actor) s = (export c send uuid4 incident action actor s).1
  step (flush max_records) s = (flush_pending c send uuid4 max_records s).1
  step (recover id) s = (redrive c send uuid4 id s).1
  step (delete id) s = (delete_target id s).1
  step (wait time) s = record s { now = s.now + time }

  unfoldable pub run : List Op → Sync → Sync
  run [] s = s
  run (op ∷ ops) s = run ops (step op s)
