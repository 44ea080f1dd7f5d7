-- ===== src/IncidentSync/Records.antt =====
-- The outbound mirroring of backend/app/incident_sync.py: `export`, `flush_pending`, `_attempt`,
-- `_upsert_link`, `redrive` and `delete_target` of `IncidentSyncService`. An attempt sets one drawn id
-- aside for a link. `_csv_set` is the function of that name of backend/app/webhooks.py.
use aira_agent.Base.{
  ℕ, suc, ◌+◌, String, Option, none, some, List, [], ◌∷◌, ◌++◌, map, Bool, not, ◌&&◌, ◌||◌, leb,
  if◌then◌else◌, ◌==◌, truthy, is_text, keep, any, first, take, length,
}
use aira_agent.Base.Int.{at_least}
use aira_agent.Base.Table.{find, update}
use aira_agent.Base.Text.{take_text}
use aira_agent.Base.Order.{sort_by}
use aira_agent.Webhooks.Decision.{csv_set, lets_through}
use aira_agent.IncidentSync.Row.{
  Status, pending, synced, failed, is_pending, is_synced, is_failed, Target, Snapshot, Record, Link,
  Sync, Settings, target_key, record_key, Sent, accepted, refused, Transport, is_link,
}

-- if ref: link.external_ref = ref
abbrev pub or_old : Option String → Option String → Option String
or_old new old = if truthy new then new else old

unfoldable pub linked : Record → Option String → Option String → ℕ → Link → Link
linked r ref url now l = record l {
  external_ref = or_old ref l.external_ref;
  external_url = or_old url l.external_url;
  last_action = some r.action;
  last_record_id = some r.id;
  last_synced_at = some now;
}

unfoldable pub new_link : String → Record → ℕ → Link
new_link id r now = record {
  id = id;
  incident_id = r.snapshot.incident_id;
  target_id = r.target_id;
  external_ref = none;
  external_url = none;
  last_action = none;
  last_record_id = none;
  last_synced_at = none;
  created_at = now;
}

-- The first link of the record's incident and target is written, or a new one is.
unfoldable pub upsert_link :
    String → Record → Option String → Option String → ℕ → List Link → List Link
upsert_link id r ref url now [] = linked r ref url now (new_link id r now) ∷ []
upsert_link id r ref url now (l ∷ ls) =
    let rest = upsert_link id r ref url now ls in
    if is_link r.snapshot.incident_id r.target_id l then linked r ref url now l ∷ ls else l ∷ rest

-- max(1, settings.incident_sync_max_attempts)
unfoldable pub attempt_cap : Settings → ℕ
attempt_cap c = at_least 1 c.incident_sync_max_attempts

-- max(1, settings.incident_sync_max_redrives)
unfoldable pub redrive_cap : Settings → ℕ
redrive_cap c = at_least 1 c.incident_sync_max_redrives

-- The record, its target and the links after an attempt.
unfoldable pub attempted : Settings → ℕ → Sent → Record → Record
attempted c now (accepted ref url) r = record r {
  attempts = suc r.attempts;
  status = synced;
  last_error = none;
  external_ref = ref;
  external_url = url;
  updated_at = now;
}
attempted c now (refused error) r = record r {
  attempts = suc r.attempts;
  status = if leb (attempt_cap c) (suc r.attempts) then failed else pending;
  last_error = some (take_text 200 error);
  updated_at = now;
}

abbrev pub counted : Sent → Target → Target
counted (accepted ref url) t = record t { consecutive_failures = 0 }
counted (refused error) t = record t { consecutive_failures = suc t.consecutive_failures }

unfoldable pub links_after : String → ℕ → Sent → Record → List Link → List Link
links_after id now (accepted ref url) r links = upsert_link id r ref url now links
links_after id now (refused error) r links = links

abbrev pub target_deleted : ℕ → Record → Record
target_deleted now r = record r {
  status = failed;
  last_error = some "target_deleted";
  updated_at = now;
}

-- The replies of `redrive`, with the id of the record where there is one.
pub data Reply : Type 0 where
  not_found not_failed limit_reached : Reply
  in_flight redrive_attempted : String → Reply

abbrev pub child_of : String → Record → Bool
child_of id r = is_text r.redrive_of id

abbrev pub is_open : Record → Bool
is_open r = is_pending r.status || is_synced r.status

unfoldable pub redriven : String → String → ℕ → Record → Record
redriven id of now r = record r {
  id = id;
  status = pending;
  attempts = 0;
  last_error = none;
  external_ref = none;
  external_url = none;
  redrive_of = some of;
  created_at = now;
  updated_at = now;
}

module _ (c : Settings) (send : Transport) (uuid4 : ℕ → String) where
  unfoldable pub attempt_to : Option Target → Record → Sync → Status × Sync
  attempt_to none r s =
      (failed, record s { records = update record_key r.id (target_deleted s.now) s.records })
  attempt_to (some t) r s =
      let sent = send s.sends t r in
      let r' = attempted c s.now sent r in
      (
        r'.status,
        record s {
          targets = update target_key t.id (counted sent) s.targets;
          records = update record_key r.id (attempted c s.now sent) s.records;
          links = links_after (uuid4 s.draws) s.now sent r s.links;
          draws = suc s.draws;
          sends = suc s.sends;
        },
      )

  unfoldable pub attempt_found : Option Record → Sync → Status × Sync
  attempt_found none s = (failed, s)
  attempt_found (some r) s =
      if is_synced r.status
      then (synced, s)
      else attempt_to (find target_key r.target_id s.targets) r s

  unfoldable pub attempt : String → Sync → Status × Sync
  attempt id s = attempt_found (find record_key id s.records) s

  unfoldable pub attempt_each : List String → Sync → List Status × Sync
  attempt_each [] s = ([], s)
  attempt_each (id ∷ ids) s =
      let (x, s') = attempt id s in let (xs, s'') = attempt_each ids s' in (x ∷ xs, s'')

  -- Enabled, and action in _csv_set(target.sync_actions) unless that is None.
  unfoldable pub mirrors : String → Target → Bool
  mirrors action t = t.enabled && lets_through (csv_set t.sync_actions) (some action)

  unfoldable pub new_record : String → Snapshot → String → Option String → ℕ → Target → Record
  new_record id incident action actor now t = record {
    id = id;
    target_id = t.id;
    snapshot = record incident { note = if truthy incident.note then incident.note else none };
    action = action;
    actor = actor;
    status = pending;
    attempts = 0;
    last_error = none;
    external_ref = none;
    external_url = none;
    redrive_of = none;
    created_at = now;
    updated_at = now;
  }

  -- One record for each target, by ids drawn from a number on.
  unfoldable pub new_records : ℕ → Snapshot → String → Option String → ℕ → List Target → List Record
  new_records n incident action actor now [] = []
  new_records n incident action actor now (t ∷ ts) =
      new_record (uuid4 n) incident action actor now t
      ∷ new_records (suc n) incident action actor now ts

  -- How many records were created.
  unfoldable pub export : Option Snapshot → String → Option String → Sync → ℕ × Sync
  export none action actor s = (0, s)
  export (some incident) action actor s =
      let created =
        new_records s.draws incident action actor s.now (keep (mirrors action) s.targets) in
      if incident.incident_id == "" then (0, s) else (
        length created,
        (attempt_each (map record_key created)
            (record s { records = s.records ++ created; draws = s.draws + length created })).1,
      )

  abbrev pub created_earlier : Record → Record → Bool
  created_earlier r q = leb r.created_at q.created_at

  -- The results of the attempts, which `flush_pending` counts.
  unfoldable pub flush_pending : ℕ → Sync → List Status × Sync
  flush_pending max_records s =
      attempt_each
        (map record_key
          (take max_records (sort_by created_earlier (keep (λ r. is_pending r.status) s.records))))
        s

  -- A record that failed, by its children and the first of them that is open.
  unfoldable pub redrive_failed : Record → List Record → Option Record → Sync → Reply × Sync
  redrive_failed r kids (some child) s = (in_flight child.id, s)
  redrive_failed r kids none s =
      let id = uuid4 s.draws in
      if leb (redrive_cap c) (length kids) then (limit_reached, s) else (
        redrive_attempted id,
        (attempt id (record s {
          records = s.records ++ redriven id r.id s.now r ∷ [];
          draws = suc s.draws;
        })).1,
      )

  unfoldable pub redrive_found : Option Record → Sync → Reply × Sync
  redrive_found none s = (not_found, s)
  redrive_found (some r) s =
      let kids = keep (child_of r.id) s.records in
      if is_failed r.status then redrive_failed r kids (first is_open kids) s else (not_failed, s)

  unfoldable pub redrive : String → Sync → Reply × Sync
  redrive id s = redrive_found (find record_key id s.records) s

unfoldable pub delete_target : String → Sync → Bool × Sync
delete_target id s =
    (any (λ t. t.id == id) s.targets, record s { targets = keep (λ t. not (t.id == id)) s.targets })
