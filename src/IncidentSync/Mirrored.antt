-- ===== src/IncidentSync/Mirrored.antt =====
-- What every use of the mirroring of backend/app/incident_sync.py keeps.
use aira_agent.Base.{
  ℕ, suc, String, Option, none, some, List, [], ◌∷◌, true, leb, ◌==◌, ◌≡◌, ◌≤◌, refl, arith, any,
  All, All-append, length, if_both,
}
use aira_agent.Base.Int.{at_least-ge}
use aira_agent.Base.Table.{find, find-key, All-update}
use aira_agent.Base.Query.{All-map}
use aira_agent.IncidentSync.Row.{
  Status, pending, synced, failed, is_pending, is_synced, Target, Snapshot, Record, Link, Sync,
  Settings, record_key, Sent, accepted, refused, Transport, is_link, is_failed,
}
use aira_agent.IncidentSync.Records.{
  attempt_cap, attempted, links_after, attempt_to, attempt_found, attempt, attempt_each,
  new_records, new_record, export, flush_pending, redrive_failed, redrive_found, redrive,
  delete_target, redriven, Reply, redrive_cap, limit_reached, not_failed,
}
use aira_agent.IncidentSync.Runs.{Op, step, run}
use aira_agent.IncidentSync.Links.{any-links_after, upsert_link_self, is_link-Grows}

-- A record that is pending has an attempt left, and one that is synced has a link.
pub record IsMirrored (c : Settings) (links : List Link) (r : Record) : Type 0 where
  pub left : is_pending r.status ≡ true → suc r.attempts ≤ attempt_cap c
  pub has_link :
      is_synced r.status ≡ true → any (is_link r.snapshot.incident_id r.target_id) links ≡ true

abbrev pub AllMirrored : Settings → Sync → Type 0
AllMirrored c s = All (IsMirrored c s.links) s.records

module _ (c : Settings) (send : Transport) (uuid4 : ℕ → String) where
  attempted-IsMirrored :
      (id : String) (now : ℕ) (sent : Sent) (r : Record) (ls : List Link)
      → IsMirrored c (links_after id now sent r ls) (attempted c now sent r)
  unfolding attempted links_after
  attempted-IsMirrored id now (accepted ref url) r ls = record {
    left = λ h. absurd (cc (h));
    has_link = λ _. upsert_link_self id r ref url now ls;
  }
  attempted-IsMirrored id now (refused error) r ls = record {
    left = λ h. ground (arith, h);
    has_link = λ h. absurd (ground (arith, h));
  }

  more_links :
      (id : String) (now : ℕ) (sent : Sent) (q : Record) (ls : List Link) (r : Record)
      → IsMirrored c ls r
      → IsMirrored c (links_after id now sent q ls) r
  more_links id now sent q ls r m = record {
    left = m.left;
    has_link = λ h.
        any-links_after (is_link r.snapshot.incident_id r.target_id)
          (is_link-Grows r.snapshot.incident_id r.target_id) id now sent q ls (m.has_link h);
  }

  -- A record that is neither pending nor synced.
  over-IsMirrored : (ls : List Link) (r : Record) → r.status ≡ failed → IsMirrored c ls r
  over-IsMirrored ls r e = record {
    left = λ h. absurd (cc (e, h));
    has_link = λ h. absurd (cc (e, h));
  }

  -- A record that has not been attempted.
  fresh-IsMirrored :
      (ls : List Link) (r : Record) → r.status ≡ pending → r.attempts ≡ 0 → IsMirrored c ls r
  unfolding attempt_cap
  fresh-IsMirrored ls r e f = record {
    left = λ _. omega (arith, f, at_least-ge 1 c.incident_sync_max_attempts);
    has_link = λ h. absurd (cc (e, h));
  }

  attempt_to-AllMirrored :
      (t : Option Target) (r : Record) (s : Sync)
      → find record_key r.id s.records ≡ some r
      → AllMirrored c s
      → AllMirrored c (attempt_to c send uuid4 t r s).1
  unfolding attempt_to
  attempt_to-AllMirrored none r s e h =
      All-update record_key (IsMirrored c s.links) r.id _ s.records
        (λ x _ _. over-IsMirrored s.links _ refl) h
  attempt_to-AllMirrored (some t) r s e h =
      let sent = send s.sends t r in
      All-update record_key (IsMirrored c (links_after (uuid4 s.draws) s.now sent r s.links)) r.id _
        s.records
        (λ x f _. rw (same x f) (attempted-IsMirrored (uuid4 s.draws) s.now sent r s.links))
        (All-map (IsMirrored c s.links)
          (IsMirrored c (links_after (uuid4 s.draws) s.now sent r s.links)) s.records
          (more_links (uuid4 s.draws) s.now sent r s.links) h)
    where
      same : (x : Record) → find record_key r.id s.records ≡ some x → x ≡ r
      same x f = cc (e, f)

  attempt_found-AllMirrored :
      (id : String) (o : Option Record) (s : Sync)
      → find record_key id s.records ≡ o
      → AllMirrored c s
      → AllMirrored c (attempt_found c send uuid4 o s).1
  unfolding attempt_found
  attempt_found-AllMirrored id none s e h = h
  attempt_found-AllMirrored id (some r) s e h =
      if_both {A = Status × Sync} (λ x. AllMirrored c x.1) (is_synced r.status) (synced, s) _ h
        (attempt_to-AllMirrored _ r s (cc (find-key record_key id s.records e, e)) h)

  attempt-AllMirrored :
      (id : String) (s : Sync) → AllMirrored c s → AllMirrored c (attempt c send uuid4 id s).1
  unfolding attempt
  attempt-AllMirrored id s h = attempt_found-AllMirrored id (find record_key id s.records) s refl h

  attempt_each-AllMirrored :
      (ids : List String) (s : Sync)
      → AllMirrored c s
      → AllMirrored c (attempt_each c send uuid4 ids s).1
  unfolding attempt_each
  attempt_each-AllMirrored [] s h = h
  attempt_each-AllMirrored (id ∷ ids) s h =
      attempt_each-AllMirrored ids (attempt c send uuid4 id s).1 (attempt-AllMirrored id s h)

  new_records-IsMirrored :
      (ls : List Link) (n : ℕ) (incident : Snapshot) (action : String) (actor : Option String)
      (now : ℕ) (ts : List Target)
      → All (IsMirrored c ls) (new_records c send uuid4 n incident action actor now ts)
  unfolding new_records new_record
  new_records-IsMirrored ls n incident action actor now [] = tt
  new_records-IsMirrored ls n incident action actor now (t ∷ ts) = (
    fresh-IsMirrored ls _ refl refl,
    new_records-IsMirrored ls (suc n) incident action actor now ts,
  )

  export-AllMirrored :
      (incident : Option Snapshot) (action : String) (actor : Option String) (s : Sync)
      → AllMirrored c s
      → AllMirrored c (export c send uuid4 incident action actor s).1
  unfolding export
  export-AllMirrored none action actor s h = h
  export-AllMirrored (some incident) action actor s h =
      if_both {A = ℕ × Sync} (λ x. AllMirrored c x.1) (incident.incident_id == "") (0, s) _ h
        (attempt_each-AllMirrored _ _ (
          All-append (IsMirrored c s.links) s.records _ h
            (new_records-IsMirrored s.links s.draws incident action actor s.now _)))

  redrive_failed-AllMirrored :
      (r : Record) (kids : List Record) (o : Option Record) (s : Sync)
      → AllMirrored c s
      → AllMirrored c (redrive_failed c send uuid4 r kids o s).1
  unfolding redrive_failed redriven
  redrive_failed-AllMirrored r kids (some child) s h = h
  redrive_failed-AllMirrored r kids none s h =
      if_both {A = Reply × Sync} (λ x. AllMirrored c x.1) (leb (redrive_cap c) (length kids))
        (limit_reached, s) _ h
        (attempt-AllMirrored _ _ (
          All-append (IsMirrored c s.links) s.records _ h
            (fresh-IsMirrored s.links _ refl refl, tt)))

  redrive_found-AllMirrored :
      (o : Option Record) (s : Sync)
      → AllMirrored c s
      → AllMirrored c (redrive_found c send uuid4 o s).1
  unfolding redrive_found
  redrive_found-AllMirrored none s h = h
  redrive_found-AllMirrored (some r) s h =
      if_both {A = Reply × Sync} (λ x. AllMirrored c x.1) (is_failed r.status) _ (not_failed, s)
        (redrive_failed-AllMirrored r _ _ s h) h

  step-AllMirrored : (op : Op) (s : Sync) → AllMirrored c s → AllMirrored c (step c send uuid4 op s)
  unfolding step flush_pending redrive delete_target
  step-AllMirrored (Op.mirror incident action actor) s h =
      export-AllMirrored incident action actor s h
  step-AllMirrored (Op.flush max_records) s h = attempt_each-AllMirrored _ s h
  step-AllMirrored (Op.recover id) s h =
      redrive_found-AllMirrored (find record_key id s.records) s h
  step-AllMirrored (Op.delete id) s h = h
  step-AllMirrored (Op.wait time) s h = h

  -- Whatever calls of `export`, `flush_pending`, `redrive` and `delete_target` there are, whatever the
  -- transport answers and however time passes, every record that is pending has made fewer attempts
  -- than max(1, incident_sync_max_attempts), and for every record that is synced there is a link of
  -- its incident to its target, if it was so at first.
  pub run-AllMirrored :
      (ops : List Op) (s : Sync) → AllMirrored c s → AllMirrored c (run c send uuid4 ops s)
  unfolding run
  run-AllMirrored [] s h = h
  run-AllMirrored (op ∷ ops) s h =
      run-AllMirrored ops (step c send uuid4 op s) (step-AllMirrored op s h)
