-- ===== src/IncidentSync/Links.antt =====
-- The links of backend/app/incident_sync.py, which no attempt loses.
use aira_agent.Base.{
  ℕ, String, Option, none, some, List, [], ◌∷◌, Bool, true, ◌&&◌, leb, ◌==◌, ◌≡◌, arith, truthy,
  any, length, eq_iff, if_both,
}
use aira_agent.Base.Table.{find}
use aira_agent.IncidentSync.Row.{
  Status, synced, is_synced, Target, Snapshot, Record, Link, Sync, Settings, record_key, Sent,
  accepted, refused, Transport, is_link, is_failed,
}
use aira_agent.IncidentSync.Records.{
  linked, new_link, upsert_link, links_after, attempt_to, attempt_found, attempt, attempt_each,
  export, flush_pending, redrive_failed, redrive_found, redrive, delete_target, Reply, redrive_cap,
  limit_reached, not_failed,
}
use aira_agent.IncidentSync.Runs.{Op, step, run}

-- A test that the links meet, for a link of an incident and a target.
abbrev pub LinkTest : Type 0
LinkTest = Link → Bool

-- What a success makes of a link still meets the test if the link did.
abbrev pub Grows : LinkTest → Type 0
Grows p =
    (r : Record) (ref url : Option String) (now : ℕ) (l : Link)
    → p l ≡ true
    → p (linked r ref url now l) ≡ true

pub any-upsert_link :
    (p : LinkTest) (grows : Grows p) (id : String) (r : Record) (ref url : Option String) (now : ℕ)
    (ls : List Link)
    → any p ls ≡ true
    → any p (upsert_link id r ref url now ls) ≡ true
unfolding any upsert_link
any-upsert_link p grows id r ref url now [] h = absurd (cc)
any-upsert_link p grows id r ref url now (l ∷ ls) h =
    ground (arith, grows r ref url now l, any-upsert_link p grows id r ref url now ls)

-- A success leaves a link of its record's incident and target.
pub upsert_link_self :
    (id : String) (r : Record) (ref url : Option String) (now : ℕ) (ls : List Link)
    → any (is_link r.snapshot.incident_id r.target_id) (upsert_link id r ref url now ls) ≡ true
unfolding any upsert_link linked new_link
upsert_link_self id r ref url now [] =
    ground
      (arith, eq_iff r.snapshot.incident_id r.snapshot.incident_id, eq_iff r.target_id r.target_id)
upsert_link_self id r ref url now (l ∷ ls) = ground (arith, upsert_link_self id r ref url now ls)

pub any-links_after :
    (p : LinkTest) (grows : Grows p) (id : String) (now : ℕ) (sent : Sent) (r : Record)
    (ls : List Link)
    → any p ls ≡ true
    → any p (links_after id now sent r ls) ≡ true
unfolding links_after
any-links_after p grows id now (accepted ref url) r ls h =
    any-upsert_link p grows id r ref url now ls h
any-links_after p grows id now (refused e) r ls h = h

pub is_link-Grows : (incident_id target_id : String) → Grows (is_link incident_id target_id)
unfolding linked
is_link-Grows incident_id target_id r ref url now l h = h

module _ (c : Settings) (send : Transport) (uuid4 : ℕ → String) (p : LinkTest)
    (grows : Grows p) where
  any-attempt_to :
      (t : Option Target) (r : Record) (s : Sync)
      → any p s.links ≡ true
      → any p (attempt_to c send uuid4 t r s).1.links ≡ true
  unfolding attempt_to
  any-attempt_to none r s h = h
  any-attempt_to (some t) r s h =
      any-links_after p grows (uuid4 s.draws) s.now (send s.sends t r) r s.links h

  any-attempt_found :
      (o : Option Record) (s : Sync)
      → any p s.links ≡ true
      → any p (attempt_found c send uuid4 o s).1.links ≡ true
  unfolding attempt_found
  any-attempt_found none s h = h
  any-attempt_found (some r) s h =
      if_both {A = Status × Sync} (λ x. any p x.1.links ≡ true) (is_synced r.status) (synced, s) _ h
        (any-attempt_to _ r s h)

  any-attempt :
      (id : String) (s : Sync)
      → any p s.links ≡ true
      → any p (attempt c send uuid4 id s).1.links ≡ true
  unfolding attempt
  any-attempt id s h = any-attempt_found (find record_key id s.records) s h

  any-attempt_each :
      (ids : List String) (s : Sync)
      → any p s.links ≡ true
      → any p (attempt_each c send uuid4 ids s).1.links ≡ true
  unfolding attempt_each
  any-attempt_each [] s h = h
  any-attempt_each (id ∷ ids) s h =
      any-attempt_each ids (attempt c send uuid4 id s).1 (any-attempt id s h)

  any-export :
      (incident : Option Snapshot) (action : String) (actor : Option String) (s : Sync)
      → any p s.links ≡ true
      → any p (export c send uuid4 incident action actor s).1.links ≡ true
  unfolding export
  any-export none action actor s h = h
  any-export (some incident) action actor s h =
      if_both {A = ℕ × Sync} (λ x. any p x.1.links ≡ true) (incident.incident_id == "") (0, s) _ h
        (any-attempt_each _ _ h)

  any-redrive_failed :
      (r : Record) (kids : List Record) (o : Option Record) (s : Sync)
      → any p s.links ≡ true
      → any p (redrive_failed c send uuid4 r kids o s).1.links ≡ true
  unfolding redrive_failed
  any-redrive_failed r kids (some child) s h = h
  any-redrive_failed r kids none s h =
      if_both {A = Reply × Sync} (λ x. any p x.1.links ≡ true) (leb (redrive_cap c) (length kids))
        (limit_reached, s) _ h (any-attempt _ _ h)

  any-redrive_found :
      (o : Option Record) (s : Sync)
      → any p s.links ≡ true
      → any p (redrive_found c send uuid4 o s).1.links ≡ true
  unfolding redrive_found
  any-redrive_found none s h = h
  any-redrive_found (some r) s h =
      if_both {A = Reply × Sync} (λ x. any p x.1.links ≡ true) (is_failed r.status) _
        (not_failed, s) (any-redrive_failed r _ _ s h) h

  any-step :
      (op : Op) (s : Sync) → any p s.links ≡ true → any p (step c send uuid4 op s).links ≡ true
  unfolding step flush_pending redrive delete_target
  any-step (Op.mirror incident action actor) s h = any-export incident action actor s h
  any-step (Op.flush max_records) s h = any-attempt_each _ s h
  any-step (Op.recover id) s h = any-redrive_found (find record_key id s.records) s h
  any-step (Op.delete id) s h = h
  any-step (Op.wait time) s h = h

  any-run :
      (ops : List Op) (s : Sync)
      → any p s.links ≡ true
      → any p (run c send uuid4 ops s).links ≡ true
  unfolding run
  any-run [] s h = h
  any-run (op ∷ ops) s h = any-run ops (step c send uuid4 op s) (any-step op s h)

-- The link of an incident and a target, with a reference.
unfoldable pub refers : String → String → Link → Bool
refers incident_id target_id l = is_link incident_id target_id l && truthy l.external_ref

refers-Grows : (incident_id target_id : String) → Grows (refers incident_id target_id)
unfolding refers linked
refers-Grows incident_id target_id r ref url now l h = ground arith

-- A good reference is never lost: whatever calls of `export`, `flush_pending`, `redrive` and
-- `delete_target` follow, whatever the transport answers and however time passes, an incident that is linked to a target by a link that has a
-- reference stays linked to it by such a link.
pub run_keeps_reference :
    (c : Settings) (send : Transport) (uuid4 : ℕ → String) (incident_id target_id : String)
    (ops : List Op) (s : Sync)
    → any (refers incident_id target_id) s.links ≡ true
    → any (refers incident_id target_id) (run c send uuid4 ops s).links ≡ true
run_keeps_reference c send uuid4 incident_id target_id ops s h =
    any-run c send uuid4 (refers incident_id target_id) (refers-Grows incident_id target_id) ops s h
