-- ===== src/Incidents/Ledger.antt =====
-- The operations of `OperatorIncidentService` as steps of the ledger, and what follows from a property
-- of one row that the row functions keep.
use aira_agent.Base.{
  ℕ, String, Option, List, [], ◌∷◌, map, All, All-append, inl, inr, Option-cases, if_both,
}
use aira_agent.Base.Int.{ℤ}
use aira_agent.Base.Table.{find, update, All-update}
use aira_agent.Base.Text.{take_text, strip}
use aira_agent.Incidents.Row.{
  Incident, Incidents, Alert, Settings, IncidentDict, row_signal, incident_id, signal_of,
}
use aira_agent.Incidents.Observe.{
  Sweep, begin_sweep, new_incident, recurs, touch, observe_known, observe_found, observe_alert,
  observe_loop, commit_sweep, observe, recover, recover_row, recover_stale,
}
use aira_agent.Incidents.Actions.{
  Action, apply, apply_found, acknowledge, acknowledge_row, silence, silence_row, silence_seconds,
  unsilence, unsilence_row, set_note, note_row, assign, assign_row, unassign, unassign_row,
  mark_recovered, recovered_row,
}

-- A call of the service, or time that passes. The formatting of a time and the settings are fixed.
pub data Step (isoformat : ℕ → String) (c : Settings) : Incidents → Incidents → Type 0 where
  observes :
      {s : Incidents} (alerts : List (Alert × String)) → Step isoformat c s (observe alerts s)
  clears : {s : Incidents} (active : List String) → Step isoformat c s (recover_stale active s)
  acknowledges :
      {s : Incidents} (id : String) (note actor : Option String)
      → Step isoformat c s (acknowledge id note actor s).1
  silences :
      {s : Incidents} (id : String) (seconds : Option ℤ) (actor : Option String)
      → Step isoformat c s (silence isoformat c id seconds actor s).1
  unsilences :
      {s : Incidents} (id : String) (actor : Option String)
      → Step isoformat c s (unsilence id actor s).1
  notes :
      {s : Incidents} (id note : String) (actor : Option String)
      → Step isoformat c s (set_note id note actor s).1
  assigns :
      {s : Incidents} (id assignee : String) (actor : Option String)
      → Step isoformat c s (assign id assignee actor s).1
  unassigns :
      {s : Incidents} (id : String) (actor : Option String)
      → Step isoformat c s (unassign id actor s).1
  recovers :
      {s : Incidents} (id reason : String) (actor : Option String)
      → Step isoformat c s (mark_recovered id reason actor s).1
  waits : {s : Incidents} (now : ℕ) → Step isoformat c s (record s { now = now })

pub data Reach (isoformat : ℕ → String) (c : Settings) : Incidents → Incidents → Type 0 where
  done : {s : Incidents} → Reach isoformat c s s
  next : {s t u : Incidents} → Step isoformat c s t → Reach isoformat c t u → Reach isoformat c s u

-- What the row functions must keep, for a property of one row to hold of all rows.
pub record Kept {κ} (isoformat : ℕ → String) (P : Incident → Type κ) : Type κ where
  pub starts : (a : Alert) (id : String) (now : ℕ) → P (new_incident a id now)
  pub touches : (a : Alert) (now : ℕ) (r : Incident) → P r → P (touch a now r)
  pub recovery : (now : ℕ) (r : Incident) → P r → P (recover now r)
  pub acknowledging :
      (note : Option String) (now : ℕ) (r : Incident) → P r → P (acknowledge_row note now r).0
  pub silencing : (secs now : ℕ) (r : Incident) → P r → P (silence_row isoformat secs now r).0
  pub unsilencing : (r : Incident) → P r → P (unsilence_row r).0
  pub noting : (note : String) (r : Incident) → P r → P (note_row note r).0
  pub assigning :
      (handle : String) (now : ℕ) (r : Incident)
      → P r
      → P (assign_row (take_text 80 (strip handle)) now r).0
  pub unassigning : (r : Incident) → P r → P (unassign_row r).0

module _ {κ} (P : Incident → Type κ) where
  pub All-apply :
      (id : String) (fn : Action) (actor : Option String) (s : Incidents)
      → ((r : Incident) → P r → P (fn r).0)
      → All P s.rows
      → All P (apply id fn actor s).1.rows
  unfolding apply apply_found
  All-apply id fn actor s keeps h = elim (Option-cases (find incident_id id s.rows)) [
    | inl e ↦ rw e h
    | inr (r, e) ↦ rw e (All-update incident_id P id (λ x. (fn x).0) s.rows (λ x _. keeps x) h)
  ]

  All-map_row :
      (f : Incident → Incident) (rs : List Incident)
      → ((r : Incident) → P r → P (f r))
      → All P rs
      → All P (map f rs)
  All-map_row f [] keeps h = tt
  All-map_row f (r ∷ rs) keeps h = (keeps r h.0, All-map_row f rs keeps h.1)

  -- rows and added rows of a sweep under way
  AllSwept : Sweep → Type κ
  AllSwept w = All P w.rows × All P w.added

module _ {κ} (isoformat : ℕ → String) (P : Incident → Type κ) (k : Kept isoformat P) where
  All-observe_alert :
      (a : Alert) (id : String) (now : ℕ) (w : Sweep)
      → AllSwept P w
      → AllSwept P (observe_alert (a, id) now w)
  unfolding AllSwept observe_alert observe_found observe_known
  All-observe_alert a id now w h = elim (Option-cases (find row_signal (signal_of a) w.rows)) [
    | inl e ↦
        rw e (h.0, All-append P w.added (new_incident a id now ∷ []) h.1 (k.starts a id now, tt))
    | inr (r, e) ↦ rw e (if_both (AllSwept P) (recurs now r) _ _ (written, h.1) (written, h.1))
  ]
    where
      written : All P (update row_signal (signal_of a) (touch a now) w.rows)
      written =
          All-update row_signal P (signal_of a) (touch a now) w.rows (λ x _. k.touches a now x) h.0

  All-observe_loop :
      (alerts : List (Alert × String)) (now : ℕ) (w : Sweep)
      → AllSwept P w
      → AllSwept P (observe_loop alerts now w)
  unfolding observe_loop
  All-observe_loop [] now w h = h
  All-observe_loop ((a, id) ∷ alerts) now w h =
      All-observe_loop alerts now (observe_alert (a, id) now w) (All-observe_alert a id now w h)

  All-commit :
      (w : Sweep) (s : Incidents) → AllSwept P w → All P s.rows → All P (commit_sweep w s).rows
  unfolding commit_sweep AllSwept
  All-commit w s h g = if_both (λ t. All P t.rows) _ _ s (All-append P w.rows w.added h.0 h.1) g

  All-observe :
      (alerts : List (Alert × String)) (s : Incidents)
      → All P s.rows
      → All P (observe alerts s).rows
  unfolding observe begin_sweep AllSwept
  All-observe [] s h = h
  All-observe (a ∷ alerts) s h =
      All-commit _ s (All-observe_loop (a ∷ alerts) s.now (begin_sweep s) (h, tt)) h

  All-Step : (c : Settings) {s t : Incidents} → Step isoformat c s t → All P s.rows → All P t.rows
  unfolding recover_stale recover_row acknowledge silence unsilence set_note assign unassign
      mark_recovered recovered_row
  All-Step c {s} (observes alerts) h = All-observe alerts s h
  All-Step c {s} (clears active) h =
      All-map_row P _ s.rows (λ r g. if_both P _ _ r (k.recovery s.now r g) g) h
  All-Step c {s} (acknowledges id note actor) h =
      All-apply P id _ actor s (k.acknowledging note s.now) h
  All-Step c {s} (silences id seconds actor) h =
      All-apply P id _ actor s (k.silencing (silence_seconds c seconds) s.now) h
  All-Step c {s} (unsilences id actor) h = All-apply P id _ actor s k.unsilencing h
  All-Step c {s} (notes id note actor) h = All-apply P id _ actor s (k.noting note) h
  All-Step c {s} (assigns id assignee actor) h =
      if_both {A = Option IncidentDict × Incidents} (λ t. All P t.1.rows) _ _ _ h
        (All-apply P id _ actor s (k.assigning assignee s.now) h)
  All-Step c {s} (unassigns id actor) h = All-apply P id _ actor s k.unassigning h
  All-Step c {s} (recovers id reason actor) h =
      All-apply P id _ actor s
        (λ r g.
          if_both {A = Incident × Option (String × Option String)} (λ e. P e.0) _ _ _ g
            (k.recovery s.now r g))
        h
  All-Step c (waits now) h = h

  pub All-Reach :
      (c : Settings) {s t : Incidents} → Reach isoformat c s t → All P s.rows → All P t.rows
  All-Reach c done h = h
  All-Reach c (next step rest) h = All-Reach c rest (All-Step c step h)
