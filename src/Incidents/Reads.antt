-- ===== src/Incidents/Reads.antt =====
-- The reads `list`, `get` and `history` of backend/app/incidents.py. The trail is kept in the order of
-- its ids, which is that of the list of events.
use aira_agent.Base.{
  ℕ, min, String, Option, none, some, List, [], ◌∷◌, ◌++◌, map, Bool, true, false, not, ◌≡◌, ◌||◌,
  ◌==◌, if◌then◌else◌, leb, keep, take, refl, Bool-cases, inl, inr, ap, ◌∙◌,
}
use mathlib.Core.List.{append-nil}
use aira_agent.Base.Table.{find, find-key}
use aira_agent.Base.Order.{sort_by}
use aira_agent.Incidents.Row.{
  State, Incident, IncidentEvent, Incidents, IncidentDict, incident_id, is_recovered, clean,
  log_event,
}
use aira_agent.Incidents.Actions.{Action, apply, apply_found, logged}

-- ORDER BY last_seen DESC
unfoldable pub seen_later : Incident → Incident → Bool
seen_later a b = leb b.last_seen a.last_seen

unfoldable pub list : Bool → ℕ → Incidents → List IncidentDict
list include_recovered limit s = map (clean s.now) (
    take (min limit 200)
      (sort_by seen_later (keep (λ r. include_recovered || not (is_recovered r.state)) s.rows)))

cleaned : ℕ → Option Incident → Option IncidentDict
cleaned now none = none
cleaned now (some r) = some (clean now r)

unfoldable pub get : String → Incidents → Option IncidentDict
unfolding cleaned
get id s = cleaned s.now (find incident_id id s.rows)

unfoldable pub trail : String → Incidents → List IncidentEvent
trail id s = keep (λ e. e.incident_id == id) s.events

-- The dictionary of one entry.
pub record HistoryEntry : Type 0 where
  pub action : String
  pub actor : Option String
  pub detail : Option String
  pub state : State
  pub at : ℕ

history_entry : IncidentEvent → HistoryEntry
history_entry e = record {
  action = e.action;
  actor = e.actor;
  detail = e.detail;
  state = e.state;
  at = e.created_at;
}

unfoldable pub history : String → ℕ → Incidents → List HistoryEntry
unfolding history_entry
history id limit s = map history_entry (take (min limit 200) (trail id s))

keep-append :
    (p : IncidentEvent → Bool) (es fs : List IncidentEvent)
    → keep p (es ++ fs) ≡ keep p es ++ keep p fs
unfolding keep
keep-append p [] fs = refl
keep-append p (e ∷ es) fs = elim (Bool-cases (p e)) [
  | inl h ↦ rw h (ap (λ t. e ∷ t) (keep-append p es fs))
  | inr h ↦ rw h (keep-append p es fs)
]

trail-logged :
    (entry : Option (String × Option String)) (actor : Option String) (id other : String)
    (st : State) (now : ℕ)
    → keep (λ e. e.incident_id == other) (logged entry actor id st now)
      ≡ (if id == other then logged entry actor id st now else [])
unfolding keep logged log_event
trail-logged none actor id other st now = elim (Bool-cases (id == other)) [
  | inl e ↦ rw e refl
  | inr e ↦ rw e refl
]
trail-logged (some (action, detail)) actor id other st now = refl

appended :
    {A : Type 0} (b : Bool) (xs ys : List A)
    → xs ++ (if b then ys else []) ≡ (if b then xs ++ ys else xs)
appended true xs ys = refl
appended false xs ys = append-nil xs

-- An operator's action on an incident of the ledger adds to its trail what the action has to log, at
-- the end, with the state that the action left, and adds to no other incident's trail.
pub apply-trail :
    (id other : String) (fn : Action) (actor : Option String) (s : Incidents) (r : Incident)
    → find incident_id id s.rows ≡ some r
    → trail other (apply id fn actor s).1 ≡ (
        if id == other
        then trail other s ++ logged (fn r).1 actor id (fn r).0.state s.now
        else trail other s)
unfolding apply apply_found trail
apply-trail id other fn actor s r e = rw e (
    keep-append at_other s.events (entries r.id)
    ∙ ap (λ t. keep at_other s.events ++ t)
        (trail-logged (fn r).1 actor r.id other (fn r).0.state s.now)
    ∙ appended (r.id == other) _ _
    ∙ ap (λ k. if k == other then keep at_other s.events ++ entries k else keep at_other s.events)
        (find-key incident_id id s.rows e))
  where
    at_other : IncidentEvent → Bool
    at_other v = v.incident_id == other

    entries : String → List IncidentEvent
    entries k = logged (fn r).1 actor k (fn r).0.state s.now
