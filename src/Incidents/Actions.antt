-- ===== src/Incidents/Actions.antt =====
-- The operator actions of backend/app/incidents.py: each is `_apply` of a function on the row, which
-- may ask for one trail entry. A silence is given in seconds, and times are in microseconds.
use Prim.Native.String.{◌++◌ as append}
use aira_agent.Base.{
  ℕ, ◌+◌, ◌*◌, min, String, Option, none, some, List, [], ◌∷◌, ◌++◌, Bool, true, false, not, ◌&&◌,
  ◌==◌, if◌then◌else◌,
}
use aira_agent.Base.Int.{ℤ, at_least}
use aira_agent.Base.Table.{find, update}
use aira_agent.Base.Text.{take_text, strip}
use aira_agent.Incidents.Row.{
  State, opened, acknowledged, silenced, Incident, IncidentEvent, Exported, Incidents, IncidentDict,
  Settings, incident_id, log_event, is_recovered, unsilenced_state, clean,
}
use aira_agent.Incidents.Observe.{recover}

-- What a row function returns: the row as it wrote it, and the action and detail to log, if any.
abbrev pub Action : Type 0
Action = Incident → Incident × Option (String × Option String)

-- The trail entry and the export that follow a row function.
unfoldable pub logged :
    Option (String × Option String) → Option String → String → State → ℕ → List IncidentEvent
logged none actor id state now = []
logged (some (action, detail)) actor id state now = log_event id action actor detail state now ∷ []

exports : Option (String × Option String) → Option String → String → List Exported
exports none actor id = []
exports (some (action, detail)) actor id =
    record { incident_id = id; action = action; actor = actor } ∷ []

unfoldable pub apply_found :
    Option Incident → String → Action → Option String → Incidents → Option IncidentDict × Incidents
unfolding exports
apply_found none id fn actor s = (none, s)
apply_found (some r) id fn actor s =
    let (r', entry) = fn r in
    (
      some (clean s.now r'),
      record s {
        rows = update incident_id id (λ x. (fn x).0) s.rows;
        events = s.events ++ logged entry actor r.id r'.state s.now;
        exported = s.exported ++ exports entry actor id;
      },
    )

-- `_apply`
unfoldable pub apply : String → Action → Option String → Incidents → Option IncidentDict × Incidents
unfolding apply_found
apply id fn actor s = apply_found (find incident_id id s.rows) id fn actor s

abbrev is_open : State → Bool
is_open opened = true
is_open _ = false

abbrev bounded_note : Option String → Option String → Option String
bounded_note none old = old
bounded_note (some note) old = some (take_text 280 note)

-- note[:280] if note else None
abbrev note_detail : Option String → Option String
note_detail none = none
note_detail (some note) = if note == "" then none else some (take_text 280 note)

unfoldable pub acknowledge_row : Option String → ℕ → Action
acknowledge_row note now r = (
  record r {
    acknowledged_at = some now;
    state = if is_open r.state then acknowledged else r.state;
    note = bounded_note note r.note;
  },
  some ("acknowledged", note_detail note),
)

unfoldable pub acknowledge :
    String → Option String → Option String → Incidents → Option IncidentDict × Incidents
acknowledge id note actor s = apply id (acknowledge_row note s.now) actor s

-- min(max_s, max(1, int(seconds if seconds is not None else default_s)))
unfoldable pub silence_seconds : Settings → Option ℤ → ℕ
silence_seconds c seconds =
    let asked : ℤ = elim seconds [ none ↦ c.incident_default_silence_seconds | some z ↦ z ] in
    min (at_least 1 c.incident_max_silence_seconds) (at_least 1 asked)

abbrev pub microseconds : ℕ
microseconds = 1000000

-- The time is written by `isoformat`, a function of the time.
unfoldable pub silence_row : (ℕ → String) → ℕ → ℕ → Action
silence_row isoformat secs now r =
    let until = now + secs * microseconds in
    (
      record r { state = silenced; silenced_until = some until },
      some ("silenced", some (append "until " (isoformat until))),
    )

unfoldable pub silence :
    (ℕ → String)
    → Settings
    → String
    → Option ℤ
    → Option String
    → Incidents
    → Option IncidentDict × Incidents
silence isoformat c id seconds actor s =
    apply id (silence_row isoformat (silence_seconds c seconds) s.now) actor s

unfoldable pub unsilence_row : Action
unsilence_row r =
    (record r { silenced_until = none; state = unsilenced_state r }, some ("unsilenced", none))

unfoldable pub unsilence : String → Option String → Incidents → Option IncidentDict × Incidents
unsilence id actor s = apply id unsilence_row actor s

unfoldable pub note_row : String → Action
note_row note r =
    let kept = take_text 280 note in
    (record r { note = some kept }, some ("note_updated", if kept == "" then none else some kept))

unfoldable pub set_note :
    String → String → Option String → Incidents → Option IncidentDict × Incidents
set_note id note actor s = apply id (note_row note) actor s

-- prev and prev != handle
abbrev reassigns : Option String → String → Bool
reassigns none handle = false
reassigns (some prev) handle = not (prev == "") && not (prev == handle)

unfoldable pub assign_row : String → ℕ → Action
assign_row handle now r = (
  record r { assignee = some handle; assigned_at = some now },
  some
      (if reassigns r.assignee handle then "reassigned" else "assigned", some (append "→ " handle)),
)

unfoldable pub assign :
    String → String → Option String → Incidents → Option IncidentDict × Incidents
assign id assignee actor s =
    let handle = take_text 80 (strip assignee) in
    if handle == "" then (none, s) else apply id (assign_row handle s.now) actor s

-- f"was {prev}" if prev else None
abbrev was : Option String → Option String
was none = none
was (some prev) = if prev == "" then none else some (append "was " prev)

unfoldable pub unassign_row : Action
unassign_row r =
    (record r { assignee = none; assigned_at = none }, some ("unassigned", was r.assignee))

unfoldable pub unassign : String → Option String → Incidents → Option IncidentDict × Incidents
unassign id actor s = apply id unassign_row actor s

unfoldable pub recovered_row : String → ℕ → Action
recovered_row reason now r =
    if is_recovered r.state
    then (r, none)
    else (recover now r, some ("recovered", some (take_text 280 reason)))

unfoldable pub mark_recovered :
    String → String → Option String → Incidents → Option IncidentDict × Incidents
mark_recovered id reason actor s = apply id (recovered_row reason s.now) actor s
