-- ===== src/Incidents/Silence.antt =====
-- How long a silence of backend/app/incidents.py lasts, and what the alert router sees of it.
use aira_agent.Base.{
  ℕ, ◌≤◌, ◌<◌, ◌+◌, ◌*◌, String, Option, none, some, List, [], ◌∷◌, map, Bool, true, ◌≡◌, arith,
  refl, keep, eq_iff,
}
use aira_agent.Base.Int.{ℤ, at_least, at_least-ge}
use aira_agent.Base.Table.{find, update, find-update_self}
use aira_agent.JobPolicy.{contains}
use aira_agent.Incidents.Row.{
  Incident, Incidents, Settings, incident_id, row_signal, effective_state, unsilenced_state,
  is_silenced,
}
use aira_agent.Incidents.Observe.{mutes, silenced_signals}
use aira_agent.Incidents.Actions.{
  Action, apply, apply_found, silence, silence_row, silence_seconds, microseconds,
}

-- The signals of a query contain that of a row it keeps.
contains-keep :
    (p : Incident → Bool) (id : String) (rs : List Incident) {r : Incident}
    → find incident_id id rs ≡ some r
    → p r ≡ true
    → contains r.signal (map row_signal (keep p rs)) ≡ true
unfolding find keep contains
contains-keep p id [] h e = ground arith
contains-keep p id (x ∷ xs) {r} h e =
    ground (arith, eq_iff r.signal r.signal, contains-keep p id xs {r = r})

mutes-silence_row :
    (isoformat : ℕ → String) (secs now later : ℕ) (r : Incident)
    → later < now + secs * microseconds
    → mutes later (silence_row isoformat secs now r).0 ≡ true
unfolding mutes silence_row
mutes-silence_row isoformat secs now later r h = ground arith

-- Whatever number of seconds is asked for, a negative one or none included, a silence lasts at least
-- one second and at most the larger of one second and the configured maximum; and if the incident is
-- in the ledger, its signal is muted at every time before the end of that silence.
pub silence_mutes :
    (isoformat : ℕ → String) (c : Settings) (id : String) (seconds : Option ℤ)
    (actor : Option String) (s : Incidents) (r : Incident) (later : ℕ)
    → find incident_id id s.rows ≡ some r
    → later < s.now + silence_seconds c seconds * microseconds
    → (1 ≤ silence_seconds c seconds)
      × (silence_seconds c seconds ≤ at_least 1 c.incident_max_silence_seconds)
      × (contains r.signal
            (silenced_signals (record (silence isoformat c id seconds actor s).1 { now = later }))
          ≡ true)
unfolding silence apply apply_found silenced_signals silence_seconds silence_row
silence_mutes isoformat c id seconds actor s r later h b = (
  ground (
    arith,
    at_least-ge 1 c.incident_max_silence_seconds,
    at_least-ge 1 (elim seconds [ none ↦ c.incident_default_silence_seconds | some z ↦ z ]),
  ),
  ground arith,
  rw h (
      contains-keep (mutes later) r.id (update incident_id id (λ x. (fn x).0) s.rows)
        (find-update_self incident_id id (λ x. (fn x).0) s.rows (λ x. refl) h)
        (mutes-silence_row isoformat (silence_seconds c seconds) s.now later r b)),
)
  where
    fn : Action
    fn = silence_row isoformat (silence_seconds c seconds) s.now

-- The router and the dashboard agree at every time: a row mutes its signal exactly when the state
-- shown of it is silenced.
pub mutes-effective_state :
    (now : ℕ) (r : Incident) → mutes now r ≡ is_silenced (effective_state now r)
unfolding mutes effective_state unsilenced_state
mutes-effective_state now r = ground arith
