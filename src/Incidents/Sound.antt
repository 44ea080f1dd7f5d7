-- ===== src/Incidents/Sound.antt =====
-- What every row of the ledger of backend/app/incidents.py satisfies, whatever the calls: the time
-- stamps that its state promises are set, and the operator's texts are within their columns.
use aira_agent.Base.{
  ℕ, ◌≤◌, String, Option, none, some, Bool, true, not, ◌≡◌, ◌&&◌, All, arith, refl, if_both,
}
use aira_agent.Base.Text.{size, size-take_text, strip}
use aira_agent.Incidents.Row.{
  Incident, Incidents, Settings, State, opened, acknowledged, silenced, recovered, is_some,
  unsilenced_state,
}
use aira_agent.Incidents.Observe.{new_incident, recurs, reopen, touch, recover}
use aira_agent.Incidents.Actions.{
  acknowledge_row, silence_row, unsilence_row, note_row, assign_row, unassign_row,
}
use aira_agent.Incidents.Ledger.{Kept, Reach, All-Reach}

-- The time stamps that a state promises, given acknowledged_at, silenced_until and recovered_at.
unfoldable pub stamped : State → Option ℕ → Option ℕ → Option ℕ → Bool
stamped opened ack until rec = not (is_some until)
stamped acknowledged ack until rec = is_some ack && not (is_some until)
stamped silenced ack until rec = is_some until
stamped recovered ack until rec = is_some rec && not (is_some until)

unfoldable pub AtMost : ℕ → Option String → Type 0
AtMost n none = Unit
AtMost n (some s) = size s ≤ n

unfoldable pub IsSound : Incident → Type 0
IsSound r =
    (stamped r.state r.acknowledged_at r.silenced_until r.recovered_at ≡ true)
    × AtMost 280 r.note
    × AtMost 80 r.assignee

stamped_acknowledge :
    (note : Option String) (now : ℕ) (r : Incident)
    → IsSound r
    → IsSound (acknowledge_row note now r).0
unfolding IsSound stamped AtMost acknowledge_row
stamped_acknowledge none now r h = (ground arith, h.1, h.2)
stamped_acknowledge (some note) now r h = (ground arith, size-take_text 280 note, h.2)

stamped_unsilence :
    (r : Incident) → stamped (unsilenced_state r) r.acknowledged_at none r.recovered_at ≡ true
unfolding stamped unsilenced_state
stamped_unsilence r = ground arith

IsSound-kept : (isoformat : ℕ → String) → Kept isoformat IsSound
unfolding IsSound AtMost stamped new_incident touch reopen recover silence_row unsilence_row
    note_row assign_row unassign_row
IsSound-kept isoformat = record {
  starts = λ a id now. (refl, tt, tt);
  touches = λ a now r h. if_both IsSound (recurs now r) _ _ (refl, tt, h.2) h;
  recovery = λ now r h. (refl, h.1, h.2);
  acknowledging = stamped_acknowledge;
  silencing = λ secs now r h. (refl, h.1, h.2);
  unsilencing = λ r h. (stamped_unsilence r, h.1, h.2);
  noting = λ note r h. (h.0, size-take_text 280 note, h.2);
  assigning = λ handle now r h. (h.0, h.1, size-take_text 80 (strip handle));
  unassigning = λ r h. (h.0, h.1, tt);
}

-- Whatever the calls of the service and however time passes, if every row of the ledger is sound at
-- first then every row is sound after: a silenced row has the end of its silence and no other row
-- has one, an acknowledged row has the time of its acknowledgement and a recovered row that of its
-- recovery, the note has at most 280 characters and the assignee at most 80.
pub Reach-IsSound :
    (isoformat : ℕ → String) (c : Settings) {s t : Incidents}
    → Reach isoformat c s t
    → All IsSound s.rows
    → All IsSound t.rows
Reach-IsSound isoformat c path h = All-Reach isoformat IsSound (IsSound-kept isoformat) c path h
