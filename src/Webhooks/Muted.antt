-- ===== src/Webhooks/Muted.antt =====
-- An operator's silence of backend/app/incidents.py in the routing of backend/app/webhooks.py.
use aira_agent.Base.{String, List, ◌++◌, ◌≡◌, ◌≢◌, All}
use aira_agent.Incidents.Row.{Incidents, signal_of}
use aira_agent.Incidents.Row as Ledger
use aira_agent.Webhooks.Row.{Delivery, Payload, Webhooks}

-- A payload that is not an alert of a signal.
abbrev pub NotAbout : String → Payload → Type 0
NotAbout sig (Payload.alert a) = signal_of a ≢ sig
NotAbout sig _ = Unit

-- What a call adds to the deliveries, all of it about other signals.
abbrev pub AddsOthers : String → Webhooks → Webhooks → Type 0
AddsOthers sig s t =
    (added : List Delivery) × (t.deliveries ≡ s.deliveries ++ added)
    × All (λ x. NotAbout sig x.payload) added
