-- ===== src/Webhooks/Decision.antt =====
-- The routing decision of backend/app/webhooks.py: `_csv_set` and `alert_routing_decision`.
use Prim.Native.Char.{code}
use aira_agent.Base.{
  ℕ, ◌*◌, String, Option, none, some, List, [], ◌∷◌, Bool, true, false, not, ◌&&◌, ltb, eqb,
  if◌then◌else◌, ◌==◌, is_text,
}
use aira_agent.Base.Int.{ℤ, pos, negsuc}
use aira_agent.Base.Text.{strip}
use aira_agent.JobPolicy.{contains}
use aira_agent.Incidents.Row.{Alert}
use aira_agent.Webhooks.Row.{Destination}

-- a character put before the first part
abbrev onto : String → List String → List String
onto c [] = c ∷ []
onto c (p ∷ ps) = p ∷ ps

-- s.split(sep) for one character
unfoldable pub split_from : ℕ → String → String × List String
split_from sep String.[] = ("", [])
split_from sep (String.◌∷◌ c s) =
    let (part, parts) = split_from sep s in
    if eqb (code c) sep then ("", part ∷ parts) else (String.◌∷◌ c part, parts)

-- {t.strip() for t in parts if t.strip()}
unfoldable pub items_of : List String → List String
items_of [] = []
items_of (t ∷ ts) = let rest = items_of ts in if strip t == "" then rest else strip t ∷ rest

-- items or None
abbrev or_no_set : List String → Option (List String)
or_no_set [] = none
or_no_set (t ∷ ts) = some (t ∷ ts)

unfoldable pub csv_set : Option String → Option (List String)
csv_set none = none
csv_set (some value) =
    if value == ""
    then none
    else or_no_set (let (part, parts) = split_from 44 value in items_of (part ∷ parts))

-- whether a filter lets a text through: allowed is None or text in allowed
unfoldable pub lets_through : Option (List String) → Option String → Bool
lets_through none text = true
lets_through (some allowed) none = false
lets_through (some allowed) (some text) = contains text allowed

-- _SEVERITY_RANK.get(severity, default)
unfoldable pub severity_rank : ℕ → String → ℕ
severity_rank default severity =
    if severity == "info"
    then 0
    else if severity == "warning"
    then 1
    else if severity == "critical"
    then 2
    else default

pub data Decision : Type 0 where
  below_min_severity classification_filtered below_escalation_threshold in_flight : Decision
  within_window : Decision
  routes : Decision

-- escalate_after and occurrence_count < int(escalate_after)
unfoldable pub below_threshold : Option ℤ → ℕ → Bool
below_threshold none count = false
below_threshold (some (negsuc n)) count = false
below_threshold (some (pos n)) count = ltb count n

-- window_seconds > 0 and last_age_seconds is not None and last_age_seconds < window_seconds, for an
-- age in microseconds
unfoldable pub inside_window : ℤ → Option ℕ → Bool
inside_window (negsuc n) age = false
inside_window (pos n) none = false
inside_window (pos n) (some age) = ltb age (n * 1000000)

-- What `_dedup_state` finds out about the most recent delivery of a signal: whether it is pending,
-- its severity and its age.
pub record DedupState : Type 0 where
  pub in_flight : Bool
  pub last_severity : Option String
  pub last_age : Option ℕ

-- alert.get("severity", "warning")
abbrev pub severity_of : Alert → String
severity_of a = elim a.severity [ none ↦ "warning" | some s ↦ s ]

unfoldable pub alert_routing_decision :
    Destination → Alert → DedupState → ℤ → Option ℤ → ℕ → Decision
alert_routing_decision dest a last window escalate_after count =
    if ltb (severity_rank 0 (severity_of a)) (severity_rank 1 dest.min_severity)
    then below_min_severity
    else if not (lets_through (csv_set dest.alert_filter) a.classification)
    then classification_filtered
    else if below_threshold escalate_after count
    then below_escalation_threshold
    else if last.in_flight
    then in_flight
    else if is_text last.last_severity (severity_of a) && inside_window window last.last_age
    then within_window
    else routes

-- ("route", …), ("suppress", …) and ("skip", …)
pub data Action : Type 0 where
  route suppress skip : Action

unfoldable pub action_of : Decision → Action
action_of routes = route
action_of within_window = suppress
action_of _ = skip
