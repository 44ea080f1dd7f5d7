-- ===== src/Webhooks/Configure.antt =====
-- `create_destination` and `update_destination` of backend/app/webhooks.py.
use Prim.Native.Char.{code}
use aira_agent.Base.{
  ℕ, suc, ◌+◌, String, Option, none, some, List, [], ◌∷◌, ◌++◌, Bool, true, false, not, ◌&&◌, ◌||◌,
  leb, eqb, if◌then◌else◌, ◌==◌, truthy,
}
use aira_agent.Base.Int.{ℤ, pos, negsuc}
use aira_agent.Base.Text.{take_text, strip}
use aira_agent.Base.Table.{find, update}
use aira_agent.JobPolicy.{contains}
use aira_agent.Webhooks.Row.{Destination, Webhooks, destination_id, Settings}
use aira_agent.Webhooks.Destinations.{DestinationDict, clean_destination}

abbrev lower_code : ℕ → ℕ
lower_code c = if leb 65 c && leb c 90 then c + 32 else c

-- s.lower().startswith(p), for a prefix of ASCII characters
unfoldable pub starts_with_lower : String → String → Bool
starts_with_lower String.[] s = true
starts_with_lower (String.◌∷◌ p ps) String.[] = false
starts_with_lower (String.◌∷◌ p ps) (String.◌∷◌ c s) =
    eqb (code p) (lower_code (code c)) && starts_with_lower ps s

unfoldable pub is_http : String → Bool
is_http url = starts_with_lower "http://" url || starts_with_lower "https://" url

unfoldable pub is_subscription : String → Bool
is_subscription x = contains x ("events" ∷ "alerts" ∷ "both" ∷ [])

unfoldable pub is_severity : String → Bool
is_severity x = contains x ("warning" ∷ "critical" ∷ [])

unfoldable pub is_kind : String → Bool
is_kind x = contains x ("webhook" ∷ "slack" ∷ [])

-- k <= x, for a bound k that is not negative; a missing value is within it.
unfoldable pub is_from : ℕ → Option ℤ → Bool
is_from k none = true
is_from k (some (pos n)) = leb k n
is_from k (some (negsuc n)) = false

-- The arguments of `create_destination`.
pub record NewDestination : Type 0 where
  pub name : String
  pub url : String
  pub kind : String
  pub subscription : String
  pub min_severity : String
  pub event_filter : Option String
  pub alert_filter : Option String
  pub origin_filter : Option String
  pub suppress_seconds : Option ℤ
  pub escalate_after : Option ℤ
  pub max_attempts : Option ℤ
  pub secret : Option String
  pub enabled : Bool

-- x or None
abbrev or_none : Option String → Option String
or_none x = if truthy x then x else none

-- The guards of `create_destination`, passed.
unfoldable pub is_accepted : NewDestination → Bool
is_accepted n =
    not (strip n.name == "")
    && is_http (strip n.url)
    && is_subscription n.subscription
    && is_severity n.min_severity
    && is_kind n.kind
    && is_from 0 n.suppress_seconds
    && is_from 1 n.escalate_after
    && is_from 1 n.max_attempts

unfoldable pub new_destination : NewDestination → String → ℕ → Destination
new_destination n id now = record {
  id = id;
  name = take_text 120 (strip n.name);
  url = take_text 500 (strip n.url);
  kind = n.kind;
  enabled = n.enabled;
  subscription = n.subscription;
  min_severity = n.min_severity;
  event_filter = or_none n.event_filter;
  alert_filter = or_none n.alert_filter;
  origin_filter = or_none n.origin_filter;
  suppress_seconds = n.suppress_seconds;
  escalate_after = n.escalate_after;
  stat_routed = 0;
  stat_suppressed = 0;
  stat_skipped = 0;
  max_attempts = n.max_attempts;
  consecutive_failures = 0;
  cooldown_until = none;
  secret = or_none n.secret;
  created_at = now;
  updated_at = now;
}

-- A keyword argument of `update_destination`. A key that is not allowed and a value None are skipped.
pub data Change : Type 0 where
  name url kind subscription min_severity : String → Change
  event_filter alert_filter origin_filter secret : String → Change
  enabled : Bool → Change
  suppress_seconds escalate_after max_attempts : ℤ → Change
  skipped : Change

abbrev pub valid_or_none {ℓ} : {A : Type ℓ} → Bool → A → Option A
valid_or_none b x = if b then some x else none

-- One round of the loop: none where the loop returns None.
unfoldable pub change : Change → Destination → Option Destination
change (name x) d = some (record d { name = x })
change (url x) d = some (record d { url = x })
change (kind x) d = valid_or_none (is_kind x) (record d { kind = x })
change (subscription x) d = valid_or_none (is_subscription x) (record d { subscription = x })
change (min_severity x) d = valid_or_none (is_severity x) (record d { min_severity = x })
change (event_filter x) d = some (record d { event_filter = some x })
change (alert_filter x) d = some (record d { alert_filter = some x })
change (origin_filter x) d = some (record d { origin_filter = some x })
change (secret x) d = some (record d { secret = some x })
change (enabled x) d = some (record d { enabled = x })
change (suppress_seconds x) d =
    valid_or_none (is_from 0 (some x)) (record d { suppress_seconds = some x })
change (escalate_after x) d =
    valid_or_none (is_from 1 (some x)) (record d { escalate_after = some x })
change (max_attempts x) d = valid_or_none (is_from 1 (some x)) (record d { max_attempts = some x })
change skipped d = some d

unfoldable pub changed : List Change → Destination → Option Destination
changed [] d = some d
changed (x ∷ xs) d = elim (change x d) [ none ↦ none | some d' ↦ changed xs d' ]

module _ (c : Settings) (uuid4 : ℕ → String) where
  unfoldable pub create_destination : NewDestination → Webhooks → Option DestinationDict × Webhooks
  create_destination n s =
      let row = new_destination n (uuid4 s.draws) s.now in
      if is_accepted n
      then (
        some (clean_destination c s.now row),
        record s { destinations = s.destinations ++ row ∷ []; draws = suc s.draws },
      )
      else (none, s)

-- The commit of `update_destination`: a return before it leaves the row as it was.
unfoldable pub commit_changed :
    Settings → Option Destination → Webhooks → Option DestinationDict × Webhooks
commit_changed c none s = (none, s)
commit_changed c (some d) s =
    let row = record d { updated_at = s.now } in
    (
      some (clean_destination c s.now row),
      record s { destinations = update destination_id d.id (λ _. row) s.destinations },
    )

unfoldable pub update_destination :
    Settings → String → List Change → Webhooks → Option DestinationDict × Webhooks
update_destination c id changes s = elim (find destination_id id s.destinations) [
  | none ↦ (none, s)
  | some d ↦ commit_changed c (changed changes d) s
]
