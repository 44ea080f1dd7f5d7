-- ===== src/IncidentSync/Checks.antt =====
-- The verdicts of backend/app/incident_sync.py: `compute_readiness` on the checks of a target and
-- `classify_link_status` on a link, without the texts of their reasons. Times are numbers of
-- microseconds. `lower` is Python's `str.lower`.
use aira_agent.Base.{
  ℕ, zero, ◌-◌, ◌*◌, String, Option, none, some, Bool, true, false, not, ◌&&◌, ◌||◌, ltb,
  if◌then◌else◌, is_text, or_text,
}
use aira_agent.Base.Int.{ℤ, pos, at_least}
use aira_agent.Base.Text.{contains_text}

pub data Readiness : Type 0 where
  unverified ready degraded invalid_config auth_failed test_failed disabled aged_out : Readiness

-- The evidence of a target.
pub record Evidence : Type 0 where
  pub enabled : Bool
  pub config_ok : Bool
  pub last_validated_at : Option ℕ
  pub last_test_at : Option ℕ
  pub last_success_at : Option ℕ
  pub last_failure_at : Option ℕ
  pub last_check_error : Option String
  pub last_check_kind : Option String

abbrev pub is_some_time : Option ℕ → Bool
is_some_time none = false
is_some_time (some t) = true

-- last_failure_at and (last_success_at is None or last_failure_at > last_success_at)
unfoldable pub failed_latest : Option ℕ → Option ℕ → Bool
failed_latest none success = false
failed_latest (some f) none = true
failed_latest (some f) (some t) = ltb t f

-- max(1, int(stale_seconds)) in microseconds
unfoldable pub window : ℤ → ℕ
window seconds = at_least 1 seconds * 1000000

-- Older than the window, for a time that is not after now.
unfoldable pub is_older : ℕ → ℤ → ℕ → Bool
is_older now seconds t = ltb (window seconds) (now - t)

-- stale_seconds and last_success_at is not None and now is not None and age > ...
unfoldable pub is_aged : Option ℕ → Option ℤ → Option ℕ → Bool
is_aged now none success = false
is_aged now (some (pos zero)) success = false
is_aged now (some seconds) none = false
is_aged none (some seconds) (some t) = false
is_aged (some now) (some seconds) (some t) = is_older now seconds t

module _ (lower : String → String) where
  unfoldable pub looks_like_auth_error : Option String → Bool
  looks_like_auth_error err =
      contains_text "auth" (lower (or_text err ""))
      || (is_text err "HTTP401" || is_text err "HTTP403")

  -- The state that a failed check leads to.
  unfoldable pub failure_state : Evidence → Readiness
  failure_state e =
      if looks_like_auth_error e.last_check_error
      then auth_failed
      else if is_text e.last_check_kind "test"
      then test_failed
      else degraded

  unfoldable pub compute_readiness : Evidence → Option ℕ → Option ℤ → Readiness
  compute_readiness e now stale_seconds =
      if not e.enabled
      then disabled
      else if not e.config_ok
      then invalid_config
      else if not (is_some_time e.last_validated_at || is_some_time e.last_test_at)
      then unverified
      else if failed_latest e.last_failure_at e.last_success_at
      then failure_state e
      else if is_aged now stale_seconds e.last_success_at
      then aged_out
      else ready

pub data LinkStatus : Type 0 where
  is_linked never_linked is_stale missing_external drifted refreshed is_detached : LinkStatus

-- What a link and its incident say.
pub record LinkFacts : Type 0 where
  pub local_state : Option String
  pub last_synced_at : Option ℕ
  pub last_checked_at : Option ℕ
  pub external_exists : Option Bool
  pub external_status : Option String
  pub detached : Bool

unfoldable pub open_local : Option String → Bool
open_local s = is_text s "open" || (is_text s "acknowledged" || is_text s "silenced")

unfoldable pub closed_external : Option String → Bool
closed_external s = is_text s "resolved" || (is_text s "closed" || is_text s "done")

unfoldable pub open_external : Option String → Bool
open_external s = is_text s "open" || (is_text s "triggered" || is_text s "acknowledged")

abbrev pub is_gone : Option Bool → Bool
is_gone (some false) = true
is_gone _ = false

unfoldable pub classify_synced : LinkFacts → ℕ → ℕ → ℤ → LinkStatus
classify_synced l synced now stale_seconds =
    if is_gone l.external_exists
    then missing_external
    else if closed_external l.external_status && open_local l.local_state
    then drifted
    else if open_external l.external_status && is_text l.local_state "recovered"
    then drifted
    else if is_older now stale_seconds synced
    then is_stale
    else if is_some_time l.last_checked_at
    then refreshed
    else is_linked

unfoldable pub classify_link_status : LinkFacts → ℕ → ℤ → LinkStatus
classify_link_status l now stale_seconds =
    if l.detached then is_detached else elim l.last_synced_at [
      | none ↦ never_linked
      | some t ↦ classify_synced l t now stale_seconds
    ]

-- `_ACTIONABLE`
abbrev pub is_actionable : LinkStatus → Bool
is_actionable drifted = true
is_actionable missing_external = true
is_actionable is_stale = true
is_actionable _ = false
