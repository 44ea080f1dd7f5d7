-- ===== src/IncidentSync/Verdicts.antt =====
-- When the verdicts of backend/app/incident_sync.py ask for an operator.
use aira_agent.Base.{
  ℕ, zero, suc, String, Option, none, some, Bool, true, false, not, ◌&&◌, ◌||◌, ◌≡◌, ◌≤◌, refl,
  arith, is_text,
}
use aira_agent.Base.Int.{ℤ, pos, negsuc}
use aira_agent.IncidentSync.Checks.{
  Readiness, ready, Evidence, is_some_time, failed_latest, is_older, is_aged, failure_state,
  compute_readiness, LinkFacts, open_local, closed_external, open_external, is_gone,
  classify_synced, classify_link_status, is_actionable,
}

abbrev pub is_ready : Readiness → Bool
is_ready ready = true
is_ready _ = false

module _ (lower : String → String) where
  failure_not_ready : (e : Evidence) → is_ready (failure_state lower e) ≡ false
  unfolding failure_state
  failure_not_ready e = ground arith

  readiness_ready :
      (e : Evidence) (now : Option ℕ) (stale : Option ℤ)
      → is_ready (compute_readiness lower e now stale) ≡ (
          e.enabled
          && (e.config_ok
              && ((is_some_time e.last_validated_at || is_some_time e.last_test_at)
                  && (not (failed_latest e.last_failure_at e.last_success_at)
                      && not (is_aged now stale e.last_success_at)))))
  unfolding compute_readiness
  readiness_ready e now stale = ground (arith, failure_not_ready e)

  older_later :
      (t : ℕ) (now next : ℕ) (stale : ℤ)
      → now ≤ next
      → is_older next stale t ≡ false
      → is_older now stale t ≡ false
  unfolding is_older
  older_later t now next stale le h = ground (arith, h)

  aged_later :
      (now later : ℕ) (stale : Option ℤ) (success : Option ℕ)
      → now ≤ later
      → is_aged (some later) stale success ≡ false
      → is_aged (some now) stale success ≡ false
  unfolding is_aged
  aged_later now later none success le h = refl
  aged_later now later (some (pos zero)) success le h = refl
  aged_later now later (some (pos (suc n))) none le h = refl
  aged_later now later (some (pos (suc n))) (some t) le h =
      older_later t now later (pos (suc n)) le h
  aged_later now later (some (negsuc n)) none le h = refl
  aged_later now later (some (negsuc n)) (some t) le h = older_later t now later (negsuc n) le h

  -- Trust only ages: a target that is ready at a time, on evidence that has not changed since an
  -- earlier time, was ready at that time too, so time alone never makes a target ready.
  pub ready_before :
      (e : Evidence) (now later : ℕ) (stale : Option ℤ)
      → now ≤ later
      → is_ready (compute_readiness lower e (some later) stale) ≡ true
      → is_ready (compute_readiness lower e (some now) stale) ≡ true
  ready_before e now later stale le h = ground (
    arith,
    h,
    readiness_ready e (some later) stale,
    readiness_ready e (some now) stale,
    aged_later now later stale e.last_success_at le,
  )

abbrev pub conflict : LinkFacts → Bool
conflict l =
    closed_external l.external_status && open_local l.local_state
    || open_external l.external_status && is_text l.local_state "recovered"

-- A link asks for an operator exactly if it is attached and has been synced, and the external incident
-- is gone, or one side is over and the other open, or the last sync is older than the window.
pub actionable_exact :
    (l : LinkFacts) (now : ℕ) (stale : ℤ)
    → is_actionable (classify_link_status l now stale) ≡ (
        not l.detached && elim l.last_synced_at [
          | none ↦ false
          | some t ↦ is_gone l.external_exists || (conflict l || is_older now stale t)
        ])
unfolding classify_link_status classify_synced
actionable_exact l now stale = ground arith
