-- ===== src/AgentWorkflow/Stops.antt =====
-- Which decisions of backend/agents/decision/decision_agent.py end the loop of
-- backend/graph/aira_workflow.py.
use mathlib.Core.Path.{subst}
use aira_agent.Base.{
  Option, none, some, Bool, true, false, ◌≡◌, ◌&&◌, ◌||◌, ◌==◌, leb, is_text, arith, refl, if_both,
  if_split, sym,
}
use aira_agent.AgentWorkflow.State.{AiraXStep, AiraXState, current, add_log}
use aira_agent.AgentWorkflow.Decision.{
  decided, decide, decide_current, decide_retries, is_blocked, is_git_write,
}
use aira_agent.AgentWorkflow.Loop.{
  Agents, logged, dispatch, dispatch_end, ends, stop_write, stop_spent, fail_current,
}

-- The loop reflects after these two decisions.
unfoldable pub reflects : AiraXState → Bool
reflects s = is_text s.decision "execution_failed" || is_text s.decision "reflect_and_retry"

-- Another agent that runs the tools.
abbrev pub with_execution : Agents → (AiraXState → AiraXState) → Agents
with_execution a f = record a { execution = f }

-- A decision that ends the loop, without a reflection and without a run of the execution agent.
unfoldable pub IsStopped : AiraXState → Type 0
IsStopped s =
    ((a : Agents) (f : AiraXState → AiraXState)
      → ((dispatch a (logged s)).1 ≡ false)
        × ((dispatch a (logged s)).0.retry_count ≡ s.retry_count)
        × (dispatch (with_execution a f) (logged s) ≡ dispatch a (logged s)))
    × (reflects s ≡ false)

module _ (s : AiraXState) where
  approval_stops : (t : AiraXState) → IsStopped (decided "stop_approval_required" t)
  unfolding IsStopped reflects decided dispatch dispatch_end logged add_log ends stop_write
      stop_spent fail_current
  approval_stops t = (λ a f. (refl, refl, refl), refl)

  safety_stops : (t : AiraXState) → IsStopped (decided "stop_safety_block" t)
  unfolding IsStopped reflects decided dispatch dispatch_end logged add_log ends stop_write
      stop_spent fail_current
  safety_stops t = (λ a f. (refl, refl, refl), refl)

  write_stops : (t : AiraXState) → IsStopped (decided "stop_non_retryable_failure" t)
  unfolding IsStopped reflects decided dispatch dispatch_end logged add_log ends stop_write
      stop_spent fail_current
  write_stops t = (λ a f. (refl, refl, refl), refl)

  retries_stop : (t : AiraXState) → IsStopped (decided "stop_max_retries" t)
  unfolding IsStopped reflects decided dispatch dispatch_end logged add_log ends stop_write
      stop_spent fail_current
  retries_stop t = (λ a f. (refl, refl, refl), refl)

  pub spent_stops : leb s.max_retries s.retry_count ≡ true → IsStopped (decide s)
  unfolding decide decide_current decide_retries
  spent_stops h = if_both IsStopped _ _ _ (approval_stops _) (go (current s))
    where
      last : IsStopped (decide_retries s)
      last = rw h (retries_stop _)

      go : (c : Option AiraXStep) → IsStopped (decide_current c s)
      go none = last
      go (some c) =
          if_both IsStopped _ _ _ (safety_stops _) (if_both IsStopped _ _ _ (write_stops _) last)

  pub git_write_stops :
      (c : AiraXStep)
      → current s ≡ some c
      → (c.status == "failed") ≡ true
      → is_git_write c ≡ true
      → IsStopped (decide s)
  unfolding decide decide_current
  git_write_stops c at f g =
      if_both IsStopped _ _ _ (approval_stops _)
        (subst (λ o. IsStopped (decide_current o s)) (sym at) written)
    where
      written : IsStopped (decide_current (some c) s)
      written = if_both IsStopped (is_blocked c) _ _ (safety_stops _) (
          if_split IsStopped (c.status == "failed" && is_git_write c) _ _ (λ _. write_stops _)
            (λ off. absurd (ground (arith, f, g, off))))
