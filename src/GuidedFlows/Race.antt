-- ===== src/GuidedFlows/Race.antt =====
-- Processes that share the store of backend/app/guided_flow_store.py: the steps that they take in
-- some order. A `consume` is a read, which changes nothing, and later the rest of it with the row
-- that it has read, at the time that it has looked at the clock.
use aira_agent.Base.{
  ℕ, ◌+◌, String, Option, some, List, [], ◌∷◌, Bool, true, false, ◌&&◌, if◌then◌else◌, ◌==◌,
}
use aira_agent.GuidedFlows.Store.{
  Flow, Flows, Json, Read, missing, got, is_pending, set, consume_found, clear, purge_expired,
}

pub data Op {ℓ} (P : Type ℓ) : Type ℓ where
  store : String → Option String → String → P → Option String → ℕ → Op P
  approve : ℕ → Flow → Op P
  discard : Option String → String → Op P
  purge : Op P
  wait : ℕ → Op P

module _ {ℓ} {P : Type ℓ} where
  abbrev pub approves : String → Op P → Bool
  approves id (approve read_at row) = row.id == id
  approves id op = false

  abbrev pub stores : String → Op P → Bool
  stores id (store id' session_id kind payload run_id ttl) = id' == id
  stores id op = false

  abbrev pub is_given : Read P → Bool
  is_given (got p) = true
  is_given _ = false

module _ {ℓ} {P : Type ℓ} (json : Json P) where
  -- What a step hands out, and the store after it.
  unfoldable pub act : Op P → Flows → Read P × Flows
  act (store id session_id kind payload run_id ttl) s =
      (missing, (set json id session_id kind payload run_id ttl s).1)
  act (approve read_at row) s = consume_found json read_at (some row) s
  act (discard session_id kind) s = (missing, clear session_id kind s)
  act purge s = (missing, (purge_expired s).1)
  act (wait time) s = (missing, record s { now = s.now + time })

  unfoldable pub after : List (Op P) → Flows → Flows
  after [] s = s
  after (op ∷ ops) s = after ops (act op s).1

  -- How often a run hands out the payload of a flow.
  unfoldable pub handed_out : String → List (Op P) → Flows → ℕ
  handed_out id [] s = 0
  handed_out id (op ∷ ops) s =
      (if approves id op && is_given (act op s).0 then 1 else 0) + handed_out id ops (act op s).1

-- The rows of a flow that wait for it to be consumed.
unfoldable pub waits : String → Flow → Bool
waits id r = r.id == id && is_pending r.status
