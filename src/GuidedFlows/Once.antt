-- ===== src/GuidedFlows/Once.antt =====
-- A flow of backend/app/guided_flow_store.py is handed out once, whatever processes race for it.
use aira_agent.Base.{
  ℕ, ◌+◌, String, Option, none, some, List, [], ◌∷◌, ◌++◌, Bool, not, ◌&&◌, if◌then◌else◌, ◌==◌,
  ◌≤◌, arith, tally, keep, tally-append, Bool-cases, inl, inr, eq_iff,
}
use aira_agent.GuidedFlows.Store.{
  Flow, Flows, Json, Read, missing, unreadable, got, load, claim_loaded, write, write_dumped,
  is_pending, session_key, awaits, set, claim, claim_rows, consume_found, clear, purge_expired,
  is_expired, new_flow,
}
use aira_agent.GuidedFlows.Race.{Op, act, handed_out, waits, approves, stores, is_given}

pub tally-fewer : (p q : Flow → Bool) (rows : List Flow) → tally p (keep q rows) ≤ tally p rows
unfolding tally keep
tally-fewer p q [] = omega arith
tally-fewer p q (r ∷ rows) = ground (arith, tally-fewer p q rows)

-- A claim of a flow that is won takes a row that waits.
claim_rows-waits :
    (id k : String) (now : ℕ) (rows : List Flow)
    → (if id == k && (claim_rows id now rows).0 then 1 else 0)
        + tally (waits k) (claim_rows id now rows).1
      ≤ tally (waits k) rows
unfolding claim_rows tally waits
claim_rows-waits id k now [] = ground arith
claim_rows-waits id k now (r ∷ rows) = elim (Bool-cases (r.id == id && is_pending r.status)) [
  | inl e ↦ rw e (ground (arith, e, eq_iff r.id id, eq_iff r.id k, eq_iff id k))
  | inr e ↦ rw e (ground (arith, claim_rows-waits id k now rows))
]

stored-waits :
    (k : String) (q : Flow → Bool) (rows : List Flow) (f : Flow)
    → tally (waits k) (keep q rows ++ f ∷ []) ≤ (if f.id == k then 1 else 0) + tally (waits k) rows
unfolding tally waits
stored-waits k q rows f =
    ground (arith, tally-append (waits k) (keep q rows) (f ∷ []), tally-fewer (waits k) q rows)

write_dumped-waits :
    (k : String) (o : Option String) (id : String) (session_id : Option String) (kind : String)
    (run_id : Option String) (ttl : ℕ) (s : Flows)
    → tally (waits k) (write_dumped o id session_id kind run_id ttl s).1.rows
      ≤ (if id == k then 1 else 0) + tally (waits k) s.rows
unfolding write_dumped write new_flow
write_dumped-waits k none id session_id kind run_id ttl s = ground arith
write_dumped-waits k (some text) id session_id kind run_id ttl s =
    stored-waits k (λ r. not (awaits (session_key session_id) kind r)) s.rows
      (new_flow id session_id kind text run_id ttl s.now)

module _ {ℓ} {P : Type ℓ} (json : Json P) where
  claim_loaded-waits :
      (id k : String) (now : ℕ) (p : Read P) (s : Flows)
      → (if id == k && is_given (claim_loaded json p id now s).0 then 1 else 0)
          + tally (waits k) (claim_loaded json p id now s).1.rows
        ≤ tally (waits k) s.rows
  unfolding claim_loaded claim
  claim_loaded-waits id k now missing s = ground arith
  claim_loaded-waits id k now unreadable s = ground arith
  claim_loaded-waits id k now (got p) s = ground (arith, claim_rows-waits id k now s.rows)

  -- What a step hands out of a flow, it takes from the rows that wait.
  act-waits :
      (k : String) (op : Op P) (s : Flows)
      → (if approves k op && is_given (act json op s).0 then 1 else 0)
          + tally (waits k) (act json op s).1.rows
        ≤ (if stores k op then 1 else 0) + tally (waits k) s.rows
  unfolding act set clear purge_expired consume_found
  act-waits k (Op.store id session_id kind payload run_id ttl) s =
      omega (arith, write_dumped-waits k (json.dumps payload) id session_id kind run_id ttl s)
  act-waits k (Op.approve read_at row) s = elim (Bool-cases (is_expired row.expires_at read_at)) [
    | inl e ↦ rw e (ground arith)
    | inr e ↦ rw e (omega (arith, claim_loaded-waits row.id k read_at (load json row) s))
  ]
  act-waits k (Op.discard session_id kind) s = omega (
    arith,
    tally-fewer (waits k) (λ r. not (r.session_key == session_key session_id && r.kind == kind))
        s.rows,
  )
  act-waits k Op.purge s =
      omega (arith, tally-fewer (waits k) (λ r. not (is_expired r.expires_at s.now)) s.rows)
  act-waits k (Op.wait time) s = omega arith

  -- A flow is handed out no more often than it has been stored: in whatever order processes take
  -- their steps, and whatever rows they have read before, the payload of an id is handed out at most
  -- once for each row of the id that waits at the start and each `set` that stores one.
  pub handed_out-once :
      (id : String) (ops : List (Op P)) (s : Flows)
      → handed_out json id ops s ≤ tally (stores id) ops + tally (waits id) s.rows
  unfolding handed_out tally
  handed_out-once id [] s = omega arith
  handed_out-once id (op ∷ ops) s =
      ground (arith, act-waits id op s, handed_out-once id ops (act json op s).1)
