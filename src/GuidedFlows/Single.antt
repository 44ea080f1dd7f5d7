-- ===== src/GuidedFlows/Single.antt =====
-- At most one pending step for each session and kind, as the `set` of
-- backend/app/guided_flow_store.py has it.
use aira_agent.Base.{
  ℕ, String, Option, none, some, List, [], ◌∷◌, ◌++◌, Bool, true, false, not, ◌&&◌, ◌==◌, ◌≡◌, ◌≤◌,
  arith, tally, keep, tally-append, tally-le-length, refl, Bool-cases, inl, inr, eq_iff,
}
use aira_agent.GuidedFlows.Store.{
  Flow, Flows, Json, Read, missing, unreadable, got, load, claim_loaded, write, write_dumped,
  is_pending, session_key, awaits, set, claim, claim_rows, consume_found, clear, purge_expired,
  is_expired, new_flow,
}
use aira_agent.GuidedFlows.Race.{Op, act, after}
use aira_agent.GuidedFlows.Once.{tally-fewer}

unfoldable pub SingleFor : String → String → Flows → Type 0
SingleFor key kind s = tally (awaits key kind) s.rows ≤ 1

claim_rows-awaits :
    (key kind id : String) (now : ℕ) (rows : List Flow)
    → tally (awaits key kind) (claim_rows id now rows).1 ≤ tally (awaits key kind) rows
unfolding claim_rows tally awaits
claim_rows-awaits key kind id now [] = omega arith
claim_rows-awaits key kind id now (r ∷ rows) =
    elim (Bool-cases (r.id == id && is_pending r.status)) [
      | inl e ↦ rw e (ground (arith, e))
      | inr e ↦ rw e (ground (arith, claim_rows-awaits key kind id now rows))
    ]

pub tally-others : (p : Flow → Bool) (rows : List Flow) → tally p (keep (λ r. not (p r)) rows) ≡ 0
unfolding tally keep
tally-others p [] = omega arith
tally-others p (r ∷ rows) = ground (arith, tally-others p rows)

awaits-own :
    (key kind : String) (f : Flow)
    → awaits key kind f ≡ true
    → awaits f.session_key f.kind ≡ awaits key kind
unfolding awaits
awaits-own key kind f e =
    let a : f.session_key ≡ key = ground (arith, e, eq_iff f.session_key key) in
    let b : f.kind ≡ kind = ground (arith, e, eq_iff f.kind kind) in rw (a, b) refl

tally-other :
    (p q : Flow → Bool) (rows : List Flow) (f : Flow)
    → p f ≡ false
    → tally p (keep q rows ++ f ∷ []) ≤ tally p rows
unfolding tally
tally-other p q rows f e =
    ground (arith, tally-append p (keep q rows) (f ∷ []), tally-fewer p q rows)

tally-replaced :
    (p : Flow → Bool) (rows : List Flow) (f : Flow)
    → tally p (keep (λ r. not (p r)) rows ++ f ∷ []) ≤ 1
tally-replaced p rows f = omega (
  arith,
  tally-append p (keep (λ r. not (p r)) rows) (f ∷ []),
  tally-others p rows,
  tally-le-length p (f ∷ []),
)

-- A row that takes the place of those of its own session and kind.
set-SingleFor :
    (key kind : String) (f : Flow) (rows : List Flow)
    → tally (awaits key kind) rows ≤ 1
    → tally (awaits key kind) (keep (λ r. not (awaits f.session_key f.kind r)) rows ++ f ∷ []) ≤ 1
set-SingleFor key kind f rows h = elim (Bool-cases (awaits key kind f)) [
  | inl e ↦ rw (awaits-own key kind f e) (tally-replaced (awaits key kind) rows f)
  | inr e ↦
      (let fewer =
          tally-other (awaits key kind) (λ r. not (awaits f.session_key f.kind r)) rows f e in
        omega (arith, h, fewer))
]

write_dumped-SingleFor :
    (key kind : String) (o : Option String) (id : String) (session_id : Option String)
    (of_kind : String) (run_id : Option String) (ttl : ℕ) (s : Flows)
    → SingleFor key kind s
    → SingleFor key kind (write_dumped o id session_id of_kind run_id ttl s).1
unfolding SingleFor write_dumped write new_flow
write_dumped-SingleFor key kind none id session_id of_kind run_id ttl s h = h
write_dumped-SingleFor key kind (some text) id session_id of_kind run_id ttl s h =
    set-SingleFor key kind (new_flow id session_id of_kind text run_id ttl s.now) s.rows h

module _ {ℓ} {P : Type ℓ} (json : Json P) where
  claim_loaded-SingleFor :
      (key kind id : String) (now : ℕ) (p : Read P) (s : Flows)
      → SingleFor key kind s
      → SingleFor key kind (claim_loaded json p id now s).1
  unfolding SingleFor claim_loaded claim
  claim_loaded-SingleFor key kind id now missing s h = h
  claim_loaded-SingleFor key kind id now unreadable s h = h
  claim_loaded-SingleFor key kind id now (got p) s h =
      omega (arith, claim_rows-awaits key kind id now s.rows)

  act-SingleFor :
      (key kind : String) (op : Op P) (s : Flows)
      → SingleFor key kind s
      → SingleFor key kind (act json op s).1
  unfolding SingleFor act set clear purge_expired consume_found
  act-SingleFor key kind (Op.store id session_id kind' payload run_id ttl) s h =
      write_dumped-SingleFor key kind (json.dumps payload) id session_id kind' run_id ttl s h
  act-SingleFor key kind (Op.approve read_at row) s h =
      elim (Bool-cases (is_expired row.expires_at read_at)) [
        | inl e ↦ rw e h
        | inr e ↦ rw e (claim_loaded-SingleFor key kind row.id read_at (load json row) s h)
      ]
  act-SingleFor key kind (Op.discard session_id kind') s h = omega (
    arith,
    tally-fewer (awaits key kind)
        (λ r. not (r.session_key == session_key session_id && r.kind == kind')) s.rows,
  )
  act-SingleFor key kind Op.purge s h =
      omega (arith, tally-fewer (awaits key kind) (λ r. not (is_expired r.expires_at s.now)) s.rows)
  act-SingleFor key kind (Op.wait time) s h = h

  -- Whatever steps processes take, a session that has at most one pending flow of a kind at first has
  -- at most one after them.
  pub after-SingleFor :
      (key kind : String) (ops : List (Op P)) (s : Flows)
      → SingleFor key kind s
      → SingleFor key kind (after json ops s)
  unfolding after
  after-SingleFor key kind [] s h = h
  after-SingleFor key kind (op ∷ ops) s h =
      after-SingleFor key kind ops (act json op s).1 (act-SingleFor key kind op s h)
