-- ===== src/GuidedFlows/Resume.antt =====
-- A flow that `set` of backend/app/guided_flow_store.py stores is resumed once, and only in time.
use aira_agent.Base.{
  ℕ, ◌+◌, String, Option, none, some, List, [], ◌∷◌, ◌++◌, Bool, true, false, not, if◌then◌else◌,
  if_true, if_false, ap, ◌∙◌, ◌==◌, ◌≡◌, refl, ltb, arith, keep, best, All, Bool-cases, inl, inr,
  eq_iff,
}
use aira_agent.GuidedFlows.Store.{
  Flow, Flows, Json, Read, missing, got, load, claim_loaded, write, write_dumped, is_pending,
  consumed, created_later, session_key, awaits, set, peek, latest, claim, claim_rows, consume,
  consume_found, expiry, is_expired, new_flow, Adapter, adapter_set, adapter_get, adapter_consume,
  default_ttl_seconds, read, run_id, paid,
}

self : (a : String) → (a == a) ≡ true
self a = ground (arith, eq_iff a a)

ltb-plus : (a b c : ℕ) → ltb (a + b) (a + c) ≡ ltb b c
ltb-plus a b c = ground arith

ap-if {ℓ κ} :
    {A : Type ℓ} {B : Type κ} (f : A → B) (b : Bool) (x y : A)
    → f (if b then x else y) ≡ (if b then f x else f y)
ap-if f true x y = refl
ap-if f false x y = refl

-- The store some microseconds later.
abbrev pub later : ℕ → Flows → Flows
later time s = record s { now = s.now + time }

-- The rows that are kept and one more.
keep-next :
    (p : Flow → Bool) (rows : List Flow) (f : Flow)
    → keep p (keep (λ r. not (p r)) rows ++ f ∷ []) ≡ (if p f then f ∷ [] else [])
unfolding keep
keep-next p [] f = refl
keep-next p (r ∷ rows) f = ground (arith, keep-next p rows f)

-- A claim of the last row, whose id no other has.
claim_rows-last :
    (now : ℕ) (q : Flow → Bool) (rows : List Flow) (f : Flow)
    → All (λ r. (r.id == f.id) ≡ false) rows
    → is_pending f.status ≡ true
    → claim_rows f.id now (keep q rows ++ f ∷ [])
      ≡ (true, keep q rows ++ record f { status = consumed; updated_at = now } ∷ [])
unfolding claim_rows keep
claim_rows-last now q [] f fresh h = rw (h, self f.id) refl
claim_rows-last now q (r ∷ rows) f fresh h = elim (Bool-cases (q r)) [
  | inl e ↦ rw (e, fresh.0) (ap (λ c. (c.0, r ∷ c.1)) (claim_rows-last now q rows f fresh.1 h))
  | inr e ↦ rw e (claim_rows-last now q rows f fresh.1 h)
]

module _ {ℓ} {P : Type ℓ} (json : Json P) where
  module _ (id : String) (session_id : Option String) (kind text : String) (run_id : Option String)
      (ttl time : ℕ) (s : Flows) where
    -- The store some time after a flow has been stored.
    abbrev stored : Flows
    stored = later time (write id session_id kind text run_id ttl s)

    abbrev flow : Flow
    flow = new_flow id session_id kind text run_id ttl s.now

    others : Flow → Bool
    others r = not (awaits (session_key session_id) kind r)

    awaits-flow : awaits (session_key session_id) kind flow ≡ true
    unfolding awaits new_flow
    awaits-flow = rw (self (session_key session_id), self kind) refl

    latest-stored : latest session_id kind stored ≡ some flow
    unfolding latest write best
    latest-stored = ap (best created_later) (
        keep-next (awaits (session_key session_id) kind) s.rows flow
        ∙ if_true (flow ∷ []) [] awaits-flow)

    abbrev done : Flow
    done = record flow { status = consumed; updated_at = s.now + time }

    awaits-done : awaits (session_key session_id) kind done ≡ false
    unfolding awaits new_flow
    awaits-done = ground arith

    -- The store once the flow has been claimed.
    abbrev claimed : Flows
    claimed = record stored { rows = keep others s.rows ++ done ∷ [] }

    claim-stored :
        All (λ r. (r.id == id) ≡ false) s.rows → claim id (s.now + time) stored ≡ (true, claimed)
    unfolding claim write new_flow others
    claim-stored fresh =
        ap (λ c. (c.0, record stored { rows = c.1 }))
          (claim_rows-last (s.now + time) others s.rows flow fresh refl)

    latest-claimed : latest session_id kind claimed ≡ none
    unfolding latest best others awaits new_flow
    latest-claimed = ap (best created_later) (
        keep-next (awaits (session_key session_id) kind) s.rows done
        ∙ if_false (done ∷ []) [] awaits-done)

    consume-claimed : (consume json session_id kind claimed).0 ≡ missing
    unfolding consume consume_found write
    consume-claimed = ap (λ r. (consume_found json (s.now + time) r claimed).0) latest-claimed

    module _ (payload : P) (readable : json.loads text ≡ some payload) where
      load-flow : load json flow ≡ got payload
      unfolding load new_flow
      load-flow = rw (readable, load) refl

      consume-stored :
          All (λ r. (r.id == id) ≡ false) s.rows
          → consume json session_id kind stored ≡ (
              if is_expired (expiry s.now ttl) (s.now + time)
              then (missing, stored)
              else (got payload, claimed))
      unfolding consume consume_found claim_loaded new_flow write
      consume-stored fresh =
          ap (λ r. consume_found json (s.now + time) r stored) latest-stored
          ∙ ap
              (λ p.
                if is_expired (expiry s.now ttl) (s.now + time)
                then (missing, stored)
                else claim_loaded json p id (s.now + time) stored)
              load-flow
          ∙ ap
              (λ c.
                if is_expired (expiry s.now ttl) (s.now + time)
                then (missing, stored)
                else paid json payload c)
              (claim-stored fresh)

      none_left :
          All (λ r. (r.id == id) ≡ false) s.rows
          → (consume json session_id kind (consume json session_id kind stored).1).0 ≡ missing
      none_left fresh = elim (Bool-cases (is_expired (expiry s.now ttl) (s.now + time))) [
        | inl e ↦
            (let late = consume-stored fresh ∙ if_true (missing, stored) (got payload, claimed) e in
              ap (λ c. (consume json session_id kind c.1).0) late ∙ ap (λ c. c.0) late)
        | inr e ↦
            (let won = consume-stored fresh ∙ if_false (missing, stored) (got payload, claimed) e in
              ap (λ c. (consume json session_id kind c.1).0) won ∙ consume-claimed)
      ]

      -- What is read of a flow that has been stored, at a later time.
      write-consume :
          All (λ r. (r.id == id) ≡ false) s.rows
          → (peek json session_id kind stored ≡ got payload)
            × ((consume json session_id kind stored).0
                ≡ (if is_expired (expiry s.now ttl) (s.now + time) then missing else got payload))
            × ((consume json session_id kind (consume json session_id kind stored).1).0 ≡ missing)
      unfolding peek
      write-consume fresh = (
        rw (latest-stored, peek) load-flow,
        ap (λ c. c.0) (consume-stored fresh)
            ∙ ap-if {A = Read P × Flows} (λ c. c.0) _ (missing, stored) (got payload, claimed),
        none_left fresh,
      )

module _ {ℓ κ} {A : Type κ} {P : Type ℓ} (json : Json P) (t : Adapter A P) where
  adapter_set-write :
      (id : String) (session_id : Option String) (a : A) (text : String) (s : Flows)
      → json.dumps (t.to_dict a) ≡ some text
      → adapter_set json t id session_id a s
        ≡ write id session_id t.kind text (run_id json t a) default_ttl_seconds s
  unfolding adapter_set set write_dumped
  adapter_set-write id session_id a text s dumped =
      ap (λ o. (write_dumped o id session_id t.kind (run_id json t a) default_ttl_seconds s).1)
        dumped

  -- A step that an adapter stores comes back as it was: if JSON holds the step's payload as a text that
  -- is read as a payload of which `from_dict` makes the step, no row has the id, and nothing is done in
  -- between, then at a later time `get` gives the step, `consume` gives it unless more than a day has
  -- passed, and a second `consume` gives nothing.
  pub adapter_set-adapter_consume :
      (id : String) (session_id : Option String) (a : A) (text : String) (payload : P) (time : ℕ)
      (s : Flows)
      → json.dumps (t.to_dict a) ≡ some text
      → json.loads text ≡ some payload
      → t.from_dict payload ≡ a
      → All (λ r. (r.id == id) ≡ false) s.rows
      → (adapter_get json t session_id (later time (adapter_set json t id session_id a s)) ≡ got a)
        × ((adapter_consume json t session_id (later time (adapter_set json t id session_id a s))).0
            ≡ (if ltb 86400000000 time then missing else got a))
        × ((adapter_consume json t session_id
              (adapter_consume json t session_id
                (later time (adapter_set json t id session_id a s))).1).0
            ≡ missing)
  unfolding adapter_get adapter_consume expiry is_expired
  adapter_set-adapter_consume id session_id a text payload time s dumped readable same fresh =
      let (found, taken, left) =
        write-consume json id session_id t.kind text (run_id json t a) default_ttl_seconds time s
          payload readable fresh in
      rw (adapter_set-write id session_id a text s dumped) (
        ap (read json t) found ∙ ap got same,
        ap (read json t) taken
            ∙ ap-if (read json t) (ltb (s.now + 86400000000) (s.now + time)) missing (got payload)
            ∙ rw (ltb-plus s.now 86400000000 time, same) refl,
        ap (read json t) left,
      )
