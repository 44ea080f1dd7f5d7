-- ===== src/GuidedFlows/Store.antt =====
-- `GuidedFlowStore` of backend/app/guided_flow_store.py with `GuidedFlow` of backend/app/db/models.py, and
-- its facade `GuidedFlowAdapter`. A time is a number of microseconds; the id that `uuid4().hex` would
-- draw for a flow comes with it. `claim` is the guarded UPDATE of `consume`. `json.dumps` with
-- `default=str` and `json.loads` are the functions of the record `Json`, where none is an exception.
use aira_agent.Base.{
  ℕ, ◌+◌, ◌*◌, String, Option, none, some, List, [], ◌∷◌, ◌++◌, Bool, true, false, not, ◌&&◌, ltb,
  leb, eqb, if◌then◌else◌, ◌==◌, or_text, keep, tally, best,
}
use aira_agent.Base.Order.{sort_by}

pub data Status : Type 0 where
  pending consumed : Status

pub record Flow : Type 0 where
  pub id : String
  pub session_key : String
  pub kind : String
  pub status : Status
  pub payload_json : String
  pub run_id : Option String
  pub created_at : ℕ
  pub updated_at : ℕ
  pub expires_at : Option ℕ

pub record Flows : Type 0 where
  pub rows : List Flow
  pub now : ℕ

pub record Json {ℓ} (P : Type ℓ) : Type ℓ where
  pub dumps : P → Option String
  pub loads : String → Option P

-- What a read gives: nothing, a payload, or the exception of `json.loads`.
pub data Read {ℓ} (P : Type ℓ) : Type ℓ where
  missing unreadable : Read P
  got : P → Read P

-- A row of `list_pending`.
pub record Pending {ℓ} (P : Type ℓ) : Type ℓ where
  pub kind : String
  pub run_id : Option String
  pub created_at : ℕ
  pub data_of : P

abbrev pub is_pending : Status → Bool
is_pending pending = true
is_pending consumed = false

-- session_id or "anonymous"
unfoldable pub session_key : Option String → String
session_key id = or_text id "anonymous"

-- expires_at is not None and expires_at < now
unfoldable pub is_expired : Option ℕ → ℕ → Bool
is_expired none now = false
is_expired (some t) now = ltb t now

-- now + timedelta(seconds = ttl) if ttl else None
unfoldable pub expiry : ℕ → ℕ → Option ℕ
expiry now ttl = if eqb ttl 0 then none else some (now + ttl * 1000000)

-- The rows of a session and a kind that are pending.
unfoldable pub awaits : String → String → Flow → Bool
awaits key kind r = r.session_key == key && (r.kind == kind && is_pending r.status)

unfoldable pub new_flow : String → Option String → String → String → Option String → ℕ → ℕ → Flow
new_flow id session_id kind payload_json run_id ttl now = record {
  id = id;
  session_key = session_key session_id;
  kind = kind;
  status = pending;
  payload_json = payload_json;
  run_id = run_id;
  created_at = now;
  updated_at = now;
  expires_at = expiry now ttl;
}

-- The transaction of `set`, for the text of the payload.
unfoldable pub write : String → Option String → String → String → Option String → ℕ → Flows → Flows
write id session_id kind payload_json run_id ttl s = record s {
  rows =
      keep (λ r. not (awaits (session_key session_id) kind r)) s.rows
      ++ new_flow id session_id kind payload_json run_id ttl s.now ∷ [];
}

-- None where `json.dumps` has raised, which rolls the transaction back.
unfoldable pub write_dumped :
    Option String
    → String
    → Option String
    → String
    → Option String
    → ℕ
    → Flows
    → Option String × Flows
write_dumped none id session_id kind run_id ttl s = (none, s)
write_dumped (some text) id session_id kind run_id ttl s =
    (some id, write id session_id kind text run_id ttl s)

-- ORDER BY created_at DESC
abbrev pub created_later : Flow → Flow → Bool
created_later r q = leb q.created_at r.created_at

unfoldable pub latest : Option String → String → Flows → Option Flow
latest session_id kind s = best created_later (keep (awaits (session_key session_id) kind) s.rows)

-- UPDATE … SET status = consumed WHERE id = … AND status = pending: whether a row was written.
unfoldable pub claim_rows : String → ℕ → List Flow → Bool × List Flow
claim_rows id now [] = (false, [])
claim_rows id now (r ∷ rs) =
    let (won, rest) = claim_rows id now rs in
    if r.id == id && is_pending r.status
    then (true, record r { status = consumed; updated_at = now } ∷ rs)
    else (won, r ∷ rest)

unfoldable pub claim : String → ℕ → Flows → Bool × Flows
claim id now s = let (won, rows) = claim_rows id now s.rows in (won, record s { rows = rows })

unfoldable pub clear : Option String → String → Flows → Flows
clear session_id kind s = record s {
  rows = keep (λ r. not (r.session_key == session_key session_id && r.kind == kind)) s.rows;
}

-- pending, and not expired
unfoldable pub in_flight : String → ℕ → Flow → Bool
in_flight key now r =
    r.session_key == key && (is_pending r.status && not (is_expired r.expires_at now))

unfoldable pub count_pending : Option String → Flows → ℕ
count_pending session_id s = tally (in_flight (session_key session_id) s.now) s.rows

unfoldable pub purge_expired : Flows → ℕ × Flows
purge_expired s = (
  tally (λ r. is_expired r.expires_at s.now) s.rows,
  record s { rows = keep (λ r. not (is_expired r.expires_at s.now)) s.rows },
)

module _ {ℓ} {P : Type ℓ} (json : Json P) where
  unfoldable pub set :
      String → Option String → String → P → Option String → ℕ → Flows → Option String × Flows
  set id session_id kind payload run_id ttl s =
      write_dumped (json.dumps payload) id session_id kind run_id ttl s

  unfoldable pub load : Flow → Read P
  load r = elim (json.loads r.payload_json) [ none ↦ unreadable | some p ↦ got p ]

  unfoldable pub peek : Option String → String → Flows → Read P
  peek session_id kind s = elim (latest session_id kind s) [ none ↦ missing | some r ↦ load r ]

  -- `payload if claimed.rowcount == 1 else None`
  abbrev pub paid : P → Bool × Flows → Read P × Flows
  paid payload (won, s) = (if won then got payload else missing, s)

  -- The claim follows the reading of the payload, whose exception leaves the row as it is.
  unfoldable pub claim_loaded : Read P → String → ℕ → Flows → Read P × Flows
  claim_loaded missing id now s = (missing, s)
  claim_loaded unreadable id now s = (unreadable, s)
  claim_loaded (got payload) id now s = paid payload (claim id now s)

  -- What `consume` does at a time with the row that it has read, which other processes may have
  -- claimed since.
  unfoldable pub consume_found : ℕ → Option Flow → Flows → Read P × Flows
  consume_found now none s = (missing, s)
  consume_found now (some r) s =
      if is_expired r.expires_at now then (missing, s) else claim_loaded (load r) r.id now s

  unfoldable pub consume : Option String → String → Flows → Read P × Flows
  consume session_id kind s = consume_found s.now (latest session_id kind s) s

  -- The rows of a list, but for those whose text is not readable.
  unfoldable pub listed : List Flow → List (Pending P)
  listed [] = []
  listed (r ∷ rs) = elim (json.loads r.payload_json) [
    | none ↦ listed rs
    | some p ↦
        record { kind = r.kind; run_id = r.run_id; created_at = r.created_at; data_of = p }
        ∷ listed rs
  ]

  unfoldable pub list_pending : Option String → Flows → List (Pending P)
  list_pending session_id s =
      listed (sort_by created_later (keep (in_flight (session_key session_id) s.now) s.rows))

-- A facade of one kind of flow, between a type of pending steps and their payloads.
pub record Adapter {ℓ κ} (A : Type κ) (P : Type ℓ) : Type (ℓ ⊔ κ) where
  pub kind : String
  pub to_dict : A → P
  pub from_dict : P → A
  pub run_id_of : Option (A → Option String)

-- `DEFAULT_TTL_SECONDS`
abbrev pub default_ttl_seconds : ℕ
default_ttl_seconds = 86400

module _ {ℓ κ} {A : Type κ} {P : Type ℓ} (json : Json P) (t : Adapter A P) where
  -- `from_dict(data) if data is not None else None`
  abbrev pub read : Read P → Read A
  read missing = missing
  read unreadable = unreadable
  read (got p) = got (t.from_dict p)

  abbrev pub run_id : A → Option String
  run_id a = elim t.run_id_of [ none ↦ none | some f ↦ f a ]

  unfoldable pub adapter_set : String → Option String → A → Flows → Flows
  adapter_set id session_id a s =
      (set json id session_id t.kind (t.to_dict a) (run_id a) default_ttl_seconds s).1

  unfoldable pub adapter_get : Option String → Flows → Read A
  adapter_get session_id s = read (peek json session_id t.kind s)

  unfoldable pub adapter_consume : Option String → Flows → Read A × Flows
  adapter_consume session_id s =
      let (data_of, s') = consume json session_id t.kind s in (read data_of, s')

  unfoldable pub adapter_clear : Option String → Flows → Flows
  adapter_clear session_id s = clear session_id t.kind s
