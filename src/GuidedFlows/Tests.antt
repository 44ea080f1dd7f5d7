-- ===== src/GuidedFlows/Tests.antt =====
-- Guided flows of backend/app/guided_flow_store.py at concrete stores.
use aira_agent.Base.{
  ◌+◌, String, none, some, List, [], ◌∷◌, ◌≡◌, ◌≤◌, refl, tally, keep, best, arith,
}
use aira_agent.GuidedFlows.Store.{
  Flow, Flows, Json, missing, unreadable, got, load, claim_loaded, listed, list_pending, write,
  write_dumped, pending, set, peek, consume, count_pending, purge_expired, Adapter, adapter_set,
  adapter_get, adapter_consume, latest, awaits, session_key, new_flow, in_flight, is_expired,
  expiry, consume_found, claim, claim_rows,
}
use aira_agent.Base.Order.{sort_by, insert_by}
use aira_agent.GuidedFlows.Race.{Op, act, handed_out, waits, stores, after}
use aira_agent.GuidedFlows.Once.{handed_out-once}
use aira_agent.GuidedFlows.Single.{SingleFor, after-SingleFor}
use aira_agent.GuidedFlows.Resume.{later, adapter_set-adapter_consume}

-- A text as its own JSON.
abbrev texts : Json String
texts = record { dumps = λ p. some p; loads = λ t. some t }

-- A text that is never readable.
abbrev broken : Json String
broken = record { dumps = λ p. some p; loads = λ t. none }

abbrev draft : Flow
draft = record {
  id = "f1";
  session_key = "s1";
  kind = "booking";
  status = pending;
  payload_json = "Paris";
  run_id = none;
  created_at = 10;
  updated_at = 10;
  expires_at = some 5000010;
}

abbrev store : Flows
store = record { rows = draft ∷ []; now = 20 }

-- Two processes that have read one row, and a third that stores the next step.
abbrev race : List (Op String)
race =
    Op.approve 20 draft
    ∷ Op.approve 21 draft
    ∷ Op.store "f2" (some "s1") "booking" "Rome" none 5
    ∷ Op.approve 22 draft
    ∷ []

race_hands_out : handed_out texts "f1" race store ≡ 1
unfolding handed_out act load claim_loaded write write_dumped consume_found is_expired claim
    claim_rows set keep awaits session_key new_flow
race_hands_out = refl

-- The second `set` for a session drops the first step.
abbrev replaced : Flows
replaced = (set texts "f2" (some "s1") "booking" "Rome" none 5 store).1

replaced-peek : peek texts (some "s1") "booking" replaced ≡ got "Rome"
unfolding peek load write write_dumped latest best keep set awaits session_key new_flow
replaced-peek = refl

replaced-count_pending : count_pending (some "s1") replaced ≡ 1
unfolding count_pending tally write write_dumped set keep awaits session_key in_flight new_flow
    is_expired expiry
replaced-count_pending = refl

-- A step that is late is still there for `peek`, not for `consume`, and is purged.
late-consume : (consume texts (some "s1") "booking" (later 5000000 store)).0 ≡ missing
unfolding consume consume_found latest best keep awaits session_key is_expired
late-consume = refl

late-peek : peek texts (some "s1") "booking" (later 5000000 store) ≡ got "Paris"
unfolding peek load write write_dumped latest best keep awaits session_key
late-peek = refl

late-purge_expired : (purge_expired (later 5000000 store)).0 ≡ 1
unfolding purge_expired tally is_expired
late-purge_expired = refl

handed_out-once_example :
    handed_out texts "f1" race store ≤ tally (stores "f1") race + tally (waits "f1") store.rows
handed_out-once_example = handed_out-once texts "f1" race store

after-SingleFor_example : SingleFor "s1" "booking" (after texts race store)
unfolding SingleFor tally awaits
after-SingleFor_example = after-SingleFor texts "s1" "booking" race store (omega arith)

-- A row that cannot be read raises at `consume` and stays; `list_pending` leaves it out.
broken-consume : consume broken (some "s1") "booking" store ≡ (unreadable, store)
unfolding consume consume_found claim_loaded load latest best keep awaits session_key is_expired
broken-consume = refl

broken-list_pending : list_pending broken (some "s1") store ≡ []
unfolding list_pending listed in_flight keep session_key is_expired sort_by insert_by
broken-list_pending = refl

abbrev trips : Adapter String String
trips = record { kind = "trip"; to_dict = λ a. a; from_dict = λ p. p; run_id_of = none }

adapter_set-adapter_consume_example :
    (adapter_get texts trips none (later 7 (adapter_set texts trips "f2" none "Oslo" store))
      ≡ got "Oslo")
    × ((adapter_consume texts trips none
          (later 7 (adapter_set texts trips "f2" none "Oslo" store))).0
        ≡ got "Oslo")
    × ((adapter_consume texts trips none
          (adapter_consume texts trips none
            (later 7 (adapter_set texts trips "f2" none "Oslo" store))).1).0
        ≡ missing)
adapter_set-adapter_consume_example =
    adapter_set-adapter_consume texts trips "f2" none "Oslo" "Oslo" "Oslo" 7 store refl refl refl
      (refl, tt)
