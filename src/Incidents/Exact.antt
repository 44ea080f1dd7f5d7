-- ===== src/Incidents/Exact.antt =====
-- What a whole sweep of backend/app/incidents.py establishes: the ledger is open exactly where an
-- alert is active.
use aira_agent.Base.{
  Bool, not, if◌then◌else◌, ℕ, String, Option, none, some, List, [], ◌∷◌, map, true, false, ◌≡◌,
  ◌==◌, arith, Bool-cases, Option-cases, inl, inr, refl, eq_iff, sym, ◌∙◌, ap, All,
}
use mathlib.Core.Path.{subst}
use aira_agent.Base.Table.{find, find-key, find-update_self, update}
use aira_agent.JobPolicy.{contains}
use aira_agent.Incidents.Row.{
  Incident, Incidents, Alert, acknowledged, row_signal, is_recovered, incident_id, unsilenced_state,
}
use aira_agent.Incidents.Observe.{
  begin_sweep, observe_loop, distinct, observe, recover, recover_row, is_stale, recover_stale,
}
use aira_agent.Incidents.Actions.{unsilence, unsilence_row, apply, apply_found}
use aira_agent.Incidents.Sweep.{signals, IsLive, Lives, observe_loop-Lives}
use aira_agent.Incidents.Commit.{unique, commits}

mapped {ℓ κ} : {A : Type ℓ} {B : Type κ} → (A → B) → Option A → Option B
mapped f none = none
mapped f (some a) = some (f a)

find-recover :
    (key : Incident → String) (active : List String) (now : ℕ) (k : String) (rs : List Incident)
    → ((r : Incident) → key (recover_row active now r) ≡ key r)
    → find key k (map (recover_row active now) rs) ≡ mapped (recover_row active now) (find key k rs)
unfolding find mapped
find-recover key active now k [] same = refl
find-recover key active now k (r ∷ rs) same = elim (Bool-cases (key r == k)) [
  | inl e ↦ rw (same r, e) refl
  | inr e ↦ rw (same r, e) (find-recover key active now k rs same)
]

recover_row-signal :
    (active : List String) (now : ℕ) (r : Incident) → (recover_row active now r).signal ≡ r.signal
unfolding recover_row recover
recover_row-signal active now r = ground arith

-- What a sweep leaves of one signal.
abbrev pub IsOpenIn : String → Incidents → Type 0
IsOpenIn g s = (r : Incident) × (find row_signal g s.rows ≡ some r) × (is_recovered r.state ≡ false)

open_after :
    (active : List String) (g : String) (s : Incidents)
    → contains g active ≡ true
    → IsOpenIn g s
    → IsOpenIn g (recover_stale active s)
unfolding recover_stale mapped recover_row is_stale recover
open_after active g s c (r, e, l) = (
  r,
  find-recover row_signal active s.now g s.rows (recover_row-signal active s.now)
      ∙ ground (arith, find-key row_signal g s.rows e),
  l,
)

closed_after :
    (active : List String) (g : String) (s : Incidents) (r : Incident)
    → contains g active ≡ false
    → find row_signal g (recover_stale active s).rows ≡ some r
    → is_recovered r.state ≡ true
unfolding recover_stale mapped recover_row is_stale recover
closed_after active g s r c h = elim (Option-cases (find row_signal g s.rows)) [
  | inl e ↦
      ground
        (arith, find-recover row_signal active s.now g s.rows (recover_row-signal active s.now))
  | inr (x, e) ↦ ground (
    arith,
    find-recover row_signal active s.now g s.rows (recover_row-signal active s.now),
    find-key row_signal g s.rows e,
  )
]

at_signal {κ} :
    (P : String → Type κ) (g : String) (gs : List String) → contains g gs ≡ true → All P gs → P g
unfolding contains
at_signal P g [] c h = absurd (cc)
at_signal P g (x ∷ gs) c h = elim (Bool-cases (x == g)) [
  | inl e ↦ subst P ((eq_iff x g).0 e) h.0
  | inr e ↦ at_signal P g gs (rw e at c) h.1
]

open_observed :
    (alerts : List (Alert × String)) (s : Incidents) (g : String)
    → distinct s.rows ≡ true
    → unique (signals alerts) ≡ true
    → contains g (signals alerts) ≡ true
    → IsOpenIn g (observe alerts s)
unfolding Lives IsLive begin_sweep contains
open_observed [] s g d u c = absurd (cc)
open_observed (a ∷ alerts) s g d u c = rw (commits a alerts s d u) (
    at_signal (λ g. Lives g (observe_loop (a ∷ alerts) s.now (begin_sweep s))) g
      (signals (a ∷ alerts)) c (observe_loop-Lives (a ∷ alerts) s.now (begin_sweep s) tt))

-- What a row may be, given whether its signal is active.
abbrev pub fits : Option Incident → Bool → Bool
fits none active = not active
fits (some r) active = if active then not (is_recovered r.state) else is_recovered r.state

-- Whether the ledger agrees with the active signals at one signal: an active one has a row that is not
-- recovered, and any other has no row or a recovered one.
unfoldable pub agrees : String → List String → Incidents → Bool
agrees g active s = fits (find row_signal g s.rows) (contains g active)

agrees_by :
    (active : List String) (g : String) (s : Incidents) (o : Option Incident) (c : Bool)
    → find row_signal g s.rows ≡ o
    → contains g active ≡ c
    → fits o c ≡ true
    → agrees g active s ≡ true
unfolding agrees
agrees_by active g s o c e f h =
    ap (λ (x : Option Incident). fits x (contains g active)) e ∙ ap (λ (b : Bool). fits o b) f ∙ h

-- If no two rows of the ledger and no two alerts have one signal, then after `observe` of the alerts
-- and `recover_stale` with their signals the ledger agrees with the alerts at every signal: one with
-- an alert has a row that is not recovered, and one without has no row or a recovered one.
pub sweep_exact :
    (alerts : List (Alert × String)) (s : Incidents) (g : String)
    → distinct s.rows ≡ true
    → unique (signals alerts) ≡ true
    → agrees g (signals alerts) (recover_stale (signals alerts) (observe alerts s)) ≡ true
sweep_exact alerts s g d u = elim (Bool-cases (contains g active)) [
  | inl c ↦
      (let (r, e, l) = open_after active g (observe alerts s) c (open_observed alerts s g d u c) in
        agrees_by active g after (some r) true e c (ap not l))
  | inr c ↦ elim (Option-cases (find row_signal g after.rows)) [
    | inl e ↦ agrees_by active g after none false e c refl
    | inr (r, e) ↦
        agrees_by active g after (some r) false e c (closed_after active g (observe alerts s) r c e)
  ]
]
  where
    active : List String
    active = signals alerts

    after : Incidents
    after = recover_stale active (observe alerts s)

recover_row-id :
    (active : List String) (now : ℕ) (r : Incident) → (recover_row active now r).id ≡ r.id
unfolding recover_row recover
recover_row-id active now r = ground arith

-- If an incident that was acknowledged is recovered because its condition cleared, then a call of
-- `unsilence` on it leaves it acknowledged: the recovery cleared the silence, not the acknowledgement.
pub unsilence_undoes_recovery :
    (active : List String) (id : String) (actor : Option String) (s : Incidents) (r : Incident)
    (t : ℕ)
    → find incident_id id s.rows ≡ some r
    → is_stale active r ≡ true
    → r.acknowledged_at ≡ some t
    → (x : Incident) × (find incident_id id (unsilence id actor (recover_stale active s)).1.rows
        ≡ some x)
      × (x.state ≡ acknowledged)
unfolding unsilence apply apply_found unsilence_row recover_stale mapped recover_row
    unsilenced_state recover
unsilence_undoes_recovery active id actor s r t f stale ack = rw after (
  (unsilence_row (recover s.now r)).0,
  ap (λ k. find incident_id k (update incident_id id (λ x. (unsilence_row x).0) cleared))
        (sym (find-key incident_id id s.rows f))
      ∙ find-update_self incident_id id (λ x. (unsilence_row x).0) cleared (λ x. refl) after,
  rw ack refl,
)
  where
    cleared : List Incident
    cleared = map (recover_row active s.now) s.rows

    after : find incident_id id (map (recover_row active s.now) s.rows) ≡ some (recover s.now r)
    after =
        find-recover incident_id active s.now id s.rows (recover_row-id active s.now)
        ∙ rw (f, stale) refl
