-- ===== src/Incidents/Sweep.antt =====
-- A sweep of backend/app/incidents.py: `observe` of the alerts of the moment and `recover_stale` with
-- their signals, read back by the signal.
use aira_agent.Base.{
  ℕ, String, none, some, List, [], ◌∷◌, ◌++◌, false, ◌≡◌, ◌==◌, arith, Bool-cases, Option-cases,
  inl, inr, refl, eq_iff, sym, ◌∙◌, ap, All, All-append,
}
use mathlib.Core.List.{append_assoc}
use aira_agent.Base.Table.{find, update, find-update, find-append, find-update_linked}
use aira_agent.Incidents.Row.{Incident, Alert, row_signal, signal_of, is_recovered}
use aira_agent.Incidents.Observe.{
  Sweep, new_incident, recurs, reopen, touch, observe_known, observe_found, observe_alert,
  observe_loop,
}

abbrev pub signals : List (Alert × String) → List String
signals [] = []
signals ((a, id) ∷ alerts) = signal_of a ∷ signals alerts

unfoldable pub IsLive : Incident → Type 0
IsLive r = is_recovered r.state ≡ false

-- A signal has a row in the sweep, and the row is not recovered.
unfoldable pub Lives : String → Sweep → Type 0
Lives g w = (r : Incident) × (find row_signal g (w.rows ++ w.added) ≡ some r) × IsLive r

IsLive-touch : (a : Alert) (now : ℕ) (r : Incident) → IsLive (touch a now r)
unfolding IsLive touch recurs reopen
IsLive-touch a now r = ground arith

find-append_none :
    (g : String) (rs ss : List Incident)
    → find row_signal g rs ≡ none
    → find row_signal g (rs ++ ss) ≡ find row_signal g ss
unfolding find
find-append_none g [] ss h = refl
find-append_none g (x ∷ rs) ss h = ground (arith, find-append_none g rs ss)

update-append :
    (g : String) (f : Incident → Incident) (rs ss : List Incident) {r : Incident}
    → find row_signal g rs ≡ some r
    → update row_signal g f rs ++ ss ≡ update row_signal g f (rs ++ ss)
unfolding find update
update-append g f [] ss h = ground arith
update-append g f (x ∷ rs) ss {r} h = ground (arith, update-append g f rs ss {r = r})

find-last :
    (g : String) (rs : List Incident) (r : Incident)
    → r.signal ≡ g
    → IsLive r
    → All IsLive rs
    → (x : Incident) × (find row_signal g (rs ++ r ∷ []) ≡ some x) × IsLive x
unfolding find
find-last g [] r e live h = (r, ground (arith, eq_iff r.signal g), live)
find-last g (x ∷ rs) r e live h = elim (Bool-cases (x.signal == g)) [
  | inl p ↦ (x, rw p refl, h.0)
  | inr p ↦ rw p (find-last g rs r e live h.1)
]

pub IsLive-new :
    (a : Alert) (id : String) (now : ℕ)
    → ((new_incident a id now).signal ≡ signal_of a) × IsLive (new_incident a id now)
unfolding IsLive new_incident
IsLive-new a id now = (refl, refl)

pub touch_signal : (a : Alert) (now : ℕ) (r : Incident) → (touch a now r).signal ≡ r.signal
unfolding touch reopen
touch_signal a now r = ground arith

module _ (a : Alert) (id : String) (now : ℕ) (w : Sweep) where
  pub observe_alert-rows :
      find row_signal (signal_of a) w.rows ≡ none
      → (observe_alert (a, id) now w).rows ++ (observe_alert (a, id) now w).added
        ≡ (w.rows ++ w.added) ++ new_incident a id now ∷ []
  unfolding observe_alert observe_found
  observe_alert-rows h = rw h (sym (append_assoc w.rows w.added (new_incident a id now ∷ [])))

  pub observe_alert-known :
      {r : Incident}
      → find row_signal (signal_of a) w.rows ≡ some r
      → (observe_alert (a, id) now w).rows ++ (observe_alert (a, id) now w).added
        ≡ update row_signal (signal_of a) (touch a now) (w.rows ++ w.added)
  unfolding observe_alert observe_found observe_known
  observe_alert-known {r} h = elim (Bool-cases (recurs now r)) [
    | inl e ↦ rw (h, e) (update-append (signal_of a) (touch a now) w.rows w.added h)
    | inr e ↦ rw (h, e) (update-append (signal_of a) (touch a now) w.rows w.added h)
  ]

  found_all :
      {r : Incident}
      → find row_signal (signal_of a) w.rows ≡ some r
      → find row_signal (signal_of a) (w.rows ++ w.added) ≡ some r
  found_all h = find-append row_signal (signal_of a) w.rows w.added h

  -- The signal of the alert has a live row after the alert.
  observe_alert-Lives : All IsLive w.added → Lives (signal_of a) (observe_alert (a, id) now w)
  unfolding Lives
  observe_alert-Lives h = elim (Option-cases (find row_signal (signal_of a) w.rows)) [
    | inl e ↦
        (rw
          (
            observe_alert-rows e,
            append_assoc w.rows w.added (new_incident a id now ∷ []),
            find-append_none (signal_of a) w.rows (w.added ++ new_incident a id now ∷ []) e,
          )
          (find-last (signal_of a) w.added (new_incident a id now) (IsLive-new a id now).0
            (IsLive-new a id now).1 h))
    | inr (r, e) ↦ (
      touch a now r,
      ap (find row_signal (signal_of a)) (observe_alert-known e)
          ∙ find-update row_signal (signal_of a) (signal_of a) (touch a now) (w.rows ++ w.added)
              (touch_signal a now)
          ∙ ground (arith, eq_iff (signal_of a) (signal_of a), found_all e),
      IsLive-touch a now r,
    )
  ]

  -- A live row stays live.
  observe_alert-Lives_kept : (g : String) → Lives g w → Lives g (observe_alert (a, id) now w)
  unfolding Lives
  observe_alert-Lives_kept g (r, f, live) =
      elim (Option-cases (find row_signal (signal_of a) w.rows)) [
        | inl e ↦
            (r, rw (observe_alert-rows e) (find-append row_signal g (w.rows ++ w.added) _ f), live)
        | inr (x, e) ↦ rw (observe_alert-known e) (
            kept (
              find-update_linked row_signal (λ y z. IsLive y → IsLive z) (signal_of a) g
                (touch a now) (w.rows ++ w.added) (touch_signal a now) (λ y l. l)
                (λ y _ _. IsLive-touch a now y) r f))
      ]
    where
      kept :
          (z : Incident) × (find row_signal g
                (update row_signal (signal_of a) (touch a now) (w.rows ++ w.added))
              ≡ some z)
            × (IsLive r → IsLive z)
          → (z : Incident) × (find row_signal g
                (update row_signal (signal_of a) (touch a now) (w.rows ++ w.added))
              ≡ some z)
            × IsLive z
      kept (z, e, l) = (z, e, l live)

  observe_alert-added : All IsLive w.added → All IsLive (observe_alert (a, id) now w).added
  unfolding observe_alert observe_found observe_known
  observe_alert-added h = elim (Option-cases (find row_signal (signal_of a) w.rows)) [
    | inl e ↦ rw e (All-append IsLive w.added _ h ((IsLive-new a id now).1, tt))
    | inr (x, e) ↦ elim (Bool-cases (recurs now x)) [ inl p ↦ rw (e, p) h | inr p ↦ rw (e, p) h ]
  ]

observe_loop-Lives_kept :
    (alerts : List (Alert × String)) (now : ℕ) (w : Sweep) (g : String)
    → Lives g w
    → Lives g (observe_loop alerts now w)
unfolding observe_loop
observe_loop-Lives_kept [] now w g h = h
observe_loop-Lives_kept ((a, id) ∷ alerts) now w g h =
    observe_loop-Lives_kept alerts now (observe_alert (a, id) now w) g
      (observe_alert-Lives_kept a id now w g h)

-- After the loop every alert's signal has a live row.
pub observe_loop-Lives :
    (alerts : List (Alert × String)) (now : ℕ) (w : Sweep)
    → All IsLive w.added
    → All (λ g. Lives g (observe_loop alerts now w)) (signals alerts)
unfolding observe_loop
observe_loop-Lives [] now w h = tt
observe_loop-Lives ((a, id) ∷ alerts) now w h = (
  observe_loop-Lives_kept alerts now (observe_alert (a, id) now w) (signal_of a)
      (observe_alert-Lives a id now w h),
  observe_loop-Lives alerts now (observe_alert (a, id) now w) (observe_alert-added a id now w h),
)
