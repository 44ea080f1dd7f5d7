-- ===== src/Incidents/Commit.antt =====
-- When the commit of `observe` in backend/app/incidents.py goes through, and what it loses when not.
use aira_agent.Base.{
  ℕ, String, none, some, List, [], ◌∷◌, ◌++◌, map, Bool, true, false, not, ◌≡◌, ◌&&◌, ◌||◌, ◌==◌,
  arith, Bool-cases, Option-cases, inl, inr, refl, eq_iff, sym, ◌∙◌, ap, All,
}
use mathlib.Core.List.{append-nil}
use aira_agent.Base.Table.{find, update}
use aira_agent.JobPolicy.{contains}
use aira_agent.Incidents.Row.{Incident, Incidents, Alert, row_signal, signal_of}
use aira_agent.Incidents.Observe.{
  Sweep, begin_sweep, new_incident, recurs, touch, observe_known, observe_found, observe_alert,
  observe_loop, commit_sweep, distinct, observe,
}
use aira_agent.Incidents.Sweep.{
  signals, touch_signal, IsLive-new, observe_alert-rows, observe_alert-known,
}

-- No signal twice.
unfoldable pub unique : List String → Bool
unique [] = true
unique (g ∷ gs) = not (contains g gs) && unique gs

row_signals-update :
    (g : String) (f : Incident → Incident) (rs : List Incident)
    → ((r : Incident) → (f r).signal ≡ r.signal)
    → map row_signal (update row_signal g f rs) ≡ map row_signal rs
unfolding update
row_signals-update g f [] same = refl
row_signals-update g f (r ∷ rs) same = elim (Bool-cases (r.signal == g)) [
  | inl e ↦ rw (e, same r) refl
  | inr e ↦ rw (e, row_signals-update g f rs same) refl
]

distinct-unique : (rs : List Incident) → distinct rs ≡ unique (map row_signal rs)
unfolding distinct unique
distinct-unique [] = refl
distinct-unique (r ∷ rs) = rw (distinct-unique rs) refl

contains-last :
    (g h : String) (gs : List String) → contains g (gs ++ h ∷ []) ≡ contains g gs || h == g
unfolding contains
contains-last g h [] = ground arith
contains-last g h (x ∷ gs) = ground (arith, contains-last g h gs)

unique-last :
    (gs : List String) (g : String) → unique (gs ++ g ∷ []) ≡ unique gs && not (contains g gs)
unfolding unique contains
unique-last [] g = refl
unique-last (x ∷ gs) g =
    ground (arith, unique-last gs g, contains-last x g gs, eq_iff g x, eq_iff x g)

row_signals-last :
    (rs : List Incident) (r : Incident)
    → map row_signal (rs ++ r ∷ []) ≡ map row_signal rs ++ r.signal ∷ []
row_signals-last [] r = refl
row_signals-last (x ∷ rs) r = ap (λ t. x.signal ∷ t) (row_signals-last rs r)

-- The signals of a sweep's rows, old and added.
swept : Sweep → List String
swept w = map row_signal (w.rows ++ w.added)

module _ (a : Alert) (id : String) (now : ℕ) (w : Sweep) where
  swept-new :
      find row_signal (signal_of a) w.rows ≡ none
      → swept (observe_alert (a, id) now w) ≡ swept w ++ signal_of a ∷ []
  unfolding swept
  swept-new e =
      rw
        (
          observe_alert-rows a id now w e,
          row_signals-last (w.rows ++ w.added) (new_incident a id now),
          (IsLive-new a id now).0,
        )
        refl

  swept-known :
      {r : Incident}
      → find row_signal (signal_of a) w.rows ≡ some r
      → swept (observe_alert (a, id) now w) ≡ swept w
  unfolding swept
  swept-known e =
      rw (observe_alert-known a id now w e)
        (row_signals-update (signal_of a) (touch a now) (w.rows ++ w.added) (touch_signal a now))

contains-none :
    (g : String) (rs : List Incident)
    → find row_signal g rs ≡ none
    → contains g (map row_signal rs) ≡ false
unfolding find contains
contains-none g [] h = refl
contains-none g (r ∷ rs) h = ground (arith, contains-none g rs)

-- A signal that no row has is not among the added ones either.
Fresh : Sweep → String → Type 0
Fresh w g = contains g (map row_signal w.rows) ≡ false → contains g (swept w) ≡ false

module _ (a : Alert) (id : String) (now : ℕ) (w : Sweep) where
  row_signals-same : map row_signal (observe_alert (a, id) now w).rows ≡ map row_signal w.rows
  unfolding observe_alert observe_found observe_known
  row_signals-same = elim (Option-cases (find row_signal (signal_of a) w.rows)) [
    | inl e ↦ rw e refl
    | inr (x, e) ↦ elim (Bool-cases (recurs now x)) [
      | inl p ↦ rw (e, p) kept
      | inr p ↦ rw (e, p) kept
    ]
  ]
    where
      kept :
          map row_signal (update row_signal (signal_of a) (touch a now) w.rows)
          ≡ map row_signal w.rows
      kept = row_signals-update (signal_of a) (touch a now) w.rows (touch_signal a now)

  Fresh-kept :
      (g : String) → (signal_of a == g) ≡ false → Fresh w g → Fresh (observe_alert (a, id) now w) g
  unfolding Fresh
  Fresh-kept g other h b = elim (Option-cases (find row_signal (signal_of a) w.rows)) [
    | inl e ↦
        rw
          (
            swept-new a id now w e,
            contains-last g (signal_of a) (swept w),
            other,
            h (rw row_signals-same at b),
          )
          refl
    | inr (x, e) ↦ rw (swept-known a id now w e) (h (rw row_signals-same at b))
  ]

  unique-kept :
      Fresh w (signal_of a)
      → unique (swept w) ≡ true
      → unique (swept (observe_alert (a, id) now w)) ≡ true
  unfolding Fresh
  unique-kept fresh u = elim (Option-cases (find row_signal (signal_of a) w.rows)) [
    | inl e ↦
        rw
          (
            swept-new a id now w e,
            unique-last (swept w) (signal_of a),
            u,
            fresh (contains-none (signal_of a) w.rows e),
          )
          refl
    | inr (x, e) ↦ rw (swept-known a id now w e) u
  ]

others-Fresh :
    (a : Alert) (id : String) (now : ℕ) (w : Sweep) (gs : List String)
    → contains (signal_of a) gs ≡ false
    → All (Fresh w) gs
    → All (Fresh (observe_alert (a, id) now w)) gs
unfolding contains
others-Fresh a id now w [] b h = tt
others-Fresh a id now w (g ∷ gs) b h = (
  Fresh-kept a id now w g (ground (arith, eq_iff (signal_of a) g, eq_iff g (signal_of a))) h.0,
  others-Fresh a id now w gs (ground arith) h.1,
)

unique-observe_loop :
    (alerts : List (Alert × String)) (now : ℕ) (w : Sweep)
    → unique (signals alerts) ≡ true
    → All (Fresh w) (signals alerts)
    → unique (swept w) ≡ true
    → unique (swept (observe_loop alerts now w)) ≡ true
unfolding observe_loop unique
unique-observe_loop [] now w d h u = u
unique-observe_loop ((a, id) ∷ alerts) now w d h u =
    unique-observe_loop alerts now (observe_alert (a, id) now w) (ground arith)
      (others-Fresh a id now w (signals alerts) (ground arith) h.1) (unique-kept a id now w h.0 u)

-- At the start of a sweep nothing is added, so every signal is fresh.
Fresh-begin : (s : Incidents) (gs : List String) → All (Fresh (begin_sweep s)) gs
unfolding Fresh swept begin_sweep
Fresh-begin s [] = tt
Fresh-begin s (g ∷ gs) = (λ h. rw (append-nil s.rows) h, Fresh-begin s gs)

-- The rows of a sweep that commits.
pub commits :
    (a : Alert × String) (alerts : List (Alert × String)) (s : Incidents)
    → distinct s.rows ≡ true
    → unique (signals (a ∷ alerts)) ≡ true
    → (observe (a ∷ alerts) s).rows
      ≡ (observe_loop (a ∷ alerts) s.now (begin_sweep s)).rows
        ++ (observe_loop (a ∷ alerts) s.now (begin_sweep s)).added
unfolding observe commit_sweep swept begin_sweep
commits a alerts s d u = rw committed refl
  where
    committed :
        distinct (
          (observe_loop (a ∷ alerts) s.now (begin_sweep s)).rows
          ++ (observe_loop (a ∷ alerts) s.now (begin_sweep s)).added)
        ≡ true
    committed =
        distinct-unique _
        ∙ unique-observe_loop (a ∷ alerts) s.now (begin_sweep s) u
            (Fresh-begin s (signals (a ∷ alerts)))
            (rw (append-nil s.rows) (sym (distinct-unique s.rows) ∙ d))

-- A sweep in which a signal is added twice, before or later, does not commit.
unique-stays :
    (alerts : List (Alert × String)) (now : ℕ) (w : Sweep)
    → unique (swept w) ≡ false
    → unique (swept (observe_loop alerts now w)) ≡ false
unfolding observe_loop
unique-stays [] now w h = h
unique-stays ((a, id) ∷ alerts) now w h =
    unique-stays alerts now (observe_alert (a, id) now w)
      (elim (Option-cases (find row_signal (signal_of a) w.rows)) [
        | inl e ↦ rw (swept-new a id now w e, unique-last (swept w) (signal_of a), h) refl
        | inr (x, e) ↦ rw (swept-known a id now w e) h
      ])

observe_alert-new_rows :
    (a : Alert) (id : String) (now : ℕ) (w : Sweep)
    → find row_signal (signal_of a) w.rows ≡ none
    → (observe_alert (a, id) now w).rows ≡ w.rows
unfolding observe_alert observe_found
observe_alert-new_rows a id now w e = rw e refl

-- If the first two alerts of a sweep have one signal, which no row of the ledger has, then the sweep
-- leaves the ledger as it was, whatever alerts follow.
pub observe_loses_sweep :
    (a b : Alert) (id id' : String) (alerts : List (Alert × String)) (s : Incidents)
    → signal_of a ≡ signal_of b
    → find row_signal (signal_of a) s.rows ≡ none
    → observe ((a, id) ∷ (b, id') ∷ alerts) s ≡ s
unfolding observe observe_loop commit_sweep swept begin_sweep
observe_loses_sweep a b id id' alerts s e f =
    rw (distinct-unique _ ∙ unique-stays alerts s.now second twice) refl
  where
    first : Sweep
    first = observe_alert (a, id) s.now (begin_sweep s)

    rows_kept : first.rows ≡ s.rows
    rows_kept = observe_alert-new_rows a id s.now (begin_sweep s) f

    again : find row_signal (signal_of b) first.rows ≡ none
    again =
        ap (find row_signal (signal_of b)) rows_kept
        ∙ ap (λ g. find row_signal g s.rows) (sym e)
        ∙ f

    second : Sweep
    second = observe_alert (b, id') s.now first

    twice : unique (swept second) ≡ false
    twice =
        ap unique (swept-new b id' s.now first again)
        ∙ unique-last (swept first) (signal_of b)
        ∙ rw
            (
              swept-new a id s.now (begin_sweep s) f,
              contains-last (signal_of b) (signal_of a) (swept (begin_sweep s)),
              (eq_iff (signal_of a) (signal_of b)).1 e,
            )
            (ground arith)
