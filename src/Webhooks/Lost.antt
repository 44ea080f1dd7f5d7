-- ===== src/Webhooks/Lost.antt =====
-- A sweep of `route_alerts_detailed` of backend/app/webhooks.py whose commit raises.
use aira_agent.Base.{
  ℕ, ◌*◌, String, none, List, [], ◌∷◌, ◌++◌, true, false, ◌≡◌, refl, ap, sym, ◌∙◌, arith, length,
  tally, eq_iff, if_split, Option-cases, inl, inr,
}
use mathlib.Core.List.{append_assoc, append-nil}
use aira_agent.Base.Int.{ℤ}
use aira_agent.Base.Table.{find}
use aira_agent.Incidents.Row.{Alert, signal_of}
use aira_agent.Webhooks.Row.{Webhooks, Settings, Occurrence, signal}
use aira_agent.Webhooks.Occurrences.{
  Occurring, record_occurrence, record_occurrences, begin_occurring, distinct_signals,
}
use aira_agent.Webhooks.Routing.{
  Routing, Counts, sweep_routes, commit_routes, route_alerts_detailed, takes_alerts, no_counts,
}
use aira_agent.Webhooks.Added.{total, route_all-counts}

module _ (resolve : ℤ) (now : ℕ) where
  -- The row that a sweep adds for a signal that the table does not have.
  abbrev first_row : Alert → Occurrence
  first_row a = record {
    signal = signal_of a;
    count = 1;
    last_severity = a.severity;
    first_seen = now;
    last_seen = now;
  }

  -- What a sweep has added stays added.
  one_more :
      (a : Alert) (w : Occurring)
      → (more : List Occurrence) × ((record_occurrence resolve now a w).added ≡ w.added ++ more)
  unfolding record_occurrence
  one_more a w = elim (Option-cases (find signal (signal_of a) w.rows)) [
    | inl e ↦ rw (e, record_occurrence) (first_row a ∷ [], refl)
    | inr (o, e) ↦ rw (e, record_occurrence) ([], sym (append-nil w.added))
  ]

  added_more :
      (alerts : List Alert) (w : Occurring)
      → (more : List Occurrence) × ((record_occurrences resolve now alerts w).added
          ≡ w.added ++ more)
  unfolding record_occurrences
  added_more [] w = ([], sym (append-nil w.added))
  added_more (a ∷ alerts) w =
      let (x, e) = one_more a w in
      let (y, f) = added_more alerts (record_occurrence resolve now a w) in
      (x ++ y, f ∙ ap (λ z. z ++ y) e ∙ append_assoc w.added x y)

  -- Two rows with one key.
  twice-distinct_signals :
      (a b : Alert) (more : List Occurrence)
      → signal_of b ≡ signal_of a
      → distinct_signals (first_row a ∷ first_row b ∷ more) ≡ false
  unfolding distinct_signals find
  twice-distinct_signals a b more same = ground (arith, same, eq_iff (signal_of b) (signal_of a))

  new_row :
      (a : Alert) (w : Occurring)
      → find signal (signal_of a) w.rows ≡ none
      → record_occurrence resolve now a w ≡ record {
        rows = w.rows;
        added = w.added ++ first_row a ∷ [];
        occ = (signal_of a, 1) ∷ w.occ;
      }
  unfolding record_occurrence
  new_row a w e = rw (e, record_occurrence) refl

  -- Two alerts of one new signal give such rows.
  twice_added :
      (a b : Alert) (alerts : List Alert) (rows : List Occurrence)
      → signal_of b ≡ signal_of a
      → find signal (signal_of a) rows ≡ none
      → (more : List Occurrence) × ((record_occurrences resolve now
            (a ∷ b ∷ alerts)
            (record { rows = rows; added = []; occ = [] })).added
          ≡ first_row a ∷ first_row b ∷ more)
  unfolding record_occurrences
  twice_added a b alerts rows same new =
      let start : Occurring = record { rows = rows; added = []; occ = [] } in
      let one : Occurring = record {
        rows = rows;
        added = first_row a ∷ [];
        occ = (signal_of a, 1) ∷ [];
      } in
      let two : Occurring = record {
        rows = rows;
        added = first_row a ∷ first_row b ∷ [];
        occ = (signal_of b, 1) ∷ (signal_of a, 1) ∷ [];
      } in
      let (more, e) = added_more alerts two in
      (
        more,
        ap (λ w. (record_occurrences resolve now alerts (record_occurrence resolve now b w)).added)
              (new_row a start new)
            ∙ ap (λ w. (record_occurrences resolve now alerts w).added)
                (new_row b one (ap (λ x. find signal x rows) same ∙ new))
            ∙ e,
      )

clash :
    (c : Settings) (a b : Alert) (alerts : List Alert) (s : Webhooks)
    → signal_of b ≡ signal_of a
    → find signal (signal_of a) s.occurrences ≡ none
    → distinct_signals (begin_occurring c (a ∷ b ∷ alerts) s).added ≡ false
unfolding begin_occurring
clash c a b alerts s same new =
    let (more, e) =
      twice_added c.webhook_escalation_resolve_seconds s.now a b alerts s.occurrences same new in
    ap distinct_signals e
    ∙ twice-distinct_signals c.webhook_escalation_resolve_seconds s.now a b more same

module _ (c : Settings) (uuid4 : ℕ → String) (silenced : List String) where
  -- A lost sweep is reported as done: if the first two alerts of a sweep have one signal that has no
  -- occurrence yet, and webhooks are enabled, then nothing of the sweep is kept but the ids it drew,
  -- and its counts still account for every pair of an alert and a destination.
  pub lost_sweep_reported :
      (a b : Alert) (alerts : List Alert) (s : Webhooks)
      → c.webhooks_enabled ≡ true
      → signal_of b ≡ signal_of a
      → find signal (signal_of a) s.occurrences ≡ none
      → let (counts, t) = route_alerts_detailed c uuid4 silenced (a ∷ b ∷ alerts) s in
        (t ≡ record s { draws = t.draws })
        × (total counts ≡ tally takes_alerts s.destinations * length (a ∷ b ∷ alerts))
  unfolding route_alerts_detailed commit_routes sweep_routes
  lost_sweep_reported a b alerts s on same new =
      let start : Routing = record { added = []; draws = s.draws; counts = no_counts } in
      let counts =
        route_all-counts c uuid4 silenced s.deliveries (begin_occurring c (a ∷ b ∷ alerts) s).occ
          s.now takes_alerts (a ∷ b ∷ alerts) s.destinations start in
      if_split {A = Counts × Webhooks}
        (λ t.
          (t.1 ≡ record s { draws = t.1.draws })
          × (total t.0 ≡ tally takes_alerts s.destinations * length (a ∷ b ∷ alerts)))
        c.webhooks_enabled _ (no_counts, s)
        (λ _. rw (clash c a b alerts s same new) (refl, omega (arith, counts.0)))
        (λ off. absurd (cc (on, off)))
