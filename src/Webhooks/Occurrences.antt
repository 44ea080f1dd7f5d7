-- ===== src/Webhooks/Occurrences.antt =====
-- The occurrences of an alert's signal in backend/app/webhooks.py: `_record_occurrence`. The sessions
-- do not flush on their own: a query does not see what the same sweep has added.
use aira_agent.Base.{
  ℕ, suc, ◌-◌, ◌*◌, String, Option, none, some, List, [], ◌∷◌, ◌++◌, Bool, true, false, ◌&&◌, ltb,
  if◌then◌else◌, ◌==◌,
}
use aira_agent.Base.Int.{ℤ, pos, negsuc}
use aira_agent.Base.Table.{find, update}
use aira_agent.Incidents.Row.{Alert, signal_of}
use aira_agent.Webhooks.Row.{Webhooks, Settings, Occurrence, signal}

-- Whether an episode has ended: resolve_seconds > 0 and the gap is longer.
unfoldable pub is_stale : ℤ → ℕ → Occurrence → Bool
is_stale (negsuc n) now o = false
is_stale (pos n) now o = ltb 0 n && ltb (n * 1000000) (now - o.last_seen)

unfoldable pub bump_occurrence : ℤ → Option String → ℕ → Occurrence → Occurrence
bump_occurrence resolve severity now o =
    let stale = is_stale resolve now o in
    record o {
      count = if stale then 1 else suc o.count;
      first_seen = if stale then now else o.first_seen;
      last_seen = now;
      last_severity = severity;
    }

-- The occurrences while a sweep is under way: the rows of the table, the rows it adds, and `occ`.
pub record Occurring : Type 0 where
  pub rows : List Occurrence
  pub added : List Occurrence
  pub occ : List (String × ℕ)

unfoldable pub record_occurrence : ℤ → ℕ → Alert → Occurring → Occurring
record_occurrence resolve now a w = elim (find signal (signal_of a) w.rows) [
  | none ↦ record {
    rows = w.rows;
    added =
        w.added
        ++ record {
          signal = signal_of a;
          count = 1;
          last_severity = a.severity;
          first_seen = now;
          last_seen = now;
        }
          ∷ [];
    occ = (signal_of a, 1) ∷ w.occ;
  }
  | some o ↦ record {
    rows = update signal (signal_of a) (bump_occurrence resolve a.severity now) w.rows;
    added = w.added;
    occ = (signal_of a, (bump_occurrence resolve a.severity now o).count) ∷ w.occ;
  }
]

unfoldable pub record_occurrences : ℤ → ℕ → List Alert → Occurring → Occurring
record_occurrences resolve now [] w = w
record_occurrences resolve now (a ∷ alerts) w =
    record_occurrences resolve now alerts (record_occurrence resolve now a w)

-- occ.get(sig, 1)
unfoldable pub count_at : String → List (String × ℕ) → ℕ
count_at sig [] = 1
count_at sig ((k, n) ∷ rest) = if k == sig then n else count_at sig rest

-- Whether the rows that a sweep adds have keys of their own, or the commit raises.
unfoldable pub distinct_signals : List Occurrence → Bool
distinct_signals [] = true
distinct_signals (o ∷ os) =
    let rest = distinct_signals os in
    elim (find signal o.signal os) [ none ↦ rest | some _ ↦ false ]

unfoldable pub begin_occurring : Settings → List Alert → Webhooks → Occurring
begin_occurring c alerts s =
    record_occurrences c.webhook_escalation_resolve_seconds s.now alerts
      (record { rows = s.occurrences; added = []; occ = [] })
