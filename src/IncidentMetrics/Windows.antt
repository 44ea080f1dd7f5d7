-- ===== src/IncidentMetrics/Windows.antt =====
-- The trend windows of backend/app/incident_metrics.py agree.
use aira_agent.Base.{ℕ, ◌+◌, String, Option, List, [], ◌∷◌, suc, map, ap, ◌≡◌, refl, arith, tally}
use aira_agent.IncidentMetrics.{
  Class, pass, fail, neutral, Sample, Counts, no_counts, within, count_samples, add_class, Window,
  windows, Rollup, rollup_in, window_rollup, count_in, count_in_windows,
}

abbrev total_of : Counts → ℕ
total_of c = c.passed + c.failed + c.undecided

abbrev pub time_of : Sample → Option ℕ
time_of x = x.time

total_of-add_class : (k : Class) (c : Counts) → total_of (add_class k c) ≡ suc (total_of c)
total_of-add_class pass c = omega arith
total_of-add_class fail c = omega arith
total_of-add_class neutral c = omega arith

-- Each sample in the window is counted once.
count_samples-tally :
    (now seconds : ℕ) (xs : List Sample) (c : Counts)
    → total_of (count_samples now seconds xs c)
      ≡ tally (within now seconds) (map time_of xs) + total_of c
unfolding count_samples tally
count_samples-tally now seconds [] c = omega arith
count_samples-tally now seconds (x ∷ xs) c = ground (
  arith,
  total_of-add_class x.class c,
  count_samples-tally now seconds xs (add_class x.class c),
  count_samples-tally now seconds xs c,
)

module _ {ℓ} {F : Type ℓ} (percent : ℕ → ℕ → F) where
  abbrev pub total_in : Rollup F → String × ℕ
  total_in r = (r.label, r.total)

  rollup_in-count_in :
      (samples : List Sample) (now : ℕ) (w : Window)
      → total_in (rollup_in percent samples now w) ≡ count_in (map time_of samples) now w
  unfolding rollup_in count_in
  rollup_in-count_in samples now w =
      ap (λ n. (w.label, n)) (omega (arith, count_samples-tally now w.seconds samples no_counts))

  map_same :
      (samples : List Sample) (now : ℕ) (ws : List Window)
      → map total_in (map (rollup_in percent samples now) ws)
        ≡ map (count_in (map time_of samples) now) ws
  map_same samples now [] = refl
  map_same samples now (w ∷ ws) =
      rw (rollup_in-count_in samples now w, map_same samples now ws) refl

  -- The two reads of the windows agree: for each window the total of the rollup of the samples is the
  -- count of their times.
  pub window_rollup-count_in_windows :
      (samples : List Sample) (now : ℕ)
      → map total_in (window_rollup percent samples now)
        ≡ count_in_windows (map time_of samples) now
  unfolding window_rollup count_in_windows
  window_rollup-count_in_windows samples now = map_same samples now windows
