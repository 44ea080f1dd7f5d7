-- ===== src/JobPolicy/Counts.antt =====
-- The counting dictionaries of `claim` against a plain count of the rows.
use aira_agent.Base.{ℕ, suc, ◌<◌, String, ◌≡◌, false, [], ◌∷◌, arith, if◌then◌else◌, ◌==◌, eq_iff}
use aira_agent.Base.Int.{at_least-ge}
use aira_agent.JobPolicy.{
  Settings, Counts, count_of, bump, contains, blocked_owners, owners_at, per_owner_cap,
}

pub count_of-bump :
    (k j : String) (m : Counts)
    → count_of j (bump k m) ≡ (if k == j then suc (count_of j m) else count_of j m)
unfolding count_of bump
count_of-bump k j [] = ground (arith, eq_iff k j)
count_of-bump k j ((i, n) ∷ m) =
    ground (arith, eq_iff i k, eq_iff i j, eq_iff k j, count_of-bump k j m)

-- An owner at the cap is in the list: `owners_at` finds it by its own entry.
contains-owners_at :
    (cap : ℕ) (owner : String) (m : Counts)
    → 0 < cap
    → contains owner (owners_at cap m) ≡ false
    → count_of owner m < cap
unfolding count_of owners_at contains
contains-owners_at cap owner [] pos h = ground arith
contains-owners_at cap owner ((i, n) ∷ m) pos h =
    ground (arith, eq_iff i owner, contains-owners_at cap owner m pos)

pub blocked_owners_free :
    (owner : String) (m : Counts) (s : Settings)
    → contains owner (blocked_owners m s) ≡ false
    → count_of owner m < per_owner_cap s
unfolding blocked_owners per_owner_cap
blocked_owners_free owner m s h =
    contains-owners_at (per_owner_cap s) owner m (at_least-ge 1 s.queue_per_owner_inflight_cap) h
