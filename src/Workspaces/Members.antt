-- ===== src/Workspaces/Members.antt =====
-- Counts of member rows over the writes of backend/app/workspaces.py.
use aira_agent.Base.{
  ◌≤◌, suc, some, List, [], ◌∷◌, Bool, true, false, ◌≡◌, arith, first, tally, refl,
}
use aira_agent.Workspaces.{WorkspaceMember, write_first, delete_first}

module _ (p : WorkspaceMember → Bool) where
  pub tally-write_first_le :
      (q : WorkspaceMember → Bool) (f : WorkspaceMember → WorkspaceMember)
      (ms : List WorkspaceMember)
      → tally q ms ≤ suc (tally q (write_first p f ms))
  unfolding tally write_first
  tally-write_first_le q f [] = omega arith
  tally-write_first_le q f (m ∷ ms) = ground (arith, tally-write_first_le q f ms)

  -- A write does not lower a count whose row, if it was counted, is counted after.
  pub tally-write_first_ge :
      (q : WorkspaceMember → Bool) (f : WorkspaceMember → WorkspaceMember)
      (ms : List WorkspaceMember) (r : WorkspaceMember)
      → first p ms ≡ some r
      → (q r ≡ true → q (f r) ≡ true)
      → tally q ms ≤ tally q (write_first p f ms)
  unfolding tally write_first first
  tally-write_first_ge q f [] r h k = omega arith
  tally-write_first_ge q f (m ∷ ms) r h k = ground (arith, tally-write_first_ge q f ms r)

  pub tally-delete_first_le :
      (q : WorkspaceMember → Bool) (ms : List WorkspaceMember)
      → tally q ms ≤ suc (tally q (delete_first p ms))
  unfolding tally delete_first
  tally-delete_first_le q [] = omega arith
  tally-delete_first_le q (m ∷ ms) = ground (arith, tally-delete_first_le q ms)

  pub tally-delete_first_off :
      (q : WorkspaceMember → Bool) (ms : List WorkspaceMember) (r : WorkspaceMember)
      → first p ms ≡ some r
      → q r ≡ false
      → tally q (delete_first p ms) ≡ tally q ms
  unfolding tally delete_first first
  tally-delete_first_off q [] r h k = refl
  tally-delete_first_off q (m ∷ ms) r h k = ground (arith, tally-delete_first_off q ms r)

  pub first-true :
      (ms : List WorkspaceMember) (r : WorkspaceMember) → first p ms ≡ some r → p r ≡ true
  unfolding first
  first-true [] r h = ground arith
  first-true (m ∷ ms) r h = ground (arith, first-true ms r)

  -- A write that takes the counted row it finds out of the count.
  pub tally-write_first_lost :
      (q : WorkspaceMember → Bool) (f : WorkspaceMember → WorkspaceMember)
      (ms : List WorkspaceMember) (r : WorkspaceMember)
      → first p ms ≡ some r
      → q r ≡ true
      → q (f r) ≡ false
      → suc (tally q (write_first p f ms)) ≡ tally q ms
  unfolding tally write_first first
  tally-write_first_lost q f [] r h k l = ground arith
  tally-write_first_lost q f (m ∷ ms) r h k l = ground (arith, tally-write_first_lost q f ms r)
