-- ===== src/Workspaces/Tests.antt =====
-- A workspace of two owners, and the theorems at it.
use aira_agent.Base.{◌≤◌, none, some, [], ◌∷◌, ◌≡◌, refl, arith, first, tally}
use aira_agent.Authz.{normalize_role}
use aira_agent.Workspaces.{
  Workspaces, WorkspaceMember, owner_count, is_owner, member_row, add_member, update_member_role,
  remove_member,
}
use aira_agent.Workspaces.Owners.{owner_kept, add_member_locks_out}

abbrev ada : WorkspaceMember
ada = record { id = "m1"; workspace_id = "w1"; account_id = "ada"; role = "owner"; created_at = 0 }

abbrev bob : WorkspaceMember
bob = record { id = "m2"; workspace_id = "w1"; account_id = "bob"; role = "viewer"; created_at = 1 }

abbrev team : Workspaces
team = record {
  workspaces =
      record { id = "w1"; name = "Team"; owner_account_id = "ada"; created_at = 0; updated_at = 0 }
      ∷ [];
  members = ada ∷ bob ∷ [];
  now = 5;
}

owner_kept_example :
    (1 ≤ owner_count "w1" (update_member_role "w1" "ada" (some "viewer") team).1)
    × (1 ≤ owner_count "w1" (remove_member "w1" "ada" team).1)
unfolding owner_count tally is_owner
owner_kept_example = owner_kept "w1" "w1" "ada" (some "viewer") team (omega arith)

add_member_locks_out_example : owner_count "w1" (add_member "m3" "w1" "ada" none team).1 ≡ 0
unfolding owner_count tally is_owner member_row first normalize_role
add_member_locks_out_example =
    add_member_locks_out "m3" "w1" "ada" none team ada refl refl refl (λ e. cc)
