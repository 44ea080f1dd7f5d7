-- ===== src/Authz/Rank.antt =====
-- The permissions of backend/app/authz.py against the ranks of the roles.
use aira_agent.Base.{
  ℕ, String, Option, none, some, true, not, ◌≡◌, ◌||◌, ◌==◌, if◌then◌else◌, leb, eq_iff, arith,
  refl,
}
use aira_agent.JobPolicy.{contains}
use aira_agent.Authz.{
  Role, viewer, editor, owner, role_text, normalize_role, rank_of, role_rank, permissions, role_can,
  Scope, can, can_in_workspace,
}

-- The least rank that has a permission; 4, which no role has, for one that no role is given.
unfoldable pub needed_rank : String → ℕ
needed_rank permission =
    if permission == "view"
    then 1
    else if permission == "edit"
    then 2
    else if permission == "manage"
    then 3
    else 4

permissions_ranked :
    (r : Option Role) (permission : String)
    → contains permission (permissions r) ≡ leb (needed_rank permission) (rank_of r)
unfolding contains needed_rank
permissions_ranked none p = ground arith
permissions_ranked (some viewer) p = ground (arith, eq_iff "view" p, eq_iff p "view")
permissions_ranked (some editor) p =
    ground (arith, eq_iff "view" p, eq_iff p "view", eq_iff "edit" p, eq_iff p "edit")
permissions_ranked (some owner) p = ground (
  arith,
  eq_iff "view" p,
  eq_iff p "view",
  eq_iff "edit" p,
  eq_iff p "edit",
  eq_iff "manage" p,
  eq_iff p "manage",
)

-- Roles are ranks: a role has a permission exactly when its rank reaches the one that the permission
-- needs, so a higher role can all that a lower one can, and an unknown role, of rank 0, can nothing.
pub role_can-rank :
    (role : Option String) (permission : String)
    → role_can role permission ≡ leb (needed_rank permission) (role_rank role)
unfolding role_can role_rank
role_can-rank role permission = permissions_ranked (normalize_role role) permission

-- What is stored for a role is read back as that role.
normalize_role-role_text : (r : Role) → normalize_role (some (role_text r)) ≡ some r
unfolding normalize_role role_text
normalize_role-role_text viewer = refl
normalize_role-role_text editor = refl
normalize_role-role_text owner = refl

-- A workspace scope is allowed exactly what its role's rank reaches; a personal scope is allowed all.
pub can-rank :
    (scope : Option Scope) (permission : String)
    → (can scope permission).allowed ≡ elim scope [
      | none ↦ true
      | some s ↦ not s.is_workspace || leb (needed_rank permission) (role_rank s.role)
    ]
unfolding can can_in_workspace
can-rank none permission = refl
can-rank (some s) permission = ground (arith, role_can-rank s.role permission)
