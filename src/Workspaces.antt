-- ===== src/Workspaces.antt =====
-- backend/app/workspaces.py: workspaces, their members, and the guards on the last owner. The ids
-- that `uuid4().hex` would draw are arguments. A write to the row that a query returned first is
-- written as a write to the first row that the query finds.
pub mod Members
pub mod Owners
mod Tests
use Prim.Native.String.{◌++◌ as append}
use aira_agent.Base.{
  ℕ, ◌≤◌, String, Option, none, some, List, [], ◌∷◌, ◌++◌, map, Bool, true, false, not, ◌≡◌, ◌&&◌,
  ◌||◌, ◌==◌, if◌then◌else◌, leb, first, keep, tally, any,
}
use aira_agent.Base.Text.{strip}
use aira_agent.Authz.{Role, viewer, editor, owner, role_text, normalize_role}

pub record Workspace : Type 0 where
  pub id : String
  pub name : String
  pub owner_account_id : String
  pub created_at : ℕ
  pub updated_at : ℕ

pub record WorkspaceMember : Type 0 where
  pub id : String
  pub workspace_id : String
  pub account_id : String
  pub role : String
  pub created_at : ℕ

pub record Workspaces : Type 0 where
  pub workspaces : List Workspace
  pub members : List WorkspaceMember
  pub now : ℕ

pub record Public : Type 0 where
  pub id : String
  pub name : String
  pub owner_account_id : String
  pub owner_key : String
  pub created_at : ℕ

-- `workspace_owner_key`
abbrev pub workspace_owner_key : String → String
workspace_owner_key id = append "workspace:" id

-- `_public`
unfoldable pub public_view : Workspace → Public
public_view w = record {
  id = w.id;
  name = w.name;
  owner_account_id = w.owner_account_id;
  owner_key = workspace_owner_key w.id;
  created_at = w.created_at;
}

abbrev workspace_row : String → List Workspace → Option Workspace
workspace_row id ws = first (λ w. w.id == id) ws

abbrev published : Option Workspace → Option Public
published none = none
published (some w) = some (public_view w)

unfoldable pub get : String → Workspaces → Option Public
get id s = if id == "" then none else published (workspace_row id s.workspaces)

-- the row of one account in one workspace
abbrev pub is_row : String → String → WorkspaceMember → Bool
is_row workspace_id account_id m = m.workspace_id == workspace_id && m.account_id == account_id

-- `_member_row`
unfoldable pub member_row : String → String → Workspaces → Option WorkspaceMember
member_row workspace_id account_id s =
    if workspace_id == "" || account_id == ""
    then none
    else first (is_row workspace_id account_id) s.members

abbrev found {ℓ} : {A : Type ℓ} → Option A → Bool
found none = false
found (some a) = true

unfoldable pub is_member : String → String → Workspaces → Bool
is_member workspace_id account_id s = found (member_row workspace_id account_id s)

abbrev pub role_in : Option WorkspaceMember → Option Role
role_in none = none
role_in (some m) = normalize_role (some m.role)

unfoldable pub get_role : String → String → Workspaces → Option Role
get_role workspace_id account_id s = role_in (member_row workspace_id account_id s)

abbrev with_role : Option Workspace → WorkspaceMember → Option (Public × Option Role)
with_role none m = none
with_role (some w) m = some (public_view w, normalize_role (some m.role))

unfoldable pub membership : String → String → Workspaces → Option (Public × Option Role)
membership workspace_id account_id s = elim (member_row workspace_id account_id s) [
  | none ↦ none
  | some m ↦ with_role (workspace_row workspace_id s.workspaces) m
]

abbrev new_member : String → String → String → Role → ℕ → WorkspaceMember
new_member id workspace_id account_id role now = record {
  id = id;
  workspace_id = workspace_id;
  account_id = account_id;
  role = role_text role;
  created_at = now;
}

-- (name or "").strip() or "Workspace"
abbrev named : String → String
named name = let n = strip name in if n == "" then "Workspace" else n

unfoldable pub create : String → String → String → String → Workspaces → Option Public × Workspaces
create workspace_id member_id owner_account_id name s =
    let row : Workspace = record {
      id = workspace_id;
      name = named name;
      owner_account_id = owner_account_id;
      created_at = s.now;
      updated_at = s.now;
    } in
    let t : Workspaces = record s {
      workspaces = s.workspaces ++ row ∷ [];
      members = s.members ++ new_member member_id workspace_id owner_account_id owner s.now ∷ [];
    } in
    (get workspace_id t, t)

unfoldable pub set_role : Role → WorkspaceMember → WorkspaceMember
set_role role m = record m { role = role_text role }

-- a write to the first row that a query finds, and its deletion
unfoldable pub write_first :
    (WorkspaceMember → Bool)
    → (WorkspaceMember → WorkspaceMember)
    → List WorkspaceMember
    → List WorkspaceMember
write_first p f [] = []
write_first p f (m ∷ ms) = if p m then f m ∷ ms else m ∷ write_first p f ms

unfoldable pub delete_first : (WorkspaceMember → Bool) → List WorkspaceMember → List WorkspaceMember
delete_first p [] = []
delete_first p (m ∷ ms) = if p m then ms else m ∷ delete_first p ms

-- normalize_role(role) or ROLE_VIEWER
abbrev pub or_viewer : Option Role → Role
or_viewer none = viewer
or_viewer (some r) = r

with_member :
    Option WorkspaceMember → String → String → String → Role → Workspaces → List WorkspaceMember
with_member none new_id workspace_id account_id role s =
    s.members ++ new_member new_id workspace_id account_id role s.now ∷ []
with_member (some m) new_id workspace_id account_id role s =
    write_first (is_row workspace_id account_id) (set_role role) s.members

unfoldable pub add_member :
    String
    → String
    → String
    → Option String
    → Workspaces
    → Option (Public × Option Role) × Workspaces
unfolding with_member
add_member new_id workspace_id account_id role s =
    let r = or_viewer (normalize_role role) in
    let t : Workspaces = record s {
      members =
          with_member (member_row workspace_id account_id s) new_id workspace_id account_id r s;
    } in
    (membership workspace_id account_id t, t)

unfoldable pub is_owner : String → WorkspaceMember → Bool
is_owner workspace_id m = m.workspace_id == workspace_id && m.role == "owner"

-- `_owner_count`
unfoldable pub owner_count : String → Workspaces → ℕ
owner_count workspace_id s = tally (is_owner workspace_id) s.members

-- `WorkspaceError`, by its message
pub data WorkspaceError : Type 0 where
  unknown_role not_a_member last_owner : WorkspaceError

pub data Reply {ℓ} (A : Type ℓ) : Type ℓ where
  returned : A → Reply A
  raised : WorkspaceError → Reply A

abbrev is_owner_role : Role → Bool
is_owner_role owner = true
is_owner_role _ = false

update_row :
    Option WorkspaceMember
    → Role
    → String
    → String
    → Workspaces
    → Reply (Option (Public × Option Role)) × Workspaces
update_row none role workspace_id account_id s = (raised not_a_member, s)
update_row (some m) role workspace_id account_id s =
    let t : Workspaces = record s {
      members = write_first (is_row workspace_id account_id) (set_role role) s.members;
    } in
    if m.role == "owner" && (not (is_owner_role role) && leb (owner_count workspace_id s) 1)
    then (raised last_owner, s)
    else (returned (membership workspace_id account_id t), t)

update_to :
    Option Role → String → String → Workspaces → Reply (Option (Public × Option Role)) × Workspaces
unfolding update_row
update_to none workspace_id account_id s = (raised unknown_role, s)
update_to (some r) workspace_id account_id s =
    update_row (member_row workspace_id account_id s) r workspace_id account_id s

unfoldable pub update_member_role :
    String
    → String
    → Option String
    → Workspaces
    → Reply (Option (Public × Option Role)) × Workspaces
unfolding update_to
update_member_role workspace_id account_id role s =
    update_to (normalize_role role) workspace_id account_id s

remove_row : Option WorkspaceMember → String → String → Workspaces → Reply Bool × Workspaces
remove_row none workspace_id account_id s = (returned false, s)
remove_row (some m) workspace_id account_id s =
    if m.role == "owner" && leb (owner_count workspace_id s) 1 then (raised last_owner, s) else (
      returned true,
      record s { members = delete_first (is_row workspace_id account_id) s.members },
    )

unfoldable pub remove_member : String → String → Workspaces → Reply Bool × Workspaces
unfolding remove_row
remove_member workspace_id account_id s =
    remove_row (member_row workspace_id account_id s) workspace_id account_id s

unfoldable pub member_workspace_ids : String → Workspaces → List String
member_workspace_ids account_id s =
    if account_id == ""
    then []
    else map (λ m. m.workspace_id) (keep (λ m. m.account_id == account_id) s.members)
