-- ===== src/Authz.antt =====
-- backend/app/authz.py: the roles of a workspace, what each permits, and the decision for a scope.
pub mod Rank
use Prim.Native.String.{◌++◌ as append}
use aira_agent.Base.{
  ℕ, String, Option, none, some, List, [], ◌∷◌, Bool, true, false, not, ◌≡◌, ◌&&◌, ◌||◌, ◌==◌,
  if◌then◌else◌,
}
use aira_agent.JobPolicy.{contains}

pub data Role : Type 0 where
  viewer editor owner : Role

-- the stored text of a role
unfoldable pub role_text : Role → String
role_text viewer = "viewer"
role_text editor = "editor"
role_text owner = "owner"

-- `normalize_role`: a stored role is a text or None.
unfoldable pub normalize_role : Option String → Option Role
normalize_role none = none
normalize_role (some role) =
    if role == "viewer"
    then some viewer
    else if role == "editor"
    then some editor
    else if role == "owner"
    then some owner
    else if role == "member"
    then some viewer
    else none

-- _ROLE_RANK
abbrev pub rank : Role → ℕ
rank viewer = 1
rank editor = 2
rank owner = 3

abbrev pub rank_of : Option Role → ℕ
rank_of none = 0
rank_of (some r) = rank r

unfoldable pub role_rank : Option String → ℕ
role_rank role = rank_of (normalize_role role)

-- _ROLE_PERMISSIONS
abbrev pub permissions : Option Role → List String
permissions none = []
permissions (some viewer) = "view" ∷ []
permissions (some editor) = "view" ∷ "edit" ∷ []
permissions (some owner) = "view" ∷ "edit" ∷ "manage" ∷ []

unfoldable pub role_can : Option String → String → Bool
role_can role permission = contains permission (permissions (normalize_role role))

pub record AccessDecision : Type 0 where
  pub allowed : Bool
  pub permission : String
  pub reason : String

-- What `can` reads of the scope.
pub record Scope : Type 0 where
  pub is_workspace : Bool
  pub role : Option String

deny_message : String → String
deny_message permission =
    if permission == "edit"
    then "You have view-only access to this workspace — ask an editor or owner to make this change."
    else if permission == "manage"
    then "Only a workspace owner can change workspace settings."
    else if permission == "view"
    then "You don't have access to this workspace resource."
    else "Insufficient workspace permission."

abbrev role_reason : Option Role → String
role_reason none = "role:None"
role_reason (some viewer) = "role:viewer"
role_reason (some editor) = "role:editor"
role_reason (some owner) = "role:owner"

can_in_workspace : Scope → String → AccessDecision
unfolding deny_message
can_in_workspace scope permission =
    if role_can scope.role permission
    then record {
      allowed = true;
      permission = permission;
      reason = role_reason (normalize_role scope.role);
    }
    else record { allowed = false; permission = permission; reason = deny_message permission }

unfoldable pub can : Option Scope → String → AccessDecision
unfolding can_in_workspace
can none permission = record { allowed = true; permission = permission; reason = "personal scope" }
can (some scope) permission =
    if scope.is_workspace
    then can_in_workspace scope permission
    else record { allowed = true; permission = permission; reason = "personal scope" }
