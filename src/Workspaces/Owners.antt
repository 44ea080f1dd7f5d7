-- ===== src/Workspaces/Owners.antt =====
-- No lockout in backend/app/workspaces.py: which operations keep an owner in every workspace.
use aira_agent.Base.{
  ◌≤◌, String, Option, none, some, Bool, true, false, not, ◌≡◌, ◌≢◌, ◌&&◌, ◌==◌, arith, leb, first,
  tally, refl, eq_iff, Option-cases, sym, ◌∙◌, Bool-cases, inl, inr, if_split,
}
use aira_agent.Authz.{Role, viewer, editor, owner, role_text, normalize_role}
use aira_agent.Workspaces.{
  Workspaces, WorkspaceMember, member_row, is_row, write_first, delete_first, set_role, is_owner,
  owner_count, add_member, update_member_role, update_row, remove_member, remove_row, update_to,
  with_member, or_viewer, Reply, Public, is_owner_role,
}
use aira_agent.Workspaces.Members.{
  tally-write_first_le, tally-write_first_ge, tally-write_first_lost, tally-delete_first_le,
  tally-delete_first_off, first-true,
}

-- What the row that was found says of the list it was found in.
member_row-first :
    (workspace_id account_id : String) (s : Workspaces) {m : WorkspaceMember}
    → member_row workspace_id account_id s ≡ some m
    → first (is_row workspace_id account_id) s.members ≡ some m
unfolding member_row
member_row-first w a s h = ground arith

module _ (w a v : String) (s : Workspaces) (m : WorkspaceMember) (at : member_row w a s ≡ some m)
    (kept : 1 ≤ owner_count v s) where
  -- The row is in the workspace.
  in_workspace : m.workspace_id ≡ w
  in_workspace = ground (
    arith,
    first-true (is_row w a) s.members m (member_row-first w a s at),
    eq_iff m.workspace_id w,
  )

  -- An owner row of workspace v that was found in workspace w.
  owner_here : is_owner v m ≡ true → (v ≡ w) × ((m.role == "owner") ≡ true)
  unfolding is_owner
  owner_here h = (sym (ground (arith, eq_iff m.workspace_id v)) ∙ in_workspace, ground arith)

  more_owners : is_owner v m ≡ true → leb (owner_count w s) 1 ≡ false → 2 ≤ owner_count v s
  more_owners h f = rw (owner_here h).0 (ground arith)

  update_row-owner : (role : Role) → 1 ≤ owner_count v (update_row (some m) role w a s).1
  unfolding update_row owner_count is_owner set_role role_text
  update_row-owner role =
      if_split {A = Reply (Option (Public × Option Role)) × Workspaces} (λ t. 1 ≤ owner_count v t.1)
        _ _ _ (λ _. kept) (λ f. go role f)
    where
      still :
          (r : Role)
          → (is_owner v m ≡ true → is_owner v (set_role r m) ≡ true)
          → 1 ≤ tally (is_owner v) (write_first (is_row w a) (set_role r) s.members)
      still r k = omega (
        arith,
        kept,
        tally-write_first_ge (is_row w a) (is_owner v) (set_role r) s.members m
            (member_row-first w a s at) k,
      )

      fewer :
          (r : Role)
          → (m.role == "owner" && leb (owner_count w s) 1) ≡ false
          → 1 ≤ tally (is_owner v) (write_first (is_row w a) (set_role r) s.members)
      fewer r f = elim (Bool-cases (is_owner v m)) [
        | inl h ↦ omega (
          arith,
          more_owners h (ground (arith, owner_here h)),
          tally-write_first_le (is_row w a) (is_owner v) (set_role r) s.members,
        )
        | inr h ↦ still r (λ h2. absurd (cc))
      ]

      go :
          (r : Role)
          → (m.role == "owner" && (not (is_owner_role r) && leb (owner_count w s) 1)) ≡ false
          → 1 ≤ tally (is_owner v) (write_first (is_row w a) (set_role r) s.members)
      go viewer f = fewer viewer f
      go editor f = fewer editor f
      go owner f = still owner (λ h. ground arith)

  remove_row-owner : 1 ≤ owner_count v (remove_row (some m) w a s).1
  unfolding remove_row owner_count
  remove_row-owner =
      if_split {A = Reply Bool × Workspaces} (λ t. 1 ≤ owner_count v t.1) _ _ _ (λ _. kept) go
    where
      go :
          (m.role == "owner" && leb (owner_count w s) 1) ≡ false
          → 1 ≤ tally (is_owner v) (delete_first (is_row w a) s.members)
      go f = elim (Bool-cases (is_owner v m)) [
        | inl h ↦ omega (
          arith,
          more_owners h (ground (arith, owner_here h)),
          tally-delete_first_le (is_row w a) (is_owner v) s.members,
        )
        | inr h ↦ omega (
          arith,
          kept,
          tally-delete_first_off (is_row w a) (is_owner v) s.members m (member_row-first w a s at)
              h,
        )
      ]

-- If workspace v has an owner, then it has one after any call of `update_member_role` or
-- `remove_member`, on whichever workspace and account, whether the call returns or raises.
pub owner_kept :
    (v w a : String) (role : Option String) (s : Workspaces)
    → 1 ≤ owner_count v s
    → (1 ≤ owner_count v (update_member_role w a role s).1)
      × (1 ≤ owner_count v (remove_member w a s).1)
unfolding update_member_role update_to remove_member
owner_kept v w a role s h = elim (Option-cases (member_row w a s)) [
  | inl e ↦ (unknown e (normalize_role role), unfold remove_row in rw e h)
  | inr (m, e) ↦ (known m e (normalize_role role), rw e (remove_row-owner w a v s m e h))
]
  where
    unknown : member_row w a s ≡ none → (r : Option Role) → 1 ≤ owner_count v (update_to r w a s).1
    unknown e none = h
    unknown e (some x) = unfold update_row in rw e h

    known :
        (m : WorkspaceMember)
        → member_row w a s ≡ some m
        → (r : Option Role) → 1 ≤ owner_count v (update_to r w a s).1
    known m e none = h
    known m e (some x) = rw e (update_row-owner w a v s m e h x)

-- `add_member` has no such guard: called for the account of the only owner with a role below owner,
-- it leaves the workspace without an owner.
pub add_member_locks_out :
    (new_id w a : String) (role : Option String) (s : Workspaces) (m : WorkspaceMember)
    → member_row w a s ≡ some m
    → is_owner w m ≡ true
    → owner_count w s ≡ 1
    → or_viewer (normalize_role role) ≢ owner
    → owner_count w (add_member new_id w a role s).1 ≡ 0
unfolding add_member with_member owner_count
add_member_locks_out new_id w a role s m at own one low = rw at (
    omega (
      arith,
      one,
      tally-write_first_lost (is_row w a) (is_owner w) (set_role (or_viewer (normalize_role role)))
          s.members m (member_row-first w a s at) own (lost (or_viewer (normalize_role role)) low),
    ))
  where
    lost : (r : Role) → r ≢ owner → is_owner w (set_role r m) ≡ false
    lost viewer l = unfold is_owner set_role role_text in ground arith
    lost editor l = unfold is_owner set_role role_text in ground arith
    lost owner l = absurd (l refl)
