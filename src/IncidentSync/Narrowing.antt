-- ===== src/IncidentSync/Narrowing.antt =====
-- What the policies of backend/app/incident_sync.py add up to.
use aira_agent.Base.{String, Option, none, some, Bool, true, false, ◌&&◌, ◌≡◌, refl, All}
use aira_agent.Base.Table.{find}
use aira_agent.IncidentSync.Policy.{
  narrow, Source, by_capability, by_override, by_profile, by_default, Entry, entry, Target,
  effective_target_policy, target_action_policy, inbound_field_policy, decision_source,
}

-- A setting that may be left to the next layer.
abbrev pub or_else : Option Bool → Bool → Bool
or_else none b = b
or_else (some a) b = a

-- What the source of a decision says about it.
unfoldable pub SaysWhy : Source → Entry → Type 0
SaysWhy by_capability e = (e.capable ≡ false) × (e.effective ≡ false)
SaysWhy by_override e = (e.capable ≡ true) × (e.override ≡ some e.effective)
SaysWhy by_profile e =
    (e.capable ≡ true) × (e.override ≡ none) × (e.profile_default ≡ some e.effective)
SaysWhy by_default e = (e.capable ≡ true) × (e.override ≡ none) × (e.effective ≡ true)

-- The layers of a decision: the capability bounds it, and the override of the target goes before the
-- default of the profile, which goes before yes.
unfoldable pub IsNarrowed : Entry → Type 0
IsNarrowed e =
    (e.effective ≡ (e.capable && or_else e.override (or_else e.profile_default true)))
    × SaysWhy e.source e

narrow-IsNarrowed :
    (key : String) (capable : Bool) (override default : Option Bool)
    → IsNarrowed (entry key capable default override (narrow capable override default))
unfolding IsNarrowed SaysWhy entry narrow decision_source
narrow-IsNarrowed key false override default = (refl, (refl, refl))
narrow-IsNarrowed key true (some false) default = (refl, (refl, refl))
narrow-IsNarrowed key true (some true) default = (refl, (refl, refl))
narrow-IsNarrowed key true none (some false) = (refl, (refl, refl, refl))
narrow-IsNarrowed key true none (some true) = (refl, (refl, refl, refl))
narrow-IsNarrowed key true none none = (refl, (refl, refl, refl))

module _ (t : Target) where
  -- Every entry of the view of a target is what its layers make it, and names the layer that decided:
  -- an action or a field is allowed exactly if the adapter is capable of it and the override allows
  -- it, or leaves it to the profile, whose default allows it or leaves it open.
  pub effective_target_policy-IsNarrowed :
      All IsNarrowed (effective_target_policy t).actions_of
      × All IsNarrowed (effective_target_policy t).inbound_of
  unfolding find effective_target_policy target_action_policy inbound_field_policy
  effective_target_policy-IsNarrowed = (
    (
      narrow-IsNarrowed _ _ _ _,
      (
        narrow-IsNarrowed _ _ _ _,
        (
          narrow-IsNarrowed _ _ _ _,
          (narrow-IsNarrowed _ _ _ _, (narrow-IsNarrowed _ _ _ _, (narrow-IsNarrowed _ _ _ _, tt))),
        ),
      ),
    ),
    (
      narrow-IsNarrowed _ _ _ _,
      (
        narrow-IsNarrowed _ _ _ _,
        (narrow-IsNarrowed _ _ _ _, (narrow-IsNarrowed _ _ _ _, (narrow-IsNarrowed _ _ _ _, tt))),
      ),
    ),
  )
