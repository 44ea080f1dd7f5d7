-- ===== src/JobPolicy/Caps.antt =====
-- What `blocked_classes` lets through, and the policy that `validate_policy` accepts.
use mathlib.Core.List.{Memᴰ}
use aira_agent.Base.{
  ◌<◌, ◌≤◌, String, ◌≡◌, refl, false, List, [], ◌∷◌, arith, eq_iff, ◌⊎◌, if_both, All, Option, none,
  some,
}
use aira_agent.Base.Int.{pos}
use aira_agent.JobPolicy.{
  Settings, ExecutionClass, Counts, count_of, contains, blocked_from, blocked_classes, interactive,
  artifact, validation, maintenance, per_owner_cap, concurrency_cap, classes, class_for, get_class,
  validate_policy, validate_from,
}

below_cap :
    (c : ExecutionClass) (cs : List ExecutionClass) (m : Counts) (s : Settings)
    → Memᴰ c cs
    → contains c.name (blocked_from cs m s) ≡ false
    → 0 < concurrency_cap c s
    → count_of c.name m < concurrency_cap c s
unfolding blocked_from contains
below_cap c [] m s i h cap_on = elim i [ ]
below_cap c (d ∷ cs) m s (Memᴰ.head e) h cap_on = ground (arith, e, eq_iff c.name c.name)
below_cap c (d ∷ cs) m s (Memᴰ.tail t) h cap_on = ground (arith, below_cap c cs m s t)

-- A class that is not blocked and has a cap runs fewer jobs than the cap.
pub blocked_classes_free :
    (c : ExecutionClass) (m : Counts) (s : Settings)
    → Memᴰ c classes
    → contains c.name (blocked_classes m s) ≡ false
    → 0 < concurrency_cap c s
    → count_of c.name m < concurrency_cap c s
unfolding blocked_classes
blocked_classes_free c m s = below_cap c classes m s

-- A property of the four classes is one of whatever `class_for` returns.
class_for_cases :
    (P : ExecutionClass → Type 0) (kind : String) (origin : Option String)
    → P interactive
    → P artifact
    → P validation
    → P maintenance
    → P (class_for kind origin)
unfolding class_for
class_for_cases P kind origin pi pa pv pm =
    if_both P _ _ _ pm (if_both P _ _ _ pa (if_both P _ _ _ pv (if_both P _ _ _ pv pi)))

pub class_for-mem : (kind : String) (origin : Option String) → Memᴰ (class_for kind origin) classes
class_for-mem kind origin =
    class_for_cases (λ c. Memᴰ c classes) kind origin (Memᴰ.head refl) (Memᴰ.tail (Memᴰ.head refl))
      (Memᴰ.tail (Memᴰ.tail (Memᴰ.head refl))) (Memᴰ.tail (Memᴰ.tail (Memᴰ.tail (Memᴰ.head refl))))

-- The name that a job stores stands for the class that it was given.
pub get_class-class_for :
    (kind : String) (origin : Option String)
    → get_class (some (class_for kind origin).name) ≡ class_for kind origin
unfolding get_class
get_class-class_for kind origin =
    class_for_cases (λ c. get_class (some c.name) ≡ c) kind origin refl refl refl refl

-- Operator replay is the lowest class there is, whatever the kind; a retry keeps the kind's class.
pub replay_lowest :
    (kind : String)
    → (class_for kind (some "replay") ≡ maintenance)
      × ((other : Option String) → maintenance.priority ≤ (class_for kind other).priority)
      × (class_for kind (some "retry") ≡ class_for kind none)
unfolding class_for
replay_lowest kind = (
  refl,
  λ other.
      class_for_cases (λ c. 10 ≤ c.priority) kind other (omega arith) (omega arith) (omega arith)
        (omega arith),
  refl,
)

abbrev pub IsExact : Settings → ExecutionClass → Type 0
IsExact s c =
    (s.queue_concurrency c.name ≡ none)
    ⊎ (s.queue_concurrency c.name ≡ some (pos (concurrency_cap c s)))

validate_from_sound :
    (cs : List ExecutionClass) (s : Settings)
    → validate_from cs s ≡ none
    → (s.queue_per_owner_inflight_cap ≡ pos (per_owner_cap s)) × All (IsExact s) cs
unfolding validate_from per_owner_cap concurrency_cap
validate_from_sound [] s h = ground arith
validate_from_sound (c ∷ cs) s h = ground (arith, validate_from_sound cs s)

-- Under a policy that `validate_policy` accepts no clamp changes a value: the per-owner cap is the
-- setting itself, and each class has its override, where there is one, as its cap.
pub validate_policy_sound :
    (s : Settings)
    → validate_policy s ≡ none
    → (s.queue_per_owner_inflight_cap ≡ pos (per_owner_cap s)) × All (IsExact s) classes
unfolding validate_policy
validate_policy_sound s h = validate_from_sound classes s h
