-- ===== src/JobPolicy.antt =====
-- backend/app/job_policy.py: execution classes, their concurrency caps and the per-owner cap.
-- `getattr(settings, "queue_concurrency_<class>", None)` is a function of the class's name.
pub mod Counts
pub mod Caps
mod Tests
use aira_agent.Base.{
  ℕ, suc, ◌+◌, String, ◌≡◌, Bool, true, false, ◌&&◌, ◌||◌, Option, none, some, List, [], ◌∷◌, ltb,
  leb, is_text, or_text, if◌then◌else◌, ◌==◌,
}
use aira_agent.Base.Int.{ℤ, pos, at_least}

-- The settings that the queue and its policy read.
pub record Settings : Type 0 where
  pub queue_concurrency : String → Option ℤ
  pub queue_per_owner_inflight_cap : ℤ
  pub queue_scheduling_enabled : Bool
  pub job_max_attempts : ℤ

pub record ExecutionClass : Type 0 where
  pub name : String
  pub priority : ℕ
  pub default_concurrency : ℕ

abbrev pub interactive : ExecutionClass
interactive = record { name = "interactive"; priority = 100; default_concurrency = 0 }

abbrev pub artifact : ExecutionClass
artifact = record { name = "artifact"; priority = 50; default_concurrency = 2 }

abbrev pub validation : ExecutionClass
validation = record { name = "validation"; priority = 40; default_concurrency = 1 }

abbrev pub maintenance : ExecutionClass
maintenance = record { name = "maintenance"; priority = 10; default_concurrency = 1 }

abbrev pub classes : List ExecutionClass
classes = interactive ∷ artifact ∷ validation ∷ maintenance ∷ []

kind_to_class : String → ExecutionClass
kind_to_class kind =
    if kind == "artifact"
    then artifact
    else if kind == "startup_validation"
    then validation
    else if kind == "runtime_validation"
    then validation
    else interactive

unfoldable pub class_for : String → Option String → ExecutionClass
unfolding kind_to_class
class_for kind origin = if is_text origin "replay" then maintenance else kind_to_class kind

unfoldable pub get_class : Option String → ExecutionClass
get_class name =
    let key = or_text name "" in
    if key == "artifact"
    then artifact
    else if key == "validation"
    then validation
    else if key == "maintenance"
    then maintenance
    else interactive

-- max(0, int(cap)), the override if there is one
unfoldable pub concurrency_cap : ExecutionClass → Settings → ℕ
concurrency_cap c s = elim (s.queue_concurrency c.name) [
  | none ↦ c.default_concurrency
  | some override ↦ at_least 0 override
]

unfoldable pub per_owner_cap : Settings → ℕ
per_owner_cap s = at_least 1 s.queue_per_owner_inflight_cap

-- A dictionary of counts, as Python keeps it: one entry for a key, in the order of insertion.
abbrev pub Counts : Type 0
Counts = List (String × ℕ)

-- counts.get(key, 0)
unfoldable pub count_of : String → Counts → ℕ
count_of k [] = 0
count_of k ((j, n) ∷ m) = if j == k then n else count_of k m

-- counts[key] = counts.get(key, 0) + 1
unfoldable pub bump : String → Counts → Counts
bump k [] = (k, 1) ∷ []
bump k ((j, n) ∷ m) = if j == k then (j, n + 1) ∷ m else (j, n) ∷ bump k m

blocked_from : List ExecutionClass → Counts → Settings → List String
blocked_from [] counts s = []
blocked_from (c ∷ cs) counts s =
    let rest = blocked_from cs counts s in
    let cap = concurrency_cap c s in
    if ltb 0 cap && leb cap (count_of c.name counts) then c.name ∷ rest else rest

unfoldable pub blocked_classes : Counts → Settings → List String
unfolding blocked_from
blocked_classes counts s = blocked_from classes counts s

owners_at : ℕ → Counts → List String
owners_at cap [] = []
owners_at cap ((owner, n) ∷ m) =
    let rest = owners_at cap m in if leb cap n then owner ∷ rest else rest

unfoldable pub blocked_owners : Counts → Settings → List String
unfolding owners_at
blocked_owners counts s = owners_at (per_owner_cap s) counts

-- `x in xs` for a list of texts
unfoldable pub contains : String → List String → Bool
contains x [] = false
contains x (y ∷ ys) = y == x || contains x ys

pub data PolicyError : Type 0 where
  negative_concurrency : String → PolicyError
  small_owner_cap : PolicyError

is_negative : Option ℤ → Bool
is_negative (some (ℤ.negsuc n)) = true
is_negative _ = false

-- The loop of `validate_policy` over the classes, and its last test. None: nothing is raised.
validate_from : List ExecutionClass → Settings → Option PolicyError
unfolding is_negative
validate_from [] s = elim s.queue_per_owner_inflight_cap [
  | ℤ.negsuc n ↦ some small_owner_cap
  | ℤ.pos n ↦ if ltb n 1 then some small_owner_cap else none
]
validate_from (c ∷ cs) s =
    let rest = validate_from cs s in
    if is_negative (s.queue_concurrency c.name) then some (negative_concurrency c.name) else rest

unfoldable pub validate_policy : Settings → Option PolicyError
unfolding validate_from
validate_policy s = validate_from classes s
