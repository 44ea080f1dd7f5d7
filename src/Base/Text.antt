-- ===== src/Base/Text.antt =====
-- Python's slices and joins of texts, on the code points of a native text.
use Prim.Native.Nat.{ℕ, zero, suc, ◌≤◌}
use Prim.Native.String.{String}
use Prim.Native.Char.{code}
use mathlib.Core.Path.{◌≡◌, refl, ap}
use mathlib.Core.Bool.{Bool, true, false, ◌&&◌, ◌||◌}
use mathlib.Core.Option.{Option, none, some}
use text.Mathlib.Text.{◌==◌}
use aira_agent.Base.Tests.{leb, eqb, if◌then◌else◌}
use native.Mathlib.Omega.{arith}

abbrev pub size : String → ℕ
size String.[] = 0
size (String.◌∷◌ c s) = suc (size s)

-- s[:n]
unfoldable pub take_text : ℕ → String → String
take_text zero s = ""
take_text (suc n) String.[] = ""
take_text (suc n) (String.◌∷◌ c s) = String.◌∷◌ c (take_text n s)

pub size-take_text : (n : ℕ) (s : String) → size (take_text n s) ≤ n
unfolding take_text
size-take_text zero s = omega arith
size-take_text (suc n) String.[] = omega arith
size-take_text (suc n) (String.◌∷◌ c s) = omega (arith, size-take_text n s)

pub take_text_short : (n : ℕ) (s : String) → size s ≤ n → take_text n s ≡ s
unfolding take_text
take_text_short zero String.[] h = refl
take_text_short zero (String.◌∷◌ c s) h = absurd (omega arith)
take_text_short (suc n) String.[] h = refl
take_text_short (suc n) (String.◌∷◌ c s) h = ap (String.◌∷◌ c) (take_text_short n s (omega arith))

-- The code points that `str.strip` takes off the ends.
abbrev is_space : ℕ → Bool
is_space c =
    leb 9 c && leb c 13
    || leb 28 c && leb c 32
    || eqb c 0x85
    || eqb c 0xa0
    || eqb c 0x1680
    || leb 0x2000 c && leb c 0x200a
    || leb 0x2028 c && leb c 0x2029
    || eqb c 0x202f
    || eqb c 0x205f
    || eqb c 0x3000

lstrip : String → String
lstrip String.[] = ""
lstrip (String.◌∷◌ c s) = if is_space (code c) then lstrip s else String.◌∷◌ c s

rstrip : String → String
rstrip String.[] = ""
rstrip (String.◌∷◌ c s) =
    let rest = rstrip s in if is_space (code c) && rest == "" then "" else String.◌∷◌ c rest

-- s.strip()
unfoldable pub strip : String → String
unfolding lstrip rstrip
strip s = rstrip (lstrip s)

strip_runs : strip "  on call\n" ≡ "on call"
unfolding strip
strip_runs = refl

-- s.split(sep, 1)[0] for one character
unfoldable pub before : ℕ → String → String
before sep String.[] = ""
before sep (String.◌∷◌ c s) = if eqb (code c) sep then "" else String.◌∷◌ c (before sep s)

-- What follows a prefix, if the text starts with it: `s.startswith(p)` and the rest.
unfoldable pub after_prefix : String → String → Option String
after_prefix String.[] s = some s
after_prefix (String.◌∷◌ p ps) String.[] = none
after_prefix (String.◌∷◌ p ps) (String.◌∷◌ c s) =
    let rest = after_prefix ps s in if eqb (code p) (code c) then rest else none

unfoldable pub starts_with : String → String → Bool
starts_with p s = elim (after_prefix p s) [ none ↦ false | some rest ↦ true ]

-- `p in s` for texts
unfoldable pub contains_text : String → String → Bool
unfolding starts_with
contains_text p String.[] = starts_with p ""
contains_text p (String.◌∷◌ c s) = starts_with p (String.◌∷◌ c s) || contains_text p s
