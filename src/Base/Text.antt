-- ===== src/Base/Text.antt =====
-- Python's `str`: slices and tests by code points.
use Prim.Native.Nat.{ℕ, zero, suc, ◌≤◌, ◌-◌}
use Prim.Native.Char.{code}
use Prim.Native.String.{String}
use mathlib.Core.Path.{◌≡◌, refl}
use mathlib.Core.Bool.{Bool, true, false, ◌&&◌, ◌||◌}
use mathlib.Core.Option.{Option, none, some}
use mathlib.Core.List.{List, [], ◌∷◌}
use native.Mathlib.Omega.{arith}
use codex_ralph_vault_loop.Base.Tests.{eqb, leb, if◌then◌else◌}
use codex_ralph_vault_loop.Base.Lists.{length, drop}

-- The code points of a text. `String` has its own `[]` and `∷`.
abbrev pub codes : String → List ℕ
codes String.[] = []
codes (String.◌∷◌ c s) = code c ∷ codes s

-- `len(s)`: the number of code points.
abbrev pub text_length : String → ℕ
text_length String.[] = 0
text_length (String.◌∷◌ c s) = suc (text_length s)

-- `s[:n]`
abbrev pub take_text : ℕ → String → String
take_text zero s = String.[]
take_text (suc n) String.[] = String.[]
take_text (suc n) (String.◌∷◌ c s) = String.◌∷◌ c (take_text n s)

abbrev pub is_empty : String → Bool
is_empty String.[] = true
is_empty (String.◌∷◌ c s) = false

-- `s or default`
abbrev pub or_text : String → String → String
or_text String.[] default = default
or_text (String.◌∷◌ c s) default = String.◌∷◌ c s

abbrev pub all_codes : (ℕ → Bool) → String → Bool
all_codes p String.[] = true
all_codes p (String.◌∷◌ c s) = p (code c) && all_codes p s

-- The part of a list behind a prefix.
abbrev pub after_prefix : List ℕ → List ℕ → Option (List ℕ)
after_prefix [] cs = some cs
after_prefix (p ∷ ps) [] = none
after_prefix (p ∷ ps) (c ∷ cs) = if eqb p c then after_prefix ps cs else none

-- `s.startswith(prefix)`, `s.endswith(suffix)` and `part in s`, of code points
abbrev pub starts_with : List ℕ → List ℕ → Bool
starts_with prefix cs = elim (after_prefix prefix cs) [ none ↦ false | some rest ↦ true ]

abbrev pub ends_with : List ℕ → List ℕ → Bool
ends_with suffix cs =
    leb (length suffix) (length cs) && starts_with suffix (drop (length cs - length suffix) cs)

abbrev pub contains : List ℕ → List ℕ → Bool
contains part [] = starts_with part []
contains part (c ∷ cs) = starts_with part (c ∷ cs) || contains part cs

pub length-take_text : (n : ℕ) (s : String) → text_length (take_text n s) ≤ n
length-take_text zero s = omega arith
length-take_text (suc n) String.[] = omega arith
length-take_text (suc n) (String.◌∷◌ c s) = omega (arith, length-take_text n s)

pub all_codes-take_text :
    (p : ℕ → Bool) (n : ℕ) (s : String) → all_codes p s ≡ true → all_codes p (take_text n s) ≡ true
all_codes-take_text p zero s h = refl
all_codes-take_text p (suc n) String.[] h = refl
all_codes-take_text p (suc n) (String.◌∷◌ c s) h = ground (arith, all_codes-take_text p n s)
