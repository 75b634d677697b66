-- ===== src/Routing/Request.antt =====
-- The request of subagent_routing.py, and the readings of its fields.
use Prim.Native.Char.{code}
use codex_ralph_vault_loop.Base.{
  ℕ, Bool, true, false, not, ◌&&◌, ◌||◌, Option, none, some, List, [], ◌∷◌, String, ◌==◌, is_empty,
  codes, length, leb, eqb, if◌then◌else◌,
}
use codex_ralph_vault_loop.Base.Int.{ℤ, pos, negsuc}
use codex_ralph_vault_loop.Json.{Json, null, int, text}
use codex_ralph_vault_loop.Python.{Library, Result, ok, err, Exception, value_error, strip}

pub record ExecutorDefaults : Type 0 where
  pub model : String
  pub reasoning_effort : String

pub record SubagentOverride : Type 0 where
  pub model : Option String
  pub reasoning_effort : Option String
  pub route : Option String
  pub expires_at : Option ℤ

pub record RoutingCapabilities : Type 0 where
  pub spawn_model_effort : Bool
  pub active_analysis : Bool

pub record RoutingBudget : Type 0 where
  pub remaining : ℤ
  pub explicit_class : Option String

pub record RoutingRequest : Type 0 where
  pub raw_complexity : ℤ
  pub intent : String
  pub impact_class : String
  pub sensitivity : String
  pub repository_default : Option ExecutorDefaults
  pub global_default : ExecutorDefaults
  pub task_override : Option SubagentOverride
  pub session_override : Option SubagentOverride
  pub current_epoch : ℤ
  pub capabilities : RoutingCapabilities
  pub budget : RoutingBudget
  pub bounded_scope : Bool
  pub local_verification_available : Bool
  pub hard_gates_pass : Bool
  pub independent_block : Bool
  pub independent_block_count : ℤ
  pub critical_review : Bool
  pub failure_fingerprints : List String
  pub origin : String

-- A text or `None` in JSON.
abbrev pub optional_text : Option String → Json
optional_text none = null
optional_text (some s) = text s

abbrev pub optional_int : Option ℤ → Json
optional_int none = null
optional_int (some z) = int z

-- `bool(s)` of a text that may be `None`
abbrev pub is_given : Option String → Bool
is_given none = false
is_given (some s) = not (is_empty s)

-- `s or …`: the text where it is neither `None` nor empty
abbrev pub given_text : Option String → Option String
given_text none = none
given_text (some s) = if is_empty s then none else some s

-- `_complexity`
unfoldable pub complexity : ℤ → Result Exception ℕ
complexity (pos n) = if leb 1 n && leb n 10 then ok n else err value_error
complexity (negsuc n) = err value_error

-- `_executor_defaults`
abbrev pub executor_of : Option ExecutorDefaults → ExecutorDefaults → ExecutorDefaults
executor_of none global = global
executor_of (some repository) global = repository

abbrev pub executor_source : Option ExecutorDefaults → String
executor_source none = "global"
executor_source (some repository) = "repository"

abbrev pub executor_defaults : RoutingRequest → ExecutorDefaults
executor_defaults r = executor_of r.repository_default r.global_default

-- `s.replace("_", "-")`, as a text again
unfoldable pub dash : String → String
dash String.[] = String.[]
dash (String.◌∷◌ c s) = if eqb (code c) b'_' then String.◌∷◌ "-" (dash s) else String.◌∷◌ c (dash s)

-- The two classes of the expression `[a-z0-9][a-z0-9._:-]{0,63}`.
abbrev is_origin_start : ℕ → Bool
is_origin_start c = (leb b'a' c && leb c b'z') || (leb b'0' c && leb c b'9')

abbrev is_origin_char : ℕ → Bool
is_origin_char c = is_origin_start c || (eqb c b'.' || (eqb c b'_' || (eqb c b':' || eqb c b'-')))

abbrev all_chars : (ℕ → Bool) → List ℕ → Bool
all_chars p [] = true
all_chars p (c ∷ cs) = p c && all_chars p cs

abbrev is_origin : List ℕ → Bool
is_origin [] = false
is_origin (c ∷ cs) = is_origin_start c && (all_chars is_origin_char cs && leb (length cs) 63)

module _ (py : Library) where
  -- `value.strip().lower().replace("_", "-")`
  abbrev pub normalized : String → String
  normalized s = dash (py.lower (strip py s))

  -- `_intent`
  unfoldable pub intent_of : String → String
  intent_of value =
      let s = normalized value in
      if s == "read-only"
      then "routine"
      else if s == "review"
      then "high-impact-review"
      else if s == "implementation-support"
      then "implementation"
      else if is_empty s
      then "routine"
      else s

  -- `_origin` of a text
  unfoldable pub origin_of : String → String
  origin_of value =
      let s = normalized value in if is_empty s || not (is_origin (codes s)) then "" else s

  -- `_impact(value) == "material"`
  unfoldable pub is_material : String → Bool
  is_material value =
      let s = normalized value in s == "material" || (s == "high" || s == "high-impact")

  -- `request.sensitivity.strip().upper()`
  unfoldable pub sensitivity_of : String → String
  sensitivity_of value = py.upper (strip py value)
