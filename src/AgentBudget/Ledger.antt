-- ===== src/AgentBudget/Ledger.antt =====
-- The ledger of agent_budget.py: `normalize_ledger` and what it calls.
use Prim.Native.Char.{code}
use Prim.Native.String.{◌++◌}
use codex_ralph_vault_loop.Base.{
  ℕ, ◌+◌, ◌-◌, ◌*◌, max, min, Bool, true, false, not, ◌&&◌, ◌||◌, List, [], ◌∷◌, String, is_empty,
  take_text, take_last, all_codes, eqb, leb, if◌then◌else◌,
}
use codex_ralph_vault_loop.Base.Int.{ℤ, pos, negsuc}
use codex_ralph_vault_loop.Json.{Json, null, float, text, arr, Dict, get_or, of_list, to_list, get}
use codex_ralph_vault_loop.Python.{Library, ok, err, to_int, or_else}

abbrev pub max_threads : ℕ
max_threads = 2

abbrev pub max_depth : ℕ
max_depth = 1

abbrev pub max_task_jobs : ℕ
max_task_jobs = 2

abbrev pub max_task_advisors : ℕ
max_task_advisors = 1

abbrev pub max_brief_bytes : ℕ
max_brief_bytes = 16384

abbrev pub max_result_bytes : ℕ
max_result_bytes = 4096

abbrev pub max_codes : ℕ
max_codes = 8

-- A ledger as `normalize_ledger` returns it, without its constants.
pub record Ledger : Type 0 where
  pub task_signature : String
  pub agents_started : ℕ
  pub advisors_started : ℕ
  pub workers_started : ℕ
  pub worker_reserved_jobs : ℕ
  pub reserved_jobs : ℕ
  pub reasons : List String
  pub failure_fingerprints : List String
  pub bytes_sent : ℕ
  pub bytes_received : ℕ
  pub timestamps : List String
  pub updated_at : String

-- `max(0, min(parsed, maximum))`
abbrev pub clamp : ℕ → ℤ → ℕ
clamp maximum (pos n) = min n maximum
clamp maximum (negsuc n) = 0

abbrev pub safe_char : ℕ → Bool
safe_char c =
    (leb b'a' c && leb c b'z')
    || ((leb b'0' c && leb c b'9') || (eqb c b'_' || (eqb c b'.' || (eqb c b':' || eqb c b'-'))))

-- `[…]` of a value that may be no list
abbrev pub list_of : Json → List Json
list_of (arr xs) = to_list xs
list_of v = []

module _ (py : Library) where
  -- `" ".join(value.split())`, told whether a word has begun and whether blanks follow it
  abbrev pub words : Bool → Bool → String → String
  words begun blank String.[] = String.[]
  words begun blank (String.◌∷◌ c s) = elim (py.is_space (code c)) [
    | true ↦ words begun true s
    | false ↦
        let rest = words true false s in
        if begun && blank then String.◌∷◌ " " (String.◌∷◌ c rest) else String.◌∷◌ c rest
  ]

  -- `_bounded_text`
  unfoldable pub bounded_text : Json → ℕ → String
  bounded_text (text s) limit = take_text limit (words false false s)
  bounded_text v limit = ""

  -- `_safe_code` of a text that is bounded and lower
  abbrev coded : String → String → String
  coded prefix s =
      if not (is_empty s) && all_codes safe_char s
      then s
      else if is_empty s
      then ""
      else prefix ++ "-" ++ take_text 24 (py.sha256 s)

  -- `_safe_code`
  unfoldable pub safe_code : String → Json → String
  safe_code prefix v = coded prefix (py.lower (bounded_text v 96))

  -- `_ints`
  unfoldable pub ints : ℕ → Json → ℕ
  ints maximum v = elim (to_int py v) [ err e ↦ 0 | ok z ↦ clamp maximum z ]

  -- The items that a function makes no empty text of.
  unfoldable pub filled : (Json → String) → List Json → List String
  filled f [] = []
  filled f (v ∷ vs) = let rest = filled f vs in if is_empty (f v) then rest else f v ∷ rest

  -- The last texts of a stored list, each filled in by a function.
  abbrev pub stored : (Json → String) → Json → List String
  stored f v = take_last max_codes (filled f (list_of v))

  -- `normalize_ledger`, for a signature and a time
  unfoldable pub normalize_ledger : Dict → String → ℤ → Ledger
  unfolding get
  normalize_ledger d signature now =
      let agents =
        min (min (ints max_task_jobs (get_or "agents_started" null d)) max_threads)
          (max_depth + max_task_jobs - 1) in
      let worker_reserved = ints max_task_jobs (get_or "worker_reserved_jobs" null d) in
      let updated = bounded_text (get_or "updated_at" null d) 48 in
      record {
        task_signature =
            bounded_text (or_else (get_or "task_signature" null d) (text signature)) 96;
        agents_started = agents;
        advisors_started = ints max_task_advisors (get_or "advisors_started" null d);
        workers_started = ints max_task_jobs (get_or "workers_started" null d);
        worker_reserved_jobs = worker_reserved;
        reserved_jobs =
            min (max (ints max_task_jobs (get_or "reserved_jobs" null d)) worker_reserved)
              (max_threads - agents);
        reasons = stored (safe_code "reason") (get_or "reasons" (arr (of_list [])) d);
        failure_fingerprints =
            stored (safe_code "failure") (get_or "failure_fingerprints" (arr (of_list [])) d);
        bytes_sent = ints (max_brief_bytes * max_task_jobs) (get_or "bytes_sent" null d);
        bytes_received = ints (max_result_bytes * max_task_jobs) (get_or "bytes_received" null d);
        timestamps = stored (λ v. bounded_text v 48) (get_or "timestamps" (arr (of_list [])) d);
        updated_at = if is_empty updated then py.repr (float now) else updated;
      }
