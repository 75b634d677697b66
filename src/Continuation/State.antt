-- ===== src/Continuation/State.antt =====
-- The stored state of continuation_budget.py: `_max_entries`, `_trim`, `_load` and `_atomic_json`.
use codex_ralph_vault_loop.Base.{
  ℕ, ◌*◌, Bool, true, false, ◌&&◌, Option, none, some, List, [], ◌∷◌, String, take, ltb,
  if◌then◌else◌,
}
use codex_ralph_vault_loop.Base.Int.{ℤ, pos, negsuc, ◌-ℤ◌, leb_ℤ, max_ℤ, min_ℤ}
use codex_ralph_vault_loop.Json.{Json, null, bool, int, float, obj, Dict, end, field, get_or, dict}
use codex_ralph_vault_loop.Json.Eq.{json_eq, millionths}
use codex_ralph_vault_loop.Python.{Library, Result, ok, err, Exception, os_error, value_error}
use codex_ralph_vault_loop.Maintenance.Host.{Publication, fails, fails_late, succeeds}

-- The process at a call: its environment, the clock in microseconds, and the bytes of a payload.
pub record Process : Type 0 where
  pub env : String → Option String
  pub now : ℤ
  pub encoded_size : Json → ℕ

-- What the file system allows at one of the two places.
pub record Access : Type 0 where
  -- `_runtime_safe` of the root, the directory, the file and the lock
  pub is_safe : Bool
  -- `_locked` yields
  pub locks : Bool
  -- `os.replace` to the quarantine name
  pub can_rename : Bool
  pub publication : Publication

-- The state file as a read finds it: an OSError or a text that is no JSON, a file over the limit or
-- one that is no UTF-8 (a ValueError), or a decoded value.
pub data StateFile : Type 0 where
  missing unreadable undecodable : StateFile
  holds : Json → StateFile

pub record Site : Type 0 where
  pub state : StateFile
  pub quarantined : List StateFile

-- What `_load` returns: the entries of the state, and whether the file was corrupt.
pub record Loaded : Type 0 where
  pub entries : Dict
  pub corrupt : Bool

abbrev pub max_state_bytes : ℕ
max_state_bytes = 256 * 1024

abbrev parsed : Option ℤ → ℤ → ℤ → ℤ → ℤ
parsed none default low high = default
parsed (some z) default low high = max_ℤ low (min_ℤ z high)

abbrev setting : Library → Option String → ℤ → ℤ → ℤ → ℤ
setting py none default low high = max_ℤ low (min_ℤ default high)
setting py (some s) default low high = parsed (py.int_of s) default low high

abbrev natural : ℤ → ℕ
natural (pos n) = n
natural (negsuc n) = 0

-- `_max_entries`
unfoldable pub max_entries : Library → Process → ℕ
max_entries py p =
    natural (setting py (p.env "RALPH_STOP_MAX_BUDGET_ENTRIES") (pos 256) (pos 8) (pos 2048))

-- `state_ttl_seconds` of stop_scope.py
unfoldable pub state_ttl_seconds : Library → Process → ℤ
state_ttl_seconds py p =
    setting py (p.env "RALPH_STOP_STATE_TTL_SECONDS") (pos 86400) (pos 60) (pos 604800)

-- `value["timestamp"]` in millionths, if it is a number
abbrev number_of : Json → Option ℤ
number_of (bool true) = some (pos 1_000_000)
number_of (bool false) = some (pos 0)
number_of (int z) = some (millionths z)
number_of (float z) = some z
number_of _ = none

abbrev pub timestamp_of : Json → Option ℤ
timestamp_of (obj d) = number_of (get_or "timestamp" null d)
timestamp_of _ = none

-- `0 <= now - timestamp <= ttl`
abbrev is_fresh : ℤ → ℤ → Option ℤ → Bool
is_fresh now ttl none = false
is_fresh now ttl (some z) = leb_ℤ (pos 0) (now -ℤ z) && leb_ℤ (now -ℤ z) (millionths ttl)

unfoldable pub active : ℤ → ℤ → Dict → List (String × Json)
active now ttl end = []
active now ttl (field k v d) =
    let rest = active now ttl d in if is_fresh now ttl (timestamp_of v) then (k, v) ∷ rest else rest

abbrev or_zero : Option ℤ → ℤ
or_zero none = pos 0
or_zero (some z) = z

-- `sorted(…, key=timestamp, reverse=True)`, which keeps the order of equal keys.
unfoldable pub insert_entry : String × Json → List (String × Json) → List (String × Json)
insert_entry e [] = e ∷ []
insert_entry e (f ∷ fs) =
    if leb_ℤ (or_zero (timestamp_of f.1)) (or_zero (timestamp_of e.1))
    then e ∷ f ∷ fs
    else f ∷ insert_entry e fs

unfoldable pub sort_entries : List (String × Json) → List (String × Json)
sort_entries [] = []
sort_entries (e ∷ es) = insert_entry e (sort_entries es)

-- `_trim`
unfoldable pub trim : Library → Process → Dict → Dict
unfolding max_entries
trim py p entries =
    dict (take (max_entries py p) (sort_entries (active p.now (state_ttl_seconds py p) entries)))

abbrev pub schema_version : Json
schema_version = int (pos 1)

-- The state that is written.
abbrev pub payload : ℤ → Dict → Dict
payload now entries =
    dict (
      ("schema_version", schema_version)
      ∷ ("updated_at", float now)
      ∷ ("entries", obj entries)
      ∷ [])

abbrev pub quarantine : Access → Site → Site
quarantine a site =
    if a.can_rename
    then record { state = missing; quarantined = site.state ∷ site.quarantined }
    else site

abbrev dict_or_none : Json → Option Dict
dict_or_none (obj d) = some d
dict_or_none _ = none

-- The entries of a decoded state, if it has the right form.
unfoldable pub entries_of : Json → Option Dict
unfolding json_eq
entries_of (obj d) =
    if json_eq (get_or "schema_version" null d) schema_version
    then dict_or_none (get_or "entries" null d)
    else none
entries_of _ = none

abbrev pub empty_loaded : Bool → Loaded
empty_loaded corrupt = record { entries = end; corrupt = corrupt }

abbrev pub or_quarantined : Option Dict → Access → Site → Result Exception Loaded × Site
or_quarantined none a site = (ok (empty_loaded true), quarantine a site)
or_quarantined (some entries) a site = (ok (record { entries = entries; corrupt = false }), site)

abbrev pub load_file : StateFile → Access → Site → Result Exception Loaded × Site
load_file missing a site = (ok (empty_loaded false), site)
load_file unreadable a site = (ok (empty_loaded true), quarantine a site)
load_file undecodable a site = (err value_error, site)
load_file (holds v) a site = or_quarantined (entries_of v) a site

-- `_load`
unfoldable pub load : Access → Site → Result Exception Loaded × Site
load a site = load_file site.state a site

abbrev pub published : Publication → Json → Site → Result Exception (Unit {0}) × Site
published fails v site = (err os_error, site)
published fails_late v site = (err os_error, record site { state = holds v })
published succeeds v site = (ok tt, record site { state = holds v })

-- `_atomic_json`
unfoldable pub atomic_json : Process → Access → Json → Site → Result Exception (Unit {0}) × Site
atomic_json p a v site =
    if ltb max_state_bytes (p.encoded_size v)
    then (err os_error, site)
    else published a.publication v site
