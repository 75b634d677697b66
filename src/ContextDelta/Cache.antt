-- ===== src/ContextDelta/Cache.antt =====
-- The stored cache of context_delta.py: `_prune`, `_load`, `_write` and the settings.
use Prim.Native.Char.{code}
use codex_ralph_vault_loop.Base.{
  ℕ, ◌*◌, Bool, true, false, not, ◌&&◌, ◌||◌, Option, none, some, List, [], ◌∷◌, String, take,
  take_text, eqb, ltb, if◌then◌else◌,
}
use codex_ralph_vault_loop.Base.Int.{ℤ, pos, negsuc, ◌-ℤ◌, leb_ℤ, eqb_ℤ, max_ℤ, min_ℤ}
use codex_ralph_vault_loop.Json.{Json, int, text, obj, Dict, end, field, get, get_or, dict}
use codex_ralph_vault_loop.Json.Eq.{json_eq, millionths}
use codex_ralph_vault_loop.Python.{Library, to_str, to_float, or_else}
use codex_ralph_vault_loop.Maintenance.Host.{Publication, fails, fails_late, succeeds}

-- What the calls share: the environment variables and the encoding of JSON.
pub record Runtime : Type 0 where
  pub env : String → Option String
  -- `json.dumps(v, ensure_ascii=True, sort_keys=True, separators=(",", ":"))`
  pub ascii_dumps : Json → String
  -- the bytes of a payload as `_write` encodes it
  pub encoded_size : Json → ℕ

-- What one call meets: the runtime, the clock in microseconds, and the file system.
pub record Process : Type 0 where
  pub runtime : Runtime
  pub now : ℤ
  pub iso : String
  -- `_locked` yields `True`
  pub locks : Bool
  -- `_quarantine` moves the file aside
  pub can_rename : Bool
  -- the publication in `_write`
  pub publication : Publication
  -- `path.stat().st_size`, if it can be read
  pub stat_size : Option ℕ

-- The cache file as a read finds it: missing, one that is too large, cannot be read or is no JSON,
-- or a decoded value.
pub data CacheFile : Type 0 where
  missing broken : CacheFile
  holds : Json → CacheFile

abbrev pub max_state_bytes : ℕ
max_state_bytes = 512 * 1024

abbrev pub schema_version : Json
schema_version = int (pos 1)

abbrev pub inflight_seconds : ℤ
inflight_seconds = pos 15

abbrev clamped : Option ℤ → ℤ → ℤ → ℤ → ℤ
clamped none default low high = max_ℤ low (min_ℤ default high)
clamped (some z) default low high = max_ℤ low (min_ℤ z high)

abbrev parsed : Library → Option String → Option ℤ
parsed py none = none
parsed py (some s) = py.int_of s

abbrev natural : ℤ → ℕ
natural (pos n) = n
natural (negsuc n) = 0

-- The characters that an identifier keeps.
abbrev pub is_safe_char : Library → ℕ → Bool
is_safe_char py c = py.is_alnum c || (eqb c b'.' || (eqb c b'_' || (eqb c b':' || eqb c b'-')))

abbrev pub filter_text : (ℕ → Bool) → String → String
filter_text p String.[] = String.[]
filter_text p (String.◌∷◌ c s) =
    if p (code c) then String.◌∷◌ c (filter_text p s) else filter_text p s

abbrev pub dict_of : Json → Option Dict
dict_of (obj d) = some d
dict_of _ = none

abbrev pub or_zero : Option ℤ → ℤ
or_zero none = pos 0
or_zero (some z) = z

-- `updated and 0 <= now - updated <= ttl`
abbrev pub is_current : ℤ → ℤ → ℤ → Bool
is_current now ttl updated =
    not (eqb_ℤ updated (pos 0))
    && (leb_ℤ (pos 0) (now -ℤ updated) && leb_ℤ (now -ℤ updated) (millionths ttl))

abbrev pub is_fresh : ℤ → ℤ → Option ℤ → Bool
is_fresh now ttl none = false
is_fresh now ttl (some z) = is_current now ttl z

-- `dict(kept)`, for the distinct keys of a dictionary
abbrev pub of_entries : List (String × Dict) → Dict
of_entries [] = end
of_entries ((k, d) ∷ es) = field k (obj d) (of_entries es)

module _ (py : Library) where
  -- `ttl_seconds`
  unfoldable pub ttl_seconds : Process → ℤ
  ttl_seconds p =
      clamped (parsed py (p.runtime.env "RALPH_CONTEXT_CACHE_TTL_SECONDS")) (pos 300) (pos 1)
        (pos 86400)

  -- `max_entries`
  unfoldable pub max_entries : Process → ℕ
  max_entries p = natural (
      clamped (parsed py (p.runtime.env "RALPH_CONTEXT_CACHE_MAX_ENTRIES")) (pos 128) (pos 1)
        (pos 2048))

  -- `_safe_id` with its limit of 96
  unfoldable pub safe_id : Json → String
  safe_id v = take_text 96 (filter_text (is_safe_char py) (to_str py (or_else v (text ""))))

  -- `float(value.get("updated_epoch", 0))` in millionths
  abbrev pub updated_of : Dict → Option ℤ
  updated_of d = to_float py (get_or "updated_epoch" (int (pos 0)) d)

  abbrev pub fresh_entry :
      ℤ → ℤ → String → Option Dict → List (String × Dict) → List (String × Dict)
  fresh_entry now ttl k none rest = rest
  fresh_entry now ttl k (some d) rest =
      if is_fresh now ttl (updated_of d) then (k, d) ∷ rest else rest

  unfoldable pub fresh : ℤ → ℤ → Dict → List (String × Dict)
  unfolding get
  fresh now ttl end = []
  fresh now ttl (field k v d) = fresh_entry now ttl k (dict_of v) (fresh now ttl d)

  -- `kept.sort(key=…, reverse=True)`, which keeps the order of equal keys
  unfoldable pub insert_entry : String × Dict → List (String × Dict) → List (String × Dict)
  unfolding get
  insert_entry e [] = e ∷ []
  insert_entry e (f ∷ fs) =
      if leb_ℤ (or_zero (updated_of f.1)) (or_zero (updated_of e.1))
      then e ∷ f ∷ fs
      else f ∷ insert_entry e fs

  unfoldable pub sort_entries : List (String × Dict) → List (String × Dict)
  sort_entries [] = []
  sort_entries (e ∷ es) = insert_entry e (sort_entries es)

  -- `_prune`
  unfoldable pub prune : Process → Dict → Dict
  prune p entries =
      of_entries (take (max_entries p) (sort_entries (fresh p.now (ttl_seconds p) entries)))

-- `_quarantine`
abbrev quarantine : Process → CacheFile → CacheFile
quarantine p f = if p.can_rename then missing else f

-- The entries of a decoded state, if it has the right form.
unfoldable pub entries_of : Json → Option Dict
unfolding json_eq get
entries_of (obj d) =
    if json_eq (get_or "schema_version" (Json.null) d) schema_version
    then dict_of (get_or "entries" (Json.null) d)
    else none
entries_of _ = none

abbrev or_quarantined : Process → CacheFile → Option Dict → Dict × CacheFile
or_quarantined p f none = (end, quarantine p f)
or_quarantined p f (some entries) = (entries, f)

-- `_load`: the entries, and the file that is left in place
unfoldable pub load : Process → CacheFile → Dict × CacheFile
load p missing = (end, missing)
load p broken = (end, quarantine p broken)
load p (holds v) = or_quarantined p (holds v) (entries_of v)

abbrev pub payload : Process → Dict → Json
payload p entries = obj (
    dict (
      ("schema_version", schema_version)
      ∷ ("updated_at", text p.iso)
      ∷ ("entries", obj entries)
      ∷ []))

abbrev pub published : Publication → Json → CacheFile → Bool × CacheFile
published fails v f = (false, f)
published fails_late v f = (false, holds v)
published succeeds v f = (true, holds v)

-- `_write`
unfoldable pub write : Process → Dict → CacheFile → Bool × CacheFile
write p entries f =
    if ltb max_state_bytes (p.runtime.encoded_size (payload p entries))
    then (false, f)
    else published p.publication (payload p entries) f
