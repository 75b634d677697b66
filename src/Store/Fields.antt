-- ===== src/Store/Fields.antt =====
-- The field validators of schema.py: each returns the value that it was given, or raises.
use Prim.Native.Char.{code}
use codex_ralph_vault_loop.Base.{
  ℕ, Bool, true, false, not, ◌&&◌, ◌||◌, none, some, List, [], ◌∷◌, String, ◌==◌, length, any,
  codes, after_prefix, eqb, ltb, leb, is_empty, text_length, all_codes, if◌then◌else◌,
}
use codex_ralph_vault_loop.Base.Int.{pos, negsuc}
use codex_ralph_vault_loop.Json.{
  Json, null, bool, int, text, arr, obj, Items, nil, cons, Dict, end, field, get_or, get, size,
  to_list,
}
use codex_ralph_vault_loop.Python.{Library, ok, err, require, strip}
use codex_ralph_vault_loop.Store.Checked.{schema, future_schema, red_content, Checked, ◌>>=◌, ◌>>◌}

-- `value in allowed`
abbrev pub is_one_of : List String → String → Bool
is_one_of [] s = false
is_one_of (a ∷ as') s = s == a || is_one_of as' s

abbrev in_range : ℕ → ℕ → ℕ → Bool
in_range lo hi c = leb lo c && leb c hi

abbrev is_digit : ℕ → Bool
is_digit c = in_range b'0' b'9' c

abbrev is_ascii_alnum : ℕ → Bool
is_ascii_alnum c = is_digit c || (in_range b'A' b'Z' c || in_range b'a' b'z' c)

-- `re.fullmatch` of a class and then a bounded run of a class
abbrev matches_run : (ℕ → Bool) → (ℕ → Bool) → ℕ → String → Bool
matches_run first rest limit String.[] = false
matches_run first rest limit (String.◌∷◌ c s) =
    first (code c) && (all_codes rest s && leb (text_length s) limit)

abbrev code_char : ℕ → Bool
code_char c = is_ascii_alnum c || (eqb c b'.' || (eqb c b'_' || (eqb c b':' || eqb c b'-')))

abbrev id_char : ℕ → Bool
id_char c = code_char c || eqb c b'/'

-- `_ID_RE`
unfoldable pub matches_id : String → Bool
matches_id = matches_run is_ascii_alnum id_char 95

-- `_CODE_RE`
unfoldable pub matches_code : String → Bool
matches_code = matches_run is_ascii_alnum code_char 63

abbrev is_hex : ℕ → Bool
is_hex c = is_digit c || in_range b'a' b'f' c

-- `_COMMIT_RE`
unfoldable pub matches_commit : String → Bool
matches_commit s = all_codes is_hex s && (leb 7 (text_length s) && leb (text_length s) 64)

abbrev all_hex : List ℕ → Bool
all_hex [] = true
all_hex (c ∷ cs) = is_hex c && all_hex cs

-- `_HASH_RE`
unfoldable pub matches_hash : String → Bool
matches_hash s = elim (after_prefix (codes "sha256:") (codes s)) [
  | none ↦ false
  | some cs ↦ eqb (length cs) 64 && all_hex cs
]

-- `cs.split("/")`: the first part and the others.
abbrev split_first : List ℕ → List ℕ × List (List ℕ)
split_first [] = ([], [])
split_first (c ∷ cs) =
    let r = split_first cs in if eqb c b'/' then ([], r.0 ∷ r.1) else (c ∷ r.0, r.1)

abbrev pub split_path : List ℕ → List (List ℕ)
split_path cs = let r = split_first cs in r.0 ∷ r.1

-- A part that is empty, `.` or `..`.
abbrev pub is_traversal : List ℕ → Bool
is_traversal [] = true
is_traversal (c ∷ []) = eqb c b'.'
is_traversal (c ∷ d ∷ []) = eqb c b'.' && eqb d b'.'
is_traversal (c ∷ d ∷ e ∷ cs) = false

abbrev starts_with_code : ℕ → List ℕ → Bool
starts_with_code c [] = false
starts_with_code c (d ∷ ds) = eqb d c

abbrev is_bad_component : List ℕ → Bool
is_bad_component cs = starts_with_code b'~' cs || any (λ c. ltb c 32) cs

abbrev is_control : ℕ → Bool
is_control c = ltb c 32 && not (eqb c 10 || eqb c 9)

-- `value == "" and allow_empty`
abbrev pub allowed_empty : Bool → Json → Bool
allowed_empty allow (text String.[]) = allow
allowed_empty allow v = false

-- `isinstance(value, str)`
abbrev pub as_text : Json → Checked String
as_text (text s) = ok s
as_text _ = err schema

-- `_object`
unfoldable pub object : Json → Checked Dict
object (obj d) = ok d
object _ = err schema

-- `_enum`
unfoldable pub enum : List String → Json → Checked String
enum allowed v = do s ← as_text v; require (is_one_of allowed s) schema; ok s

-- `_integer`; each minimum in the schema is a natural number
unfoldable pub integer : ℕ → Json → Checked ℕ
integer minimum (int (pos n)) = do require (leb minimum n) schema; ok n
integer minimum _ = err schema

unfoldable pub boolean : Json → Checked Bool
boolean (bool b) = ok b
boolean _ = err schema

-- `_schema_version`
unfoldable pub check_version : Dict → Checked (Unit {0})
unfolding get
check_version d = elim (get_or "schema_version" null d) [
  | int z ↦ elim z [
    | pos n ↦ if ltb 1 n then err future_schema else require (eqb n 1) schema
    | negsuc n ↦ err schema
  ]
  | _ ↦ err schema
]

-- `_unknown_keys`
unfoldable pub known_keys : List String → Dict → Bool
known_keys allowed end = true
known_keys allowed (field k v d) = is_one_of allowed k && known_keys allowed d

-- `_hash`
unfoldable pub hash_text : Bool → Json → Checked String
hash_text allow_empty v =
    if allowed_empty allow_empty v
    then ok ""
    else do s ← as_text v; require (matches_hash s) schema; ok s

-- `_code_list`
unfoldable pub code_items : Items → Checked (List String)
code_items nil = ok []
code_items (cons v vs) = do
  s ← as_text v
  require (matches_code s) schema
  rest ← code_items vs
  ok (s ∷ rest)

unfoldable pub items : ℕ → Json → Checked Items
items limit (arr xs) = do require (leb (length (to_list xs)) limit) schema; ok xs
items limit _ = err schema

unfoldable pub code_list : ℕ → Json → Checked (List String)
code_list limit v = do xs ← items limit v; code_items xs

abbrev pub valid_validation : List String
valid_validation = "not_run" ∷ "pending" ∷ "partial" ∷ "pass" ∷ "fail" ∷ "blocked" ∷ []

unfoldable pub validation_fields : Dict → Checked Dict
validation_fields end = ok end
validation_fields (field k v d) = do
  require (matches_code k) schema
  s ← enum valid_validation v
  rest ← validation_fields d
  ok (field k (text s) rest)

-- `_validation`
unfoldable pub validation : Json → Checked Dict
validation v = do d ← object v; require (leb (size d) 16) schema; validation_fields d

-- The validators that refuse RED content, for a classifier of texts.
module _ (py : Library) (is_red : String → Bool) where
  -- `_text`
  unfoldable pub bounded_text : ℕ → Bool → Json → Checked String
  bounded_text limit allow_empty v = do
    s ← as_text v
    require (allow_empty || not (is_empty (strip py s))) schema
    require (leb (text_length s) limit) schema
    require (not (any is_control (codes s))) schema
    require (not (is_red s)) red_content
    ok s

  -- `_timestamp`
  unfoldable pub timestamp_text : Bool → Json → Checked String
  timestamp_text allow_empty v = bounded_text 64 allow_empty v

  -- `_identifier`
  unfoldable pub identifier : Bool → Json → Checked String
  identifier allow_empty v = if allowed_empty allow_empty v then ok "" else do
    s ← as_text v
    require (matches_id s) schema
    require (not (is_red s)) red_content
    ok s

  -- `_plan_id`
  unfoldable pub plan_id : Bool → Json → Checked String
  plan_id allow_empty v = if allowed_empty allow_empty v then ok "" else do
    s ← as_text v
    let cs = codes s
    require
        (not (is_empty s)
          && (leb (text_length s) 180
              && (not (any (λ c. eqb c 92) cs) && not (starts_with_code b'/' cs))))
        schema
    require (leb (length (split_path cs)) 8 && not (any is_traversal (split_path cs))) schema
    require (not (any is_bad_component (split_path cs))) schema
    require (not (is_red s)) red_content
    ok s

  -- `_repo_relative_path`
  unfoldable pub repo_path : Bool → Json → Checked String
  repo_path allow_empty v = if allowed_empty allow_empty v then ok "" else do
    s ← as_text v
    let cs = codes s
    require
        (not (is_empty s)
          && (leb (text_length s) 320
              && (not (starts_with_code b'/' cs) && not (any (λ c. eqb c 92) cs))))
        schema
    require (not (any is_traversal (split_path cs))) schema
    require (not (is_red s)) red_content
    ok s

  unfoldable pub text_items : ℕ → Items → Checked (List String)
  text_items limit nil = ok []
  text_items limit (cons v vs) = do
    s ← bounded_text limit false v
    rest ← text_items limit vs
    ok (s ∷ rest)

  -- `_text_list`
  unfoldable pub text_list : ℕ → ℕ → Json → Checked (List String)
  text_list max_items limit v = do xs ← items max_items v; text_items limit xs

  unfoldable pub path_items : Items → Checked (List String)
  path_items nil = ok []
  path_items (cons v vs) = do s ← repo_path false v; rest ← path_items vs; ok (s ∷ rest)

  -- `_path_list`
  unfoldable pub path_list : ℕ → Json → Checked (List String)
  path_list max_items v = do xs ← items max_items v; path_items xs

  -- `_reject_red`
  unfoldable pub reject_red : Dict → Checked (Unit {0})
  reject_red d = require (not (is_red (py.dumps (obj d)))) red_content
