-- ===== src/Store/Files.antt =====
-- The files of io.py over decoded JSON: `read_json`, `read_jsonl`, `append_jsonl` and
-- `publish_json`.
use codex_ralph_vault_loop.Base.{
  ℕ, suc, ◌+◌, Bool, true, Option, none, some, List, [], ◌∷◌, snoc, leb, ltb, if◌then◌else◌,
}
use codex_ralph_vault_loop.Json.{Dict}
use codex_ralph_vault_loop.Python.{Library, ok, err, require}
use codex_ralph_vault_loop.Store.Checked.{
  StoreError, schema, red_content, corrupt, conversion, io, Checked, ◌>>=◌, ◌>>◌,
}
use codex_ralph_vault_loop.Store.State.{encoded_size}

-- A file of JSON. `undecodable` is text that is no JSON object; `unreadable` covers its size, its
-- permissions and its links.
pub data Document : Type 0 where
  absent unreadable undecodable : Document
  document : Dict → Document

-- A file of JSON lines: `none` is a line that is no JSON object. A last line without its end
-- counts in `partial` alone.
pub record Lines : Type 0 where
  pub records : List (Option Dict)
  pub partial : Bool
  pub bytes : ℕ
  pub readable : Bool

-- How a write ends: `fails_late` after the bytes are there, `tears` after some of a line.
pub data Write : Type 0 where
  succeeds fails fails_late : Write
  tears : ℕ → Write

-- The errors of a validator, as `read_json` and `read_jsonl` raise them.
abbrev as_corrupt : StoreError → StoreError
as_corrupt schema = corrupt
as_corrupt red_content = corrupt
as_corrupt conversion = corrupt
as_corrupt e = e

unfoldable pub corrupted : {A : Type 0} → Checked A → Checked A
corrupted (ok a) = ok a
corrupted (err e) = err (as_corrupt e)

-- `read_json`
unfoldable pub read_json : {A : Type 0} → (Dict → Checked A) → Document → Checked (Option A)
read_json check absent = ok none
read_json check unreadable = err io
read_json check undecodable = err corrupt
read_json check (document d) = do a ← corrupted (check d); ok (some a)

-- The loop over the lines, for the number of records that are read.
unfoldable pub read_lines :
    {A : Type 0} → (Dict → Checked A) → ℕ → ℕ → List (Option Dict) → Checked (List A)
read_lines check max_records count [] = ok []
read_lines check max_records count (none ∷ rest) = err corrupt
read_lines check max_records count (some d ∷ rest) = do
  require (ltb count max_records) corrupt
  a ← corrupted (check d)
  others ← read_lines check max_records (suc count) rest
  ok (a ∷ others)

-- `read_jsonl`
unfoldable pub read_jsonl :
    {A : Type 0} → (Dict → Checked A) → ℕ → ℕ → Lines → Checked (List A × Bool)
read_jsonl check total_limit max_records f = do
  require f.readable io
  require (leb f.bytes total_limit) io
  records ← read_lines check max_records 0 f.records
  ok (records, f.partial)

abbrev with_line : Dict → ℕ → Lines → Lines
with_line payload size f = record f {
  records = snoc f.records (some payload);
  bytes = f.bytes + size;
}

-- The bytes of a line that has passed the limits.
unfoldable pub written : Write → Dict → ℕ → Lines → Checked (Unit {0}) × Lines
written succeeds payload size f = (ok tt, with_line payload size f)
written fails payload size f = (err io, f)
written fails_late payload size f = (err io, with_line payload size f)
written (tears n) payload size f = (err io, record f { partial = true; bytes = f.bytes + n })

-- The snapshot that a write leaves: a replacement is whole or not at all.
abbrev pub replaced_by : Write → Dict → Document → Checked (Unit {0}) × Document
replaced_by succeeds payload doc = (ok tt, document payload)
replaced_by fails payload doc = (err io, doc)
replaced_by fails_late payload doc = (err io, document payload)
replaced_by (tears n) payload doc = (err io, doc)

module _ (py : Library) where
  -- `append_jsonl`, for the number of records that the caller has read
  unfoldable pub append_jsonl : Write → ℕ → ℕ → ℕ → ℕ → Dict → Lines → Checked (Unit {0}) × Lines
  append_jsonl w hard_limit total_limit max_records existing payload f =
      let size = suc (encoded_size py payload) in
      if ltb hard_limit size
      then (err io, f)
      else if ltb total_limit (f.bytes + size)
      then (err io, f)
      else if leb max_records existing
      then (err io, f)
      else written w payload size f

  -- `publish_json`. A snapshot that is there already is not written again, which a write that
  -- succeeds shows as well.
  unfoldable pub publish_json : Write → ℕ → Dict → Document → Checked (Unit {0}) × Document
  publish_json w hard_limit payload unreadable = (err io, unreadable)
  publish_json w hard_limit payload doc =
      if ltb hard_limit (encoded_size py payload) then (err io, doc) else replaced_by w payload doc
