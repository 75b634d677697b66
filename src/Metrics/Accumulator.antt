-- ===== src/Metrics/Accumulator.antt =====
-- `WriteResult` and `WriteAccumulator` of persistence_metrics.py.
use codex_ralph_vault_loop.Base.{
  ℕ, ◌+◌, ◌*◌, min, Bool, true, false, not, ◌&&◌, Option, none, some, List, [], ◌∷◌, ◌++◌, String,
  is_empty, length, take, if◌then◌else◌,
}
use codex_ralph_vault_loop.Base.Int.{ℤ, pos, negsuc, eqb_ℤ}

pub record WriteResult : Type 0 where
  pub changed : Bool
  pub bytes_written : Option ℤ
  pub files_written : List String
  pub replacements : ℤ
  pub appends : ℤ
  pub fsync_publications : ℤ
  pub known : Bool

-- A result of another class, by the attributes that are looked up: `none` for a `known` that is
-- missing, and for files that cannot be listed.
pub record ForeignResult : Type 0 where
  pub changed : Bool
  pub bytes_written : Option ℤ
  pub files_written : Option (List String)
  pub replacements : ℤ
  pub appends : ℤ
  pub fsync_publications : ℤ
  pub known : Option Bool

-- What a writer may hand over: `None`, a `WriteResult`, or another object.
pub data Report : Type 0 where
  nothing : Report
  result : WriteResult → Report
  foreign : ForeignResult → Report

pub record WriteAccumulator : Type 0 where
  pub known : Bool
  pub bytes : ℕ
  pub files : ℕ
  pub replacements : ℕ
  pub appends : ℕ
  pub fsyncs : ℕ
  pub file_names : List String

abbrev pub empty_accumulator : WriteAccumulator
empty_accumulator = record {
  known = true;
  bytes = 0;
  files = 0;
  replacements = 0;
  appends = 0;
  fsyncs = 0;
  file_names = [];
}

-- `WriteResult.unknown`
abbrev pub unknown_result : Bool → WriteResult
unknown_result changed = record {
  changed = changed;
  bytes_written = none;
  files_written = [];
  replacements = pos 0;
  appends = pos 0;
  fsync_publications = pos 0;
  known = false;
}

abbrev pub max_total_bytes : ℕ
max_total_bytes = 32 * 1024 * 1024

-- `max(0, z)`
abbrev pub at_least_zero : ℤ → ℕ
at_least_zero (pos n) = n
at_least_zero (negsuc n) = 0

-- `max(0, min(256, int(n or 0)))`
abbrev pub counted : ℤ → ℕ
counted z = min 256 (at_least_zero z)

-- The bytes of a result that is known and measured.
abbrev pub measured : Bool → Option ℤ → Option ℕ
measured false bytes = none
measured true none = none
measured true (some z) = some (at_least_zero z)

abbrev pub is_known : Option Bool → Option ℤ → Bool
is_known (some known) bytes = known
is_known none none = false
is_known none (some z) = true

unfoldable pub named : List String → List String
named [] = []
named (s ∷ ss) = let rest = named ss in if is_empty s then rest else s ∷ rest

-- `file_names[:256]` of a report's files
abbrev pub listed : Option (List String) → List String
listed none = []
listed (some files) = take 256 (named files)

-- The fields of a report, as `add` reads them.
pub record Fields : Type 0 where
  pub bytes : Option ℕ
  pub files : Option (List String)
  pub replacements : ℤ
  pub appends : ℤ
  pub fsyncs : ℤ

abbrev pub fields_of_result : WriteResult → Fields
fields_of_result r = record {
  bytes = measured r.known r.bytes_written;
  files = some r.files_written;
  replacements = r.replacements;
  appends = r.appends;
  fsyncs = r.fsync_publications;
}

abbrev pub fields_of_foreign : ForeignResult → Fields
fields_of_foreign r = record {
  bytes = measured (is_known r.known r.bytes_written) r.bytes_written;
  files = r.files_written;
  replacements = r.replacements;
  appends = r.appends;
  fsyncs = r.fsync_publications;
}

abbrev is_given {ℓ} : {A : Type ℓ} → Option A → Bool
is_given none = false
is_given (some x) = true

-- The total with some more bytes, where they are measured.
abbrev pub add_bytes : Option ℕ → ℕ → ℕ
add_bytes none total = total
add_bytes (some n) total = min max_total_bytes (total + n)

abbrev pub is_measured : Fields → Bool
is_measured f = is_given f.bytes && is_given f.files

unfoldable pub add_fields : Fields → WriteAccumulator → WriteAccumulator
add_fields f a = record {
  known = a.known && is_measured f;
  bytes = add_bytes f.bytes a.bytes;
  files = a.files + length (listed f.files);
  replacements = a.replacements + counted f.replacements;
  appends = a.appends + counted f.appends;
  fsyncs = a.fsyncs + counted f.fsyncs;
  file_names = a.file_names ++ listed f.files;
}

-- `WriteAccumulator.add`
unfoldable pub add : Report → WriteAccumulator → WriteAccumulator
unfolding add_fields
add nothing a = record a { known = false }
add (result r) a = add_fields (fields_of_result r) a
add (foreign r) a = add_fields (fields_of_foreign r) a

abbrev pub add_all : List Report → WriteAccumulator → WriteAccumulator
add_all [] a = a
add_all (r ∷ rs) a = add_all rs (add r a)

-- `aggregate`
unfoldable pub aggregate : List Report → WriteAccumulator
unfolding add
aggregate rs = add_all rs empty_accumulator

-- The property `bytes_written`
abbrev pub bytes_written : WriteAccumulator → Option ℤ
bytes_written a = if a.known then some (pos a.bytes) else none

abbrev is_positive : Option ℤ → Bool
is_positive none = false
is_positive (some z) = not (eqb_ℤ z (pos 0))

abbrev or_changed : Option Bool → Bool → Bool
or_changed none default = default
or_changed (some changed) default = changed

-- `WriteAccumulator.result`
unfoldable pub total_result : WriteAccumulator → Option Bool → WriteResult
total_result a changed = record {
  changed = or_changed changed (is_positive (bytes_written a));
  bytes_written = bytes_written a;
  files_written = a.file_names;
  replacements = pos a.replacements;
  appends = pos a.appends;
  fsync_publications = pos a.fsyncs;
  known = a.known;
}
