-- ===== src/Metrics/Totals.antt =====
-- The totals of any reports, against a specification that is written out for each report.
use codex_ralph_vault_loop.Base.{
  ℕ, ◌+◌, ◌≤◌, ◌≡◌, refl, ap, min, Bool, true, false, ◌&&◌, Option, none, some, List, [], ◌∷◌, ◌++◌,
  String, is_empty, length, take, arith, sym, ◌∙◌, length-append, if◌then◌else◌,
}
use mathlib.Core.List.{append-nil, append_assoc}
use codex_ralph_vault_loop.Base.Int.{ℤ, pos, negsuc}
use codex_ralph_vault_loop.Metrics.Accumulator.{
  WriteAccumulator, WriteResult, ForeignResult, Report, nothing, result, foreign, Fields,
  fields_of_result, fields_of_foreign, empty_accumulator, max_total_bytes, is_measured, is_known,
  measured, named, listed, counted, add_bytes, add_fields, add, add_all, aggregate,
}

abbrev is_some {ℓ} : {A : Type ℓ} → Option A → Bool
is_some none = false
is_some (some x) = true

-- A class without a `known` is known if it tells its bytes.
abbrev told : Option Bool → Bool
told none = true
told (some known) = known

-- A report is known, and tells its bytes and its files.
abbrev pub is_complete : Report → Bool
is_complete nothing = false
is_complete (result r) = r.known && is_some r.bytes_written
is_complete (foreign r) = told r.known && (is_some r.bytes_written && is_some r.files_written)

abbrev bytes_if : Bool → Option ℤ → ℕ
bytes_if true (some (pos n)) = n
bytes_if known bytes = 0

abbrev pub bytes_of : Report → ℕ
bytes_of nothing = 0
bytes_of (result r) = bytes_if r.known r.bytes_written
bytes_of (foreign r) = bytes_if (told r.known) r.bytes_written

abbrev nonempty : List String → List String
nonempty [] = []
nonempty (s ∷ ss) = if is_empty s then nonempty ss else s ∷ nonempty ss

-- The first 256 names that are not empty.
abbrev names_in : Option (List String) → List String
names_in none = []
names_in (some files) = take 256 (nonempty files)

abbrev pub names_of : Report → List String
names_of nothing = []
names_of (result r) = names_in (some r.files_written)
names_of (foreign r) = names_in r.files_written

-- A count that a report tells, between 0 and 256.
abbrev amount : ℤ → ℕ
amount (pos n) = min 256 n
amount (negsuc n) = 0

abbrev pub replacements_of : Report → ℕ
replacements_of nothing = 0
replacements_of (result r) = amount r.replacements
replacements_of (foreign r) = amount r.replacements

abbrev pub appends_of : Report → ℕ
appends_of nothing = 0
appends_of (result r) = amount r.appends
appends_of (foreign r) = amount r.appends

abbrev pub fsyncs_of : Report → ℕ
fsyncs_of nothing = 0
fsyncs_of (result r) = amount r.fsync_publications
fsyncs_of (foreign r) = amount r.fsync_publications

-- Sums over what reports say, and a test of all of them.
abbrev pub sum_of : (Report → ℕ) → List Report → ℕ
sum_of measure [] = 0
sum_of measure (r ∷ rs) = measure r + sum_of measure rs

abbrev pub all_complete : List Report → Bool
all_complete [] = true
all_complete (r ∷ rs) = is_complete r && all_complete rs

abbrev pub all_names : List Report → List String
all_names [] = []
all_names (r ∷ rs) = names_of r ++ all_names rs

-- The totals behind an accumulator and more reports.
pub record IsTotal (a : WriteAccumulator) (rs : List Report) (b : WriteAccumulator) : Type 0 where
  pub is_known : b.known ≡ (a.known && all_complete rs)
  pub sums_bytes : b.bytes ≡ min 33_554_432 (a.bytes + sum_of bytes_of rs)
  pub counts_files : b.files ≡ a.files + length (all_names rs)
  pub lists_files : b.file_names ≡ a.file_names ++ all_names rs
  pub sums_replacements : b.replacements ≡ a.replacements + sum_of replacements_of rs
  pub sums_appends : b.appends ≡ a.appends + sum_of appends_of rs
  pub sums_fsyncs : b.fsyncs ≡ a.fsyncs + sum_of fsyncs_of rs

and_assoc : (a b c : Bool) → ((a && b) && c) ≡ (a && (b && c))
and_assoc true b c = refl
and_assoc false b c = refl

IsTotal-none : (a : WriteAccumulator) → a.bytes ≤ max_total_bytes → IsTotal a [] a
IsTotal-none a q = record {
  is_known = ground arith;
  sums_bytes = omega arith;
  counts_files = omega arith;
  lists_files = sym (append-nil a.file_names);
  sums_replacements = omega arith;
  sums_appends = omega arith;
  sums_fsyncs = omega arith;
}

-- The readings of the accumulator are those of the specification.
counted-amount : (z : ℤ) → counted z ≡ amount z
counted-amount (pos n) = refl
counted-amount (negsuc n) = omega arith

named-nonempty : (ss : List String) → named ss ≡ nonempty ss
unfolding named
named-nonempty [] = refl
named-nonempty (s ∷ ss) = ap (λ rest. if is_empty s then rest else s ∷ rest) (named-nonempty ss)

listed-names_in : (o : Option (List String)) → listed o ≡ names_in o
listed-names_in none = refl
listed-names_in (some files) = ap (take 256) (named-nonempty files)

abbrev or_zero : Option ℕ → ℕ
or_zero none = 0
or_zero (some n) = n

measured-bytes_if : (known : Bool) (o : Option ℤ) → or_zero (measured known o) ≡ bytes_if known o
measured-bytes_if false none = refl
measured-bytes_if false (some z) = refl
measured-bytes_if true none = refl
measured-bytes_if true (some (pos n)) = refl
measured-bytes_if true (some (negsuc n)) = refl

-- What the fields of a report say is what the specification says of the report.
pub record Says (r : Report) (f : Fields) : Type 0 where
  says_known : is_measured f ≡ is_complete r
  says_bytes : or_zero f.bytes ≡ bytes_of r
  says_names : listed f.files ≡ names_of r
  says_replacements : counted f.replacements ≡ replacements_of r
  says_appends : counted f.appends ≡ appends_of r
  says_fsyncs : counted f.fsyncs ≡ fsyncs_of r

result_known :
    (known : Bool) (o : Option ℤ) → (is_some (measured known o) && true) ≡ (known && is_some o)
result_known false o = refl
result_known true none = refl
result_known true (some z) = refl

foreign_known :
    (k : Option Bool) (o : Option ℤ) (files : Option (List String))
    → (is_some (measured (is_known k o) o) && is_some files)
      ≡ (told k && (is_some o && is_some files))
foreign_known none none files = refl
foreign_known none (some z) files = refl
foreign_known (some false) o files = refl
foreign_known (some true) none files = refl
foreign_known (some true) (some z) files = refl

foreign_bytes :
    (k : Option Bool) (o : Option ℤ) → or_zero (measured (is_known k o) o) ≡ bytes_if (told k) o
foreign_bytes none none = refl
foreign_bytes none (some z) = measured-bytes_if true (some z)
foreign_bytes (some known) o = measured-bytes_if known o

fields_of_result-Says : (r : WriteResult) → Says (result r) (fields_of_result r)
fields_of_result-Says r = record {
  says_known = result_known r.known r.bytes_written;
  says_bytes = measured-bytes_if r.known r.bytes_written;
  says_names = listed-names_in (some r.files_written);
  says_replacements = counted-amount r.replacements;
  says_appends = counted-amount r.appends;
  says_fsyncs = counted-amount r.fsync_publications;
}

fields_of_foreign-Says : (r : ForeignResult) → Says (foreign r) (fields_of_foreign r)
fields_of_foreign-Says r = record {
  says_known = foreign_known r.known r.bytes_written r.files_written;
  says_bytes = foreign_bytes r.known r.bytes_written;
  says_names = listed-names_in r.files_written;
  says_replacements = counted-amount r.replacements;
  says_appends = counted-amount r.appends;
  says_fsyncs = counted-amount r.fsync_publications;
}

-- A sum that is capped at each step is the sum capped at the end.
add_bytes-capped :
    (o : Option ℕ) (x rest : ℕ)
    → x ≤ max_total_bytes
    → (add_bytes o x ≤ max_total_bytes)
      × (min max_total_bytes (add_bytes o x + rest) ≡ min max_total_bytes (x + (or_zero o + rest)))
add_bytes-capped none x rest h = (h, omega arith)
add_bytes-capped (some n) x rest h = (omega arith, omega arith)

module _ (rs : List Report) (a b : WriteAccumulator) where
  IsTotal-unknown : IsTotal (record a { known = false }) rs b → IsTotal a (nothing ∷ rs) b
  IsTotal-unknown h = record {
    is_known = ground (arith, h.is_known);
    sums_bytes = omega (arith, h.sums_bytes);
    counts_files = h.counts_files;
    lists_files = h.lists_files;
    sums_replacements = ground arith;
    sums_appends = ground arith;
    sums_fsyncs = ground arith;
  }

  IsTotal-some :
      (r : Report) (f : Fields)
      → a.bytes ≤ max_total_bytes
      → Says r f
      → IsTotal (add_fields f a) rs b
      → IsTotal a (r ∷ rs) b
  unfolding add_fields
  IsTotal-some r f q s h = record {
    is_known =
        h.is_known
        ∙ (and_assoc a.known (is_measured f) (all_complete rs)
            ∙ ap (λ k. a.known && (k && all_complete rs)) s.says_known);
    sums_bytes =
        let capped = add_bytes-capped f.bytes a.bytes (sum_of bytes_of rs) q in
        h.sums_bytes
        ∙ (capped.1 ∙ ap (λ n. min 33_554_432 (a.bytes + (n + sum_of bytes_of rs))) s.says_bytes);
    counts_files = omega (
      arith,
      h.counts_files,
      ap (λ (l : List String). length l) s.says_names,
      length-append {0} (names_of r) (all_names rs),
    );
    lists_files =
        h.lists_files
        ∙ (append_assoc a.file_names (listed f.files) (all_names rs)
            ∙ ap (λ l. a.file_names ++ (l ++ all_names rs)) s.says_names);
    sums_replacements = omega (arith, h.sums_replacements, s.says_replacements);
    sums_appends = omega (arith, h.sums_appends, s.says_appends);
    sums_fsyncs = omega (arith, h.sums_fsyncs, s.says_fsyncs);
  }

add_fields-capped :
    (f : Fields) (a : WriteAccumulator)
    → a.bytes ≤ max_total_bytes
    → (add_fields f a).bytes ≤ max_total_bytes
unfolding add_fields
add_fields-capped f a q = (add_bytes-capped f.bytes a.bytes 0 q).0

add_all-IsTotal :
    (rs : List Report) (a : WriteAccumulator)
    → a.bytes ≤ max_total_bytes
    → IsTotal a rs (add_all rs a)
unfolding add
add_all-IsTotal [] a q = IsTotal-none a q
add_all-IsTotal (nothing ∷ rs) a q =
    IsTotal-unknown rs a _ (add_all-IsTotal rs (record a { known = false }) q)
add_all-IsTotal (result r ∷ rs) a q =
    let f = fields_of_result r in
    IsTotal-some rs a _ (result r) f q (fields_of_result-Says r)
      (add_all-IsTotal rs (add_fields f a) (add_fields-capped f a q))
add_all-IsTotal (foreign r ∷ rs) a q =
    let f = fields_of_foreign r in
    IsTotal-some rs a _ (foreign r) f q (fields_of_foreign-Says r)
      (add_all-IsTotal rs (add_fields f a) (add_fields-capped f a q))

-- Whatever writers report, the total is known exactly if every report is known, tells its bytes and
-- lists its files; its bytes are the sum of the bytes of the reports that are known, a negative
-- number counting as none, at most 32 MiB; its files are the names that are not empty in order, at
-- most 256 of each report, and are counted as they are listed; its other counts are the sums of the
-- reports', each cut to the range from 0 to 256.
pub aggregate-IsTotal : (rs : List Report) → IsTotal empty_accumulator rs (aggregate rs)
unfolding aggregate
aggregate-IsTotal rs = add_all-IsTotal rs empty_accumulator (omega arith)
