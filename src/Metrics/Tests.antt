-- ===== src/Metrics/Tests.antt =====
-- Totals of concrete reports.
use codex_ralph_vault_loop.Base.{ℕ, ◌≡◌, refl, true, none, some, List, [], ◌∷◌}
use codex_ralph_vault_loop.Base.Int.{pos}
use codex_ralph_vault_loop.Metrics.Accumulator.{
  WriteResult, ForeignResult, Report, result, foreign, empty_accumulator, unknown_result, named,
  add_fields, add, aggregate, bytes_written, total_result,
}
use codex_ralph_vault_loop.Metrics.Totals.{IsTotal, aggregate-IsTotal}

abbrev publication : WriteResult
publication = record {
  changed = true;
  bytes_written = some (pos 40);
  files_written = "queue.json" ∷ "" ∷ [];
  replacements = pos 1;
  appends = pos 0;
  fsync_publications = pos 300;
  known = true;
}

abbrev cache_write : ForeignResult
cache_write = record {
  changed = true;
  bytes_written = some (pos 2);
  files_written = some ("cache.json" ∷ []);
  replacements = pos 0;
  appends = pos 0;
  fsync_publications = pos 0;
  known = none;
}

abbrev reports : List Report
reports = result publication ∷ foreign cache_write ∷ []

opened : ℕ
unfolding named add_fields add aggregate total_result
opened = 0

known_total : bytes_written (aggregate reports) ≡ some (pos 42)
unfolding opened
known_total = refl

named_files : (aggregate reports).file_names ≡ "queue.json" ∷ "cache.json" ∷ []
unfolding opened
named_files = refl

unknown_total : bytes_written (aggregate (result (unknown_result true) ∷ reports)) ≡ none
unfolding opened
unknown_total = refl

is_changed : (total_result (aggregate reports) none).changed ≡ true
unfolding opened
is_changed = refl

aggregate-IsTotal_example : IsTotal empty_accumulator reports (aggregate reports)
aggregate-IsTotal_example = aggregate-IsTotal reports
