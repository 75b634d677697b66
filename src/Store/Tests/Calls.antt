-- ===== src/Store/Tests/Calls.antt =====
-- Runs of `record_event` and of the manifest at concrete inputs.
use codex_ralph_vault_loop.Base.{◌≡◌, refl, true, false, none, [], ◌∷◌, some, length}
use codex_ralph_vault_loop.Python.{ok, err}
use codex_ralph_vault_loop.Store.Checked.{io}
use codex_ralph_vault_loop.Store.State.{state_dict}
use codex_ralph_vault_loop.Store.Event.{Event, event_dict}
use codex_ralph_vault_loop.Store.Manifest.{Manifest, pointer_of, manifest_candidate}
use codex_ralph_vault_loop.Store.Discovery.{IsAdvanced, manifest_candidate-IsAdvanced}
use codex_ralph_vault_loop.Store.Files.{document, absent, succeeds, fails}
use codex_ralph_vault_loop.Store.Disk.{Disk, Host}
use codex_ralph_vault_loop.Store.RecordEvent.{Request, StoreResult, record_request}
use codex_ralph_vault_loop.Store.Growth.{IsGrown}
use codex_ralph_vault_loop.Store.Journaling.{record_request-IsGrown}
use codex_ralph_vault_loop.Store.Success.{IsDone, record_request-IsDone}
use codex_ralph_vault_loop.Store.Tests.{
  shipped_hash, py, is_red, started, objective_patch, first, second, advanced, opened,
}

-- A call of `record_event` that changes the objective, on a plan with one record.
abbrev shipping : Request
shipping = record {
  plan = "plan-1";
  report = record {
    kind = "phase_changed";
    summary = "begun";
    reason = "";
    next_action = "build";
    references = [];
    evidence_codes = [];
  };
  operation = "op-2";
  state_update = objective_patch;
  provenance = none;
  timestamp = "t2";
}

abbrev host : Host
host = record {
  identity = "repo-1";
  now = "t2";
  fresh_id = "op-9";
  is_safe = true;
  can_quarantine = true;
  event_write = succeeds;
  state_write = fails;
  manifest_write = succeeds;
}

abbrev disk : Disk
disk = record {
  snapshot = document (state_dict started);
  events = record {
    records = some (event_dict first) ∷ [];
    partial = false;
    bytes = 100;
    readable = true;
  };
  manifest = absent;
}

-- The write of the snapshot fails, and the record is there.
record-half :
    (length (record_request py is_red host shipping disk).1.events.records ≡ 2)
    × ((record_request py is_red host shipping disk).0 ≡ err io)
unfolding opened
record-half = (refl, refl)

record_request-IsGrown_example :
    IsGrown py is_red "repo-1" shipping disk.events (record_request py is_red host shipping disk).1
record_request-IsGrown_example = record_request-IsGrown py is_red host shipping disk

-- The same with writes that succeed.
abbrev shipped : StoreResult
shipped = record {
  changed = true;
  operation_id = "op-2";
  event_id = "evt-0123456789abcdef0123456789abcdef";
  reason = "";
  state = advanced;
  manifest = none;
}

abbrev shipped_event : Event
shipped_event = record second {
  timestamp = "t2";
  references = [];
  evidence_codes = [];
  state_semantic_hash = shipped_hash;
}

abbrev shipped_disk : Disk
shipped_disk = record {
  snapshot = document (state_dict advanced);
  events = record {
    records = some (event_dict first) ∷ some (event_dict shipped_event) ∷ [];
    partial = false;
    bytes = 102;
    readable = true;
  };
  manifest = absent;
}

record-whole :
    record_request py is_red (record host { state_write = succeeds }) shipping disk
    ≡ (ok shipped, shipped_disk)
unfolding opened
record-whole = refl

record_request-IsDone_example : IsDone py is_red "repo-1" shipping disk advanced shipped_disk
record_request-IsDone_example =
    record_request-IsDone py is_red (record host { state_write = succeeds }) shipping disk
      shipped_disk shipped refl record-whole

abbrev manifest : Manifest
manifest = record {
  canonical_repo_identity = "repo-1";
  generation = 3;
  plans = record (pointer_of started) { status = "active"; last_event_sequence = 0 } ∷ [];
}

abbrev pointed : Manifest
pointed = record manifest { generation = 4; plans = pointer_of advanced ∷ [] }

point : manifest_candidate py is_red manifest advanced false ≡ ok (pointed, true)
unfolding opened
point = refl

manifest_candidate-IsAdvanced_example : IsAdvanced advanced manifest pointed true
manifest_candidate-IsAdvanced_example =
    manifest_candidate-IsAdvanced py is_red advanced manifest false (pointed, true) point
