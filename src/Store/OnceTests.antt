-- ===== src/Store/OnceTests.antt =====
-- Runs of the emission ledger.
use codex_ralph_vault_loop.Base.{
  ◌≡◌, ◌≤◌, refl, ap, Bool, true, false, none, some, List, [], ◌∷◌, String, ◌==◌,
}
use codex_ralph_vault_loop.Python.{Library, ok}
use codex_ralph_vault_loop.Store.Checked.{Checked, ◌>>=◌}
use codex_ralph_vault_loop.Store.Fields.{
  matches_id, enum, integer, check_version, known_keys, identifier, plan_id, reject_red,
}
use codex_ralph_vault_loop.Store.State.{encoded_size}
use codex_ralph_vault_loop.Store.Files.{
  Lines, Write, succeeds, fails, tears, corrupted, read_lines, read_jsonl, written, append_jsonl,
}
use codex_ralph_vault_loop.Store.Emission.{
  Emission, key_of, emission_dict, same_key, emission_fields, seal_emission, validate_emission,
  context_ledger_key, has_key, check_distinct, read_emissions, read_context_ledger, is_hit,
  room_for, planned, claim_context_emission, has_context_emission,
}
use codex_ralph_vault_loop.Store.Claims.{Holds}
use codex_ralph_vault_loop.Store.Repeat.{claim_context_emission-repeat}
use codex_ralph_vault_loop.Store.Once.{Claim, emissions, emissions-once}

abbrev py : Library
py = record {
  sha256 = λ s. s;
  repr = λ v. "0";
  lower = λ s. s;
  upper = λ s. s;
  dumps = λ v. "0";
  float_of = λ s. none;
  int_of = λ s. none;
  is_alnum = λ c. true;
  is_space = λ c. false;
}

abbrev is_red : String → Bool
is_red s = s == "password"

abbrev emission : String → Emission
emission capsule = record {
  project_id = "project";
  workspace_instance_id = "workspace";
  session_id = "session";
  context_epoch = "epoch";
  plan = "plan-1";
  progress_generation = 3;
  capsule_kind = capsule;
  emission_id = "emission";
}

abbrev no_records : Lines
no_records = record { readable = true; records = []; partial = false; bytes = 0 }

abbrev claim : String → Claim
claim capsule = record {
  is_safe = true;
  write = succeeds;
  payload = emission_dict (emission capsule);
  seen = no_records;
}

abbrev claims : List Claim
claims =
    record (claim "full") { write = fails }
    ∷ claim "full"
    ∷ claim "delta"
    ∷ claim "full"
    ∷ record (claim "delta") { write = tears 5 }
    ∷ []

-- The second of three claims emits the key; the third one comes too late.
emit-full : emissions py is_red (key_of (emission "full")) claims no_records ≡ 1
unfolding emissions claim_context_emission planned room_for is_hit read_context_ledger
    read_emissions check_distinct has_key context_ledger_key validate_emission seal_emission
    emission_fields same_key read_jsonl read_lines corrupted append_jsonl written encoded_size ◌>>=◌
    check_version known_keys identifier plan_id integer enum reject_red matches_id
emit-full = refl

emissions-once_example :
    (emissions py is_red (key_of (emission "full")) claims no_records ≤ 1)
    × (Holds py is_red (key_of (emission "full")) []
        → emissions py is_red (key_of (emission "full")) claims no_records ≡ 0)
emissions-once_example = emissions-once py is_red (key_of (emission "full")) claims no_records

abbrev one_record : Lines
one_record = record {
  readable = true;
  records = some (emission_dict (emission "full")) ∷ [];
  partial = false;
  bytes = 2;
}

emit-first :
    claim_context_emission py is_red true succeeds
      (emission_dict (emission "full"))
      no_records
      no_records
    ≡ (ok true, one_record)
unfolding claim_context_emission planned room_for is_hit read_context_ledger read_emissions
    check_distinct has_key context_ledger_key validate_emission seal_emission emission_fields
    same_key read_jsonl read_lines corrupted append_jsonl written encoded_size ◌>>=◌ check_version
    known_keys identifier plan_id integer enum reject_red matches_id
emit-first = refl

claim_context_emission-repeat_example :
    let g =
      (claim_context_emission py is_red true succeeds
        (emission_dict (emission "full"))
        no_records
        no_records).1 in
    (has_context_emission py is_red (emission_dict (emission "full")) g ≡ ok true)
    × ((is_safe' : Bool) (w' : Write) (f' : Lines)
        → claim_context_emission py is_red is_safe' w' (emission_dict (emission "full")) g f'
          ≡ (ok false, f'))
claim_context_emission-repeat_example =
    claim_context_emission-repeat py is_red true succeeds (emission_dict (emission "full"))
      no_records (ap (λ (o : Checked Bool × Lines). o.0) emit-first)
