-- ===== src/Continuation/Tests.antt =====
-- Runs of the continuation budget at concrete inputs.
use codex_ralph_vault_loop.Base.{
  ℕ, ◌-◌, ◌≤◌, ◌≡◌, ◌⊎◌, inl, inr, refl, true, false, none, some, [], ◌∷◌,
}
use codex_ralph_vault_loop.Base.Int.{pos, ◌+ℤ◌, ◌-ℤ◌}
use codex_ralph_vault_loop.Json.{int, get, set, remove, size}
use codex_ralph_vault_loop.Json.Eq.{json_eq}
use codex_ralph_vault_loop.Python.{Library}
use codex_ralph_vault_loop.Maintenance.Host.{succeeds, fails}
use codex_ralph_vault_loop.Continuation.State.{
  Process, Access, Site, missing, max_entries, state_ttl_seconds, active, insert_entry,
  sort_entries, trim, entries_of, load, atomic_json,
}
use codex_ralph_vault_loop.Continuation.Reserve.{StopScope, Sites, refused, reserve_at, reserve}
use codex_ralph_vault_loop.Continuation.Grants.{held}
use codex_ralph_vault_loop.Continuation.Runs.{
  Call, request_of, call_at, grants, Keeps, grants-bound,
}
use codex_ralph_vault_loop.Continuation.Evidence.{IsJustified, Fails, reserve-outcome}

abbrev py : Library
py = record {
  sha256 = λ s. s;
  repr = λ v. "0";
  lower = λ s. s;
  upper = λ s. s;
  dumps = λ v. "";
  float_of = λ s. none;
  int_of = λ s. none;
  is_alnum = λ c. true;
  is_space = λ c. false;
}

abbrev process : Process
process = record { env = λ s. none; now = pos 5_000_000; encoded_size = λ v. 400 }

abbrev later : Process
later = record { env = λ s. none; now = pos 9_000_000; encoded_size = λ v. 400 }

abbrev access : Access
access = record { is_safe = true; locks = true; can_rename = true; publication = succeeds }

abbrev broken : Access
broken = record { is_safe = true; locks = true; can_rename = true; publication = fails }

abbrev scope : StopScope
scope = record {
  scope_key = "k1";
  task_signature = "task-1";
  project_id = "p";
  session_id = "s";
  branch = "main";
  sha = "abc";
}

abbrev first : Call
first = record { process = process; access = access; evidence_fingerprint = "e1"; critical = false }

abbrev second : Call
second = record { process = later; access = access; evidence_fingerprint = "e2"; critical = true }

abbrev third : Call
third = record { process = later; access = access; evidence_fingerprint = "e3"; critical = true }

abbrev empty : Site
empty = record { state = missing; quarantined = [] }

opened : ℕ
unfolding ◌+ℤ◌ ◌-ℤ◌ get set remove size json_eq max_entries state_ttl_seconds active insert_entry
    sort_entries trim entries_of load atomic_json reserve_at reserve grants
opened = 0

two_granted : grants py scope (first ∷ second ∷ third ∷ []) empty ≡ 2
unfolding opened
two_granted = refl

one_granted : grants py scope (first ∷ first ∷ first ∷ []) empty ≡ 1
unfolding opened
one_granted = refl

abbrev site_1 : Site
site_1 = (call_at py scope first empty).1

abbrev site_2 : Site
site_2 = (call_at py scope second site_1).1

first-Keeps : Keeps py process "k1" empty
unfolding opened
first-Keeps = record { entry_stays = refl; has_count = inl refl }

second-Keeps : Keeps py later "k1" site_1
unfolding opened
second-Keeps = record { entry_stays = refl; has_count = inr (int (pos 1), refl) }

third-Keeps : Keeps py later "k1" site_2
unfolding opened
third-Keeps = record { entry_stays = refl; has_count = inr (int (pos 2), refl) }

grants-bound_example : grants py scope (first ∷ second ∷ third ∷ []) empty ≤ 2 - held py "k1" empty
grants-bound_example =
    grants-bound py scope (first ∷ second ∷ third ∷ []) empty
      (first-Keeps, (second-Keeps, (third-Keeps, tt)))

abbrev sites : Sites
sites = record { primary = empty; fallback = empty }

falls_back :
    (reserve py process broken (some access) (request_of scope first) sites).0.allowed ≡ true
unfolding opened
falls_back = refl

reserve-outcome_example :
    IsJustified
      (request_of scope first)
      (reserve py process broken none (request_of scope first) sites).0
    ⊎ (((reserve py process broken none (request_of scope first) sites).0
          ≡ refused (request_of scope first))
        × Fails py (request_of scope first) process (some broken) sites.primary
        × Fails py (request_of scope first) process none sites.fallback)
reserve-outcome_example = reserve-outcome py (request_of scope first) process broken none sites
