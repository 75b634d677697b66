-- ===== src/AgentBudget/Bounds.antt =====
-- The sizes of a ledger stay within their limits.
use codex_ralph_vault_loop.Base.{
  ◌+◌, ◌≤◌, List, [], String, length, take_last, snoc, length-take_last, is_empty, if-keeps, arith,
}
use codex_ralph_vault_loop.Base.Int.{ℤ}
use codex_ralph_vault_loop.Json.{Json, Dict, get_or, arr, of_list, text}
use codex_ralph_vault_loop.Python.{Library}
use codex_ralph_vault_loop.AgentBudget.Ledger.{
  Ledger, normalize_ledger, ints, stored, filled, list_of, safe_code, bounded_text, max_codes,
}
use codex_ralph_vault_loop.AgentBudget.Accounting.{Usage, with_code, with_timestamp, record_spawn}

pub record IsBounded (l : Ledger) : Type 0 where
  pub agents : l.agents_started ≤ 2
  pub advisors : l.advisors_started ≤ 1
  pub workers : l.workers_started ≤ 2
  pub jobs : l.agents_started + l.reserved_jobs ≤ 2
  pub reason_codes : length l.reasons ≤ 8
  pub failures : length l.failure_fingerprints ≤ 8
  pub stamps : length l.timestamps ≤ 8
  pub bytes_out : l.bytes_sent ≤ 32768
  pub bytes_in : l.bytes_received ≤ 8192

length-with_code :
    (code : String) (codes : List String) → length codes ≤ 8 → length (with_code code codes) ≤ 8
length-with_code code codes h =
    if-keeps (λ (xs : List String). length xs ≤ 8) (is_empty code) codes
      (take_last max_codes (snoc codes code)) h (length-take_last 8 (snoc codes code))

module _ (py : Library) where
  length-stored : (f : Json → String) (v : Json) → length (stored py f v) ≤ 8
  length-stored f v = length-take_last 8 (filled py f (list_of v))

  pub normalize_ledger-IsBounded :
      (d : Dict) (signature : String) (now : ℤ) → IsBounded (normalize_ledger py d signature now)
  unfolding normalize_ledger ints
  normalize_ledger-IsBounded d signature now = record {
    agents = ground arith;
    advisors = ground arith;
    workers = ground arith;
    jobs = ground arith;
    reason_codes = length-stored (safe_code py "reason") (get_or "reasons" (arr (of_list [])) d);
    failures =
        length-stored (safe_code py "failure") (get_or "failure_fingerprints" (arr (of_list [])) d);
    stamps = length-stored (λ v. bounded_text py v 48) (get_or "timestamps" (arr (of_list [])) d);
    bytes_out = ground arith;
    bytes_in = ground arith;
  }

  length-with_timestamp :
      (stamp : String) (stamps : List String)
      → length stamps ≤ 8
      → length (with_timestamp py stamp stamps) ≤ 8
  length-with_timestamp stamp stamps h =
      if-keeps (λ (xs : List String). length xs ≤ 8) (is_empty stamp) stamps
        (take_last max_codes (snoc stamps (bounded_text py (text stamp) 48))) h
        (length-take_last 8 (snoc stamps (bounded_text py (text stamp) 48)))

  -- A ledger with a start recorded is within its limits, whatever was stored.
  pub record_spawn-IsBounded :
      (d : Dict) (signature : String) (now : ℤ) (kind : String) (u : Usage)
      → IsBounded (record_spawn py d signature now kind u)
  unfolding record_spawn
  record_spawn-IsBounded d signature now kind u =
      let b = normalize_ledger-IsBounded d signature now in
      record {
        agents = ground (arith, b.agents);
        advisors = ground (arith, b.advisors);
        workers = ground (arith, b.workers);
        jobs = ground (arith, b.jobs);
        reason_codes = length-with_code _ _ b.reason_codes;
        failures = b.failures;
        stamps = length-with_timestamp u.timestamp _ b.stamps;
        bytes_out = ground arith;
        bytes_in = ground arith;
      }
