-- ===== src/Maintenance/Settings.antt =====
-- The ranges of the queue's settings, whatever the environment holds.
use codex_ralph_vault_loop.Base.{ℕ, ◌≤◌, String, arith}
use codex_ralph_vault_loop.Base.Int.{ℤ, pos, ◌≤ℤ◌}
use codex_ralph_vault_loop.Python.{Library}
use codex_ralph_vault_loop.Maintenance.Host.{
  Host, clamp_setting, count_of, parsed_setting, int_env, max_entries, max_attempts,
}

clamp_setting_bounds :
    (value : ℤ) (lo hi : ℕ)
    → lo ≤ hi
    → (pos lo ≤ℤ clamp_setting value (pos lo) (pos hi))
      × (clamp_setting value (pos lo) (pos hi) ≤ℤ pos hi)
unfolding clamp_setting
clamp_setting_bounds value lo hi h = ground arith

count_of_bounds :
    (z : ℤ) (lo hi : ℕ) → pos lo ≤ℤ z → z ≤ℤ pos hi → (lo ≤ count_of z) × (count_of z ≤ hi)
count_of_bounds z lo hi h k = ground arith

module _ (py : Library) (host : Host) where
  setting_bounds :
      (name : String) (default : ℤ) (lo hi : ℕ)
      → lo ≤ hi
      → (lo ≤ count_of (int_env py host name default (pos lo) (pos hi)))
        × (count_of (int_env py host name default (pos lo) (pos hi)) ≤ hi)
  unfolding int_env
  setting_bounds name default lo hi h =
      let value : ℤ = parsed_setting py (host.env name) default in
      let b = clamp_setting_bounds value lo hi h in
      count_of_bounds (clamp_setting value (pos lo) (pos hi)) lo hi b.0 b.1

  pub max_attempts_bounds : (1 ≤ max_attempts py host) × (max_attempts py host ≤ 8)
  unfolding max_attempts
  max_attempts_bounds = setting_bounds "RALPH_MAINTENANCE_MAX_ATTEMPTS" (pos 3) 1 8 (omega arith)

  pub max_entries_bounds : (1 ≤ max_entries py host) × (max_entries py host ≤ 4096)
  unfolding max_entries
  max_entries_bounds = setting_bounds "RALPH_MAINTENANCE_MAX_ENTRIES" (pos 256) 1 4096 (omega arith)
