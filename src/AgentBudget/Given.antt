-- ===== src/AgentBudget/Given.antt =====
-- What `bounded_packet` is given, written out for each part of a packet.
use codex_ralph_vault_loop.Base.{
  ℕ, ◌≡◌, refl, ap, min, max, Bool, true, false, List, [], ◌∷◌, map, String, is_empty, take_text,
  take, arith, if◌then◌else◌,
}
use codex_ralph_vault_loop.Base.Int.{ℤ, pos, negsuc}
use codex_ralph_vault_loop.Json.{text}
use codex_ralph_vault_loop.Python.{Library}
use codex_ralph_vault_loop.AgentBudget.Ledger.{words, bounded_text, filled}
use codex_ralph_vault_loop.AgentBudget.Packet.{
  Packet, PacketRequest, shown_text, packet_limit, whole_packet,
}

-- A text is the marker of a RED one, or a number of characters of one with single blanks.
abbrev pub IsShown : Library → Bool → String → ℕ → String → Type 0
IsShown py true s n t = t ≡ "[redacted-local-only]"
IsShown py false s n t = t ≡ take_text n (words py false false s)

-- The paths with single blanks, 180 characters of each, without the empty ones.
abbrev pub paths : Library → List String → List String
paths py [] = []
paths py (f ∷ fs) =
    let path = take_text 180 (words py false false f) in
    if is_empty path then paths py fs else path ∷ paths py fs

-- A budget between 256 and 4096 bytes.
abbrev pub budget_of : ℤ → ℕ
budget_of (pos n) = max 256 (min 4096 n)
budget_of (negsuc n) = 256

-- The packet that a request gives, before it is cut.
pub record IsGiven (py : Library) (is_red : String → Bool) (r : PacketRequest) (w : Packet)
    : Type 0 where
  pub shows_question : IsShown py (is_red r.question) r.question 800 w.question
  pub shows_context : IsShown py (is_red r.context) r.context 1600 w.context
  pub lists_files : w.files ≡ take 12 (paths py r.files)
  pub shows_constraints : IsShown py (is_red r.constraints) r.constraints 800 w.constraints
  pub shows_format : w.output_format ≡ take_text 240 (words py false false r.output_format)
  pub keeps_budget : w.budget_bytes ≡ budget_of r.budget_bytes

module _ (py : Library) where
  if_red :
      (red : Bool) (s : String) (n : ℕ)
      → IsShown py red s n (if red then "[redacted-local-only]" else bounded_text py (text s) n)
  unfolding bounded_text
  if_red true s n = refl
  if_red false s n = refl

  filled-paths :
      (fs : List String) → filled py (λ v. bounded_text py v 180) (map text fs) ≡ paths py fs
  unfolding filled bounded_text
  filled-paths [] = refl
  filled-paths (f ∷ fs) =
      let path = take_text 180 (words py false false f) in
      ap (λ rest. if is_empty path then rest else path ∷ rest) (filled-paths fs)

module _ (py : Library) (is_red : String → Bool) where
  packet_limit-budget_of : (z : ℤ) → packet_limit py is_red z ≡ budget_of z
  unfolding packet_limit
  packet_limit-budget_of (pos n) = omega arith
  packet_limit-budget_of (negsuc n) = omega arith

  pub whole_packet-IsGiven : (r : PacketRequest) → IsGiven py is_red r (whole_packet py is_red r)
  unfolding whole_packet shown_text bounded_text
  whole_packet-IsGiven r = record {
    shows_question = if_red py (is_red r.question) r.question 800;
    shows_context = if_red py (is_red r.context) r.context 1600;
    lists_files = ap (take 12) (filled-paths py r.files);
    shows_constraints = if_red py (is_red r.constraints) r.constraints 800;
    shows_format = refl;
    keeps_budget = packet_limit-budget_of r.budget_bytes;
  }
