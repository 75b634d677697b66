-- ===== src/AgentBudget/PacketTests.antt =====
-- Packets at a concrete request.
use codex_ralph_vault_loop.Base.{ℕ, ◌≤◌, ◌≡◌, refl, Bool, some, [], ◌∷◌, String, ◌==◌}
use codex_ralph_vault_loop.Base.Int.{pos}
use codex_ralph_vault_loop.AgentBudget.Ledger.{bounded_text, filled}
use codex_ralph_vault_loop.AgentBudget.Packet.{
  Packet, PacketRequest, chars_bytes, list_bytes, packet_bytes, halve_longest, shrink, shrink_until,
  packet_weight, fit_packet, shown_text, packet_limit, whole_packet, bounded_packet,
}
use codex_ralph_vault_loop.AgentBudget.Tests.{py}
use codex_ralph_vault_loop.AgentBudget.Fits.{Made, bounded_packet-Made}
use codex_ralph_vault_loop.AgentBudget.Cuts.{IsCut, bounded_packet-IsCut}

abbrev is_red : String → Bool
is_red s = s == "secret"

abbrev path : String
path = "src/a/rather/long/path/to/one/file/of/many/in/the/tree.py"

abbrev request : PacketRequest
request = record {
  question = "Is the queue safe?";
  context = "secret";
  files = path ∷ path ∷ path ∷ path ∷ path ∷ [];
  constraints = "Read only.";
  output_format = "Verdict; Evidence; Risks; Recommendation; Uncertainty";
  budget_bytes = pos 100;
}

abbrev made : Packet
made = record {
  question = "Is the queue safe?";
  context = "[redacted-local-only]";
  files = path ∷ [];
  constraints = "Read only.";
  output_format = "Verdict; Evidence; Risks; Recommendation; Uncertainty";
  budget_bytes = 256;
}

opened : ℕ
unfolding bounded_text filled chars_bytes list_bytes packet_bytes halve_longest shrink shrink_until
    packet_weight fit_packet shown_text packet_limit whole_packet bounded_packet
opened = 0

packs : bounded_packet py is_red request ≡ some made
unfolding opened
packs = refl

-- As `json.dumps` gives it.
bytes : packet_bytes made ≡ 255
unfolding opened
bytes = refl

bounded_packet-Made_example :
    Made (packet_limit py is_red request.budget_bytes) (bounded_packet py is_red request)
    × (256 ≤ packet_limit py is_red request.budget_bytes)
    × (packet_limit py is_red request.budget_bytes ≤ 4096)
bounded_packet-Made_example = bounded_packet-Made py is_red request

bounded_packet-IsCut_example : IsCut py is_red request made
bounded_packet-IsCut_example = bounded_packet-IsCut py is_red request packs
