-- ===== src/AgentBudget/Fits.antt =====
-- A bounded packet is made, and keeps to its limit.
use codex_ralph_vault_loop.Base.{
  ℕ, zero, suc, ◌/◌, ◌≤◌, ◌<◌, ◌≡◌, refl, inl, inr, Bool, true, false, Option, some, List, [], ◌∷◌,
  String, text_length, length, leb, ltb, Bool-cases, leb→le, ltb→lt, arith, length-take,
  length-take_text,
}
use codex_ralph_vault_loop.Base.Int.{ℤ}
use codex_ralph_vault_loop.Python.{Library}
use codex_ralph_vault_loop.AgentBudget.Packet.{
  Packet, PacketRequest, chars_bytes, list_bytes, packet_bytes, is_bare, halve_longest, shrink,
  shrink_until, packet_weight, first_cut, fit_packet, packet_limit, whole_packet, bounded_packet,
}

chars_bytes-blank : (s : String) → text_length s ≡ 0 → chars_bytes s ≡ 0
unfolding chars_bytes
chars_bytes-blank String.[] h = refl
chars_bytes-blank (String.◌∷◌ c s) h = absurd (omega arith)

list_bytes-empty : (ss : List String) → length ss ≡ 0 → list_bytes ss ≡ 2
unfolding list_bytes
list_bytes-empty [] h = refl
list_bytes-empty (s ∷ ss) h = absurd (omega arith)

-- A bare packet is short.
packet_bytes-bare : (p : Packet) → is_bare p ≡ true → packet_bytes p ≤ 95
unfolding packet_bytes
packet_bytes-bare p h = ground (
  arith,
  chars_bytes-blank p.question,
  chars_bytes-blank p.context,
  chars_bytes-blank p.constraints,
  chars_bytes-blank p.output_format,
  list_bytes-empty p.files,
)

halve_longest-weight :
    (p : Packet)
    → length p.files ≡ 0
    → is_bare p ≡ false
    → packet_weight (halve_longest p) < packet_weight p
unfolding halve_longest packet_weight
halve_longest-weight p none_left h = ground (
  arith,
  length-take_text (text_length p.question / 2) p.question,
  length-take_text (text_length p.context / 2) p.context,
  length-take_text (text_length p.constraints / 2) p.constraints,
  length-take_text (text_length p.output_format / 2) p.output_format,
)

-- A round cuts something.
shrink-weight : (p : Packet) → is_bare p ≡ false → packet_weight (shrink p) < packet_weight p
unfolding shrink packet_weight
shrink-weight p h = elim (Bool-cases (ltb 0 (length p.files))) [
  | inl files ↦
      rw files
        (omega (arith, length-take (length p.files / 2) p.files, ltb→lt 0 (length p.files) files))
  | inr none_left ↦ rw none_left (halve_longest-weight p (ground arith) h)
]

-- The packet that is made, within a limit.
abbrev pub Made : ℕ → Option Packet → Type 0
Made limit o = (p : Packet) × (o ≡ some p) × (packet_bytes p ≤ limit)

-- Enough fuel ends the loop by its test: the guard for a bare packet is never needed.
shrink_until-Made :
    (fuel limit : ℕ) (p : Packet)
    → 256 ≤ limit
    → packet_weight p < fuel
    → Made limit (shrink_until fuel limit p)
unfolding shrink_until
shrink_until-Made zero limit p big h = absurd (omega arith)
shrink_until-Made (suc fuel) limit p big h = elim (Bool-cases (leb (packet_bytes p) limit)) [
  | inl short ↦ (p, rw short refl, leb→le _ _ short)
  | inr long ↦ elim (Bool-cases (is_bare p)) [
    | inl bare ↦ absurd (ground (arith, packet_bytes-bare p bare))
    | inr more ↦ rw long (
        rw more (shrink_until-Made fuel limit (shrink p) big (omega (arith, shrink-weight p more))))
  ]
]

fit_packet-Made : (limit : ℕ) (p : Packet) → 256 ≤ limit → Made limit (fit_packet limit p)
unfolding fit_packet
fit_packet-Made limit p big = elim (Bool-cases (leb (packet_bytes p) limit)) [
  | inl short ↦ (p, rw short refl, leb→le _ _ short)
  | inr long ↦ rw long (
      shrink_until-Made (suc (packet_weight (first_cut limit p))) limit (first_cut limit p) big
        (omega arith))
]

packet_limit-bounds :
    (py : Library) (is_red : String → Bool) (z : ℤ)
    → (256 ≤ packet_limit py is_red z) × (packet_limit py is_red z ≤ 4096)
unfolding packet_limit
packet_limit-bounds py is_red z = (ground arith, ground arith)

-- For any question, context, files, constraints and budget the loop ends, and its packet has at
-- most as many bytes as the limit, which lies between 256 and 4096.
pub bounded_packet-Made :
    (py : Library) (is_red : String → Bool) (r : PacketRequest)
    → Made (packet_limit py is_red r.budget_bytes) (bounded_packet py is_red r)
      × (256 ≤ packet_limit py is_red r.budget_bytes)
      × (packet_limit py is_red r.budget_bytes ≤ 4096)
unfolding bounded_packet
bounded_packet-Made py is_red r =
    let bounds = packet_limit-bounds py is_red r.budget_bytes in
    (
      fit_packet-Made (packet_limit py is_red r.budget_bytes) (whole_packet py is_red r) bounds.0,
      bounds.0,
      bounds.1,
    )
