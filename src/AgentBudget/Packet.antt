-- ===== src/AgentBudget/Packet.antt =====
-- `bounded_packet` and `packet_bytes` of agent_budget.py.
use Prim.Native.Char.{code}
use codex_ralph_vault_loop.Base.{
  ℕ, zero, suc, ◌+◌, ◌/◌, max, min, Bool, ◌&&◌, ◌||◌, Option, none, some, List, [], ◌∷◌, map,
  String, text_length, take_text, length, take, ltb, leb, eqb, if◌then◌else◌,
}
use codex_ralph_vault_loop.Base.Int.{ℤ}
use codex_ralph_vault_loop.Json.{text}
use codex_ralph_vault_loop.Python.{Library}
use codex_ralph_vault_loop.AgentBudget.Ledger.{clamp, bounded_text, filled}

abbrev pub max_packet_bytes : ℕ
max_packet_bytes = 4096

pub record Packet : Type 0 where
  pub question : String
  pub context : String
  pub files : List String
  pub constraints : String
  pub output_format : String
  pub budget_bytes : ℕ

-- The arguments of `bounded_packet`.
pub record PacketRequest : Type 0 where
  pub question : String
  pub context : String
  pub files : List String
  pub constraints : String
  pub output_format : String
  pub budget_bytes : ℤ

-- The bytes of a character in a JSON text that is kept to ASCII: a letter, an escape of two
-- characters, `\uXXXX`, or a pair of those.
abbrev char_bytes : ℕ → ℕ
char_bytes c =
    if eqb c 34 || (eqb c 92 || ((leb 8 c && leb c 10) || (eqb c 12 || eqb c 13)))
    then 2
    else if leb 32 c && leb c 126
    then 1
    else if ltb c 65536
    then 6
    else 12

unfoldable pub chars_bytes : String → ℕ
chars_bytes String.[] = 0
chars_bytes (String.◌∷◌ c s) = char_bytes (code c) + chars_bytes s

-- A text with its two quotes.
abbrev pub text_bytes : String → ℕ
text_bytes s = 2 + chars_bytes s

-- The items of a list with the commas before them.
abbrev more_bytes : List String → ℕ
more_bytes [] = 0
more_bytes (s ∷ ss) = 1 + text_bytes s + more_bytes ss

-- A list with its brackets.
unfoldable pub list_bytes : List String → ℕ
list_bytes [] = 2
list_bytes (s ∷ ss) = 2 + text_bytes s + more_bytes ss

-- The digits of a number below 10000.
abbrev digits : ℕ → ℕ
digits n = if ltb n 10 then 1 else if ltb n 100 then 2 else if ltb n 1000 then 3 else 4

-- `packet_bytes`: the six keys with their quotes, colons and commas, and the values.
unfoldable pub packet_bytes : Packet → ℕ
packet_bytes p =
    81
    + digits p.budget_bytes
    + text_bytes p.constraints
    + text_bytes p.context
    + list_bytes p.files
    + text_bytes p.output_format
    + text_bytes p.question

abbrev is_blank : String → Bool
is_blank s = eqb (text_length s) 0

-- There are neither files nor candidates.
abbrev pub is_bare : Packet → Bool
is_bare p =
    eqb (length p.files) 0
    && (is_blank p.question
        && (is_blank p.context && (is_blank p.constraints && is_blank p.output_format)))

-- `value[: len(value) // 2]`
abbrev pub halved : String → String
halved s = take_text (text_length s / 2) s

-- The longest of the four texts is halved, the first of equally long ones.
unfoldable pub halve_longest : Packet → Packet
halve_longest p =
    let a = text_length p.question in
    let b = text_length p.context in
    let c = text_length p.constraints in
    let d = text_length p.output_format in
    if leb b a && (leb c a && leb d a)
    then record p { question = halved p.question }
    else if leb c b && leb d b
    then record p { context = halved p.context }
    else if leb d c
    then record p { constraints = halved p.constraints }
    else record p { output_format = halved p.output_format }

-- One round of the loop, where something is left to cut.
unfoldable pub shrink : Packet → Packet
unfolding halve_longest
shrink p =
    if ltb 0 (length p.files)
    then record p { files = take (length p.files / 2) p.files }
    else halve_longest p

abbrev pub cleared : Packet → Packet
cleared p = record p {
  question = "";
  context = "";
  files = [];
  constraints = "";
  output_format = "";
}

-- `while encoded_size() > limit`, on fuel
unfoldable pub shrink_until : ℕ → ℕ → Packet → Option Packet
shrink_until zero limit p = none
shrink_until (suc fuel) limit p =
    let rest = shrink_until fuel limit (shrink p) in
    if leb (packet_bytes p) limit then some p else if is_bare p then some (cleared p) else rest

-- What is left to cut.
unfoldable pub packet_weight : Packet → ℕ
packet_weight p =
    length p.files
    + text_length p.question
    + text_length p.context
    + text_length p.constraints
    + text_length p.output_format

-- The first cut of every text.
abbrev pub first_cut : ℕ → Packet → Packet
first_cut limit p = record {
  question = take_text (limit / 4) p.question;
  context = take_text (limit / 3) p.context;
  files = take 4 p.files;
  constraints = take_text (limit / 6) p.constraints;
  output_format = p.output_format;
  budget_bytes = p.budget_bytes;
}

unfoldable pub fit_packet : ℕ → Packet → Option Packet
unfolding shrink_until packet_weight
fit_packet limit p =
    if leb (packet_bytes p) limit
    then some p
    else shrink_until (suc (packet_weight (first_cut limit p))) limit (first_cut limit p)

module _ (py : Library) (is_red : String → Bool) where
  -- `"[redacted-local-only]" if is_red(s) else _bounded_text(s, n)`
  unfoldable pub shown_text : String → ℕ → String
  shown_text s n = if is_red s then "[redacted-local-only]" else bounded_text py (text s) n

  -- `max(256, min(MAX_PACKET_BYTES, _ints(budget_bytes, default=MAX_PACKET_BYTES)))`
  unfoldable pub packet_limit : ℤ → ℕ
  packet_limit budget_bytes = max 256 (min max_packet_bytes (clamp 2147483647 budget_bytes))

  unfoldable pub whole_packet : PacketRequest → Packet
  whole_packet r = record {
    question = shown_text r.question 800;
    context = shown_text r.context 1600;
    files = take 12 (filled py (λ v. bounded_text py v 180) (map text r.files));
    constraints = shown_text r.constraints 800;
    output_format = bounded_text py (text r.output_format) 240;
    budget_bytes = packet_limit r.budget_bytes;
  }

  -- `bounded_packet`
  unfoldable pub bounded_packet : PacketRequest → Option Packet
  unfolding fit_packet packet_limit whole_packet
  bounded_packet r = fit_packet (packet_limit r.budget_bytes) (whole_packet r)
