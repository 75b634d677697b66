-- ===== src/AgentBudget/Cuts.antt =====
-- A bounded packet holds nothing but beginnings of what it was given, with RED texts withheld.
use codex_ralph_vault_loop.Base.{
  ℕ, zero, suc, ◌/◌, ◌<◌, ◌≡◌, refl, sym, ◌⊎◌, inl, inr, Bool, Bool-cases, some-injective, arith,
  ◌&&◌, Option, none, some, List, [], ◌∷◌, String, text_length, take_text, length, take, leb, ltb,
  if-keeps, subst,
}
use codex_ralph_vault_loop.Python.{Library}
use codex_ralph_vault_loop.AgentBudget.Packet.{
  Packet, PacketRequest, packet_bytes, is_bare, halve_longest, shrink, cleared, shrink_until,
  packet_weight, first_cut, fit_packet, packet_limit, whole_packet, bounded_packet, halved,
}
use codex_ralph_vault_loop.AgentBudget.Given.{IsGiven, whole_packet-IsGiven}

-- A text begins another.
abbrev pub Begins : String → String → Type 0
Begins String.[] t = Unit
Begins (String.◌∷◌ c s) String.[] = ⊥
Begins (String.◌∷◌ c s) (String.◌∷◌ d t) = (c ≡ d) × Begins s t

abbrev pub BeginsList : List String → List String → Type 0
BeginsList [] ys = Unit
BeginsList (x ∷ xs) [] = ⊥
BeginsList (x ∷ xs) (y ∷ ys) = (x ≡ y) × BeginsList xs ys

Begins-refl : (s : String) → Begins s s
Begins-refl String.[] = tt
Begins-refl (String.◌∷◌ c s) = (refl, Begins-refl s)

Begins-take_text : (n : ℕ) (s t : String) → Begins s t → Begins (take_text n s) t
Begins-take_text zero s t h = tt
Begins-take_text (suc n) String.[] t h = tt
Begins-take_text (suc n) (String.◌∷◌ c s) String.[] h = h
Begins-take_text (suc n) (String.◌∷◌ c s) (String.◌∷◌ d t) h = (h.0, Begins-take_text n s t h.1)

BeginsList-refl : (xs : List String) → BeginsList xs xs
BeginsList-refl [] = tt
BeginsList-refl (x ∷ xs) = (refl, BeginsList-refl xs)

BeginsList-take : (n : ℕ) (xs ys : List String) → BeginsList xs ys → BeginsList (take n xs) ys
BeginsList-take zero xs ys h = tt
BeginsList-take (suc n) [] ys h = tt
BeginsList-take (suc n) (x ∷ xs) [] h = h
BeginsList-take (suc n) (x ∷ xs) (y ∷ ys) h = (h.0, BeginsList-take n xs ys h.1)

-- Every part of a packet begins the part of another.
pub record IsPart (q p : Packet) : Type 0 where
  pub question_begins : Begins p.question q.question
  pub context_begins : Begins p.context q.context
  pub files_begin : BeginsList p.files q.files
  pub constraints_begin : Begins p.constraints q.constraints
  pub format_begins : Begins p.output_format q.output_format
  pub same_budget : p.budget_bytes ≡ q.budget_bytes

IsPart-refl : (p : Packet) → IsPart p p
IsPart-refl p = record {
  question_begins = Begins-refl p.question;
  context_begins = Begins-refl p.context;
  files_begin = BeginsList-refl p.files;
  constraints_begin = Begins-refl p.constraints;
  format_begins = Begins-refl p.output_format;
  same_budget = refl;
}

module _ (q : Packet) where
  halve_longest-IsPart : (p : Packet) → IsPart q p → IsPart q (halve_longest p)
  unfolding halve_longest
  halve_longest-IsPart p h =
      let a = text_length p.question in
      let b = text_length p.context in
      let c = text_length p.constraints in
      let d = text_length p.output_format in
      if-keeps (IsPart q) (leb b a && (leb c a && leb d a))
        (record p { question = halved p.question }) _
        (record {
          question_begins =
              Begins-take_text (text_length p.question / 2) p.question q.question h.question_begins;
          context_begins = h.context_begins;
          files_begin = h.files_begin;
          constraints_begin = h.constraints_begin;
          format_begins = h.format_begins;
          same_budget = h.same_budget;
        })
        (if-keeps (IsPart q) (leb c b && leb d b) (record p { context = halved p.context }) _
          (record {
            question_begins = h.question_begins;
            context_begins =
                Begins-take_text (text_length p.context / 2) p.context q.context h.context_begins;
            files_begin = h.files_begin;
            constraints_begin = h.constraints_begin;
            format_begins = h.format_begins;
            same_budget = h.same_budget;
          })
          (if-keeps (IsPart q) (leb d c) (record p { constraints = halved p.constraints })
            (record p { output_format = halved p.output_format })
            (record {
              question_begins = h.question_begins;
              context_begins = h.context_begins;
              files_begin = h.files_begin;
              constraints_begin =
                  Begins-take_text (text_length p.constraints / 2) p.constraints q.constraints
                    h.constraints_begin;
              format_begins = h.format_begins;
              same_budget = h.same_budget;
            })
            (record {
              question_begins = h.question_begins;
              context_begins = h.context_begins;
              files_begin = h.files_begin;
              constraints_begin = h.constraints_begin;
              format_begins =
                  Begins-take_text (text_length p.output_format / 2) p.output_format q.output_format
                    h.format_begins;
              same_budget = h.same_budget;
            })))

  shrink-IsPart : (p : Packet) → IsPart q p → IsPart q (shrink p)
  unfolding shrink
  shrink-IsPart p h =
      if-keeps (IsPart q) (ltb 0 (length p.files))
        (record p { files = take (length p.files / 2) p.files }) (halve_longest p)
        (record {
          question_begins = h.question_begins;
          context_begins = h.context_begins;
          files_begin = BeginsList-take (length p.files / 2) p.files q.files h.files_begin;
          constraints_begin = h.constraints_begin;
          format_begins = h.format_begins;
          same_budget = h.same_budget;
        })
        (halve_longest-IsPart p h)

  cleared-IsPart : (p : Packet) → IsPart q p → IsPart q (cleared p)
  cleared-IsPart p h = record {
    question_begins = tt;
    context_begins = tt;
    files_begin = tt;
    constraints_begin = tt;
    format_begins = tt;
    same_budget = h.same_budget;
  }

  first_cut-IsPart : (limit : ℕ) (p : Packet) → IsPart q p → IsPart q (first_cut limit p)
  first_cut-IsPart limit p h = record {
    question_begins = Begins-take_text (limit / 4) p.question q.question h.question_begins;
    context_begins = Begins-take_text (limit / 3) p.context q.context h.context_begins;
    files_begin = BeginsList-take 4 p.files q.files h.files_begin;
    constraints_begin =
        Begins-take_text (limit / 6) p.constraints q.constraints h.constraints_begin;
    format_begins = h.format_begins;
    same_budget = h.same_budget;
  }

  abbrev PartIfMade : Option Packet → Type 0
  PartIfMade none = Unit
  PartIfMade (some p) = IsPart q p

  shrink_until-IsPart :
      (fuel limit : ℕ) (p : Packet) → IsPart q p → PartIfMade (shrink_until fuel limit p)
  unfolding shrink_until
  shrink_until-IsPart zero limit p h = tt
  shrink_until-IsPart (suc fuel) limit p h =
      if-keeps PartIfMade (leb (packet_bytes p) limit) (some p) _ h (
        if-keeps PartIfMade (is_bare p) (some (cleared p)) _ (cleared-IsPart p h)
          (shrink_until-IsPart fuel limit (shrink p) (shrink-IsPart p h)))

fit_packet-IsPart : (limit : ℕ) (p : Packet) → PartIfMade p (fit_packet limit p)
unfolding fit_packet
fit_packet-IsPart limit p =
    if-keeps (PartIfMade p) (leb (packet_bytes p) limit) (some p) _ (IsPart-refl p) (
      shrink_until-IsPart p (suc (packet_weight (first_cut limit p))) limit (first_cut limit p)
        (first_cut-IsPart p limit p (IsPart-refl p)))

-- A packet is what a request gives, or where that has more bytes than its budget, a part of it.
abbrev pub IsCut : Library → (String → Bool) → PacketRequest → Packet → Type 0
IsCut py is_red r p =
    (w : Packet) × IsGiven py is_red r w
    × IsPart w p
    × ((p ≡ w) ⊎ (w.budget_bytes < packet_bytes w))

fit_packet-fits :
    (limit : ℕ) (w : Packet) {p : Packet}
    → fit_packet limit w ≡ some p
    → (p ≡ w) ⊎ (limit < packet_bytes w)
unfolding fit_packet
fit_packet-fits limit w e = elim (Bool-cases (leb (packet_bytes w) limit)) [
  | inl fits ↦ inl (some-injective (sym (rw fits at e)))
  | inr large ↦ inr (ground arith)
]

-- A packet that is returned is the packet of the request, if that has at most as many bytes in JSON
-- as its budget, and else begins it in each text and in the list of files. The packet of the request
-- shows the question, the context and the constraints with single blanks, at most 800, 1600 and 800
-- characters of them, or the marker of a text that is RED; it has the first 12 paths that are not
-- empty, 180 characters of each, 240 characters of the output format, and a budget that is the
-- request's within 256 and 4096.
pub bounded_packet-IsCut :
    (py : Library) (is_red : String → Bool) (r : PacketRequest) {p : Packet}
    → bounded_packet py is_red r ≡ some p
    → IsCut py is_red r p
unfolding bounded_packet whole_packet
bounded_packet-IsCut py is_red r e =
    let w = whole_packet py is_red r in
    let limit = packet_limit py is_red r.budget_bytes in
    (
      w,
      whole_packet-IsGiven py is_red r,
      subst (PartIfMade w) e (fit_packet-IsPart limit w),
      fit_packet-fits limit w e,
    )
