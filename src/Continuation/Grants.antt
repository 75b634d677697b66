-- ===== src/Continuation/Grants.antt =====
-- How often a scope is allowed to continue.
use codex_ralph_vault_loop.Base.{
  ℕ, suc, ◌+◌, ◌≤◌, ◌≡◌, refl, ap, ◌∙◌, ◌⊎◌, inl, inr, true, false, Option, none, some, String,
  arith, Bool-cases, if◌then◌else◌, if-cases, if-keeps, ltb,
}
use codex_ralph_vault_loop.Base.Int.{ℤ, pos, negsuc, ◌+ℤ◌}
use codex_ralph_vault_loop.Json.{Json, int, obj, Dict, end, get, set}
use codex_ralph_vault_loop.Json.Eq.{json_eq}
use codex_ralph_vault_loop.Python.{Library, Result, ok, err, Exception, os_error}
use codex_ralph_vault_loop.Maintenance.Host.{Publication, fails, fails_late, succeeds}
use codex_ralph_vault_loop.Continuation.State.{
  Process, Access, StateFile, holds, Site, Loaded, trim, payload, entries_of, published,
  max_state_bytes, atomic_json,
}
use codex_ralph_vault_loop.Continuation.Reserve.{
  Request, Reservation, entry_of, desired_entry, same_entry, count_of, is_allowed, next_count,
  reservation, after_write, is_changed, with_count,
}
use codex_ralph_vault_loop.Continuation.Entries.{
  entries_of-payload, get-set_self, same_entry-count, count-next, same_entry-end, count_of-there,
}

abbrev pub or_end : Option Dict → Dict
or_end none = end
or_end (some d) = d

-- The entries that a state file holds.
abbrev pub stored : StateFile → Dict
stored (holds v) = or_end (entries_of v)
stored _ = end

abbrev pub natural : ℤ → ℕ
natural (pos n) = n
natural (negsuc n) = 0

abbrev pub or_zero : Result Exception ℤ → ℕ
or_zero (ok z) = natural z
or_zero (err e) = 0

-- The count that an entry holds, and that a place holds for a scope.
abbrev pub held_by : Library → Dict → ℕ
held_by py d = or_zero (count_of py d)

abbrev pub held : Library → String → Site → ℕ
held py key site = held_by py (entry_of (get key (stored site.state)))

-- One if a reservation was made that allows the continuation.
abbrev pub granted : Option Reservation → ℕ
granted none = 0
granted (some r) = if r.allowed then 1 else 0

-- A call counts what it grants, and grants up to a count of two.
pub record IsCounted (py : Library) (key : String) (before : Site) (o : Option Reservation)
    (after : Site) : Type 0 where
  pub counts : granted o + held py key before ≤ held py key after
  pub limits : granted o ≡ 1 → held py key after ≤ 2

-- The entry of the scope is there with a count, or it is not there at all.
abbrev pub HasCount : Dict → Type 0
HasCount d = (d ≡ end) ⊎ ((v : Json) × (get "count" d ≡ some v))

pub IsCounted-refused :
    (py : Library) (key : String) (site : Site) → IsCounted py key site none site
IsCounted-refused py key site = record { counts = omega arith; limits = λ h. absurd (omega arith) }

module _ (py : Library) (q : Request) (current : Dict) where
  -- What is allowed has a count of zero or one, and gets the next.
  is_allowed-count :
      (c : ℤ)
      → is_allowed py q current c ≡ true
      → (k : ℕ) × (c ≡ pos k) × (k ≤ 1) × (next_count py q current c ≡ pos (suc k))
  unfolding ◌+ℤ◌
  is_allowed-count (pos n) h = (n, refl, ground arith, ground arith)
  is_allowed-count (negsuc n) h = absurd (ground arith)

  next_count-grows :
      (c : ℤ)
      → (if is_allowed py q current c then 1 else 0) + natural c
        ≤ natural (next_count py q current c)
  next_count-grows c = elim (Bool-cases (is_allowed py q current c)) [
    | inl yes_ ↦
        let (k, same, few, next) = is_allowed-count c yes_ in rw yes_ (ground (arith, same, next))
    | inr refused ↦ rw refused (omega arith)
  ]

  next_count-limit :
      (c : ℤ) → is_allowed py q current c ≡ true → natural (next_count py q current c) ≤ 2
  next_count-limit c h = let (k, same, few, next) = is_allowed-count c h in rw next (omega arith)

  -- An entry with a count is not left as it is where the continuation is allowed.
  same_entry-differs :
      (c now : ℤ)
      → HasCount current
      → count_of py current ≡ ok c
      → is_allowed py q current c ≡ true
      → same_entry current (desired_entry q (next_count py q current c) now) ≡ true
      → ⊥
  same_entry-differs c now (inl gone) read h same =
      let differs = same_entry-end q (next_count py q current c) now in
      let equal = ap (λ d. same_entry d (desired_entry q (next_count py q current c) now)) gone in
      cc
  same_entry-differs c now (inr (v, there)) read h same =
      let (k, counted, few, next) = is_allowed-count c h in
      let reading = count_of-there py current v there read ∙ ap ok counted in
      let differs = count-next py v k reading in
      let equal = same_entry-count current q (next_count py q current c) now v same there in
      let again = ap (λ z. json_eq v (int z)) next in cc

-- A property of all that a publication may come to.
module _ (R : Result Exception (Unit {0}) × Site → Type 0) (v : Json) (site : Site)
    (kept : R (err os_error, site)) (late : R (err os_error, record site { state = holds v }))
    (done : R (ok tt, record site { state = holds v })) where
  published-keeps : (publication : Publication) → R (published publication v site)
  published-keeps fails = kept
  published-keeps fails_late = late
  published-keeps succeeds = done

  atomic_json-keeps : (p : Process) (a : Access) → R (atomic_json p a v site)
  unfolding atomic_json
  atomic_json-keeps p a =
      if-keeps R (ltb max_state_bytes (p.encoded_size v)) (err os_error, site)
        (published a.publication v site) kept (published-keeps a.publication)

module _ (py : Library) (p : Process) (a : Access) (q : Request) (loaded : Loaded)
    (site : Site) where
  abbrev key : String
  key = q.scope.scope_key

  abbrev trimmed : Dict
  trimmed = trim py p loaded.entries

  abbrev entry : Dict
  entry = entry_of (get key trimmed)

  abbrev Counted : Option Reservation × Site → Type 0
  Counted o = IsCounted py key site o.0 o.1

  module _ (c : ℤ) (before : held py key site ≡ natural c) where
    abbrev next : ℤ
    next = next_count py q entry c

    abbrev written : Json
    written = obj (payload p.now (set key (obj (desired_entry q next p.now)) trimmed))

    abbrev rewritten : Site
    rewritten = record site { state = holds written }

    held-written : held py key rewritten ≡ natural next
    unfolding get
    held-written =
        ap (λ o. held_by py (entry_of (get key (or_end o))))
          (entries_of-payload p.now (set key (obj (desired_entry q next p.now)) trimmed))
        ∙ ap (λ o. held_by py (entry_of o))
            (get-set_self key (obj (desired_entry q next p.now)) trimmed)

    -- The state is written, or an error is raised before or behind the replacement.
    IsCounted-written :
        Counted (
          after_write (atomic_json p a written site) (reservation py q entry c loaded.corrupt true))
    IsCounted-written =
        atomic_json-keeps
          (λ m. Counted (after_write m (reservation py q entry c loaded.corrupt true))) written site
          (IsCounted-refused py key site)
          (record {
            counts =
                let grown = next_count-grows py q entry c in
                rw (held-written, before) (ground arith);
            limits = λ h. absurd (omega arith);
          })
          (record {
            counts = rw (held-written, before) (next_count-grows py q entry c);
            limits = λ h. rw held-written (limited h);
          })
          p a
      where
        limited : ◌≡◌ {A = ℕ} (if is_allowed py q entry c then 1 else 0) 1 → natural next ≤ 2
        limited h = elim (Bool-cases (is_allowed py q entry c)) [
          | inl allowed ↦ next_count-limit py q entry c allowed
          | inr refused ↦ let wrong = rw refused at h in absurd (omega arith)
        ]

    -- The state stays as it is, and nothing was allowed.
    IsCounted-same :
        HasCount entry
        → count_of py entry ≡ ok c
        → is_changed loaded trimmed entry (desired_entry q next p.now) ≡ false
        → Counted (some (reservation py q entry c loaded.corrupt false), site)
    IsCounted-same has read same =
        let agrees : same_entry entry (desired_entry q next p.now) ≡ true = ground arith in
        let refused : is_allowed py q entry c ≡ false =
          elim (Bool-cases (is_allowed py q entry c)) [
            | inl allowed ↦ absurd (same_entry-differs py q entry c p.now has read allowed agrees)
            | inr refused ↦ refused
          ] in
        record {
          counts = rw refused (omega arith);
          limits = λ h. let wrong = rw refused at h in absurd (omega arith);
        }

    pub IsCounted-count :
        HasCount entry → count_of py entry ≡ ok c → Counted (with_count py (ok c) p a q loaded site)
    IsCounted-count has read =
        if-cases Counted (is_changed loaded trimmed entry (desired_entry q next p.now))
          (after_write (atomic_json p a written site)
            (reservation py q entry c loaded.corrupt true))
          (some (reservation py q entry c loaded.corrupt false), site)
          (λ changed. IsCounted-written) (IsCounted-same has read)
