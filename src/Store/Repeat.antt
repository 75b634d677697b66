-- ===== src/Store/Repeat.antt =====
-- A claim that has emitted is a hit for the claims after it.
use codex_ralph_vault_loop.Base.{
  ℕ, ◌+◌, ◌≡◌, refl, ap, sym, ◌∙◌, inl, inr, Bool, true, false, Option, none, some, some-injective,
  List, [], snoc, length, String, ltb, arith, if◌then◌else◌, Bool-cases,
}
use codex_ralph_vault_loop.Json.{Dict}
use codex_ralph_vault_loop.Python.{Library, ok, err, ok-injective}
use codex_ralph_vault_loop.Store.Checked.{Checked, bind-elim}
use codex_ralph_vault_loop.Store.Files.{Lines, Write, read_lines}
use codex_ralph_vault_loop.Store.Emission.{
  Emission, key_of, is_key_in, emission_dict, validate_emission, has_key, check_distinct,
  read_emissions, read_context_ledger, is_hit, room_for, planned, carried_out,
  claim_context_emission, has_context_emission,
}
use codex_ralph_vault_loop.Store.Fixed.{bind-ok, validate_emission-fixed, context_ledger_key-fixed}
use codex_ralph_vault_loop.Store.Claims.{room-some, Holds, Holds-last, has_key-Holds}
use codex_ralph_vault_loop.Store.Reread.{
  read_lines-snoc, check_distinct-snoc, read_emissions-parts, read_emissions-of, Appended,
  append_jsonl-Appended,
}

no-room :
    (found : Bool) (n m : ℕ)
    → ◌≡◌ {A = Option ℕ} (if found then none else some n) (some m)
    → (found ≡ false) × (n ≡ m)
no-room true n m h = cc
no-room false n m h = (refl, some-injective h)

first_fits : (m n : ℕ) → m ≡ n → ltb n 4096 ≡ true → ltb (0 + m) 4096 ≡ true
first_fits m n same fits = ground arith

module _ (py : Library) (is_red : String → Bool) where
  -- What a claim that is going to append has read, where its two looks are of one ledger.
  abbrev Read : Emission → ℕ → Lines → List Emission → Type 0
  Read e n f es =
      (read_emissions py is_red f ≡ ok es)
      × (has_key py is_red (key_of e) es ≡ ok false)
      × (length es ≡ n)
      × (check_distinct py is_red [] es ≡ ok tt)

  planned-Read :
      (is_safe : Bool) (d : Dict) (f : Lines) (e : Emission) (n : ℕ)
      → planned py is_red is_safe d f f ≡ ok (some (e, n))
      → (validate_emission py is_red d ≡ ok e) × ((es : List Emission) × Read e n f es)
  unfolding planned is_hit read_context_ledger room_for
  planned-Read is_safe d f e n h = bind-elim h λ e' valid h. bind-elim h λ k keyed h.
      bind-elim h λ hit looked h. bind-elim looked λ es look _. bind-elim look λ es' first look.
        bind-elim look λ _ distinct _. elim (Bool-cases hit) [
          | inl t ↦ let wrong = rw t at h in cc
          | inr t ↦ bind-elim (rw t at h) λ _ _ h. bind-elim h λ room second h.
              let (fits, same) = room-some room e' e n (ok-injective h) in
              let key : k ≡ key_of e =
                ok-injective (sym keyed ∙ context_ledger_key-fixed py is_red d valid)
                ∙ ap key_of same in
              bind-elim second λ es'' again second. bind-elim second λ found there second.
                let one : es'' ≡ es' = ok-injective (sym again ∙ first) in
                let (absent, count) = no-room found (length es'') n (ok-injective second ∙ fits) in
                (
                  rw (← same) valid,
                  (
                    es',
                    (
                      first,
                      rw (← one) (rw (← key) (there ∙ ap ok absent)),
                      rw (← one) count,
                      distinct,
                    ),
                  ),
                )
        ]

  -- The ledger behind an append.
  Appended-Read :
      (d : Dict) (e : Emission) (n : ℕ) (f g : Lines) (es : List Emission)
      → validate_emission py is_red d ≡ ok e
      → Read e n f es
      → Appended py is_red n (emission_dict e) f g
      → is_hit py is_red (key_of e) g ≡ ok true
  unfolding is_hit read_context_ledger is_key_in
  Appended-Read d e n f g es valid (reads, absent, count, distinct)
        (lines, small, readable, whole, fits) =
      let (f_readable, f_reads, f_whole) = read_emissions-parts py is_red f es reads in
      let fixed = validate_emission-fixed py is_red d valid in
      let g_reads : read_lines (validate_emission py is_red) 4096 0 g.records ≡ ok (snoc es e) =
        rw lines (
          read_lines-snoc py is_red 0 f.records es (emission_dict e) e f_reads fixed
            (first_fits (length es) n count fits)) in
      let holds : Holds py is_red (key_of e) g.records =
        rw lines
          (Holds-last py is_red (key_of e) f.records (some (emission_dict e)) (e, fixed, refl)) in
      let records =
        read_emissions-of py is_red g (snoc es e) (rw readable f_readable) small g_reads
          (rw whole f_whole) in
      let unique =
        check_distinct-snoc py is_red (key_of e) [] es e
          (context_ledger_key-fixed py is_red d valid) distinct absent refl in
      bind-ok _ (bind-ok _ records ∙ bind-ok _ unique)
      ∙ has_key-Holds py is_red (key_of e) 0 g.records (snoc es e) g_reads holds

  claim_again :
      (d : Dict) (e : Emission) (g : Lines)
      → validate_emission py is_red d ≡ ok e
      → is_hit py is_red (key_of e) g ≡ ok true
      → (has_context_emission py is_red d g ≡ ok true)
        × ((is_safe : Bool) (w : Write) (f : Lines)
            → claim_context_emission py is_red is_safe w d g f ≡ (ok false, f))
  unfolding has_context_emission claim_context_emission planned
  claim_again d e g valid hit =
      let keyed = context_ledger_key-fixed py is_red d valid in
      (
        bind-ok _ valid ∙ (bind-ok _ keyed ∙ hit),
        λ is_safe w f.
            ap (λ p. carried_out py is_red p w f)
              (bind-ok _ valid ∙ (bind-ok _ keyed ∙ bind-ok _ hit)),
      )

  emitted-hit :
      (is_safe : Bool) (w : Write) (d : Dict) (f : Lines) (p : Checked (Option (Emission × ℕ)))
      → planned py is_red is_safe d f f ≡ p
      → (carried_out py is_red p w f).0 ≡ ok true
      → (e : Emission) × (validate_emission py is_red d ≡ ok e)
        × (is_hit py is_red (key_of e) (carried_out py is_red p w f).1 ≡ ok true)
  emitted-hit is_safe w d f (err raised) plan h = cc
  emitted-hit is_safe w d f (ok none) plan h = cc
  emitted-hit is_safe w d f (ok (some (e, n))) plan h =
      let (valid, (es, read)) = planned-Read is_safe d f e n plan in
      bind-elim h λ _ appended _. (
        e,
        valid,
        Appended-Read d e n f _ es valid read
            (append_jsonl-Appended py is_red w n (emission_dict e) f appended),
      )

  claim-hit :
      (is_safe : Bool) (w : Write) (d : Dict) (f : Lines)
      → (claim_context_emission py is_red is_safe w d f f).0 ≡ ok true
      → (e : Emission) × (validate_emission py is_red d ≡ ok e)
        × (is_hit py is_red (key_of e) (claim_context_emission py is_red is_safe w d f f).1
            ≡ ok true)
  unfolding claim_context_emission
  claim-hit is_safe w d f = emitted-hit is_safe w d f _ refl

  -- A claim that emits, where nobody wrote between its look and its lock, leaves a ledger in which
  -- its record is found; and a further claim of the record that sees this ledger emits nothing and
  -- writes nothing, whatever the layout, the write and the ledger under its lock are.
  pub claim_context_emission-repeat :
      (is_safe : Bool) (w : Write) (d : Dict) (f : Lines)
      → (claim_context_emission py is_red is_safe w d f f).0 ≡ ok true
      → let g = (claim_context_emission py is_red is_safe w d f f).1 in
        (has_context_emission py is_red d g ≡ ok true)
        × ((is_safe' : Bool) (w' : Write) (f' : Lines)
            → claim_context_emission py is_red is_safe' w' d g f' ≡ (ok false, f'))
  claim_context_emission-repeat is_safe w d f h =
      let (e, valid, hit) = claim-hit is_safe w d f h in claim_again d e _ valid hit
