-- ===== src/Store/Reread.antt =====
-- The emission ledger as the next reader finds it, behind a claim that has emitted.
use codex_ralph_vault_loop.Base.{
  ℕ, suc, ◌+◌, ◌≡◌, refl, ap, sym, subst, ◌∙◌, Bool, true, false, not, Option, none, some, List, [],
  ◌∷◌, snoc, length, String, ltb, leb, arith, if◌then◌else◌, if-cases,
}
use codex_ralph_vault_loop.Json.{Dict}
use codex_ralph_vault_loop.Python.{Library, ok, err, ok-injective}
use codex_ralph_vault_loop.Store.State.{encoded_size}
use codex_ralph_vault_loop.Store.Checked.{
  integrity, io, corrupt, Checked, bind-elim, require-pass, require-elim, ◌>>=◌,
}
use codex_ralph_vault_loop.Store.Files.{
  Lines, Write, succeeds, fails, fails_late, tears, corrupted, read_lines, read_jsonl, written,
  append_jsonl,
}
use codex_ralph_vault_loop.Store.Emission.{
  Emission, Key, same_key, is_key_in, emission_dict, validate_emission, context_ledger_key, has_key,
  check_distinct, read_emissions,
}
use codex_ralph_vault_loop.Store.Fixed.{bind-ok}

fits-here : (n more : ℕ) → ltb (n + more) 4096 ≡ true → ltb n 4096 ≡ true
fits-here n more h = ground arith

fits-next : (n more : ℕ) → ltb (n + suc more) 4096 ≡ true → ltb (suc n + more) 4096 ≡ true
fits-next n more h = ground arith

not-found :
    (test : Bool) (m : Checked Bool)
    → (if test then ok true else m) ≡ ok false
    → (test ≡ false) × (m ≡ ok false)
not-found true m h = cc
not-found false m h = (refl, h)

module _ (py : Library) (is_red : String → Bool) where
  pub read_lines-snoc :
      (n : ℕ) (ls : List (Option Dict)) (es : List Emission) (d : Dict) (e : Emission)
      → read_lines (validate_emission py is_red) 4096 n ls ≡ ok es
      → validate_emission py is_red d ≡ ok e
      → ltb (n + length es) 4096 ≡ true
      → read_lines (validate_emission py is_red) 4096 n (snoc ls (some d)) ≡ ok (snoc es e)
  unfolding read_lines corrupted ◌>>=◌
  read_lines-snoc n [] es d e h valid fits =
      subst (λ xs. read_lines (validate_emission py is_red) 4096 n (some d ∷ []) ≡ ok (snoc xs e))
        (ok-injective h)
        (require-pass corrupt (ltb n 4096) _ (fits-here n (length es) fits)
          ∙ bind-ok _ (ap corrupted valid))
  read_lines-snoc n (none ∷ ls) es d e h valid fits = cc
  read_lines-snoc n (some l ∷ ls) es d e h valid fits = bind-elim h λ _ p h. bind-elim h λ a q h.
      bind-elim h λ rest r h.
        let same : a ∷ rest ≡ es = ok-injective h in
        subst
          (λ xs.
            read_lines (validate_emission py is_red) 4096 n (some l ∷ snoc ls (some d))
            ≡ ok (snoc xs e))
          same
          (require-pass corrupt (ltb n 4096) _ (require-elim corrupt _ p)
            ∙ bind-ok _ q
            ∙ bind-ok _ (
                read_lines-snoc (suc n) ls rest d e r valid
                  (fits-next n (length rest) (rw (ap length same) fits))))

  pub check_distinct-snoc :
      (k : Key) (seen : List Key) (es : List Emission) (e : Emission)
      → context_ledger_key py is_red (emission_dict e) ≡ ok k
      → check_distinct py is_red seen es ≡ ok tt
      → has_key py is_red k es ≡ ok false
      → is_key_in k seen ≡ false
      → check_distinct py is_red seen (snoc es e) ≡ ok tt
  unfolding check_distinct has_key is_key_in
  check_distinct-snoc k seen [] e keyed h found fresh =
      bind-ok _ keyed ∙ require-pass integrity (not (is_key_in k seen)) _ (ap not fresh)
  check_distinct-snoc k seen (x ∷ es) e keyed h found fresh = bind-elim h λ j p h.
      bind-elim h λ _ distinct h. bind-elim found λ j' p' found.
        let same : j' ≡ j = ok-injective (sym p' ∙ p) in
        let (other, later) = not-found (same_key j' k) _ found in
        bind-ok _ p
        ∙ (require-pass integrity _ _ (require-elim integrity _ distinct)
            ∙ check_distinct-snoc k (j ∷ seen) es e keyed h later (absent j (rw (← same) other)))
    where
      absent : (j : Key) → same_key j k ≡ false → is_key_in k (j ∷ seen) ≡ false
      absent j other = rw other fresh

  pub read_emissions-parts :
      (f : Lines) (es : List Emission)
      → read_emissions py is_red f ≡ ok es
      → (f.readable ≡ true)
        × (read_lines (validate_emission py is_red) 4096 0 f.records ≡ ok es)
        × (not f.partial ≡ true)
  unfolding read_emissions read_jsonl
  read_emissions-parts f es h = bind-elim h λ r p h. bind-elim h λ _ whole h.
      bind-elim p λ _ readable p. bind-elim p λ _ _ p. bind-elim p λ records reads p.
        let same : records ≡ es =
          ap (λ (x : List Emission × Bool). x.0) (ok-injective p) ∙ ok-injective h in
        let end : f.partial ≡ r.1 = ap (λ (x : List Emission × Bool). x.1) (ok-injective p) in
        (
          require-elim io f.readable readable,
          rw (← same) reads,
          rw end (require-elim integrity (not r.1) whole),
        )

  pub read_emissions-of :
      (f : Lines) (es : List Emission)
      → f.readable ≡ true
      → leb f.bytes 4194304 ≡ true
      → read_lines (validate_emission py is_red) 4096 0 f.records ≡ ok es
      → not f.partial ≡ true
      → read_emissions py is_red f ≡ ok es
  unfolding read_emissions read_jsonl
  read_emissions-of f es readable small reads whole =
      bind-ok _ (
        require-pass io f.readable _ readable
        ∙ (require-pass io (leb f.bytes 4194304) _ small ∙ bind-ok _ reads))
      ∙ require-pass integrity (not f.partial) _ whole

  -- What a successful append has done.
  abbrev pub Appended : ℕ → Dict → Lines → Lines → Type 0
  Appended n d f g =
      (g.records ≡ snoc f.records (some d))
      × (leb g.bytes 4194304 ≡ true)
      × (g.readable ≡ f.readable)
      × (g.partial ≡ f.partial)
      × (ltb n 4096 ≡ true)

  written-Appended :
      (w : Write) (n size : ℕ) (d : Dict) (f : Lines)
      → ltb 4194304 (f.bytes + size) ≡ false
      → leb 4096 n ≡ false
      → (written w d size f).0 ≡ ok tt
      → Appended n d f (written w d size f).1
  unfolding written
  written-Appended succeeds n size d f small room h = (refl, ground arith, refl, refl, ground arith)
  written-Appended fails n size d f small room h = cc
  written-Appended fails_late n size d f small room h = cc
  written-Appended (tears m) n size d f small room h = cc

  pub append_jsonl-Appended :
      (w : Write) (n : ℕ) (d : Dict) (f : Lines)
      → (append_jsonl py w 2048 4194304 4096 n d f).0 ≡ ok tt
      → Appended n d f (append_jsonl py w 2048 4194304 4096 n d f).1
  unfolding append_jsonl
  append_jsonl-Appended w n d f =
      if-cases P (ltb 2048 size) (err io, f) _ (λ _ h. cc)
        (λ _.
          if-cases P (ltb 4194304 (f.bytes + size)) (err io, f) _ (λ _ h. cc)
            (λ small.
              if-cases P (leb 4096 n) (err io, f) (written w d size f) (λ _ h. cc)
                (λ room. written-Appended w n size d f small room)))
    where
      size : ℕ
      size = suc (encoded_size py d)

      P : Checked (Unit {0}) × Lines → Type 0
      P o = o.0 ≡ ok tt → Appended n d f o.1
