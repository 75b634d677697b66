-- ===== src/Continuation/Evidence.antt =====
-- What a second continuation wants, and what a caller learns of a failure.
use codex_ralph_vault_loop.Base.{
  ◌≡◌, refl, ap, Bool, true, false, not, ◌||◌, Option, none, some, is_empty, arith, if-keeps, ◌⊎◌,
  zero, suc, inl, inr,
}
use codex_ralph_vault_loop.Base.Int.{ℤ, pos, negsuc, ◌+ℤ◌}
use codex_ralph_vault_loop.Json.{Dict, obj, get, set}
use codex_ralph_vault_loop.Python.{Library, Result, ok, err, Exception}
use codex_ralph_vault_loop.Continuation.State.{
  Process, Access, Site, Loaded, load, atomic_json, trim, payload,
}
use codex_ralph_vault_loop.Continuation.Reserve.{
  Request, Reservation, entry_of, desired_entry, count_of, is_allowed, next_count, reservation,
  after_write, is_changed, with_count, with_loaded, reserve_at, Sites, refused, after_primary,
  after_fallback, reserve,
}

-- What is returned with a continuation: it is the first, or it is the second of a critical task with
-- evidence; a refusal says that the budget is exhausted.
pub record IsJustified (q : Request) (r : Reservation) : Type 0 where
  pub is_first_or_critical :
      r.allowed ≡ true
      → (r.count ≡ pos 1)
        ⊎ ((r.count ≡ pos 2) × (q.critical ≡ true) × (is_empty q.evidence_fingerprint ≡ false))
  pub is_exhausted : r.allowed ≡ false → r.exhausted ≡ true
  pub is_stored : r.storage_error ≡ false
  pub same_evidence : r.evidence_fingerprint ≡ q.evidence_fingerprint

abbrev JustifiedIfMade : Request → Option Reservation × Site → Type 0
JustifiedIfMade q (none, site) = Unit
JustifiedIfMade q (some r, site) = IsJustified q r

module _ (py : Library) (q : Request) where
  is_allowed-justified :
      (current : Dict) (c : ℤ)
      → is_allowed py q current c ≡ true
      → (next_count py q current c ≡ pos 1)
        ⊎ ((next_count py q current c ≡ pos 2)
            × (q.critical ≡ true)
            × (is_empty q.evidence_fingerprint ≡ false))
  unfolding ◌+ℤ◌
  is_allowed-justified current (pos zero) h = inl refl
  is_allowed-justified current (pos (suc zero)) h = inr (ground arith, ground arith, ground arith)
  is_allowed-justified current (pos (suc (suc n))) h = absurd (ground arith)
  is_allowed-justified current (negsuc n) h = absurd (ground arith)

  reservation-IsJustified :
      (current : Dict) (c : ℤ) (corrupt changed : Bool)
      → IsJustified q (reservation py q current c corrupt changed)
  reservation-IsJustified current c corrupt changed = record {
    is_first_or_critical = is_allowed-justified current c;
    is_exhausted = λ h. ap not h;
    is_stored = refl;
    same_evidence = refl;
  }

  after_write-justified :
      (m : Result Exception (Unit {0}) × Site) (r : Reservation)
      → IsJustified q r
      → JustifiedIfMade q (after_write m r)
  after_write-justified (err e, site) r h = tt
  after_write-justified (ok done, site) r h = h

  module _ (p : Process) (a : Access) where
    with_count-justified :
        (m : Result Exception ℤ) (loaded : Loaded) (site : Site)
        → JustifiedIfMade q (with_count py m p a q loaded site)
    with_count-justified (err e) loaded site = tt
    with_count-justified (ok c) loaded site =
        let entries = trim py p loaded.entries in
        let current = entry_of (get q.scope.scope_key entries) in
        let desired = desired_entry q (next_count py q current c) p.now in
        let v = obj (payload p.now (set q.scope.scope_key (obj desired) entries)) in
        let written = reservation py q current c loaded.corrupt true in
        let same = reservation py q current c loaded.corrupt false in
        if-keeps (JustifiedIfMade q) (is_changed loaded entries current desired)
          (after_write (atomic_json p a v site) written) (some same, site)
          (after_write-justified (atomic_json p a v site) written
            (reservation-IsJustified current c loaded.corrupt true))
          (reservation-IsJustified current c loaded.corrupt false)

    with_loaded-justified :
        (m : Result Exception Loaded × Site) → JustifiedIfMade q (with_loaded py m p a q)
    with_loaded-justified (err e, site) = tt
    with_loaded-justified (ok loaded, site) =
        with_count-justified
          (count_of py (entry_of (get q.scope.scope_key (trim py p loaded.entries)))) loaded site

    reserve_at-justified : (site : Site) → JustifiedIfMade q (reserve_at py p a q site)
    unfolding reserve_at
    reserve_at-justified site =
        if-keeps (JustifiedIfMade q) (not a.is_safe || not a.locks) (none, site)
          (with_loaded py (load a site) p a q) tt (with_loaded-justified (load a site))

  -- No reservation is made at a place.
  abbrev pub Fails : Process → Option Access → Site → Type 0
  Fails p none site = Unit
  Fails p (some a) site = (reserve_at py p a q site).0 ≡ none

  fallback-outcome :
      (o : Option Reservation × Site) (first : Site)
      → JustifiedIfMade q o
      → IsJustified q (after_fallback o q first).0
        ⊎ (((after_fallback o q first).0 ≡ refused q) × (o.0 ≡ none))
  fallback-outcome (none, site) first h = inr (refl, refl)
  fallback-outcome (some r, site) first h = inl h

  primary-outcome :
      (o : Option Reservation × Site) (p : Process) (fallback : Option Access) (second : Site)
      → JustifiedIfMade q o
      → IsJustified q (after_primary py o p fallback q second).0
        ⊎ (((after_primary py o p fallback q second).0 ≡ refused q)
            × (o.0 ≡ none)
            × Fails p fallback second)
  primary-outcome (some r, site) p fallback second h = inl h
  primary-outcome (none, site) p none second h = inr (refl, refl, tt)
  primary-outcome (none, site) p (some b) second h =
      elim (fallback-outcome (reserve_at py p b q second) site (reserve_at-justified p b second)) [
        | inl made ↦ inl made
        | inr (same, failed) ↦ inr (same, refl, failed)
      ]

  -- A call always returns: a reservation that is justified, or, where no place could make one, a
  -- refusal that is marked as an error of the storage and not as an exhausted budget.
  pub reserve-outcome :
      (p : Process) (a : Access) (fallback : Option Access) (sites : Sites)
      → IsJustified q (reserve py p a fallback q sites).0
        ⊎ (((reserve py p a fallback q sites).0 ≡ refused q)
            × Fails p (some a) sites.primary
            × Fails p fallback sites.fallback)
  unfolding reserve
  reserve-outcome p a fallback sites =
      primary-outcome (reserve_at py p a q sites.primary) p fallback sites.fallback
        (reserve_at-justified p a sites.primary)
