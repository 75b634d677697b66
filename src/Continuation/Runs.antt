-- ===== src/Continuation/Runs.antt =====
-- Any run of calls for one scope is allowed two continuations at most.
use codex_ralph_vault_loop.Base.{
  ℕ, zero, suc, ◌+◌, ◌-◌, ◌≤◌, ◌≡◌, refl, ap, sym, subst, ◌∙◌, Bool, true, false, not, ◌||◌, Option,
  none, some, List, [], ◌∷◌, String, arith, if-keeps, if◌then◌else◌,
}
use codex_ralph_vault_loop.Base.Int.{ℤ}
use codex_ralph_vault_loop.Json.{Dict, end, get}
use codex_ralph_vault_loop.Python.{Library, Result, ok, err, Exception}
use codex_ralph_vault_loop.Continuation.State.{
  Process, Access, StateFile, missing, unreadable, undecodable, holds, Site, Loaded, trim, load,
  load_file, entries_of, empty_loaded, or_quarantined, quarantine,
}
use codex_ralph_vault_loop.Continuation.Reserve.{
  StopScope, Request, Reservation, entry_of, count_of, with_count, with_loaded, reserve_at,
}
use codex_ralph_vault_loop.Continuation.Grants.{
  stored, or_zero, or_end, held, held_by, granted, IsCounted, HasCount, IsCounted-refused,
  IsCounted-count,
}

-- A call finds the scope's entry: the trimming does not drop it, for its age, its form or the limit
-- on entries, and it has a count if it is there.
pub record Keeps (py : Library) (p : Process) (key : String) (site : Site) : Type 0 where
  pub entry_stays : get key (trim py p (stored site.state)) ≡ get key (stored site.state)
  pub has_count : HasCount (entry_of (get key (stored site.state)))

-- A file that is moved aside leaves no entries.
aside :
    (site : Site)
    → stored site.state ≡ end
    → (can_rename : Bool)
    → stored
        (if can_rename
          then record { state = missing; quarantined = site.state ∷ site.quarantined }
          else site).state
      ≡ end
aside site h true = refl
aside site h false = h

module _ (py : Library) (p : Process) (a : Access) (q : Request) (site : Site)
    (keeps : Keeps py p q.scope.scope_key site) where
  abbrev key : String
  key = q.scope.scope_key

  abbrev Counted : Option Reservation × Site → Type 0
  Counted o = IsCounted py key site o.0 o.1

  module _ (loaded : Loaded) (site' : Site) (same : stored site.state ≡ loaded.entries)
      (same' : stored site'.state ≡ loaded.entries) where
    abbrev entry : Dict
    entry = entry_of (get key (trim py p loaded.entries))

    entry-same : entry ≡ entry_of (get key (stored site.state))
    entry-same =
        ap (λ d. entry_of (get key (trim py p d))) (sym same) ∙ ap entry_of keeps.entry_stays

    held-same : held py key site ≡ held py key site'
    held-same = ap (λ d. held_by py (entry_of (get key d))) (same ∙ sym same')

    IsCounted-moved : (o : Option Reservation × Site) → IsCounted py key site' o.0 o.1 → Counted o
    IsCounted-moved o h = record { counts = rw held-same h.counts; limits = h.limits }

    loaded-Counted : Counted (with_loaded py (ok loaded, site') p a q)
    loaded-Counted = IsCounted-moved _ (counted (count_of py entry) refl)
      where
        counted :
            (m : Result Exception ℤ)
            → count_of py entry ≡ m
            → (let o = with_count py m p a q loaded site' in IsCounted py key site' o.0 o.1)
        counted (err e) read = IsCounted-refused py key site'
        counted (ok c) read =
            IsCounted-count py p a q loaded site' c
              (sym held-same ∙ ap (held_by py) (sym entry-same) ∙ ap or_zero read)
              (subst HasCount (sym entry-same) keeps.has_count) read

  -- The state as it is loaded, and the file behind that.
  file-Counted :
      (file : StateFile)
      → site.state ≡ file
      → Counted (with_loaded py (load_file file a site) p a q)
  file-Counted missing e = loaded-Counted (empty_loaded false) site (ap stored e) (ap stored e)
  file-Counted unreadable e =
      loaded-Counted (empty_loaded true) (quarantine a site) (ap stored e)
        (aside site (ap stored e) a.can_rename)
  file-Counted undecodable e = IsCounted-refused py key site
  file-Counted (holds v) e = decoded (entries_of v) (ap stored e)
    where
      decoded :
          (o : Option Dict)
          → stored site.state ≡ or_end o
          → Counted (with_loaded py (or_quarantined o a site) p a q)
      decoded none h =
          loaded-Counted (empty_loaded true) (quarantine a site) h (aside site h a.can_rename)
      decoded (some d) h = loaded-Counted (record { entries = d; corrupt = false }) site h h

  reserve_at-IsCounted : Counted (reserve_at py p a q site)
  unfolding reserve_at load
  reserve_at-IsCounted =
      if-keeps Counted (not a.is_safe || not a.locks) (none, site) _ (IsCounted-refused py key site)
        (file-Counted site.state refl)

-- A call of `_reserve_at` for a scope.
pub record Call : Type 0 where
  pub process : Process
  pub access : Access
  pub evidence_fingerprint : String
  pub critical : Bool

abbrev pub request_of : StopScope → Call → Request
request_of scope c = record {
  scope = scope;
  evidence_fingerprint = c.evidence_fingerprint;
  critical = c.critical;
}

abbrev pub call_at : Library → StopScope → Call → Site → Option Reservation × Site
call_at py scope c site = reserve_at py c.process c.access (request_of scope c) site

-- The continuations that calls for a scope are allowed, one call behind the other.
unfoldable pub grants : Library → StopScope → List Call → Site → ℕ
grants py scope [] site = 0
grants py scope (c ∷ cs) site =
    granted (call_at py scope c site).0 + grants py scope cs (call_at py scope c site).1

-- No call finds that the scope's entry was dropped, or that it has no count.
abbrev pub KeepsAll : Library → StopScope → List Call → Site → Type 0
KeepsAll py scope [] site = Unit
KeepsAll py scope (c ∷ cs) site =
    Keeps py c.process scope.scope_key site × KeepsAll py scope cs (call_at py scope c site).1

granted-le : (o : Option Reservation) → granted o ≤ 1
granted-le none = omega arith
granted-le (some r) = ground arith

summed :
    (g rest before after : ℕ)
    → g ≤ 1
    → g + before ≤ after
    → (g ≡ 1 → after ≤ 2)
    → rest ≤ 2 - after
    → g + rest ≤ 2 - before
summed zero rest before after few more limit h = omega arith
summed (suc zero) rest before after few more limit h = let top = limit refl in omega arith
summed (suc (suc g)) rest before after few more limit h = absurd (omega arith)

-- However often a scope asks, and whatever fails, it is allowed two continuations at most, less the
-- count that its entry holds at first, if at every call the trimming of the stored state does not
-- drop the scope's entry, for its age, its form or the limit on entries, and the entry has a count
-- if it is there.
pub grants-bound :
    (py : Library) (scope : StopScope) (calls : List Call) (site : Site)
    → KeepsAll py scope calls site
    → grants py scope calls site ≤ 2 - held py scope.scope_key site
unfolding grants
grants-bound py scope [] site keeps = omega arith
grants-bound py scope (c ∷ cs) site keeps =
    let counted = reserve_at-IsCounted py c.process c.access (request_of scope c) site keeps.0 in
    let rest = grants-bound py scope cs (call_at py scope c site).1 keeps.1 in
    summed (granted (call_at py scope c site).0) _ _ _ (granted-le _) counted.counts counted.limits
      rest
