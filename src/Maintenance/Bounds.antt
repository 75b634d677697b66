-- ===== src/Maintenance/Bounds.antt =====
-- What a trim leaves in the queue.
use codex_ralph_vault_loop.Base.{
  ℕ, zero, suc, ◌==◌, ◌*◌, ◌≤◌, ◌≡◌, refl, subst, inl, inr, false, Option, none, some, List, [],
  ◌∷◌, String, take, length, length-take, All, All-take, Bool-cases, arith,
}
use codex_ralph_vault_loop.Base.Int.{ℤ, pos, ◌≤ℤ◌, leb_ℤ}
use codex_ralph_vault_loop.Json.{Json, int, text, obj, Dict, get, get_or, dict_laws}
use codex_ralph_vault_loop.Python.{
  Library, Result, ok, Exception, to_int, or_else, bind-eq-ok, ok-injective,
}
use codex_ralph_vault_loop.Maintenance.Host.{Host, max_entries}
use codex_ralph_vault_loop.Maintenance.Settings.{max_entries_bounds}
use codex_ralph_vault_loop.Maintenance.Trim.{
  default_max_attempts, has_status, stamp, is_expired, is_stale_lease, recovered, recover,
  append_some, admit, admit_all, insert_job, sort_jobs, trim_list,
}
use codex_ralph_vault_loop.Maintenance.Invariant.{insert_job-All, sort_jobs-All}

module _ (py : Library) where
  abbrev key : Dict → ℤ
  key d = stamp py "updated_epoch" d

  -- The most recent change first.
  abbrev pub IsSorted : List Dict → Type 0
  IsSorted [] = Unit
  IsSorted (d ∷ ds) = All (λ e. key e ≤ℤ key d) ds × IsSorted ds

  All-weaken :
      (d e : Dict) (ds : List Dict)
      → key d ≤ℤ key e
      → All (λ x. key x ≤ℤ key d) ds
      → All (λ x. key x ≤ℤ key e) ds
  All-weaken d e [] h k = tt
  All-weaken d e (x ∷ ds) h k = (omega (arith, k.0), All-weaken d e ds h k.1)

  insert_job-IsSorted : (d : Dict) (ds : List Dict) → IsSorted ds → IsSorted (insert_job py d ds)
  unfolding insert_job
  insert_job-IsSorted d [] h = (tt, tt)
  insert_job-IsSorted d (e ∷ es) h = elim (Bool-cases (leb_ℤ (key e) (key d))) [
    | inl first ↦
        let le : key e ≤ℤ key d = ground arith in rw first ((le, All-weaken e d es le h.0), h)
    | inr later ↦ rw later (
      insert_job-All py (λ x. key x ≤ℤ key e) d es (ground arith) h.0,
      insert_job-IsSorted d es h.1,
    )
  ]

  sort_jobs-IsSorted : (ds : List Dict) → IsSorted (sort_jobs py ds)
  unfolding sort_jobs
  sort_jobs-IsSorted [] = tt
  sort_jobs-IsSorted (d ∷ ds) = insert_job-IsSorted d (sort_jobs py ds) (sort_jobs-IsSorted ds)

  take-IsSorted : (n : ℕ) (ds : List Dict) → IsSorted ds → IsSorted (take n ds)
  take-IsSorted zero ds h = tt
  take-IsSorted (suc n) [] h = tt
  take-IsSorted (suc n) (d ∷ ds) h = (All-take _ n ds h.0, take-IsSorted n ds h.1)

  -- A job whose lease, if it has one, still runs.
  abbrev pub IsCurrent : ℤ → Dict → Type 0
  IsCurrent now d = is_stale_lease py now d ≡ false

  status-IsCurrent :
      (now : ℤ) (d : Dict) (s : String)
      → get "status" d ≡ some (text s)
      → (s == "leased") ≡ false
      → IsCurrent now d
  unfolding is_stale_lease has_status
  status-IsCurrent now d s e other = rw (e, get_or) (rw other)

  recovered-IsCurrent : (now a m : ℤ) (d : Dict) → IsCurrent now (recovered now a m d)
  unfolding recovered
  recovered-IsCurrent now a m d = elim (Bool-cases (leb_ℤ m a)) [
    | inl spent ↦ rw spent (status-IsCurrent now _ "dead_lettered" (simp dict_laws) refl)
    | inr more ↦ rw more (status-IsCurrent now _ "retryable" (simp dict_laws) refl)
  ]

  recover-IsCurrent : (now : ℤ) (d d' : Dict) → recover py now d ≡ ok d' → IsCurrent now d'
  unfolding recover
  recover-IsCurrent now d d' e = elim (Bool-cases (is_stale_lease py now d)) [
    | inl stale ↦
        let (a, ea, k) =
          bind-eq-ok (to_int py (or_else (get_or "attempts" (int (pos 0)) d) (int (pos 0)))) _
            (rw stale at e) in
        let (m, em, q) =
          bind-eq-ok
            (to_int py
              (or_else (get_or "max_attempts" default_max_attempts d) default_max_attempts))
            _ k in
        subst (IsCurrent now) (ok-injective q) (recovered-IsCurrent now _ _ d)
    | inr fresh ↦ subst (IsCurrent now) (ok-injective (rw fresh at e)) fresh
  ]

  abbrev IfCurrent : ℤ → Option Dict → Type 0
  IfCurrent now none = Unit
  IfCurrent now (some d) = IsCurrent now d

  none-IfCurrent :
      (now : ℤ) (o : Option Dict)
      → ◌≡◌ {A = Result Exception (Option Dict)} (ok none) (ok o)
      → IfCurrent now o
  none-IfCurrent now o e = subst (IfCurrent now) (ok-injective e) tt

  append_some-IsCurrent :
      (now : ℤ) (o : Option Dict) (ds : List Dict)
      → IfCurrent now o
      → All (IsCurrent now) ds
      → All (IsCurrent now) (append_some o ds)
  append_some-IsCurrent now none ds h k = k
  append_some-IsCurrent now (some d) ds h k = (h, k)

  module _ (host : Host) (now : ℤ) where
    admit-IsCurrent : (v : Json) (o : Option Dict) → admit py host now v ≡ ok o → IfCurrent now o
    unfolding admit
    admit-IsCurrent (obj d) o e = elim (Bool-cases (is_expired py host now d)) [
      | inl old ↦ none-IfCurrent now o (rw old at e)
      | inr live ↦
          let (d', r, q) = bind-eq-ok (recover py now d) _ (rw live at e) in
          subst (IfCurrent now) (ok-injective q) (recover-IsCurrent now d d' r)
    ]
    admit-IsCurrent _ o e = none-IfCurrent now o e

    admit_all-IsCurrent :
        (vs : List Json) (js : List Dict)
        → admit_all py host now vs ≡ ok js
        → All (IsCurrent now) js
    unfolding admit_all
    admit_all-IsCurrent [] js e = subst (All (IsCurrent now)) (ok-injective e) tt
    admit_all-IsCurrent (v ∷ vs) js e =
        let (o, r, q) = bind-eq-ok (admit py host now v) _ e in
        let (rest, r', q') = bind-eq-ok (admit_all py host now vs) _ q in
        subst (All (IsCurrent now)) (ok-injective q') (
          append_some-IsCurrent now o rest (admit-IsCurrent v o r) (admit_all-IsCurrent vs rest r'))

    -- A trim of any list of decoded values that returns leaves at most the configured number of
    -- jobs, which lies between 1 and 4096, the last changed first, and none that is leased past its lease.
    pub trim_list_sound :
        (raw : List Json) (js : List Dict)
        → trim_list py host now raw ≡ ok js
        → (length js ≤ max_entries py host)
          × (1 ≤ max_entries py host)
          × (max_entries py host ≤ 4096)
          × IsSorted js
          × All (IsCurrent now) js
    unfolding trim_list
    trim_list_sound raw js e =
        let n = max_entries py host in
        let (kept, r, q) = bind-eq-ok (admit_all py host now (take (n * 2) raw)) _ e in
        subst
          (λ (ds : List Dict).
            (length ds ≤ n) × (1 ≤ n) × (n ≤ 4096) × IsSorted ds × All (IsCurrent now) ds)
          (ok-injective q)
          (
            length-take n (sort_jobs py kept),
            (max_entries_bounds py host).0,
            (max_entries_bounds py host).1,
            take-IsSorted n (sort_jobs py kept) (sort_jobs-IsSorted kept),
            All-take (IsCurrent now) n (sort_jobs py kept) (
                sort_jobs-All py (IsCurrent now) kept
                  (admit_all-IsCurrent (take (n * 2) raw) kept r)),
          )
