-- ===== src/Maintenance/Invariant.antt =====
-- Predicates on jobs that the recovery of a stale lease keeps: what a trim, a load and a
-- publication do with them.
use codex_ralph_vault_loop.Base.{
  ◌≡◌, ◌∙◌, refl, sym, subst, ap, inl, inr, not, ◌||◌, ◌*◌, Option, none, some, List, [], ◌∷◌, map,
  String, All, All-take, take, take-map, Bool-cases, ltb,
}
use codex_ralph_vault_loop.Base.Int.{ℤ, leb_ℤ}
use codex_ralph_vault_loop.Json.{obj, Dict, to_list-of_list, get}
use codex_ralph_vault_loop.Python.{Library, Result, ok, err, Exception, bind-eq-ok, ok-injective}
use codex_ralph_vault_loop.Maintenance.Host.{
  Host, Disk, QueueFile, missing, unreadable, oversized, holds, queue_state, is_missing, quarantine,
  queue_of, load_file, load, max_queue_bytes, publish, Publication, fails, fails_late, succeeds,
  atomic_json, max_entries,
}
use codex_ralph_vault_loop.Maintenance.Trim.{
  stamp, is_expired, recover, append_some, admit, admit_all, insert_job, sort_jobs, trim_list,
  trim_jobs,
}
use codex_ralph_vault_loop.Maintenance.Enqueue.{jobs_json, stored}

module _ (py : Library) (P : Dict → Type 0) where
  pub insert_job-All : (d : Dict) (ds : List Dict) → P d → All P ds → All P (insert_job py d ds)
  unfolding insert_job
  insert_job-All d [] h k = (h, tt)
  insert_job-All d (e ∷ es) h k =
      elim (Bool-cases (leb_ℤ (stamp py "updated_epoch" e) (stamp py "updated_epoch" d))) [
        | inl first ↦ rw first (h, k)
        | inr later ↦ rw later (k.0, insert_job-All d es h k.1)
      ]

  pub sort_jobs-All : (ds : List Dict) → All P ds → All P (sort_jobs py ds)
  unfolding sort_jobs
  sort_jobs-All [] h = tt
  sort_jobs-All (d ∷ ds) h = insert_job-All d (sort_jobs py ds) h.0 (sort_jobs-All ds h.1)

module _ (py : Library) (P : Dict → Type 0)
    (keeps : (now : ℤ) (d d' : Dict) → P d → recover py now d ≡ ok d' → P d') where
  abbrev IfSome : Option Dict → Type 0
  IfSome none = Unit
  IfSome (some d) = P d

  append_some-All :
      (o : Option Dict) (ds : List Dict) → IfSome o → All P ds → All P (append_some o ds)
  append_some-All none ds h k = k
  append_some-All (some d) ds h k = (h, k)

  admit-All :
      (host : Host) (now : ℤ) (d : Dict) (o : Option Dict)
      → P d
      → admit py host now (obj d) ≡ ok o
      → IfSome o
  unfolding admit
  admit-All host now d o h e = elim (Bool-cases (is_expired py host now d)) [
    | inl old ↦ subst IfSome (ok-injective (rw old at e)) tt
    | inr live ↦
        let (d', r, q) = bind-eq-ok (recover py now d) (λ job. ok (some job)) (rw live at e) in
        subst IfSome (ok-injective q) (keeps now d d' h r)
  ]

  admit_all-All :
      (host : Host) (now : ℤ) (ds : List Dict) (js : List Dict)
      → All P ds
      → admit_all py host now (map obj ds) ≡ ok js
      → All P js
  unfolding admit_all
  admit_all-All host now [] js h e = subst (All P) (ok-injective e) tt
  admit_all-All host now (d ∷ ds) js h e =
      let (o, r, q) = bind-eq-ok (admit py host now (obj d)) _ e in
      let (rest, r', q') = bind-eq-ok (admit_all py host now (map obj ds)) _ q in
      subst (All P) (ok-injective q') (
        append_some-All o rest (admit-All host now d o h.0 r)
          (admit_all-All host now ds rest h.1 r'))

  pub trim_list-All :
      (host : Host) (now : ℤ) (ds js : List Dict)
      → All P ds
      → trim_list py host now (map obj ds) ≡ ok js
      → All P js
  unfolding trim_list
  trim_list-All host now ds js h e =
      let n = max_entries py host * 2 in
      let (kept, r, q) = bind-eq-ok (admit_all py host now (take n (map obj ds))) _ e in
      subst (All P) (ok-injective q) (
        All-take P (max_entries py host) (sort_jobs py kept) (
          sort_jobs-All py P kept (
            admit_all-All host now (take n ds) kept (All-take P n ds h)
              (ap (admit_all py host now) (sym (take-map obj n ds)) ∙ r))))

  pub trim_jobs-All :
      (host : Host) (now : ℤ) (ds js : List Dict)
      → All P ds
      → trim_jobs py host now (jobs_json ds) ≡ ok js
      → All P js
  unfolding trim_jobs
  trim_jobs-All host now ds js h e =
      trim_list-All host now ds js h (rw (to_list-of_list (map obj ds)) at e)

-- A queue file whose jobs all satisfy `P`, if it is a queue at all.
abbrev pub Kept : (Dict → Type 0) → QueueFile → Type 0
Kept P missing = Unit
Kept P unreadable = Unit
Kept P oversized = Unit
Kept P (holds v) =
    (iso : String) × (jobs : List Dict) × (v ≡ obj (queue_state iso (jobs_json jobs))) × All P jobs

-- What a load hands on.
abbrev pub Loaded : (Dict → Type 0) → Result Exception Dict × Disk → Type 0
Loaded P (err e, disk) = Kept P disk.queue
Loaded P (ok state, disk) =
    ((jobs : List Dict) × (get "jobs" state ≡ some (jobs_json jobs)) × All P jobs)
    × Kept P disk.queue

module _ (P : Dict → Type 0) where
  quarantine-Kept :
      (host : Host) (disk : Disk) → Kept P disk.queue → Kept P (quarantine host disk).queue
  unfolding quarantine
  quarantine-Kept host disk h = elim (Bool-cases (is_missing disk.queue || not host.can_rename)) [
    | inl stays ↦ rw stays h
    | inr moves ↦ rw moves tt
  ]

  load_file-Loaded :
      (q : QueueFile) (host : Host) (disk : Disk)
      → Kept P q
      → Kept P disk.queue
      → Loaded P (load_file q host disk)
  unfolding get queue_of
  load_file-Loaded missing host disk h k = (([], refl, tt), k)
  load_file-Loaded unreadable host disk h k = (([], refl, tt), quarantine-Kept host disk k)
  load_file-Loaded oversized host disk h k = k
  load_file-Loaded (holds v) host disk (iso, jobs, e, h) k = rw e ((jobs, refl, h), k)

  -- A load keeps the queue file, and what it returns is a list of jobs that satisfy `P`.
  pub load-Loaded : (host : Host) (disk : Disk) → Kept P disk.queue → Loaded P (load host disk)
  unfolding load
  load-Loaded host disk h = load_file-Loaded disk.queue host disk h h

  -- A publication of jobs that satisfy `P` leaves such a file, wherever it fails.
  pub atomic_json-Kept :
      (host : Host) (jobs : List Dict) (disk : Disk)
      → All P jobs
      → Kept P disk.queue
      → Kept P (atomic_json host (stored host jobs) disk).1.queue
  unfolding atomic_json
  atomic_json-Kept host jobs disk h k =
      elim (Bool-cases (ltb max_queue_bytes (host.encoded_size (stored host jobs)))) [
        | inl large ↦ rw large k
        | inr fits ↦ rw fits (go host.publication)
      ]
    where
      go :
          (p : Publication)
          → Kept P
              (publish p (host.encoded_size (stored host jobs)) (stored host jobs) disk).1.queue
      go fails = k
      go fails_late = (host.iso, jobs, refl, h)
      go succeeds = (host.iso, jobs, refl, h)
