-- ===== src/Maintenance/Steps.antt =====
-- The queue over time: what each operation does to a predicate on jobs, and the runs of any
-- sequence of operations.
use codex_ralph_vault_loop.Base.{
  ℕ, zero, suc, ◌≡◌, refl, subst, ap, inl, inr, Bool, true, false, not, ◌&&◌, Option, none, some,
  List, [], ◌∷◌, String, ◌==◌, All, All-append, snoc, Bool-cases, Option-cases,
}
use mathlib.Core.List.{map-append}
use codex_ralph_vault_loop.Base.Int.{ℤ}
use codex_ralph_vault_loop.Json.{Json, obj, Dict, get_or}
use codex_ralph_vault_loop.Json.Eq.{json_eq}
use codex_ralph_vault_loop.Python.{Library, Result, ok, err, Exception, bind-eq-ok, ok-injective}
use codex_ralph_vault_loop.Maintenance.Host.{Host, Disk, WriteResult, load, atomic_json}
use codex_ralph_vault_loop.Maintenance.Trim.{recover, trim_jobs}
use codex_ralph_vault_loop.Maintenance.Job.{MaintenanceJob}
use codex_ralph_vault_loop.Maintenance.Enqueue
use codex_ralph_vault_loop.Maintenance.Enqueue.{
  EnqueueResult, jobs_json, stored, text_of, existing_status, append_job, enqueue_job,
  enqueue_maintenance,
}
use codex_ralph_vault_loop.Maintenance.Claim
use codex_ralph_vault_loop.Maintenance.Claim.{claim_limit, claim_one, claim_loop, claim_jobs}
use codex_ralph_vault_loop.Maintenance.Complete
use codex_ralph_vault_loop.Maintenance.Complete.{Outcome, finish, finish_first, complete_job}
use codex_ralph_vault_loop.Maintenance.Invariant.{
  trim_list-All, trim_jobs-All, Kept, Loaded, load-Loaded, atomic_json-Kept,
}

module _ (py : Library) (P : Dict → Type 0)
    (keeps : (now : ℤ) (d d' : Dict) → P d → recover py now d ≡ ok d' → P d') where
  module _ (host : Host) (job : Dict) (id : String) (new : P job) where
    reported-Kept :
        (r : Result Exception WriteResult × Disk)
        → Kept P r.1.queue
        → Kept P (Enqueue.reported py id r).1.queue
    reported-Kept (ok w, disk) k = k
    reported-Kept (err e, disk) k = k

    write_trimmed-Kept :
        (r : Result Exception (List Dict)) (disk : Disk)
        → ((js : List Dict) → r ≡ ok js → All P js)
        → Kept P disk.queue
        → Kept P (Enqueue.write_trimmed py host id r disk).1.queue
    write_trimmed-Kept (err e) disk h k = k
    write_trimmed-Kept (ok js) disk h k =
        reported-Kept (atomic_json host (stored host js) disk)
          (atomic_json-Kept P host js disk (h js refl) k)

    append_job-Kept :
        (jobs : List Dict) (disk : Disk)
        → All P jobs
        → Kept P disk.queue
        → Kept P (append_job py host job id jobs disk).1.queue
    unfolding append_job
    append_job-Kept jobs disk h k =
        write_trimmed-Kept _ disk
          (λ js e.
            trim_list-All py P keeps host host.second_epoch (snoc jobs job) js
              (All-append P jobs (job ∷ []) h (new, tt))
              (rw (← map-append obj jobs (job ∷ [])) at e))
          k

    unless_twin-Kept :
        (o : Option Dict) (jobs : List Dict) (disk : Disk)
        → All P jobs
        → Kept P disk.queue
        → Kept P (Enqueue.unless_twin py o host job id jobs disk).1.queue
    unless_twin-Kept none jobs disk h k = append_job-Kept jobs disk h k
    unless_twin-Kept (some d) jobs disk h k = k

    unless_known-Kept :
        (o : Option String) (jobs : List Dict) (disk : Disk)
        → All P jobs
        → Kept P disk.queue
        → Kept P (Enqueue.unless_known py o host job id jobs disk).1.queue
    unless_known-Kept none jobs disk h k = unless_twin-Kept _ jobs disk h k
    unless_known-Kept (some s) jobs disk h k = k

    with_jobs-Kept :
        (r : Result Exception (List Dict)) (disk : Disk)
        → ((js : List Dict) → r ≡ ok js → All P js)
        → Kept P disk.queue
        → Kept P (Enqueue.with_jobs py host job id r disk).1.queue
    with_jobs-Kept (err e) disk h k = k
    with_jobs-Kept (ok js) disk h k =
        unless_known-Kept (existing_status py id js) js disk (h js refl) k

    with_state-Kept :
        (r : Result Exception Dict × Disk)
        → Loaded P r
        → Kept P (Enqueue.with_state py host job id r).1.queue
    with_state-Kept (err e, disk) k = k
    with_state-Kept (ok state, disk) ((jobs, e, h), k) =
        rw (e, get_or)
          (with_jobs-Kept (trim_jobs py host host.second_epoch (jobs_json jobs)) disk
            (λ js q. trim_jobs-All py P keeps host host.second_epoch jobs js h q) k)

  pub enqueue_job-Kept :
      (host : Host) (job : Dict) (disk : Disk)
      → P job
      → Kept P disk.queue
      → Kept P (enqueue_job py host job disk).1.queue
  unfolding enqueue_job
  enqueue_job-Kept host job disk new k = elim (Bool-cases (not host.safe_runtime)) [
    | inl unsafe ↦ rw unsafe k
    | inr safe ↦ elim (Bool-cases (not host.locked)) [
      | inl busy ↦ rw (safe, busy) k
      | inr locked ↦
          rw (safe, locked)
            (with_state-Kept host job (text_of py "job_id" job) new (load host disk)
              (load-Loaded P host disk k))
    ]
  ]

  module _ (host : Host)
      (claims : (lease : Option ℤ) (d d' : Dict) (job : MaintenanceJob)
        → P d
        → claim_one py host lease d ≡ some (d', job)
        → P d') where
    claim_loop-All :
        (lease : Option ℤ) (quota : ℕ) (ds : List Dict)
        → All P ds
        → All P (claim_loop py host lease quota ds).0
    unfolding claim_loop
    claim_loop-All lease quota [] h = tt
    claim_loop-All lease zero (d ∷ ds) h = h
    claim_loop-All lease (suc quota) (d ∷ ds) h = elim (Option-cases (claim_one py host lease d)) [
      | inl passed ↦ rw (passed, claim_loop) (h.0, claim_loop-All lease (suc quota) ds h.1)
      | inr ((d', job), taken) ↦
          rw (taken, claim_loop)
            (claims lease d d' job h.0 taken, claim_loop-All lease quota ds h.1)
    ]

    returned-Kept :
        (claimed : List MaintenanceJob) (r : Result Exception WriteResult × Disk)
        → Kept P r.1.queue
        → Kept P (Claim.returned py claimed r).1.queue
    returned-Kept claimed (ok w, disk) k = k
    returned-Kept claimed (err e, disk) k = k

    claim_from-Kept :
        (limit : ℤ) (lease : Option ℤ) (original : Json) (r : Result Exception (List Dict))
        (disk : Disk)
        → ((js : List Dict) → r ≡ ok js → All P js)
        → Kept P disk.queue
        → Kept P (Claim.claim_from py host limit lease original r disk).1.queue
    claim_from-Kept limit lease original (err e) disk h k = k
    claim_from-Kept limit lease original (ok js) disk h k =
        let c = claim_loop py host lease (claim_limit limit) js in
        elim (Bool-cases (json_eq (jobs_json js) original && Claim.is_nil c.1)) [
          | inl idle ↦ rw idle k
          | inr busy ↦ rw busy (
              returned-Kept c.1 (atomic_json host (stored host c.0) disk) (
                atomic_json-Kept P host c.0 disk
                  (claim_loop-All lease (claim_limit limit) js (h js refl)) k))
        ]

    claim_state-Kept :
        (limit : ℤ) (lease : Option ℤ) (r : Result Exception Dict × Disk)
        → Loaded P r
        → Kept P (Claim.claim_state py host limit lease r).1.queue
    claim_state-Kept limit lease (err e, disk) k = k
    claim_state-Kept limit lease (ok state, disk) ((jobs, e, h), k) =
        rw (e, get_or)
          (claim_from-Kept limit lease (jobs_json jobs)
            (trim_jobs py host host.second_epoch (jobs_json jobs)) disk
            (λ js q. trim_jobs-All py P keeps host host.second_epoch jobs js h q) k)

    pub claim_jobs-Kept :
        (limit : ℤ) (lease : Option ℤ) (disk : Disk)
        → Kept P disk.queue
        → Kept P (claim_jobs py host limit lease disk).1.queue
    unfolding claim_jobs
    claim_jobs-Kept limit lease disk k = elim (Bool-cases (host.safe_runtime && host.locked)) [
      | inl ready ↦
          rw ready (claim_state-Kept limit lease (load host disk) (load-Loaded P host disk k))
      | inr stopped ↦ rw stopped k
    ]

  module _ (host : Host) (o : Outcome)
      (finishes : (d d' : Dict) → P d → finish py host o d ≡ ok d' → P d') where
    finish_first-All :
        (id : String) (ds : List Dict) (r : Bool × List Dict)
        → All P ds
        → finish_first py host id o ds ≡ ok r
        → All P r.1
    unfolding finish_first
    finish_first-All id [] r h e =
        subst (All P) (ap (λ (p : Bool × List Dict). p.1) (ok-injective e)) tt
    finish_first-All id (d ∷ ds) r h e = elim (Bool-cases (text_of py "job_id" d == id)) [
      | inl this ↦
          let (d', q, e') =
            bind-eq-ok (finish py host o d) (λ d'. ok (true, d' ∷ ds)) (rw this at e) in
          subst (λ (p : Bool × List Dict). All P p.1) (ok-injective e') (finishes d d' h.0 q, h.1)
      | inr other ↦
          let (r', q, e') =
            bind-eq-ok (finish_first py host id o ds) (λ (p : Bool × List Dict). ok (p.0, d ∷ p.1))
              (rw other at e) in
          subst (λ (p : Bool × List Dict). All P p.1) (ok-injective e')
            (h.0, finish_first-All id ds r' h.1 q)
    ]

    was_written-Kept :
        (r : Result Exception WriteResult × Disk)
        → Kept P r.1.queue
        → Kept P (Complete.was_written py r).1.queue
    was_written-Kept (ok w, disk) k = k
    was_written-Kept (err e, disk) k = k

    publish_found-Kept :
        (r : Result Exception (Bool × List Dict)) (disk : Disk)
        → ((p : Bool × List Dict) → r ≡ ok p → All P p.1)
        → Kept P disk.queue
        → Kept P (Complete.publish_found py host r disk).1.queue
    publish_found-Kept (err e) disk h k = k
    publish_found-Kept (ok (false, js)) disk h k = k
    publish_found-Kept (ok (true, js)) disk h k =
        was_written-Kept (atomic_json host (stored host js) disk)
          (atomic_json-Kept P host js disk (h (true, js) refl) k)

    complete_from-Kept :
        (id : String) (r : Result Exception (List Dict)) (disk : Disk)
        → ((js : List Dict) → r ≡ ok js → All P js)
        → Kept P disk.queue
        → Kept P (Complete.complete_from py host id o r disk).1.queue
    complete_from-Kept id (err e) disk h k = k
    complete_from-Kept id (ok js) disk h k =
        publish_found-Kept (finish_first py host id o js) disk
          (λ p q. finish_first-All id js p (h js refl) q) k

    complete_state-Kept :
        (id : String) (r : Result Exception Dict × Disk)
        → Loaded P r
        → Kept P (Complete.complete_state py host id o r).1.queue
    complete_state-Kept id (err e, disk) k = k
    complete_state-Kept id (ok state, disk) ((jobs, e, h), k) =
        rw (e, get_or)
          (complete_from-Kept id (trim_jobs py host host.first_epoch (jobs_json jobs)) disk
            (λ js q. trim_jobs-All py P keeps host host.first_epoch jobs js h q) k)

    pub complete_job-Kept :
        (id : String) (disk : Disk)
        → Kept P disk.queue
        → Kept P (complete_job py host id o disk).1.queue
    unfolding complete_job
    complete_job-Kept id disk k = elim (Bool-cases (host.safe_runtime && host.locked)) [
      | inl ready ↦ rw ready (complete_state-Kept id (load host disk) (load-Loaded P host disk k))
      | inr stopped ↦ rw stopped k
    ]
