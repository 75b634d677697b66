-- ===== src/Store/Journaling.antt =====
-- `record_event` adds at most one record to the journal, whatever fails.
use codex_ralph_vault_loop.Base.{
  ◌+◌, ◌≡◌, refl, subst, sym, ◌∙◌, inl, inr, Bool, true, false, ◌&&◌, Option, none, some, List,
  snoc, length, String, ◌==◌, if◌then◌else◌, if-keeps,
}
use codex_ralph_vault_loop.Python.{Library, ok, err}
use codex_ralph_vault_loop.Store.Checked.{Checked, store, unsafe_path, is_corrupt}
use codex_ralph_vault_loop.Store.State.{State}
use codex_ralph_vault_loop.Store.Event.{Event, event_dict, event_limit}
use codex_ralph_vault_loop.Store.Journal.{last_hash}
use codex_ralph_vault_loop.Store.Chain.{build_event-extends}
use codex_ralph_vault_loop.Store.Manifest.{Manifest}
use codex_ralph_vault_loop.Store.Files.{Lines, append_jsonl}
use codex_ralph_vault_loop.Store.Disk.{
  Disk, Host, Outcome, and_then, read_plan_events, read_snapshot, load_state_for_write,
  read_manifest_locked, loaded_manifest, publish_candidate, publish_pointer, publish_state,
  journal_bytes, journal_records,
}
use codex_ralph_vault_loop.Store.RecordEvent.{
  Request, StoreResult, Step, settled, appends, decide, commit, perform, published_manifest,
  record_locked, after_preview, record_request, candidate_of, draft_of,
}
use codex_ralph_vault_loop.Store.Growth.{
  and_then-rule, append_jsonl-IsWritten, loaded-events, read_plan_events-chain, decide-appends,
  IsGrown,
}

-- A disk that differs from another in its manifest alone.
abbrev pub IsKept : Disk → Disk → Type 0
IsKept before after = (after.events ≡ before.events) × (after.snapshot ≡ before.snapshot)

module _ (py : Library) (is_red : String → Bool) where
  publish_candidate-IsKept :
      (h : Host) (disk : Disk) (c : Manifest × Bool)
      → IsKept disk (publish_candidate py is_red h disk c).1
  unfolding publish_candidate
  publish_candidate-IsKept h disk (c, false) = (refl, refl)
  publish_candidate-IsKept h disk (c, true) = (refl, refl)

  loaded_manifest-IsKept :
      (h : Host) (disk : Disk) (c : Checked (Option Manifest))
      → IsKept disk (loaded_manifest py is_red h disk c).1
  unfolding loaded_manifest
  loaded_manifest-IsKept h disk (ok none) = (refl, refl)
  loaded_manifest-IsKept h disk (ok (some m)) = (refl, refl)
  loaded_manifest-IsKept h disk (err e) =
      let P = λ (o : Outcome Manifest). IsKept disk o.1 in
      if-keeps P (is_corrupt e) _ (err e, disk)
        (if-keeps P h.can_quarantine _ _ (refl, refl) (refl, refl)) (refl, refl)

  pub published_manifest-IsKept :
      (h : Host) (s next : State) (disk : Disk)
      → IsKept disk (published_manifest py is_red h s next disk).1
  unfolding published_manifest read_manifest_locked publish_pointer
  published_manifest-IsKept h s next disk =
      let P = IsKept disk in
      if-keeps (λ (o : Outcome (Option Manifest)). P o.1) (next.status == s.status) _ _ (refl, refl)
        (and_then-rule P P _ _ (loaded_manifest-IsKept h disk _) (λ _ p. p)
          λ m disk1 _ p1.
            and_then-rule P P _ _
              (and_then-rule P P _ _ p1 (λ _ p. p)
                λ c disk2 _ p2.
                  let kept = publish_candidate-IsKept h disk2 c in (kept.0 ∙ p2.0, kept.1 ∙ p2.1))
              (λ _ p. p) λ c disk3 _ p3. p3)

  -- The events file behind a commit is the one that the append left.
  pub commit-events :
      (h : Host) (r : Request) (s : State) (es : List Event) (e : Event) (c : State) (disk : Disk)
      → (commit py is_red h r s es e c disk).1.events
        ≡ (append_jsonl py h.event_write event_limit journal_bytes journal_records
            (length es)
            (event_dict e)
            disk.events).1
  unfolding commit publish_state
  commit-events h r s es e c disk =
      let after =
        (append_jsonl py h.event_write event_limit journal_bytes journal_records (length es)
          (event_dict e) disk.events).1 in
      let P = λ (d : Disk). d.events ≡ after in
      and_then-rule P P _ _ refl (λ _ p. p)
        λ _ d1 _ p1.
          and_then-rule P P _ _ p1 (λ _ p. p)
            λ next d2 _ p2.
              and_then-rule P P _ _ p2 (λ _ p. p)
                λ _ d3 _ p3.
                  and_then-rule P P _ _ ((published_manifest-IsKept h s next d3).0 ∙ p3) (λ _ p. p)
                    λ _ d4 _ p4. p4

  -- The writes of a decided step, for the journal that was read.
  perform-IsGrown :
      (h : Host) (r : Request) (s : State) (recovered : Bool) (es : List Event) (step : Step)
      (before : Lines) (disk : Disk)
      → read_plan_events py is_red h.identity r.plan true before ≡ ok es
      → decide py is_red h.identity r s es ≡ ok step
      → disk.events ≡ before
      → IsGrown py is_red h.identity r before (perform py is_red h r s recovered es step disk).1
  unfolding perform publish_state
  perform-IsGrown h r s recovered es (settled event reason) before disk reads decided same =
      let P = λ (d : Disk). d.events.records ≡ before.records in
      inl (
        and_then-rule P P (if recovered then publish_state py h s disk else (ok tt, disk)) _
          (if-keeps (λ (o : Outcome (Unit {0})). P o.1) recovered _ (ok tt, disk)
            (λ i. (same i).records) (λ i. (same i).records))
          (λ _ p. p) (λ _ d _ p. p))
  perform-IsGrown h r s recovered es (appends e c) before disk reads decided same =
      let (fresh, (d, built)) = decide-appends py is_red h.identity r s c es e decided in
      let chain = read_plan_events-chain py is_red h.identity r.plan true before es reads in
      let file = commit-events h r s es e c disk in
      elim (append_jsonl-IsWritten py h.event_write event_limit journal_bytes journal_records
        (length es) (event_dict e) disk.events) [
          | inl kept ↦ inl ((λ i. (file i).records) ∙ kept ∙ (λ i. (same i).records))
          | inr grown ↦ inr (record {
            journal = es;
            added = e;
            reads_journal = reads;
            adds =
                (λ i. (file i).records)
                ∙ grown
                ∙ (λ i. snoc (same i).records (some (event_dict e)));
            is_chained =
                build_event-extends py is_red es d
                  (draft_of py is_red r s d (length es + 1) (last_hash "" es)) e chain refl refl
                  built;
            is_new = fresh;
          })
        ]

  record_locked-IsGrown :
      (h : Host) (r : Request) (disk : Disk)
      → IsGrown py is_red h.identity r disk.events (record_locked py is_red h r disk).1
  unfolding record_locked load_state_for_write
  record_locked-IsGrown h r disk =
      let P = IsGrown py is_red h.identity r disk.events in
      let Q = λ (d : Disk). d.events ≡ disk.events in
      let weaken : (d : Disk) → Q d → P d = λ d q. inl (λ i. (q i).records) in
      and_then-rule P Q _ _ (loaded-events py is_red h disk _) weaken λ found d1 _ q1.
        and_then-rule P Q _ _ q1 weaken λ es d2 reads q2.
          and_then-rule P Q _ _ q2 weaken λ s d3 _ q3.
            and_then-rule P Q _ _ q3 weaken λ step d4 decided q4.
              perform-IsGrown h r s.0 s.1 es step disk.events d4
                (subst (λ f. read_plan_events py is_red h.identity r.plan true f ≡ ok es) q1
                  (λ i. (reads i).0))
                (λ i. (decided i).0) q4

  after_preview-IsGrown :
      (h : Host) (r : Request) (disk : Disk) (seen : Checked (Option State))
      → IsGrown py is_red h.identity r disk.events (after_preview py is_red h r disk seen).1
  unfolding after_preview load_state_for_write
  after_preview-IsGrown h r disk (ok none) = inl refl
  after_preview-IsGrown h r disk (ok (some s)) =
      let P = IsGrown py is_red h.identity r disk.events in
      let Q = λ (d : Disk). d ≡ disk in
      and_then-rule P Q (candidate_of py is_red h.identity r s, disk) _ refl
        (λ d q. inl (λ i. (q i).events.records))
        λ c d _ q.
          if-keeps (λ (o : Outcome StoreResult). P o.1) h.is_safe _ (err unsafe_path, d)
            (subst (λ (x : Disk). P (record_locked py is_red h r x).1) (sym q)
              (record_locked-IsGrown h r disk))
            (inl (λ i. (q i).events.records))
  after_preview-IsGrown h r disk (err e) =
      let P = λ (o : Outcome StoreResult). IsGrown py is_red h.identity r disk.events o.1 in
      let Q = λ (d : Disk). d.events.records ≡ disk.events.records in
      let refuse : Option State → Disk → Outcome StoreResult = λ _ d. (err store, d) in
      let call = load_state_for_write py is_red h r.plan disk in
      let same = loaded-events py is_red h disk (read_snapshot py is_red r.plan disk.snapshot) in
      if-keeps P (is_corrupt e && h.is_safe) (and_then call refuse) _
        (inl (and_then-rule Q Q call refuse (λ i. (same i).records) (λ _ p. p) (λ _ d _ p. p)))
        (if-keeps P (is_corrupt e) (err unsafe_path, disk) (err e, disk) (inl refl) (inl refl))

  pub record_request-IsGrown :
      (h : Host) (r : Request) (disk : Disk)
      → IsGrown py is_red h.identity r disk.events (record_request py is_red h r disk).1
  unfolding record_request
  record_request-IsGrown h r disk = after_preview-IsGrown h r disk _
