-- ===== src/Store/Success.antt =====
-- What `record_event` has done when it returns a change.
use codex_ralph_vault_loop.Base.{
  ℕ, suc, ◌+◌, ◌≡◌, refl, subst, sym, ◌∙◌, Bool, true, false, ◌&&◌, Option, none, some, List,
  length, String, if◌then◌else◌, if-keeps, ltb, leb, snoc,
}
use codex_ralph_vault_loop.Json.{Dict}
use codex_ralph_vault_loop.Python.{Library, ok, err, ok-injective}
use codex_ralph_vault_loop.Store.Checked.{
  Checked, StoreError, bind-elim, io, is_corrupt, store, unsafe_path,
}
use codex_ralph_vault_loop.Store.State.{State, state_dict, state_limit, encoded_size}
use codex_ralph_vault_loop.Store.Event.{Event, event_dict, event_limit}
use codex_ralph_vault_loop.Store.Journal.{last_hash}
use codex_ralph_vault_loop.Store.Build.{Draft, build_event}
use codex_ralph_vault_loop.Store.Chain.{build_event-IsNext}
use codex_ralph_vault_loop.Store.Advance.{IsRecord, state_after_event-IsMoved}
use codex_ralph_vault_loop.Store.Files.{
  Document, document, absent, unreadable, undecodable, Lines, Write, succeeds, fails, fails_late,
  tears, append_jsonl, publish_json, replaced_by, written,
}
use codex_ralph_vault_loop.Store.Disk.{
  Disk, Host, Outcome, and_then, read_plan_events, publish_state, load_state_for_write,
  journal_bytes, journal_records,
}
use codex_ralph_vault_loop.Store.RecordEvent.{
  Request, StoreResult, Step, settled, appends, decide, commit, perform, draft_of, record_locked,
  after_preview, record_request,
}
use codex_ralph_vault_loop.Store.Growth.{decide-appends, loaded-events}
use codex_ralph_vault_loop.Store.Journaling.{published_manifest-IsKept, commit-events}

-- A call and the next one, where both returned.
and_then-elim {ℓ} :
    {A B : Type 0} {P : Type ℓ} {call : Outcome A} {next : A → Disk → Outcome B} {b : B}
    {after : Disk}
    → and_then call next ≡ (ok b, after)
    → ((a : A) (d : Disk) → call ≡ (ok a, d) → next a d ≡ (ok b, after) → P)
    → P
unfolding and_then
and_then-elim {call = (ok a, d)} e rule = rule a d refl e
and_then-elim {B = B} {call = (err x, d)} {b = b} e rule =
    let clash : ◌≡◌ {A = Checked B} (err x) (ok b) = λ i. (e i).0 in cc

replaced_by-ok :
    (w : Write) (payload : Dict) (doc : Document)
    → (replaced_by w payload doc).0 ≡ ok tt
    → (replaced_by w payload doc).1 ≡ document payload
replaced_by-ok succeeds payload doc h = refl
replaced_by-ok fails payload doc h = cc
replaced_by-ok fails_late payload doc h = refl
replaced_by-ok (tears n) payload doc h = cc

written-ok :
    (w : Write) (payload : Dict) (size : ℕ) (f : Lines)
    → (written w payload size f).0 ≡ ok tt
    → (written w payload size f).1.records ≡ snoc f.records (some payload)
unfolding written
written-ok succeeds payload size f h = refl
written-ok fails payload size f h = cc
written-ok fails_late payload size f h = refl
written-ok (tears n) payload size f h = cc

module _ (py : Library) where
  fits :
      (w : Write) (limit : ℕ) (payload : Dict) (doc : Document)
      → (if ltb limit (encoded_size py payload) then (err io, doc) else replaced_by w payload doc).0
        ≡ ok tt
      → (if ltb limit (encoded_size py payload) then (err io, doc) else replaced_by w payload doc).1
        ≡ document payload
  fits w limit payload doc =
      if-keeps (λ (o : Checked (Unit {0}) × Document). o.0 ≡ ok tt → o.1 ≡ document payload)
        (ltb limit (encoded_size py payload)) (err io, doc) (replaced_by w payload doc) (λ h. cc)
        (replaced_by-ok w payload doc)

  publish_json-ok :
      (w : Write) (limit : ℕ) (payload : Dict) (doc : Document)
      → (publish_json py w limit payload doc).0 ≡ ok tt
      → (publish_json py w limit payload doc).1 ≡ document payload
  unfolding publish_json
  publish_json-ok w limit payload unreadable = λ h. cc
  publish_json-ok w limit payload absent = fits w limit payload absent
  publish_json-ok w limit payload undecodable = fits w limit payload undecodable
  publish_json-ok w limit payload (document d) = fits w limit payload (document d)

  append_jsonl-ok :
      (w : Write) (hard total most existing : ℕ) (payload : Dict) (f : Lines)
      → (append_jsonl py w hard total most existing payload f).0 ≡ ok tt
      → (append_jsonl py w hard total most existing payload f).1.records
        ≡ snoc f.records (some payload)
  unfolding append_jsonl
  append_jsonl-ok w hard total most existing payload f =
      let P = λ (o : Checked (Unit {0}) × Lines).
        o.0 ≡ ok tt → o.1.records ≡ snoc f.records (some payload) in
      let size = suc (encoded_size py payload) in
      if-keeps P (ltb hard size) (err io, f) _ (λ h. cc)
        (if-keeps P (ltb total (f.bytes + size)) (err io, f) _ (λ h. cc)
          (if-keeps P (leb most existing) (err io, f) (written w payload size f) (λ h. cc)
            (written-ok w payload size f)))

module _ (py : Library) (is_red : String → Bool) where
  -- What has been done when a change is returned: the journal that was read has one more record,
  -- and the snapshot on disk is the state returned, which stands at that record.
  pub record IsDone (identity : String) (r : Request) (before : Disk) (s : State) (after : Disk)
      : Type 0 where
    pub journal : List Event
    pub added : Event
    pub reads_journal : read_plan_events py is_red identity r.plan true before.events ≡ ok journal
    pub adds : after.events.records ≡ snoc before.events.records (some (event_dict added))
    pub is_stored : after.snapshot ≡ document (state_dict s)
    pub at_sequence : s.last_event_sequence ≡ length journal + 1
    pub at_hash : s.last_event_hash ≡ added.record_hash

  build_event-IsRecord :
      (s : State) (b : Draft) (e : Event)
      → build_event py is_red s b ≡ ok e
      → IsRecord py is_red b.plan e
  unfolding build_event
  build_event-IsRecord s b e h = bind-elim h λ payload _ h. bind-elim h λ unhashed _ h. (_, h)

  commit-IsDone :
      (h : Host) (r : Request) (s d : State) (es : List Event) (e : Event) (c : State)
      (before disk after : Disk) (res : StoreResult)
      → read_plan_events py is_red h.identity r.plan true before.events ≡ ok es
      → disk.events ≡ before.events
      → build_event py is_red d (draft_of py is_red r s d (length es + 1) (last_hash "" es)) ≡ ok e
      → commit py is_red h r s es e c disk ≡ (ok res, after)
      → IsDone h.identity r before res.state after
  unfolding commit publish_state
  commit-IsDone h r s d es e c before disk after res reads same built q =
      let file = commit-events py is_red h r s es e c disk in
      let ended = q in
      and_then-elim q λ _ d1 q1 q. and_then-elim q λ next d2 q2 q. and_then-elim q λ _ d3 q3 q.
        and_then-elim q λ m d4 q4 q.
          let moved =
            state_after_event-IsMoved py is_red r.plan r.timestamp c next e
              (build_event-IsRecord d _ e built) (λ i. (q2 i).0) in
          let place = build_event-IsNext py is_red d _ e built in
          let returned = ok-injective (λ i. (q i).0) in
          let kept = published_manifest-IsKept py is_red h s next d3 in
          record {
            journal = es;
            added = e;
            reads_journal = reads;
            adds =
                sym (λ i. (ended i).1.events.records)
                ∙ (λ i. (file i).records)
                ∙ append_jsonl-ok py h.event_write event_limit journal_bytes journal_records
                    (length es) (event_dict e) disk.events (λ i. (q1 i).0)
                ∙ (λ i. snoc (same i).records (some (event_dict e)));
            is_stored =
                sym (λ i. (q i).1.snapshot)
                ∙ sym (λ i. (q4 i).1.snapshot)
                ∙ kept.1
                ∙ sym (λ i. (q3 i).1.snapshot)
                ∙ publish_json-ok py h.state_write state_limit (state_dict next) d2.snapshot
                    (λ i. (q3 i).0)
                ∙ (λ i. document (state_dict (returned i).state));
            at_sequence =
                sym (λ i. (returned i).state.last_event_sequence) ∙ moved.at_sequence ∙ place.0;
            at_hash = sym (λ i. (returned i).state.last_event_hash) ∙ moved.at_hash;
          }

  perform-IsDone :
      (h : Host) (r : Request) (s : State) (recovered : Bool) (es : List Event) (step : Step)
      (before disk after : Disk) (res : StoreResult)
      → read_plan_events py is_red h.identity r.plan true before.events ≡ ok es
      → disk.events ≡ before.events
      → decide py is_red h.identity r s es ≡ ok step
      → res.changed ≡ true
      → perform py is_red h r s recovered es step disk ≡ (ok res, after)
      → IsDone h.identity r before res.state after
  unfolding perform
  perform-IsDone h r s recovered es (settled event reason) before disk after res reads same decided
        changed q =
      and_then-elim q λ _ d _ q.
        let kept : false ≡ true = (λ i. (ok-injective (λ j. (q j).0) i).changed) ∙ changed in cc
  perform-IsDone h r s recovered es (appends e c) before disk after res reads same decided changed
        q =
      let (_, (d, built)) = decide-appends py is_red h.identity r s c es e decided in
      commit-IsDone h r s d es e c before disk after res reads same built q

  record_locked-IsDone :
      (h : Host) (r : Request) (disk after : Disk) (res : StoreResult)
      → res.changed ≡ true
      → record_locked py is_red h r disk ≡ (ok res, after)
      → IsDone h.identity r disk res.state after
  unfolding record_locked load_state_for_write
  record_locked-IsDone h r disk after res changed q = and_then-elim q λ found d1 q1 q.
      and_then-elim q λ es d2 q2 q. and_then-elim q λ s d3 q3 q. and_then-elim q λ step d4 q4 q.
        let same = sym (λ i. (q1 i).1.events) ∙ loaded-events py is_red h disk _ in
        perform-IsDone h r s.0 s.1 es step disk d4 after res
          (subst (λ f. read_plan_events py is_red h.identity r.plan true f ≡ ok es) same
            (λ i. (q2 i).0))
          (sym (λ i. (q4 i).1.events)
            ∙ sym (λ i. (q3 i).1.events)
            ∙ sym (λ i. (q2 i).1.events)
            ∙ same)
          (λ i. (q4 i).0) changed q

  clash :
      {P : Type 0} (x : StoreError) (d after : Disk) (res : StoreResult)
      → ◌≡◌ {A = Outcome StoreResult} (err x, d) (ok res, after)
      → P
  clash x d after res q =
      let e : ◌≡◌ {A = Checked StoreResult} (err x) (ok res) = λ i. (q i).0 in cc

  after_preview-IsDone :
      (h : Host) (r : Request) (disk after : Disk) (res : StoreResult)
      (seen : Checked (Option State))
      → res.changed ≡ true
      → after_preview py is_red h r disk seen ≡ (ok res, after)
      → IsDone h.identity r disk res.state after
  unfolding after_preview
  after_preview-IsDone h r disk after res (ok none) changed q = clash store disk after res q
  after_preview-IsDone h r disk after res (ok (some s)) changed q = and_then-elim q λ _ d q1 q.
      subst (λ b. IsDone h.identity r b res.state after) (sym (λ i. (q1 i).1))
        (if-keeps
          (λ (o : Outcome StoreResult). o ≡ (ok res, after) → IsDone h.identity r d res.state after)
          h.is_safe (record_locked py is_red h r d) (err unsafe_path, d)
          (record_locked-IsDone h r d after res changed) (clash unsafe_path d after res) q)
  after_preview-IsDone h r disk after res (err e) changed q =
      let P = λ (o : Outcome StoreResult).
        o ≡ (ok res, after) → IsDone h.identity r disk res.state after in
      let refuse : Option State → Disk → Outcome StoreResult = λ _ d. (err store, d) in
      let call = load_state_for_write py is_red h r.plan disk in
      if-keeps P (is_corrupt e && h.is_safe) (and_then call refuse) _
        (λ q. and_then-elim q λ _ d _ q. clash store d after res q)
        (if-keeps P (is_corrupt e) (err unsafe_path, disk) (err e, disk)
          (clash unsafe_path disk after res) (clash e disk after res))
        q

  pub record_request-IsDone :
      (h : Host) (r : Request) (disk after : Disk) (res : StoreResult)
      → res.changed ≡ true
      → record_request py is_red h r disk ≡ (ok res, after)
      → IsDone h.identity r disk res.state after
  unfolding record_request
  record_request-IsDone h r disk after res changed q =
      after_preview-IsDone h r disk after res _ changed q
