-- ===== src/Store/Discovery.antt =====
-- The manifest as the index of the plans: `_manifest_candidate` does not move a pointer back.
use codex_ralph_vault_loop.Base.{
  ℕ, suc, ◌≤◌, ◌≡◌, refl, subst, sym, ◌∙◌, Bool, true, false, Option, none, some, List, [], ◌∷◌,
  snoc, String, ◌==◌, ltb, arith, eq_iff, if◌then◌else◌, Bool-cases, inl, inr,
}
use codex_ralph_vault_loop.Python.{Library, ok, ok-injective}
use codex_ralph_vault_loop.Store.Checked.{bind-elim}
use codex_ralph_vault_loop.Store.State.{State}
use codex_ralph_vault_loop.Store.Manifest.{
  Pointer, Manifest, find_pointer, replace_pointer, manifest_change, change_of, change_with,
  manifest_candidate, pointer_of, Change, stale, kept, replaced, added, changed_manifest, is_moved,
}
use codex_ralph_vault_loop.Store.Pointers.{validate_manifest-injective}

-- How far a manifest says that a plan has come.
abbrev pub sequence_of : Option Pointer → ℕ
sequence_of none = 0
sequence_of (some p) = p.last_event_sequence

find-replace_same :
    (new old : Pointer) (ps : List Pointer)
    → find_pointer new.plan_id ps ≡ some old
    → find_pointer new.plan_id (replace_pointer new ps) ≡ some new
unfolding find_pointer replace_pointer
find-replace_same new old [] h = cc
find-replace_same new old (p ∷ ps) h = ground (
  arith,
  eq_iff p.plan_id new.plan_id,
  eq_iff new.plan_id new.plan_id,
  find-replace_same new old ps,
)

find-replace_other :
    (plan : String) (new : Pointer) (ps : List Pointer)
    → (new.plan_id == plan) ≡ false
    → find_pointer plan (replace_pointer new ps) ≡ find_pointer plan ps
unfolding find_pointer replace_pointer
find-replace_other plan new [] h = refl
find-replace_other plan new (p ∷ ps) h = ground (
  arith,
  eq_iff p.plan_id new.plan_id,
  eq_iff p.plan_id plan,
  eq_iff new.plan_id plan,
  find-replace_other plan new ps h,
)

find-snoc_same :
    (new : Pointer) (ps : List Pointer)
    → find_pointer new.plan_id ps ≡ none
    → find_pointer new.plan_id (snoc ps new) ≡ some new
unfolding find_pointer
find-snoc_same new [] h = ground (arith, eq_iff new.plan_id new.plan_id)
find-snoc_same new (p ∷ ps) h = ground (arith, find-snoc_same new ps)

find-snoc_other :
    (plan : String) (new : Pointer) (ps : List Pointer)
    → (new.plan_id == plan) ≡ false
    → find_pointer plan (snoc ps new) ≡ find_pointer plan ps
unfolding find_pointer
find-snoc_other plan new [] h = ground arith
find-snoc_other plan new (p ∷ ps) h = ground (arith, find-snoc_other plan new ps h)

-- The pointers after a publication of `new`.
pub record IsPublished (new : Pointer) (ps qs : List Pointer) : Type 0 where
  pub is_found : find_pointer new.plan_id qs ≡ some new
  pub keeps_others :
      (plan : String) → (new.plan_id == plan) ≡ false → find_pointer plan qs ≡ find_pointer plan ps
  pub is_not_behind : sequence_of (find_pointer new.plan_id ps) ≤ new.last_event_sequence

IsSound : Pointer → List Pointer → Change → Type 0
IsSound new ps stale = Unit
IsSound new ps (kept qs) = qs ≡ ps
IsSound new ps (replaced qs) = IsPublished new ps qs
IsSound new ps (added qs) = IsPublished new ps qs

change_with-IsSound :
    (new old : Pointer) (ps : List Pointer) (ahead moved : Bool)
    → find_pointer new.plan_id ps ≡ some old
    → (ahead ≡ false → old.last_event_sequence ≤ new.last_event_sequence)
    → IsSound new ps (change_with new ps ahead moved)
unfolding change_with IsSound
change_with-IsSound new old ps true moved found order = tt
change_with-IsSound new old ps false true found order = record {
  is_found = find-replace_same new old ps found;
  keeps_others = λ plan h. find-replace_other plan new ps h;
  is_not_behind = subst (λ o. sequence_of o ≤ new.last_event_sequence) (sym found) (order refl);
}
change_with-IsSound new old ps false false found order = refl

change_of-IsSound :
    (force : Bool) (new : Pointer) (ps : List Pointer) (found : Option Pointer)
    → find_pointer new.plan_id ps ≡ found
    → IsSound new ps (change_of force new ps found)
unfolding change_of IsSound
change_of-IsSound force new ps none h = record {
  is_found = find-snoc_same new ps h;
  keeps_others = λ plan differs. find-snoc_other plan new ps differs;
  is_not_behind = subst (λ o. sequence_of o ≤ new.last_event_sequence) (sym h) (ground arith);
}
change_of-IsSound force new ps (some old) h =
    change_with-IsSound new old ps (ltb new.last_event_sequence old.last_event_sequence)
      (is_moved force old new) h (λ later. ground arith)

-- What a candidate of the manifest is, told whether it is to be published.
pub record IsAdvanced (s : State) (m m' : Manifest) (changed : Bool) : Type 0 where
  pub keeps_sequences :
      (plan : String)
      → sequence_of (find_pointer plan m.plans) ≤ sequence_of (find_pointer plan m'.plans)
  pub keeps_others :
      (plan : String)
      → (s.plan_id == plan) ≡ false
      → find_pointer plan m'.plans ≡ find_pointer plan m.plans
  pub is_pointed : changed ≡ true → find_pointer s.plan_id m'.plans ≡ some (pointer_of s)
  pub counts : m'.generation ≡ (if changed then suc m.generation else m.generation)
  pub is_unchanged : changed ≡ false → m' ≡ m

same-IsAdvanced : (s : State) (m m' : Manifest) → m' ≡ m → IsAdvanced s m m' false
same-IsAdvanced s m m' same =
    subst (λ (n : Manifest). IsAdvanced s m n false) (sym same)
      (record {
        keeps_sequences = λ plan. ground arith;
        keeps_others = λ plan h. refl;
        is_pointed = λ h. cc;
        counts = refl;
        is_unchanged = λ h. refl;
      })

published-keeps :
    (new : Pointer) (ps qs : List Pointer) (plan : String)
    → IsPublished new ps qs
    → sequence_of (find_pointer plan ps) ≤ sequence_of (find_pointer plan qs)
published-keeps new ps qs plan published = elim (Bool-cases (new.plan_id == plan)) [
  | inl q ↦
      let same : new.plan_id ≡ plan = ground (arith, eq_iff new.plan_id plan) in
      subst (λ x. sequence_of (find_pointer x ps) ≤ sequence_of (find_pointer x qs)) same
        (subst (λ o. sequence_of (find_pointer new.plan_id ps) ≤ sequence_of o)
          (sym published.is_found) published.is_not_behind)
  | inr q ↦
      subst (λ o. sequence_of (find_pointer plan ps) ≤ sequence_of o)
        (sym (published.keeps_others plan q)) (ground arith)
]

published-IsAdvanced :
    (s : State) (m : Manifest) (qs : List Pointer) (m' : Manifest)
    → IsPublished (pointer_of s) m.plans qs
    → m' ≡ record m { generation = suc m.generation; plans = qs }
    → IsAdvanced s m m' true
published-IsAdvanced s m qs m' published same =
    subst (λ (n : Manifest). IsAdvanced s m n true) (sym same)
      (record {
        keeps_sequences = λ plan. published-keeps (pointer_of s) m.plans qs plan published;
        keeps_others = published.keeps_others;
        is_pointed = λ h. published.is_found;
        counts = refl;
        is_unchanged = λ h. cc;
      })

module _ (py : Library) (is_red : String → Bool) where
  changed_manifest-IsAdvanced :
      (s : State) (m : Manifest) (c : Change) (r : Manifest × Bool)
      → IsSound (pointer_of s) m.plans c
      → changed_manifest py is_red m c ≡ ok r
      → IsAdvanced s m r.0 r.1
  unfolding changed_manifest IsSound
  changed_manifest-IsAdvanced s m stale r sound h = bind-elim h λ c q h.
      subst (λ (r : Manifest × Bool). IsAdvanced s m r.0 r.1) (ok-injective h)
        (same-IsAdvanced s m c (validate_manifest-injective py is_red m c q))
  changed_manifest-IsAdvanced s m (kept plans) r sound h = bind-elim h λ c q h.
      subst (λ (r : Manifest × Bool). IsAdvanced s m r.0 r.1) (ok-injective h)
        (same-IsAdvanced s m c (
          validate_manifest-injective py is_red (record m { plans = plans }) c q
          ∙ (λ i. record m { plans = sound i })))
  changed_manifest-IsAdvanced s m (replaced plans) r sound h = bind-elim h λ c q h.
      subst (λ (r : Manifest × Bool). IsAdvanced s m r.0 r.1) (ok-injective h)
        (published-IsAdvanced s m plans c sound (validate_manifest-injective py is_red _ c q))
  changed_manifest-IsAdvanced s m (added plans) r sound h = bind-elim h λ c q h.
      subst (λ (r : Manifest × Bool). IsAdvanced s m r.0 r.1) (ok-injective h)
        (published-IsAdvanced s m plans c sound (validate_manifest-injective py is_red _ c q))

  pub manifest_candidate-IsAdvanced :
      (s : State) (m : Manifest) (force : Bool) (r : Manifest × Bool)
      → manifest_candidate py is_red m s force ≡ ok r
      → IsAdvanced s m r.0 r.1
  unfolding manifest_candidate manifest_change
  manifest_candidate-IsAdvanced s m force r h =
      changed_manifest-IsAdvanced s m (manifest_change force (pointer_of s) m.plans) r
        (change_of-IsSound force (pointer_of s) m.plans (find_pointer s.plan_id m.plans) refl) h
