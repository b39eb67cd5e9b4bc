-- ===== src/Store/Opening.antt =====
-- The start of `GraphMemory` on files of every version, and a restart on its own file.
use mathlib.Core.Option
use mathlib.Core.Option.{some-injective}
use abb_accelerator_submissi.Prelude.{
  ◌≡◌, refl, sym, ap, subst, ◌∙◌, inl, inr, Bool, true, false, Option, none, some, List, [], ◌∷◌,
  ◌++◌, map, String, any, arith, Bool-cases, Float, IsRounded, All, ==_refl, text_key,
  if◌then◌else◌, is_some,
}
use abb_accelerator_submissi.Memory.{Row}
use abb_accelerator_submissi.Memory.Keyed.{IsKeyed}
use abb_accelerator_submissi.Memory.Bounds.{IsBounded}
use abb_accelerator_submissi.Cases.{Case}
use abb_accelerator_submissi.Cases.Promotion.{IsLinked}
use abb_accelerator_submissi.Store.{Memory, ModelVersion, same_model, record_model_version}
use abb_accelerator_submissi.Store.Observing.{IsSound}
use abb_accelerator_submissi.Store.Migration.{
  EdgeTable, CaseTable, Disk, Schema, current_version, pod_version, or_empty, delete_edges,
  add_base_conf, add_family_id, floored_rows, family_rows, create_tables, own_family, floor_row,
  tables_of, disk_of, recorded_version, is_version, migrate, open_memory,
}

current-not-pods :
    (prev : Option String)
    → is_version current_version prev ≡ true
    → is_version pod_version prev ≡ false
current-not-pods none h = absurd (cc)
current-not-pods (some prev) h = rw ((text_key.same_iff prev current_version).0 h) refl

module _ {R : Type 0} ⦃f : Float R⦄ where
  -- The rows of a table, with the floor 0 where the column is missing.
  abbrev pub rows_of : Option (EdgeTable R) → List (Row R)
  rows_of none = []
  rows_of (some (EdgeTable.unfloored rows)) = map floor_row rows
  rows_of (some (EdgeTable.floored rows)) = rows

  -- The edges that a file carries over: none where they are keyed by pods.
  abbrev pub carried : Disk R → List (Row R)
  carried d = if is_version pod_version d.schema_version then [] else rows_of d.edge_memory

module _ {R : Type 0} where
  -- The cases of a table, each its own family where the column is missing.
  abbrev pub cases_of : Option (CaseTable R) → List (Case R)
  cases_of none = []
  cases_of (some (CaseTable.lone cases)) = map own_family cases
  cases_of (some (CaseTable.families cases)) = cases

  -- A file of the current version has all its columns.
  abbrev pub IsVersioned : Disk R → Type 0
  IsVersioned d =
      is_version current_version d.schema_version ≡ true
      → is_some (tables_of (create_tables d)) ≡ true

module _ {R : Type 0} ⦃f : Float R⦄ where
  -- What a memory keeps of the file that it was opened from.
  pub record IsUpgrade (v : ModelVersion R) (d : Disk R) (m : Memory R) : Type 0 where
    pub edges : m.edge_memory ≡ carried d
    pub cases : m.archive.cases ≡ cases_of d.cases
    pub observations : m.archive.observations ≡ or_empty [] d.case_observations
    pub snapshots : m.graph_snapshots ≡ or_empty [] d.graph_snapshots
    pub mistakes : m.mistakes ≡ or_empty [] d.mistakes
    pub baselines : m.baselines ≡ or_empty [] d.baselines
    pub versions :
        m.model_versions
        ≡ (record_model_version v
            (record m { model_versions = or_empty [] d.model_versions })).model_versions

  upgraded : ModelVersion R → Disk R → Memory R
  upgraded v d = record_model_version v (record {
    edge_memory = carried d;
    baselines = or_empty [] d.baselines;
    archive = record { cases = cases_of d.cases; observations = or_empty [] d.case_observations };
    graph_snapshots = or_empty [] d.graph_snapshots;
    model_versions = or_empty [] d.model_versions;
    mistakes = or_empty [] d.mistakes;
  })

  -- the columns that a migration adds
  add_base_conf-rows :
      (pods : Bool) (t : Option (EdgeTable R))
      → add_base_conf (
          if pods
          then delete_edges (or_empty (EdgeTable.floored []) t)
          else or_empty (EdgeTable.floored []) t)
        ≡ EdgeTable.floored (if pods then [] else rows_of t)
  unfolding add_base_conf delete_edges
  add_base_conf-rows true none = refl
  add_base_conf-rows true (some (EdgeTable.unfloored rows)) = refl
  add_base_conf-rows true (some (EdgeTable.floored rows)) = refl
  add_base_conf-rows false none = refl
  add_base_conf-rows false (some (EdgeTable.unfloored rows)) = refl
  add_base_conf-rows false (some (EdgeTable.floored rows)) = refl

  add_family_id-cases :
      (t : Option (CaseTable R))
      → add_family_id (or_empty (CaseTable.families []) t) ≡ CaseTable.families (cases_of t)
  unfolding add_family_id
  add_family_id-cases none = refl
  add_family_id-cases (some (CaseTable.lone cases)) = refl
  add_family_id-cases (some (CaseTable.families cases)) = refl

  -- the columns that are there
  floored_rows-rows :
      (t : Option (EdgeTable R))
      → is_some (floored_rows (or_empty (EdgeTable.floored []) t)) ≡ true
      → or_empty (EdgeTable.floored []) t ≡ EdgeTable.floored (rows_of t)
  floored_rows-rows none h = refl
  floored_rows-rows (some (EdgeTable.unfloored rows)) h = absurd (cc)
  floored_rows-rows (some (EdgeTable.floored rows)) h = refl

  family_rows-cases :
      (t : Option (CaseTable R))
      → is_some (family_rows (or_empty (CaseTable.families []) t)) ≡ true
      → or_empty (CaseTable.families []) t ≡ CaseTable.families (cases_of t)
  family_rows-cases none h = refl
  family_rows-cases (some (CaseTable.lone cases)) h = absurd (cc)
  family_rows-cases (some (CaseTable.families cases)) h = refl

  tables_of-rows :
      (s : Schema R) → is_some (tables_of s) ≡ true → is_some (floored_rows s.edge_memory) ≡ true
  unfolding tables_of
  tables_of-rows s h = ground arith

  tables_of-cases :
      (s : Schema R) → is_some (tables_of s) ≡ true → is_some (family_rows s.cases) ≡ true
  unfolding tables_of
  tables_of-cases s h = ground arith

  tables_of-some :
      (s : Schema R) (rows : List (Row R)) (cases : List (Case R))
      → s.edge_memory ≡ EdgeTable.floored rows
      → s.cases ≡ CaseTable.families cases
      → tables_of s
        ≡ some (record {
          edge_memory = rows;
          baselines = s.baselines;
          archive = record { cases = cases; observations = s.case_observations };
          graph_snapshots = s.graph_snapshots;
          model_versions = s.model_versions;
          mistakes = s.mistakes;
        })
  unfolding tables_of
  tables_of-some s rows cases e k = rw (e, k) refl

  migrate-current :
      (s : Schema R) → is_version current_version s.schema_version ≡ true → migrate s ≡ s
  unfolding migrate
  migrate-current s h = simp (h, migrate)

  -- The file at the current version.
  abbrev newer : Schema R → Schema R
  newer s = record s {
    schema_version = some current_version;
    edge_memory = add_base_conf (
        if is_version pod_version s.schema_version
        then delete_edges s.edge_memory
        else s.edge_memory);
    cases = add_family_id s.cases;
  }

  migrate-older :
      (s : Schema R) → is_version current_version s.schema_version ≡ false → migrate s ≡ newer s
  unfolding migrate
  migrate-older s h = simp (h, migrate)

  open_memory-upgraded :
      (v : ModelVersion R) (d : Disk R) → IsVersioned d → open_memory v d ≡ some (upgraded v d)
  unfolding open_memory upgraded create_tables migrate tables_of
  open_memory-upgraded v d h = elim (Bool-cases (is_version current_version d.schema_version)) [
    | inr old ↦
        let s : Schema R = create_tables d in
        ap (λ s. Option.map (record_model_version v) (tables_of s)) (migrate-older s old)
        ∙ ap (Option.map (record_model_version v)) (
            tables_of-some (newer s) (carried d) (cases_of d.cases)
              (add_base_conf-rows (is_version pod_version d.schema_version) d.edge_memory)
              (add_family_id-cases d.cases))
    | inl new ↦
        let s : Schema R = create_tables d in
        let full =
          tables_of-some s (carried d) (cases_of d.cases)
            (floored_rows-rows d.edge_memory (tables_of-rows s (h new))
              ∙ ap EdgeTable.floored (sym (simp (current-not-pods d.schema_version new))))
            (family_rows-cases d.cases (tables_of-cases s (h new))) in
        ap (λ s. Option.map (record_model_version v) (tables_of s)) (migrate-current s new)
        ∙ ap (Option.map (record_model_version v)) full
  ]

  -- A file of any version opens: the observations, the snapshots, the corrections and the baselines are those of the
  -- file, the cases too, where a case without a family becomes its own, and the edges too, with the floor 0 where
  -- they have none, unless they are keyed by pods, which drops them all. A file that says it is of the current
  -- version has to have the columns of it; a table that is not there counts as empty.
  pub open_memory-IsUpgrade :
      (v : ModelVersion R) (d : Disk R)
      → IsVersioned d
      → (m : Memory R) × (open_memory v d ≡ some m) × IsUpgrade v d m
  unfolding upgraded record_model_version
  open_memory-IsUpgrade v d h = (
    upgraded v d,
    open_memory-upgraded v d h,
    record {
      edges = refl;
      cases = refl;
      observations = refl;
      snapshots = refl;
      mistakes = refl;
      baselines = refl;
      versions = refl;
    },
  )

  -- A file whose rows keep the invariant of the memory, opened, gives a memory that keeps it.
  pub open_memory-IsSound :
      (laws : IsRounded R) (v : ModelVersion R) (d : Disk R) (m : Memory R)
      → IsVersioned d
      → IsKeyed (carried d)
      → All IsBounded (carried d)
      → IsLinked
          (record { cases = cases_of d.cases; observations = or_empty [] d.case_observations })
      → open_memory v d ≡ some m
      → IsSound m
  unfolding upgraded record_model_version
  open_memory-IsSound laws v d m h keyed bounded linked e =
      subst IsSound (some-injective _ _ (sym (open_memory-upgraded v d h) ∙ e))
        (record { keyed = keyed; bounded = bounded; linked = linked })

  same_model_refl : (v : ModelVersion R) → same_model v v ≡ true
  same_model_refl v = ground (arith, ==_refl v.component, ==_refl v.version, ==_refl v.params_json)

  any-append_last :
      (v : ModelVersion R) (vs : List (ModelVersion R)) → any (same_model v) (vs ++ v ∷ []) ≡ true
  any-append_last v [] = rw (same_model_refl v) refl
  any-append_last v (w ∷ vs) = rw (any-append_last v vs) (ground arith)

  record_model_version_idem :
      (v : ModelVersion R) (m : Memory R)
      → record_model_version v (record_model_version v m) ≡ record_model_version v m
  unfolding record_model_version
  record_model_version_idem v m = elim (Bool-cases (any (same_model v) m.model_versions)) [
    | inl old ↦ simp (old, record_model_version)
    | inr new ↦ simp (new, any-append_last v m.model_versions, record_model_version)
  ]

  pub reopened :
      (v : ModelVersion R) (recorded : Option String) (m : Memory R)
      → is_version pod_version recorded ≡ false
      → open_memory v (disk_of recorded m) ≡ some (record_model_version v m)
  unfolding record_model_version
  reopened v recorded m h =
      open_memory-upgraded v (disk_of recorded m) (λ e. unfold create_tables tables_of in refl)
      ∙ unfold upgraded in rw h refl

  -- A start leaves no version behind that drops the edges.
  pub recorded_version-not_pods : (d : Disk R) → is_version pod_version (recorded_version d) ≡ false
  unfolding recorded_version create_tables
  recorded_version-not_pods d = elim (Bool-cases (is_version current_version d.schema_version)) [
    | inl new ↦
        rw (recorded_version, migrate-current (create_tables d) new)
          (current-not-pods d.schema_version new)
    | inr old ↦ rw (recorded_version, migrate-older (create_tables d) old) refl
  ]

  pub open_memory-disk_of :
      (v : ModelVersion R) (d : Disk R) (m : Memory R)
      → IsVersioned d
      → open_memory v d ≡ some m
      → open_memory v (disk_of (recorded_version d) m) ≡ some m
  unfolding upgraded
  open_memory-disk_of v d m h e =
      let same : upgraded v d ≡ m = some-injective _ _ (sym (open_memory-upgraded v d h) ∙ e) in
      subst (λ x. open_memory v (disk_of (recorded_version d) x) ≡ some x) same
        (reopened v (recorded_version d) _ (recorded_version-not_pods d)
          ∙ ap some (record_model_version_idem v _))
