-- ===== src/Store/Migration.antt =====
-- correlation/engine/state.py, the start of `GraphMemory` on a database file: `_init_schema` makes the tables that
-- are missing, `_migrate` brings the tables of an older version to the columns of this one, and `__init__` records
-- the version of the model. SQLite is left out: a table is the list of its rows.
use mathlib.Core.Option
use abb_accelerator_submissi.Prelude.{
  ℕ, Bool, false, Option, none, some, List, [], map, String, Float, nought, ◌==◌, text_key,
  if◌then◌else◌,
}
use abb_accelerator_submissi.Gate.{Evidence}
use abb_accelerator_submissi.Pipeline.{Verdict}
use abb_accelerator_submissi.Memory.{EdgeState, Row}
use abb_accelerator_submissi.Baselines.{Baseline}
use abb_accelerator_submissi.Cases.{Case, Fingerprint, Observation}
use abb_accelerator_submissi.Store.{Memory, Mistake, ModelVersion, record_model_version}

-- A row of `edge_memory` before version 3, without the column `base_conf`.
pub record UnflooredRow (R : Type 0) : Type 0 where
  pub src : String
  pub dst : String
  pub signal : String
  pub confidence : R
  pub r : R
  pub lag_s : ℕ
  pub evidence : List Evidence
  pub hits : ℕ
  pub visible : Bool
  pub state : EdgeState
  pub first_seen_ts : R
  pub last_seen_ts : R
  pub updated_ts : R

-- A row of `cases` before version 4, without the column `family_id`.
pub record LoneCase (R : Type 0) : Type 0 where
  pub id : String
  pub shape : Fingerprint
  pub occurrences : ℕ
  pub first_seen_ts : R
  pub last_seen_ts : R
  pub typical_lead_time_s : Option R

-- A table with the columns that it was made with.
pub data EdgeTable (R : Type 0) : Type 0 where
  unfloored : List (UnflooredRow R) → EdgeTable R
  floored : List (Row R) → EdgeTable R

pub data CaseTable (R : Type 0) : Type 0 where
  lone : List (LoneCase R) → CaseTable R
  families : List (Case R) → CaseTable R

-- The file as it is found: `none` is a table that is not there. `schema_version` is the row of `schema_meta`.
pub record Disk (R : Type 0) : Type 0 where
  pub schema_version : Option String
  pub edge_memory : Option (EdgeTable R)
  pub cases : Option (CaseTable R)
  pub case_observations : Option (List (Observation R))
  pub graph_snapshots : Option (List (R × Verdict R))
  pub model_versions : Option (List (ModelVersion R))
  pub mistakes : Option (List (Mistake R))
  pub baselines : Option (List (Baseline R))

-- The file with all its tables.
pub record Schema (R : Type 0) : Type 0 where
  pub schema_version : Option String
  pub edge_memory : EdgeTable R
  pub cases : CaseTable R
  pub case_observations : List (Observation R)
  pub graph_snapshots : List (R × Verdict R)
  pub model_versions : List (ModelVersion R)
  pub mistakes : List (Mistake R)
  pub baselines : List (Baseline R)

-- `SCHEMA_VERSION`
abbrev pub current_version : String
current_version = "l3-memory-v5"

-- The version whose edges were keyed by pods.
abbrev pub pod_version : String
pod_version = "l3-memory-v1"

abbrev pub or_empty {ℓ} : {A : Type ℓ} → A → Option A → A
or_empty fresh none = fresh
or_empty fresh (some table) = table

-- `prev == v`, where `prev` is the row or `None`.
abbrev pub is_version : String → Option String → Bool
is_version v none = false
is_version v (some prev) = prev == v

module _ {R : Type 0} where
  -- The script of `_init_schema`: `CREATE TABLE IF NOT EXISTS`, with the columns of this version.
  unfoldable pub create_tables : Disk R → Schema R
  create_tables d = record {
    schema_version = d.schema_version;
    edge_memory = or_empty (EdgeTable.floored []) d.edge_memory;
    cases = or_empty (CaseTable.families []) d.cases;
    case_observations = or_empty [] d.case_observations;
    graph_snapshots = or_empty [] d.graph_snapshots;
    model_versions = or_empty [] d.model_versions;
    mistakes = or_empty [] d.mistakes;
    baselines = or_empty [] d.baselines;
  }

  -- `DELETE FROM edge_memory`: the columns stay.
  unfoldable pub delete_edges : EdgeTable R → EdgeTable R
  delete_edges (EdgeTable.unfloored rows) = EdgeTable.unfloored []
  delete_edges (EdgeTable.floored rows) = EdgeTable.floored []

  -- `ALTER TABLE cases ADD COLUMN family_id`, then `SET family_id=id`.
  abbrev pub own_family : LoneCase R → Case R
  own_family c = record {
    id = c.id;
    shape = c.shape;
    occurrences = c.occurrences;
    first_seen_ts = c.first_seen_ts;
    last_seen_ts = c.last_seen_ts;
    typical_lead_time_s = c.typical_lead_time_s;
    family_id = some c.id;
  }

  unfoldable pub add_family_id : CaseTable R → CaseTable R
  add_family_id (CaseTable.lone cases) = CaseTable.families (map own_family cases)
  add_family_id (CaseTable.families cases) = CaseTable.families cases

  -- The queries of the class name every column: a table without one fails.
  abbrev pub floored_rows : EdgeTable R → Option (List (Row R))
  floored_rows (EdgeTable.unfloored rows) = none
  floored_rows (EdgeTable.floored rows) = some rows

  abbrev pub family_rows : CaseTable R → Option (List (Case R))
  family_rows (CaseTable.lone cases) = none
  family_rows (CaseTable.families cases) = some cases

  unfoldable pub tables_of : Schema R → Option (Memory R)
  tables_of s = elim (floored_rows s.edge_memory) [
    | none ↦ none
    | some rows ↦ elim (family_rows s.cases) [
      | none ↦ none
      | some cases ↦ some (record {
        edge_memory = rows;
        baselines = s.baselines;
        archive = record { cases = cases; observations = s.case_observations };
        graph_snapshots = s.graph_snapshots;
        model_versions = s.model_versions;
        mistakes = s.mistakes;
      })
    ]
  ]

  -- What the file holds when the process ends: the tables, and the version that the start left there.
  abbrev pub disk_of : Option String → Memory R → Disk R
  disk_of recorded m = record {
    schema_version = recorded;
    edge_memory = some (EdgeTable.floored m.edge_memory);
    cases = some (CaseTable.families m.archive.cases);
    case_observations = some m.archive.observations;
    graph_snapshots = some m.graph_snapshots;
    model_versions = some m.model_versions;
    mistakes = some m.mistakes;
    baselines = some m.baselines;
  }

module _ {R : Type 0} ⦃f : Float R⦄ where
  -- `ALTER TABLE edge_memory ADD COLUMN base_conf REAL NOT NULL DEFAULT 0`
  abbrev pub floor_row : UnflooredRow R → Row R
  floor_row row = record {
    src = row.src;
    dst = row.dst;
    signal = row.signal;
    confidence = row.confidence;
    r = row.r;
    lag_s = row.lag_s;
    evidence = row.evidence;
    hits = row.hits;
    visible = row.visible;
    state = row.state;
    first_seen_ts = row.first_seen_ts;
    last_seen_ts = row.last_seen_ts;
    updated_ts = row.updated_ts;
    base_conf = nought;
  }

  unfoldable pub add_base_conf : EdgeTable R → EdgeTable R
  add_base_conf (EdgeTable.unfloored rows) = EdgeTable.floored (map floor_row rows)
  add_base_conf (EdgeTable.floored rows) = EdgeTable.floored rows

  unfoldable pub migrate : Schema R → Schema R
  unfolding delete_edges add_base_conf add_family_id
  migrate s = if is_version current_version s.schema_version then s else record s {
    schema_version = some current_version;
    edge_memory = add_base_conf (
        if is_version pod_version s.schema_version
        then delete_edges s.edge_memory
        else s.edge_memory);
    cases = add_family_id s.cases;
  }

  -- The version that the file has after the start: nothing else writes it.
  unfoldable pub recorded_version : Disk R → Option String
  unfolding create_tables migrate
  recorded_version d = (migrate (create_tables d)).schema_version

  -- `__init__`: the memory that a file opens to, with `v` for the version of the model.
  unfoldable pub open_memory : ModelVersion R → Disk R → Option (Memory R)
  unfolding create_tables migrate tables_of record_model_version
  open_memory v d = Option.map (record_model_version v) (tables_of (migrate (create_tables d)))
