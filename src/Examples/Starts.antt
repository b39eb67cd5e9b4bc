-- ===== src/Examples/Starts.antt =====
-- The theorems on the database file and on the stored cases, at concrete tables.
use abb_accelerator_submissi.Prelude.{◌≡◌, refl, true, none, some, [], ◌∷◌}
use abb_accelerator_submissi.Thousandths.{above, thousandths_float, Thousandths-IsOrdered}
use abb_accelerator_submissi.Memory.{EdgeState}
use abb_accelerator_submissi.Gate.{Evidence}
use abb_accelerator_submissi.Cases.{Case, Fingerprint, enter_case}
use abb_accelerator_submissi.Cases.Registers.{IsRegistered, enter_case-IsRegistered}
use abb_accelerator_submissi.Store.{Memory, ModelVersion, record_model_version}
use abb_accelerator_submissi.Store.Migration.{
  UnflooredRow, LoneCase, EdgeTable, CaseTable, Disk, open_memory, disk_of, recorded_version,
  create_tables, migrate, tables_of, add_base_conf, add_family_id,
}
use abb_accelerator_submissi.Store.Opening.{IsUpgrade, open_memory-IsUpgrade, open_memory-disk_of}
use abb_accelerator_submissi.Examples.{T, plant_cfg, plant_digest}

abbrev old_row : UnflooredRow T
old_row = record {
  src = "analytics";
  dst = "vision";
  signal = "psi";
  confidence = above 700;
  r = above 800;
  lag_s = 5;
  evidence = Evidence.stat ∷ [];
  hits = 4;
  visible = true;
  state = EdgeState.active;
  first_seen_ts = above 0;
  last_seen_ts = above 5000;
  updated_ts = above 5000;
}

abbrev old_shape : Fingerprint
old_shape = record {
  stressors = "analytics" ∷ [];
  victims = "vision" ∷ [];
  motif = ("analytics", "vision") ∷ [];
  signal = "psi";
  witness_kind = none;
}

abbrev old_case : LoneCase T
old_case = record {
  id = "c1";
  shape = old_shape;
  occurrences = 2;
  first_seen_ts = above 0;
  last_seen_ts = above 5000;
  typical_lead_time_s = none;
}

-- A file of version 2: no floors, no families, no baselines.
abbrev old_disk : Disk T
old_disk = record {
  schema_version = some "l3-memory-v2";
  edge_memory = some (EdgeTable.unfloored (old_row ∷ []));
  cases = some (CaseTable.lone (old_case ∷ []));
  case_observations =
      some (record { ts = above 1; case_id = "c1"; root = "analytics"; victims = [] } ∷ []);
  graph_snapshots = some [];
  model_versions = none;
  mistakes = none;
  baselines = none;
}

abbrev version : ModelVersion T
version = record {
  ts = above 9;
  component = "edge-memory";
  version = "l3-memory-v5";
  params_json = "{}";
  notes = "";
}

-- What it opens to.
abbrev opened : Memory T
opened = record {
  edge_memory =
      record {
        src = "analytics";
        dst = "vision";
        signal = "psi";
        confidence = above 700;
        r = above 800;
        lag_s = 5;
        evidence = Evidence.stat ∷ [];
        hits = 4;
        visible = true;
        state = EdgeState.active;
        first_seen_ts = above 0;
        last_seen_ts = above 5000;
        updated_ts = above 5000;
        base_conf = above 0;
      }
      ∷ [];
  baselines = [];
  archive = record {
    cases =
        record {
          id = "c1";
          shape = old_shape;
          occurrences = 2;
          first_seen_ts = above 0;
          last_seen_ts = above 5000;
          typical_lead_time_s = none;
          family_id = some "c1";
        }
        ∷ [];
    observations = record { ts = above 1; case_id = "c1"; root = "analytics"; victims = [] } ∷ [];
  };
  graph_snapshots = [];
  model_versions = version ∷ [];
  mistakes = [];
}

opens : open_memory version old_disk ≡ some opened
unfolding open_memory create_tables migrate tables_of add_base_conf add_family_id
    record_model_version
opens = refl

open_memory-IsUpgrade_example :
    (m : Memory T) × (open_memory version old_disk ≡ some m) × IsUpgrade version old_disk m
open_memory-IsUpgrade_example = open_memory-IsUpgrade version old_disk (λ h. absurd (cc))

open_memory-disk_of_example :
    open_memory version (disk_of (recorded_version old_disk) opened) ≡ some opened
open_memory-disk_of_example = open_memory-disk_of version old_disk opened (λ h. absurd (cc)) opens

abbrev stored : Case T
stored = record {
  id = "c1";
  shape = old_shape;
  occurrences = 2;
  first_seen_ts = above 0;
  last_seen_ts = above 5000;
  typical_lead_time_s = none;
  family_id = some "c1";
}

enter_case-IsRegistered_example :
    IsRegistered plant_cfg
      (plant_digest old_shape)
      old_shape
      none
      (above 9)
      (stored ∷ [])
      (enter_case plant_cfg plant_digest old_shape none (above 9) (stored ∷ []))
enter_case-IsRegistered_example =
    enter_case-IsRegistered Thousandths-IsOrdered plant_cfg plant_digest old_shape none (above 9)
      (stored ∷ []) refl
