-- ===== src/Store.antt =====
-- correlation/engine/state.py, `GraphMemory`: the tables of one signal, and `observe`, the update by a
-- pass. JSON columns that no query looks into are texts.
pub mod Observing
pub mod Migration
pub mod Opening
use abb_accelerator_submissi.Prelude.{
  ℕ, zero, suc, ◌+◌, Bool, ◌&&◌, Option, none, some, List, [], ◌∷◌, ◌++◌, map, String, any, length,
  select, Float, if◌then◌else◌, ◌==◌, text_key,
}
use abb_accelerator_submissi.Workload.{stable_workload}
use abb_accelerator_submissi.Gate.{Witness}
use abb_accelerator_submissi.Detectors.{Numpy}
use abb_accelerator_submissi.Events.{Vectors, keys}
use abb_accelerator_submissi.Pipeline.{Verdict}
use abb_accelerator_submissi.Memory.{MemoryConfig, Row, update_edges}
use abb_accelerator_submissi.Baselines.{Baseline, update_baselines}
use abb_accelerator_submissi.Cases.{Archive, Fingerprint, Promoted, promote_case, set_of, family_of}
use abb_accelerator_submissi.Render.{Rendered, render}

pub record ModelVersion (R : Type 0) : Type 0 where
  pub ts : R
  pub component : String
  pub version : String
  pub params_json : String
  pub notes : String

pub record Mistake (R : Type 0) : Type 0 where
  pub ts : R
  pub incident_id : Option String
  pub predicted_json : String
  pub correction_json : String
  pub notes : String
  pub status : String

pub record Memory (R : Type 0) : Type 0 where
  pub edge_memory : List (Row R)
  pub baselines : List (Baseline R)
  pub archive : Archive R
  pub graph_snapshots : List (R × Verdict R)
  pub model_versions : List (ModelVersion R)
  pub mistakes : List (Mistake R)

module _ {R : Type 0} where
  -- `UNIQUE(component, version, params_json)`
  abbrev pub same_model : ModelVersion R → ModelVersion R → Bool
  same_model a b =
      a.component == b.component && (a.version == b.version && a.params_json == b.params_json)

  -- `INSERT OR IGNORE`
  unfoldable pub record_model_version : ModelVersion R → Memory R → Memory R
  record_model_version v m = record m {
    model_versions =
        if any (same_model v) m.model_versions
        then m.model_versions
        else m.model_versions ++ v ∷ [];
  }

  unfoldable pub record_mistake : R → Option String → String → String → String → Memory R → Memory R
  record_mistake ts incident_id predicted correction notes m = record m {
    mistakes =
        m.mistakes
        ++ record {
          ts = ts;
          incident_id = incident_id;
          predicted_json = predicted;
          correction_json = correction;
          notes = notes;
          status = "open";
        }
          ∷ [];
  }

-- The counts of `stats`.
pub record Counts : Type 0 where
  pub edge_memory : ℕ
  pub visible_memory_edges : ℕ
  pub cases : ℕ
  pub families : ℕ
  pub open_mistakes : ℕ

unfoldable pub stats : {R : Type 0} → Memory R → Counts
unfolding set_of
stats m = record {
  edge_memory = length m.edge_memory;
  visible_memory_edges = length (select (λ row. row.visible) m.edge_memory);
  cases = length m.archive.cases;
  families = length (set_of (map family_of m.archive.cases));
  open_mistakes = length (select (λ x. x.status == "open") m.mistakes);
}

-- What `observe` returns: the rendered graph, the case of the incident if there is one, the counts.
pub record Report (R : Type 0) : Type 0 where
  pub rendered : Rendered R
  pub case : Option (Promoted R)
  pub counts : Counts

module _ {R : Type 0} ⦃f : Float R⦄ (cfg : MemoryConfig R) (np : Numpy R)
    (digest : Fingerprint → String) where
  -- The tables after a pass, and the case.
  unfoldable pub remember :
      Verdict R → Vectors R → Option Witness → R → Memory R → Option (Promoted R) × Memory R
  unfolding update_baselines update_edges promote_case
  remember graph vectors witness ts m =
      let present = map stable_workload (keys vectors) in
      let (case, archive) = promote_case cfg digest graph ts m.archive in
      (
        case,
        record {
          edge_memory =
              update_edges cfg (elim witness [ none ↦ none | some w ↦ some w.shared_relation ])
                graph.edges present ts m.edge_memory;
          baselines = update_baselines cfg np vectors ts m.baselines;
          archive = archive;
          graph_snapshots = elim graph.edges [
            | [] ↦ m.graph_snapshots
            | _ ∷ _ ↦ m.graph_snapshots ++ (ts, graph) ∷ []
          ];
          model_versions = m.model_versions;
          mistakes = m.mistakes;
        },
      )

  -- `now` is the time that `_render` reads.
  unfoldable pub observe :
      Verdict R → Vectors R → Option Witness → R → R → Memory R → Option (Report R × Memory R)
  unfolding remember render stats
  observe graph vectors witness ts now m =
      let (case, m') = remember graph vectors witness ts m in
      elim (render cfg now graph (keys vectors) m'.edge_memory) [
        | none ↦ none
        | some rendered ↦ some (record { rendered = rendered; case = case; counts = stats m' }, m')
      ]

  -- The pass that was not made.
  abbrev pub nothing : Verdict R
  nothing = record {
    findings = [];
    edges = [];
    root_cause_ranking = [];
    blast_radius = [];
    pods = 0;
    active = 0;
    accepted_edges = 0;
  }

  -- The graph of a start without samples; its "meta" has no "pods", which readers take for 0.
  unfoldable pub bootstrap_graph : R → Memory R → Option (Report R)
  unfolding render stats
  bootstrap_graph now m = elim (render cfg now nothing [] m.edge_memory) [
    | none ↦ none
    | some rendered ↦ some (record { rendered = rendered; case = none; counts = stats m })
  ]
