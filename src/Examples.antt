-- ===== src/Examples.antt =====
-- Concrete data of the engine at whole thousandths; the child modules apply the theorems to them.
pub mod Verdicts
pub mod Graphs
pub mod Tables
pub mod Services
pub mod Reports
pub mod Starts
pub mod Workloads
pub mod Numbers
use mathlib.Core.Option
use mathlib.Core.Option.{some-injective}
use abb_accelerator_submissi.Prelude.{
  refl, subst, one, true, none, some, List, [], ◌∷◌, String, nought, All, ◌≼◌, text_key,
}
use abb_accelerator_submissi.Thousandths.{Thousandths, above, thousandths_float}
use abb_accelerator_submissi.Ranking.{Graph, build_graph, blast_radius}
use abb_accelerator_submissi.Events.{Vectors, Options}
use abb_accelerator_submissi.Pipeline.{Verdict, Scene}
use abb_accelerator_submissi.Lag.Bounds.{IsCorrelation}
use abb_accelerator_submissi.Pipeline.Rated.{IsExact}
use abb_accelerator_submissi.Memory.{MemoryConfig, EdgeState, Row, edge_key, same_key}
use abb_accelerator_submissi.Memory.Bounds.{IsBounded, IsFractional}
use abb_accelerator_submissi.Memory.Hysteresis.{Pass}
use abb_accelerator_submissi.Cases.{Archive, Fingerprint}
use abb_accelerator_submissi.Store.{Memory}
use abb_accelerator_submissi.Lag.{Stats}
use abb_accelerator_submissi.Detectors.{Numpy, greatest}
use abb_accelerator_submissi.Gate.{Edge, Evidence, Witness}
use abb_accelerator_submissi.Ranking.Impact.{IsDamped, IsLight}

abbrev pub T : Type 0
T = Thousandths

abbrev pub plant_stats : Stats T
plant_stats = record {
  mean = λ v. nought;
  std = λ v. greatest v;
  skew = λ v. nought;
  pearsonr = λ a b. some (above 800);
  spearmanr = λ a b. some (above 800);
}

abbrev pub plant_np : Numpy T
plant_np = record {
  median = λ v. nought;
  percentile_90 = greatest;
  slope = λ v. above 1000;
  trend = λ v. above 900;
}

pub damped : IsDamped T
damped = record { decay_nonneg = refl; power_cut = refl }

abbrev pub plant_cfg : MemoryConfig T
plant_cfg = record {
  signal = "psi";
  alpha = above 250;
  decay = above 60;
  show = above 600;
  hide = above 450;
  prior = above 300;
  floor_frac = above 500;
  tau_merge = above 850;
  tau_family = above 600;
  base_alpha = above 50;
  dev_k = above 4000;
  mad_floor = above 20;
  base_min_n = 3;
}

abbrev pub plant_witness : Witness
plant_witness = record {
  ebpf_edges = ("analytics-1-a", "vision-1-b") ∷ [];
  psi_copressure = [];
  shared_relation = ("vision-1-b", "telemetry-1-c") ∷ [];
  same_node = [];
}

abbrev pub plant_edge : Edge T
plant_edge = record {
  src = "analytics-1-a";
  dst = "vision-1-b";
  r = above 800;
  lag_s = 5;
  evidence = Evidence.stat ∷ Evidence.ebpf ∷ Evidence.write ∷ [];
}

abbrev pub disk_edge : Edge T
disk_edge = record {
  src = "vision-1-b";
  dst = "telemetry-1-c";
  r = above 900;
  lag_s = 10;
  evidence = Evidence.stat ∷ Evidence.pvc ∷ [];
}

abbrev pub plant_row : Row T
plant_row = record {
  src = "analytics";
  dst = "vision";
  signal = "psi";
  confidence = above 700;
  r = above 800;
  lag_s = 5;
  evidence = Evidence.stat ∷ Evidence.ebpf ∷ [];
  hits = 4;
  visible = true;
  state = EdgeState.steady;
  first_seen_ts = above 0;
  last_seen_ts = above 5000;
  updated_ts = above 5000;
  base_conf = above 500;
}

abbrev pub plant_graph : Graph T
plant_graph = build_graph (plant_edge ∷ disk_edge ∷ [])

abbrev pub plant_vectors : Vectors T
plant_vectors =
    ("analytics-1-a", above 100 ∷ above 200 ∷ []) ∷ ("vision-1-b", above 50 ∷ above 90 ∷ []) ∷ []

abbrev pub plant_options : Options T
plant_options = record {
  slo_breach = [];
  caps = [];
  window = some 60;
  write_vectors = ("analytics-1-a", above 900 ∷ above 900 ∷ []) ∷ [];
  baselines = some (("analytics-1-a", some (above 500)) ∷ ("vision-1-b", none) ∷ []);
  recent = some 6;
}

abbrev pub plant_scene : Scene T
plant_scene = record {
  vectors = plant_vectors;
  writes = plant_options.write_vectors;
  onset_s = ("vision-1-b", above 5000) ∷ [];
  write_onset_s = ("analytics-1-a", above 5000) ∷ [];
}

abbrev pub plant_archive : Archive T
plant_archive = record { cases = []; observations = [] }

abbrev pub plant_memory : Memory T
plant_memory = record {
  edge_memory = plant_row ∷ [];
  baselines = [];
  archive = plant_archive;
  graph_snapshots = [];
  model_versions = [];
  mistakes = [];
}

abbrev pub plant_verdict : Verdict T
plant_verdict = record {
  findings = [];
  edges = plant_edge ∷ disk_edge ∷ [];
  root_cause_ranking = record { pod = "analytics-1-a"; score = above 1000; onset_s = none } ∷ [];
  blast_radius = record { pod = "vision-1-b"; impact = above 560; eta_s = 5 } ∷ [];
  pods = 3;
  active = 0;
  accepted_edges = 2;
}

abbrev pub plant_digest : Fingerprint → String
plant_digest fp = fp.signal

pub row-IsBounded : IsBounded plant_row
row-IsBounded = record { confidence = (refl, refl); base_conf = (refl, refl) }

pub cfg-IsFractional : IsFractional plant_cfg
cfg-IsFractional = record {
  alpha = (refl, refl);
  decay = (refl, refl);
  prior = (refl, refl);
  floor_frac = (refl, refl);
}

pub graph-IsLight : All IsLight plant_graph.arcs
unfolding build_graph
graph-IsLight = ((refl, refl), ((refl, refl), tt))

abbrev pub history : List (Pass T)
history =
    record {
      shared = some (("analytics-1-a", "vision-1-b") ∷ []);
      edges = [];
      present = "analytics" ∷ "vision" ∷ [];
      ts = above 1;
    }
    ∷ record {
      shared = none;
      edges = plant_edge ∷ [];
      present = "analytics" ∷ "vision" ∷ [];
      ts = above 2;
    }
    ∷ []

pub plant-IsExact : IsExact T
plant-IsExact = record {
  round_one = refl;
  round_nought = refl;
  peak_nonneg = refl;
  source_nonneg = refl;
}

pub plant-IsCorrelation : IsCorrelation plant_stats
plant-IsCorrelation = record {
  pearsonr = λ a b r e. subst (λ x. x ≼ one) (some-injective _ _ e) refl;
  spearmanr = λ a b r e. subst (λ x. x ≼ one) (some-injective _ _ e) refl;
}
