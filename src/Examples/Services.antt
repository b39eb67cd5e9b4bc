-- ===== src/Examples/Services.antt =====
-- The theorems on the window, the domains, the merge and the service, at concrete data.

use text.Mathlib.TextLemmas.{append-nil}
use abb_accelerator_submissi.Prelude.{
  ◌≡◌, refl, none, some, List, [], ◌∷◌, All, arith, ◌⊎◌, text_key, String, map, Option, sort,
  lookup,
}
use abb_accelerator_submissi.Thousandths.{above, thousandths_float, Thousandths-IsRounded}
use abb_accelerator_submissi.Gate.{Edge}
use abb_accelerator_submissi.Ranking.{arc_of}
use abb_accelerator_submissi.Ranking.Impact.{IsLight}
use abb_accelerator_submissi.Detectors.{Shape}
use abb_accelerator_submissi.Pipeline.{edges_of}
use abb_accelerator_submissi.Memory.{find_row}
use abb_accelerator_submissi.Render.{Served}
use abb_accelerator_submissi.Store.{Report, Memory}
use abb_accelerator_submissi.Store.Observing.{IsSound}
use abb_accelerator_submissi.Merge.{Tagged, Merged, all_edges, all_findings}
use abb_accelerator_submissi.Merge.Root.{IsBlamed, merge_graphs-IsBlamed, merge_graphs_total}
use abb_accelerator_submissi.Window.{
  collect, Sample, Point, grid_of, entry, hold, vectors_by_signal,
}
use abb_accelerator_submissi.Window.Grid.{IsStepped, held, hold-held}
use abb_accelerator_submissi.Window.Lengths.{AreAligned}
use abb_accelerator_submissi.Window.Aligned.{AreSampled, vectors_by_signal-IsAligned}
use abb_accelerator_submissi.Domain.{witness_for}
use abb_accelerator_submissi.Domain.Disk.{IsGrounded, edges_of-IsGrounded}
use abb_accelerator_submissi.Service.{Settings, Poll, Graph, Memories, start, tick}
use abb_accelerator_submissi.Service.Rounds.{Reach}
use abb_accelerator_submissi.Service.Rated.{IsRatedMemory}
use abb_accelerator_submissi.Service.Live.{Reach-tick_total}
use abb_accelerator_submissi.Service.Paths.{db_for-injective}
use abb_accelerator_submissi.Service.Process.{Files, version_in, boot, files_of}
use abb_accelerator_submissi.Service.Lives.{IsSoundFile, Life, restarted, boot-files_of, Life_lem}
use abb_accelerator_submissi.Store.Migration.{disk_of, create_tables, tables_of}
use abb_accelerator_submissi.Store.{ModelVersion}
use abb_accelerator_submissi.Examples.{
  T, plant_np, plant_stats, plant_cfg, plant_edge, disk_edge, plant_vectors, plant_options,
  plant_scene, plant_memory, plant_digest, damped, row-IsBounded, cfg-IsFractional, plant-IsExact,
  plant-IsCorrelation,
}

-- A grid of five seconds.
abbrev plant_step : T
plant_step = above 5000

plant_step-IsStepped : IsStepped T plant_step
plant_step-IsStepped = record {
  sub_anti = λ a b c h. ground arith;
  steps_mono = λ m n h. ground arith;
}

abbrev plant_points : List (Point T)
plant_points = (above 995000, above 300) ∷ (above 990000, above 200) ∷ []

hold-held_example :
    hold plant_step
      (above 990000, above 200)
      ((above 995000, above 300) ∷ [])
      (grid_of plant_step (above 995000))
    ≡ map
        (λ gt.
          entry plant_step
            (held Thousandths-IsRounded plant_step
              (above 990000, above 200)
              ((above 995000, above 300) ∷ [])
              gt)
            gt)
        (grid_of plant_step (above 995000))
unfolding sort
hold-held_example =
    hold-held Thousandths-IsRounded plant_step plant_step-IsStepped (above 995000) plant_points
      (above 990000, above 200) ((above 995000, above 300) ∷ []) refl

abbrev plant_epoch : String → Option T
plant_epoch ts = lookup ts (
    ("a", above 940000)
    ∷ ("b", above 945000)
    ∷ ("c", above 950000)
    ∷ ("d", above 955000)
    ∷ ("e", above 960000)
    ∷ ("f", above 965000)
    ∷ ("g", above 970000)
    ∷ ("h", above 975000)
    ∷ ("i", above 980000)
    ∷ ("j", above 985000)
    ∷ ("k", above 990000)
    ∷ ("l", above 995000)
    ∷ [])

abbrev plant_samples : List (Sample T)
plant_samples =
    record { ts = "a"; value = above 100 }
    ∷ record { ts = "b"; value = above 110 }
    ∷ record { ts = "c"; value = above 120 }
    ∷ record { ts = "d"; value = above 130 }
    ∷ record { ts = "e"; value = above 140 }
    ∷ record { ts = "f"; value = above 150 }
    ∷ record { ts = "g"; value = above 160 }
    ∷ record { ts = "h"; value = above 170 }
    ∷ record { ts = "i"; value = above 180 }
    ∷ record { ts = "j"; value = above 190 }
    ∷ record { ts = "k"; value = above 200 }
    ∷ record { ts = "l"; value = above 210 }
    ∷ []

abbrev plant_window : List (String × List (Sample T))
plant_window =
    ("plant/vision-1-b/psi_cpu", plant_samples) ∷ ("plant/analytics-1-a/cpu", plant_samples) ∷ []

vectors_by_signal-IsAligned_example :
    All
      (AreAligned plant_step)
      (vectors_by_signal plant_step plant_epoch ("psi_cpu" ∷ []) plant_window)
    × All
        (AreSampled plant_epoch plant_window Thousandths-IsRounded plant_step plant_step-IsStepped
          (collect plant_epoch ("psi_cpu" ∷ []) [] (above 0) plant_window).1)
        (vectors_by_signal plant_step plant_epoch ("psi_cpu" ∷ []) plant_window)
vectors_by_signal-IsAligned_example =
    vectors_by_signal-IsAligned Thousandths-IsRounded plant_step plant_step-IsStepped plant_epoch
      ("psi_cpu" ∷ []) plant_window

abbrev plant_storage : List String
plant_storage = "vision" ∷ "telemetry" ∷ []

edges_of-IsGrounded_example :
    All (IsGrounded plant_stats plant_storage (above 100) "psi_cpu" plant_vectors) (
      edges_of plant_stats
        (witness_for plant_storage (above 100) "psi_cpu" plant_vectors)
        plant_options
        plant_scene)
edges_of-IsGrounded_example =
    edges_of-IsGrounded plant_stats plant_storage (above 100) "psi_cpu" plant_vectors plant_options
      plant_scene

abbrev served : Edge T → Served T
served e = record { edge = e; source = none; memo = none }

abbrev plant_report : Report T
plant_report = record {
  rendered = record {
    findings =
        record {
          pod = "vision-1-b";
          shape = Shape.shift;
          onset_s = above 5000;
          severity = above 3000;
          n_onsets = 1;
        }
        ∷ [];
    edges = served plant_edge ∷ served disk_edge ∷ [];
    root_cause_ranking = [];
    blast_radius = [];
    held_edges = 0;
    pods = 3;
    active = 1;
    accepted_edges = 2;
  };
  case = none;
  counts = record {
    edge_memory = 1;
    visible_memory_edges = 1;
    cases = 0;
    families = 0;
    open_mistakes = 0;
  };
}

abbrev plant_reports : List (String × Report T)
plant_reports = ("psi_io", plant_report) ∷ []

reports-IsLight :
    All
      (λ e. IsLight (arc_of e))
      (map (λ (e : Tagged (Served T)). e.item.edge) (all_edges plant_reports))
unfolding all_edges
reports-IsLight = ((refl, refl), ((refl, refl), tt))

-- the merged graph of the reports
abbrev plant_merged : Merged T
plant_merged =
    (merge_graphs_total Thousandths-IsRounded damped plant_reports (some "psi_io")
      reports-IsLight).0

merge_graphs-IsBlamed_example :
    ((plant_merged.root_cause_ranking ≡ []) × (plant_merged.blast_radius ≡ []))
    ⊎ IsBlamed
        (all_edges plant_reports)
        (all_findings plant_reports)
        plant_merged.root_cause_ranking
merge_graphs-IsBlamed_example =
    merge_graphs-IsBlamed plant_reports (some "psi_io") plant_merged
      (merge_graphs_total Thousandths-IsRounded damped plant_reports (some "psi_io")
        reports-IsLight).1

abbrev plant_settings : Settings T
plant_settings = record {
  storage = plant_storage;
  copr_min = above 100;
  edge = plant_cfg;
  analysis_window = 36;
  reset_window = 24;
  grid_step_s = plant_step;
  forecast_signal = "mem";
  forecast_limit = "mem_limit";
  forecast_horizon_s = above 900000;
  forecast_min_frac = above 500;
}

abbrev plant_memories : Memories T
plant_memories = ("psi_io", plant_memory) ∷ ("psi_cpu", plant_memory) ∷ []

abbrev plant_poll : Poll T
plant_poll = record {
  window = some plant_window;
  events = some (record { pod = "vision-1-b"; kind = "anomaly_candidate" } ∷ []);
  clock = λ sig. (above 9000, above 9000);
  stamp = "now";
}

plant_memories-AreRated : All (λ (sm : String × Memory T). IsRatedMemory sm.1) plant_memories
plant_memories-AreRated = (((refl, refl), tt), (((refl, refl), tt), tt))

Reach-tick_total_example :
    ((g : Graph T) × (start plant_stats plant_np plant_digest plant_epoch plant_settings
          (λ sig. above 0)
          plant_memories
        ≡ some g))
    × ((out : Graph T × Memories T) × (tick plant_stats plant_np plant_digest plant_epoch
            plant_settings plant_poll plant_memories
          ≡ some out))
Reach-tick_total_example =
    Reach-tick_total Thousandths-IsRounded plant-IsExact damped plant_stats plant-IsCorrelation
      plant_np plant_digest plant_epoch plant_settings (λ sig. above 0) plant_memories
      plant_memories plant_poll (Reach.here plant_memories) plant_memories-AreRated

abbrev first_round :
    (out : Graph T × Memories T) × (tick plant_stats plant_np plant_digest plant_epoch
        plant_settings plant_poll plant_memories
      ≡ some out)
first_round =
    (Reach-tick_total Thousandths-IsRounded plant-IsExact damped plant_stats plant-IsCorrelation
      plant_np plant_digest plant_epoch plant_settings (λ sig. above 0) plant_memories
      plant_memories plant_poll (Reach.here plant_memories) plant_memories-AreRated).1

plant_memory-IsSound : IsSound plant_memory
unfolding find_row
plant_memory-IsSound = record {
  keyed = (refl, tt);
  bounded = (row-IsBounded, tt);
  linked = record { ids = tt; stored = tt };
}

abbrev plant_version : String → ModelVersion T
plant_version sig = record {
  ts = above 0;
  component = "edge-memory";
  version = "l3-memory-v5";
  params_json = sig;
  notes = "";
}

plant_disk-IsSoundFile : IsSoundFile (disk_of none plant_memory)
unfolding find_row create_tables tables_of
plant_disk-IsSoundFile = record {
  versioned = λ h. refl;
  keyed = (refl, tt);
  bounded = (row-IsBounded, tt);
  rated = ((refl, refl), tt);
  linked = record { ids = tt; stored = tt };
}

abbrev plant_files : Files T
plant_files = ("psi_io", disk_of none plant_memory) ∷ ("psi_cpu", disk_of none plant_memory) ∷ []

Life_lem_example :
    All (λ (sm : String × Memory T). IsSound sm.1) (restarted plant_version plant_memories)
    × ((g : Graph T) × (start plant_stats plant_np plant_digest plant_epoch plant_settings
            (λ sig. above 0)
            (restarted plant_version plant_memories)
          ≡ some g))
    × ((out : Graph T × Memories T) × (tick plant_stats plant_np plant_digest plant_epoch
            plant_settings plant_poll
            (restarted plant_version plant_memories)
          ≡ some out))
    × (boot plant_version (files_of plant_files (restarted plant_version plant_memories))
        ≡ some (restarted plant_version (restarted plant_version plant_memories)))
unfolding version_in lookup
Life_lem_example =
    Life_lem Thousandths-IsRounded plant-IsExact damped plant_stats plant-IsCorrelation plant_np
      plant_digest plant_epoch plant_settings cfg-IsFractional plant_files plant_files
      (restarted plant_version plant_memories) (λ sig. above 0) plant_poll plant_version
      (plant_disk-IsSoundFile, (plant_disk-IsSoundFile, tt))
      (Life.born plant_version (restarted plant_version plant_memories)
        (boot-files_of plant_version [] plant_memories))

abbrev cpu_signal : String
cpu_signal = "psi_cpu"

db_for-injective_example : cpu_signal ≡ cpu_signal
db_for-injective_example =
    db_for-injective (λ path. (path, "")) append-nil "/var/l3-memory.db" "psi_io" cpu_signal
      cpu_signal refl
