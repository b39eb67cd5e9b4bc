-- ===== src/Service.antt =====
-- correlation/service.py: the round of `loop`, from what it fetches to the graph that it serves, and the
-- start of the process. `_memory` is the list of its items in the order of `SIGNALS`, whose names
-- differ. A fetch that raises is `none`; the readings of the clock are an argument.
pub mod Rounds
pub mod Sound
pub mod Rated
pub mod Start
pub mod Live
pub mod Process
pub mod Lives
pub mod Paths
use abb_accelerator_submissi.Prelude.{
  ℕ, Option, none, some, List, [], ◌∷◌, ◌++◌, map, String, if◌then◌else◌, Float, nought, ◌==◌,
  text_key, lookup,
}
use abb_accelerator_submissi.Workload.{stable_workload}
use abb_accelerator_submissi.Lag.{Stats}
use abb_accelerator_submissi.Detectors.{Numpy, last}
use abb_accelerator_submissi.Forecast.{Warning, incipient_findings}
use abb_accelerator_submissi.Events.{Vectors, Options, keys, values_of}
use abb_accelerator_submissi.Pipeline.{run_pass}
use abb_accelerator_submissi.Memory.{MemoryConfig}
use abb_accelerator_submissi.Baselines.{baseline_threshold}
use abb_accelerator_submissi.Cases.{Fingerprint, set_of}
use abb_accelerator_submissi.Store.{Memory, Report, observe, bootstrap_graph}
use abb_accelerator_submissi.Merge.{Merged, merge_graphs}
use abb_accelerator_submissi.Window.{Sample, Event, vectors_by_signal, breaches}
use abb_accelerator_submissi.Domain.{config_for, witness_for}

-- The constants of the module, which the environment sets.
pub record Settings (R : Type 0) : Type 0 where
  pub storage : List String
  pub copr_min : R
  pub edge : MemoryConfig R
  pub analysis_window : ℕ
  pub reset_window : ℕ
  pub grid_step_s : R
  pub forecast_signal : String
  pub forecast_limit : String
  pub forecast_horizon_s : R
  pub forecast_min_frac : R

-- What a round reads: the two answers of the aggregator, the clock when a signal's memory learns and
-- when it renders, and the time of the served graph.
pub record Poll (R : Type 0) : Type 0 where
  pub window : Option (List (String × List (Sample R)))
  pub events : Option (List Event)
  pub clock : String → R × R
  pub stamp : String

-- The graph that is served: that of the start, of a round with vectors, of one without, or the error.
pub data Graph (R : Type 0) : Type 0 where
  started : Merged R → Graph R
  merged : Merged R → List (Warning R) → String → Graph R
  idle : List String → List (Warning R) → String → Graph R
  failed : Graph R

abbrev pub Memories : Type 0 → Type 0
Memories R = List (String × Memory R)

-- forecast.py's default, which the loop leaves as it is.
abbrev pub default_tail : ℕ
default_tail = 24

-- `SIGNAL_SOURCES.get(sig)`
abbrev pub source_of : String → Option String
source_of sig =
    if sig == "psi_io" then some "io_write" else if sig == "psi_cpu" then some "cpu" else none

-- `PRIMARY`
abbrev pub primary_of : {R : Type 0} → Memories R → Option String
primary_of [] = none
primary_of ((sig, m) ∷ memories) = some sig

module _ {R : Type 0} ⦃f : Float R⦄ (stats : Stats R) (np : Numpy R) (digest : Fingerprint → String)
    (epoch : String → Option R) (set : Settings R) where
  unfoldable pub wanted : Memories R → List String
  unfolding set_of
  wanted memories =
      set_of (keys memories ++ "io_write" ∷ "cpu" ∷ set.forecast_signal ∷ set.forecast_limit ∷ [])

  -- The vectors of the source of a signal, if it has one.
  abbrev pub writes_of : String → List (String × Vectors R) → Vectors R
  writes_of sig vec_by_sig = elim (source_of sig) [
    | none ↦ []
    | some src ↦ values_of src vec_by_sig
  ]

  unfoldable pub options_for :
      String → List (String × Vectors R) → List String → Vectors R → Memory R → Options R
  unfolding baseline_threshold
  options_for sig vec_by_sig breach vectors m = record {
    slo_breach = breach;
    caps = [];
    window = some set.analysis_window;
    write_vectors = writes_of sig vec_by_sig;
    baselines = some (
        map
          (λ pod.
            (pod, baseline_threshold (config_for set.edge sig) (stable_workload pod) m.baselines))
          (keys vectors));
    recent = some set.reset_window;
  }

  -- The pass of one signal, and the update of its memory.
  unfoldable pub observe_signal :
      (String → R × R)
      → List (String × Vectors R)
      → List String
      → String
      → Vectors R
      → Memory R
      → Option (Report R × Memory R)
  unfolding witness_for options_for run_pass observe config_for
  observe_signal clock vec_by_sig breach sig vectors m =
      let witness = witness_for set.storage set.copr_min sig vectors in
      elim (run_pass stats witness np (options_for sig vec_by_sig breach vectors m) vectors) [
        | none ↦ none
        | some out ↦
            observe (config_for set.edge sig) np digest out vectors (some witness) (clock sig).0
              (clock sig).1 m
      ]

  -- The loop over the signals. A signal without vectors is skipped.
  unfoldable pub observe_all :
      (String → R × R)
      → List (String × Vectors R)
      → List String
      → Memories R
      → Option (List (String × Report R) × Memories R)
  unfolding observe_signal lookup
  observe_all clock vec_by_sig breach [] = some ([], [])
  observe_all clock vec_by_sig breach ((sig, m) ∷ memories) =
      elim (observe_all clock vec_by_sig breach memories) [
        | none ↦ none
        | some (rendered, kept) ↦ elim (values_of sig vec_by_sig) [
          | [] ↦ some (rendered, (sig, m) ∷ kept)
          | v ∷ vectors ↦ elim (observe_signal clock vec_by_sig breach sig (v ∷ vectors) m) [
            | none ↦ none
            | some (report, m') ↦ some ((sig, report) ∷ rendered, (sig, m') ∷ kept)
          ]
        ]
      ]

  -- The last limit of each pod, if it is positive.
  unfoldable pub limits_of : Vectors R → List (String × R)
  limits_of [] = []
  limits_of ((pod, v) ∷ vectors) =
      let rest = limits_of vectors in
      elim v [
        | [] ↦ rest
        | x ∷ xs ↦ if f.lt nought (last (x ∷ xs)) then (pod, last (x ∷ xs)) ∷ rest else rest
      ]

  unfoldable pub incipient : List (String × Vectors R) → List (Warning R)
  unfolding lookup limits_of incipient_findings
  incipient vec_by_sig =
      incipient_findings np set.forecast_horizon_s set.forecast_min_frac default_tail
        (values_of set.forecast_signal vec_by_sig)
        (limits_of (values_of set.forecast_limit vec_by_sig))

  -- The graph of the rendered signals. Without any there is nothing to merge.
  unfoldable pub graph_of :
      Option String
      → List String
      → String
      → List (Warning R)
      → List (String × Report R)
      → Option (Graph R)
  unfolding merge_graphs
  graph_of primary signals stamp warned [] = some (Graph.idle signals warned stamp)
  graph_of primary signals stamp warned (r ∷ rendered) =
      elim (merge_graphs (r ∷ rendered) primary) [
        | none ↦ none
        | some m ↦ some (Graph.merged m warned stamp)
      ]

  -- The round after the answers.
  unfoldable pub round_over :
      Poll R
      → List (String × List (Sample R))
      → List Event
      → Memories R
      → Option (Graph R × Memories R)
  unfolding wanted vectors_by_signal breaches observe_all incipient graph_of
  round_over poll window events memories =
      let vec_by_sig = vectors_by_signal set.grid_step_s epoch (wanted memories) window in
      elim (observe_all poll.clock vec_by_sig (breaches events) memories) [
        | none ↦ none
        | some (rendered, memories') ↦
            elim (graph_of (primary_of memories) (keys memories) poll.stamp (incipient vec_by_sig)
              rendered) [ none ↦ none | some g ↦ some (g, memories') ]
      ]

  -- One round of `loop`. After a failed fetch the error is served, and the memories are as they were.
  unfoldable pub tick : Poll R → Memories R → Option (Graph R × Memories R)
  unfolding round_over
  tick poll memories = elim poll.window [
    | none ↦ some (Graph.failed, memories)
    | some window ↦ elim poll.events [
      | none ↦ some (Graph.failed, memories)
      | some events ↦ round_over poll window events memories
    ]
  ]

  -- The graphs of the signals at the start.
  unfoldable pub bootstrap_all : (String → R) → Memories R → Option (List (String × Report R))
  unfolding bootstrap_graph config_for
  bootstrap_all clock [] = some []
  bootstrap_all clock ((sig, m) ∷ memories) = elim (bootstrap_all clock memories) [
    | none ↦ none
    | some rendered ↦ elim (bootstrap_graph (config_for set.edge sig) np digest (clock sig) m) [
      | none ↦ none
      | some report ↦ some ((sig, report) ∷ rendered)
    ]
  ]

  -- The graph that is served before the first round.
  unfoldable pub start : (String → R) → Memories R → Option (Graph R)
  unfolding bootstrap_all merge_graphs
  start clock memories = elim (bootstrap_all clock memories) [
    | none ↦ none
    | some rendered ↦ elim (merge_graphs rendered (primary_of memories)) [
      | none ↦ none
      | some m ↦ some (Graph.started m)
    ]
  ]
