-- ===== src/Service/Live.antt =====
-- Every round of the service ends with a graph to serve.
use abb_accelerator_submissi.Prelude.{
  ◌≡◌, refl, ◌∙◌, inl, inr, Option, some, List, [], ◌∷◌, String, Float, All, IsRounded,
  Option-cases, List-cases,
}
use abb_accelerator_submissi.Gate.{Witness}
use abb_accelerator_submissi.Lag.{Stats}
use abb_accelerator_submissi.Lag.Bounds.{IsCorrelation}
use abb_accelerator_submissi.Detectors.{Numpy}
use abb_accelerator_submissi.Ranking.Impact.{IsDamped}
use abb_accelerator_submissi.Forecast.{Warning}
use abb_accelerator_submissi.Events.{Vectors, values_of, keys}
use abb_accelerator_submissi.Pipeline.{Verdict}
use abb_accelerator_submissi.Pipeline.Rated.{IsExact, IsRated}
use abb_accelerator_submissi.Pipeline.Total.{run_pass_total, run_pass-IsRated}
use abb_accelerator_submissi.Memory.{MemoryConfig}
use abb_accelerator_submissi.Cases.{Fingerprint}
use abb_accelerator_submissi.Render.Total.{AreRated, render_total}
use abb_accelerator_submissi.Store.{Memory, Report, stats as stats_of, remember, observe}
use abb_accelerator_submissi.Merge.Root.{merge_graphs_total}
use abb_accelerator_submissi.Window.{Sample, Event, vectors_by_signal, breaches}
use abb_accelerator_submissi.Domain.{config_for, witness_for}
use abb_accelerator_submissi.Service.{
  start, Settings, Poll, Graph, Memories, primary_of, wanted, options_for, observe_signal,
  observe_all, incipient, graph_of, round_over, tick,
}
use abb_accelerator_submissi.Service.Rated.{
  IsRatedMemory, AreRatedReports, reports-IsLight, remember-IsRated,
}
use abb_accelerator_submissi.Service.Start.{start_total}
use abb_accelerator_submissi.Service.Rounds.{Reach, Reach-keeps}

module _ {R : Type 0} ⦃f : Float R⦄ (laws : IsRounded R) (exact : IsExact R) (damped : IsDamped R)
    (stats : Stats R) (valid : IsCorrelation stats) (np : Numpy R) (digest : Fingerprint → String)
    (epoch : String → Option R) (set : Settings R) where
  observe_total :
      (cfg : MemoryConfig R) (graph : Verdict R) (vectors : Vectors R) (witness : Option Witness)
      (ts now : R) (m : Memory R)
      → All IsRated graph.edges
      → IsRatedMemory m
      → (out : Report R × Memory R) × (observe cfg np digest graph vectors witness ts now m
          ≡ some out)
        × AreRated out.0.rendered.edges
  unfolding observe
  observe_total cfg graph vectors witness ts now m h was =
      let kept = (remember cfg np digest graph vectors witness ts m).1 in
      let (shown, e, rated) =
        render_total cfg now graph (keys vectors) kept.edge_memory laws exact damped h
          (remember-IsRated laws cfg np digest graph vectors witness ts m h was) in
      (
        (
          record {
            rendered = shown;
            case = (remember cfg np digest graph vectors witness ts m).0;
            counts = stats_of kept;
          },
          kept,
        ),
        rw (observe, e) refl,
        rated,
      )

  observe_signal_total :
      (clock : String → R × R) (vec_by_sig : List (String × Vectors R)) (breach : List String)
      (sig : String) (vectors : Vectors R) (m : Memory R)
      → IsRatedMemory m
      → (out : Report R × Memory R) × (observe_signal stats np digest epoch set clock vec_by_sig
            breach sig vectors m
          ≡ some out)
        × AreRated out.0.rendered.edges
  unfolding observe_signal
  observe_signal_total clock vec_by_sig breach sig vectors m was =
      let witness = witness_for set.storage set.copr_min sig vectors in
      let opts = options_for stats np digest epoch set sig vec_by_sig breach vectors m in
      let (v, ran) = run_pass_total laws damped stats witness exact valid np opts vectors in
      let (out, seen, rated) =
        observe_total (config_for set.edge sig) v vectors (some witness) (clock sig).0 (clock sig).1
          m (run_pass-IsRated laws damped stats witness exact valid np opts vectors v ran) was in
      (out, rw (observe_signal, ran) seen, rated)

  observe_all_total :
      (clock : String → R × R) (vec_by_sig : List (String × Vectors R)) (breach : List String)
      (memories : Memories R)
      → All (λ sm. IsRatedMemory sm.1) memories
      → (out : List (String × Report R) × Memories R) × (observe_all stats np digest epoch set clock
            vec_by_sig breach memories
          ≡ some out)
        × AreRatedReports out.0
  unfolding observe_all
  observe_all_total clock vec_by_sig breach [] was = (([], []), refl, tt)
  observe_all_total clock vec_by_sig breach ((sig, m) ∷ memories) was =
      let (rest, e, rated) = observe_all_total clock vec_by_sig breach memories was.1 in
      elim (List-cases (values_of sig vec_by_sig)) [
        | inl bare ↦ ((rest.0, (sig, m) ∷ rest.1), rw (observe_all, e, bare) refl, rated)
        | inr (v, vs, some_v) ↦
            let (out, seen, rated') =
              observe_signal_total clock vec_by_sig breach sig (v ∷ vs) m was.0 in
            (
              ((sig, out.0) ∷ rest.0, (sig, out.1) ∷ rest.1),
              rw (observe_all, e, some_v, seen) refl,
              (rated', rated),
            )
      ]

  graph_of_total :
      (primary : Option String) (signals : List String) (stamp : String) (warned : List (Warning R))
      (rendered : List (String × Report R))
      → AreRatedReports rendered
      → (g : Graph R) × (graph_of stats np digest epoch set primary signals stamp warned rendered
          ≡ some g)
  unfolding graph_of
  graph_of_total primary signals stamp warned [] h = (Graph.idle signals warned stamp, refl)
  graph_of_total primary signals stamp warned (r ∷ rendered) h =
      let (m, e) =
        merge_graphs_total laws damped (r ∷ rendered) primary
          (reports-IsLight laws (r ∷ rendered) h) in
      (Graph.merged m warned stamp, rw (graph_of, e) refl)

  round_over_total :
      (poll : Poll R) (window : List (String × List (Sample R))) (events : List Event)
      (memories : Memories R)
      → All (λ sm. IsRatedMemory sm.1) memories
      → (out : Graph R × Memories R) × (round_over stats np digest epoch set poll window events
            memories
          ≡ some out)
  unfolding round_over
  round_over_total poll window events memories was =
      let vec_by_sig =
        vectors_by_signal set.grid_step_s epoch (wanted stats np digest epoch set memories)
          window in
      let (seen, e, rated) =
        observe_all_total poll.clock vec_by_sig (breaches events) memories was in
      let (g, merged) =
        graph_of_total (primary_of memories) (keys memories) poll.stamp
          (incipient stats np digest epoch set vec_by_sig) seen.0 rated in
      ((g, seen.1), rw (round_over, e, merged) refl)

  tick-round_over :
      (poll : Poll R) (window : List (String × List (Sample R))) (events : List Event)
      (memories : Memories R)
      → poll.window ≡ some window
      → poll.events ≡ some events
      → tick stats np digest epoch set poll memories
        ≡ round_over stats np digest epoch set poll window events memories
  unfolding tick
  tick-round_over poll window events memories got got' = simp (tick, got, got')

  pub tick_total :
      (poll : Poll R) (memories : Memories R)
      → All (λ sm. IsRatedMemory sm.1) memories
      → (out : Graph R × Memories R) × (tick stats np digest epoch set poll memories ≡ some out)
  unfolding tick
  tick_total poll memories was = elim (Option-cases poll.window) [
    | inl lost ↦ ((Graph.failed, memories), rw (tick, lost) refl)
    | inr (window, got) ↦ elim (Option-cases poll.events) [
      | inl lost ↦ ((Graph.failed, memories), rw (tick, got, lost) refl)
      | inr (events, got') ↦
          let (out, e) = round_over_total poll window events memories was in
          (out, tick-round_over poll window events memories got got' ∙ e)
    ]
  ]

  -- The process starts with a graph to serve, and the loop never stops: after any rounds from memories
  -- whose coefficients are between 0 and 1, the next round ends with a graph to serve, whatever it fetches.
  -- The coefficients of scipy are at most 1, `round` keeps 0 and 1, the floats have the laws of rounded
  -- arithmetic, and the sixth power of `DECAY` is below `CUT`.
  pub Reach-tick_total :
      (clock : String → R) (first memories : Memories R) (poll : Poll R)
      → Reach stats np digest epoch set first memories
      → All (λ sm. IsRatedMemory sm.1) first
      → ((g : Graph R) × (start stats np digest epoch set clock first ≡ some g))
        × ((out : Graph R × Memories R) × (tick stats np digest epoch set poll memories ≡ some out))
  Reach-tick_total clock first memories poll rounds was = (
    start_total laws exact damped stats np digest epoch set clock first was,
    tick_total poll memories (
        Reach-keeps stats np digest epoch set (λ sig m. IsRatedMemory m)
          (λ sig graph vectors witness opts ts m ran was'.
            remember-IsRated laws (config_for set.edge sig) np digest graph vectors (some witness)
              ts m
              (run_pass-IsRated laws damped stats witness exact valid np opts vectors graph ran)
              was')
          first memories rounds was),
  )
