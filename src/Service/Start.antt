-- ===== src/Service/Start.antt =====
-- The start of the service.
use abb_accelerator_submissi.Prelude.{
  ◌≡◌, refl, ap, Option, none, some, List, [], ◌∷◌, String, Float, All, IsRounded,
}
use abb_accelerator_submissi.Lag.{Stats}
use abb_accelerator_submissi.Detectors.{Numpy}
use abb_accelerator_submissi.Ranking.Impact.{IsDamped}
use abb_accelerator_submissi.Pipeline.Rated.{IsExact}
use abb_accelerator_submissi.Memory.{MemoryConfig}
use abb_accelerator_submissi.Cases.{Fingerprint}
use abb_accelerator_submissi.Render.{Rendered}
use abb_accelerator_submissi.Render.Total.{AreRated, render_total}
use abb_accelerator_submissi.Store.{nothing, bootstrap_graph, Memory, Report, stats as stats_of}
use abb_accelerator_submissi.Merge.Root.{merge_graphs_total}
use abb_accelerator_submissi.Domain.{config_for}
use abb_accelerator_submissi.Service.{start, bootstrap_all, Settings, Graph, Memories, primary_of}
use abb_accelerator_submissi.Service.Rated.{IsRatedMemory, AreRatedReports, reports-IsLight}

module _ {R : Type 0} ⦃f : Float R⦄ (laws : IsRounded R) (exact : IsExact R) (damped : IsDamped R)
    (stats : Stats R) (np : Numpy R) (digest : Fingerprint → String) (epoch : String → Option R)
    (set : Settings R) where
  -- the report on a rendered graph of a memory
  abbrev report_of : Memory R → Option (Rendered R) → Option (Report R)
  report_of m o = elim o [
    | none ↦ none
    | some rendered ↦ some (record { rendered = rendered; case = none; counts = stats_of m })
  ]

  bootstrap_graph_total :
      (cfg : MemoryConfig R) (now : R) (m : Memory R)
      → IsRatedMemory m
      → (out : Report R) × (bootstrap_graph cfg np digest now m ≡ some out)
        × AreRated out.rendered.edges
  unfolding bootstrap_graph
  bootstrap_graph_total cfg now m was =
      let (shown, e, rated) =
        render_total cfg now (nothing cfg np digest) [] m.edge_memory laws exact damped tt was in
      (record { rendered = shown; case = none; counts = stats_of m }, ap (report_of m) e, rated)

  -- a report in front of the others
  abbrev with_report :
      String → List (String × Report R) → Option (Report R) → Option (List (String × Report R))
  with_report sig rest o = elim o [ none ↦ none | some report ↦ some ((sig, report) ∷ rest) ]

  bootstrap_more :
      (clock : String → R) (sig : String) (m : Memory R) (memories : Memories R)
      (rest : List (String × Report R)) (report : Report R)
      → bootstrap_all stats np digest epoch set clock memories ≡ some rest
      → bootstrap_graph (config_for set.edge sig) np digest (clock sig) m ≡ some report
      → bootstrap_all stats np digest epoch set clock ((sig, m) ∷ memories)
        ≡ some ((sig, report) ∷ rest)
  unfolding bootstrap_all
  bootstrap_more clock sig m memories rest report e shown =
      simp (e, bootstrap_all) (ap (with_report sig rest) shown)

  bootstrap_all_total :
      (clock : String → R) (memories : Memories R)
      → All (λ sm. IsRatedMemory sm.1) memories
      → (out : List (String × Report R)) × (bootstrap_all stats np digest epoch set clock memories
          ≡ some out)
        × AreRatedReports out
  unfolding bootstrap_all
  bootstrap_all_total clock [] was = ([], refl, tt)
  bootstrap_all_total clock ((sig, m) ∷ memories) was =
      let (rest, e, rated) = bootstrap_all_total clock memories was.1 in
      let (report, shown, rated') =
        bootstrap_graph_total (config_for set.edge sig) (clock sig) m was.0 in
      (
        (sig, report) ∷ rest,
        bootstrap_more clock sig m memories rest report e shown,
        (rated', rated),
      )

  pub start_total :
      (clock : String → R) (memories : Memories R)
      → All (λ sm. IsRatedMemory sm.1) memories
      → (g : Graph R) × (start stats np digest epoch set clock memories ≡ some g)
  unfolding start
  start_total clock memories was =
      let (rendered, e, rated) = bootstrap_all_total clock memories was in
      let (m, merged) =
        merge_graphs_total laws damped rendered (primary_of memories)
          (reports-IsLight laws rendered rated) in
      (Graph.started m, rw (start, e, merged) refl)
