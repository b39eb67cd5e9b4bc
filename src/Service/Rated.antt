-- ===== src/Service/Rated.antt =====
-- The coefficients in the memories and in the rendered graphs.
use abb_accelerator_submissi.Prelude.{
  Option, none, some, List, [], ◌∷◌, ◌++◌, map, String, Float, All, IsRounded, nought,
}
use abb_accelerator_submissi.Workload.{stable_workload}
use abb_accelerator_submissi.Gate.{Witness}
use abb_accelerator_submissi.Detectors.{Numpy}
use abb_accelerator_submissi.Ranking.{arc_of}
use abb_accelerator_submissi.Ranking.Impact.{IsLight}
use abb_accelerator_submissi.Events.{Vectors, keys}
use abb_accelerator_submissi.Pipeline.{Verdict}
use abb_accelerator_submissi.Pipeline.Rated.{IsRated, abs-InUnit}
use abb_accelerator_submissi.Memory.{MemoryConfig, confirmed, decayed}
use abb_accelerator_submissi.Memory.Each.{update_edges-Each}
use abb_accelerator_submissi.Cases.{Fingerprint}
use abb_accelerator_submissi.Render.{Served}
use abb_accelerator_submissi.Render.Total.{IsRatedRow, AreRated}
use abb_accelerator_submissi.Store.{Memory, Report, remember}
use abb_accelerator_submissi.Merge.{Tagged, all_edges}

module _ {R : Type 0} ⦃f : Float R⦄ where
  -- The coefficients of the rows are between 0 and 1.
  abbrev pub IsRatedMemory : Memory R → Type 0
  IsRatedMemory m = All IsRatedRow m.edge_memory

  tagged-IsLight :
      (laws : IsRounded R) (sig : String) (edges : List (Served R))
      (rest : List (Tagged (Served R)))
      → AreRated edges
      → All (λ e. IsLight (arc_of e)) (map (λ (e : Tagged (Served R)). e.item.edge) rest)
      → All
          (λ e. IsLight (arc_of e))
          (map
            (λ (e : Tagged (Served R)). e.item.edge)
            (map (λ e. record { item = e; signal = sig }) edges ++ rest))
  tagged-IsLight laws sig [] rest h hs = hs
  tagged-IsLight laws sig (e ∷ edges) rest h hs =
      (abs-InUnit laws e.edge.r h.0, tagged-IsLight laws sig edges rest h.1 hs)

  -- The coefficients of the rendered edges are between 0 and 1.
  abbrev pub AreRatedReports : List (String × Report R) → Type 0
  AreRatedReports = All (λ sr. AreRated sr.1.rendered.edges)

  pub reports-IsLight :
      (laws : IsRounded R) (rendered : List (String × Report R))
      → AreRatedReports rendered
      → All
          (λ e. IsLight (arc_of e))
          (map (λ (e : Tagged (Served R)). e.item.edge) (all_edges rendered))
  unfolding all_edges
  reports-IsLight laws [] h = tt
  reports-IsLight laws ((sig, g) ∷ rendered) h =
      tagged-IsLight laws sig g.rendered.edges (all_edges rendered) h.0
        (reports-IsLight laws rendered h.1)

  pub remember-IsRated :
      (laws : IsRounded R) (cfg : MemoryConfig R) (np : Numpy R) (digest : Fingerprint → String)
      (graph : Verdict R) (vectors : Vectors R) (witness : Option Witness) (ts : R) (m : Memory R)
      → All IsRated graph.edges
      → IsRatedMemory m
      → IsRatedMemory (remember cfg np digest graph vectors witness ts m).1
  unfolding remember
  remember-IsRated laws cfg np digest graph vectors witness ts m h was =
      update_edges-Each cfg IsRatedRow IsRated (λ e ts' old rated _. unfold confirmed in rated)
        (λ ts' row rated. unfold decayed in rated) (λ row rated. rated)
        (λ a b ts'. (laws.ordered.le_refl nought, laws.nought-le-one))
        (elim witness [ none ↦ none | some w ↦ some w.shared_relation ]) graph.edges
        (map stable_workload (keys vectors)) ts m.edge_memory h was
