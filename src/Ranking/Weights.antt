-- ===== src/Ranking/Weights.antt =====
-- The weights of a built graph, and the ranking with the blast radius of its top cause.
use abb_accelerator_submissi.Prelude.{◌≡◌, some, List, [], ◌∷◌, String, Float, All, IsRounded}
use abb_accelerator_submissi.Gate.{Edge}
use abb_accelerator_submissi.Ranking.{
  Graph, Cause, Victim, arc_of, add_edge, add_edges, build_graph, rank_root_causes, blast_radius,
}
use abb_accelerator_submissi.Ranking.Graphs.{add_arc-All, build_graph-IsWellFormed}
use abb_accelerator_submissi.Ranking.Impact.{IsDamped, IsLight, rank_root_causes_total}
use abb_accelerator_submissi.Ranking.Blast.{blast_radius_total}

module _ {R : Type 0} ⦃f : Float R⦄ where
  add_edges-IsLight :
      (g : Graph R) (edges : List (Edge R))
      → All IsLight g.arcs
      → All (λ e. IsLight (arc_of e)) edges
      → All IsLight (add_edges g edges).arcs
  unfolding add_edges add_edge
  add_edges-IsLight g [] hg h = hg
  add_edges-IsLight g (e ∷ edges) hg h =
      add_edges-IsLight (add_edge g e) edges (add_arc-All IsLight (arc_of e) g.arcs h.0 hg) h.1

  pub build_graph-IsLight :
      (edges : List (Edge R))
      → All (λ e. IsLight (arc_of e)) edges
      → All IsLight (build_graph edges).arcs
  unfolding build_graph
  build_graph-IsLight edges h = add_edges-IsLight (record { nodes = []; arcs = [] }) edges tt h

  -- The ranking of a built graph, and a blast radius for each pod.
  pub record Ends (edges : List (Edge R)) (seeds : List String) (onset_s : List (String × R))
      : Type 0 where
    pub causes : List (Cause R)
    pub ranked : rank_root_causes (build_graph edges) seeds onset_s ≡ some causes
    pub victims :
        (pod : String) → (out : List (Victim R)) × (blast_radius (build_graph edges) pod ≡ some out)

  pub build_graph-Ends :
      (laws : IsRounded R) (damped : IsDamped R) (edges : List (Edge R)) (seeds : List String)
      (onset_s : List (String × R))
      → All (λ e. IsLight (arc_of e)) edges
      → Ends edges seeds onset_s
  build_graph-Ends laws damped edges seeds onset_s light =
      let (causes, ranked) =
        rank_root_causes_total laws damped (build_graph edges) (build_graph-IsLight edges light)
          seeds onset_s in
      record {
        causes = causes;
        ranked = ranked;
        victims =
            λ pod. blast_radius_total (build_graph edges) pod (build_graph-IsWellFormed edges);
      }
