-- ===== src/Merge/Root.antt =====
-- The root of a merged graph.
use mathlib.Core.Option.{some-injective}
use abb_accelerator_submissi.Prelude.{
  ◌≡◌, refl, ap, sym, subst, ◌⊎◌, inl, inr, Option, some, List, [], ◌∷◌, map, String, Bool-cases,
  Option-cases, List-cases, Float, text_key, All, ◌||◌, IsRounded,
}
use abb_accelerator_submissi.Ranking.{Cause, Victim, arc_of, rank_root_causes, blast_radius}
use abb_accelerator_submissi.Ranking.Impact.{IsDamped, IsLight}
use abb_accelerator_submissi.Ranking.Order.{IsCandidate, rank_root_causes-IsCandidate}
use abb_accelerator_submissi.Ranking.Weights.{build_graph-Ends}
use abb_accelerator_submissi.Events.{Finding}
use abb_accelerator_submissi.Render.{Served}
use abb_accelerator_submissi.Store.{Report}
use abb_accelerator_submissi.Merge.{
  Tagged, Merged, is_empty, all_edges, all_findings, merged_graph, merged_seeds, merged_ranking,
  onsets_by_pod, merge_graphs,
}

module _ {R : Type 0} ⦃f : Float R⦄ where
  -- A graph with a root has a finding on a pod of its edges.
  pub record IsBlamed (edges : List (Tagged (Served R))) (findings : List (Tagged (Finding R)))
      (causes : List (Cause R)) : Type 0 where
    pub seed : String
    pub seeds : List String
    pub on_graph : merged_seeds edges findings ≡ seed ∷ seeds
    pub candidates : All (λ c. IsCandidate (merged_graph edges) (seed ∷ seeds) c.pod) causes

  merged_ranking-IsBlamed :
      (edges : List (Tagged (Served R))) (findings : List (Tagged (Finding R)))
      (r : List (Cause R) × List (Victim R))
      → merged_ranking edges findings ≡ some r
      → (r ≡ ([], [])) ⊎ IsBlamed edges findings r.0
  unfolding merged_ranking
  merged_ranking-IsBlamed edges findings r e =
      elim (Bool-cases (is_empty edges || is_empty findings)) [
        | inl bare ↦ inl (sym (some-injective _ _ (rw (bare, merged_ranking) at e)))
        | inr full ↦ elim (List-cases (merged_seeds edges findings)) [
          | inl off ↦ inl (sym (some-injective _ _ (rw (full, off, merged_ranking) at e)))
          | inr (s, seeds, on) ↦
              elim (Option-cases
                (rank_root_causes (merged_graph edges) (s ∷ seeds) (onsets_by_pod [] findings))) [
                  | inl stuck ↦ absurd (cc (rw (merged_ranking, full, on, stuck) at e))
                  | inr ([], ranked) ↦
                      inl (sym (some-injective _ _ (rw (merged_ranking, full, on, ranked) at e)))
                  | inr (d ∷ ds, ranked) ↦
                      elim (Option-cases (blast_radius (merged_graph edges) d.pod)) [
                        | inl stuck ↦
                            absurd (cc (rw (merged_ranking, full, on, ranked, stuck) at e))
                        | inr (out, found) ↦ inr (
                            subst
                              (λ (p : List (Cause R) × List (Victim R)).
                                IsBlamed edges findings p.0)
                              (some-injective _ _
                                (rw (merged_ranking, full, on, ranked, found) at e))
                              (record {
                                seed = s;
                                seeds = seeds;
                                on_graph = on;
                                candidates =
                                    (rank_root_causes-IsCandidate (merged_graph edges) (s ∷ seeds)
                                      (onsets_by_pod [] findings) (d ∷ ds) ranked).1;
                              }))
                      ]
                ]
        ]
      ]

  merged_ranking_total :
      (laws : IsRounded R) (damped : IsDamped R) (edges : List (Tagged (Served R)))
      (findings : List (Tagged (Finding R)))
      → All (λ e. IsLight (arc_of e)) (map (λ (e : Tagged (Served R)). e.item.edge) edges)
      → (r : List (Cause R) × List (Victim R)) × (merged_ranking edges findings ≡ some r)
  unfolding merged_ranking
  merged_ranking_total laws damped edges findings light =
      elim (Bool-cases (is_empty edges || is_empty findings)) [
        | inl bare ↦ (([], []), rw (bare, merged_ranking) refl)
        | inr full ↦ elim (List-cases (merged_seeds edges findings)) [
          | inl off ↦ (([], []), rw (full, off, merged_ranking) refl)
          | inr (s, seeds, on) ↦
              let ends =
                build_graph-Ends laws damped (map (λ (e : Tagged (Served R)). e.item.edge) edges)
                  (s ∷ seeds) (onsets_by_pod [] findings) light in
              elim (Option-cases (merged_ranking edges findings)) [
                | inr found ↦ found
                | inl stuck ↦ elim (List-cases ends.causes) [
                  | inl nobody ↦
                      absurd (cc (rw (merged_ranking, full, on, ends.ranked, nobody) at stuck))
                  | inr (c, cs, some_cause) ↦ absurd (
                      cc (
                        rw
                          (
                            merged_ranking,
                            full,
                            on,
                            ends.ranked,
                            some_cause,
                            (ends.victims c.pod).1,
                          )
                          at stuck))
                ]
              ]
        ]
      ]

  pub merge_graphs-IsBlamed :
      (per_signal : List (String × Report R)) (primary : Option String) (m : Merged R)
      → merge_graphs per_signal primary ≡ some m
      → ((m.root_cause_ranking ≡ []) × (m.blast_radius ≡ []))
        ⊎ IsBlamed (all_edges per_signal) (all_findings per_signal) m.root_cause_ranking
  unfolding merge_graphs
  merge_graphs-IsBlamed per_signal primary m e =
      elim (Option-cases (merged_ranking (all_edges per_signal) (all_findings per_signal))) [
        | inl stuck ↦ absurd (cc (rw (merge_graphs, stuck) at e))
        | inr (r, ranked) ↦
            let same = some-injective _ _ (rw (merge_graphs, ranked) at e) in
            subst
              (λ (x : Merged R).
                ((x.root_cause_ranking ≡ []) × (x.blast_radius ≡ []))
                ⊎ IsBlamed (all_edges per_signal) (all_findings per_signal) x.root_cause_ranking)
              same
              (elim (merged_ranking-IsBlamed (all_edges per_signal) (all_findings per_signal) r
                ranked) [
                  | inl nothing ↦ inl (ap (λ p. p.0) nothing, ap (λ p. p.1) nothing)
                  | inr blamed ↦ inr blamed
                ])
      ]

  -- The merge returns for edges whose |r| is between 0 and 1; its edges are those of the signals, each
  -- with its signal. The floats have the laws of rounded arithmetic, and the sixth power of `DECAY` is
  -- below `CUT`.
  pub merge_graphs_total :
      (laws : IsRounded R) (damped : IsDamped R) (per_signal : List (String × Report R))
      (primary : Option String)
      → All
          (λ e. IsLight (arc_of e))
          (map (λ (e : Tagged (Served R)). e.item.edge) (all_edges per_signal))
      → (m : Merged R) × (merge_graphs per_signal primary ≡ some m)
  unfolding merge_graphs
  merge_graphs_total laws damped per_signal primary light =
      let (r, ranked) =
        merged_ranking_total laws damped (all_edges per_signal) (all_findings per_signal) light in
      elim (Option-cases (merge_graphs per_signal primary)) [
        | inl stuck ↦ absurd (cc (rw (merge_graphs, ranked) at stuck))
        | inr found ↦ found
      ]
