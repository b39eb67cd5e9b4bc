-- ===== src/Render/Total.antt =====
-- The weights of the edges that are served, and the ranking over them.
use mathlib.Core.Option.{some-injective}
use abb_accelerator_submissi.Prelude.{
  ◌≡◌, refl, sym, subst, ap, inl, inr, some, List, [], ◌∷◌, ◌++◌, map, String, Float, All,
  All-append, Bool-cases, Option-cases, List-cases, IsRounded, lookup, text_key,
}
use abb_accelerator_submissi.Workload.{stable_workload}
use abb_accelerator_submissi.Gate.{Edge}
use abb_accelerator_submissi.Ranking.{arc_of, build_graph, rank_root_causes, blast_radius}
use abb_accelerator_submissi.Ranking.Impact.{IsDamped, IsLight}
use abb_accelerator_submissi.Ranking.Weights.{build_graph-Ends}
use abb_accelerator_submissi.Memory.{MemoryConfig, Row, find_row}
use abb_accelerator_submissi.Memory.Bounds.{InUnit}
use abb_accelerator_submissi.Pipeline.{Verdict}
use abb_accelerator_submissi.Pipeline.Rated.{IsExact, IsRated, rounded-InUnit, abs-InUnit}
use abb_accelerator_submissi.Render.{
  Served, Rendered, live_edge, joins_workloads, keep_stronger, is_held, held_rows, held_edge,
  held_edges, served_edges, pods_by_workload, live_pair, render,
}

module _ {R : Type 0} ⦃f : Float R⦄ where
  abbrev pub IsRatedRow : Row R → Type 0
  IsRatedRow row = InUnit row.r

  abbrev pub AreRated : List (Served R) → Type 0
  AreRated = All (λ e. IsRated e.edge)

module _ {R : Type 0} ⦃f : Float R⦄ (cfg : MemoryConfig R) where
  keep_stronger-All :
      (P : Row R → Type 0) (row : Row R) (kept : List (Row R))
      → P row
      → All P kept
      → All P (keep_stronger row kept)
  unfolding keep_stronger
  keep_stronger-All P row [] h hs = (h, tt)
  keep_stronger-All P row (k ∷ kept) h hs = elim (Bool-cases (joins_workloads row (k.src, k.dst))) [
    | inl same ↦ elim (Bool-cases (f.lt k.confidence row.confidence)) [
      | inl more ↦ rw (same, more) (h, hs.1)
      | inr less ↦ rw (same, less) hs
    ]
    | inr other ↦ rw other (hs.0, keep_stronger-All P row kept h hs.1)
  ]

  held_rows-All :
      (P : Row R → Type 0) (live_pairs : List (String × String)) (kept rows : List (Row R))
      → All P kept
      → All P rows
      → All P (held_rows cfg live_pairs kept rows)
  unfolding held_rows
  held_rows-All P live_pairs kept [] h hs = h
  held_rows-All P live_pairs kept (row ∷ rows) h hs =
      elim (Bool-cases (is_held cfg live_pairs row)) [
        | inl e ↦ rw e (
            held_rows-All P live_pairs (keep_stronger row kept) rows
              (keep_stronger-All P row kept hs.0 h) hs.1)
        | inr e ↦ rw e (held_rows-All P live_pairs kept rows h hs.1)
      ]

  live_edge-edge : (rows : List (Row R)) (e : Edge R) → (live_edge cfg rows e).edge ≡ e
  unfolding live_edge
  live_edge-edge rows e =
      elim (Option-cases
        (find_row (stable_workload e.src, stable_workload e.dst, cfg.signal) rows)) [
          | inl new ↦ rw (new, live_edge) refl
          | inr (row, known) ↦ rw (known, live_edge) refl
        ]

  live-AreRated :
      (rows : List (Row R)) (edges : List (Edge R))
      → All IsRated edges
      → AreRated (map (live_edge cfg rows) edges)
  live-AreRated rows [] h = tt
  live-AreRated rows (e ∷ edges) h =
      (subst IsRated (sym (live_edge-edge rows e)) h.0, live-AreRated rows edges h.1)

  module _ (laws : IsRounded R) (exact : IsExact R) where
    held_edge-IsRated :
        (now : R) (pods : List (String × String)) (row : Row R) (e : Served R)
        → held_edge cfg now pods row ≡ some e
        → IsRatedRow row
        → IsRated e.edge
    unfolding held_edge
    held_edge-IsRated now pods row e h rated = elim (Option-cases (lookup row.src pods)) [
      | inl gone ↦ absurd (cc (rw (held_edge, gone) at h))
      | inr (src, e1) ↦ elim (Option-cases (lookup row.dst pods)) [
        | inl gone ↦ absurd (cc (rw (held_edge, e1, gone) at h))
        | inr (dst, e2) ↦
            subst (λ (x : Served R). IsRated x.edge)
              (some-injective _ _ (rw (held_edge, e1, e2) at h))
              (rounded-InUnit laws exact row.r rated)
      ]
    ]

    held_edges-AreRated :
        (now : R) (pods : List (String × String)) (rows : List (Row R))
        → All IsRatedRow rows
        → AreRated (held_edges cfg now pods rows)
    unfolding held_edges
    held_edges-AreRated now pods [] h = tt
    held_edges-AreRated now pods (row ∷ rows) h = elim (Option-cases (held_edge cfg now pods row)) [
      | inl e ↦ rw (e, held_edges) (held_edges-AreRated now pods rows h.1)
      | inr (x, e) ↦
          rw (e, held_edges)
            (held_edge-IsRated now pods row x e h.0, held_edges-AreRated now pods rows h.1)
    ]

    served_edges-AreRated :
        (now : R) (graph : Verdict R) (pods : List String) (rows : List (Row R))
        → All IsRated graph.edges
        → All IsRatedRow rows
        → let served = served_edges cfg now graph pods rows in AreRated (served.0 ++ served.1)
    unfolding served_edges
    served_edges-AreRated now graph pods rows h hs =
        All-append (λ e. IsRated e.edge) _ _ (live-AreRated rows graph.edges h)
          (held_edges-AreRated now (pods_by_workload [] pods) _
            (held_rows-All IsRatedRow (map (live_pair cfg) graph.edges) [] rows tt hs))

  module _ (now : R) (graph : Verdict R) (pods : List String) (rows : List (Row R)) where
    abbrev pub all_served : List (Served R)
    all_served =
        (served_edges cfg now graph pods rows).0 ++ (served_edges cfg now graph pods rows).1

    served_weights : List (Edge R)
    served_weights = map (λ (e : Served R). e.edge) all_served

    seeds_of : List String
    seeds_of = map (λ x. x.pod) graph.findings

    onsets_of : List (String × R)
    onsets_of = map (λ x. (x.pod, x.onset_s)) graph.findings

    render-edges :
        (out : Rendered R) → render cfg now graph pods rows ≡ some out → out.edges ≡ all_served
    unfolding render served_weights seeds_of onsets_of
    render-edges out h = elim (List-cases graph.findings) [
      | inl calm ↦ same (rw (render, calm) at h)
      | inr (x, xs, stirred) ↦ elim (List-cases all_served) [
        | inl bare ↦ same (rw (render, stirred, bare) at h)
        | inr (e, es, some_edge) ↦
            elim (Option-cases (rank_root_causes (build_graph served_weights) seeds_of onsets_of)) [
              | inl stuck ↦ absurd (cc (rw (render, stirred, some_edge, stuck) at h))
              | inr ([], e1) ↦ same (rw (render, stirred, some_edge, e1) at h)
              | inr (c ∷ cs, e1) ↦
                  elim (Option-cases (blast_radius (build_graph served_weights) c.pod)) [
                    | inl stuck ↦ absurd (cc (rw (render, stirred, some_edge, e1, stuck) at h))
                    | inr (b, e2) ↦ same (rw (render, stirred, some_edge, e1, e2) at h)
                  ]
            ]
      ]
    ]
      where
        same : {x : Rendered R} → some x ≡ some out → out.edges ≡ x.edges
        same e = sym (ap (λ (x : Rendered R). x.edges) (some-injective _ _ e))

    weights-IsLight :
        (laws : IsRounded R)
        → (edges : List (Served R)) → AreRated edges
        → All (λ e. IsLight (arc_of e)) (map (λ (e : Served R). e.edge) edges)
    weights-IsLight laws [] h = tt
    weights-IsLight laws (e ∷ edges) h =
        (abs-InUnit laws e.edge.r h.0, weights-IsLight laws edges h.1)

    -- The graph of a pass is rendered with any table, if the coefficients of its edges and of the rows are
    -- between 0 and 1; those of the served edges are so too.
    pub render_total :
        (laws : IsRounded R) (exact : IsExact R) (damped : IsDamped R)
        → All IsRated graph.edges
        → All IsRatedRow rows
        → (out : Rendered R) × (render cfg now graph pods rows ≡ some out) × AreRated out.edges
    unfolding render served_weights seeds_of onsets_of
    render_total laws exact damped h hs =
        let rated = served_edges-AreRated laws exact now graph pods rows h hs in
        let ends =
          build_graph-Ends laws damped served_weights seeds_of onsets_of
            (weights-IsLight laws all_served rated) in
        let done : (out : Rendered R)
            → render cfg now graph pods rows ≡ some out
            → AreRated out.edges =
          λ out e. subst AreRated (sym (render-edges out e)) rated in
        elim (Option-cases (render cfg now graph pods rows)) [
          | inr (out, e) ↦ (out, e, done out e)
          | inl stuck ↦ elim (List-cases graph.findings) [
            | inl calm ↦ absurd (cc (rw (render, calm) at stuck))
            | inr (x, xs, stirred) ↦ elim (List-cases all_served) [
              | inl bare ↦ absurd (cc (rw (render, stirred, bare) at stuck))
              | inr (e, es, some_edge) ↦ elim (List-cases ends.causes) [
                | inl nobody ↦
                    absurd (cc (rw (render, stirred, some_edge, ends.ranked, nobody) at stuck))
                | inr (c, cs, some_cause) ↦ absurd (
                    cc (
                      rw
                        (
                          render,
                          stirred,
                          some_edge,
                          ends.ranked,
                          some_cause,
                          (ends.victims c.pod).1,
                        )
                        at stuck))
              ]
            ]
          ]
        ]
