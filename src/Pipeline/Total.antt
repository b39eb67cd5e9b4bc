-- ===== src/Pipeline/Total.antt =====
-- The verdict of a whole pass: its weights and its walks.
use mathlib.Core.Option.{some-injective}
use abb_accelerator_submissi.Prelude.{
  ◌≡◌, inl, inr, Option, some, List, [], ◌∷◌, String, Float, All, ap, IsRounded, Option-cases,
  List-cases, map, sort, text_le, text_key, Bool, false, not, ◌||◌, ◌≼◌, one, arith, subst, sym,
  unguard, if◌then◌else◌, select, best_from, best_from-All, le_of_not-lt, lookup,
}
use abb_accelerator_submissi.Gate.{Edge, Witness, kinds, is_source_coupling, r_adj}
use abb_accelerator_submissi.Gate.Acceptance.{accept_edge_iff}
use abb_accelerator_submissi.Lag.{Stats, lag_profile, best_directed, adjacent_support}
use abb_accelerator_submissi.Lag.Bounds.{IsCorrelation, best_directed-le, lag_profile-le}
use abb_accelerator_submissi.Detectors.{Numpy}
use abb_accelerator_submissi.Ranking.{arc_of, build_graph, rank_root_causes, blast_radius}
use abb_accelerator_submissi.Ranking.Graphs.{build_graph-IsWellFormed}
use abb_accelerator_submissi.Ranking.Impact.{IsDamped, IsLight, rank_root_causes_total}
use abb_accelerator_submissi.Ranking.Weights.{build_graph-IsLight}
use abb_accelerator_submissi.Ranking.Blast.{blast_radius_total}
use abb_accelerator_submissi.Events.{
  Finding, Vectors, Options, onset_times, raw_onsets, center, findings_of, values_of,
}
use abb_accelerator_submissi.Pipeline.{
  Scene, Verdict, verdict_of, pair_edge, writer_edge, not_higher, too_late, edges_of, scene_of,
  run_pass,
}
use abb_accelerator_submissi.Pipeline.Rated.{IsExact, IsRated, rounded-InUnit, All-IsLight}
use abb_accelerator_submissi.Pipeline.Each.{edges_of-All, source_edge-writer_edge}

or-false_left : (a b : Bool) → (a || b) ≡ false → a ≡ false
or-false_left a b h = ground arith

module _ {R : Type 0} ⦃f : Float R⦄ (laws : IsRounded R) (exact : IsExact R) (stats : Stats R)
    (witness : Witness) (valid : IsCorrelation stats) where
  open laws use {ordered}

  pair_edge-IsRated :
      (vectors : Vectors R) (onset_s : List (String × R)) (a b : String) (e : Edge R)
      → pair_edge stats witness vectors onset_s a b ≡ some e
      → IsRated e
  unfolding pair_edge
  pair_edge-IsRated vectors onset_s a b e h =
      let d = best_directed stats (values_of a vectors) (values_of b vectors) in
      let h1 = (unguard h).1 in
      let (passed, same) =
        (accept_edge_iff ordered (if d.forward then a else b) (if d.forward then b else a) d.r
            d.lag_s d.profile witness onset_s e).0
          (unguard h1).1 in
      subst IsRated (sym same) (
        rounded-InUnit laws exact d.r (
          ordered.le_trans _ _ _ exact.peak_nonneg passed.strong,
          best_directed-le laws stats valid (values_of a vectors) (values_of b vectors),
        ))

  writer_edge-IsRated :
      (src dst : String) (wsrc vdst : List R) (w_onset v_onset : Option R) (e : Edge R)
      → writer_edge stats witness src dst wsrc vdst w_onset v_onset ≡ some e
      → IsRated e
  unfolding writer_edge
  writer_edge-IsRated src dst wsrc vdst w_onset v_onset e h =
      elim (List-cases (select is_source_coupling (kinds witness src dst))) [
        | inl bare ↦ absurd (cc (rw (bare, writer_edge) at h))
        | inr (k, ks, tags) ↦ elim (List-cases (lag_profile stats wsrc vdst)) [
          | inl short ↦ absurd (cc (rw (tags, short, writer_edge) at h))
          | inr (x, xs, long) ↦
              let best = best_from (not_higher stats witness) x xs in
              let weak : Bool =
                f.lt best.1 (f.decimal 5 1) || not (adjacent_support (x ∷ xs) best.0 r_adj) in
              let (strong, h1) = unguard {b = weak} (rw (tags, long, writer_edge) at h) in
              let built = (unguard {b = too_late stats witness w_onset v_onset} h1).1 in
              let small : All (λ y. y.1 ≼ one) (x ∷ xs) =
                subst (All (λ y. y.1 ≼ one)) long (lag_profile-le laws stats valid wsrc vdst) in
              subst IsRated (some-injective _ _ built) (
                rounded-InUnit laws exact best.1 (
                  ordered.le_trans _ _ _ exact.source_nonneg
                      (le_of_not-lt ordered _ _ (or-false_left _ _ strong)),
                  best_from-All (not_higher stats witness) (λ y. y.1 ≼ one) x xs small.0 small.1,
                ))
        ]
      ]

module _ {R : Type 0} ⦃f : Float R⦄ (laws : IsRounded R) (damped : IsDamped R) (stats : Stats R)
    (witness : Witness) where
  -- The last stage of a pass returns a verdict for all findings and for all edges whose |r| is between 0 and 1,
  -- and the verdict has these edges: neither the ranking nor the blast radius loops.
  pub verdict_of_total :
      (opts : Options R) (vectors : Vectors R) (findings : List (Finding R)) (edges : List (Edge R))
      → All (λ e. IsLight (arc_of e)) edges
      → (v : Verdict R) × (verdict_of stats witness opts vectors findings edges ≡ some v)
  unfolding verdict_of
  verdict_of_total opts vectors findings edges light =
      let g = build_graph edges in
      let seeds : List String = elim opts.slo_breach [
        | [] ↦ sort text_le (map (λ x. x.pod) findings)
        | p ∷ ps ↦ p ∷ ps
      ] in
      let (causes, ranked) =
        rank_root_causes_total laws damped g (build_graph-IsLight edges light) seeds
          (onset_times findings) in
      elim (List-cases causes) [
        | inl nobody ↦ elim (Option-cases (verdict_of stats witness opts vectors findings edges)) [
          | inl stuck ↦ absurd (cc (rw (verdict_of, ranked, nobody) at stuck))
          | inr found ↦ found
        ]
        | inr (c, cs, some_cause) ↦
            let (victims, ends) = blast_radius_total g c.pod (build_graph-IsWellFormed edges) in
            elim (Option-cases (verdict_of stats witness opts vectors findings edges)) [
              | inl stuck ↦ absurd (cc (rw (verdict_of, ranked, some_cause, ends) at stuck))
              | inr found ↦ found
            ]
      ]

  module _ (exact : IsExact R) (valid : IsCorrelation stats) where
    pub edges_of-IsRated :
        (opts : Options R) (scene : Scene R) → All IsRated (edges_of stats witness opts scene)
    edges_of-IsRated =
        edges_of-All stats witness IsRated (pair_edge-IsRated laws exact stats witness valid)
          (λ s w v e h.
            writer_edge-IsRated laws exact stats witness valid w v (values_of w s.writes)
              (values_of v s.vectors) (lookup w s.write_onset_s) (lookup v s.onset_s) e
              (source_edge-writer_edge stats witness s w v e h).1)

    -- The walks of a pass end within their fuel. The vectors have one length where it is used: on others the
    -- profile of a writer would ask scipy for the coefficient of lists of two lengths, which raises.
    pub run_pass_total :
        (np : Numpy R) (opts : Options R) (vectors : Vectors R)
        → (v : Verdict R) × (run_pass stats witness np opts vectors ≡ some v)
    unfolding run_pass
    run_pass_total np opts vectors =
        let raw = raw_onsets np opts vectors in
        let c = center witness raw in
        let findings = findings_of np opts vectors c raw in
        let edges =
          edges_of stats witness opts (scene_of stats witness np opts vectors c findings) in
        verdict_of_total opts vectors findings edges (
          All-IsLight laws edges
            (edges_of-IsRated opts (scene_of stats witness np opts vectors c findings)))

    verdict_of-edges :
        (opts : Options R) (vectors : Vectors R) (findings : List (Finding R))
        (edges : List (Edge R)) (v : Verdict R)
        → verdict_of stats witness opts vectors findings edges ≡ some v
        → v.edges ≡ edges
    unfolding verdict_of
    verdict_of-edges opts vectors findings edges v h =
        let g = build_graph edges in
        let seeds : List String = elim opts.slo_breach [
          | [] ↦ sort text_le (map (λ x. x.pod) findings)
          | p ∷ ps ↦ p ∷ ps
        ] in
        elim (Option-cases (rank_root_causes g seeds (onset_times findings))) [
          | inl stuck ↦ absurd (cc (rw (verdict_of, stuck) at h))
          | inr ([], e) ↦
              sym (ap (λ (x : Verdict R). x.edges) (some-injective _ _ (rw (verdict_of, e) at h)))
          | inr (c ∷ cs, e) ↦ elim (Option-cases (blast_radius g c.pod)) [
            | inl stuck ↦ absurd (cc (rw (verdict_of, e, stuck) at h))
            | inr (b, e') ↦
                sym (
                  ap (λ (x : Verdict R). x.edges)
                    (some-injective _ _ (rw (verdict_of, e, e') at h)))
          ]
        ]

    pub run_pass-IsRated :
        (np : Numpy R) (opts : Options R) (vectors : Vectors R) (v : Verdict R)
        → run_pass stats witness np opts vectors ≡ some v
        → All IsRated v.edges
    unfolding run_pass
    run_pass-IsRated np opts vectors v h =
        let raw = raw_onsets np opts vectors in
        let c = center witness raw in
        let findings = findings_of np opts vectors c raw in
        let scene = scene_of stats witness np opts vectors c findings in
        subst (All IsRated)
          (sym (verdict_of-edges opts vectors findings (edges_of stats witness opts scene) v h))
          (edges_of-IsRated opts scene)
