-- ===== src/Pipeline/Silence.antt =====
-- A pass over a calm cluster.
use abb_accelerator_submissi.Prelude.{
  ◌≡◌, refl, sym, subst, inl, inr, Bool, true, false, Option, none, some, List, [], ◌∷◌, String,
  length, lookup, Bool-cases, List-cases, if◌then◌else◌, Float, text_key, sort, text_le,
}
use abb_accelerator_submissi.Gate.{Witness, couples}
use abb_accelerator_submissi.Lag.{Stats}
use abb_accelerator_submissi.Detectors.{Numpy}
use abb_accelerator_submissi.Ranking.{build_graph, add_edges, rank_root_causes}
use abb_accelerator_submissi.Events.{Vectors, Onsets, Options, findings_of, center, keys}
use abb_accelerator_submissi.Events.Gating.{IsQuiet, raw_onsets-IsQuiet}
use abb_accelerator_submissi.Pipeline.{
  Verdict, Scene, choose_all, combinations, pair_edge, pair_edges, source_edge, source_edges_of,
  source_edges, edges_of, scene_of, verdict_of, run_pass,
}

-- The verdict without findings and without edges.
abbrev pub silent : {R : Type 0} → Vectors R → Verdict R
silent vectors = record {
  findings = [];
  edges = [];
  root_cause_ranking = [];
  blast_radius = [];
  pods = length vectors;
  active = 0;
  accepted_edges = 0;
}

either_way : {A : Type 0} (a b : Bool) (x : A) → (if a then x else (if b then x else x)) ≡ x
either_way true b x = refl
either_way false true x = refl
either_way false false x = refl

module _ {R : Type 0} ⦃f : Float R⦄ (stats : Stats R) (witness : Witness) where
  pair_edge-calm :
      (vectors : Vectors R) (a b : String) → pair_edge stats witness vectors [] a b ≡ none
  unfolding pair_edge lookup
  pair_edge-calm vectors a b = elim (Bool-cases (couples witness a b)) [
    | inl e ↦ rw (e, pair_edge) refl
    | inr e ↦ rw (e, pair_edge) refl
  ]

  pair_edges-calm :
      (vectors : Vectors R) (pairs : List (String × String))
      → pair_edges stats witness vectors [] pairs ≡ []
  unfolding pair_edges
  pair_edges-calm vectors [] = refl
  pair_edges-calm vectors ((a, b) ∷ pairs) =
      rw (pair_edge-calm vectors a b, pair_edges) (pair_edges-calm vectors pairs)

  module _ (vectors writes : Vectors R) (write_onset_s : List (String × R)) where
    -- The loops over pairs without the onset of any finding.
    abbrev s : Scene R
    s = record { vectors = vectors; writes = writes; onset_s = []; write_onset_s = write_onset_s }

    source_edge-calm : (w v : String) → source_edge stats witness s w v ≡ none
    unfolding source_edge lookup
    source_edge-calm w v = either_way _ _ none

    source_edges_of-calm :
        (w : String) (victims : List String) → source_edges_of stats witness s w victims ≡ []
    unfolding source_edges_of
    source_edges_of-calm w [] = refl
    source_edges_of-calm w (v ∷ victims) =
        rw (source_edge-calm w v, source_edges_of) (source_edges_of-calm w victims)

    source_edges-calm :
        (writers victims : List String) → source_edges stats witness s writers victims ≡ []
    unfolding source_edges
    source_edges-calm [] victims = refl
    source_edges-calm (w ∷ writers) victims =
        rw (source_edges_of-calm w victims, source_edges) (source_edges-calm writers victims)

    edges_of-calm : (opts : Options R) → edges_of stats witness opts s ≡ []
    unfolding edges_of choose_all sort
    edges_of-calm opts = elim (List-cases opts.write_vectors) [
      | inl e ↦ rw (e, edges_of) (pair_edges-calm vectors _)
      | inr (w, ws, e) ↦
          let no_source =
            source_edges-calm (sort text_le (keys writes)) (sort text_le (keys vectors)) in
          rw (e, edges_of)
            (rw (pair_edges-calm vectors (combinations (sort text_le (keys vectors))), no_source)
              refl)
    ]

  -- If no pod deviates from its learned level, the pass reports nothing: no finding, no edge, no cause
  -- and no blast radius, whatever the write traffic and the breaches are.
  pub run_pass-IsQuiet :
      (np : Numpy R) (opts : Options R) (vectors : Vectors R)
      → IsQuiet np opts vectors
      → run_pass stats witness np opts vectors ≡ some (silent vectors)
  unfolding run_pass scene_of findings_of verdict_of build_graph add_edges rank_root_causes sort
  run_pass-IsQuiet np opts vectors quiet =
      subst (λ raw. after raw ≡ some (silent vectors))
        (sym (raw_onsets-IsQuiet np opts vectors quiet)) (rw (edges_of-calm _ _ _ opts) refl)
    where
      after : Onsets R → Option (Verdict R)
      after raw =
          let c = center witness raw in
          let findings = findings_of np opts vectors c raw in
          verdict_of stats witness opts vectors findings
            (edges_of stats witness opts (scene_of stats witness np opts vectors c findings))
