-- ===== src/Pipeline.antt =====
-- correlation/engine/pipeline.py, the edges and the verdict of `run_pass`; `Events` is its detection.
-- The result is an `Option` because the walks of `Ranking` take fuel.
pub mod Coupling
pub mod Each
pub mod Edges
pub mod Rated
pub mod Silence
pub mod Total
pub mod Even
use abb_accelerator_submissi.Prelude.{
  ℕ, zero, suc, ◌+◌, Bool, true, false, not, ◌&&◌, ◌||◌, Option, none, some, List, [], ◌∷◌, ◌++◌,
  map, String, length, select, if◌then◌else◌, Float, abs, lookup, sort, best_from, contains,
  text_le, text_key, number_key, ◌==◌, is_some,
}
use abb_accelerator_submissi.Gate.{
  Edge, Witness, Evidence, kinds, couples, couples_source, accept_edge, is_source_coupling, only_if,
  r_adj, temporal_tol_s, same_set, evidence_key,
}
use abb_accelerator_submissi.Lag.{Stats, lag_profile, best_directed, adjacent_support}
use abb_accelerator_submissi.Ranking.{Victim, Cause, build_graph, rank_root_causes, blast_radius}
use abb_accelerator_submissi.Detectors.{Numpy, greatest}
use abb_accelerator_submissi.Events.{
  Finding, Vectors, Options, keys, values_of, sliced, raw_onsets, center, findings_of, onset_times,
  write_onsets, slice_from,
}

pub record Verdict (R : Type 0) : Type 0 where
  pub findings : List (Finding R)
  pub edges : List (Edge R)
  pub root_cause_ranking : List (Cause R)
  pub blast_radius : List (Victim R)
  pub pods : ℕ
  pub active : ℕ
  pub accepted_edges : ℕ

-- What `run_pass` hands to its loops over pairs.
pub record Scene (R : Type 0) : Type 0 where
  pub vectors : Vectors R
  pub writes : Vectors R
  pub onset_s : List (String × R)
  pub write_onset_s : List (String × R)

-- Pairs of a sorted list, `itertools.combinations(xs, 2)`.
unfoldable pub combinations : List String → List (String × String)
combinations [] = []
combinations (x ∷ xs) = map (λ y. (x, y)) xs ++ combinations xs

module _ {R : Type 0} where
  unfoldable pub joins_pair : Edge R → Edge R → Bool
  joins_pair a b = same_set a.src a.dst (b.src, b.dst)

  -- `chosen[pair] = e`, if the pair is new or `e` is preferred to the edge that it has.
  unfoldable pub choose : (Edge R → Edge R → Bool) → Edge R → List (Edge R) → List (Edge R)
  choose preferred e [] = e ∷ []
  choose preferred e (c ∷ chosen) =
      if joins_pair e c
      then (if preferred e c then e else c) ∷ chosen
      else c ∷ choose preferred e chosen

  unfoldable pub choose_all :
      (Edge R → Edge R → Bool) → List (Edge R) → List (Edge R) → List (Edge R)
  unfolding choose
  choose_all preferred chosen [] = chosen
  choose_all preferred chosen (e ∷ edges) = choose_all preferred (choose preferred e chosen) edges

  -- `sorted(…, key=lambda e: (e["src"], e["dst"]))`
  abbrev pub edge_le : Edge R → Edge R → Bool
  edge_le a b = if a.src == b.src then text_le a.dst b.dst else text_le a.src b.src

module _ {R : Type 0} ⦃f : Float R⦄ where
  abbrev pub written : Edge R → Bool
  written e = contains e.evidence Evidence.write

  -- `_edge_pref(a) > _edge_pref(b)`
  unfoldable pub preferred : Edge R → Edge R → Bool
  unfolding contains
  preferred a b =
      if written a
      then (if written b then f.lt (abs b.r) (abs a.r) else true)
      else (if written b then false else f.lt (abs b.r) (abs a.r))

  module _ (stats : Stats R) (witness : Witness) where
    -- One pair of the psi loop. No onset at all means that nothing is disturbed.
    unfoldable pub pair_edge : Vectors R → List (String × R) → String → String → Option (Edge R)
    unfolding couples best_directed accept_edge lookup
    pair_edge cvec onset_s a b =
        let disturbed = not (elim onset_s [ [] ↦ true | _ ∷ _ ↦ false ]) in
        let d = best_directed stats (values_of a cvec) (values_of b cvec) in
        if not (couples witness a b)
        then none
        else if not (is_some (lookup a onset_s))
            && (not (is_some (lookup b onset_s)) && not disturbed)
        then none
        else accept_edge (if d.forward then a else b) (if d.forward then b else a) d.r d.lag_s
            d.profile witness onset_s

    unfoldable pub pair_edges :
        Vectors R → List (String × R) → List (String × String) → List (Edge R)
    unfolding pair_edge
    pair_edges cvec onset_s [] = []
    pair_edges cvec onset_s ((a, b) ∷ pairs) =
        let rest = pair_edges cvec onset_s pairs in
        elim (pair_edge cvec onset_s a b) [ none ↦ rest | some e ↦ e ∷ rest ]

    -- The entry of the largest r, the first of several: the strongest positive coupling.
    abbrev pub not_higher : ℕ × R → ℕ × R → Bool
    not_higher x m = not (f.lt m.1 x.1)

    abbrev pub too_late : Option R → Option R → Bool
    too_late (some w) (some v) = f.lt (f.add v temporal_tol_s) w
    too_late _ _ = false

    unfoldable pub writer_edge :
        String → String → List R → List R → Option R → Option R → Option (Edge R)
    unfolding lag_profile best_from adjacent_support kinds
    writer_edge src dst wsrc vdst w_onset v_onset =
        let found = select is_source_coupling (kinds witness src dst) in
        elim found [
          | [] ↦ none
          | k ∷ ks ↦ elim (lag_profile stats wsrc vdst) [
            | [] ↦ none
            | x ∷ xs ↦
                let (lag, r) = best_from not_higher x xs in
                if f.lt r (f.decimal 5 1) || not (adjacent_support (x ∷ xs) lag r_adj)
                then none
                else if too_late w_onset v_onset
                then none
                else some (record {
                  src = src;
                  dst = dst;
                  r = f.round r 3;
                  lag_s = lag;
                  evidence =
                      Evidence.write
                      ∷ (k ∷ ks ++ only_if (is_some w_onset && is_some v_onset) Evidence.temporal);
                })
          ]
        ]

    -- The largest write of a pod inside the slice.
    abbrev pub write_act : Vectors R → String → R
    write_act wvec p = greatest (map abs (values_of p wvec))

    -- A source must have a write onset, and the victim a finding; the source out-writes the victim.
    unfoldable pub source_edge : Scene R → String → String → Option (Edge R)
    unfolding writer_edge couples_source lookup
    source_edge s w v =
        if not (is_some (lookup w s.write_onset_s))
        then none
        else if v == w || not (couples_source witness w v)
        then none
        else if not (is_some (lookup v s.onset_s))
        then none
        else if f.le (write_act s.writes w) (write_act s.writes v)
        then none
        else writer_edge w v (values_of w s.writes) (values_of v s.vectors)
            (lookup w s.write_onset_s) (lookup v s.onset_s)

    unfoldable pub source_edges_of : Scene R → String → List String → List (Edge R)
    unfolding source_edge
    source_edges_of s w [] = []
    source_edges_of s w (v ∷ victims) =
        let rest = source_edges_of s w victims in
        elim (source_edge s w v) [ none ↦ rest | some e ↦ e ∷ rest ]

    unfoldable pub source_edges : Scene R → List String → List String → List (Edge R)
    unfolding source_edges_of
    source_edges s [] victims = []
    source_edges s (w ∷ writers) victims =
        source_edges_of s w victims ++ source_edges s writers victims

    -- The edges of the pass. With write vectors there is one edge for each pair.
    unfoldable pub edges_of : Options R → Scene R → List (Edge R)
    unfolding combinations pair_edges source_edges choose_all preferred sort
    edges_of opts s =
        let names = sort text_le (keys s.vectors) in
        let pairs = pair_edges s.vectors s.onset_s (combinations names) in
        elim opts.write_vectors [
          | [] ↦ pairs
          | _ ∷ _ ↦ sort edge_le (
              choose_all preferred []
                (pairs ++ source_edges s (sort text_le (keys s.writes)) names))
        ]

    unfoldable pub scene_of :
        Numpy R → Options R → Vectors R → Option ℕ → List (Finding R) → Scene R
    unfolding slice_from write_onsets
    scene_of np opts vectors c findings =
        let part = slice_from opts vectors c in
        record {
          vectors = sliced part vectors;
          writes = sliced part opts.write_vectors;
          onset_s = onset_times findings;
          write_onset_s = write_onsets np c opts.write_vectors;
        }

    abbrev pub not_after : Finding R → Finding R → Bool
    not_after a b = not (f.lt b.onset_s a.onset_s)

    -- The verdict over edges that are found: ranking, blast radius and counts.
    unfoldable pub verdict_of :
        Options R → Vectors R → List (Finding R) → List (Edge R) → Option (Verdict R)
    unfolding build_graph rank_root_causes blast_radius sort
    verdict_of opts vectors findings edges =
        let g = build_graph edges in
        let active : List String = sort text_le (map (λ x. x.pod) findings) in
        let seeds : List String = elim opts.slo_breach [ [] ↦ active | p ∷ ps ↦ p ∷ ps ] in
        let verdict : List (Cause R) → List (Victim R) → Verdict R = λ ranking blast. record {
          findings = sort not_after findings;
          edges = edges;
          root_cause_ranking = ranking;
          blast_radius = blast;
          pods = length vectors;
          active = length findings;
          accepted_edges = length edges;
        } in
        elim (rank_root_causes g seeds (onset_times findings)) [
          | none ↦ none
          | some [] ↦ some (verdict [] [])
          | some (cause ∷ causes) ↦ elim (blast_radius g cause.pod) [
            | none ↦ none
            | some blast ↦ some (verdict (cause ∷ causes) blast)
          ]
        ]

    unfoldable pub run_pass : Numpy R → Options R → Vectors R → Option (Verdict R)
    unfolding raw_onsets center findings_of scene_of edges_of verdict_of
    run_pass np opts vectors =
        let raw = raw_onsets np opts vectors in
        let c = center witness raw in
        let findings = findings_of np opts vectors c raw in
        verdict_of opts vectors findings (edges_of opts (scene_of np opts vectors c findings))
