-- ===== src/Pipeline/Each.antt =====
-- Predicates on the edges that the loops of `run_pass` build.

use abb_accelerator_submissi.Prelude.{
  ◌≡◌, unguard, lookup, is_some, inl, inr, Bool, true, false, not, some, List, [], ◌∷◌, ◌++◌,
  String, arith, Bool-cases, Option-cases, List-cases, Float, ◌==◌, text_key, All, All-append, sort,
  sort-All, text_le, ◌||◌,
}
use abb_accelerator_submissi.Gate.{Edge, Witness, couples_source}
use abb_accelerator_submissi.Lag.{Stats}
use abb_accelerator_submissi.Events.{Vectors, Options, keys, values_of}
use abb_accelerator_submissi.Pipeline.{
  Scene, joins_pair, choose, choose_all, edge_le, preferred, combinations, pair_edge, pair_edges,
  write_act, writer_edge, source_edge, source_edges_of, source_edges, edges_of,
}

allowed : (a b : Bool) → (a || not b) ≡ false → b ≡ true
allowed a b h = ground arith

module _ {R : Type 0} where
  choose-All :
      (P : Edge R → Type 0) (p : Edge R → Edge R → Bool) (e : Edge R) (chosen : List (Edge R))
      → P e
      → All P chosen
      → All P (choose p e chosen)
  unfolding choose
  choose-All P p e [] h hs = (h, tt)
  choose-All P p e (c ∷ chosen) h hs = elim (Bool-cases (joins_pair e c)) [
    | inl same ↦ elim (Bool-cases (p e c)) [
      | inl better ↦ rw (same, better) (h, hs.1)
      | inr worse ↦ rw (same, worse) hs
    ]
    | inr other ↦ rw other (hs.0, choose-All P p e chosen h hs.1)
  ]

  choose_all-All :
      (P : Edge R → Type 0) (p : Edge R → Edge R → Bool) (chosen edges : List (Edge R))
      → All P chosen
      → All P edges
      → All P (choose_all p chosen edges)
  unfolding choose_all
  choose_all-All P p chosen [] h hs = h
  choose_all-All P p chosen (e ∷ edges) h hs =
      choose_all-All P p (choose p e chosen) edges (choose-All P p e chosen hs.0 h) hs.1

module _ {R : Type 0} ⦃f : Float R⦄ (stats : Stats R) (witness : Witness) where
  -- A source edge comes from `writer_edge`, between pods that couple as source and victim.
  pub source_edge-writer_edge :
      (s : Scene R) (w v : String) (e : Edge R)
      → source_edge stats witness s w v ≡ some e
      → (couples_source witness w v ≡ true)
        × (writer_edge stats witness w v
              (values_of w s.writes)
              (values_of v s.vectors)
              (lookup w s.write_onset_s)
              (lookup v s.onset_s)
            ≡ some e)
  unfolding source_edge
  source_edge-writer_edge s w v e h =
      let h1 = (unguard {b = not (is_some (lookup w s.write_onset_s))} h).1 in
      let (guard, h2) = unguard {b = v == w || not (couples_source witness w v)} h1 in
      let h3 = (unguard {b = not (is_some (lookup v s.onset_s))} h2).1 in
      let out = f.le (write_act stats witness s.writes w) (write_act stats witness s.writes v) in
      (allowed (v == w) (couples_source witness w v) guard, (unguard {b = out} h3).1)

  module _ (P : Edge R → Type 0)
      (paired : (vectors : Vectors R) (onset_s : List (String × R)) (a b : String) (e : Edge R)
        → pair_edge stats witness vectors onset_s a b ≡ some e
        → P e)
      (sourced : (s : Scene R) (w v : String) (e : Edge R)
        → source_edge stats witness s w v ≡ some e
        → P e) where
    pair_edges-All :
        (vectors : Vectors R) (onset_s : List (String × R)) (pairs : List (String × String))
        → All P (pair_edges stats witness vectors onset_s pairs)
    unfolding pair_edges
    pair_edges-All vectors onset_s [] = tt
    pair_edges-All vectors onset_s ((a, b) ∷ pairs) =
        elim (Option-cases (pair_edge stats witness vectors onset_s a b)) [
          | inl e ↦ rw (e, pair_edges) (pair_edges-All vectors onset_s pairs)
          | inr (x, e) ↦
              rw (e, pair_edges)
                (paired vectors onset_s a b x e, pair_edges-All vectors onset_s pairs)
        ]

    source_edges_of-All :
        (s : Scene R) (w : String) (victims : List String)
        → All P (source_edges_of stats witness s w victims)
    unfolding source_edges_of
    source_edges_of-All s w [] = tt
    source_edges_of-All s w (v ∷ victims) = elim (Option-cases (source_edge stats witness s w v)) [
      | inl e ↦ rw (e, source_edges_of) (source_edges_of-All s w victims)
      | inr (x, e) ↦ rw (e, source_edges_of) (sourced s w v x e, source_edges_of-All s w victims)
    ]

    source_edges-All :
        (s : Scene R) (writers victims : List String)
        → All P (source_edges stats witness s writers victims)
    unfolding source_edges
    source_edges-All s [] victims = tt
    source_edges-All s (w ∷ writers) victims =
        All-append P (source_edges_of stats witness s w victims) _ (source_edges_of-All s w victims)
          (source_edges-All s writers victims)

    pub edges_of-All : (opts : Options R) (s : Scene R) → All P (edges_of stats witness opts s)
    unfolding edges_of
    edges_of-All opts s = elim (List-cases opts.write_vectors) [
      | inl e ↦ rw (e, edges_of) (pair_edges-All s.vectors s.onset_s (combinations names))
      | inr (w, ws, e) ↦
          rw (e, edges_of)
            (sort-All edge_le P (choose_all preferred [] (found ++ written)) (
              choose_all-All P preferred [] (found ++ written) tt (
                All-append P found written (pair_edges-All s.vectors s.onset_s (combinations names))
                  (source_edges-All s (sort text_le (keys s.writes)) names))))
    ]
      where
        names : List String
        names = sort text_le (keys s.vectors)

        found : List (Edge R)
        found = pair_edges stats witness s.vectors s.onset_s (combinations names)

        written : List (Edge R)
        written = source_edges stats witness s (sort text_le (keys s.writes)) names
