-- ===== src/Pipeline/Coupling.antt =====
-- The resources that the edges of `run_pass` rest on.
use mathlib.Core.Option.{some-injective}
use abb_accelerator_submissi.Prelude.{
  ◌≡◌, ap, sym, unguard, lookup, inl, inr, true, Option, some, List, [], ◌∷◌, String, arith, ℕ,
  List-cases, Float, text_key, All, any, select,
}
use abb_accelerator_submissi.Gate.{
  Edge, Evidence, Witness, kinds, couples_source, is_coupling, is_source_coupling, accept_edge,
}
use abb_accelerator_submissi.Lag.{Stats, Profile, lag_profile}
use abb_accelerator_submissi.Events.{Vectors, Options, values_of}
use abb_accelerator_submissi.Pipeline.{Scene, pair_edge, writer_edge, source_edge, edges_of}
use abb_accelerator_submissi.Pipeline.Each.{source_edge-writer_edge, edges_of-All}

coupling-source :
    (ks : List Evidence) → any is_coupling ks ≡ true → any is_source_coupling ks ≡ true
coupling-source [] h = absurd (cc)
coupling-source (k ∷ ks) h = ground (arith, coupling-source ks)

module _ {R : Type 0} ⦃f : Float R⦄ (stats : Stats R) (witness : Witness) where
  -- The two pods share a network edge, a disk or a node.
  abbrev pub IsCoupled : Edge R → Type 0
  IsCoupled e = couples_source witness e.src e.dst ≡ true

  accept_edge-IsCoupled :
      (src dst : String) (r : R) (lag_s : ℕ) (profile : Profile R) (onset_s : List (String × R))
      (e : Edge R)
      → accept_edge src dst r lag_s profile witness onset_s ≡ some e
      → IsCoupled e
  unfolding accept_edge couples_source
  accept_edge-IsCoupled src dst r lag_s profile onset_s e h =
      ground (arith, coupling-source (kinds witness src dst))

  pair_edge-IsCoupled :
      (vectors : Vectors R) (onset_s : List (String × R)) (a b : String) (e : Edge R)
      → pair_edge stats witness vectors onset_s a b ≡ some e
      → IsCoupled e
  unfolding pair_edge
  pair_edge-IsCoupled vectors onset_s a b e h =
      let h1 = (unguard h).1 in accept_edge-IsCoupled _ _ _ _ _ onset_s e (unguard h1).1

  writer_edge-ends :
      (src dst : String) (wsrc vdst : List R) (w_onset v_onset : Option R) (e : Edge R)
      → writer_edge stats witness src dst wsrc vdst w_onset v_onset ≡ some e
      → (e.src ≡ src) × (e.dst ≡ dst)
  unfolding writer_edge
  writer_edge-ends src dst wsrc vdst w_onset v_onset e h =
      elim (List-cases (select is_source_coupling (kinds witness src dst))) [
        | inl bare ↦ absurd (cc (rw (bare, writer_edge) at h))
        | inr (k, ks, tags) ↦ elim (List-cases (lag_profile stats wsrc vdst)) [
          | inl short ↦ absurd (cc (rw (tags, short, writer_edge) at h))
          | inr (x, xs, long) ↦
              let passed = (unguard (unguard (rw (tags, long, writer_edge) at h)).1).1 in
              (
                ap (λ y. y.src) (sym (some-injective _ _ passed)),
                ap (λ y. y.dst) (sym (some-injective _ _ passed)),
              )
        ]
      ]

  source_edge-IsCoupled :
      (s : Scene R) (w v : String) (e : Edge R)
      → source_edge stats witness s w v ≡ some e
      → IsCoupled e
  source_edge-IsCoupled s w v e h =
      let (coupled, built) = source_edge-writer_edge stats witness s w v e h in
      let (src, dst) =
        writer_edge-ends w v (values_of w s.writes) (values_of v s.vectors)
          (lookup w s.write_onset_s) (lookup v s.onset_s) e built in
      rw (src, dst) coupled

  -- Every edge that a pass reports joins two pods that share a network edge, a disk or a node: no
  -- correlation alone makes an edge.
  pub edges_of-IsCoupled :
      (opts : Options R) (s : Scene R) → All IsCoupled (edges_of stats witness opts s)
  edges_of-IsCoupled =
      edges_of-All stats witness IsCoupled pair_edge-IsCoupled source_edge-IsCoupled
