-- ===== src/Pipeline/Edges.antt =====
-- The edges of `run_pass`, pair by pair (correlation/engine/pipeline.py).

use abb_accelerator_submissi.Prelude.{
  ◌≡◌, refl, sym, ◌⊎◌, ◌↔◌, inl, inr, Bool, true, false, List, [], ◌∷◌, ◌++◌, String, arith,
  Bool-cases, Float, text_key, sort, any, insert_sorted, text_le, ◌||◌,
}
use abb_accelerator_submissi.Gate.{Edge, Witness}
use abb_accelerator_submissi.Lag.{Stats}
use abb_accelerator_submissi.Events.{Vectors, Options, keys}
use abb_accelerator_submissi.Pipeline.{
  Scene, joins_pair, choose, choose_all, edge_le, preferred, pair_edges, source_edges, edges_of,
  combinations,
}

module _ {R : Type 0} where
  abbrev pub has_edge : List (Edge R) → Edge R → Bool
  has_edge edges e = any (joins_pair e) edges

  -- No two edges join the same two pods, in either direction.
  abbrev pub IsSimple : List (Edge R) → Type 0
  IsSimple [] = Unit
  IsSimple (e ∷ edges) = (has_edge edges e ≡ false) × IsSimple edges

  -- The same two ends, in one order or the other.
  abbrev JoinsSame : Edge R → Edge R → Type 0
  JoinsSame a b = ((a.src ≡ b.src) × (a.dst ≡ b.dst)) ⊎ ((a.src ≡ b.dst) × (a.dst ≡ b.src))

  joins_pair_iff : (a b : Edge R) → (joins_pair a b ≡ true) ↔ JoinsSame a b
  unfolding joins_pair
  joins_pair_iff a b = ground (
    arith,
    text_key.same_iff b.src a.src,
    text_key.same_iff b.src a.dst,
    text_key.same_iff b.dst a.src,
    text_key.same_iff b.dst a.dst,
  )

  joins_pair_sym : (a b : Edge R) → joins_pair a b ≡ true → joins_pair b a ≡ true
  joins_pair_sym a b h = (joins_pair_iff b a).1 (elim ((joins_pair_iff a b).0 h) [
    | inl (p, q) ↦ inl (sym p, sym q)
    | inr (p, q) ↦ inr (sym q, sym p)
  ])

  joins_pair_trans :
      (a b c : Edge R) → joins_pair a b ≡ true → joins_pair b c ≡ true → joins_pair a c ≡ true
  joins_pair_trans a b c h k = (joins_pair_iff a c).1 (elim ((joins_pair_iff a b).0 h) [
    | inl (p, q) ↦ elim ((joins_pair_iff b c).0 k) [
      | inl (p', q') ↦ inl (cc, cc)
      | inr (p', q') ↦ inr (cc, cc)
    ]
    | inr (p, q) ↦ elim ((joins_pair_iff b c).0 k) [
      | inl (p', q') ↦ inr (cc, cc)
      | inr (p', q') ↦ inl (cc, cc)
    ]
  ])

  has_edge-same :
      (a b : Edge R) (edges : List (Edge R))
      → joins_pair a b ≡ true
      → has_edge edges b ≡ false
      → has_edge edges a ≡ false
  has_edge-same a b [] h k = refl
  has_edge-same a b (e ∷ edges) h k =
      ground (arith, joins_pair_trans b a e (joins_pair_sym a b h), has_edge-same a b edges h)

  has_edge-choose :
      (p : Edge R → Edge R → Bool) (e x : Edge R) (chosen : List (Edge R))
      → has_edge chosen x ≡ false
      → joins_pair x e ≡ false
      → has_edge (choose p e chosen) x ≡ false
  unfolding choose
  has_edge-choose p e x [] h k = ground arith
  has_edge-choose p e x (c ∷ chosen) h k = ground (arith, has_edge-choose p e x chosen)

  choose-IsSimple :
      (p : Edge R → Edge R → Bool) (e : Edge R) (chosen : List (Edge R))
      → IsSimple chosen
      → IsSimple (choose p e chosen)
  unfolding choose
  choose-IsSimple p e [] h = (refl, tt)
  choose-IsSimple p e (c ∷ chosen) h = elim (Bool-cases (joins_pair e c)) [
    | inl same ↦ elim (Bool-cases (p e c)) [
      | inl better ↦ rw (same, better) (has_edge-same e c chosen same h.0, h.1)
      | inr worse ↦ rw (same, worse) h
    ]
    | inr other ↦ rw other (
      has_edge-choose p e c chosen h.0 (ground (arith, joins_pair_sym c e)),
      choose-IsSimple p e chosen h.1,
    )
  ]

  choose_all-IsSimple :
      (p : Edge R → Edge R → Bool) (chosen edges : List (Edge R))
      → IsSimple chosen
      → IsSimple (choose_all p chosen edges)
  unfolding choose_all
  choose_all-IsSimple p chosen [] h = h
  choose_all-IsSimple p chosen (e ∷ edges) h =
      choose_all-IsSimple p (choose p e chosen) edges (choose-IsSimple p e chosen h)

  module _ (before : Edge R → Edge R → Bool) where
    has_edge-insert :
        (e x : Edge R) (edges : List (Edge R))
        → has_edge (insert_sorted before e edges) x ≡ (joins_pair x e || has_edge edges x)
    unfolding insert_sorted
    has_edge-insert e x [] = refl
    has_edge-insert e x (y ∷ edges) = ground (arith, has_edge-insert e x edges)

    has_edge-sort :
        (x : Edge R) (edges : List (Edge R)) → has_edge (sort before edges) x ≡ has_edge edges x
    unfolding sort
    has_edge-sort x [] = refl
    has_edge-sort x (e ∷ edges) =
        ground (arith, has_edge-insert e x (sort before edges), has_edge-sort x edges)

    insert-IsSimple :
        (e : Edge R) (edges : List (Edge R))
        → has_edge edges e ≡ false
        → IsSimple edges
        → IsSimple (insert_sorted before e edges)
    unfolding insert_sorted
    insert-IsSimple e [] h s = (refl, tt)
    insert-IsSimple e (y ∷ edges) h s = elim (Bool-cases (before e y)) [
      | inl first ↦ rw first (h, s)
      | inr second ↦ rw second (
        ground (arith, has_edge-insert e y edges, joins_pair_sym y e),
        insert-IsSimple e edges (ground arith) s.1,
      )
    ]

    sort-IsSimple : (edges : List (Edge R)) → IsSimple edges → IsSimple (sort before edges)
    unfolding sort
    sort-IsSimple [] h = tt
    sort-IsSimple (e ∷ edges) h =
        insert-IsSimple e (sort before edges) (rw (has_edge-sort e edges) h.0)
          (sort-IsSimple edges h.1)

module _ {R : Type 0} ⦃f : Float R⦄ (stats : Stats R) (witness : Witness) where
  -- With write vectors, a pass reports at most one edge for two pods, in one direction.
  pub edges_of-IsSimple :
      (opts : Options R) (s : Scene R) (w : String × List R) (ws : Vectors R)
      → opts.write_vectors ≡ w ∷ ws
      → IsSimple (edges_of stats witness opts s)
  unfolding edges_of
  edges_of-IsSimple opts s w ws e =
      rw (e, edges_of)
        (sort-IsSimple edge_le (choose_all preferred [] found)
          (choose_all-IsSimple preferred [] found tt))
    where
      found : List (Edge R)
      found =
          pair_edges stats witness s.vectors s.onset_s
            (combinations (sort text_le (keys s.vectors)))
          ++ source_edges stats witness s (sort text_le (keys s.writes))
              (sort text_le (keys s.vectors))
