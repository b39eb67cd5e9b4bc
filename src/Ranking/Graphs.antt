-- ===== src/Ranking/Graphs.antt =====
-- The graph that `build_graph` makes: its nodes, its arcs, and walks along them.

use abb_accelerator_submissi.Prelude.{
  ◌≡◌, refl, inl, inr, true, List, [], ◌∷◌, ◌++◌, Memᴰ, String, arith, Bool-cases, Float, ◌==◌,
  ==_refl, text_key, contains, All, All-imp, mem-All, select, ◌||◌,
}
use abb_accelerator_submissi.Gate.{Edge}
use abb_accelerator_submissi.Ranking.{
  Arc, Graph, add_node, joins, add_arc, out_edges, arc_of, add_edge, add_edges, build_graph,
}

pub contains-append :
    (xs ys : List String) (a : String) → contains (xs ++ ys) a ≡ (contains xs a || contains ys a)
unfolding contains
contains-append [] ys a = refl
contains-append (x ∷ xs) ys a = ground (arith, contains-append xs ys a)

contains-add_node_self : (n : String) (nodes : List String) → contains (add_node n nodes) n ≡ true
unfolding add_node contains
contains-add_node_self n nodes = elim (Bool-cases (contains nodes n)) [
  | inl old ↦ rw old old
  | inr new ↦ rw new (rw (contains-append nodes (n ∷ []) n, new, ==_refl n))
]

contains-add_node :
    (n m : String) (nodes : List String)
    → contains nodes m ≡ true
    → contains (add_node n nodes) m ≡ true
unfolding add_node
contains-add_node n m nodes h = elim (Bool-cases (contains nodes n)) [
  | inl old ↦ rw old h
  | inr new ↦ rw new (rw (contains-append nodes (n ∷ []) m, h))
]

module _ {R : Type 0} where
  -- Both ends of an arc are nodes.
  pub record IsInside (nodes : List String) (a : Arc R) : Type 0 where
    pub from : contains nodes a.src ≡ true
    pub to : contains nodes a.dst ≡ true

  abbrev pub IsWellFormed : Graph R → Type 0
  IsWellFormed g = All (IsInside g.nodes) g.arcs

  pub add_arc-All {κ} :
      (P : Arc R → Type κ) (a : Arc R) (arcs : List (Arc R))
      → P a
      → All P arcs
      → All P (add_arc a arcs)
  unfolding add_arc
  add_arc-All P a [] h hs = (h, tt)
  add_arc-All P a (b ∷ arcs) h hs = elim (Bool-cases (joins a.src a.dst b)) [
    | inl e ↦ rw e (h, hs.1)
    | inr e ↦ rw e (hs.0, add_arc-All P a arcs h hs.1)
  ]

  -- An arc from `n` to `m`.
  abbrev pub Link : Graph R → String → String → Type 0
  Link g n m = (a : Arc R) × Memᴰ a g.arcs × (a.src ≡ n) × (a.dst ≡ m)

  -- The walks along the arcs.
  pub data Walk (g : Graph R) (root : String) : String → Type 0 where
    here : Walk g root root
    step : {n m : String} → Walk g root n → Link g n m → Walk g root m

  select-Link :
      (g : Graph R) (n : String) (arcs : List (Arc R))
      → All (λ a. Memᴰ a g.arcs) arcs
      → All (λ a. Link g n a.dst) (select (λ a. a.src == n) arcs)
  select-Link g n [] h = tt
  select-Link g n (a ∷ arcs) h = elim (Bool-cases (a.src == n)) [
    | inl e ↦ rw e ((a, h.0, (text_key.same_iff a.src n).0 e, refl), select-Link g n arcs h.1)
    | inr e ↦ rw e (select-Link g n arcs h.1)
  ]

  -- The out-edges of a node are links from it.
  pub out_edges-Link : (g : Graph R) (n : String) → All (λ a. Link g n a.dst) (out_edges g n)
  out_edges-Link g n = select-Link g n g.arcs (mem-All (λ a. Memᴰ a g.arcs) g.arcs (λ a m. m))

module _ {R : Type 0} ⦃f : Float R⦄ where
  -- Each arc of the graph comes from an edge of which `P` holds.
  pub add_edges-All {κ} :
      (P : Arc R → Type κ) (g : Graph R) (edges : List (Edge R))
      → All (λ e. P (arc_of e)) edges
      → All P g.arcs
      → All P (add_edges g edges).arcs
  unfolding add_edges
  add_edges-All P g [] h hs = hs
  add_edges-All P g (e ∷ edges) h hs =
      add_edges-All P (add_edge g e) edges h.1
        (unfold add_edge in add_arc-All P (arc_of e) g.arcs h.0 hs)

  add_edge-IsWellFormed : (g : Graph R) (e : Edge R) → IsWellFormed g → IsWellFormed (add_edge g e)
  unfolding add_edge
  add_edge-IsWellFormed g e h =
      let nodes = add_node e.dst (add_node e.src g.nodes) in
      add_arc-All (IsInside nodes) (arc_of e) g.arcs
        (record {
          from =
              contains-add_node e.dst e.src (add_node e.src g.nodes)
                (contains-add_node_self e.src g.nodes);
          to = contains-add_node_self e.dst (add_node e.src g.nodes);
        })
        (All-imp (IsInside g.nodes) (IsInside nodes)
          (λ a i. record {
            from =
                contains-add_node e.dst a.src (add_node e.src g.nodes)
                  (contains-add_node e.src a.src g.nodes i.from);
            to =
                contains-add_node e.dst a.dst (add_node e.src g.nodes)
                  (contains-add_node e.src a.dst g.nodes i.to);
          })
          g.arcs h)

  add_edges-IsWellFormed :
      (g : Graph R) (edges : List (Edge R)) → IsWellFormed g → IsWellFormed (add_edges g edges)
  unfolding add_edges
  add_edges-IsWellFormed g [] h = h
  add_edges-IsWellFormed g (e ∷ edges) h =
      add_edges-IsWellFormed (add_edge g e) edges (add_edge-IsWellFormed g e h)

  -- Every arc of a built graph joins two of its nodes.
  pub build_graph-IsWellFormed : (edges : List (Edge R)) → IsWellFormed (build_graph edges)
  unfolding build_graph
  build_graph-IsWellFormed edges =
      add_edges-IsWellFormed (record { nodes = []; arcs = [] }) edges tt
