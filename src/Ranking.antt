-- ===== src/Ranking.antt =====
-- correlation/engine/ranking.py: the causal graph, the blast radius of a pod and the ranking of root
-- causes. The two `while` loops take fuel, and `none` means that it ran out.
pub mod Order
pub mod Weights
pub mod Graphs
pub mod Blast
pub mod Impact
use abb_accelerator_submissi.Prelude.{
  ℕ, zero, suc, ◌+◌, ◌*◌, Bool, true, false, not, ◌&&◌, ◌||◌, Option, none, some, List, [], ◌∷◌,
  ◌++◌, map, String, length, take, any, select, if◌then◌else◌, Float, nought, one, abs, ◌==◌,
  text_key, contains, lookup, put, sort,
}
use abb_accelerator_submissi.Gate.{Edge}

-- An edge of the `DiGraph`, with the data that the walks read.
pub record Arc (R : Type 0) : Type 0 where
  pub src : String
  pub dst : String
  pub weight : R
  pub lag_s : ℕ

-- The nodes and the edges, in the order in which they came.
pub record Graph (R : Type 0) : Type 0 where
  pub nodes : List String
  pub arcs : List (Arc R)

pub record Victim (R : Type 0) : Type 0 where
  pub pod : String
  pub impact : R
  pub eta_s : ℕ

pub record Cause (R : Type 0) : Type 0 where
  pub pod : String
  pub score : R
  pub onset_s : Option R

unfoldable pub add_node : String → List String → List String
add_node n nodes = if contains nodes n then nodes else nodes ++ n ∷ []

-- The state of `_forward_impact`: the best impact so far, and the nodes to go on from.
pub record Spread (R : Type 0) : Type 0 where
  pub impact : List (String × R)
  pub frontier : List (String × R)

-- The state of `blast_radius`, with `out` in the order of discovery.
pub record Wave (R : Type 0) : Type 0 where
  pub out : List (Victim R)
  pub seen : List String
  pub frontier : List (String × (R × ℕ))

-- A walk of more than five edges falls below `cut`: 1 + d + … + d⁵ rounds, for d edges.
abbrev pub rounds : ℕ → ℕ → ℕ
rounds d zero = 1
rounds d (suc j) = 1 + d * rounds d j

module _ {R : Type 0} where
  abbrev pub joins : String → String → Arc R → Bool
  joins a b arc = arc.src == a && arc.dst == b

  -- A second edge between the same nodes takes the place of the first.
  unfoldable pub add_arc : Arc R → List (Arc R) → List (Arc R)
  add_arc a [] = a ∷ []
  add_arc a (b ∷ arcs) = if joins a.src a.dst b then a ∷ arcs else b ∷ add_arc a arcs

  abbrev pub out_edges : Graph R → String → List (Arc R)
  out_edges g n = select (λ a. a.src == n) g.arcs

  -- `in_degree(n) > 0`
  abbrev pub has_upstream : Graph R → String → Bool
  has_upstream g n = any (λ a. a.dst == n) g.arcs

module _ {R : Type 0} ⦃f : Float R⦄ where
  abbrev pub decay : R
  decay = f.decimal 7 1

  abbrev pub cut : R
  cut = f.decimal 15 2

  abbrev pub upstream_penalty : R
  upstream_penalty = f.decimal 5 1

  abbrev pub arc_of : Edge R → Arc R
  arc_of e = record { src = e.src; dst = e.dst; weight = abs e.r; lag_s = e.lag_s }

  unfoldable pub add_edge : Graph R → Edge R → Graph R
  unfolding add_node add_arc
  add_edge g e = record {
    nodes = add_node e.dst (add_node e.src g.nodes);
    arcs = add_arc (arc_of e) g.arcs;
  }

  unfoldable pub add_edges : Graph R → List (Edge R) → Graph R
  unfolding add_edge
  add_edges g [] = g
  add_edges g (e ∷ edges) = add_edges (add_edge g e) edges

  unfoldable pub build_graph : List (Edge R) → Graph R
  unfolding add_edges
  build_graph = add_edges (record { nodes = []; arcs = [] })

  -- The impact that a walk of weight `w` carries along an edge.
  abbrev pub carried : R → Arc R → R
  carried w a = f.mul (f.mul w a.weight) decay

  abbrev pub impact_of : List (String × R) → String → R
  impact_of impact n = elim (lookup n impact) [ none ↦ nought | some w ↦ w ]

  unfoldable pub relax : R → Spread R → Arc R → Spread R
  relax w s a =
      let nw = carried w a in
      if f.lt nw cut || f.le nw (impact_of s.impact a.dst)
      then s
      else record { impact = put a.dst nw s.impact; frontier = s.frontier ++ (a.dst, nw) ∷ [] }

  unfoldable pub relax_all : R → Spread R → List (Arc R) → Spread R
  unfolding relax
  relax_all w s [] = s
  relax_all w s (a ∷ arcs) = relax_all w (relax w s a) arcs

  spread : ℕ → Graph R → Spread R → Option (List (String × R))
  unfolding relax_all
  spread zero g s = elim s.frontier [ [] ↦ some s.impact | _ ∷ _ ↦ none ]
  spread (suc fuel) g s = elim s.frontier [
    | [] ↦ some s.impact
    | (node, w) ∷ rest ↦
        spread fuel g (relax_all w (record s { frontier = rest }) (out_edges g node))
  ]

  unfoldable pub forward_impact : Graph R → String → Option (List (String × R))
  unfolding spread
  forward_impact g root =
      spread (rounds (length g.arcs) 5) g (record { impact = []; frontier = (root, one) ∷ [] })

  unfoldable pub reach : R → ℕ → Wave R → Arc R → Wave R
  reach w eta s a =
      let nw = carried w a in
      if contains s.seen a.dst || f.lt nw cut then s else record {
        out = s.out ++ record { pod = a.dst; impact = f.round nw 3; eta_s = eta + a.lag_s } ∷ [];
        seen = a.dst ∷ s.seen;
        frontier = s.frontier ++ (a.dst, (nw, eta + a.lag_s)) ∷ [];
      }

  unfoldable pub reach_all : R → ℕ → Wave R → List (Arc R) → Wave R
  unfolding reach
  reach_all w eta s [] = s
  reach_all w eta s (a ∷ arcs) = reach_all w eta (reach w eta s a) arcs

  unfoldable pub blast : ℕ → Graph R → Wave R → Option (List (Victim R))
  unfolding reach_all
  blast zero g s = elim s.frontier [ [] ↦ some s.out | _ ∷ _ ↦ none ]
  blast (suc fuel) g s = elim s.frontier [
    | [] ↦ some s.out
    | (node, (w, eta)) ∷ rest ↦
        blast fuel g (reach_all w eta (record s { frontier = rest }) (out_edges g node))
  ]

  abbrev pub not_less_hit : Victim R → Victim R → Bool
  not_less_hit a b = not (f.lt (f.neg b.impact) (f.neg a.impact))

  unfoldable pub blast_radius : Graph R → String → Option (List (Victim R))
  unfolding blast sort
  blast_radius g root =
      if not (contains g.nodes root)
      then some []
      else elim (blast (length g.nodes) g
          (record { out = []; seen = root ∷ []; frontier = (root, (one, 0)) ∷ [] })) [
            | none ↦ none
            | some out ↦ some (sort not_less_hit out)
          ]

  -- `sum(v for s, v in imp.items() if s in seed_set)`
  unfoldable pub explained : List String → R → List (String × R) → R
  explained seeds acc [] = acc
  explained seeds acc ((n, v) ∷ impact) =
      explained seeds (if contains seeds n then f.add acc v else acc) impact

  unfoldable pub explain : Graph R → List String → String → Option R
  unfolding forward_impact explained
  explain g seeds n = elim (forward_impact g n) [
    | none ↦ none
    | some impact ↦
        let reached = explained seeds nought impact in
        let itself =
          if contains seeds n && not (has_upstream g n) then f.add reached one else reached in
        some (if has_upstream g n then f.mul itself upstream_penalty else itself)
  ]

  unfoldable pub scores : Graph R → List String → List String → Option (List (String × R))
  unfolding explain
  scores g seeds [] = some []
  scores g seeds (n ∷ nodes) = elim (scores g seeds nodes) [
    | none ↦ none
    | some rest ↦ elim (explain g seeds n) [
      | none ↦ none
      | some score ↦ some (if f.lt nought score then (n, score) ∷ rest else rest)
    ]
  ]

  -- The onset that the sort reads: `none` is `float("inf")`.
  abbrev pub sooner : Option R → Option R → Bool
  sooner (some a) (some b) = f.lt a b
  sooner (some a) none = true
  sooner none b = false

  -- The keys `(-score, onset)`, compared as tuples.
  abbrev pub ranks_above : List (String × R) → String × R → String × R → Bool
  ranks_above onset_s a b =
      f.lt (f.neg a.1) (f.neg b.1)
      || (f.le (f.neg a.1) (f.neg b.1)
          && f.le (f.neg b.1) (f.neg a.1)
          && sooner (lookup a.0 onset_s) (lookup b.0 onset_s))

  abbrev pub not_below : List (String × R) → String × R → String × R → Bool
  not_below onset_s a b = not (ranks_above onset_s b a)

  abbrev pub sum : R → List (String × R) → R
  sum acc [] = acc
  sum acc (x ∷ xs) = sum (f.add acc x.1) xs

  -- The seeds that are on the graph, or else every node.
  unfoldable pub seed_set : Graph R → List String → List String
  seed_set g seeds = elim (select (contains g.nodes) seeds) [ [] ↦ g.nodes | s ∷ rest ↦ s ∷ rest ]

  unfoldable pub rank_root_causes :
      Graph R → List String → List (String × R) → Option (List (Cause R))
  unfolding scores seed_set sort
  rank_root_causes g seeds onset_s = elim g.arcs [
    | [] ↦ some []
    | _ ∷ _ ↦ elim (scores g (seed_set g seeds) g.nodes) [
      | none ↦ none
      | some found ↦
          let total = sum nought found in
          some (
            map
              (λ e. record {
                pod = e.0;
                score = f.round (f.div e.1 total) 3;
                onset_s = lookup e.0 onset_s;
              })
              (take 3 (sort (not_below onset_s) found)))
    ]
  ]
