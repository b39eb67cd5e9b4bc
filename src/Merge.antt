-- ===== src/Merge.antt =====
-- correlation/engine/merge.py: one served graph from the rendered graphs of the signals. A key of "meta"
-- that no signal brings is `none`.
pub mod Root
use abb_accelerator_submissi.Prelude.{
  ℕ, zero, suc, ◌+◌, Bool, true, false, ◌||◌, Option, none, some, List, [], ◌∷◌, ◌++◌, map, String,
  length, select, find?, if◌then◌else◌, Float, ◌==◌, text_key, text_le, contains, lookup, put, sort,
}
use abb_accelerator_submissi.Detectors.{nat_max}
use abb_accelerator_submissi.Ranking.{
  Graph, Cause, Victim, build_graph, rank_root_causes, blast_radius,
}
use abb_accelerator_submissi.Events.{Finding, keys}
use abb_accelerator_submissi.Cases.{Promoted, set_of}
use abb_accelerator_submissi.Render.{Served}
use abb_accelerator_submissi.Store.{Counts, Report}

-- `{**e, "signal": sig}`
pub record Tagged (A : Type 0) : Type 0 where
  pub item : A
  pub signal : String

pub record Meta (R : Type 0) : Type 0 where
  pub signals : List String
  pub counts : Option Counts
  pub held_edges : Option ℕ
  pub case : Option (Promoted R)
  pub signal : Option String
  pub pods : ℕ
  pub active : ℕ
  pub accepted_edges : ℕ

pub record Merged (R : Type 0) : Type 0 where
  pub findings : List (Tagged (Finding R))
  pub edges : List (Tagged (Served R))
  pub root_cause_ranking : List (Cause R)
  pub blast_radius : List (Victim R)
  pub meta : Meta R

-- An empty text is falsy.
abbrev pub truthy_text : Option String → Option String
truthy_text none = none
truthy_text (some s) = if s == "" then none else some s

-- `a or b`
abbrev pub or_text : Option String → Option String → Option String
or_text a b = elim (truthy_text a) [ none ↦ b | some s ↦ some s ]

abbrev pub add_counts : Counts → Counts → Counts
add_counts a b = record {
  edge_memory = a.edge_memory + b.edge_memory;
  visible_memory_edges = a.visible_memory_edges + b.visible_memory_edges;
  cases = a.cases + b.cases;
  families = a.families + b.families;
  open_mistakes = a.open_mistakes + b.open_mistakes;
}

abbrev pub is_empty : {A : Type 0} → List A → Bool
is_empty [] = true
is_empty (x ∷ xs) = false

module _ {R : Type 0} where
  unfoldable pub all_edges : List (String × Report R) → List (Tagged (Served R))
  all_edges [] = []
  all_edges ((sig, g) ∷ per_signal) =
      map (λ e. record { item = e; signal = sig }) g.rendered.edges ++ all_edges per_signal

  unfoldable pub all_findings : List (String × Report R) → List (Tagged (Finding R))
  all_findings [] = []
  all_findings ((sig, g) ∷ per_signal) =
      map (λ x. record { item = x; signal = sig }) g.rendered.findings ++ all_findings per_signal

  -- The sums over `_STAT_KEYS`
  unfoldable pub sum_counts : List (String × Report R) → Option Counts
  sum_counts [] = none
  sum_counts ((sig, g) ∷ per_signal) = elim (sum_counts per_signal) [
    | none ↦ some g.counts
    | some total ↦ some (add_counts g.counts total)
  ]

  unfoldable pub sum_held : List (String × Report R) → Option ℕ
  sum_held [] = none
  sum_held ((sig, g) ∷ per_signal) = elim (sum_held per_signal) [
    | none ↦ some g.rendered.held_edges
    | some total ↦ some (g.rendered.held_edges + total)
  ]

  unfoldable pub most_pods : List (String × Report R) → ℕ
  most_pods [] = 0
  most_pods ((sig, g) ∷ per_signal) = nat_max g.rendered.pods (most_pods per_signal)

  -- `{f["pod"]: f.get("onset_s") for f in findings}`: of two findings of a pod the later one.
  unfoldable pub onsets_by_pod : List (String × R) → List (Tagged (Finding R)) → List (String × R)
  unfolding put
  onsets_by_pod found [] = found
  onsets_by_pod found (x ∷ findings) = onsets_by_pod (put x.item.pod x.item.onset_s found) findings

  abbrev pub first_signal : String → List (Tagged (Served R)) → Option String
  first_signal root edges = elim (find? (λ e. e.item.edge.src == root) edges) [
    | none ↦ none
    | some e ↦ some e.signal
  ]

  -- The signal that owns the top root: that of the first edge out of it.
  unfoldable pub active_signal : List (Cause R) → List (Tagged (Served R)) → Option String
  active_signal [] edges = none
  active_signal (root ∷ causes) edges = first_signal root.pod edges

  -- The case of the signal that owns the root.
  unfoldable pub case_of : Option String → List (String × Report R) → Option (Promoted R)
  unfolding lookup
  case_of sig per_signal = elim (truthy_text sig) [
    | none ↦ none
    | some s ↦ elim (lookup s per_signal) [ none ↦ none | some g ↦ g.case ]
  ]

module _ {R : Type 0} ⦃f : Float R⦄ where
  abbrev pub merged_graph : List (Tagged (Served R)) → Graph R
  merged_graph edges = build_graph (map (λ e. e.item.edge) edges)

  -- The findings that are on the graph: without one there is no root.
  abbrev pub merged_seeds : List (Tagged (Served R)) → List (Tagged (Finding R)) → List String
  merged_seeds edges findings =
      select (contains (merged_graph edges).nodes) (map (λ x. x.item.pod) findings)

  -- The ranking over all edges, with the blast radius of its first cause.
  unfoldable pub merged_ranking :
      List (Tagged (Served R))
      → List (Tagged (Finding R))
      → Option (List (Cause R) × List (Victim R))
  unfolding build_graph rank_root_causes blast_radius contains onsets_by_pod
  merged_ranking edges findings =
      if is_empty edges || is_empty findings
      then some ([], [])
      else elim (merged_seeds edges findings) [
        | [] ↦ some ([], [])
        | s ∷ seeds ↦
            elim (rank_root_causes (merged_graph edges) (s ∷ seeds) (onsets_by_pod [] findings)) [
              | none ↦ none
              | some [] ↦ some ([], [])
              | some (c ∷ cs) ↦ elim (blast_radius (merged_graph edges) c.pod) [
                | none ↦ none
                | some blast ↦ some (c ∷ cs, blast)
              ]
            ]
      ]

  unfoldable pub merge_graphs : List (String × Report R) → Option String → Option (Merged R)
  unfolding all_edges all_findings sum_counts sum_held most_pods active_signal case_of
      merged_ranking set_of sort
  merge_graphs per_signal primary =
      let edges = all_edges per_signal in
      let findings = all_findings per_signal in
      elim (merged_ranking edges findings) [
        | none ↦ none
        | some (ranking, blast) ↦
            let active_sig = active_signal ranking edges in
            let signals = sort text_le (keys per_signal) in
            let idle : Option String = elim signals [ [] ↦ none | s ∷ _ ↦ some s ] in
            some (record {
              findings = findings;
              edges = edges;
              root_cause_ranking = ranking;
              blast_radius = blast;
              meta = record {
                signals = signals;
                counts = sum_counts per_signal;
                held_edges = sum_held per_signal;
                case = case_of active_sig per_signal;
                signal = or_text active_sig (or_text primary idle);
                pods = most_pods per_signal;
                active = length (set_of (map (λ x. x.item.pod) findings));
                accepted_edges = length edges;
              };
            })
      ]
