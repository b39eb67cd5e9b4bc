-- ===== src/Render.antt =====
-- correlation/engine/state.py, `_render`: the edges that are served, live ones and held ones, with the
-- ranking over both.
pub mod Held
pub mod Total
use abb_accelerator_submissi.Prelude.{
  ℕ, Bool, not, ◌&&◌, ◌||◌, Option, none, some, List, [], ◌∷◌, ◌++◌, map, String, length, any,
  if◌then◌else◌, Float, nought, ◌==◌, text_key, lookup, put,
}
use abb_accelerator_submissi.Workload.{stable_workload}
use abb_accelerator_submissi.Gate.{Edge, same_set}
use abb_accelerator_submissi.Ranking.{Cause, Victim, build_graph, rank_root_causes, blast_radius}
use abb_accelerator_submissi.Events.{Finding}
use abb_accelerator_submissi.Pipeline.{Verdict}
use abb_accelerator_submissi.Memory.{MemoryConfig, Row, EdgeState, find_row}

-- What the memory adds to an edge. A held edge has the last two fields, a live one does not.
pub record Memo (R : Type 0) : Type 0 where
  pub confidence : R
  pub state : EdgeState
  pub hits : ℕ
  pub base_conf : Option R
  pub last_seen_s : Option R

-- The field "source" of a served edge: "live" or "memory". An edge of the pass without a row has neither
-- this field nor a memo.
pub data Source : Type 0 where
  live memory : Source

pub record Served (R : Type 0) : Type 0 where
  pub edge : Edge R
  pub source : Option Source
  pub memo : Option (Memo R)

pub record Rendered (R : Type 0) : Type 0 where
  pub findings : List (Finding R)
  pub edges : List (Served R)
  pub root_cause_ranking : List (Cause R)
  pub blast_radius : List (Victim R)
  pub held_edges : ℕ
  pub pods : ℕ
  pub active : ℕ
  pub accepted_edges : ℕ

-- `{stable_workload(p): p for p in vectors}`: of two pods of a workload the later one.
unfoldable pub pods_by_workload : List (String × String) → List String → List (String × String)
unfolding put
pods_by_workload found [] = found
pods_by_workload found (p ∷ pods) = pods_by_workload (put (stable_workload p) p found) pods

module _ {R : Type 0} where
  abbrev pub joins_workloads : Row R → String × String → Bool
  joins_workloads row pair = same_set row.src row.dst pair

  -- One row for each unordered pair, the stronger one; the first of two equal ones.
  unfoldable pub keep_stronger : ⦃f : Float R⦄ → Row R → List (Row R) → List (Row R)
  keep_stronger row [] = row ∷ []
  keep_stronger ⦃f⦄ row (k ∷ kept) =
      if joins_workloads row (k.src, k.dst)
      then (if f.lt k.confidence row.confidence then row else k) ∷ kept
      else k ∷ keep_stronger row kept

module _ {R : Type 0} ⦃f : Float R⦄ (cfg : MemoryConfig R) where
  abbrev pub live_pair : Edge R → String × String
  live_pair e = (stable_workload e.src, stable_workload e.dst)

  unfoldable pub live_edge : List (Row R) → Edge R → Served R
  unfolding find_row
  live_edge rows e =
      elim (find_row (stable_workload e.src, stable_workload e.dst, cfg.signal) rows) [
        | none ↦ record { edge = e; source = none; memo = none }
        | some row ↦ record {
          edge = e;
          source = some Source.live;
          memo = some (record {
            confidence = f.round row.confidence 3;
            state = row.state;
            hits = row.hits;
            base_conf = none;
            last_seen_s = none;
          });
        }
      ]

  -- `signal=? AND (visible=1 OR base_conf>0)`, and the pair is not shown live
  abbrev pub is_held : List (String × String) → Row R → Bool
  is_held live_pairs row =
      row.signal == cfg.signal
      && ((row.visible || f.lt nought row.base_conf) && not (any (joins_workloads row) live_pairs))

  unfoldable pub held_rows : List (String × String) → List (Row R) → List (Row R) → List (Row R)
  unfolding keep_stronger
  held_rows live_pairs kept [] = kept
  held_rows live_pairs kept (row ∷ rows) =
      held_rows live_pairs (if is_held live_pairs row then keep_stronger row kept else kept) rows

  unfoldable pub held_edge : R → List (String × String) → Row R → Option (Served R)
  unfolding lookup
  held_edge now pods row = elim (lookup row.src pods) [
    | none ↦ none
    | some src ↦ elim (lookup row.dst pods) [
      | none ↦ none
      | some dst ↦ some (record {
        edge = record {
          src = src;
          dst = dst;
          r = f.round row.r 3;
          lag_s = row.lag_s;
          evidence = row.evidence;
        };
        source = some Source.memory;
        memo = some (record {
          confidence = f.round row.confidence 3;
          state = row.state;
          hits = row.hits;
          base_conf = some (f.round row.base_conf 3);
          last_seen_s = some (f.round (f.sub now row.last_seen_ts) 1);
        });
      })
    ]
  ]

  unfoldable pub held_edges : R → List (String × String) → List (Row R) → List (Served R)
  unfolding held_edge
  held_edges now pods [] = []
  held_edges now pods (row ∷ rows) =
      let rest = held_edges now pods rows in
      elim (held_edge now pods row) [ none ↦ rest | some e ↦ e ∷ rest ]

  -- All that is served: the live edges, and the held ones of pairs that are not live.
  unfoldable pub served_edges :
      R → Verdict R → List String → List (Row R) → List (Served R) × List (Served R)
  unfolding live_edge held_rows held_edges pods_by_workload
  served_edges now graph pods rows =
      let live_pairs = map live_pair graph.edges in
      (
        map (live_edge rows) graph.edges,
        held_edges now (pods_by_workload [] pods) (held_rows live_pairs [] rows),
      )

  -- The ranking is made again over all edges if there is a finding and an edge.
  unfoldable pub render : R → Verdict R → List String → List (Row R) → Option (Rendered R)
  unfolding served_edges build_graph rank_root_causes blast_radius
  render now graph pods rows =
      let (shown, held) = served_edges now graph pods rows in
      let edges = shown ++ held in
      let g = build_graph (map (λ e. e.edge) edges) in
      let seeds = map (λ x. x.pod) graph.findings in
      let onset_s = map (λ x. (x.pod, x.onset_s)) graph.findings in
      let out : List (Cause R) → List (Victim R) → Rendered R = λ ranking blast. record {
        findings = graph.findings;
        edges = edges;
        root_cause_ranking = ranking;
        blast_radius = blast;
        held_edges = length held;
        pods = graph.pods;
        active = graph.active;
        accepted_edges = graph.accepted_edges;
      } in
      elim graph.findings [
        | [] ↦ some (out graph.root_cause_ranking graph.blast_radius)
        | _ ∷ _ ↦ elim edges [
          | [] ↦ some (out graph.root_cause_ranking graph.blast_radius)
          | _ ∷ _ ↦ elim (rank_root_causes g seeds onset_s) [
            | none ↦ none
            | some [] ↦ some (out [] [])
            | some (c ∷ cs) ↦ elim (blast_radius g c.pod) [
              | none ↦ none
              | some blast ↦ some (out (c ∷ cs) blast)
            ]
          ]
        ]
      ]
