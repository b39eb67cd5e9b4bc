-- ===== src/Cases/Incident.antt =====
-- correlation/engine/state.py, what `_promote_case` reads from a verdict: the physical witness, the lead time, the
-- source evidence of the root and the victims.
use abb_accelerator_submissi.Prelude.{
  ℕ, ◌+◌, Bool, not, ◌&&◌, ◌||◌, Option, none, some, List, [], ◌∷◌, map, String, length, any,
  select, ltb, if◌then◌else◌, Float, nought, ◌==◌, text_key, number_key, text_le, contains, lookup,
  put, sort,
}
use abb_accelerator_submissi.Workload.{stable_workload}
use abb_accelerator_submissi.Gate.{Edge, Evidence, evidence_key}
use abb_accelerator_submissi.Ranking.{Victim}
use abb_accelerator_submissi.Cases.Sets.{set_of}

-- Evidence that is no physical witness.
abbrev pub is_derived : Evidence → Bool
is_derived k = k == Evidence.stat || (k == Evidence.temporal || k == Evidence.write)

unfoldable pub count_kinds : List (Evidence × ℕ) → List Evidence → List (Evidence × ℕ)
unfolding lookup put
count_kinds counts [] = counts
count_kinds counts (k ∷ evidence) =
    let seen : ℕ = elim (lookup k counts) [ none ↦ 0 | some n ↦ n ] in
    count_kinds (if is_derived k then counts else put k (seen + 1) counts) evidence

-- The names of the tags in their alphabetical order.
abbrev pub place : Evidence → ℕ
place Evidence.ebpf = 0
place Evidence.node = 1
place Evidence.psi = 2
place Evidence.pvc = 3
place Evidence.stat = 4
place Evidence.temporal = 5
place Evidence.write = 6

-- The keys `(-count, name)`.
abbrev pub more_common : Evidence × ℕ → Evidence × ℕ → Bool
more_common a b = ltb b.1 a.1 || (a.1 == b.1 && not (ltb (place b.0) (place a.0)))

module _ {R : Type 0} ⦃f : Float R⦄ where
  unfoldable pub dominant_witness : List (Edge R) → Option Evidence
  unfolding count_kinds sort
  dominant_witness edges = elim (sort more_common (counted [] edges)) [
    | [] ↦ none
    | e ∷ _ ↦ some e.0
  ]
    where
      counted : List (Evidence × ℕ) → List (Edge R) → List (Evidence × ℕ)
      counted counts [] = counts
      counted counts (e ∷ es) = counted (count_kinds counts e.evidence) es

  unfoldable pub mean : List R → Option R
  mean [] = none
  mean (x ∷ xs) = some (f.div (total nought (x ∷ xs)) (f.of_nat (length (x ∷ xs))))
    where
      total : R → List R → R
      total acc [] = acc
      total acc (y ∷ ys) = total (f.add acc y) ys

  unfoldable pub lead_time : List (Victim R) → List (Edge R) → Option R
  unfolding mean
  lead_time [] edges = mean (map (λ e. f.of_nat e.lag_s) (select (λ e. ltb 0 e.lag_s) edges))
  lead_time (v ∷ victims) edges = mean (map (λ x. f.of_nat x.eta_s) (v ∷ victims))

  -- The root owns an outgoing edge with source evidence.
  unfoldable pub source_rooted : String → List (Edge R) → Bool
  unfolding contains
  source_rooted root =
      any (λ e. stable_workload e.src == root && contains e.evidence Evidence.write)

  -- The victims of the blast radius, or else the targets of the edges; never the root.
  unfoldable pub victims_of : String → List (Victim R) → List (Edge R) → List String
  unfolding set_of sort
  victims_of root blast edges =
      let others = λ (ws : List String). sort text_le (set_of (select (λ w. not (w == root)) ws)) in
      elim (others (map (λ b. stable_workload b.pod) (select (λ b. not (b.pod == "")) blast))) [
        | [] ↦ others (map (λ e. stable_workload e.dst) edges)
        | v ∷ vs ↦ v ∷ vs
      ]
