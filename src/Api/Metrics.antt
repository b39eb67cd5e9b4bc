-- ===== src/Api/Metrics.antt =====
-- api/main.py, the numbers of Prometheus: `_prom_map`, `_prom_pod_map`, `_gini` and `_fairness`. The answer
-- to a query is an argument, `none` where the fetch raises; the texts of the queries are left out.
use abb_accelerator_submissi.Prelude.{
  ℕ, suc, ◌+◌, Bool, not, ◌&&◌, ◌||◌, Option, none, some, List, [], ◌∷◌, ◌++◌, map, String, length,
  select, if◌then◌else◌, Float, nought, ◌==◌, text_key, text_le, number_key, lookup, put, sort,
}
use abb_accelerator_submissi.Workload.{stable_workload}
use abb_accelerator_submissi.Cases.{link_key}
use abb_accelerator_submissi.Merge.{truthy_text}

-- One series of an answer. A value that is no number is `none`, and one that is missing is 0.
pub record Series (R : Type 0) : Type 0 where
  pub namespace : Option String
  pub pod : Option String
  pub value : Option R

abbrev pub Sums : Type 0 → Type 0
Sums R = List ((String × String) × R)

-- The key and the number of a series that counts: `name` is the name that a pod goes by.
unfoldable pub reading :
    {R : Type 0} → (String → String) → Series R → Option ((String × String) × R)
reading name s = elim (truthy_text s.namespace) [
  | none ↦ none
  | some ns ↦ elim (truthy_text s.pod) [
    | none ↦ none
    | some pod ↦ elim s.value [ none ↦ none | some v ↦ some ((ns, name pod), v) ]
  ]
]

pub record Fairness (R : Type 0) : Type 0 where
  pub namespace : String
  pub gini : R
  pub workloads : ℕ

module _ {R : Type 0} ⦃f : Float R⦄ where
  -- `out[k] = out.get(k, 0.0) + v`
  unfoldable pub add_to : Sums R → String × String → R → Sums R
  unfolding lookup put
  add_to out k v = put k (f.add (elim (lookup k out) [ none ↦ nought | some w ↦ w ]) v) out

  unfoldable pub sum_series : (String → String) → Sums R → List (Series R) → Sums R
  unfolding reading add_to
  sum_series name out [] = out
  sum_series name out (s ∷ result) = elim (reading name s) [
    | none ↦ sum_series name out result
    | some (k, v) ↦ sum_series name (add_to out k v) result
  ]

  unfoldable pub prom_sums : (String → String) → Option (List (Series R)) → Sums R
  unfolding sum_series
  prom_sums name none = []
  prom_sums name (some result) = sum_series name [] result

  -- `_prom_map`
  abbrev pub prom_map : Option (List (Series R)) → Sums R
  prom_map = prom_sums stable_workload

  -- `_prom_pod_map`
  abbrev pub prom_pod_map : Option (List (Series R)) → Sums R
  prom_pod_map = prom_sums (λ pod. pod)

  -- A number that is there and not 0.
  abbrev pub nonzero : Option R → Option R
  nonzero none = none
  nonzero (some x) = if f.le x nought && f.le nought x then none else some x

  -- `_gini`
  abbrev pub ascending : R → R → Bool
  ascending a b = not (f.lt b a)

  unfoldable pub weighted : ℕ → List R → R → R
  weighted i [] acc = acc
  weighted i (v ∷ xs) acc = weighted (suc i) xs (f.add acc (f.mul (f.of_nat (i + 1)) v))

  unfoldable pub total : List R → R → R
  total [] acc = acc
  total (v ∷ xs) acc = total xs (f.add acc v)

  unfoldable pub gini : List R → R
  unfolding weighted total sort
  gini values =
      let xs = sort ascending (select (f.le nought) values) in
      let n = length xs in
      let s = total xs nought in
      if n == 0 || (f.le s nought && f.le nought s)
      then nought
      else f.round
          (f.sub (f.div (f.mul (f.of_nat 2) (weighted 0 xs nought)) (f.mul (f.of_nat n) s))
            (f.div (f.of_nat (n + 1)) (f.of_nat n)))
          3

  -- `by_ns.setdefault(ns, []).append(v)`
  unfoldable pub by_namespace : List (String × List R) → Sums R → List (String × List R)
  unfolding lookup put
  by_namespace by_ns [] = by_ns
  by_namespace by_ns (((ns, wl), v) ∷ stall) =
      by_namespace
        (put ns (elim (lookup ns by_ns) [ none ↦ v ∷ [] | some vs ↦ vs ++ v ∷ [] ]) by_ns) stall

  abbrev pub by_name : String × List R → String × List R → Bool
  by_name a b = text_le a.0 b.0

  unfoldable pub fairness : Sums R → List (Fairness R)
  unfolding by_namespace gini sort
  fairness stall_by_key =
      map (λ x. record { namespace = x.0; gini = gini x.1; workloads = length x.1 })
        (sort by_name (by_namespace [] stall_by_key))
