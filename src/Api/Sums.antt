-- ===== src/Api/Sums.antt =====
-- The sums of Prometheus series: what stands under a key.
use abb_accelerator_submissi.Prelude.{
  ◌≡◌, sym, ap, subst, ◌∙◌, ==_refl, Bool, true, false, refl, inl, inr, Option, none, some, List,
  [], ◌∷◌, String, Bool-cases, Option-cases, Float, nought, ◌==◌, if◌then◌else◌, lookup, lookup-put,
}
use abb_accelerator_submissi.Cases.{link_key}
use abb_accelerator_submissi.Api.Metrics.{Series, Sums, reading, add_to, sum_series, prom_sums}

module _ {R : Type 0} where
  -- The numbers of the series that count and go by a key, in their order.
  unfoldable pub values_at : (String → String) → String × String → List (Series R) → List R
  values_at name k [] = []
  values_at name k (s ∷ result) =
      let rest = values_at name k result in
      elim (reading name s) [ none ↦ rest | some (q, v) ↦ if q == k then v ∷ rest else rest ]

module _ {R : Type 0} ⦃f : Float R⦄ where
  -- The sum from the left, if there is a number.
  abbrev pub summed : Option R → List R → Option R
  summed acc [] = acc
  summed acc (v ∷ vs) = summed (some (f.add (elim acc [ none ↦ nought | some w ↦ w ]) v)) vs

  lookup-add_to :
      (k q : String × String) (v : R) (out : Sums R)
      → lookup k (add_to out q v)
        ≡ (if q == k then summed (lookup k out) (v ∷ []) else lookup k out)
  unfolding add_to
  lookup-add_to k q v out = elim (Bool-cases (q == k)) [
    | inl same ↦
        subst
          (λ x.
            lookup k (add_to out x v)
            ≡ (if x == k then summed (lookup k out) (v ∷ []) else lookup k out))
          (sym ((link_key.same_iff q k).0 same)) (lookup-put k k _ out ∙ rw (==_refl k) refl)
    | inr other ↦ lookup-put q k _ out ∙ rw other refl
  ]

  sum_series-out :
      (name : String → String) (out : Sums R) (s : Series R) (result : List (Series R))
      → reading name s ≡ none
      → sum_series name out (s ∷ result) ≡ sum_series name out result
  unfolding sum_series
  sum_series-out name out s result e = rw (e, sum_series) refl

  sum_series-in :
      (name : String → String) (out : Sums R) (s : Series R) (result : List (Series R))
      (q : String × String) (v : R)
      → reading name s ≡ some (q, v)
      → sum_series name out (s ∷ result) ≡ sum_series name (add_to out q v) result
  unfolding sum_series
  sum_series-in name out s result q v e = rw (e, sum_series) refl

  values_at-out :
      (name : String → String) (k : String × String) (s : Series R) (result : List (Series R))
      → reading name s ≡ none
      → values_at name k (s ∷ result) ≡ values_at name k result
  unfolding values_at
  values_at-out name k s result e = rw (e, values_at) refl

  values_at-in :
      (name : String → String) (k : String × String) (s : Series R) (result : List (Series R))
      (q : String × String) (v : R)
      → reading name s ≡ some (q, v)
      → values_at name k (s ∷ result)
        ≡ (if q == k then v ∷ values_at name k result else values_at name k result)
  unfolding values_at
  values_at-in name k s result q v e = rw (e, values_at) refl

  summed-if :
      (same : Bool) (acc : Option R) (v : R) (vs : List R)
      → summed (if same then summed acc (v ∷ []) else acc) vs
        ≡ summed acc (if same then v ∷ vs else vs)
  summed-if true acc v vs = refl
  summed-if false acc v vs = refl

  lookup-sum_series :
      (name : String → String) (k : String × String) (out : Sums R) (result : List (Series R))
      → lookup k (sum_series name out result) ≡ summed (lookup k out) (values_at name k result)
  unfolding sum_series values_at
  lookup-sum_series name k out [] = refl
  lookup-sum_series name k out (s ∷ result) = elim (Option-cases (reading name s)) [
    | inl e ↦
        ap (lookup k) (sum_series-out name out s result e)
        ∙ lookup-sum_series name k out result
        ∙ ap (summed (lookup k out)) (sym (values_at-out name k s result e))
    | inr ((q, v), e) ↦
        ap (lookup k) (sum_series-in name out s result q v e)
        ∙ lookup-sum_series name k (add_to out q v) result
        ∙ ap (λ o. summed o (values_at name k result)) (lookup-add_to k q v out)
        ∙ summed-if (q == k) (lookup k out) v (values_at name k result)
        ∙ ap (summed (lookup k out)) (sym (values_at-in name k s result q v e))
  ]

  -- A dictionary of Prometheus has, under a key, the sum from the left of the numbers of the series that go by it, and
  -- no entry where there is none; a series without a namespace, a pod or a number does not count. Without an answer the
  -- dictionary is empty.
  pub lookup-prom_sums :
      (name : String → String) (k : String × String) (answer : Option (List (Series R)))
      → lookup k (prom_sums name answer)
        ≡ summed none (elim answer [ none ↦ [] | some result ↦ values_at name k result ])
  unfolding prom_sums
  lookup-prom_sums name k none = refl
  lookup-prom_sums name k (some result) = lookup-sum_series name k [] result
