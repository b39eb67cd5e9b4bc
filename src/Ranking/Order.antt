-- ===== src/Ranking/Order.antt =====
-- What `rank_root_causes` reports.
use mathlib.Core.Option.{some-injective}
use abb_accelerator_submissi.Prelude.{
  ◌≤◌, ◌≡◌, refl, subst, inl, inr, true, some, List, [], ◌∷◌, map, String, arith, Bool-cases,
  Option-cases, List-cases, Float, nought, contains, All, All-take, All-imp, take, sort, sort-All,
  length, length-take-le, ==_refl, text_key, lookup,
}
use abb_accelerator_submissi.Ranking.{
  Graph, Cause, explain, scores, seed_set, sum, not_below, rank_root_causes,
}

map-All {ℓ κ μ} :
    {A : Type ℓ} {B : Type κ} (P : B → Type μ) (g : A → B) (xs : List A)
    → All (λ x. P (g x)) xs
    → All P (map g xs)
map-All P g [] h = tt
map-All P g (x ∷ xs) h = (h.0, map-All P g xs h.1)

length-map {ℓ κ} :
    {A : Type ℓ} {B : Type κ} (g : A → B) (xs : List A) → length (map g xs) ≡ length xs
length-map g [] = refl
length-map g (x ∷ xs) = omega (arith, length-map g xs)

All-known : (nodes : List String) → All (λ n. contains nodes n ≡ true) nodes
unfolding contains
All-known [] = tt
All-known (n ∷ nodes) = (
  ground (arith, ==_refl n),
  All-imp (λ m. contains nodes m ≡ true) (λ m. contains (n ∷ nodes) m ≡ true) (λ m h. ground arith)
      nodes (All-known nodes),
)

module _ {R : Type 0} ⦃f : Float R⦄ (g : Graph R) (seeds : List String) where
  -- A node of the graph that explains a part of the symptoms.
  pub record IsCandidate (pod : String) : Type 0 where
    pub node : contains g.nodes pod ≡ true
    pub score : R
    pub explained : explain g (seed_set g seeds) pod ≡ some score
    pub positive : f.lt nought score ≡ true

  scores-IsCandidate :
      (nodes : List String) (found : List (String × R))
      → All (λ n. contains g.nodes n ≡ true) nodes
      → scores g (seed_set g seeds) nodes ≡ some found
      → All (λ e. IsCandidate e.0) found
  unfolding scores
  scores-IsCandidate [] found h e = subst (All (λ x. IsCandidate x.0)) (some-injective _ _ e) tt
  scores-IsCandidate (n ∷ nodes) found h e =
      elim (Option-cases (scores g (seed_set g seeds) nodes)) [
        | inl stuck ↦ absurd (cc (rw (stuck, scores) at e))
        | inr (rest, more) ↦ elim (Option-cases (explain g (seed_set g seeds) n)) [
          | inl stuck ↦ absurd (cc (rw (more, stuck, scores) at e))
          | inr (score, known) ↦
              let tail = scores-IsCandidate nodes rest h.1 more in
              elim (Bool-cases (f.lt nought score)) [
                | inr zero_score ↦
                    subst (All (λ x. IsCandidate x.0))
                      (some-injective _ _ (rw (more, known, zero_score, scores) at e)) tail
                | inl up ↦
                    subst (All (λ x. IsCandidate x.0))
                      (some-injective _ _ (rw (more, known, up, scores) at e))
                      (record { node = h.0; score = score; explained = known; positive = up }, tail)
              ]
        ]
      ]

  -- A ranking has at most three causes, each a node of the graph whose explained share of the
  -- symptoms is positive.
  pub rank_root_causes-IsCandidate :
      (onset_s : List (String × R)) (causes : List (Cause R))
      → rank_root_causes g seeds onset_s ≡ some causes
      → (length causes ≤ 3) × All (λ c. IsCandidate c.pod) causes
  unfolding rank_root_causes
  rank_root_causes-IsCandidate onset_s causes e = elim (List-cases g.arcs) [
    | inl bare ↦
        subst (λ cs. (length cs ≤ 3) × All (λ c. IsCandidate c.pod) cs)
          (some-injective _ _ (rw (bare, rank_root_causes) at e)) (omega arith, tt)
    | inr (a, arcs, some_arc) ↦ elim (Option-cases (scores g (seed_set g seeds) g.nodes)) [
      | inl stuck ↦ absurd (cc (rw (some_arc, rank_root_causes, stuck) at e))
      | inr (found, ends) ↦
          let best = take 3 (sort (not_below onset_s) found) in
          let total = sum nought found in
          let cause : String × R → Cause R = λ x. record {
            pod = x.0;
            score = f.round (f.div x.1 total) 3;
            onset_s = lookup x.0 onset_s;
          } in
          let reported = some-injective _ _ (rw (some_arc, rank_root_causes, ends) at e) in
          subst (λ cs. (length cs ≤ 3) × All (λ c. IsCandidate c.pod) cs) reported
            (
              omega
                  (arith, length-map cause best, length-take-le 3 (sort (not_below onset_s) found)),
              map-All (λ c. IsCandidate c.pod) cause best
                  (All-take (λ x. IsCandidate x.0) 3 (sort (not_below onset_s) found)
                    (sort-All (not_below onset_s) (λ x. IsCandidate x.0) found
                      (scores-IsCandidate g.nodes found (All-known g.nodes) ends))),
            )
    ]
  ]
