-- ===== src/Ranking/Impact.antt =====
-- `_forward_impact` ends: an arc of weight at most 1 takes at least the factor `decay`, and six such
-- factors are below `cut`, so no walk goes on after five arcs.
use native.Mathlib.Nat.{mul-le-mul, le_refl}
use abb_accelerator_submissi.Prelude.{
  ℕ, zero, suc, ◌+◌, ◌*◌, ◌≤◌, ◌≡◌, refl, inl, inr, Bool, true, some, List, [], ◌∷◌, ◌++◌, String,
  arith, Bool-cases, List-cases, Option-cases, Float, ◌≼◌, nought, one, ◌==◌, text_key, All,
  All-select, select, length, ◌||◌, subst, IsRounded, lt_of_le_lt,
}
use abb_accelerator_submissi.Ranking.{
  Arc, Graph, Spread, Cause, out_edges, carried, cut, decay, relax, relax_all, spread, rounds,
  forward_impact, explain, scores, seed_set, rank_root_causes, impact_of,
}

length-select-le {ℓ} : {A : Type ℓ} (p : A → Bool) (xs : List A) → length (select p xs) ≤ length xs
length-select-le p [] = omega arith
length-select-le p (x ∷ xs) = ground (arith, length-select-le p xs)

-- The two facts about the constants: `decay` is not negative, and decay⁶ < `cut`.
pub record IsDamped (R : Type 0) ⦃f : Float R⦄ : Type 0 where
  pub decay_nonneg : ◌≼◌ {R = R} nought decay
  pub power_cut :
      f.lt
        (f.mul (f.mul (f.mul (f.mul (f.mul (f.mul one decay) decay) decay) decay) decay) decay)
        cut
      ≡ true

abbrev below : ℕ → ℕ → ℕ
below d zero = 0
below d (suc i) = rounds d i

rounds-below : (d j : ℕ) → rounds d j ≡ 1 + d * below d j
rounds-below d zero = omega arith
rounds-below d (suc i) = refl

module _ {R : Type 0} ⦃f : Float R⦄ where
  -- decayᵏ, as the walk computes it
  abbrev pub power : ℕ → R
  power zero = one
  power (suc k) = f.mul (power k) decay

  abbrev pub IsLight : Arc R → Type 0
  IsLight a = (nought ≼ a.weight) × (a.weight ≼ one)

  -- The rounds that a frontier may still take: an item that has gone k arcs may go j = 5 - k more.
  data Fits (d : ℕ) : List (String × R) → ℕ → Type 0 where
    nil : Fits d [] 0
    cons :
        {n : String} {w : R} {q : List (String × R)} {m : ℕ} (j k l : ℕ)
        → j + k ≡ 5
        → nought ≼ w
        → w ≼ power k
        → Fits d q l
        → m ≡ rounds d j + l
        → Fits d ((n, w) ∷ q) m

  record Item (d : ℕ) (w : R) (q : List (String × R)) (m : ℕ) : Type 0 where
    j : ℕ
    k : ℕ
    l : ℕ
    level : j + k ≡ 5
    nonneg : nought ≼ w
    bound : w ≼ power k
    rest : Fits d q l
    total : m ≡ rounds d j + l

  Fits-head :
      {d : ℕ} {n : String} {w : R} {q : List (String × R)} {m : ℕ}
      → Fits d ((n, w) ∷ q) m
      → Item d w q m
  Fits-head (cons j k l e h b rest eq) = record {
    j = j;
    k = k;
    l = l;
    level = e;
    nonneg = h;
    bound = b;
    rest = rest;
    total = eq;
  }

  Fits-append :
      {d : ℕ} {q : List (String × R)} {m : ℕ} (n : String) (w : R) (j k : ℕ)
      → j + k ≡ 5
      → nought ≼ w
      → w ≼ power k
      → Fits d q m
      → Fits d (q ++ (n, w) ∷ []) (m + rounds d j)
  Fits-append n w j k e h b nil = cons j k 0 e h b nil (omega arith)
  Fits-append {d} n w j k e h b (cons i l o e' h' b' rest eq) =
      cons i l (o + rounds d j) e' h' b' (Fits-append n w j k e h b rest) (omega arith)

  module _ (laws : IsRounded R) (damped : IsDamped R) (d : ℕ) where
    open laws use {ordered, mul_mono, mul_nonneg, mul-le_left}
    open damped use {decay_nonneg, power_cut}

    carried-le :
        (w : R) (k : ℕ) (a : Arc R)
        → nought ≼ w
        → w ≼ power k
        → IsLight a
        → (nought ≼ carried w a) × (carried w a ≼ power (suc k))
    carried-le w k a h b light = (
      mul_nonneg _ decay (mul_nonneg w a.weight h light.0) decay_nonneg,
      mul_mono _ (power k) decay
          (ordered.le_trans _ w (power k) (mul-le_left w a.weight h light.1) b) decay_nonneg,
    )

    -- Relaxing an arc from an item of j arcs to go adds at most one item, of j - 1 arcs to go.
    relax-Fits :
        (w : R) (j k m : ℕ) (s : Spread R) (a : Arc R)
        → j + k ≡ 5
        → nought ≼ w
        → w ≼ power k
        → IsLight a
        → Fits d s.frontier m
        → (m' : ℕ) × Fits d (relax w s a).frontier m' × (m' ≤ m + below d j)
    unfolding relax
    relax-Fits w zero k m s a e h b light fits =
        let (_, small) = carried-le w k a h b light in
        let five : k ≡ 5 = omega arith in
        let dead : f.lt (carried w a) cut ≡ true =
          lt_of_le_lt ordered (carried w a) _ cut
            (subst (λ n. carried w a ≼ power (suc n)) five small) power_cut in
        (m, rw dead fits, omega arith)
    relax-Fits w (suc i) k m s a e h b light fits =
        elim (Bool-cases
          (f.lt (carried w a) cut || f.le (carried w a) (impact_of s.impact a.dst))) [
            | inl skip ↦ (m, rw skip fits, omega arith)
            | inr go ↦
                let (pos, small) = carried-le w k a h b light in
                (
                  m + rounds d i,
                  rw go (Fits-append a.dst (carried w a) i (suc k) (omega arith) pos small fits),
                  omega arith,
                )
          ]

    relax_all-Fits :
        (w : R) (j k m : ℕ) (s : Spread R) (arcs : List (Arc R))
        → j + k ≡ 5
        → nought ≼ w
        → w ≼ power k
        → All IsLight arcs
        → Fits d s.frontier m
        → (m' : ℕ) × Fits d (relax_all w s arcs).frontier m' × (m' ≤ m + length arcs * below d j)
    unfolding relax_all
    relax_all-Fits w j k m s [] e h b light fits = (m, fits, omega arith)
    relax_all-Fits w j k m s (a ∷ arcs) e h b light fits =
        let (m1, fits1, le1) = relax-Fits w j k m s a e h b light.0 fits in
        let (m2, fits2, le2) = relax_all-Fits w j k m1 (relax w s a) arcs e h b light.1 fits1 in
        (m2, fits2, omega arith)

    spread_ends :
        (fuel m : ℕ) (g : Graph R) (s : Spread R)
        → length g.arcs ≡ d
        → All IsLight g.arcs
        → Fits d s.frontier m
        → m ≤ fuel
        → (impact : List (String × R)) × (spread fuel g s ≡ some impact)
    unfolding spread
    spread_ends zero m g s size light fits le = elim (List-cases s.frontier) [
      | inl e ↦ (s.impact, rw (e, spread))
      | inr ((n, w), q, e) ↦
          let item = Fits-head (subst (λ x. Fits d x m) e fits) in
          absurd (omega (arith, item.total, rounds-below d item.j))
    ]
    spread_ends (suc fuel) m g s size light fits le = elim (List-cases s.frontier) [
      | inl e ↦ (s.impact, rw (e, spread))
      | inr ((n, w), q, e) ↦
          let item = Fits-head (subst (λ x. Fits d x m) e fits) in
          let arcs = out_edges g n in
          let (m', fits', le') =
            relax_all-Fits w item.j item.k item.l (record s { frontier = q }) arcs item.level
              item.nonneg item.bound (All-select IsLight (λ a. a.src == n) g.arcs light)
              item.rest in
          let few : length arcs ≤ d =
            omega (arith, length-select-le (λ (a : Arc R). a.src == n) g.arcs) in
          let (impact, ends) =
            spread_ends fuel m' g (relax_all w (record s { frontier = q }) arcs) size light fits' (
              omega (
                arith,
                item.total,
                rounds-below d item.j,
                mul-le-mul few (le_refl (below d item.j)),
              )) in
          (impact, rw (e, spread) ends)
    ]

  -- `_forward_impact` ends on every graph whose weights are between 0 and 1, for floats with the laws
  -- of rounded arithmetic at which the sixth power of `DECAY` is below `CUT`.
  pub forward_impact_total :
      (laws : IsRounded R) (damped : IsDamped R) (g : Graph R) (root : String)
      → All IsLight g.arcs
      → (impact : List (String × R)) × (forward_impact g root ≡ some impact)
  unfolding forward_impact
  forward_impact_total laws damped g root light =
      let d = length g.arcs in
      spread_ends laws damped d (rounds d 5) (rounds d 5) g
        (record { impact = []; frontier = (root, one) ∷ [] }) refl light
        (cons 5 0 0 refl laws.nought-le-one (laws.ordered.le_refl one) nil (omega arith))
        (omega arith)

  module _ (laws : IsRounded R) (damped : IsDamped R) (g : Graph R)
      (light : All IsLight g.arcs) where
    explain_total : (seeds : List String) (n : String) → (s : R) × (explain g seeds n ≡ some s)
    unfolding explain
    explain_total seeds n =
        let (impact, e) = forward_impact_total laws damped g n light in
        elim (Option-cases (explain g seeds n)) [
          | inl stuck ↦ absurd (cc (rw (e, explain) at stuck))
          | inr found ↦ found
        ]

    scores_total :
        (seeds nodes : List String)
        → (found : List (String × R)) × (scores g seeds nodes ≡ some found)
    unfolding scores
    scores_total seeds [] = ([], refl)
    scores_total seeds (n ∷ nodes) =
        let (rest, e) = scores_total seeds nodes in
        let (s, e') = explain_total seeds n in
        elim (Option-cases (scores g seeds (n ∷ nodes))) [
          | inl stuck ↦ absurd (cc (rw (e, e') at stuck))
          | inr found ↦ found
        ]

    -- The ranking ends on every graph whose weights are between 0 and 1, for any seeds and onsets. The
    -- floats have the laws of rounded arithmetic, and the sixth power of `DECAY` is below `CUT`.
    pub rank_root_causes_total :
        (seeds : List String) (onset_s : List (String × R))
        → (causes : List (Cause R)) × (rank_root_causes g seeds onset_s ≡ some causes)
    unfolding rank_root_causes
    rank_root_causes_total seeds onset_s =
        let (found, e) = scores_total (seed_set g seeds) g.nodes in
        elim (Option-cases (rank_root_causes g seeds onset_s)) [
          | inl stuck ↦ ground arith
          | inr causes ↦ causes
        ]
