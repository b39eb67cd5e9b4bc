-- ===== src/Soak/Rollup.antt =====
-- soak/record.py, `cmd_report`: the summary of one scenario over the records of a run.
use abb_accelerator_submissi.Prelude.{
  ℕ, zero, suc, ◌-◌, ◌/◌, Bool, Option, none, some, List, [], ◌∷◌, map, String, length, select,
  get_elem?, leb, ltb, if◌then◌else◌, Float, nought, ◌==◌, text_key, number_key, text_le, lookup,
  put, sort, best_from, is_some,
}
use abb_accelerator_submissi.Cases.{set_of}
use abb_accelerator_submissi.Soak.{Sample, is_match, is_text}

-- `counts[root] = counts.get(root, 0) + 1`
unfoldable pub bump : String → List (String × ℕ) → List (String × ℕ)
unfolding lookup put
bump root counts = put root (elim (lookup root counts) [ none ↦ 1 | some n ↦ suc n ]) counts

unfoldable pub count_roots : List (String × ℕ) → List String → List (String × ℕ)
unfolding bump
count_roots counts [] = counts
count_roots counts (root ∷ roots) = count_roots (bump root counts) roots

-- `max(counts.items(), key=lambda kv: kv[1])`: the first of the greatest.
abbrev pub not_more : String × ℕ → String × ℕ → Bool
not_more x m = leb x.1 m.1

-- The dominant root of the records that name one; without any a dash and 0.
unfoldable pub dominant : List String → String × ℕ
unfolding count_roots best_from
dominant roots = elim (count_roots [] roots) [
  | [] ↦ ("—", 0)
  | c ∷ counts ↦ best_from not_more c counts
]

abbrev pub least_of : ℕ → List ℕ → ℕ
least_of m [] = m
least_of m (x ∷ xs) = least_of (if ltb x m then x else m) xs

abbrev pub least? : List ℕ → Option ℕ
least? [] = none
least? (x ∷ xs) = some (least_of x xs)

-- `ttds.sort(); ttds[len(ttds) // 2]`
unfoldable pub median_of : List ℕ → Option ℕ
unfolding sort
median_of ttds = get_elem? (sort leb ttds) (length ttds / 2)

pub record Rollup (R : Type 0) : Type 0 where
  pub cycles : ℕ
  pub samples : ℕ
  pub detect_rate : R
  pub correct_rate : R
  pub dominant_root : String
  pub dominant_n : ℕ
  pub oom_cycle_rate : R
  pub min_oom_eta_s : Option R
  pub median_ttd_s : Option ℕ

module _ {R : Type 0} where
  -- The records of the phase of a scenario.
  abbrev pub observed : String → List (Sample R) → List (Sample R)
  observed s = select (λ x. x.phase == s)

  -- The roots that the records name.
  abbrev pub named : List (Sample R) → List String
  named obs = select is_text (map (λ x. x.root) obs)

  -- In S5 a forecast counts as the detection.
  abbrev pub is_hit : String → Sample R → Bool
  is_hit s x = if s == "S5" then is_some x.oom_eta_s else is_text x.root

  -- The time from the start of a cycle to its first detection.
  unfoldable pub first_detection : String → List (Sample R) → String → Option ℕ
  first_detection s obs cycle =
      let cr = select (λ x. x.cycle == cycle) obs in
      elim (least? (map (λ x. x.epoch) cr)) [
        | none ↦ none
        | some t0 ↦ elim (least? (map (λ x. x.epoch) (select (is_hit s) cr))) [
          | none ↦ none
          | some hit ↦ some (hit - t0)
        ]
      ]

  unfoldable pub detection_times : String → List (Sample R) → List String → List ℕ
  unfolding first_detection
  detection_times s obs [] = []
  detection_times s obs (c ∷ cycles) =
      let rest = detection_times s obs cycles in
      elim (first_detection s obs c) [ none ↦ rest | some t ↦ t ∷ rest ]

module _ {R : Type 0} ⦃f : Float R⦄ where
  -- The least time of the forecasts.
  unfoldable pub min_eta : Option R → List (Sample R) → Option R
  min_eta least [] = least
  min_eta least (x ∷ obs) = elim x.oom_eta_s [
    | none ↦ min_eta least obs
    | some e ↦ elim least [
      | none ↦ min_eta (some e) obs
      | some m ↦ min_eta (if f.lt e m then some e else some m) obs
    ]
  ]

  abbrev pub rate : ℕ → ℕ → R
  rate k zero = nought
  rate k (suc n) = f.round (f.div (f.of_nat k) (f.of_nat (suc n))) 3

  -- `per[s]`
  unfoldable pub rollup : String → List (Sample R) → Rollup R
  unfolding dominant median_of detection_times min_eta set_of is_match sort
  rollup s rows =
      let obs = observed s rows in
      let cycles = sort text_le (set_of (map (λ x. x.cycle) obs)) in
      let warned = set_of (map (λ x. x.cycle) (select (λ x. is_some x.oom_eta_s) obs)) in
      let n = length obs in
      let dom = dominant (named obs) in
      record {
        cycles = length cycles;
        samples = n;
        detect_rate = rate (length (named obs)) n;
        correct_rate = rate (length (select (λ x. is_match s x.root) obs)) n;
        dominant_root = dom.0;
        dominant_n = dom.1;
        oom_cycle_rate = rate (length warned) (length cycles);
        min_oom_eta_s = min_eta none obs;
        median_ttd_s = median_of (detection_times s obs cycles);
      }
