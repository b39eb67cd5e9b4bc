-- ===== src/Detectors.antt =====
-- correlation/engine/detectors.py: the moving average, the two-sided CUSUM, the shape of a disturbance
-- and the extrapolation to a limit. numpy's medians and fits are the parameter `Numpy`.
use abb_accelerator_submissi.Prelude.{
  ℕ, zero, suc, ◌+◌, ◌/◌, Bool, false, not, ◌&&◌, ◌||◌, Option, none, some, List, [], ◌∷◌, map,
  length, take, drop, last_items, ltb, leb, if◌then◌else◌, Float, nought, one, abs, max,
}

-- `np.median(x)`, `np.percentile(x, 90)`, and of the samples against 0, 1, …: the slope of
-- `np.polyfit(t, x, 1)` and the correlation of `np.corrcoef(t, x)`.
pub record Numpy (R : Type 0) : Type 0 where
  pub median : List R → R
  pub percentile_90 : List R → R
  pub slope : List R → R
  pub trend : List R → R

pub record Onset (R : Type 0) : Type 0 where
  pub idx : ℕ
  -- the direction "up"; otherwise "down"
  pub up : Bool
  pub zpeak : R

pub data Shape : Type 0 where
  saturation burst leak flap shift : Shape

abbrev pub warmup : ℕ
warmup = 12

abbrev pub nat_max : ℕ → ℕ → ℕ
nat_max a b = if ltb a b then b else a

abbrev pub nat_min : ℕ → ℕ → ℕ
nat_min a b = if ltb b a then b else a

abbrev pub differ : Bool → Bool → Bool
differ a b = if a then not b else b

module _ {R : Type 0} ⦃f : Float R⦄ where
  abbrev pub dt_s : R
  dt_s = f.of_nat 5

  -- `xs[i]` and `xs[-1]`; the callers stay inside the list, and the default is never read.
  abbrev pub item : List R → ℕ → R
  item [] i = nought
  item (x ∷ xs) zero = x
  item (x ∷ xs) (suc i) = item xs i

  abbrev pub last : List R → R
  last [] = nought
  last (x ∷ []) = x
  last (x ∷ y ∷ xs) = last (y ∷ xs)

  abbrev pub alpha : R
  alpha = f.decimal 3 1

  unfoldable pub ewma_from : R → List R → List R
  ewma_from prev [] = []
  ewma_from prev (x ∷ xs) =
      let now = f.add (f.mul alpha x) (f.mul (f.sub one alpha) prev) in now ∷ ewma_from now xs

  unfoldable pub ewma : List R → List R
  unfolding ewma_from
  ewma [] = []
  ewma (x ∷ xs) = x ∷ ewma_from x xs

  -- `x - concatenate(([base[0]], base[:-1]))`: against the average one step before
  unfoldable pub residuals : List R → List R → List R
  residuals [] before = []
  residuals (x ∷ xs) [] = []
  residuals (x ∷ xs) (b ∷ before) = f.sub x b ∷ residuals xs before

  unfoldable pub one_step_ahead : List R → List R
  unfolding ewma residuals
  one_step_ahead x = elim (ewma x) [ [] ↦ [] | b ∷ base ↦ residuals x (b ∷ b ∷ base) ]

  -- `sign * z[i - 1] > 0.5`
  abbrev pub contributes : Bool → R → Bool
  contributes up z = f.lt (f.decimal 5 1) (if up then z else f.neg z)

  -- Walk back from the alarm to the first sample that contributes to the shift.
  unfoldable pub backtrack : List R → Bool → ℕ → ℕ
  backtrack z up zero = zero
  backtrack z up (suc i) =
      let back = backtrack z up i in if contributes up (item z i) then back else suc i

  unfoldable pub cusum_loop : List R → List R → ℕ → R → R → ℕ → List (Onset R)
  unfolding backtrack
  cusum_loop z [] i gp gn armed_at = []
  cusum_loop z (zi ∷ rest) i gp gn armed_at =
      let gp' = max nought (f.sub (f.add gp zi) (f.decimal 5 1)) in
      let gn' = max nought (f.sub (f.sub gn zi) (f.decimal 5 1)) in
      let high = f.lt (f.of_nat 5) gp' && leb armed_at i in
      let low = f.lt (f.of_nat 5) gn' && leb armed_at i in
      let alarm = high || low in
      let later =
        cusum_loop z rest (i + 1) (if alarm then nought else gp') (if alarm then nought else gn')
          (if alarm then i + 3 else armed_at) in
      if alarm then record { idx = backtrack z high i; up = high; zpeak = zi } ∷ later else later

  abbrev pub greatest : List R → R
  greatest [] = nought
  greatest (x ∷ []) = x
  greatest (x ∷ y ∷ xs) = max x (greatest (y ∷ xs))

  abbrev pub least : List R → R
  least [] = nought
  least (x ∷ []) = x
  least (x ∷ y ∷ xs) = let m = least (y ∷ xs) in if f.lt m x then m else x

  -- `np.sum(np.diff(np.sign(seg - mid)) != 0)`
  unfoldable pub sign_changes : R → List R → ℕ
  sign_changes mid [] = 0
  sign_changes mid (x ∷ []) = 0
  sign_changes mid (x ∷ y ∷ xs) =
      (if differ (f.lt mid x) (f.lt mid y) || differ (f.lt x mid) (f.lt y mid) then 1 else 0)
      + sign_changes mid (y ∷ xs)

  module _ (np : Numpy R) where
    unfoldable pub robust_sigma : List R → R
    robust_sigma x =
        let med = np.median x in
        let mad = np.median (map (λ v. abs (f.sub v med)) x) in
        max (f.mul (f.decimal 14826 4) mad) (f.decimal 1 6)

    unfoldable pub z_scores : List R → List R
    unfolding one_step_ahead robust_sigma
    z_scores x =
        let resid = one_step_ahead x in
        let sig_n = nat_min (nat_max (warmup + warmup) (length x / 3)) 60 in
        let sigma = robust_sigma (take sig_n resid) in map (λ v. f.div v sigma) resid

    unfoldable pub cusum_onsets : List R → List (Onset R)
    unfolding z_scores cusum_loop
    cusum_onsets x =
        if ltb (length x) (warmup + 4)
        then []
        else let z = z_scores x in cusum_loop z (drop warmup z) warmup nought nought warmup

    unfoldable pub classify : List R → ℕ → Option R → Shape
    unfolding robust_sigma sign_changes
    classify x onset_idx limit =
        let seg = drop onset_idx x in
        let n = length seg in
        let pre = np.median (take (nat_max onset_idx 1) x) in
        let sigma_pre = robust_sigma (if ltb 8 onset_idx then take onset_idx x else x) in
        let tail = last_items (nat_max 3 (n / 4)) seg in
        let excursion = greatest (map (λ v. abs (f.sub v pre)) seg) in
        let came_back =
          f.lt (abs (f.sub (np.median tail) pre)) (f.mul (f.decimal 15 1) sigma_pre) in
        let saturated : Bool = elim limit [
          | none ↦ false
          | some c ↦
              f.le (f.mul (f.decimal 92 2) c) (np.median (last_items (nat_max 3 (n / 3)) seg))
        ] in
        let climbs =
          f.lt nought (np.slope seg)
          && f.lt (f.mul (f.of_nat 2) sigma_pre) (f.sub (last seg) (item seg 0)) in
        let mid = f.div (f.add (greatest seg) (least seg)) (f.of_nat 2) in
        let flaps =
          leb 4 (sign_changes mid seg)
          && f.lt (f.mul (f.of_nat 4) sigma_pre) (f.sub (greatest seg) (least seg)) in
        if ltb n 6
        then Shape.shift
        else if saturated
        then Shape.saturation
        else if came_back && f.lt (f.mul (f.of_nat 3) sigma_pre) excursion
        then Shape.burst
        else if climbs
        then Shape.leak
        else if flaps
        then Shape.flap
        else Shape.shift

    unfoldable pub forecast_to_limit : List R → R → ℕ → Option R
    forecast_to_limit x limit tail =
        let seg = if leb tail (length x) then last_items tail x else x in
        let samples_left = f.div (f.sub limit (last seg)) (np.slope seg) in
        let eta_s = f.mul samples_left dt_s in
        if f.le (np.slope seg) (f.decimal 1 9) || f.lt (np.trend seg) (f.decimal 5 1)
        then none
        else if f.lt samples_left nought || f.lt (f.of_nat 3600) eta_s
        then none
        else some eta_s
