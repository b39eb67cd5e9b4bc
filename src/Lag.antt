-- ===== src/Lag.antt =====
-- correlation/engine/lagcorr.py: lagged correlation between two signal vectors. What numpy and scipy
-- compute is the parameter `Stats`; a statistic that is NaN is `none`. Lists of different lengths, on which
-- `pearsonr` and `spearmanr` raise, are outside of the model: `best_directed` aligns its vectors, and those of a
-- pass have one length.
pub mod Bounds
use abb_accelerator_submissi.Prelude.{
  ℕ, zero, suc, ◌+◌, ◌-◌, ◌/◌, Bool, true, false, not, ◌||◌, Option, none, some, List, [], ◌∷◌, map,
  length, get_elem?, take, drop, last_items, any, ltb, leb, if◌then◌else◌, Float, abs, nought, one,
  lookup, best_from, sort, number_key, ◌==◌,
}

-- numpy's `mean` and `std`, and scipy's `skew`, `spearmanr` and `pearsonr`.
pub record Stats (R : Type 0) : Type 0 where
  pub mean : List R → R
  pub std : List R → R
  pub skew : List R → R
  pub spearmanr : List R → List R → Option R
  pub pearsonr : List R → List R → Option R

-- `LAGS_S`, in seconds, and the samples of `DT_S` = 5 s that make a lag: every lag is whole samples.
abbrev pub lags_s : List ℕ
lags_s = 0 ∷ 5 ∷ 15 ∷ 30 ∷ 60 ∷ 120 ∷ []

abbrev pub samples_of : ℕ → ℕ
samples_of lag_s = lag_s / 5

-- A profile: r at each lag, in the order of the lags.
abbrev pub Profile : Type 0 → Type 0
Profile R = List (ℕ × R)

abbrev pub or_nought : {R : Type 0} ⦃f : Float R⦄ → Option R → R
or_nought none = nought
or_nought (some r) = r

pub record Directed (R : Type 0) : Type 0 where
  pub forward : Bool
  pub r : R
  pub lag_s : ℕ
  pub profile : Profile R

-- The place of the first occurrence, `xs.index(x)`.
unfoldable pub index_of : ℕ → List ℕ → Option ℕ
index_of a [] = none
index_of a (x ∷ xs) =
    if x == a then some 0 else elim (index_of a xs) [ none ↦ none | some i ↦ some (suc i) ]

-- `[lags[j] for j in (i - 1, i + 1) if 0 <= j < len(lags)]`
unfoldable pub item_before : List ℕ → ℕ → List ℕ
item_before xs zero = []
item_before xs (suc i) = elim (get_elem? xs i) [ none ↦ [] | some x ↦ x ∷ [] ]

unfoldable pub neighbors : List ℕ → ℕ → List ℕ
unfolding item_before
neighbors xs i = elim (get_elem? xs (suc i)) [
  | none ↦ item_before xs i
  | some y ↦ both (item_before xs i) y
]
  where
    both : List ℕ → ℕ → List ℕ
    both [] y = y ∷ []
    both (x ∷ _) y = x ∷ y ∷ []

module _ {R : Type 0} ⦃f : Float R⦄ where
  -- The first entry of the largest size; the default where the profile is empty.
  abbrev pub not_stronger : ℕ × R → ℕ × R → Bool
  not_stronger x m = not (f.lt (abs m.1) (abs x.1))

  unfoldable pub strongest : Profile R → ℕ × R
  strongest [] = (0, nought)
  strongest (x ∷ xs) = best_from not_stronger x xs

  -- `|profile[n]| >= floor`
  abbrev pub elevated : Profile R → R → ℕ → Bool
  elevated profile floor n = elim (lookup n profile) [ none ↦ false | some r ↦ f.le floor (abs r) ]

  -- |r| stays elevated at a lag adjacent to the peak.
  unfoldable pub adjacent_support : Profile R → ℕ → R → Bool
  unfolding index_of neighbors sort lookup
  adjacent_support profile peak floor =
      let lags = sort leb (map (λ e. e.0) profile) in
      elim (index_of peak lags) [
        | none ↦ false
        | some i ↦ any (elevated profile floor) (neighbors lags i)
      ]

  module _ (stats : Stats R) where
    unfoldable pub znorm : List R → List R
    znorm x =
        let sd = stats.std x in
        let scale = if f.lt (f.decimal 1 9) sd then sd else one in
        map (λ v. f.div (f.sub v (stats.mean x)) scale) x

    unfoldable pub corr_at_lag : List R → List R → ℕ → R
    corr_at_lag src dst lag =
        let a = if ltb 0 lag then take (length src - lag) src else src in
        let b = if ltb 0 lag then drop lag dst else dst in
        let flat = λ (v : List R). f.lt (stats.std v) (f.decimal 1 9) in
        let heavy = λ (v : List R). f.lt (f.of_nat 2) (abs (stats.skew v)) in
        if ltb (length a) 12 || flat a || flat b
        then nought
        else or_nought (if heavy a || heavy b then stats.spearmanr a b else stats.pearsonr a b)

    unfoldable pub profile_from : List R → List R → List ℕ → Profile R
    profile_from src dst [] = []
    profile_from src dst (lag_s ∷ lags) =
        let ls = samples_of lag_s in
        let rest = profile_from src dst lags in
        -- `ls >= len(src) - 12`, where the difference may be negative
        if leb (length src) (ls + 12)
        then rest
        else (lag_s, corr_at_lag (znorm src) (znorm dst) ls) ∷ rest

    unfoldable pub lag_profile : List R → List R → Profile R
    unfolding profile_from
    lag_profile src dst = profile_from src dst lags_s

    unfoldable pub best_directed : List R → List R → Directed R
    unfolding lag_profile strongest corr_at_lag znorm best_from
    best_directed srcv dstv =
        let n = if ltb (length dstv) (length srcv) then length dstv else length srcv in
        let a = last_items n srcv in
        let b = last_items n dstv in
        let fwd = lag_profile a b in
        let rev = lag_profile b a in
        let fbest = strongest fwd in
        let rbest = strongest rev in
        if f.lt (f.add (abs fbest.1) (f.decimal 1 9)) (abs rbest.1)
        then record { forward = false; r = rbest.1; lag_s = rbest.0; profile = rev }
        else record { forward = true; r = fbest.1; lag_s = fbest.0; profile = fwd }
