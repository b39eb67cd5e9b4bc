-- ===== src/Lag/Bounds.antt =====
-- The size of the coefficients of `best_directed`.
use abb_accelerator_submissi.Prelude.{
  ℕ, ◌≡◌, refl, inl, inr, Bool, ◌-◌, take, drop, last_items, true, false, if◌then◌else◌, Option,
  none, some, List, [], ◌∷◌, Float, ◌≼◌, nought, one, abs, IsRounded, All, best_from-All,
  Bool-cases, leb, ltb, ◌||◌, length, ◌+◌,
}
use abb_accelerator_submissi.Lag.{
  Stats, Profile, Directed, or_nought, not_stronger, strongest, znorm, corr_at_lag, profile_from,
  lag_profile, best_directed, samples_of, lags_s,
}

either {ℓ κ} :
    {A : Type ℓ} (P : A → Type κ) (b : Bool) (x y : A) → P x → P y → P (if b then x else y)
either P true x y h k = h
either P false x y h k = k

-- `pearsonr` and `spearmanr` give no coefficient above 1.
pub record IsCorrelation {R : Type 0} ⦃f : Float R⦄ (stats : Stats R) : Type 0 where
  pub pearsonr : (a b : List R) (r : R) → stats.pearsonr a b ≡ some r → r ≼ one
  pub spearmanr : (a b : List R) (r : R) → stats.spearmanr a b ≡ some r → r ≼ one

module _ {R : Type 0} ⦃f : Float R⦄ (laws : IsRounded R) (stats : Stats R)
    (valid : IsCorrelation stats) where
  or_nought-le : (o : Option R) → ((r : R) → o ≡ some r → r ≼ one) → or_nought o ≼ one
  or_nought-le none h = laws.nought-le-one
  or_nought-le (some r) h = h r refl

  corr_at_lag-le : (src dst : List R) (lag : ℕ) → corr_at_lag stats src dst lag ≼ one
  unfolding corr_at_lag
  corr_at_lag-le src dst lag =
      let a : List R = if ltb 0 lag then take (length src - lag) src else src in
      let b : List R = if ltb 0 lag then drop lag dst else dst in
      let short : Bool =
        ltb (length a) 12
        || f.lt (stats.std a) (f.decimal 1 9)
        || f.lt (stats.std b) (f.decimal 1 9) in
      let heavy : Bool =
        f.lt (f.of_nat 2) (abs (stats.skew a)) || f.lt (f.of_nat 2) (abs (stats.skew b)) in
      let o : Option R = if heavy then stats.spearmanr a b else stats.pearsonr a b in
      either {A = R} (λ r. r ≼ one) short nought (or_nought o) laws.nought-le-one
        (either {A = Option R} (λ x. or_nought x ≼ one) heavy (stats.spearmanr a b)
          (stats.pearsonr a b) (or_nought-le (stats.spearmanr a b) (valid.spearmanr a b))
          (or_nought-le (stats.pearsonr a b) (valid.pearsonr a b)))

  profile_from-le :
      (src dst : List R) (lags : List ℕ) → All (λ e. e.1 ≼ one) (profile_from stats src dst lags)
  unfolding profile_from
  profile_from-le src dst [] = tt
  profile_from-le src dst (lag_s ∷ lags) =
      elim (Bool-cases (leb (length src) (samples_of lag_s + 12))) [
        | inl e ↦ rw e (profile_from-le src dst lags)
        | inr e ↦ rw e (
          corr_at_lag-le (znorm stats src) (znorm stats dst) (samples_of lag_s),
          profile_from-le src dst lags,
        )
      ]

  pub lag_profile-le : (src dst : List R) → All (λ e. e.1 ≼ one) (lag_profile stats src dst)
  unfolding lag_profile
  lag_profile-le src dst = profile_from-le src dst lags_s

  strongest-le : (p : Profile R) → All (λ e. e.1 ≼ one) p → (strongest p).1 ≼ one
  unfolding strongest
  strongest-le [] h = laws.nought-le-one
  strongest-le (x ∷ xs) h = best_from-All not_stronger (λ e. e.1 ≼ one) x xs h.0 h.1

  pub best_directed-le : (srcv dstv : List R) → (best_directed stats srcv dstv).r ≼ one
  unfolding best_directed
  best_directed-le srcv dstv =
      let n : ℕ = if ltb (length dstv) (length srcv) then length dstv else length srcv in
      let fwd = lag_profile stats (last_items n srcv) (last_items n dstv) in
      let rev = lag_profile stats (last_items n dstv) (last_items n srcv) in
      let back : Bool =
        f.lt (f.add (abs (strongest fwd).1) (f.decimal 1 9)) (abs (strongest rev).1) in
      either {A = Directed R} (λ d. d.r ≼ one) back
        (record {
          forward = false;
          r = (strongest rev).1;
          lag_s = (strongest rev).0;
          profile = rev;
        })
        (record { forward = true; r = (strongest fwd).1; lag_s = (strongest fwd).0; profile = fwd })
        (strongest-le rev (lag_profile-le (last_items n dstv) (last_items n srcv)))
        (strongest-le fwd (lag_profile-le (last_items n srcv) (last_items n dstv)))
