-- ===== src/Forecast.antt =====
-- correlation/engine/forecast.py: early warnings of pods that run into their memory limit.
pub mod Warnings
use abb_accelerator_submissi.Prelude.{
  ℕ, ◌-◌, Bool, not, Option, none, some, List, [], ◌∷◌, String, length, drop, select, if◌then◌else◌,
  Float, nought, one, max, lookup, sort, text_key,
}
use abb_accelerator_submissi.Detectors.{
  Numpy, Onset, cusum_onsets, forecast_to_limit, last, nat_max, nat_min,
}

-- A finding of the kind "incipient", signal "mem" and class "leak".
pub record Warning (R : Type 0) : Type 0 where
  pub pod : String
  pub eta_s : R
  pub value : R
  pub limit : R
  pub headroom_frac : R

-- The last onset of a list of upward ones.
unfoldable pub last_idx : {R : Type 0} → List (Onset R) → Option ℕ
last_idx [] = none
last_idx (o ∷ []) = some o.idx
last_idx (o ∷ p ∷ os) = last_idx (p ∷ os)

abbrev pub min_fit_n : ℕ
min_fit_n = 6

module _ {R : Type 0} ⦃f : Float R⦄ (np : Numpy R) where
  -- Every difference that may be negative ends in `max(0, …)`, as the truncated ones do: `max` and
  -- `min` are monotone, so the cut at 0 may be made first.
  unfoldable pub fit_from : List R → ℕ → ℕ
  unfolding last_idx cusum_onsets
  fit_from x tail =
      let n = length x in
      let lo : ℕ = elim (last_idx (select (λ o. o.up) (cusum_onsets np x))) [
        | none ↦ n - tail
        | some i ↦ nat_max (n - tail) i
      ] in
      nat_min lo (n - min_fit_n)

  abbrev pub fit_segment : List R → ℕ → List R
  fit_segment x tail = drop (fit_from x tail) x

  module _ (horizon_s min_frac : R) (tail : ℕ) where
    unfoldable pub warning : String → List R → R → Option (Warning R)
    unfolding fit_from forecast_to_limit
    warning pod x limit =
        let cur = last x in
        let seg = fit_segment x tail in
        if f.le limit nought then none else elim x [
          | [] ↦ none
          | _ ∷ _ ↦
              if f.lt cur (f.mul min_frac limit)
              then none
              else elim (forecast_to_limit np seg limit (length seg)) [
                | none ↦ none
                | some eta ↦
                    if f.lt horizon_s eta
                    then none
                    else some (record {
                      pod = pod;
                      eta_s = f.round eta 1;
                      value = f.round cur 0;
                      limit = f.round limit 0;
                      headroom_frac = f.round (max nought (f.sub one (f.div cur limit))) 3;
                    })
              ]
        ]

    unfoldable pub warning_of : List (String × R) → String → List R → Option (Warning R)
    unfolding warning lookup
    warning_of limits pod x = elim (lookup pod limits) [
      | none ↦ none
      | some limit ↦ warning pod x limit
    ]

    unfoldable pub warnings : List (String × List R) → List (String × R) → List (Warning R)
    unfolding warning_of
    warnings [] limits = []
    warnings ((pod, x) ∷ vectors) limits =
        let rest = warnings vectors limits in
        elim (warning_of limits pod x) [ none ↦ rest | some w ↦ w ∷ rest ]

    abbrev pub not_later : Warning R → Warning R → Bool
    not_later a b = not (f.lt b.eta_s a.eta_s)

    unfoldable pub incipient_findings :
        List (String × List R) → List (String × R) → List (Warning R)
    unfolding warnings sort
    incipient_findings vectors limits = sort not_later (warnings vectors limits)
