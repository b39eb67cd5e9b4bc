-- ===== src/Forecast/Warnings.antt =====
-- What `incipient_findings` reports.
use mathlib.Core.Option.{some-injective}
use abb_accelerator_submissi.Prelude.{
  ℕ, ◌≡◌, subst, inl, inr, false, some, List, [], ◌∷◌, String, unguard, lookup, length,
  Option-cases, Float, ◌≼◌, nought, text_key, All, All-imp, Memᴰ, refl, sort-All, sort-IsSorted,
  IsSorted, IsRounded, le_of_not-lt, not-lt_total, not-lt_trans,
}
use abb_accelerator_submissi.Detectors.{Numpy, last, forecast_to_limit}
use abb_accelerator_submissi.Forecast.{
  Warning, fit_segment, warning, warning_of, warnings, not_later, incipient_findings,
}

module _ {R : Type 0} ⦃f : Float R⦄ (laws : IsRounded R) (np : Numpy R) (horizon_s min_frac : R)
    (tail : ℕ) where
  open laws use {ordered}

  -- A warning is earned by a vector of its pod: the pod has a positive limit, has passed the fraction of it, and the
  -- projection of that vector, which the warning gives, meets the limit within the horizon.
  pub record IsEarned (vectors : List (String × List R)) (limits : List (String × R))
      (w : Warning R) : Type 0 where
    pub values : List R
    pub bound : R
    pub eta : R
    pub of_pod : Memᴰ (w.pod, values) vectors
    pub limited : lookup w.pod limits ≡ some bound
    pub positive : f.le bound nought ≡ false
    pub full : f.mul min_frac bound ≼ last values
    pub projected :
        forecast_to_limit np
          (fit_segment np values tail)
          bound
          (length (fit_segment np values tail))
        ≡ some eta
    pub given : w.eta_s ≡ f.round eta 1
    pub soon : eta ≼ horizon_s

  warning-IsEarned :
      (vectors : List (String × List R)) (limits : List (String × R)) (pod : String) (x : List R)
      (bound : R) (w : Warning R)
      → Memᴰ (pod, x) vectors
      → lookup pod limits ≡ some bound
      → warning np horizon_s min_frac tail pod x bound ≡ some w
      → IsEarned vectors limits w
  unfolding warning
  warning-IsEarned vectors limits pod [] bound w there known h =
      absurd (cc (unguard {b = f.le bound nought} h).1)
  warning-IsEarned vectors limits pod (v ∷ vs) bound w there known h =
      let x : List R = v ∷ vs in
      let seg = fit_segment np x tail in
      let (positive, h1) = unguard {b = f.le bound nought} h in
      let (full, h2) = unguard {b = f.lt (last x) (f.mul min_frac bound)} h1 in
      elim (Option-cases (forecast_to_limit np seg bound (length seg))) [
        | inl stuck ↦ absurd (cc (rw stuck at h2))
        | inr (eta, ends) ↦
            let (soon, built) = unguard {b = f.lt horizon_s eta} (rw ends at h2) in
            subst (IsEarned vectors limits) (some-injective _ _ built) (record {
              values = x;
              bound = bound;
              eta = eta;
              of_pod = there;
              limited = known;
              positive = positive;
              full = le_of_not-lt ordered _ _ full;
              projected = ends;
              given = refl;
              soon = le_of_not-lt ordered _ _ soon;
            })
      ]

  later-IsEarned :
      (v : String × List R) (vectors : List (String × List R)) (limits : List (String × R))
      (ws : List (Warning R))
      → All (IsEarned vectors limits) ws
      → All (IsEarned (v ∷ vectors) limits) ws
  later-IsEarned v vectors limits ws =
      All-imp (IsEarned vectors limits) (IsEarned (v ∷ vectors) limits)
        (λ w h. record {
          values = h.values;
          bound = h.bound;
          eta = h.eta;
          of_pod = Memᴰ.tail h.of_pod;
          limited = h.limited;
          positive = h.positive;
          full = h.full;
          projected = h.projected;
          given = h.given;
          soon = h.soon;
        })
        ws

  warnings-IsEarned :
      (vectors : List (String × List R)) (limits : List (String × R))
      → All (IsEarned vectors limits) (warnings np horizon_s min_frac tail vectors limits)
  unfolding warnings warning_of
  warnings-IsEarned [] limits = tt
  warnings-IsEarned ((pod, x) ∷ vectors) limits = elim (Option-cases (lookup pod limits)) [
    | inl e ↦
        rw (e, warnings)
          (later-IsEarned (pod, x) vectors limits _ (warnings-IsEarned vectors limits))
    | inr (bound, e) ↦ elim (Option-cases (warning np horizon_s min_frac tail pod x bound)) [
      | inl none_yet ↦
          rw (e, none_yet, warnings)
            (later-IsEarned (pod, x) vectors limits _ (warnings-IsEarned vectors limits))
      | inr (w, made) ↦
          rw (e, made, warnings)
            (
              warning-IsEarned ((pod, x) ∷ vectors) limits pod x bound w (Memᴰ.head refl) e made,
              later-IsEarned (pod, x) vectors limits _ (warnings-IsEarned vectors limits),
            )
    ]
  ]

  -- Every early warning is earned by a vector that is stored for its pod: the pod has a positive limit, the last value
  -- of the vector has passed `min_frac` of it, and the fitted segment of the vector meets it at a time within the
  -- horizon, which rounded is the time of the warning. The warnings stand soonest first.
  -- The floats have the laws of rounded arithmetic.
  pub incipient_findings-IsEarned :
      (vectors : List (String × List R)) (limits : List (String × R))
      → All (IsEarned vectors limits) (incipient_findings np horizon_s min_frac tail vectors limits)
        × IsSorted
            (not_later np horizon_s min_frac tail)
            (incipient_findings np horizon_s min_frac tail vectors limits)
  unfolding incipient_findings
  incipient_findings-IsEarned vectors limits = (
    sort-All (not_later np horizon_s min_frac tail) (IsEarned vectors limits)
        (warnings np horizon_s min_frac tail vectors limits) (warnings-IsEarned vectors limits),
    sort-IsSorted (not_later np horizon_s min_frac tail)
        (λ a b. not-lt_total ordered a.eta_s b.eta_s)
        (λ a b c. not-lt_trans ordered a.eta_s b.eta_s c.eta_s)
        (warnings np horizon_s min_frac tail vectors limits),
  )
