-- ===== src/Pipeline/Rated.antt =====
-- The coefficients of edges as weights of arcs.
use abb_accelerator_submissi.Prelude.{
  ◌≡◌, List, arith, subst, Float, All, All-imp, IsRounded, ◌≼◌, nought, one, abs,
}
use abb_accelerator_submissi.Gate.{Edge, r_peak}
use abb_accelerator_submissi.Ranking.{arc_of}
use abb_accelerator_submissi.Ranking.Impact.{IsLight}
use abb_accelerator_submissi.Memory.Bounds.{InUnit}

-- What Python's `round` keeps, and the signs of the two floors of r.
pub record IsExact (R : Type 0) ⦃f : Float R⦄ : Type 0 where
  pub round_one : f.round (one {R = R}) 3 ≡ one
  pub round_nought : f.round (nought {R = R}) 3 ≡ nought
  pub peak_nonneg : nought {R = R} ≼ r_peak
  pub source_nonneg : nought ≼ f.decimal 5 1

-- The coefficient of an edge is between 0 and 1.
abbrev pub IsRated : {R : Type 0} ⦃f : Float R⦄ → Edge R → Type 0
IsRated e = InUnit e.r

module _ {R : Type 0} ⦃f : Float R⦄ (laws : IsRounded R) where
  pub abs-InUnit : (x : R) → InUnit x → InUnit (abs x)
  abs-InUnit x h = ground (arith, h.0, h.1, laws.ordered.lt-eq-not-le x nought)

  pub All-IsLight :
      (edges : List (Edge R)) → All IsRated edges → All (λ e. IsLight (arc_of e)) edges
  All-IsLight = All-imp IsRated (λ e. IsLight (arc_of e)) (λ e h. abs-InUnit e.r h)

  module _ (exact : IsExact R) where
    open laws use {round_mono}

    pub rounded-InUnit : (r : R) → InUnit r → InUnit (f.round r 3)
    rounded-InUnit r h = (
      subst (λ z. z ≼ f.round r 3) exact.round_nought (round_mono nought r 3 h.0),
      subst (λ z. f.round r 3 ≼ z) exact.round_one (round_mono r one 3 h.1),
    )
