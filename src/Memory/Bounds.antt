-- ===== src/Memory/Bounds.antt =====
-- The range of the confidences and floors of `edge_memory`.

use abb_accelerator_submissi.Prelude.{
  ◌≡◌, refl, Option, none, some, List, [], ◌∷◌, String, Float, ◌≼◌, nought, one, max, text_key, All,
  IsRounded, max-le, max-nonneg_left,
}
use abb_accelerator_submissi.Gate.{Edge, Pairs}
use abb_accelerator_submissi.Memory.{
  MemoryConfig, Row, raised, confirmed, lowered, decayed, update_edges,
}
use abb_accelerator_submissi.Memory.Each.{update_edges-Each}

module _ {R : Type 0} ⦃f : Float R⦄ where
  abbrev pub InUnit : R → Type 0
  InUnit x = (nought ≼ x) × (x ≼ one)

  pub record IsBounded (row : Row R) : Type 0 where
    pub confidence : InUnit row.confidence
    pub base_conf : InUnit row.base_conf

  -- The parameters are fractions.
  pub record IsFractional (cfg : MemoryConfig R) : Type 0 where
    pub alpha : InUnit cfg.alpha
    pub decay : InUnit cfg.decay
    pub prior : InUnit cfg.prior
    pub floor_frac : InUnit cfg.floor_frac

  module _ (laws : IsRounded R) (cfg : MemoryConfig R) (valid : IsFractional cfg) where
    open laws use {
      ordered, mul_nonneg, mul-le_left, mul-le_right, sub_nonneg, sub-le, le-add, add_mono,
      add-one_sub-le, nought-le-one,
    }

    le_trans : (x y z : R) → x ≼ y → y ≼ z → x ≼ z
    le_trans = ordered.le_trans

    mul-InUnit : (a b : R) → InUnit a → InUnit b → InUnit (f.mul a b)
    mul-InUnit a b h k = (mul_nonneg a b h.0 k.0, le_trans _ a one (mul-le_left a b h.0 k.1) h.1)

    max-InUnit : (a b : R) → InUnit a → InUnit b → InUnit (max a b)
    max-InUnit a b h k = (max-nonneg_left ordered a b h.0, max-le ordered a b one h.1 k.1)

    pub raised-InUnit : (conf : R) → InUnit conf → InUnit (raised cfg conf)
    raised-InUnit conf h =
        let gap : nought ≼ f.sub one conf = sub_nonneg conf one h.1 in
        let step : nought ≼ f.mul cfg.alpha (f.sub one conf) =
          mul_nonneg cfg.alpha (f.sub one conf) valid.alpha.0 gap in
        let small : f.mul cfg.alpha (f.sub one conf) ≼ f.sub one conf =
          mul-le_right (f.sub one conf) cfg.alpha gap valid.alpha.1 in
        (
          le_trans nought conf _ h.0 (le-add conf _ step),
          le_trans _ (f.add conf (f.sub one conf)) one
              (add_mono conf conf _ _ (ordered.le_refl conf) small) (add-one_sub-le conf h.0 h.1),
        )

    pub lowered-InUnit : (row : Row R) → IsBounded row → InUnit (lowered cfg row)
    lowered-InUnit row h = max-InUnit row.base_conf _ h.base_conf (
        mul-InUnit row.confidence (f.sub one cfg.decay) h.confidence
          (sub_nonneg cfg.decay one valid.decay.1, sub-le one cfg.decay valid.decay.0))

    pub confirmed-IsBounded :
        (e : Edge R) (ts : R) (old : Option (Row R))
        → ((row : Row R) → old ≡ some row → IsBounded row)
        → IsBounded (confirmed cfg e ts old)
    unfolding confirmed
    confirmed-IsBounded e ts none h = record {
      confidence = valid.alpha;
      base_conf =
          max-InUnit nought _ (ordered.le_refl nought, nought-le-one)
            (mul-InUnit cfg.floor_frac cfg.alpha valid.floor_frac valid.alpha);
    }
    confirmed-IsBounded e ts (some row) h =
        let was = h row refl in
        let now = raised-InUnit row.confidence was.confidence in
        record {
          confidence = now;
          base_conf =
              max-InUnit row.base_conf _ was.base_conf
                (mul-InUnit cfg.floor_frac _ valid.floor_frac now);
        }

    every_edge : (edges : List (Edge R)) → All {0, 0} (λ e. Unit) edges
    every_edge [] = tt
    every_edge (e ∷ edges) = (tt, every_edge edges)

    -- A pass keeps every confidence and every learned floor of the table between 0 and 1, if the
    -- configured rates, the prior and the fraction of the floor are between 0 and 1.
    pub update_edges-IsBounded :
        (shared : Option Pairs) (edges : List (Edge R)) (present : List String) (ts : R)
        (rows : List (Row R))
        → All IsBounded rows
        → All IsBounded (update_edges cfg shared edges present ts rows)
    update_edges-IsBounded shared edges present ts rows =
        update_edges-Each cfg IsBounded (λ e. Unit) (λ e ts' old _. confirmed-IsBounded e ts' old)
          (λ ts' row h.
            unfold decayed in record { confidence = lowered-InUnit row h; base_conf = h.base_conf })
          (λ row h. record { confidence = h.confidence; base_conf = valid.prior })
          (λ a b ts'. record { confidence = valid.prior; base_conf = valid.prior }) shared edges
          present ts rows (every_edge edges)
