-- ===== src/Service/Sound.antt =====
-- The invariant of the memories over the rounds of the service.
use abb_accelerator_submissi.Prelude.{
  inl, inr, Option, some, String, All, Float, IsRounded, Bool-cases, nought,
}
use abb_accelerator_submissi.Lag.{Stats}
use abb_accelerator_submissi.Detectors.{Numpy}
use abb_accelerator_submissi.Memory.{MemoryConfig}
use abb_accelerator_submissi.Memory.Bounds.{IsFractional, InUnit}
use abb_accelerator_submissi.Cases.{Fingerprint}
use abb_accelerator_submissi.Store.Observing.{IsSound, remember-IsSound}
use abb_accelerator_submissi.Domain.{config_for, is_disk_signal}
use abb_accelerator_submissi.Service.{Settings, Memories}
use abb_accelerator_submissi.Service.Rounds.{Reach, Reach-keeps}

module _ {R : Type 0} ⦃f : Float R⦄ where
  pub config_for-IsFractional :
      (laws : IsRounded R) (env : MemoryConfig R) (sig : String)
      → IsFractional env
      → IsFractional (config_for env sig)
  unfolding config_for
  config_for-IsFractional laws env sig h =
      let none_at_all : InUnit {R = R} nought = (laws.ordered.le_refl nought, laws.nought-le-one) in
      elim (Bool-cases (is_disk_signal sig)) [
        | inl e ↦ record {
          alpha = h.alpha;
          decay = h.decay;
          prior = rw e h.prior;
          floor_frac = rw e h.floor_frac;
        }
        | inr e ↦ record {
          alpha = h.alpha;
          decay = h.decay;
          prior = rw e none_at_all;
          floor_frac = rw e none_at_all;
        }
      ]

  abbrev pub AreSound : Memories R → Type 0
  AreSound = All (λ sm. IsSound sm.1)

  -- Whatever the rounds fetch, failures too, every memory that they lead to from sound memories is sound:
  -- one row for each edge key, confidences and floors between 0 and 1, different case identifiers, and
  -- observations of stored cases only. The configured rates are fractions, and the floats have the laws of
  -- rounded arithmetic.
  pub Reach-IsSound :
      (laws : IsRounded R) (stats : Stats R) (np : Numpy R) (digest : Fingerprint → String)
      (epoch : String → Option R) (set : Settings R) (valid : IsFractional set.edge)
      (first memories : Memories R)
      → Reach stats np digest epoch set first memories
      → AreSound first
      → AreSound memories
  Reach-IsSound laws stats np digest epoch set valid first memories rounds was =
      Reach-keeps stats np digest epoch set (λ sig m. IsSound m)
        (λ sig graph vectors witness opts ts m ran was'.
          remember-IsSound laws (config_for set.edge sig)
            (config_for-IsFractional laws set.edge sig valid) np digest graph vectors (some witness)
            ts m was')
        first memories rounds was
