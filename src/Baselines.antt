-- ===== src/Baselines.antt =====
-- correlation/engine/state.py, the table `baselines`: the steady level of each workload and the
-- threshold above which it is an incident.
pub mod Learning
use abb_accelerator_submissi.Prelude.{
  ℕ, ◌+◌, Bool, ◌&&◌, Option, none, some, List, [], ◌∷◌, ◌++◌, map, String, length, ltb, leb,
  if◌then◌else◌, Float, one, abs, max, ◌==◌, text_key,
}
use abb_accelerator_submissi.Workload.{stable_workload}
use abb_accelerator_submissi.Detectors.{Numpy}
use abb_accelerator_submissi.Events.{Vectors}
use abb_accelerator_submissi.Memory.{MemoryConfig}

pub record Baseline (R : Type 0) : Type 0 where
  pub workload : String
  pub signal : String
  pub median : R
  pub mad : R
  pub n : ℕ
  pub updated_ts : R

module _ {R : Type 0} where
  abbrev pub is_of : String → String → Baseline R → Bool
  is_of workload signal b = b.workload == workload && b.signal == signal

  unfoldable pub find_baseline : String → String → List (Baseline R) → Option (Baseline R)
  find_baseline workload signal [] = none
  find_baseline workload signal (b ∷ table) =
      if is_of workload signal b then some b else find_baseline workload signal table

  -- `UPDATE baselines SET … WHERE workload=? AND signal=?`
  unfoldable pub update_where :
      String → String → (Baseline R → Baseline R) → List (Baseline R) → List (Baseline R)
  update_where workload signal change [] = []
  update_where workload signal change (b ∷ table) =
      (if is_of workload signal b then change b else b) ∷ update_where workload signal change table

module _ {R : Type 0} ⦃f : Float R⦄ (cfg : MemoryConfig R) where
  -- `median + dev_k * max(mad, mad_floor)`
  abbrev pub level : Baseline R → R
  level b = f.add b.median (f.mul cfg.dev_k (max b.mad cfg.mad_floor))

  unfoldable pub baseline_threshold : String → List (Baseline R) → Option R
  baseline_threshold workload table = elim (find_baseline workload cfg.signal table) [
    | none ↦ none
    | some b ↦ if ltb b.n cfg.base_min_n then none else some (level b)
  ]

  module _ (np : Numpy R) where
    abbrev pub deviation : List R → R
    deviation arr = np.median (map (λ v. abs (f.sub v (np.median arr))) arr)

    -- The pod storms: its row is mature and the sustained level is above the threshold.
    abbrev pub storms : Baseline R → List R → Bool
    storms b arr = leb cfg.base_min_n b.n && f.lt (level b) (np.percentile_90 arr)

    abbrev pub blend : R → R → R
    blend old new = f.add (f.mul (f.sub one cfg.base_alpha) old) (f.mul cfg.base_alpha new)

    -- The row that an update writes: the values are computed from the row that was read.
    abbrev pub learned : List R → R → Baseline R → Baseline R → Baseline R
    learned arr ts old b = record b {
      median = blend old.median (np.median arr);
      mad = blend old.mad (deviation arr);
      n = old.n + 1;
      updated_ts = ts;
    }

    unfoldable pub update_baseline : String → List R → R → List (Baseline R) → List (Baseline R)
    unfolding update_where
    update_baseline pod arr ts table =
        let wl = stable_workload pod in
        if ltb (length arr) 12 then table else elim (find_baseline wl cfg.signal table) [
          | none ↦
              table
              ++ record {
                workload = wl;
                signal = cfg.signal;
                median = np.median arr;
                mad = deviation arr;
                n = 1;
                updated_ts = ts;
              }
                ∷ []
          | some old ↦
              if storms old arr
              then table
              else update_where wl cfg.signal (learned arr ts old) table
        ]

    unfoldable pub update_baselines : Vectors R → R → List (Baseline R) → List (Baseline R)
    unfolding update_baseline
    update_baselines [] ts table = table
    update_baselines ((pod, arr) ∷ vectors) ts table =
        update_baselines vectors ts (update_baseline pod arr ts table)
