-- ===== src/Baselines/Learning.antt =====
-- What the baselines learn, when they give a threshold, and that a storm teaches them nothing.
use abb_accelerator_submissi.Prelude.{
  ℕ, ◌+◌, ◌≤◌, ◌<◌, ◌≡◌, ◌≢◌, refl, inl, inr, ◌⊎◌, true, false, Option, none, some, List, [], ◌∷◌,
  ◌++◌, String, arith, Bool-cases, Option-cases, Float, ltb, length, text_key, All, subst, sym, ◌∙◌,
  ◌==◌,
}
use abb_accelerator_submissi.Workload.{stable_workload}
use abb_accelerator_submissi.Detectors.{Numpy}
use abb_accelerator_submissi.Events.{Vectors}
use abb_accelerator_submissi.Memory.{MemoryConfig}
use abb_accelerator_submissi.Baselines.{
  Baseline, is_of, find_baseline, update_where, baseline_threshold, storms, deviation, learned,
  update_baseline, update_baselines,
}

module _ {R : Type 0} where
  find_baseline-append :
      (wl signal : String) (table : List (Baseline R)) (b : Baseline R)
      → is_of wl signal b ≡ false
      → find_baseline wl signal (table ++ b ∷ []) ≡ find_baseline wl signal table
  unfolding find_baseline
  find_baseline-append wl signal [] b h = rw h
  find_baseline-append wl signal (c ∷ table) b h =
      ground (arith, find_baseline-append wl signal table b h)

  find_baseline-append_self :
      (wl signal : String) (table : List (Baseline R)) (b : Baseline R)
      → is_of wl signal b ≡ true
      → find_baseline wl signal table ≡ none
      → find_baseline wl signal (table ++ b ∷ []) ≡ some b
  unfolding find_baseline
  find_baseline-append_self wl signal [] b h e = rw h
  find_baseline-append_self wl signal (c ∷ table) b h e =
      ground (arith, find_baseline-append_self wl signal table b h)

  -- A change that keeps the key acts on the row of that key, and on no other.
  find_baseline-update_self :
      (wl signal : String) (change : Baseline R → Baseline R) (table : List (Baseline R))
      → ((b : Baseline R) → is_of wl signal (change b) ≡ is_of wl signal b)
      → (b : Baseline R) → find_baseline wl signal table ≡ some b
      → find_baseline wl signal (update_where wl signal change table) ≡ some (change b)
  unfolding find_baseline update_where
  find_baseline-update_self wl signal change [] keep b e = absurd (cc)
  find_baseline-update_self wl signal change (c ∷ table) keep b e =
      elim (Bool-cases (is_of wl signal c)) [
        | inl here ↦ rw (here, keep c, here) (ground (arith, rw here at e))
        | inr other ↦
            rw (other, other)
              (find_baseline-update_self wl signal change table keep b (rw other at e))
      ]

  find_baseline-update_ne :
      (wl other signal : String) (change : Baseline R → Baseline R) (table : List (Baseline R))
      → ((b : Baseline R) → is_of other signal (change b) ≡ is_of other signal b)
      → other ≢ wl
      → find_baseline other signal (update_where wl signal change table)
        ≡ find_baseline other signal table
  unfolding find_baseline update_where
  find_baseline-update_ne wl other signal change [] keep h = refl
  find_baseline-update_ne wl other signal change (c ∷ table) keep h = ground (
    arith,
    text_key.same_iff c.workload wl,
    text_key.same_iff c.workload other,
    keep c,
    find_baseline-update_ne wl other signal change table keep h,
  )

module _ {R : Type 0} ⦃f : Float R⦄ (cfg : MemoryConfig R) (np : Numpy R) where
  abbrev first_of_pod : String → List R → R → Baseline R
  first_of_pod pod arr ts = record {
    workload = stable_workload pod;
    signal = cfg.signal;
    median = np.median arr;
    mad = deviation cfg np arr;
    n = 1;
    updated_ts = ts;
  }

  -- A window whose sustained level is above the threshold of its workload changes no baseline.
  update_baseline_storm :
      (pod : String) (arr : List R) (ts thr : R) (table : List (Baseline R))
      → baseline_threshold cfg (stable_workload pod) table ≡ some thr
      → f.lt thr (np.percentile_90 arr) ≡ true
      → update_baseline cfg np pod arr ts table ≡ table
  unfolding update_baseline baseline_threshold
  update_baseline_storm pod arr ts thr table e storm = ground arith

  -- An update leaves the table, opens a row, or changes the row of the workload.
  update_baseline-cases :
      (pod : String) (arr : List R) (ts : R) (table : List (Baseline R))
      → let wl = stable_workload pod in
        let new = update_baseline cfg np pod arr ts table in
        (new ≡ table)
        ⊎ ((find_baseline wl cfg.signal table ≡ none)
            × (new ≡ table ++ first_of_pod pod arr ts ∷ []))
        ⊎ ((old : Baseline R) × (find_baseline wl cfg.signal table ≡ some old)
            × (new ≡ update_where wl cfg.signal (learned cfg np arr ts old) table))
  unfolding update_baseline
  update_baseline-cases pod arr ts table = elim (Bool-cases (ltb (length arr) 12)) [
    | inl short ↦ inl (ground arith)
    | inr long ↦ elim (Option-cases (find_baseline (stable_workload pod) cfg.signal table)) [
      | inl e ↦ inr (inl (e, ground arith))
      | inr (old, e) ↦ elim (Bool-cases (storms cfg np old arr)) [
        | inl s ↦ inl (ground arith)
        | inr s ↦ inr (inr (old, e, ground arith))
      ]
    ]
  ]

  find_baseline-update_other :
      (pod other : String) (arr : List R) (ts : R) (table : List (Baseline R))
      → other ≢ stable_workload pod
      → find_baseline other cfg.signal (update_baseline cfg np pod arr ts table)
        ≡ find_baseline other cfg.signal table
  find_baseline-update_other pod other arr ts table h =
      let wl = stable_workload pod in
      elim (update_baseline-cases pod arr ts table) [
        | inl e ↦ rw e
        | inr (inl (e, new)) ↦ rw new (
            find_baseline-append other cfg.signal table (first_of_pod pod arr ts)
              (ground (arith, text_key.same_iff wl other)))
        | inr (inr (old, e, new)) ↦ rw new (
            find_baseline-update_ne wl other cfg.signal (learned cfg np arr ts old) table
              (λ b. refl) h)
      ]

  -- An update leaves the thresholds of the other workloads as they are.
  pub update_baseline_other :
      (pod other : String) (arr : List R) (ts : R) (table : List (Baseline R))
      → other ≢ stable_workload pod
      → baseline_threshold cfg other (update_baseline cfg np pod arr ts table)
        ≡ baseline_threshold cfg other table
  unfolding baseline_threshold
  update_baseline_other pod other arr ts table h =
      rw (find_baseline-update_other pod other arr ts table h, baseline_threshold)

  -- A pass over any pods leaves the row and the threshold of a workload as they are, if the sustained level of each of
  -- its own pods in the pass is above that threshold, whatever the pods of other workloads do: a storm is not learned,
  -- and the next pass measures against the same threshold.
  pub update_baselines_storm :
      (wl : String) (thr ts : R) (vectors : Vectors R) (table : List (Baseline R))
      → baseline_threshold cfg wl table ≡ some thr
      → All (λ pv. stable_workload pv.0 ≡ wl → f.lt thr (np.percentile_90 pv.1) ≡ true) vectors
      → (find_baseline wl cfg.signal (update_baselines cfg np vectors ts table)
          ≡ find_baseline wl cfg.signal table)
        × (baseline_threshold cfg wl (update_baselines cfg np vectors ts table) ≡ some thr)
  unfolding update_baselines
  update_baselines_storm wl thr ts [] table mature storms = (refl, mature)
  update_baselines_storm wl thr ts ((pod, arr) ∷ vectors) table mature storms =
      elim (Bool-cases (stable_workload pod == wl)) [
        | inl own ↦
            let same = (text_key.same_iff (stable_workload pod) wl).0 own in
            let unlearned =
              update_baseline_storm pod arr ts thr table
                (subst (λ w. baseline_threshold cfg w table ≡ some thr) (sym same) mature)
                (storms.0 same) in
            rw unlearned (update_baselines_storm wl thr ts vectors table mature storms.1)
        | inr foreign ↦
            let ne : wl ≢ stable_workload pod = λ e.
              absurd
                (cc (rw ((text_key.same_iff (stable_workload pod) wl).1 (sym e)) at foreign)) in
            let new = update_baseline cfg np pod arr ts table in
            let (row, thr_after) =
              update_baselines_storm wl thr ts vectors new
                (update_baseline_other pod wl arr ts table ne ∙ mature) storms.1 in
            (row ∙ find_baseline-update_other pod wl arr ts table ne, thr_after)
      ]

  -- The windows of one pod, one after the other.
  pub learn : String → R → List (List R) → List (Baseline R) → List (Baseline R)
  learn pod ts [] table = table
  learn pod ts (arr ∷ windows) table =
      learn pod ts windows (update_baseline cfg np pod arr ts table)

  -- How many windows the row of a workload has learned.
  abbrev windows_of : Option (Baseline R) → ℕ
  windows_of none = 0
  windows_of (some b) = b.n

  abbrev learned_windows : String → List (Baseline R) → ℕ
  learned_windows wl table = windows_of (find_baseline wl cfg.signal table)

  learned_windows-update :
      (pod : String) (arr : List R) (ts : R) (table : List (Baseline R))
      → learned_windows (stable_workload pod) (update_baseline cfg np pod arr ts table)
        ≤ learned_windows (stable_workload pod) table + 1
  learned_windows-update pod arr ts table =
      let wl = stable_workload pod in
      elim (update_baseline-cases pod arr ts table) [
        | inl e ↦ rw e (omega arith)
        | inr (inl (e, new)) ↦
            rw
              (
                new,
                e,
                find_baseline-append_self wl cfg.signal table (first_of_pod pod arr ts)
                    (ground
                      (arith, text_key.same_iff wl wl, text_key.same_iff cfg.signal cfg.signal))
                    e,
              )
              (omega arith)
        | inr (inr (old, e, new)) ↦
            rw
              (
                new,
                e,
                find_baseline-update_self wl cfg.signal (learned cfg np arr ts old) table
                    (λ b. refl) old e,
              )
              (omega arith)
      ]

  learned_windows-learn :
      (pod : String) (ts : R) (windows : List (List R)) (table : List (Baseline R))
      → learned_windows (stable_workload pod) (learn pod ts windows table)
        ≤ learned_windows (stable_workload pod) table + length windows
  unfolding learn
  learned_windows-learn pod ts [] table = omega arith
  learned_windows-learn pod ts (arr ∷ windows) table = omega (
    arith,
    learned_windows-update pod arr ts table,
    learned_windows-learn pod ts windows (update_baseline cfg np pod arr ts table),
  )

  pub baseline_threshold-immature :
      (pod : String) (ts : R) (windows : List (List R)) (table : List (Baseline R))
      → find_baseline (stable_workload pod) cfg.signal table ≡ none
      → length windows < cfg.base_min_n
      → baseline_threshold cfg (stable_workload pod) (learn pod ts windows table) ≡ none
  unfolding baseline_threshold
  baseline_threshold-immature pod ts windows table new few =
      let start : learned_windows (stable_workload pod) table ≡ 0 = rw new in
      let after = learn pod ts windows table in
      let most : learned_windows (stable_workload pod) after < cfg.base_min_n =
        omega (arith, learned_windows-learn pod ts windows table) in
      ground arith
