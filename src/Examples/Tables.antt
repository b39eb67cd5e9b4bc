-- ===== src/Examples/Tables.antt =====
-- The theorems on the tables of the memory, at concrete rows.
use abb_accelerator_submissi.Prelude.{
  ◌≡◌, ◌+◌, refl, true, none, some, [], ◌∷◌, All, arith, ◌≼◌, ◌⊎◌, text_key,
}
use abb_accelerator_submissi.Thousandths.{above, thousandths_float, Thousandths-IsRounded}
use abb_accelerator_submissi.Workload.{stable_workload}
use abb_accelerator_submissi.Pipeline.Silence.{silent}
use abb_accelerator_submissi.Events.{Vectors}
use abb_accelerator_submissi.Memory.{Row, RowKey, find_row}
use abb_accelerator_submissi.Memory.Bounds.{IsBounded}
use abb_accelerator_submissi.Memory.Hysteresis.{after, count_hits, after_floor, after-visible}
use abb_accelerator_submissi.Baselines.{
  Baseline, baseline_threshold, update_baselines, find_baseline,
}
use abb_accelerator_submissi.Baselines.Learning.{
  update_baselines_storm, baseline_threshold-immature, learn,
}
use abb_accelerator_submissi.Cases.{Promoted, promote_case}
use abb_accelerator_submissi.Cases.Promotion.{IsRecorded, promote_case-IsRecorded}
use abb_accelerator_submissi.Render.{served_edges}
use abb_accelerator_submissi.Render.Held.{IsAlive, served_edges-IsAlive}
use abb_accelerator_submissi.Store.{remember}
use abb_accelerator_submissi.Store.Observing.{IsSound, remember-IsSound}
use abb_accelerator_submissi.Examples.{
  T, plant_np, plant_cfg, plant_witness, plant_row, plant_vectors, plant_archive, plant_memory,
  plant_verdict, plant_digest, row-IsBounded, cfg-IsFractional, history,
}

abbrev plant_key : RowKey
plant_key = ("analytics", "vision", "psi")

after_floor_example :
    (new : Row T) × (find_row plant_key (after plant_cfg history (plant_row ∷ [])) ≡ some new)
    × (plant_row.base_conf ≼ new.base_conf)
    × IsBounded new
    × (new.first_seen_ts ≡ plant_row.first_seen_ts)
    × (new.hits ≡ 4 + count_hits plant_cfg plant_key history)
unfolding find_row
after_floor_example =
    after_floor plant_cfg Thousandths-IsRounded cfg-IsFractional history plant_key (plant_row ∷ [])
      plant_row refl row-IsBounded

after-visible_example :
    (new : Row T) × (find_row plant_key (after plant_cfg history (plant_row ∷ [])) ≡ some new)
    × (new.visible ≡ true)
unfolding find_row
after-visible_example =
    after-visible plant_cfg Thousandths-IsRounded cfg-IsFractional history plant_key
      (plant_row ∷ []) plant_row refl row-IsBounded refl refl

remember-IsSound_example :
    IsSound
      (remember plant_cfg plant_np plant_digest plant_verdict plant_vectors
        (some plant_witness)
        (above 9)
        plant_memory).1
unfolding find_row
remember-IsSound_example =
    remember-IsSound Thousandths-IsRounded plant_cfg cfg-IsFractional plant_np plant_digest
      plant_verdict plant_vectors (some plant_witness) (above 9) plant_memory
      (record {
        keyed = (refl, tt);
        bounded = (row-IsBounded, tt);
        linked = record { ids = tt; stored = tt };
      })

promote_case-IsRecorded_example :
    (promote_case plant_cfg plant_digest plant_verdict (above 9) plant_archive
      ≡ (none, plant_archive))
    ⊎ ((p : Promoted T) × ((promote_case plant_cfg plant_digest plant_verdict
            (above 9)
            plant_archive).0
          ≡ some p)
        × IsRecorded plant_verdict plant_archive p
            (promote_case plant_cfg plant_digest plant_verdict (above 9) plant_archive).1)
promote_case-IsRecorded_example =
    promote_case-IsRecorded plant_cfg plant_digest plant_verdict (above 9) plant_archive

abbrev plant_baseline : Baseline T
plant_baseline = record {
  workload = "vision";
  signal = "psi";
  median = above 100;
  mad = above 10;
  n = 5;
  updated_ts = above 0;
}

abbrev storm_vectors : Vectors T
storm_vectors =
    ("vision-1-b", above 900 ∷ [])
    ∷ ("analytics-1-a", above 10 ∷ [])
    ∷ ("vision-1-c", above 800 ∷ [])
    ∷ []

update_baselines_storm_example :
    (find_baseline "vision" plant_cfg.signal
        (update_baselines plant_cfg plant_np storm_vectors (above 9) (plant_baseline ∷ []))
      ≡ find_baseline "vision" plant_cfg.signal (plant_baseline ∷ []))
    × (baseline_threshold plant_cfg "vision"
          (update_baselines plant_cfg plant_np storm_vectors (above 9) (plant_baseline ∷ []))
        ≡ some (above 180))
unfolding baseline_threshold stable_workload find_baseline
update_baselines_storm_example =
    update_baselines_storm plant_cfg plant_np "vision" (above 180) (above 9) storm_vectors
      (plant_baseline ∷ []) refl ((λ e. refl), ((λ e. absurd (cc e)), ((λ e. refl), tt)))

baseline_threshold-immature_example :
    baseline_threshold plant_cfg (stable_workload "vision-1-b") (
      learn plant_cfg plant_np "vision-1-b" (above 9) ((above 900 ∷ []) ∷ (above 900 ∷ []) ∷ []) [])
    ≡ none
unfolding find_baseline
baseline_threshold-immature_example =
    baseline_threshold-immature plant_cfg plant_np "vision-1-b" (above 9)
      ((above 900 ∷ []) ∷ (above 900 ∷ []) ∷ []) [] refl (omega arith)

served_edges-IsAlive_example :
    All
      (IsAlive plant_cfg ("analytics-2-x" ∷ "vision-2-y" ∷ []))
      (served_edges plant_cfg
        (above 9000)
        (silent plant_vectors)
        ("analytics-2-x" ∷ "vision-2-y" ∷ [])
        (plant_row ∷ [])).1
served_edges-IsAlive_example =
    served_edges-IsAlive plant_cfg (above 9000) (silent plant_vectors)
      ("analytics-2-x" ∷ "vision-2-y" ∷ []) (plant_row ∷ [])
