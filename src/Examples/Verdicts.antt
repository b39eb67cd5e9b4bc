-- ===== src/Examples/Verdicts.antt =====
-- The theorems on passes, the gate, the early warnings and the names, at concrete data.

use abb_accelerator_submissi.Prelude.{
  List, String, ◌≡◌, refl, none, some, [], ◌∷◌, All, IsSorted, text_key,
}
use abb_accelerator_submissi.Thousandths.{
  above, thousandths_float, Thousandths-IsOrdered, Thousandths-IsRounded,
}
use abb_accelerator_submissi.Workload.{stable_workload}
use abb_accelerator_submissi.Workload.Names.{stable_workload_pod}
use abb_accelerator_submissi.Gate.Acceptance.{edge_for}
use abb_accelerator_submissi.Gate.Clauses.{IsWitnessed, accept_edge-IsWitnessed}
use abb_accelerator_submissi.Lag.{Profile, adjacent_support}
use abb_accelerator_submissi.Gate.{accept_edge, out_of_order, kinds}
use abb_accelerator_submissi.Events.{center, deviates, raw_onsets, findings_of}
use abb_accelerator_submissi.Events.Gating.{IsDisturbed, findings_of-IsDisturbed}
use abb_accelerator_submissi.Forecast.{incipient_findings, not_later}
use abb_accelerator_submissi.Forecast.Warnings.{IsEarned, incipient_findings-IsEarned}
use abb_accelerator_submissi.Pipeline.{scene_of, Verdict, edges_of, run_pass}
use abb_accelerator_submissi.Pipeline.Even.{AreAsked, run_pass-even_total}
use abb_accelerator_submissi.Pipeline.Silence.{silent, run_pass-IsQuiet}
use abb_accelerator_submissi.Pipeline.Coupling.{IsCoupled, edges_of-IsCoupled}
use abb_accelerator_submissi.Pipeline.Edges.{IsSimple, edges_of-IsSimple}
use abb_accelerator_submissi.Examples.{
  T, plant_stats, plant_np, damped, plant_witness, plant_vectors, plant_options, plant_scene,
  plant-IsExact, plant-IsCorrelation,
}

run_pass-even_total_example :
    AreAsked (
      scene_of plant_stats plant_witness plant_np plant_options plant_vectors
        (center plant_witness (raw_onsets plant_np plant_options plant_vectors))
        (findings_of plant_np plant_options plant_vectors
          (center plant_witness (raw_onsets plant_np plant_options plant_vectors))
          (raw_onsets plant_np plant_options plant_vectors)))
    × ((v : Verdict T) × (run_pass plant_stats plant_witness plant_np plant_options plant_vectors
          ≡ some v))
run_pass-even_total_example =
    run_pass-even_total Thousandths-IsRounded damped plant_stats plant_witness plant-IsExact
      plant-IsCorrelation plant_np plant_options plant_vectors 2 (refl, (refl, tt)) (refl, tt)

run_pass-IsQuiet_example :
    run_pass plant_stats plant_witness plant_np plant_options plant_vectors
    ≡ some (silent plant_vectors)
unfolding deviates
run_pass-IsQuiet_example =
    run_pass-IsQuiet plant_stats plant_witness plant_np plant_options plant_vectors
      (refl, (refl, tt))

edges_of-IsCoupled_example :
    All
      (IsCoupled plant_stats plant_witness)
      (edges_of plant_stats plant_witness plant_options plant_scene)
edges_of-IsCoupled_example = edges_of-IsCoupled plant_stats plant_witness plant_options plant_scene

edges_of-IsSimple_example : IsSimple (edges_of plant_stats plant_witness plant_options plant_scene)
edges_of-IsSimple_example =
    edges_of-IsSimple plant_stats plant_witness plant_options plant_scene
      ("analytics-1-a", above 900 ∷ above 900 ∷ []) [] refl

abbrev plant_profile : Profile T
plant_profile = (0, above 300) ∷ (5, above 800) ∷ (15, above 500) ∷ []

abbrev plant_onsets : List (String × T)
plant_onsets = ("analytics-1-a", above 100000) ∷ ("vision-1-b", above 105000) ∷ []

accept_edge-IsWitnessed_example :
    IsWitnessed "analytics-1-a" "vision-1-b" (above 800) 5 plant_profile plant_witness plant_onsets
    × (edge_for "analytics-1-a" "vision-1-b" (above 800) 5 plant_witness plant_onsets
        ≡ edge_for "analytics-1-a" "vision-1-b" (above 800) 5 plant_witness plant_onsets)
unfolding accept_edge adjacent_support out_of_order kinds
accept_edge-IsWitnessed_example =
    (accept_edge-IsWitnessed Thousandths-IsOrdered "analytics-1-a" "vision-1-b" (above 800) 5
        plant_profile plant_witness plant_onsets
        (edge_for "analytics-1-a" "vision-1-b" (above 800) 5 plant_witness plant_onsets)).0
      refl

incipient_findings-IsEarned_example :
    All
      (IsEarned Thousandths-IsRounded plant_np
        (above 1800000)
        (above 700)
        12
        plant_vectors
        (("vision-1-b", above 100) ∷ []))
      (incipient_findings plant_np
        (above 1800000)
        (above 700)
        12
        plant_vectors
        (("vision-1-b", above 100) ∷ []))
    × IsSorted (not_later plant_np (above 1800000) (above 700) 12) (
        incipient_findings plant_np
          (above 1800000)
          (above 700)
          12
          plant_vectors
          (("vision-1-b", above 100) ∷ []))
incipient_findings-IsEarned_example =
    incipient_findings-IsEarned Thousandths-IsRounded plant_np (above 1800000) (above 700) 12
      plant_vectors (("vision-1-b", above 100) ∷ [])

findings_of-IsDisturbed_example :
    All
      (λ x. IsDisturbed plant_np plant_options plant_vectors x.pod)
      (findings_of plant_np plant_options plant_vectors none
        (raw_onsets plant_np plant_options plant_vectors))
findings_of-IsDisturbed_example = findings_of-IsDisturbed plant_np plant_options plant_vectors none

stable_workload_pod_example : stable_workload "vision-qc-7d9f-x2k" ≡ "vision-qc"
stable_workload_pod_example =
    stable_workload_pod "vision-qc" "7d9f" "x2k" (refl, (refl, (refl, (refl, tt))))
      (refl, (refl, (refl, tt)))
