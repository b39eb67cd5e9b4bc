-- ===== src/Examples/Numbers.antt =====
-- The theorems on the numbers of the API and on the report of a run, at concrete answers.
use abb_accelerator_submissi.Prelude.{
  ℕ, ◌≡◌, refl, true, some, none, List, [], ◌∷◌, String, All, lookup, length, IsSorted,
}
use abb_accelerator_submissi.Thousandths.{
  above, thousandths_float, Thousandths-IsRounded, Thousandths-IsOrdered,
}
use abb_accelerator_submissi.Workload.{stable_workload}
use abb_accelerator_submissi.Cases.{link_key}
use abb_accelerator_submissi.Window.{Sample}
use abb_accelerator_submissi.Api.Narrative.{Format}
use abb_accelerator_submissi.Api.Metrics.{Series, prom_sums}
use abb_accelerator_submissi.Api.Sums.{summed, values_at, lookup-prom_sums}
use abb_accelerator_submissi.Api.Advice.{Usage, Stalls, Thresholds, card_le, recommendations}
use abb_accelerator_submissi.Api.Cards.{IsDue, recommendations-IsDue}
use abb_accelerator_submissi.Api.Pods.{Heat, not_cooler, pods}
use abb_accelerator_submissi.Api.Hottest.{IsCharted, IsSourced, IsMarked, pods-IsCharted}
use abb_accelerator_submissi.Soak
use abb_accelerator_submissi.Soak.Run.{no_files, write_all, report}
use abb_accelerator_submissi.Soak.Totals.{IsCounted, files_of, report-IsCounted}
use abb_accelerator_submissi.Examples.{T}

abbrev series_of : ℕ → Series T
series_of n = record {
  namespace = some "factory-edge";
  pod = some "vision-1-b";
  value = some (above n);
}

abbrev result : List (Series T)
result = series_of 300 ∷ series_of 200 ∷ []

lookup-prom_sums_example :
    lookup ("factory-edge", "vision") (prom_sums stable_workload (some result))
    ≡ summed none (values_at stable_workload ("factory-edge", "vision") result)
lookup-prom_sums_example = lookup-prom_sums stable_workload ("factory-edge", "vision") (some result)

abbrev plain : Format T
plain = record { nat = λ n. "3"; int = λ x. "20"; dumps = λ sig. "sig" }

abbrev thresholds : Thresholds T
thresholds = record { reclaim_frac = above 500; resize_frac = above 850 }

abbrev usage : Usage T
usage = record {
  cpu_req = some (series_of 4000 ∷ []);
  cpu_lim = some (series_of 5000 ∷ []);
  cpu_use = some result;
  mem_req = none;
  mem_lim = some (series_of 520 ∷ []);
  mem_use = some result;
}

abbrev stall : Stalls T
stall = record { io = some result; cpu = none; memory = none }

recommendations-IsDue_example :
    All
      (IsDue thresholds usage)
      (recommendations plain (λ x. "1") thresholds usage stall).right_sizing
    × IsSorted card_le (recommendations plain (λ x. "1") thresholds usage stall).right_sizing
recommendations-IsDue_example =
    recommendations-IsDue plain (λ x. "1") thresholds Thousandths-IsOrdered usage stall

abbrev window : List (String × List (Sample T))
window =
    ("factory-edge/vision-1-b/psi_io", record { ts = "t"; value = above 400 } ∷ [])
    ∷ ("factory-edge/vision-1-b/psi_cpu", record { ts = "t"; value = above 700 } ∷ [])
    ∷ []

pods-IsCharted_example :
    (rows : List (Heat T)) × (pods ("psi_io" ∷ "psi_cpu" ∷ []) ("vision" ∷ []) (some window)
      ≡ some rows)
    × All (IsCharted ("psi_io" ∷ "psi_cpu" ∷ []) rows) window
    × All (IsSourced ("psi_io" ∷ "psi_cpu" ∷ []) window) rows
    × All (IsMarked ("vision" ∷ [])) rows
    × IsSorted not_cooler rows
pods-IsCharted_example =
    pods-IsCharted Thousandths-IsRounded (λ x. refl) refl ("psi_io" ∷ "psi_cpu" ∷ [])
      ("vision" ∷ []) window

abbrev record_of : String → ℕ → Soak.Sample T
record_of root epoch = record {
  t = "t";
  epoch = epoch;
  phase = "S1";
  cycle = "1";
  ok = true;
  root = root;
  root_score = none;
  onset_s = none;
  n_edges = some 1;
  n_findings = some 1;
  n_incipient = some 0;
  active = none;
  pods = none;
  top_victim = "";
  evidence = [];
  oom_pod = "";
  oom_eta_s = none;
  narrative = "";
  narr_source = "";
}

abbrev records : List (Soak.Sample T)
records = record_of "" 60 ∷ record_of "cooling-monitor" 120 ∷ []

report-IsCounted_example :
    (write_all records no_files ≡ files_of records)
    × ((report (λ t. "t") records).summary.n_samples ≡ length records)
    × (length (report (λ t. "t") records).series ≡ length records)
    × All
        (λ e. IsCounted e.0 (report (λ t. "t") records) e.1)
        (report (λ t. "t") records).per_scenario
report-IsCounted_example = report-IsCounted (λ t. "t") records
