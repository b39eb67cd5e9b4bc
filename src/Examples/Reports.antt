-- ===== src/Examples/Reports.antt =====
-- The theorems on the API and the reports of a run, at concrete data.

use abb_accelerator_submissi.Prelude.{
  ℕ, ◌≡◌, ◌≤◌, refl, true, none, some, List, [], ◌∷◌, All, String, length, IsSorted,
}
use abb_accelerator_submissi.Thousandths.{above, thousandths_float, Thousandths-IsRounded}
use abb_accelerator_submissi.Api.Flows.{Flow, not_fewer, parse_caretta}
use abb_accelerator_submissi.Api.Topology.{IsShown, parse_caretta-IsShown}
use abb_accelerator_submissi.Api.Narrative.{Verdict, Format, narrative}
use abb_accelerator_submissi.Api.Narration.{Asked, IsAllowed, narrative-IsAllowed}
use abb_accelerator_submissi.Soak.{Sample, events}
use abb_accelerator_submissi.Soak.Notable.{AreOnce, events-AreOnce}
use abb_accelerator_submissi.Soak.Rollup.{dominant}
use abb_accelerator_submissi.Soak.Dominant.{count, dominant-IsMost}
use abb_accelerator_submissi.Ingest.{Message, Ingest, Write, empty, on_msg, take_one, flush}
use abb_accelerator_submissi.Ingest.Transfer.{Run, IsInOrder, Run-IsInOrder}
use abb_accelerator_submissi.Examples.{T}

abbrev plant_flow : ℕ → Flow T
plant_flow n = record {
  client_name = some "analytics";
  server_name = some "timescaledb";
  client_namespace = "factory-edge";
  server_namespace = "factory-data";
  server_port = some "5432";
  value = some (above n);
}

abbrev plant_flows : List (Flow T)
plant_flows = plant_flow 4000 ∷ plant_flow 9000 ∷ plant_flow 2000 ∷ []

parse_caretta-IsShown_example :
    All (IsShown "factory" (parse_caretta "factory" plant_flows)) plant_flows
    × IsSorted not_fewer (parse_caretta "factory" plant_flows)
parse_caretta-IsShown_example =
    parse_caretta-IsShown Thousandths-IsRounded (λ x. refl) "factory" plant_flows

abbrev plain : Format T
plain = record { nat = λ n. "3"; int = λ x. "20"; dumps = λ sig. "sig" }

abbrev storm : Verdict T
storm = record {
  root = record { pod = "cooling-monitor"; score = above 900 } ∷ [];
  edges =
      record {
        src = "cooling-monitor";
        dst = "timescaledb";
        r = above 800;
        evidence = "pvc" ∷ [];
        state = some "active";
      }
      ∷ [];
  blast_radius = record { pod = "timescaledb"; eta_s = above 20000 } ∷ [];
  incipient = [];
  signal = some "psi_io";
  pods = some 3;
  case_register = some "recurrence";
}

-- The model answered once; now it is silent.
narrative-IsAllowed_example :
    IsAllowed plain
      ((storm, none) ∷ (storm, some "The disk is busy.") ∷ [])
      storm
      (narrative plain storm none (narrative plain storm (some "The disk is busy.") []).1).0
narrative-IsAllowed_example =
    narrative-IsAllowed plain ((storm, some "The disk is busy.") ∷ [])
      (narrative plain storm (some "The disk is busy.") []).1 storm none
      (Asked.asked [] [] storm (some "The disk is busy.") Asked.fresh)

abbrev plant_sample : ℕ → String → Sample T
plant_sample epoch cycle = record {
  t = "now";
  epoch = epoch;
  phase = "S1";
  cycle = cycle;
  ok = true;
  root = "cooling-monitor";
  root_score = some (above 900);
  onset_s = none;
  n_edges = some 2;
  n_findings = some 1;
  n_incipient = some 0;
  active = some 1;
  pods = some 3;
  top_victim = "timescaledb";
  evidence = "pvc" ∷ [];
  oom_pod = "vision-qc";
  oom_eta_s = some (above 60000);
  narrative = "";
  narr_source = "";
}

abbrev plant_samples : List (Sample T)
plant_samples = plant_sample 10 "1" ∷ plant_sample 20 "1" ∷ plant_sample 90 "2" ∷ []

events-AreOnce_example : (length (events plant_samples) ≤ 40) × AreOnce (events plant_samples)
events-AreOnce_example = events-AreOnce plant_samples

abbrev plant_roots : List String
plant_roots = "log-archiver" ∷ "cooling-monitor" ∷ "cooling-monitor" ∷ []

dominant-IsMost_example :
    ((dominant plant_roots).1 ≡ count (dominant plant_roots).0 plant_roots)
    × ((r : String) → count r plant_roots ≤ (dominant plant_roots).1)
dominant-IsMost_example = dominant-IsMost plant_roots

abbrev reading : Message T
reading = record { ts = above 1000; topic = "sensors/1"; payload = "20" }

-- A reading is accepted, taken and written; a second one waits.
abbrev one_taken : Ingest T
one_taken = take_one (on_msg reading empty)

abbrev one_waits : Ingest T
one_waits = on_msg reading (flush true one_taken)

one_waits-Run : Run (reading ∷ reading ∷ []) one_waits
unfolding on_msg take_one flush
one_waits-Run =
    Run.accepted (reading ∷ []) (flush true one_taken) reading
      (Run.wrote (reading ∷ []) one_taken (flush true one_taken)
        (Run.wrote (reading ∷ []) (on_msg reading empty) one_taken
          (Run.accepted [] empty reading Run.begin refl)
          (Write.started (on_msg reading empty) refl))
        (Write.flushed true one_taken))
      refl

Run-IsInOrder_example : IsInOrder (reading ∷ reading ∷ []) one_waits
Run-IsInOrder_example = Run-IsInOrder (reading ∷ reading ∷ []) one_waits one_waits-Run
