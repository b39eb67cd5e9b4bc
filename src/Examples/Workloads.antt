-- ===== src/Examples/Workloads.antt =====
-- The theorems on the watched workloads and the console, at concrete data.
use abb_accelerator_submissi.Prelude.{
  ◌≡◌, ◌≤◌, ◌+◌, refl, sym, ap, inl, true, false, none, some, List, [], ◌∷◌, String, length, arith,
  Option,
}
use abb_accelerator_submissi.Thousandths.{above, thousandths_float}
use abb_accelerator_submissi.Cooling.{Settings, Cooling, Event, Phase, run, started, do_post}
use abb_accelerator_submissi.Cooling.Beats.{IsTidy, arms, one_if, is_storming}
use abb_accelerator_submissi.Cooling.Runs.{run-IsTidy}
use abb_accelerator_submissi.Cooling.Storms.{run-storms}
use abb_accelerator_submissi.Vision.{feed, empty}
use abb_accelerator_submissi.Vision.Cache.{IsFed, feed-IsFed}
use abb_accelerator_submissi.Api.Scenarios.{Outcome, Job, Cluster, trigger}
use abb_accelerator_submissi.Api.Console.{IsCluster, IsDone, trigger-IsDone}
use abb_accelerator_submissi.Examples.{T}

abbrev plant_settings : Settings T
plant_settings = record {
  dir = "/shared/cooling";
  fio_size = "512m";
  fio_jobs = "6";
  fio_runtime = "120";
  fio_fsync = "1";
  fio_direct = "1";
  journal_lines = 10;
  journal_period_s = above 10000;
  journal_fsync_every = 0;
}

abbrev line : T → String
line now = "zone=A"

abbrev day : List (Event T)
day =
    Event.round (above 10000)
    ∷ Event.post "/flush/"
    ∷ Event.round (above 11000)
    ∷ Event.round (above 12000)
    ∷ Event.post "/status"
    ∷ Event.round (above 13000)
    ∷ Event.round (above 14000)
    ∷ Event.round (above 15000)
    ∷ []

run-IsTidy_example :
    (s : Cooling T) × (run plant_settings line day (started true []) ≡ some s)
    × IsTidy plant_settings (one_if true + arms day) s
run-IsTidy_example = run-IsTidy plant_settings line day true []

run-storms_example :
    (s : Cooling T) × (run plant_settings line day (started true []) ≡ some s)
    × (0 + (1 + one_if (is_storming Phase.beating)) ≤ length s.ran)
run-storms_example =
    run-storms plant_settings line day 1 (started true [])
      (record { synced = refl; short = inl refl; flagged = tt; paid = omega arith }) refl
      (omega arith)

feed-IsFed_example :
    IsFed
      (λ n. n)
      false
      (above 100 ∷ above 300000 ∷ [])
      (feed (λ n. n) false (above 100 ∷ above 300000 ∷ []) empty)
feed-IsFed_example = feed-IsFed (λ n. n) false (above 100 ∷ above 300000 ∷ [])

-- A plant of one Job, one CronJob, the flag of the leak and the cooling monitor, whose calls answer at once.
record Plant : Type 0 where
  job : Option (Job String)
  leak : String
  cooling : Cooling T

abbrev clear : Plant → Outcome Unit × Plant
clear w = elim w.job [
  | none ↦ (Outcome.http_error 404, w)
  | some j ↦ (Outcome.answered tt, record w { job = none })
]

abbrev look : Plant → Outcome Unit × Plant
look w = elim w.job [ none ↦ (Outcome.http_error 404, w) | some j ↦ (Outcome.answered tt, w) ]

abbrev plant_cluster : Cluster Plant String
plant_cluster = record {
  delete_job = clear;
  get_job = look;
  get_cron_job = λ w. (Outcome.answered "archive", w);
  create_job = λ j w. (Outcome.answered tt, record w { job = some j });
  patch_leak = λ v w. (Outcome.answered tt, record w { leak = v });
  post_flush = λ w. (Outcome.answered tt, record w { cooling = (do_post "/flush" w.cooling).1 });
}

abbrev answer_of : Outcome String → Option String
answer_of (Outcome.answered s) = some s
answer_of _ = none

plant-IsCluster : IsCluster plant_cluster
unfolding do_post
plant-IsCluster = record {
  job_of = λ w. w.job;
  template_of = λ w. some "archive";
  leak_of = λ w. w.leak;
  is_armed = λ w. w.cooling.flag;
  created = λ j w w' h. (ap (λ r. r.1.job) (sym h), refl);
  read = λ spec w w' h. ap (λ r. answer_of r.0) h;
  patched = λ v w w' h. ap (λ r. r.1.leak) (sym h);
  flushed = λ w w' h. ap (λ r. r.1.cooling.flag) (sym h);
}

abbrev quiet_plant : Plant
quiet_plant = record { job = none; leak = "false"; cooling = started false [] }

trigger-IsDone_example :
    IsDone plant_cluster plant-IsCluster "S2" quiet_plant
      (trigger plant_cluster "S2" quiet_plant).0
      (trigger plant_cluster "S2" quiet_plant).1
trigger-IsDone_example = trigger-IsDone plant_cluster plant-IsCluster "S2" quiet_plant
