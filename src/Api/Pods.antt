-- ===== src/Api/Pods.antt =====
-- api/main.py, the telemetry of the pods: `pods` and `signal`, from the window of the aggregator, and `pod_resources`,
-- from Prometheus. An answer is an argument, `none` where the fetch raises; `flagged` has the workloads of the
-- findings that the engine serves, and is empty where it serves none.
use abb_accelerator_submissi.Prelude.{
  ℕ, Bool, false, not, ◌&&◌, Option, none, some, List, [], ◌∷◌, map, String, if◌then◌else◌, Float,
  nought, ◌==◌, text_key, contains, lookup, put, sort,
}
use abb_accelerator_submissi.Workload.{stable_workload}
use abb_accelerator_submissi.Cases.{link_key}
use abb_accelerator_submissi.Window.{Sample, key_parts, last_part}
use abb_accelerator_submissi.Api.Metrics.{Sums, prom_pod_map}
use abb_accelerator_submissi.Api.Advice.{Usage, all_keys}

-- The row of a pod in `pod_resources`.
pub record Share (R : Type 0) : Type 0 where
  pub request : Option R
  pub limit : Option R
  pub usage : R

pub record PodRow (R : Type 0) : Type 0 where
  pub namespace : String
  pub pod : String
  pub workload : String
  pub cpu : Share R
  pub mem : Share R

-- A row of `pods`.
pub record Heat (R : Type 0) : Type 0 where
  pub workload : String
  pub namespace : String
  pub signal : String
  pub value : R
  pub anomalous : Bool

-- What `signal` answers: the points, or an error with its code.
pub data Chart (R : Type 0) : Type 0 where
  points : List (Sample R) → Chart R
  missing : ℕ → Chart R

-- The namespace, the workload and the signal of a key "ns/pod/signal" of three or more parts.
unfoldable pub key_of : String → Option (String × String × String)
unfolding key_parts
key_of key = elim (key_parts key) [
  | [] ↦ none
  | ns ∷ [] ↦ none
  | ns ∷ pod ∷ [] ↦ none
  | ns ∷ pod ∷ p ∷ parts ↦ some (ns, stable_workload pod, last_part p parts)
]

abbrev pub last_sample : {R : Type 0} → Sample R → List (Sample R) → Sample R
last_sample x [] = x
last_sample x (y ∷ ys) = last_sample y ys

module _ {R : Type 0} where
  -- A series that counts: its key, and the value of its last sample.
  unfoldable pub level :
      List String → String × List (Sample R) → Option ((String × String × String) × R)
  unfolding key_of
  level signals (key, []) = none
  level signals (key, x ∷ xs) = elim (key_of key) [
    | none ↦ none
    | some k ↦ if contains signals k.2 then some (k, (last_sample x xs).value) else none
  ]

  unfoldable pub find_series : String → String → List (String × List (Sample R)) → Chart R
  unfolding key_of
  find_series pod signal [] = Chart.missing 404
  find_series pod signal ((key, samples) ∷ window) =
      let rest = find_series pod signal window in
      elim samples [
        | [] ↦ rest
        | x ∷ xs ↦ elim (key_of key) [
          | none ↦ rest
          | some k ↦ if k.2 == signal && k.1 == pod then Chart.points (x ∷ xs) else rest
        ]
      ]

  -- `signal`: the first series of the workload and the signal.
  unfoldable pub signal : String → String → Option (List (String × List (Sample R))) → Chart R
  unfolding find_series
  signal pod name none = Chart.missing 503
  signal pod name (some window) = find_series pod name window

abbrev pub Rows : Type 0 → Type 0
Rows R = List (String × Heat R)

module _ {R : Type 0} ⦃f : Float R⦄ where
  -- `out.setdefault(w, …)`
  abbrev pub row_of : String × String × String → Rows R → Heat R
  row_of k out = elim (lookup k.1 out) [
    | none ↦ record {
      workload = k.1;
      namespace = k.0;
      signal = k.2;
      value = nought;
      anomalous = false;
    }
    | some cur ↦ cur
  ]

  -- The row after a series: the hottest signal of the workload.
  unfoldable pub heated : List String → String × String × String → R → Heat R → Heat R
  heated flagged k val cur = record cur {
    value = if f.le cur.value val then f.round val 4 else cur.value;
    signal = if f.le cur.value val then k.2 else cur.signal;
    anomalous = contains flagged k.1;
  }

  unfoldable pub heat_all :
      List String → List String → Rows R → List (String × List (Sample R)) → Rows R
  unfolding level heated put
  heat_all signals flagged out [] = out
  heat_all signals flagged out (s ∷ window) = elim (level signals s) [
    | none ↦ heat_all signals flagged out window
    | some (k, val) ↦
        heat_all signals flagged (put k.1 (heated flagged k val (row_of k out)) out) window
  ]

  abbrev pub not_cooler : Heat R → Heat R → Bool
  not_cooler a b = not (f.lt (f.neg b.value) (f.neg a.value))

  -- `pods`: without a window the answer is 503, which is `none`.
  unfoldable pub pods :
      List String → List String → Option (List (String × List (Sample R))) → Option (List (Heat R))
  unfolding heat_all sort
  pods signals flagged none = none
  pods signals flagged (some window) =
      some (sort not_cooler (map (λ x. x.1) (heat_all signals flagged [] window)))

  -- `pod_resources`: no rows where Prometheus has none.
  abbrev pub share_of : String × String → Sums R → Sums R → Sums R → ℕ → Share R
  share_of k req lim usage digits = record {
    request = lookup k req;
    limit = lookup k lim;
    usage = f.round (elim (lookup k usage) [ none ↦ nought | some v ↦ v ]) digits;
  }

  unfoldable pub pod_resources : Usage R → List (PodRow R)
  unfolding lookup all_keys
  pod_resources u =
      map
        (λ k. record {
          namespace = k.0;
          pod = k.1;
          workload = stable_workload k.1;
          cpu =
              share_of k (prom_pod_map u.cpu_req) (prom_pod_map u.cpu_lim) (prom_pod_map u.cpu_use)
                4;
          mem =
              share_of k (prom_pod_map u.mem_req) (prom_pod_map u.mem_lim) (prom_pod_map u.mem_use)
                0;
        })
        (all_keys prom_pod_map u)
