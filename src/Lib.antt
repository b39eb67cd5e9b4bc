-- ===== src/Lib.antt =====
-- The correlation engine of the factory observability stack (correlation), with the parts of the API
-- (api) and of the soak recorder (soak) that work on its verdicts, and three of the watched workloads. The engine detects disturbances on pods, joins them to a causal graph
-- through physical witnesses, ranks root causes, and keeps a memory of edges, baselines and incidents.
--
-- How the parts work together. `run_pass` (correlation/engine/pipeline.py) takes the vectors of one
-- signal. CUSUM finds onsets (detectors.py); a pod whose onsets deviate from its learned threshold has
-- a finding; pairs of pods that share a resource are correlated over lags (lagcorr.py) and pass the
-- gate (gate.py); the edges give the ranking and the blast radius (ranking.py). `GraphMemory`
-- (state.py) learns from each verdict and renders it together with the edges that it holds. The loop
-- of correlation/service.py does this for each signal, every ten seconds: it puts the samples of the
-- window on one grid, makes the witness, runs the pass with the learned thresholds, and merges the
-- rendered graphs (merge.py). The API names pods by workload, tells the verdict in a sentence and draws
-- the topology; the recorder flattens verdicts to records and reports on them.
--
-- Files and the code that they model:
--   Workload       state.py: stable_workload
--   Lag            lagcorr.py
--   Gate           gate.py: Witness, accept_edge
--   Ranking        ranking.py: build_graph, _forward_impact, rank_root_causes, blast_radius
--   Detectors      detectors.py
--   Forecast       forecast.py: incipient_findings
--   Events         pipeline.py: the detection of run_pass
--   Pipeline       pipeline.py: the edges and the verdict of run_pass, _writer_edge, _edge_pref
--   Memory         state.py: edge_memory, _confirm_edge, _decay_absent_edges, _seed_structural
--   Baselines      state.py: update_baselines, baseline_threshold
--   Cases          state.py: _promote_case, _case_sim; Cases.Incident has _dominant_witness and
--                  _lead_time, Cases.Sets has _jaccard
--   Render         state.py: _render
--   Store          state.py: observe, stats, bootstrap_graph, record_model_version, record_mistake;
--                  Store.Migration has __init__, _init_schema and _migrate
--   Merge          merge.py
--   Window         correlation/service.py: build_inputs
--   Domain         correlation/service.py: _config, _witness_for
--   Service        correlation/service.py: the start and the rounds of loop; Service.Process has
--                  _db_for, the opening of the memories and do_GET
--   Api.Flows      api/main.py: _parse_caretta
--   Api.Narrative  api/main.py: narrative, its cache and its texts
--   Api.Scenarios  api/main.py: trigger, reset_scenario, _trigger_s2, _leak
--   Api.Metrics    api/main.py: _prom_map, _prom_pod_map, _gini, _fairness
--   Api.Advice     api/main.py: _rightsize, recommendations
--   Api.Pods       api/main.py: pods, signal, pod_resources
--   Ingest         workloads/telemetry-ingest/main.py: the queue and the writer
--   Cooling        workloads/cooling-monitor/main.py: the handler and the loop
--   Vision         workloads/vision-qc/main.py: the cache of frames
--   Soak           soak/record.py: cmd_append, the events of cmd_report
--   Soak.Rollup    soak/record.py: the summary of a scenario in cmd_report
--   Soak.Run       soak/record.py: the files of cmd_append, the series and the summary of cmd_report
-- Prelude has the shared names, Python's list and dictionary operations, the stable sort and the
-- interface of the floats; Thousandths is a type of numbers that has its laws; Examples runs the
-- definitions there. The child modules of a part are named for what they define or prove.
--
-- Conventions. A float is a value of any type with the record `Prelude.Float`; the laws that a theorem
-- needs are its argument `IsOrdered` or `IsRounded`, which hold of rounded arithmetic without NaN. A
-- SQLite table is the list of its rows in the order of insertion, a dictionary the list of its items,
-- a set a list. A raised exception does not occur in the modelled functions, with one exception: on vectors
-- and write vectors of different lengths `_writer_edge` asks scipy for the coefficient of lists of two
-- lengths, which raises. The model of a pass holds where they have one length, as those of build_inputs
-- have (Window.Aligned); Pipeline.Even shows that scipy is then asked of lists of one length only. The
-- version of a database file outlives the process in `recorded_version`. numpy and scipy are
-- the parameters `Lag.Stats` and `Detectors.Numpy`, SHA-1 is `digest`, the clock is an argument, and so
-- are the answers of the aggregator and of the language model; a fetch that raises is `none`. Digits and
-- JSON are the parameter `Api.Narrative.Format`. Kubernetes and the request that arms a storm are the
-- parameter `Api.Scenarios.Cluster`, and what they promise is `Api.Console.IsCluster`.
--
-- Fuel. `spread`, the loop of `_forward_impact`, has 1 + d + ... + d^5 rounds for d arcs: a walk of more
-- than five arcs of weight at most 1 carries less than the cut. `blast`, the loop of `blast_radius`,
-- has one round for each node, since a node enters its frontier once. `await_gone` has the 20 rounds of
-- the code.
--
-- Not modelled: the HTTP servers and clients, the locks, the pauses and the transactions of SQLite; the
-- endpoints of api/main.py that pass on an answer or a constant; JSON, CSV and the template of the report
-- in soak/record.py; lag_structure_json, which is written and never read; workloads/analytics-batch, a
-- printed query and a timed loop of products, which has no state; the tests; the Go, JavaScript and shell
-- parts.
pub mod Prelude
pub mod Thousandths
pub mod Workload
pub mod Lag
pub mod Gate
pub mod Ranking
pub mod Detectors
pub mod Forecast
pub mod Events
pub mod Pipeline
pub mod Memory
pub mod Baselines
pub mod Cases
pub mod Render
pub mod Store
pub mod Merge
pub mod Window
pub mod Domain
pub mod Service
pub mod Api
pub mod Ingest
pub mod Cooling
pub mod Vision
pub mod Soak
pub mod Examples
