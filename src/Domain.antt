-- ===== src/Domain.antt =====
-- correlation/service.py, `_config` and `_witness_for`: what couples the pods on each signal. The list
-- `STORAGE` and the level `COPR_MIN` of the environment are arguments.
pub mod Disk
use abb_accelerator_submissi.Prelude.{
  Bool, ◌&&◌, List, [], String, select, last_items, if◌then◌else◌, Float, nought, ◌==◌, text_key,
  contains,
}
use abb_accelerator_submissi.Workload.{stable_workload}
use abb_accelerator_submissi.Gate.{Witness}
use abb_accelerator_submissi.Detectors.{greatest}
use abb_accelerator_submissi.Events.{Vectors, keys}
use abb_accelerator_submissi.Pipeline.{combinations}
use abb_accelerator_submissi.Memory.{MemoryConfig}

abbrev pub is_disk_signal : String → Bool
is_disk_signal signal = signal == "psi_io"

-- Both pods are of the storage workloads.
abbrev pub on_disk : List String → String × String → Bool
on_disk storage p = contains storage (stable_workload p.0) && contains storage (stable_workload p.1)

module _ {R : Type 0} ⦃f : Float R⦄ where
  -- The configuration of a signal's memory, from that of the environment: only the disk has a prior
  -- and a floor.
  unfoldable pub config_for : MemoryConfig R → String → MemoryConfig R
  config_for env signal = record env {
    signal = signal;
    prior = if is_disk_signal signal then env.prior else nought;
    floor_frac = if is_disk_signal signal then env.floor_frac else nought;
  }

  -- The pods that stall: `max(vectors[p][-6:]) > COPR_MIN`
  unfoldable pub hot_pods : R → Vectors R → List String
  hot_pods copr_min vectors =
      keys (select (λ v. f.lt copr_min (greatest (last_items 6 v.1))) vectors)

  unfoldable pub witness_for : List String → R → String → Vectors R → Witness
  unfolding combinations contains hot_pods
  witness_for storage copr_min signal vectors =
      let pairs = combinations (keys vectors) in
      record {
        ebpf_edges = [];
        psi_copressure = combinations (hot_pods copr_min vectors);
        shared_relation = if is_disk_signal signal then select (on_disk storage) pairs else [];
        same_node = if is_disk_signal signal then [] else pairs;
      }
