-- ===== src/Store/Observing.antt =====
-- The invariant of `GraphMemory`, and its update by a pass.
use abb_accelerator_submissi.Prelude.{Option, none, some, List, Float, All, IsRounded, String, map}
use abb_accelerator_submissi.Workload.{stable_workload}
use abb_accelerator_submissi.Gate.{Witness, Pairs}
use abb_accelerator_submissi.Detectors.{Numpy}
use abb_accelerator_submissi.Events.{Vectors, keys}
use abb_accelerator_submissi.Pipeline.{Verdict}
use abb_accelerator_submissi.Memory.{MemoryConfig}
use abb_accelerator_submissi.Memory.Keyed.{IsKeyed, update_edges-IsKeyed}
use abb_accelerator_submissi.Memory.Bounds.{IsBounded, IsFractional, update_edges-IsBounded}
use abb_accelerator_submissi.Cases.{Fingerprint}
use abb_accelerator_submissi.Cases.Promotion.{IsLinked, promote_case-IsLinked}
use abb_accelerator_submissi.Store.{Memory, remember}

module _ {R : Type 0} ⦃f : Float R⦄ where
  -- The keys of the tables, and the ranges of the confidences.
  pub record IsSound (m : Memory R) : Type 0 where
    pub keyed : IsKeyed m.edge_memory
    pub bounded : All IsBounded m.edge_memory
    pub linked : IsLinked m.archive

  module _ (laws : IsRounded R) (cfg : MemoryConfig R) (valid : IsFractional cfg) (np : Numpy R)
      (digest : Fingerprint → String) where
    -- Every pass keeps the invariant of the memory: one row for each edge key, confidences between 0
    -- and 1, different case identifiers, and observations of stored cases only. The configuration's
    -- rates are fractions, and the edges of the pass are any.
    pub remember-IsSound :
        (graph : Verdict R) (vectors : Vectors R) (witness : Option Witness) (ts : R) (m : Memory R)
        → IsSound m
        → IsSound (remember cfg np digest graph vectors witness ts m).1
    unfolding remember
    remember-IsSound graph vectors witness ts m h =
        let shared : Option Pairs = elim witness [
          | none ↦ none
          | some w ↦ some w.shared_relation
        ] in
        let present : List String = map stable_workload (keys vectors) in
        record {
          keyed = update_edges-IsKeyed cfg shared graph.edges present ts m.edge_memory h.keyed;
          bounded =
              update_edges-IsBounded laws cfg valid shared graph.edges present ts m.edge_memory
                h.bounded;
          linked = promote_case-IsLinked cfg digest graph ts m.archive h.linked;
        }
