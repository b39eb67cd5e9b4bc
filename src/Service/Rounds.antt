-- ===== src/Service/Rounds.antt =====
-- The rounds of the service: what every update of a memory keeps, every sequence of rounds keeps.
use mathlib.Core.Option.{some-injective}
use abb_accelerator_submissi.Prelude.{
  ◌≡◌, ap, sym, subst, inl, inr, Option, some, List, [], ◌∷◌, String, Float, All, Option-cases,
  List-cases,
}
use abb_accelerator_submissi.Gate.{Witness}
use abb_accelerator_submissi.Lag.{Stats}
use abb_accelerator_submissi.Detectors.{Numpy}
use abb_accelerator_submissi.Events.{Vectors, Options, values_of, keys}
use abb_accelerator_submissi.Pipeline.{Verdict, run_pass}
use abb_accelerator_submissi.Memory.{MemoryConfig}
use abb_accelerator_submissi.Cases.{Fingerprint}
use abb_accelerator_submissi.Render.{render}
use abb_accelerator_submissi.Store.{Memory, Report, remember, observe}
use abb_accelerator_submissi.Window.{Sample, Event, vectors_by_signal, breaches}
use abb_accelerator_submissi.Domain.{config_for, witness_for}
use abb_accelerator_submissi.Service.{
  Settings, Poll, Graph, Memories, primary_of, wanted, options_for, observe_signal, observe_all,
  incipient, graph_of, round_over, tick,
}

module _ {R : Type 0} ⦃f : Float R⦄ where
  -- What `observe` keeps is what `remember` gives.
  pub observe-remember :
      (cfg : MemoryConfig R) (np : Numpy R) (digest : Fingerprint → String) (graph : Verdict R)
      (vectors : Vectors R) (witness : Option Witness) (ts now : R) (m : Memory R)
      (out : Report R × Memory R)
      → observe cfg np digest graph vectors witness ts now m ≡ some out
      → out.1 ≡ (remember cfg np digest graph vectors witness ts m).1
  unfolding observe
  observe-remember cfg np digest graph vectors witness ts now m out h =
      let kept = (remember cfg np digest graph vectors witness ts m).1 in
      elim (Option-cases (render cfg now graph (keys vectors) kept.edge_memory)) [
        | inl stuck ↦ absurd (cc (rw (observe, stuck) at h))
        | inr (shown, e) ↦
            sym (ap (λ (p : Report R × Memory R). p.1) (some-injective _ _ (rw (observe, e) at h)))
      ]

module _ {R : Type 0} ⦃f : Float R⦄ (stats : Stats R) (np : Numpy R) (digest : Fingerprint → String)
    (epoch : String → Option R) (set : Settings R) where
  -- The memories that rounds lead to.
  pub data Reach : Memories R → Memories R → Type 0 where
    here : (memories : Memories R) → Reach memories memories
    next :
        (first memories : Memories R) (poll : Poll R) (out : Graph R × Memories R)
        → Reach first memories
        → tick stats np digest epoch set poll memories ≡ some out
        → Reach first out.1

  module _ (P : String → Memory R → Type 0)
      (kept : (sig : String) (graph : Verdict R) (vectors : Vectors R) (witness : Witness)
          (opts : Options R) (ts : R) (m : Memory R)
        → run_pass stats witness np opts vectors ≡ some graph
        → P sig m
        → P sig
            (remember
              (config_for set.edge sig)
              np
              digest
              graph
              vectors
              (some witness)
              ts
              m).1) where
    abbrev pub AllMemories : Memories R → Type 0
    AllMemories = All (λ sm. P sm.0 sm.1)

    observe_signal-keeps :
        (clock : String → R × R) (vec_by_sig : List (String × Vectors R)) (breach : List String)
        (sig : String) (vectors : Vectors R) (m : Memory R) (out : Report R × Memory R)
        → observe_signal stats np digest epoch set clock vec_by_sig breach sig vectors m ≡ some out
        → P sig m
        → P sig out.1
    unfolding observe_signal
    observe_signal-keeps clock vec_by_sig breach sig vectors m out h was =
        let witness = witness_for set.storage set.copr_min sig vectors in
        let opts = options_for stats np digest epoch set sig vec_by_sig breach vectors m in
        elim (Option-cases (run_pass stats witness np opts vectors)) [
          | inl stuck ↦ absurd (cc (rw (observe_signal, stuck) at h))
          | inr (v, ran) ↦
              rw
                (observe-remember (config_for set.edge sig) np digest v vectors (some witness)
                  (clock sig).0 (clock sig).1 m out (rw (observe_signal, ran) at h))
                (kept sig v vectors witness opts (clock sig).0 m ran was)
        ]

    observe_all-keeps :
        (clock : String → R × R) (vec_by_sig : List (String × Vectors R)) (breach : List String)
        (memories : Memories R) (out : List (String × Report R) × Memories R)
        → observe_all stats np digest epoch set clock vec_by_sig breach memories ≡ some out
        → AllMemories memories
        → AllMemories out.1
    unfolding observe_all
    observe_all-keeps clock vec_by_sig breach [] out h was =
        subst (λ (p : List (String × Report R) × Memories R). AllMemories p.1)
          (some-injective _ _ h) tt
    observe_all-keeps clock vec_by_sig breach ((sig, m) ∷ memories) out h was =
        elim (Option-cases
          (observe_all stats np digest epoch set clock vec_by_sig breach memories)) [
            | inl stuck ↦ absurd (cc (rw (observe_all, stuck) at h))
            | inr (rest, e) ↦
                let later = observe_all-keeps clock vec_by_sig breach memories rest e was.1 in
                elim (List-cases (values_of sig vec_by_sig)) [
                  | inl bare ↦
                      subst (λ (p : List (String × Report R) × Memories R). AllMemories p.1)
                        (some-injective _ _ (rw (observe_all, e, bare) at h)) (was.0, later)
                  | inr (v, vs, some_v) ↦
                      elim (Option-cases (
                        observe_signal stats np digest epoch set clock vec_by_sig breach sig
                          (v ∷ vs) m)) [
                            | inl stuck ↦ absurd (cc (rw (observe_all, e, some_v, stuck) at h))
                            | inr (made, seen) ↦
                                subst
                                  (λ (p : List (String × Report R) × Memories R). AllMemories p.1)
                                  (some-injective _ _ (rw (observe_all, e, some_v, seen) at h))
                                  (
                                    observe_signal-keeps clock vec_by_sig breach sig (v ∷ vs) m made
                                        seen was.0,
                                    later,
                                  )
                          ]
                ]
          ]

    round_over-keeps :
        (poll : Poll R) (window : List (String × List (Sample R))) (events : List Event)
        (memories : Memories R) (out : Graph R × Memories R)
        → round_over stats np digest epoch set poll window events memories ≡ some out
        → AllMemories memories
        → AllMemories out.1
    unfolding round_over
    round_over-keeps poll window events memories out h was =
        let vec_by_sig =
          vectors_by_signal set.grid_step_s epoch (wanted stats np digest epoch set memories)
            window in
        elim (Option-cases (
          observe_all stats np digest epoch set poll.clock vec_by_sig (breaches events) memories)) [
            | inl stuck ↦ absurd (cc (rw (round_over, stuck) at h))
            | inr (seen, e) ↦
                let warned = incipient stats np digest epoch set vec_by_sig in
                elim (Option-cases (
                  graph_of stats np digest epoch set (primary_of memories) (keys memories)
                    poll.stamp warned seen.0)) [
                      | inl stuck ↦ absurd (cc (rw (round_over, e, stuck) at h))
                      | inr (g, merged) ↦
                          subst (λ (p : Graph R × Memories R). AllMemories p.1)
                            (some-injective _ _ (rw (round_over, e, merged) at h))
                            (observe_all-keeps poll.clock vec_by_sig (breaches events) memories seen
                              e was)
                    ]
          ]

    pub tick-keeps :
        (poll : Poll R) (memories : Memories R) (out : Graph R × Memories R)
        → tick stats np digest epoch set poll memories ≡ some out
        → AllMemories memories
        → AllMemories out.1
    unfolding tick
    tick-keeps poll memories out h was = elim (Option-cases poll.window) [
      | inl lost ↦
          subst (λ (p : Graph R × Memories R). AllMemories p.1)
            (some-injective _ _ (rw (tick, lost) at h)) was
      | inr (window, got) ↦ elim (Option-cases poll.events) [
        | inl lost ↦
            subst (λ (p : Graph R × Memories R). AllMemories p.1)
              (some-injective _ _ (rw (tick, got, lost) at h)) was
        | inr (events, got') ↦
            round_over-keeps poll window events memories out (rw (tick, got, got') at h) was
      ]
    ]

    pub Reach-keeps :
        (first memories : Memories R)
        → Reach first memories
        → AllMemories first
        → AllMemories memories
    Reach-keeps first memories (Reach.here _) was = was
    Reach-keeps first memories (Reach.next _ before poll out r e) was =
        tick-keeps poll before out e (Reach-keeps first before r was)
