-- ===== src/Gate/Acceptance.antt =====
-- What `accept_edge` lets through, and what it never does.
use mathlib.Core.Bool.{◌||◌}
use abb_accelerator_submissi.Prelude.{
  ℕ, ◌≡◌, ◌↔◌, Bool, true, false, ◌&&◌, some, List, ◌∷◌, ◌++◌, String, any, arith, Float, ◌≼◌,
  lookup, text_key, is_some, IsOrdered, le_of_not-lt, not-lt_of_le,
}
use abb_accelerator_submissi.Lag.{Profile, adjacent_support}
use abb_accelerator_submissi.Gate.{
  Evidence, Edge, Witness, has_pair, has_set, is_coupling, kinds, couples, out_of_order,
  accept_edge, r_peak, r_adj, only_if,
}

-- The pair has a network edge or a shared disk.
abbrev pub SharesResource : Witness → String → String → Type 0
SharesResource w a b =
    ((has_pair w.ebpf_edges a b || has_pair w.ebpf_edges b a) || has_set w.shared_relation a b)
    ≡ true

coupling_kinds :
    (net psi disk host : Bool)
    → any is_coupling (
        only_if net Evidence.ebpf
        ++ (only_if psi Evidence.psi ++ (only_if disk Evidence.pvc ++ only_if host Evidence.node)))
      ≡ (net || disk)
coupling_kinds net psi disk host = ground arith

-- Two pods couple exactly if they share a network edge, in either direction, or a disk. Being on one
-- node and stalling at once do not count.
pub couples_iff : (w : Witness) (a b : String) → (couples w a b ≡ true) ↔ SharesResource w a b
unfolding couples kinds
couples_iff w a b =
    rw
      (coupling_kinds (has_pair w.ebpf_edges a b || has_pair w.ebpf_edges b a)
        (has_set w.psi_copressure a b) (has_set w.shared_relation a b) (has_set w.same_node a b))
      (λ h. h, λ h. h)

module _ {R : Type 0} ⦃f : Float R⦄ where
  -- The three clauses of the gate.
  pub record Passes (src dst : String) (r : R) (lag_s : ℕ) (profile : Profile R) (w : Witness)
      (onset_s : List (String × R)) : Type 0 where
    pub strong : r_peak ≼ r
    pub supported : adjacent_support profile lag_s r_adj ≡ true
    pub coupled : SharesResource w src dst
    pub ordered : out_of_order (lookup src onset_s) (lookup dst onset_s) lag_s ≡ false

  -- The edge that is built: between the same pods, with r rounded to three places, the evidence of
  -- the witness, and "temporal" exactly if both onsets are known.
  abbrev pub edge_for : String → String → R → ℕ → Witness → List (String × R) → Edge R
  edge_for src dst r lag_s w onset_s = record {
    src = src;
    dst = dst;
    r = f.round r 3;
    lag_s = lag_s;
    evidence =
        Evidence.stat
        ∷ (kinds w src dst
            ++ only_if (is_some (lookup src onset_s) && is_some (lookup dst onset_s))
                Evidence.temporal);
  }

  module _ (laws : IsOrdered R) where
    -- The gate gives an edge exactly if all three clauses hold, r at least `R_PEAK` with an elevated
    -- neighbour, a network edge or a shared disk, and onsets in order; it is then the edge of the same
    -- pods with r rounded and the evidence of the witness. The floats are totally ordered.
    pub accept_edge_iff :
        (src dst : String) (r : R) (lag_s : ℕ) (profile : Profile R) (w : Witness)
        (onset_s : List (String × R)) (e : Edge R)
        → (accept_edge src dst r lag_s profile w onset_s ≡ some e)
          ↔ (Passes src dst r lag_s profile w onset_s × (e ≡ edge_for src dst r lag_s w onset_s))
    unfolding accept_edge
    accept_edge_iff src dst r lag_s profile w onset_s e =
        let shared : (any is_coupling (kinds w src dst) ≡ true) ↔ SharesResource w src dst =
          unfold couples in couples_iff w src dst in
        (
          λ h. ground (arith, le_of_not-lt laws r r_peak, shared),
          λ (p, eq). ground (
            arith,
            p.strong,
            p.supported,
            p.coupled,
            p.ordered,
            not-lt_of_le laws r r_peak,
            shared,
          ),
        )
