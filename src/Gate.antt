-- ===== src/Gate.antt =====
-- correlation/engine/gate.py: the physical witness of a pair of pods, and the three-clause gate that
-- an edge has to pass. Sets of pairs are lists of pairs; a `frozenset` of two pods is a pair that is
-- compared in both orders.
pub mod Acceptance
pub mod Clauses
use abb_accelerator_submissi.Prelude.{
  ℕ, ◌*◌, ◌≡◌, Bool, true, false, not, ◌&&◌, ◌||◌, Option, none, some, List, [], ◌∷◌, ◌++◌, String,
  any, ltb, if◌then◌else◌, Float, ◌==◌, Key, text_key, lookup, is_some, ◌↔◌, arith,
}
use abb_accelerator_submissi.Lag.{Profile, adjacent_support}

-- The tags of an edge's evidence.
pub data Evidence : Type 0 where
  ebpf node psi pvc stat temporal write : Evidence

abbrev pub same_evidence : Evidence → Evidence → Bool
same_evidence Evidence.ebpf Evidence.ebpf = true
same_evidence Evidence.node Evidence.node = true
same_evidence Evidence.psi Evidence.psi = true
same_evidence Evidence.pvc Evidence.pvc = true
same_evidence Evidence.stat Evidence.stat = true
same_evidence Evidence.temporal Evidence.temporal = true
same_evidence Evidence.write Evidence.write = true
same_evidence _ _ = false

pub same_evidence_iff : (a b : Evidence) → (same_evidence a b ≡ true) ↔ (a ≡ b)
same_evidence_iff a b = ground arith

instance abbrev pub evidence_key : Key Evidence
evidence_key = record { same = same_evidence; same_iff = same_evidence_iff }

abbrev pub is_coupling : Evidence → Bool
is_coupling k = k == Evidence.ebpf || k == Evidence.pvc

abbrev pub is_source_coupling : Evidence → Bool
is_source_coupling k = k == Evidence.ebpf || k == Evidence.pvc || k == Evidence.node

-- An edge of the causal graph.
pub record Edge (R : Type 0) : Type 0 where
  pub src : String
  pub dst : String
  pub r : R
  pub lag_s : ℕ
  pub evidence : List Evidence

abbrev pub Pairs : Type 0
Pairs = List (String × String)

pub record Witness : Type 0 where
  pub ebpf_edges : Pairs
  pub psi_copressure : Pairs
  pub shared_relation : Pairs
  pub same_node : Pairs

abbrev pub same_pair : String → String → String × String → Bool
same_pair a b p = (p.0 == a && p.1 == b)

-- `frozenset((a, b)) == frozenset(p)`
abbrev pub same_set : String → String → String × String → Bool
same_set a b p = same_pair a b p || same_pair b a p

abbrev pub has_pair : Pairs → String → String → Bool
has_pair ps a b = any (same_pair a b) ps

abbrev pub has_set : Pairs → String → String → Bool
has_set ps a b = any (same_set a b) ps

abbrev pub only_if : Bool → Evidence → List Evidence
only_if b k = if b then k ∷ [] else []

unfoldable pub kinds : Witness → String → String → List Evidence
kinds w src dst =
    only_if (has_pair w.ebpf_edges src dst || has_pair w.ebpf_edges dst src) Evidence.ebpf
    ++ (only_if (has_set w.psi_copressure src dst) Evidence.psi
        ++ (only_if (has_set w.shared_relation src dst) Evidence.pvc
            ++ only_if (has_set w.same_node src dst) Evidence.node))

unfoldable pub couples : Witness → String → String → Bool
couples w src dst = any is_coupling (kinds w src dst)

unfoldable pub couples_source : Witness → String → String → Bool
couples_source w src dst = any is_source_coupling (kinds w src dst)

module _ {R : Type 0} ⦃f : Float R⦄ where
  abbrev pub r_peak : R
  r_peak = f.decimal 6 1

  abbrev pub r_adj : R
  r_adj = f.decimal 4 1

  abbrev pub temporal_tol_s : R
  temporal_tol_s = f.of_nat 10

  -- Clause 3: the onsets refute the edge. It is checked where both are known.
  unfoldable pub out_of_order : Option R → Option R → ℕ → Bool
  out_of_order (some t_src) (some t_dst) lag_s =
      f.lt (f.add t_dst temporal_tol_s) t_src
      || (ltb 0 lag_s && f.lt (f.add (f.of_nat (4 * lag_s)) temporal_tol_s) (f.sub t_dst t_src))
  out_of_order _ _ lag_s = false

  unfoldable pub accept_edge :
      String → String → R → ℕ → Profile R → Witness → List (String × R) → Option (Edge R)
  accept_edge src dst r lag_s profile witness onset_s =
      if f.lt r r_peak || not (adjacent_support profile lag_s r_adj)
      then none
      else if not (any is_coupling (kinds witness src dst))
      then none
      else let t_src = lookup src onset_s in
        let t_dst = lookup dst onset_s in
        if out_of_order t_src t_dst lag_s
        then none
        else some (record {
          src = src;
          dst = dst;
          r = f.round r 3;
          lag_s = lag_s;
          evidence =
              Evidence.stat
              ∷ (kinds witness src dst
                  ++ only_if (is_some t_src && is_some t_dst) Evidence.temporal);
        })
