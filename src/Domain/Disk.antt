-- ===== src/Domain/Disk.antt =====
-- What an edge of a pass rests on, by the witness that the service makes for its signal.
use mathlib.Core.Option.{some-injective}
use abb_accelerator_submissi.Prelude.{
  ◌≡◌, refl, subst, inl, inr, Bool, true, false, not, ◌||◌, Option, some, List, [], ◌++◌, String,
  arith, any, Bool-cases, select, select-All, All-imp, All-mem, any-mem, Float, text_key, All,
  List-cases, contains, unguard, lookup,
}
use abb_accelerator_submissi.Gate.{
  Edge, Evidence, Witness, kinds, couples, couples_source, is_source_coupling, same_set, has_set,
  has_pair, only_if,
}
use abb_accelerator_submissi.Gate.Acceptance.{couples_iff}
use abb_accelerator_submissi.Lag.{Stats, lag_profile}
use abb_accelerator_submissi.Events.{Vectors, Options, keys, values_of}
use abb_accelerator_submissi.Pipeline.{
  Scene, combinations, pair_edge, writer_edge, edges_of, written,
}
use abb_accelerator_submissi.Pipeline.Each.{source_edge-writer_edge, edges_of-All}
use abb_accelerator_submissi.Pipeline.Coupling.{IsCoupled, edges_of-IsCoupled}
use abb_accelerator_submissi.Domain.{is_disk_signal, on_disk, witness_for}

source_kinds :
    (net psi disk host : Bool)
    → any is_source_coupling (
        only_if net Evidence.ebpf
        ++ (only_if psi Evidence.psi ++ (only_if disk Evidence.pvc ++ only_if host Evidence.node)))
      ≡ (net || (disk || host))
source_kinds net psi disk host = ground arith

couples_source_iff :
    (w : Witness) (a b : String)
    → couples_source w a b ≡ (
        (has_pair w.ebpf_edges a b || has_pair w.ebpf_edges b a)
        || (has_set w.shared_relation a b || has_set w.same_node a b))
unfolding couples_source kinds
couples_source_iff w a b =
    source_kinds (has_pair w.ebpf_edges a b || has_pair w.ebpf_edges b a)
      (has_set w.psi_copressure a b) (has_set w.shared_relation a b) (has_set w.same_node a b)

only-shared :
    (w : Witness) (a b : String)
    → w.ebpf_edges ≡ []
    → w.same_node ≡ []
    → couples_source w a b ≡ true
    → has_set w.shared_relation a b ≡ true
only-shared w a b no_net no_node h =
    let k = rw (no_net, no_node) at (rw (couples_source_iff w a b) at h) in ground (arith, k)

never-couples :
    (w : Witness) (a b : String)
    → w.ebpf_edges ≡ []
    → w.shared_relation ≡ []
    → couples w a b ≡ false
never-couples w a b no_net no_disk = elim (Bool-cases (couples w a b)) [
  | inl e ↦ absurd (cc (rw (no_net, no_disk) at ((couples_iff w a b).0 e)))
  | inr e ↦ e
]

same_set-on_disk :
    (storage : List String) (a b : String) (p : String × String)
    → same_set a b p ≡ true
    → on_disk storage p ≡ true
    → on_disk storage (a, b) ≡ true
same_set-on_disk storage a b p h k = ground (
  arith,
  text_key.same_iff p.0 a,
  text_key.same_iff p.1 b,
  text_key.same_iff p.0 b,
  text_key.same_iff p.1 a,
)

has_set-on_disk :
    (storage : List String) (a b : String) (pairs : List (String × String))
    → has_set (select (on_disk storage) pairs) a b ≡ true
    → on_disk storage (a, b) ≡ true
has_set-on_disk storage a b pairs h =
    let (p, there, same) = any-mem (same_set a b) (select (on_disk storage) pairs) h in
    same_set-on_disk storage a b p same (
      All-mem (λ q. on_disk storage q ≡ true) (select (on_disk storage) pairs)
        (select-All (on_disk storage) pairs) there)

module _ {R : Type 0} ⦃f : Float R⦄ (stats : Stats R) (storage : List String) (copr_min : R)
    (signal : String) (seen : Vectors R) where
  disk-couples_source :
      is_disk_signal signal ≡ true
      → (a b : String) → couples_source (witness_for storage copr_min signal seen) a b ≡ true
      → on_disk storage (a, b) ≡ true
  unfolding witness_for
  disk-couples_source disk a b h =
      let k = only-shared (witness_for storage copr_min signal seen) a b refl (rw disk refl) h in
      has_set-on_disk storage a b (combinations (keys seen)) (rw disk at k)

  other-couples :
      is_disk_signal signal ≡ false
      → (a b : String) → couples (witness_for storage copr_min signal seen) a b ≡ false
  unfolding witness_for
  other-couples other a b =
      never-couples (witness_for storage copr_min signal seen) a b refl (rw other refl)

  pair_edge-never :
      is_disk_signal signal ≡ false
      → (vectors : Vectors R) (onset_s : List (String × R)) (a b : String) (e : Edge R)
      → pair_edge stats (witness_for storage copr_min signal seen) vectors onset_s a b ≡ some e
      → written e ≡ true
  unfolding pair_edge
  pair_edge-never other vectors onset_s a b e h = absurd (
      cc (
        other-couples other a b,
        (unguard {b = not (couples (witness_for storage copr_min signal seen) a b)} h).0,
      ))

module _ {R : Type 0} ⦃f : Float R⦄ (stats : Stats R) (witness : Witness) where
  writer_edge-IsWritten :
      (src dst : String) (wsrc vdst : List R) (w_onset v_onset : Option R) (e : Edge R)
      → writer_edge stats witness src dst wsrc vdst w_onset v_onset ≡ some e
      → written e ≡ true
  unfolding writer_edge contains
  writer_edge-IsWritten src dst wsrc vdst w_onset v_onset e h =
      elim (List-cases (select is_source_coupling (kinds witness src dst))) [
        | inl bare ↦ absurd (cc (rw (bare, writer_edge) at h))
        | inr (k, ks, tags) ↦ elim (List-cases (lag_profile stats wsrc vdst)) [
          | inl short ↦ absurd (cc (rw (tags, short, writer_edge) at h))
          | inr (x, xs, long) ↦
              let passed = (unguard (unguard (rw (tags, long, writer_edge) at h)).1).1 in
              subst (λ y. written y ≡ true) (some-injective _ _ passed) refl
        ]
      ]

module _ {R : Type 0} ⦃f : Float R⦄ (stats : Stats R) (storage : List String) (copr_min : R)
    (signal : String) (seen : Vectors R) where
  -- What an edge of the signal must have.
  abbrev pub IsGrounded : Edge R → Type 0
  IsGrounded e =
      (is_disk_signal signal ≡ true → on_disk storage (e.src, e.dst) ≡ true)
      × (is_disk_signal signal ≡ false → written e ≡ true)

  -- With the witness that the service makes, every edge of a pass on psi_io joins two pods of storage
  -- workloads, and every edge of a pass on another signal has write evidence: no two stalls alone make
  -- an edge there.
  pub edges_of-IsGrounded :
      (opts : Options R) (s : Scene R)
      → All IsGrounded (edges_of stats (witness_for storage copr_min signal seen) opts s)
  edges_of-IsGrounded opts s = elim (Bool-cases (is_disk_signal signal)) [
    | inl disk ↦
        All-imp (IsCoupled stats (witness_for storage copr_min signal seen)) IsGrounded
          (λ e h. (
            λ _. disk-couples_source stats storage copr_min signal seen disk e.src e.dst h,
            λ other. absurd (cc),
          ))
          (edges_of stats (witness_for storage copr_min signal seen) opts s)
          (edges_of-IsCoupled stats (witness_for storage copr_min signal seen) opts s)
    | inr other ↦
        edges_of-All stats (witness_for storage copr_min signal seen) IsGrounded
          (λ vectors onset_s a b e h. (
            λ disk. absurd (cc),
            λ _. pair_edge-never stats storage copr_min signal seen other vectors onset_s a b e h,
          ))
          (λ s' w v e h. (
            λ disk. absurd (cc),
            λ _.
                writer_edge-IsWritten stats (witness_for storage copr_min signal seen) w v
                  (values_of w s'.writes) (values_of v s'.vectors) (lookup w s'.write_onset_s)
                  (lookup v s'.onset_s) e
                  (source_edge-writer_edge stats (witness_for storage copr_min signal seen) s' w v e
                    h).1,
          ))
          opts s
  ]
