-- ===== src/Memory/Steps.antt =====
-- What each update of `observe` does to the row of a key: the row is still there, later by the hits.
use mathlib.Core.Option
use mathlib.Core.Option.{some-injective}
use abb_accelerator_submissi.Prelude.{
  ◌≡◌, refl, sym, ap, subst, ◌∙◌, inl, inr, Bool, true, not, ◌&&◌, ◌||◌, Option, none, some, List,
  [], ◌∷◌, map, String, arith, Bool-cases, Option-cases, if◌then◌else◌, Float, IsRounded, ◌==◌,
  text_key, text_le, contains,
}
use abb_accelerator_submissi.Workload.{stable_workload}
use abb_accelerator_submissi.Gate.{Edge, Pairs}
use abb_accelerator_submissi.Memory.{
  MemoryConfig, Row, RowKey, same_key, key_of, find_row, set_base, edge_key, confirmed,
  confirm_edge, confirm_edges, decayed, fades, faded, decay_absent_edges, seeded, seed_key,
  seed_pair, seed_structural, update_edges,
}
use abb_accelerator_submissi.Memory.Bounds.{IsFractional}
use abb_accelerator_submissi.Memory.Table.{
  same_key_iff, find_row-append, find_row-confirm_edge, find_row-decay_absent_edges,
}
use abb_accelerator_submissi.Memory.Later.{
  Leads, count_edges, unchanged, Leads-refl, Leads-trans, confirmed-IsLater, decayed-IsLater,
  raised_floor-IsLater,
}

module _ {R : Type 0} where
  find_row-key :
      (k : RowKey) (rows : List (Row R)) (row : Row R)
      → find_row k rows ≡ some row
      → same_key (key_of row) k ≡ true
  unfolding find_row
  find_row-key k [] row e = absurd (cc)
  find_row-key k (r ∷ rows) row e = elim (Bool-cases (same_key (key_of r) k)) [
    | inl s ↦ subst (λ x. same_key (key_of x) k ≡ true) (some-injective _ _ (rw s at e)) s
    | inr s ↦ find_row-key k rows row (rw s at e)
  ]

  -- `UPDATE edge_memory SET base_conf=?` on the row of a key
  based : R → RowKey → Row R → Row R
  based base j row = if same_key (key_of row) j then record row { base_conf = base } else row

  find_row-set_base-map :
      (base : R) (j k : RowKey) (rows : List (Row R))
      → find_row k (set_base base j rows) ≡ Option.map (based base j) (find_row k rows)
  unfolding find_row set_base based
  find_row-set_base-map base j k [] = refl
  find_row-set_base-map base j k (row ∷ rows) = elim (Bool-cases (same_key (key_of row) j)) [
    | inl e ↦ elim (Bool-cases (same_key (key_of row) k)) [
      | inl e' ↦ ground arith
      | inr e' ↦ rw (e, e') (find_row-set_base-map base j k rows)
    ]
    | inr e ↦ elim (Bool-cases (same_key (key_of row) k)) [
      | inl e' ↦ ground arith
      | inr e' ↦ rw (e, e') (find_row-set_base-map base j k rows)
    ]
  ]

module _ {R : Type 0} ⦃f : Float R⦄ (laws : IsRounded R) (cfg : MemoryConfig R)
    (valid : IsFractional cfg) where
  confirm_edge-Leads :
      (k : RowKey) (e : Edge R) (ts : R) (rows : List (Row R))
      → Leads cfg k (if same_key (edge_key cfg e) k then 1 else 0) rows (confirm_edge cfg e ts rows)
  unfolding Leads
  confirm_edge-Leads k e ts rows row found h = elim (Bool-cases (same_key (edge_key cfg e) k)) [
    | inl own ↦
        let there : find_row (edge_key cfg e) rows ≡ some row =
          subst (λ j. find_row j rows ≡ some row) (sym ((same_key_iff (edge_key cfg e) k).0 own))
            found in
        rw own (
          confirmed cfg e ts (some row),
          rw (find_row-confirm_edge cfg k e ts rows, own, there) refl,
          confirmed-IsLater cfg laws valid e ts row h,
        )
    | inr other ↦ rw other (
      row,
      rw (find_row-confirm_edge cfg k e ts rows, other) found,
      unchanged cfg laws valid row h,
    )
  ]

  confirm_edges-Leads :
      (k : RowKey) (edges : List (Edge R)) (ts : R) (rows : List (Row R))
      → Leads cfg k (count_edges cfg k edges) rows (confirm_edges cfg edges ts rows)
  unfolding confirm_edges count_edges
  confirm_edges-Leads k [] ts rows = Leads-refl cfg laws valid k rows
  confirm_edges-Leads k (e ∷ edges) ts rows =
      Leads-trans cfg laws valid k (if same_key (edge_key cfg e) k then 1 else 0)
        (count_edges cfg k edges) _ rows (confirm_edge cfg e ts rows) _ (ground arith)
        (confirm_edge-Leads k e ts rows)
        (confirm_edges-Leads k edges ts (confirm_edge cfg e ts rows))

  decay_absent_edges-Leads :
      (k : RowKey) (seen : List RowKey) (present : List String) (ts : R) (rows : List (Row R))
      → Leads cfg k 0 rows (decay_absent_edges cfg seen present ts rows)
  unfolding Leads faded
  decay_absent_edges-Leads k seen present ts rows row found h =
      elim (Bool-cases (fades cfg seen present row)) [
        | inl e ↦ (
          decayed cfg ts row,
          rw (find_row-decay_absent_edges cfg k seen present ts rows, found, e) refl,
          decayed-IsLater cfg laws valid ts row h,
        )
        | inr e ↦ (
          row,
          rw (find_row-decay_absent_edges cfg k seen present ts rows, found, e) refl,
          unchanged cfg laws valid row h,
        )
      ]

  set_base-Leads :
      (k j : RowKey) (rows : List (Row R)) (old : Row R)
      → find_row j rows ≡ some old
      → f.lt old.base_conf cfg.prior ≡ true
      → Leads cfg k 0 rows (set_base cfg.prior j rows)
  unfolding Leads based
  set_base-Leads k j rows old there low row found h = elim (Bool-cases (same_key (key_of row) j)) [
    | inr other ↦ (
      row,
      rw (find_row-set_base-map cfg.prior j k rows, found, other) refl,
      unchanged cfg laws valid row h,
    )
    | inl own ↦
        let keys : k ≡ j =
          sym ((same_key_iff (key_of row) k).0 (find_row-key k rows row found))
          ∙ (same_key_iff (key_of row) j).0 own in
        let same : old ≡ row =
          some-injective _ _ (sym there ∙ (sym (ap (λ i. find_row i rows) keys) ∙ found)) in
        (
          record row { base_conf = cfg.prior },
          rw (find_row-set_base-map cfg.prior j k rows, found, own) refl,
          raised_floor-IsLater cfg laws valid row
              (subst (λ (r : Row R). f.lt r.base_conf cfg.prior ≡ true) same low) h,
        )
  ]

  seed_key-Leads :
      (k : RowKey) (a b : String) (ts : R) (rows : List (Row R))
      → Leads cfg k 0 rows (seed_key cfg a b ts rows)
  unfolding seed_key
  seed_key-Leads k a b ts rows = elim (Option-cases (find_row (a, b, cfg.signal) rows)) [
    | inl e ↦
        rw (e, seed_key)
          (unfold Leads in
            (λ row found h. (
              row,
              rw (find_row-append k rows (seeded cfg a b ts), found) refl,
              unchanged cfg laws valid row h,
            )))
    | inr (old, e) ↦ elim (Bool-cases (f.lt old.base_conf cfg.prior)) [
      | inl low ↦ rw (e, seed_key, low) (set_base-Leads k (a, b, cfg.signal) rows old e low)
      | inr enough ↦ rw (e, seed_key, enough) (Leads-refl cfg laws valid k rows)
    ]
  ]

  seed_pair-Leads :
      (k : RowKey) (present : List String) (ts : R) (p q : String) (rows : List (Row R))
      → Leads cfg k 0 rows (seed_pair cfg present ts p q rows)
  unfolding seed_pair
  seed_pair-Leads k present ts p q rows =
      let a = stable_workload p in
      let b = stable_workload q in
      let skipped : Bool = a == b || not (contains present a && contains present b) in
      elim (Bool-cases skipped) [
        | inl e ↦ rw e (Leads-refl cfg laws valid k rows)
        | inr e ↦ elim (Bool-cases (text_le a b)) [
          | inl o ↦ rw (e, o) (seed_key-Leads k a b ts rows)
          | inr o ↦ rw (e, o) (seed_key-Leads k b a ts rows)
        ]
      ]

  seed_structural-Leads :
      (k : RowKey) (pairs : Pairs) (present : List String) (ts : R) (rows : List (Row R))
      → Leads cfg k 0 rows (seed_structural cfg pairs present ts rows)
  unfolding seed_structural
  seed_structural-Leads k [] present ts rows = Leads-refl cfg laws valid k rows
  seed_structural-Leads k ((p, q) ∷ pairs) present ts rows =
      Leads-trans cfg laws valid k 0 0 0 rows (seed_pair cfg present ts p q rows) _ (omega arith)
        (seed_pair-Leads k present ts p q rows)
        (seed_structural-Leads k pairs present ts (seed_pair cfg present ts p q rows))

  -- the end of a pass
  confirm-decay-Leads :
      (k : RowKey) (edges : List (Edge R)) (present : List String) (ts : R) (rows : List (Row R))
      → Leads cfg k (count_edges cfg k edges) rows (
          decay_absent_edges cfg
            (map (edge_key cfg) edges)
            present
            ts
            (confirm_edges cfg edges ts rows))
  confirm-decay-Leads k edges present ts rows =
      Leads-trans cfg laws valid k (count_edges cfg k edges) 0 (count_edges cfg k edges) rows
        (confirm_edges cfg edges ts rows) _ (omega arith) (confirm_edges-Leads k edges ts rows)
        (decay_absent_edges-Leads k (map (edge_key cfg) edges) present ts
          (confirm_edges cfg edges ts rows))

  pub update_edges-Leads :
      (k : RowKey) (shared : Option Pairs) (edges : List (Edge R)) (present : List String) (ts : R)
      (rows : List (Row R))
      → Leads cfg k (count_edges cfg k edges) rows (update_edges cfg shared edges present ts rows)
  unfolding update_edges
  update_edges-Leads k none edges present ts rows = confirm-decay-Leads k edges present ts rows
  update_edges-Leads k (some pairs) edges present ts rows =
      Leads-trans cfg laws valid k 0 (count_edges cfg k edges) (count_edges cfg k edges) rows
        (seed_structural cfg pairs present ts rows) _ (omega arith)
        (seed_structural-Leads k pairs present ts rows)
        (confirm-decay-Leads k edges present ts (seed_structural cfg pairs present ts rows))
