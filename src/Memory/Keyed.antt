-- ===== src/Memory/Keyed.antt =====
-- The primary key of `edge_memory`.
use abb_accelerator_submissi.Prelude.{
  ◌≡◌, refl, inl, inr, Bool, not, Option, none, some, List, [], ◌∷◌, ◌++◌, String, arith, sym,
  subst, Bool-cases, Option-cases, Float, ◌==◌, text_key, text_le, contains, ◌||◌, ◌&&◌,
}
use abb_accelerator_submissi.Workload.{stable_workload}
use abb_accelerator_submissi.Gate.{Edge, Pairs}
use abb_accelerator_submissi.Memory.{
  MemoryConfig, Row, RowKey, same_key, key_of, find_row, delete_row, replace_row, set_base,
  edge_key, confirm_edges, confirmed, faded, decay_absent_edges, seeded, seed_key, seed_pair,
  seed_structural, update_edges,
}
use abb_accelerator_submissi.Memory.Table.{
  same_key_iff, find_row-append, find_row-delete_self, same_key-faded,
}

abbrev pub IsKeyed : {R : Type 0} → List (Row R) → Type 0
IsKeyed [] = Unit
IsKeyed (row ∷ rows) = (find_row (key_of row) rows ≡ none) × IsKeyed rows

module _ {R : Type 0} where
  append-IsKeyed :
      (rows : List (Row R)) (row : Row R)
      → IsKeyed rows
      → find_row (key_of row) rows ≡ none
      → IsKeyed (rows ++ row ∷ [])
  unfolding find_row
  append-IsKeyed [] row h e = (refl, tt)
  append-IsKeyed (r ∷ rows) row h e = (
    ground (
      arith,
      find_row-append (key_of r) rows row,
      same_key_iff (key_of r) (key_of row),
      same_key_iff (key_of row) (key_of r),
    ),
    append-IsKeyed rows row h.1 (ground arith),
  )

  find_row-delete_none :
      (j k : RowKey) (rows : List (Row R))
      → find_row k rows ≡ none
      → find_row k (delete_row j rows) ≡ none
  unfolding find_row
  find_row-delete_none j k [] h = refl
  find_row-delete_none j k (r ∷ rows) h = ground (arith, find_row-delete_none j k rows)

  delete-IsKeyed : (k : RowKey) (rows : List (Row R)) → IsKeyed rows → IsKeyed (delete_row k rows)
  delete-IsKeyed k [] h = tt
  delete-IsKeyed k (r ∷ rows) h = elim (Bool-cases (same_key (key_of r) k)) [
    | inl e ↦ rw e (delete-IsKeyed k rows h.1)
    | inr e ↦ rw e (find_row-delete_none k (key_of r) rows h.0, delete-IsKeyed k rows h.1)
  ]

  replace_row-IsKeyed :
      (row : Row R) (rows : List (Row R)) → IsKeyed rows → IsKeyed (replace_row row rows)
  unfolding replace_row
  replace_row-IsKeyed row rows h =
      append-IsKeyed (delete_row (key_of row) rows) row (delete-IsKeyed (key_of row) rows h) (
        find_row-delete_self (key_of row) (key_of row) rows
          ((same_key_iff (key_of row) (key_of row)).1 refl))

  find_row-set_base :
      (base : R) (j k : RowKey) (rows : List (Row R))
      → find_row k rows ≡ none
      → find_row k (set_base base j rows) ≡ none
  unfolding find_row set_base
  find_row-set_base base j k [] h = refl
  find_row-set_base base j k (r ∷ rows) h = ground (arith, find_row-set_base base j k rows)

  set_base-IsKeyed :
      (base : R) (k : RowKey) (rows : List (Row R)) → IsKeyed rows → IsKeyed (set_base base k rows)
  unfolding set_base
  set_base-IsKeyed base k [] h = tt
  set_base-IsKeyed base k (r ∷ rows) h = elim (Bool-cases (same_key (key_of r) k)) [
    | inl e ↦ rw e (find_row-set_base base k (key_of r) rows h.0, set_base-IsKeyed base k rows h.1)
    | inr e ↦ rw e (find_row-set_base base k (key_of r) rows h.0, set_base-IsKeyed base k rows h.1)
  ]

module _ {R : Type 0} ⦃f : Float R⦄ (cfg : MemoryConfig R) where
  confirm_edges-IsKeyed :
      (edges : List (Edge R)) (ts : R) (rows : List (Row R))
      → IsKeyed rows
      → IsKeyed (confirm_edges cfg edges ts rows)
  unfolding confirm_edges
  confirm_edges-IsKeyed [] ts rows h = h
  confirm_edges-IsKeyed (e ∷ edges) ts rows h =
      confirm_edges-IsKeyed edges ts _
        (replace_row-IsKeyed (confirmed cfg e ts (find_row (edge_key cfg e) rows)) rows h)

  module _ (seen : List RowKey) (present : List String) (ts : R) where
    find_row-faded :
        (k : RowKey) (rows : List (Row R))
        → find_row k rows ≡ none
        → find_row k (decay_absent_edges cfg seen present ts rows) ≡ none
    unfolding find_row decay_absent_edges
    find_row-faded k [] h = refl
    find_row-faded k (r ∷ rows) h =
        rw (same_key-faded cfg k seen present ts r) (elim (Bool-cases (same_key (key_of r) k)) [
          | inl e ↦ absurd (cc (rw e at h))
          | inr e ↦ rw e (find_row-faded k rows (rw e at h))
        ])

    decay_absent_edges-IsKeyed :
        (rows : List (Row R)) → IsKeyed rows → IsKeyed (decay_absent_edges cfg seen present ts rows)
    unfolding decay_absent_edges
    decay_absent_edges-IsKeyed [] h = tt
    decay_absent_edges-IsKeyed (r ∷ rows) h = (
      (let same = (same_key_iff (key_of (faded cfg seen present ts r)) (key_of r)).0 (
            rw (same_key-faded cfg (key_of r) seen present ts r)
              ((same_key_iff (key_of r) (key_of r)).1 refl)) in
          subst (λ k. find_row k (decay_absent_edges cfg seen present ts rows) ≡ none) (sym same)
            (find_row-faded (key_of r) rows h.0)),
      decay_absent_edges-IsKeyed rows h.1,
    )

  seed_key-IsKeyed :
      (a b : String) (ts : R) (rows : List (Row R))
      → IsKeyed rows
      → IsKeyed (seed_key cfg a b ts rows)
  unfolding seed_key
  seed_key-IsKeyed a b ts rows h = elim (Option-cases (find_row (a, b, cfg.signal) rows)) [
    | inl e ↦ rw (e, seed_key) (append-IsKeyed rows (seeded cfg a b ts) h e)
    | inr (row, e) ↦ elim (Bool-cases (f.lt row.base_conf cfg.prior)) [
      | inl low ↦ rw (e, seed_key, low) (set_base-IsKeyed cfg.prior (a, b, cfg.signal) rows h)
      | inr enough ↦ rw (e, seed_key, enough) h
    ]
  ]

  seed_pair-IsKeyed :
      (p q : String) (present : List String) (ts : R) (rows : List (Row R))
      → IsKeyed rows
      → IsKeyed (seed_pair cfg present ts p q rows)
  unfolding seed_pair
  seed_pair-IsKeyed p q present ts rows h =
      let a = stable_workload p in
      let b = stable_workload q in
      let skipped : Bool = a == b || not (contains present a && contains present b) in
      elim (Bool-cases skipped) [
        | inl e ↦ rw e h
        | inr e ↦ elim (Bool-cases (text_le a b)) [
          | inl o ↦ rw (e, o) (seed_key-IsKeyed a b ts rows h)
          | inr o ↦ rw (e, o) (seed_key-IsKeyed b a ts rows h)
        ]
      ]

  seed_structural-IsKeyed :
      (pairs : Pairs) (present : List String) (ts : R) (rows : List (Row R))
      → IsKeyed rows
      → IsKeyed (seed_structural cfg pairs present ts rows)
  unfolding seed_structural
  seed_structural-IsKeyed [] present ts rows h = h
  seed_structural-IsKeyed ((p, q) ∷ pairs) present ts rows h =
      seed_structural-IsKeyed pairs present ts (seed_pair cfg present ts p q rows)
        (seed_pair-IsKeyed p q present ts rows h)

  -- The updates of a pass keep the primary key: if no key has two rows before, none has after.
  pub update_edges-IsKeyed :
      (shared : Option Pairs) (edges : List (Edge R)) (present : List String) (ts : R)
      (rows : List (Row R))
      → IsKeyed rows
      → IsKeyed (update_edges cfg shared edges present ts rows)
  unfolding update_edges
  update_edges-IsKeyed none edges present ts rows h =
      decay_absent_edges-IsKeyed _ present ts _ (confirm_edges-IsKeyed edges ts rows h)
  update_edges-IsKeyed (some pairs) edges present ts rows h =
      decay_absent_edges-IsKeyed _ present ts _
        (confirm_edges-IsKeyed edges ts _ (seed_structural-IsKeyed pairs present ts rows h))
