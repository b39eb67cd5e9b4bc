-- ===== src/Memory/Table.antt =====
-- The table as a map from keys to rows: what each update does to the row of a key, and that no key
-- has two rows.
use mathlib.Core.Option
use abb_accelerator_submissi.Prelude.{
  ◌≡◌, refl, ◌↔◌, inl, inr, true, false, Option, none, some, List, [], ◌∷◌, ◌++◌, String, arith,
  Bool-cases, if◌then◌else◌, Float, text_key,
}
use abb_accelerator_submissi.Gate.{Edge}
use abb_accelerator_submissi.Memory.{
  MemoryConfig, Row, RowKey, same_key, key_of, find_row, delete_row, replace_row, edge_key,
  confirmed, confirm_edge, fades, faded, decay_absent_edges,
}

pub same_key_iff : (a b : RowKey) → (same_key a b ≡ true) ↔ (a ≡ b)
same_key_iff a b =
    ground (arith, text_key.same_iff a.0 b.0, text_key.same_iff a.1 b.1, text_key.same_iff a.2 b.2)

abbrev pub or_else {ℓ} : {A : Type ℓ} → Option A → Option A → Option A
or_else none other = other
or_else (some a) other = some a

pub or_else-none {ℓ} : {A : Type ℓ} (o : Option A) → or_else o none ≡ o
or_else-none none = refl
or_else-none (some a) = refl

module _ {R : Type 0} where
  pub find_row-append :
      (k : RowKey) (rows : List (Row R)) (row : Row R)
      → find_row k (rows ++ row ∷ [])
        ≡ or_else (find_row k rows) (if same_key (key_of row) k then some row else none)
  unfolding find_row
  find_row-append k [] row = refl
  find_row-append k (r ∷ rows) row = ground (arith, find_row-append k rows row)

  pub find_row-delete_self :
      (j k : RowKey) (rows : List (Row R))
      → same_key j k ≡ true
      → find_row k (delete_row j rows) ≡ none
  unfolding find_row
  find_row-delete_self j k [] h = refl
  find_row-delete_self j k (r ∷ rows) h = ground (
    arith,
    same_key_iff (key_of r) j,
    same_key_iff (key_of r) k,
    same_key_iff j k,
    find_row-delete_self j k rows h,
  )

  find_row-delete_ne :
      (j k : RowKey) (rows : List (Row R))
      → same_key j k ≡ false
      → find_row k (delete_row j rows) ≡ find_row k rows
  unfolding find_row
  find_row-delete_ne j k [] h = refl
  find_row-delete_ne j k (r ∷ rows) h = ground (
    arith,
    same_key_iff (key_of r) j,
    same_key_iff (key_of r) k,
    same_key_iff j k,
    find_row-delete_ne j k rows h,
  )

  -- A replaced row is the one that is found under its key; the other keys keep their rows.
  pub find_row-replace_row :
      (k : RowKey) (row : Row R) (rows : List (Row R))
      → find_row k (replace_row row rows)
        ≡ (if same_key (key_of row) k then some row else find_row k rows)
  unfolding replace_row
  find_row-replace_row k row rows =
      let j = key_of row in
      rw (find_row-append k (delete_row j rows) row) (elim (Bool-cases (same_key j k)) [
        | inl e ↦ rw (find_row-delete_self j k rows e, e)
        | inr e ↦ rw (find_row-delete_ne j k rows e, e) (or_else-none (find_row k rows))
      ])

module _ {R : Type 0} ⦃f : Float R⦄ (cfg : MemoryConfig R) where
  -- Confirming an edge writes the row of its two workloads, from the row that was there, and leaves
  -- every other row as it is.
  pub find_row-confirm_edge :
      (k : RowKey) (e : Edge R) (ts : R) (rows : List (Row R))
      → find_row k (confirm_edge cfg e ts rows) ≡ (
          if same_key (edge_key cfg e) k
          then some (confirmed cfg e ts (find_row (edge_key cfg e) rows))
          else find_row k rows)
  unfolding confirm_edge
  find_row-confirm_edge k e ts rows =
      let old = find_row (edge_key cfg e) rows in
      unfold confirmed in find_row-replace_row k (confirmed cfg e ts old) rows

  pub same_key-faded :
      (k : RowKey) (seen : List RowKey) (present : List String) (ts : R) (row : Row R)
      → same_key (key_of (faded cfg seen present ts row)) k ≡ same_key (key_of row) k
  unfolding faded
  same_key-faded k seen present ts row = elim (Bool-cases (fades cfg seen present row)) [
    | inl e ↦ rw e
    | inr e ↦ rw e
  ]

  -- The decay of a pass takes the row of a key to its faded form, and no key appears or goes.
  pub find_row-decay_absent_edges :
      (k : RowKey) (seen : List RowKey) (present : List String) (ts : R) (rows : List (Row R))
      → find_row k (decay_absent_edges cfg seen present ts rows)
        ≡ Option.map (faded cfg seen present ts) (find_row k rows)
  unfolding find_row decay_absent_edges
  find_row-decay_absent_edges k seen present ts [] = refl
  find_row-decay_absent_edges k seen present ts (row ∷ rows) =
      rw (same_key-faded k seen present ts row) (elim (Bool-cases (same_key (key_of row) k)) [
        | inl e ↦ rw e
        | inr e ↦ rw e (find_row-decay_absent_edges k seen present ts rows)
      ])
