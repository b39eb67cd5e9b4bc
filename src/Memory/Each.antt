-- ===== src/Memory/Each.antt =====
-- A predicate on the rows of `edge_memory` that each update of one row keeps is kept by a pass.
use mathlib.Core.Option.{some-injective}
use abb_accelerator_submissi.Prelude.{
  ◌≡◌, inl, inr, Bool, not, Option, none, some, List, [], ◌∷◌, String, subst, Bool-cases,
  Option-cases, Float, ◌==◌, text_key, text_le, contains, All, All-append, All-select, ◌||◌, ◌&&◌,
}
use abb_accelerator_submissi.Workload.{stable_workload}
use abb_accelerator_submissi.Gate.{Edge, Pairs}
use abb_accelerator_submissi.Memory.{
  MemoryConfig, Row, RowKey, same_key, key_of, find_row, replace_row, set_base, edge_key, confirmed,
  confirm_edges, decayed, fades, faded, decay_absent_edges, seeded, seed_key, seed_pair,
  seed_structural, update_edges,
}

module _ {R : Type 0} ⦃f : Float R⦄ (cfg : MemoryConfig R) (P : Row R → Type 0)
    (Q : Edge R → Type 0)
    (hit : (e : Edge R) (ts : R) (old : Option (Row R))
      → Q e
      → ((row : Row R) → old ≡ some row → P row)
      → P (confirmed cfg e ts old))
    (miss : (ts : R) (row : Row R) → P row → P (decayed cfg ts row))
    (based : (row : Row R) → P row → P (record row { base_conf = cfg.prior }))
    (fresh : (a b : String) (ts : R) → P (seeded cfg a b ts)) where
  pub find_row-Each :
      (k : RowKey) (rows : List (Row R)) {row : Row R}
      → All P rows
      → find_row k rows ≡ some row
      → P row
  unfolding find_row
  find_row-Each k [] h e = absurd (cc)
  find_row-Each k (r ∷ rows) h e = elim (Bool-cases (same_key (key_of r) k)) [
    | inl s ↦ subst P (some-injective _ _ (rw s at e)) h.0
    | inr s ↦ find_row-Each k rows h.1 (rw s at e)
  ]

  confirm_edges-Each :
      (edges : List (Edge R)) (ts : R) (rows : List (Row R))
      → All Q edges
      → All P rows
      → All P (confirm_edges cfg edges ts rows)
  unfolding confirm_edges replace_row
  confirm_edges-Each [] ts rows q h = h
  confirm_edges-Each (e ∷ edges) ts rows q h = confirm_edges-Each edges ts _ q.1 (
      All-append P _ _ (All-select P _ rows h)
        (hit e ts _ q.0 (λ row. find_row-Each (edge_key cfg e) rows h), tt))

  decay_absent_edges-Each :
      (seen : List RowKey) (present : List String) (ts : R) (rows : List (Row R))
      → All P rows
      → All P (decay_absent_edges cfg seen present ts rows)
  unfolding decay_absent_edges faded
  decay_absent_edges-Each seen present ts [] h = tt
  decay_absent_edges-Each seen present ts (row ∷ rows) h = (
    elim (Bool-cases (fades cfg seen present row)) [
      | inl e ↦ rw e (miss ts row h.0)
      | inr e ↦ rw e h.0
    ],
    decay_absent_edges-Each seen present ts rows h.1,
  )

  set_base-Each :
      (k : RowKey) (rows : List (Row R)) → All P rows → All P (set_base cfg.prior k rows)
  unfolding set_base
  set_base-Each k [] h = tt
  set_base-Each k (row ∷ rows) h = (
    elim (Bool-cases (same_key (key_of row) k)) [ inl e ↦ rw e (based row h.0) | inr e ↦ rw e h.0 ],
    set_base-Each k rows h.1,
  )

  seed_key-Each :
      (a b : String) (ts : R) (rows : List (Row R)) → All P rows → All P (seed_key cfg a b ts rows)
  unfolding seed_key
  seed_key-Each a b ts rows h = elim (Option-cases (find_row (a, b, cfg.signal) rows)) [
    | inl e ↦ rw (e, seed_key) (All-append P rows _ h (fresh a b ts, tt))
    | inr (row, e) ↦ elim (Bool-cases (f.lt row.base_conf cfg.prior)) [
      | inl low ↦ rw (e, seed_key, low) (set_base-Each (a, b, cfg.signal) rows h)
      | inr enough ↦ rw (e, seed_key, enough) h
    ]
  ]

  seed_pair-Each :
      (p q : String) (present : List String) (ts : R) (rows : List (Row R))
      → All P rows
      → All P (seed_pair cfg present ts p q rows)
  unfolding seed_pair
  seed_pair-Each p q present ts rows h =
      let a = stable_workload p in
      let b = stable_workload q in
      let skipped : Bool = a == b || not (contains present a && contains present b) in
      elim (Bool-cases skipped) [
        | inl e ↦ rw e h
        | inr e ↦ elim (Bool-cases (text_le a b)) [
          | inl o ↦ rw (e, o) (seed_key-Each a b ts rows h)
          | inr o ↦ rw (e, o) (seed_key-Each b a ts rows h)
        ]
      ]

  seed_structural-Each :
      (pairs : Pairs) (present : List String) (ts : R) (rows : List (Row R))
      → All P rows
      → All P (seed_structural cfg pairs present ts rows)
  unfolding seed_structural
  seed_structural-Each [] present ts rows h = h
  seed_structural-Each ((p, q) ∷ pairs) present ts rows h =
      seed_structural-Each pairs present ts (seed_pair cfg present ts p q rows)
        (seed_pair-Each p q present ts rows h)

  pub update_edges-Each :
      (shared : Option Pairs) (edges : List (Edge R)) (present : List String) (ts : R)
      (rows : List (Row R))
      → All Q edges
      → All P rows
      → All P (update_edges cfg shared edges present ts rows)
  unfolding update_edges
  update_edges-Each none edges present ts rows q h =
      decay_absent_edges-Each _ present ts _ (confirm_edges-Each edges ts rows q h)
  update_edges-Each (some pairs) edges present ts rows q h =
      decay_absent_edges-Each _ present ts _
        (confirm_edges-Each edges ts _ q (seed_structural-Each pairs present ts rows h))
