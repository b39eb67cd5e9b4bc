-- ===== src/Memory/Hysteresis.antt =====
-- How a row of the table fares over the passes of `observe`: the floor that it keeps, and that it stays in view.
use abb_accelerator_submissi.Prelude.{
  ℕ, ◌+◌, ◌≡◌, refl, true, Option, some, List, [], ◌∷◌, String, Float, ◌≼◌, IsRounded,
}
use abb_accelerator_submissi.Gate.{Edge, Pairs}
use abb_accelerator_submissi.Memory.{MemoryConfig, Row, RowKey, find_row, update_edges}
use abb_accelerator_submissi.Memory.Bounds.{IsBounded, IsFractional}
use abb_accelerator_submissi.Memory.Later.{Leads, count_edges, Leads-refl, Leads-trans}
use abb_accelerator_submissi.Memory.Steps.{update_edges-Leads}

-- What a pass brings: the pairs on a shared disk, if there is a witness, the edges, the workloads that run, the time.
pub record Pass (R : Type 0) : Type 0 where
  pub shared : Option Pairs
  pub edges : List (Edge R)
  pub present : List String
  pub ts : R

module _ {R : Type 0} ⦃f : Float R⦄ (cfg : MemoryConfig R) where
  -- The table after passes: each seeds, confirms and decays.
  unfoldable pub after : List (Pass R) → List (Row R) → List (Row R)
  unfolding update_edges
  after [] rows = rows
  after (p ∷ passes) rows = after passes (update_edges cfg p.shared p.edges p.present p.ts rows)

  -- How many edges of a key the passes bring.
  unfoldable pub count_hits : RowKey → List (Pass R) → ℕ
  count_hits k [] = 0
  count_hits k (p ∷ passes) = count_edges cfg k p.edges + count_hits k passes

  module _ (laws : IsRounded R) (valid : IsFractional cfg) where
    after-Leads :
        (k : RowKey) (passes : List (Pass R)) (rows : List (Row R))
        → Leads cfg k (count_hits k passes) rows (after passes rows)
    unfolding after count_hits
    after-Leads k [] rows = Leads-refl cfg laws valid k rows
    after-Leads k (p ∷ passes) rows =
        let next = update_edges cfg p.shared p.edges p.present p.ts rows in
        Leads-trans cfg laws valid k (count_edges cfg k p.edges) (count_hits k passes) _ rows next _
          refl (update_edges-Leads laws cfg valid k p.shared p.edges p.present p.ts rows)
          (after-Leads k passes next)

    -- Over any passes on the table, each of which seeds the shared pairs, confirms its edges and decays the others,
    -- the row of a key is never lost and its floor never falls, it stays bounded, it keeps when it was first seen, and
    -- its hits grow by the number of edges of its key. The row is bounded at the start, the rates are fractions, and
    -- the floats have the laws of rounded arithmetic.
    pub after_floor :
        (passes : List (Pass R)) (k : RowKey) (rows : List (Row R)) (row : Row R)
        → find_row k rows ≡ some row
        → IsBounded row
        → (new : Row R) × (find_row k (after passes rows) ≡ some new)
          × (row.base_conf ≼ new.base_conf)
          × IsBounded new
          × (new.first_seen_ts ≡ row.first_seen_ts)
          × (new.hits ≡ row.hits + count_hits k passes)
    unfolding Leads
    after_floor passes k rows row found h =
        let (new, there, l) = after-Leads k passes rows row found h in
        (new, there, l.floor, l.bounded, l.first, l.count)

    -- An edge that is shown, and whose floor is at or above `hide`, stays shown over any passes on the table, each of
    -- which seeds, confirms and decays. The row is bounded at the start, the rates are fractions, and the floats have
    -- the laws of rounded arithmetic.
    pub after-visible :
        (passes : List (Pass R)) (k : RowKey) (rows : List (Row R)) (row : Row R)
        → find_row k rows ≡ some row
        → IsBounded row
        → row.visible ≡ true
        → cfg.hide ≼ row.base_conf
        → (new : Row R) × (find_row k (after passes rows) ≡ some new) × (new.visible ≡ true)
    unfolding Leads
    after-visible passes k rows row found h shown floor =
        let (new, there, l) = after-Leads k passes rows row found h in
        (new, there, l.shown shown floor)
