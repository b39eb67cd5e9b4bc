-- ===== src/Memory/Later.antt =====
-- What becomes of a row of `edge_memory`: what every update of `observe` keeps of it.
use mathlib.Core.Option.{some-injective}
use abb_accelerator_submissi.Prelude.{
  ℕ, suc, ◌+◌, ◌≡◌, refl, subst, ◌∙◌, true, some, List, [], ◌∷◌, arith, if◌then◌else◌, Float, ◌≼◌,
  IsRounded, le_of_lt, le-max_left, text_key,
}
use abb_accelerator_submissi.Gate.{Edge}
use abb_accelerator_submissi.Memory.{
  MemoryConfig, Row, RowKey, same_key, find_row, edge_key, confirmed, lowered, decayed,
}
use abb_accelerator_submissi.Memory.Bounds.{
  IsBounded, IsFractional, confirmed-IsBounded, lowered-InUnit,
}

module _ {R : Type 0} ⦃f : Float R⦄ (cfg : MemoryConfig R) where
  -- How a row came out of another one by `n` hits: the floor did not fall, the first sight is kept, the hits are
  -- counted, and a row that is shown with its floor at or above `hide` is still shown.
  pub record IsLater (n : ℕ) (row new : Row R) : Type 0 where
    pub floor : row.base_conf ≼ new.base_conf
    pub bounded : IsBounded new
    pub first : new.first_seen_ts ≡ row.first_seen_ts
    pub count : new.hits ≡ row.hits + n
    pub shown : row.visible ≡ true → cfg.hide ≼ row.base_conf → new.visible ≡ true

  -- The row of the key `k`, if it is bounded, is in the table that comes after, later by `n` hits.
  unfoldable pub Leads : RowKey → ℕ → List (Row R) → List (Row R) → Type 0
  Leads k n rows after =
      (row : Row R)
      → find_row k rows ≡ some row
      → IsBounded row
      → (new : Row R) × (find_row k after ≡ some new) × IsLater n row new

  -- How many of the edges are of the key.
  unfoldable pub count_edges : RowKey → List (Edge R) → ℕ
  count_edges k [] = 0
  count_edges k (e ∷ edges) =
      let rest = count_edges k edges in if same_key (edge_key cfg e) k then suc rest else rest

  module _ (laws : IsRounded R) (valid : IsFractional cfg) where
    open laws use {ordered, mul_nonneg, sub_nonneg, le-add}

    pub unchanged : (row : Row R) → IsBounded row → IsLater 0 row row
    unchanged row h = record {
      floor = ordered.le_refl row.base_conf;
      bounded = h;
      first = refl;
      count = omega arith;
      shown = λ v _. v;
    }

    pub Leads-refl : (k : RowKey) (rows : List (Row R)) → Leads k 0 rows rows
    unfolding Leads
    Leads-refl k rows row e h = (row, e, unchanged row h)

    pub Leads-trans :
        (k : RowKey) (m n t : ℕ) (a b c : List (Row R))
        → m + n ≡ t
        → Leads k m a b
        → Leads k n b c
        → Leads k t a c
    unfolding Leads
    Leads-trans k m n t a b c total p q row e h =
        let (mid, e', l) = p row e h in
        let (new, e'', r) = q mid e' l.bounded in
        (
          new,
          e'',
          record {
            floor = ordered.le_trans _ _ _ l.floor r.floor;
            bounded = r.bounded;
            first = r.first ∙ l.first;
            count = omega (arith, total, l.count, r.count);
            shown = λ v low. r.shown (l.shown v low) (ordered.le_trans _ _ _ low l.floor);
          },
        )

    -- A hit raises the confidence, and the floor only grows.
    pub confirmed-IsLater :
        (e : Edge R) (ts : R) (row : Row R)
        → IsBounded row
        → IsLater 1 row (confirmed cfg e ts (some row))
    confirmed-IsLater e ts row h = record {
      floor = unfold confirmed in le-max_left ordered row.base_conf _;
      bounded =
          confirmed-IsBounded laws cfg valid e ts (some row)
            (λ r eq. subst IsBounded (some-injective _ _ eq) h);
      first = unfold confirmed in refl;
      count = unfold confirmed in refl;
      shown = λ v _. unfold confirmed in rw v refl;
    }

    -- A pass without the edge keeps the floor, and the confidence at or above it.
    pub decayed-IsLater :
        (ts : R) (row : Row R) → IsBounded row → IsLater 0 row (decayed cfg ts row)
    unfolding decayed
    decayed-IsLater ts row h = record {
      floor = ordered.le_refl row.base_conf;
      bounded = record {
        confidence = lowered-InUnit laws cfg valid row h;
        base_conf = h.base_conf;
      };
      first = refl;
      count = omega arith;
      shown = λ v low.
          let up : cfg.hide ≼ lowered cfg row =
            ordered.le_trans cfg.hide row.base_conf _ low (le-max_left ordered row.base_conf _) in
          rw (v, up) refl;
    }

    pub raised_floor-IsLater :
        (row : Row R)
        → f.lt row.base_conf cfg.prior ≡ true
        → IsBounded row
        → IsLater 0 row (record row { base_conf = cfg.prior })
    raised_floor-IsLater row low h = record {
      floor = le_of_lt ordered row.base_conf cfg.prior low;
      bounded = record { confidence = h.confidence; base_conf = valid.prior };
      first = refl;
      count = omega arith;
      shown = λ v _. v;
    }
