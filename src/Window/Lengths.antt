-- ===== src/Window/Lengths.antt =====
-- The lengths of the vectors that `build_inputs` hands to a pass.
use abb_accelerator_submissi.Prelude.{
  ℕ, zero, suc, ◌-◌, ◌≡◌, refl, ap, ◌∙◌, inl, inr, some, List, [], ◌∷◌, map, length, select, String,
  Float, All, Bool-cases, Option-cases, unguard, is_some, ◌==◌, text_key, subst, number_key,
}
use mathlib.Core.Option.{some-injective}
use abb_accelerator_submissi.Cases.{link_key}
use abb_accelerator_submissi.Events.{Vectors}
use abb_accelerator_submissi.Window.{
  Point, Raw, count_from, grid_n, grid_of, advance, hold, or_zero, last_time, covers, to_vector,
  to_vectors,
}

length-map {ℓ κ} :
    {A : Type ℓ} {B : Type κ} (f : A → B) (xs : List A) → length (map f xs) ≡ length xs
length-map f [] = refl
length-map f (x ∷ xs) = ap suc (length-map f xs)

length-count_from : (k m : ℕ) → length (count_from k m) ≡ m
length-count_from k zero = refl
length-count_from k (suc m) = ap suc (length-count_from (suc k) m)

module _ {R : Type 0} ⦃f : Float R⦄ (step : R) where
  length-hold :
      (cur : Point R) (next : List (Point R)) (grid : List R)
      → length (hold step cur next grid) ≡ length grid
  unfolding hold
  length-hold cur next [] = refl
  length-hold cur next (gt ∷ grid) =
      ap suc (length-hold (advance step cur next gt).0 (advance step cur next gt).1 grid)

  length-grid_of : (latest : R) → length (grid_of step latest) ≡ 180
  unfolding grid_of
  length-grid_of latest =
      length-map (λ k. f.sub latest (f.mul step (f.of_nat (grid_n - 1 - k)))) (count_from 0 grid_n)
      ∙ length-count_from 0 grid_n

  length-to_vector :
      (latest : R) (grid : List R) (pts : List (Point R)) (v : List R)
      → to_vector step latest grid pts ≡ some v
      → length v ≡ length grid
  unfolding to_vector
  length-to_vector latest grid [] v h = absurd (cc h)
  length-to_vector latest grid (p ∷ pts) v h =
      let h1 =
        (unguard {b = f.lt (last_time (p ∷ pts)) (f.sub latest (f.mul (f.of_nat 2) step))} h).1 in
      elim (Bool-cases (covers (select is_some (hold step p pts grid)))) [
        | inl e ↦
            subst (λ w. length w ≡ length grid) (some-injective _ _ (rw e at h1))
              (length-map (or_zero step) (hold step p pts grid) ∙ length-hold p pts grid)
        | inr e ↦ absurd (cc (rw e at h1))
      ]

  length-to_vectors :
      (latest : R) (sig : String) (raw : Raw R)
      → All (λ pv. length pv.1 ≡ 180) (to_vectors step latest (grid_of step latest) sig raw)
  unfolding to_vectors
  length-to_vectors latest sig [] = tt
  length-to_vectors latest sig (((of_sig, pod), pts) ∷ raw) = elim (Bool-cases (of_sig == sig)) [
    | inr other ↦ rw (other, to_vectors) (length-to_vectors latest sig raw)
    | inl same ↦ elim (Option-cases (to_vector step latest (grid_of step latest) pts)) [
      | inl dropped ↦ rw (same, dropped, to_vectors) (length-to_vectors latest sig raw)
      | inr (v, kept) ↦
          rw (same, kept, to_vectors)
            (
              length-to_vector latest (grid_of step latest) pts v kept ∙ length-grid_of latest,
              length-to_vectors latest sig raw,
            )
    ]
  ]

  -- the vectors of one signal are on the grid
  abbrev pub AreAligned : String × Vectors R → Type 0
  AreAligned sv = All (λ pv. length pv.1 ≡ 180) sv.1

  pub to_vectors-AreAligned :
      (wanted : List String) (latest : R) (raw : Raw R)
      → All AreAligned
          (map (λ sig. (sig, to_vectors step latest (grid_of step latest) sig raw)) wanted)
  to_vectors-AreAligned [] latest raw = tt
  to_vectors-AreAligned (sig ∷ wanted) latest raw =
      (length-to_vectors latest sig raw, to_vectors-AreAligned wanted latest raw)
