-- ===== src/Prelude/Sort.antt =====
-- Python's stable `sorted(xs, key=…)` and `max(xs, key=…)`, by a Boolean test "not above".

use mathlib.Core.Path.{◌≡◌}
use mathlib.Core.Logic.{inl, inr}
use mathlib.Core.Bool.{Bool, true, false}
use mathlib.Core.List.{List, [], ◌∷◌, Perm}
use mathlib.Core.List.Perm
use mathlib.Core.Option.{Option, none, some}
use native.Mathlib.Omega.{arith}
use abb_accelerator_submissi.Prelude.Tests.{if◌then◌else◌, Bool-cases}
use abb_accelerator_submissi.Prelude.Lists.{All}

module _ {ℓ} {A : Type ℓ} (before : A → A → Bool) where
  -- The new item goes in front of the first one that it may stand before: from the right, stable.
  unfoldable pub insert_sorted : A → List A → List A
  insert_sorted x [] = x ∷ []
  insert_sorted x (y ∷ ys) = if before x y then x ∷ y ∷ ys else y ∷ insert_sorted x ys

  unfoldable pub sort : List A → List A
  unfolding insert_sorted
  sort [] = []
  sort (x ∷ xs) = insert_sorted x (sort xs)

  -- The first of the largest: a later item wins only if the best may not stand behind it.
  unfoldable pub best_from : A → List A → A
  best_from m [] = m
  best_from m (x ∷ xs) = best_from (if before x m then m else x) xs

  abbrev pub best? : List A → Option A
  best? [] = none
  best? (x ∷ xs) = some (best_from x xs)

  abbrev pub IsSorted : List A → Type ℓ
  IsSorted [] = Unit
  IsSorted (x ∷ xs) = All (λ y. before x y ≡ true) xs × IsSorted xs

  module _ {κ} (P : A → Type κ) where
    insert_sorted-All : (x : A) (xs : List A) → P x → All P xs → All P (insert_sorted x xs)
    unfolding insert_sorted
    insert_sorted-All x [] h hs = (h, tt)
    insert_sorted-All x (y ∷ ys) h hs = elim (Bool-cases (before x y)) [
      | inl e ↦ rw e (h, hs)
      | inr e ↦ rw e (hs.0, insert_sorted-All x ys h hs.1)
    ]

    pub sort-All : (xs : List A) → All P xs → All P (sort xs)
    unfolding sort
    sort-All [] h = tt
    sort-All (x ∷ xs) h = insert_sorted-All x (sort xs) h.0 (sort-All xs h.1)

    pub best_from-All : (m : A) (xs : List A) → P m → All P xs → P (best_from m xs)
    unfolding best_from
    best_from-All m [] h hs = h
    best_from-All m (x ∷ xs) h hs = elim (Bool-cases (before x m)) [
      | inl e ↦ rw e (best_from-All m xs h hs.1)
      | inr e ↦ rw e (best_from-All x xs hs.0 hs.1)
    ]

  insert_sorted-perm : (x : A) (xs : List A) → Perm (insert_sorted x xs) (x ∷ xs)
  unfolding insert_sorted
  insert_sorted-perm x [] = Perm.refl (x ∷ [])
  insert_sorted-perm x (y ∷ ys) = elim (Bool-cases (before x y)) [
    | inl e ↦ rw e (Perm.refl _)
    | inr e ↦ rw e (Perm.trans (Perm.cons y (insert_sorted-perm x ys)) (Perm.swap x y ys))
  ]

  pub sort-perm : (xs : List A) → Perm (sort xs) xs
  unfolding sort
  sort-perm [] = Perm.refl []
  sort-perm (x ∷ xs) = Perm.trans (insert_sorted-perm x (sort xs)) (Perm.cons x (sort-perm xs))

  module _ (total : (x y : A) → before x y ≡ false → before y x ≡ true)
      (trans : (x y z : A) → before x y ≡ true → before y z ≡ true → before x z ≡ true) where
    All-before :
        (x y : A) (zs : List A)
        → before x y ≡ true
        → All (λ z. before y z ≡ true) zs
        → All (λ z. before x z ≡ true) zs
    All-before x y [] h hs = tt
    All-before x y (z ∷ zs) h hs = (trans x y z h hs.0, All-before x y zs h hs.1)

    insert_sorted-IsSorted : (x : A) (xs : List A) → IsSorted xs → IsSorted (insert_sorted x xs)
    unfolding insert_sorted
    insert_sorted-IsSorted x [] s = (tt, tt)
    insert_sorted-IsSorted x (y ∷ ys) s = elim (Bool-cases (before x y)) [
      | inl e ↦ rw e ((e, All-before x y ys e s.0), s)
      | inr e ↦ rw e (
        insert_sorted-All (λ z. before y z ≡ true) x ys (total x y e) s.0,
        insert_sorted-IsSorted x ys s.1,
      )
    ]

    pub sort-IsSorted : (xs : List A) → IsSorted (sort xs)
    unfolding sort
    sort-IsSorted [] = tt
    sort-IsSorted (x ∷ xs) = insert_sorted-IsSorted x (sort xs) (sort-IsSorted xs)

    kept :
        (m x : A)
        → before m m ≡ true
        → let w : A = if before x m then m else x in
          (before m w ≡ true) × (before x w ≡ true) × (before w w ≡ true)
    kept m x r = ground (arith, total x m, total x x)

    -- The best item bounds every item, the first one included.
    pub best_from-bounds :
        (m : A) (xs : List A)
        → before m m ≡ true
        → (before m (best_from m xs) ≡ true) × All (λ x. before x (best_from m xs) ≡ true) xs
    unfolding best_from
    best_from-bounds m [] r = (r, tt)
    best_from-bounds m (x ∷ xs) r =
        let (hm, hx, hh) = kept m x r in
        let (up, rest) = best_from-bounds (if before x m then m else x) xs hh in
        (trans m _ _ hm up, (trans x _ _ hx up, rest))
