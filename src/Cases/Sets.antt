-- ===== src/Cases/Sets.antt =====
-- correlation/engine/state.py: the sets and the pairs of names that the incidents are compared by. A set is a list
-- without repetition.
use abb_accelerator_submissi.Prelude.{
  ◌≡◌, Bool, not, ◌&&◌, List, [], ◌∷◌, ◌++◌, String, length, select, if◌then◌else◌, Float, one, Key,
  ◌==◌, text_key, text_le, contains, insert, ◌↔◌, arith, true,
}

abbrev pub same_link : String × String → String × String → Bool
same_link a b = a.0 == b.0 && a.1 == b.1

pub same_link_iff : (a b : String × String) → (same_link a b ≡ true) ↔ (a ≡ b)
same_link_iff a b = ground (arith, text_key.same_iff a.0 b.0, text_key.same_iff a.1 b.1)

instance abbrev pub link_key : Key (String × String)
link_key = record { same = same_link; same_iff = same_link_iff }

abbrev pub link_le : String × String → String × String → Bool
link_le a b = if a.0 == b.0 then text_le a.1 b.1 else text_le a.0 b.0

-- The set of the items of a list.
unfoldable pub set_of {ℓ} : {K : Type ℓ} ⦃k : Key K⦄ → List K → List K
unfolding insert
set_of [] = []
set_of (x ∷ xs) = insert x (set_of xs)

module _ {ℓ} {K : Type ℓ} ⦃k : Key K⦄ where
  -- `len(a & b)` and `len(a | b)`
  abbrev pub common : List K → List K → List K
  common a b = select (contains b) a

  abbrev pub union : List K → List K → List K
  union a b = b ++ select (λ x. not (contains b x)) a

  unfoldable pub jaccard : {R : Type 0} ⦃f : Float R⦄ → List K → List K → R
  unfolding contains
  jaccard ⦃f⦄ [] [] = one
  jaccard ⦃f⦄ a b = f.div (f.of_nat (length (common a b))) (f.of_nat (length (union a b)))

-- The Jaccard overlap of two lists as sets.
abbrev pub overlap {ℓ} : {K : Type ℓ} ⦃k : Key K⦄ {R : Type 0} ⦃f : Float R⦄ → List K → List K → R
overlap a b = jaccard (set_of a) (set_of b)
