-- ===== src/Prelude/Keys.antt =====
-- Keys with a Boolean equality, and Python's dictionaries over them: association lists in the order
-- of first insertion.
use Prim.Native.Nat.{ℕ, compare, Ordering}
use Prim.Native.String.{String}
use mathlib.Core.Path.{◌≡◌, refl}
use mathlib.Core.Logic.{◌↔◌, inl, inr}
use mathlib.Core.Bool.{Bool, true, false, ◌||◌}
use mathlib.Core.List.{List, [], ◌∷◌, map}
use mathlib.Core.Option.{Option, none, some, some-injective}
use native.Mathlib.Omega.{arith}
use text.Mathlib.Text.{◌==◌ as same_text}
use text.Mathlib.TextEquality.{eq_iff}
use abb_accelerator_submissi.Prelude.Tests.{if◌then◌else◌, is_some, Bool-cases}
use abb_accelerator_submissi.Prelude.Lists.{any, All}

pub record Key {ℓ} (K : Type ℓ) : Type ℓ where
  pub same : K → K → Bool
  pub same_iff : (a b : K) → (same a b ≡ true) ↔ (a ≡ b)

infix 50 ◌==◌
abbrev pub ◌==◌ {ℓ} : {K : Type ℓ} ⦃k : Key K⦄ → K → K → Bool
◌==◌ ⦃k⦄ = k.same

abbrev pub same_number : ℕ → ℕ → Bool
same_number a b = elim (compare a b) [ Ordering.eq ↦ true | _ ↦ false ]

pub same_number_iff : (a b : ℕ) → (same_number a b ≡ true) ↔ (a ≡ b)
same_number_iff a b = ground arith

instance abbrev pub number_key : Key ℕ
number_key = record { same = same_number; same_iff = same_number_iff }

instance abbrev pub text_key : Key String
text_key = record { same = same_text; same_iff = eq_iff }

pub ==_refl {ℓ} : {K : Type ℓ} ⦃k : Key K⦄ (a : K) → (a == a) ≡ true
==_refl ⦃k⦄ a = (k.same_iff a a).1 refl

-- Python's comparison of texts, by code points.
abbrev pub text_le : String → String → Bool
text_le s t = elim (Prim.Native.String.compare s t) [ Ordering.gt ↦ false | _ ↦ true ]

module _ {ℓ} {K : Type ℓ} ⦃k : Key K⦄ where
  -- Python's `x in xs` over a list or a set.
  unfoldable pub contains : List K → K → Bool
  contains [] a = false
  contains (x ∷ xs) a = x == a || contains xs a

  -- Python's `xs.add(x)` over a set.
  unfoldable pub insert : K → List K → List K
  unfolding contains
  insert a xs = if contains xs a then xs else a ∷ xs

module _ {ℓ κ} {K : Type ℓ} {V : Type κ} ⦃k : Key K⦄ where
  -- Python's `d.get(key)`.
  unfoldable pub lookup : K → List (K × V) → Option V
  lookup a [] = none
  lookup a ((b, v) ∷ d) = if b == a then some v else lookup a d

  -- Python's `d[key] = v`: the place of a key that is there is kept.
  unfoldable pub put : K → V → List (K × V) → List (K × V)
  put a v [] = (a, v) ∷ []
  put a v ((b, w) ∷ d) = if b == a then (b, v) ∷ d else (b, w) ∷ put a v d

  abbrev pub has_key : K → List (K × V) → Bool
  has_key a d = is_some (lookup a d)

  pub lookup-put :
      (a b : K) (v : V) (d : List (K × V))
      → lookup b (put a v d) ≡ (if a == b then some v else lookup b d)
  unfolding lookup put
  lookup-put a b v [] = refl
  lookup-put a b v ((c, w) ∷ d) =
      ground (arith, k.same_iff a b, k.same_iff c a, k.same_iff c b, lookup-put a b v d)

  -- an entry among the values
  pub lookup-any :
      (p : V → Bool) (a : K) (d : List (K × V)) (v : V)
      → lookup a d ≡ some v
      → p v ≡ true
      → any p (map (λ x. x.1) d) ≡ true
  unfolding lookup
  lookup-any p a [] v h pv = absurd (cc)
  lookup-any p a ((b, w) ∷ d) v h pv = elim (Bool-cases (b == a)) [
    | inl same ↦ let first = some-injective _ _ (rw same at h) in rw (first, pv) refl
    | inr other ↦ rw (lookup-any p a d v (rw other at h) pv) (ground arith)
  ]

  pub put-All {μ} :
      (P : V → Type μ) (a : K) (v : V) (d : List (K × V))
      → P v
      → All (λ x. P x.1) d
      → All (λ x. P x.1) (put a v d)
  unfolding put
  put-All P a v [] h hs = (h, tt)
  put-All P a v ((b, w) ∷ d) h hs = elim (Bool-cases (b == a)) [
    | inl e ↦ rw e (h, hs.1)
    | inr e ↦ rw e (hs.0, put-All P a v d h hs.1)
  ]
