-- ===== src/Cases/Nearest.antt =====
-- The search for the nearest stored case: what it finds and that nothing exceeds it.
use mathlib.Core.Option.{some-injective}
use abb_accelerator_submissi.Prelude.{
  ◌≡◌, refl, sym, subst, inl, inr, true, false, Option, none, some, List, [], ◌∷◌, Memᴰ, Bool-cases,
  Float, ◌≼◌, All, IsOrdered, le_of_lt, le_of_not-lt, lt_of_le_lt,
}
use abb_accelerator_submissi.Cases.{Case, Fingerprint, nearest, case_sim}

module _ {R : Type 0} ⦃f : Float R⦄ where
  -- What the search leaves: the case and the similarity that it had, or a stored case that is strictly more similar.
  pub data Won (fp : Fingerprint) (best : Option (Case R)) (sim : R) (cases : List (Case R))
      : Option (Case R) × R → Type 0 where
    held : Won fp best sim cases (best, sim)
    won :
        (c : Case R)
        → Memᴰ c cases
        → f.lt sim (case_sim fp c) ≡ true
        → Won fp best sim cases (some c, case_sim fp c)

  later :
      (fp : Fingerprint) (best : Option (Case R)) (sim : R) (c : Case R) (cases : List (Case R))
      (r : Option (Case R) × R)
      → Won fp best sim cases r
      → Won fp best sim (c ∷ cases) r
  later fp best sim c cases _ held = held
  later fp best sim c cases _ (won d h e) = won d (Memᴰ.tail h) e

  nearest-more :
      (fp : Fingerprint) (best : Option (Case R)) (sim : R) (c : Case R) (cases : List (Case R))
      → f.lt sim (case_sim fp c) ≡ true
      → nearest fp best sim (c ∷ cases) ≡ nearest fp (some c) (case_sim fp c) cases
  unfolding nearest
  nearest-more fp best sim c cases e = simp (e)

  nearest-less :
      (fp : Fingerprint) (best : Option (Case R)) (sim : R) (c : Case R) (cases : List (Case R))
      → f.lt sim (case_sim fp c) ≡ false
      → nearest fp best sim (c ∷ cases) ≡ nearest fp best sim cases
  unfolding nearest
  nearest-less fp best sim c cases e = simp (e)

  module _ (laws : IsOrdered R) where
    beaten :
        (fp : Fingerprint) (best : Option (Case R)) (sim : R) (c : Case R) (cases : List (Case R))
        (r : Option (Case R) × R)
        → f.lt sim (case_sim fp c) ≡ true
        → Won fp (some c) (case_sim fp c) cases r
        → Won fp best sim (c ∷ cases) r
    beaten fp best sim c cases _ h held = won c (Memᴰ.head refl) h
    beaten fp best sim c cases _ h (won d k e) =
        won d (Memᴰ.tail k) (lt_of_le_lt laws sim (case_sim fp c) _ (le_of_lt laws _ _ h) e)

    pub nearest-Won :
        (fp : Fingerprint) (best : Option (Case R)) (sim : R) (cases : List (Case R))
        → Won fp best sim cases (nearest fp best sim cases)
    unfolding nearest
    nearest-Won fp best sim [] = held
    nearest-Won fp best sim (c ∷ cases) = elim (Bool-cases (f.lt sim (case_sim fp c))) [
      | inl e ↦
          rw (e, nearest)
            (beaten fp best sim c cases _ e (nearest-Won fp (some c) (case_sim fp c) cases))
      | inr e ↦ rw (e, nearest) (later fp best sim c cases _ (nearest-Won fp best sim cases))
    ]

    unfoldable pub IsMost : Fingerprint → R → List (Case R) → Option (Case R) × R → Type 0
    IsMost fp sim cases r = (sim ≼ r.1) × All (λ c. case_sim fp c ≼ r.1) cases

    -- the similarity never falls, and no stored case exceeds it
    pub nearest-IsMost :
        (fp : Fingerprint) (best : Option (Case R)) (sim : R) (cases : List (Case R))
        → IsMost fp sim cases (nearest fp best sim cases)
    unfolding nearest IsMost
    nearest-IsMost fp best sim [] = (laws.le_refl sim, tt)
    nearest-IsMost fp best sim (c ∷ cases) = elim (Bool-cases (f.lt sim (case_sim fp c))) [
      | inl e ↦
          let rest = nearest-IsMost fp (some c) (case_sim fp c) cases in
          subst (IsMost fp sim (c ∷ cases)) (sym (nearest-more fp best sim c cases e))
            (laws.le_trans sim (case_sim fp c) _ (le_of_lt laws _ _ e) rest.0, (rest.0, rest.1))
      | inr e ↦
          let rest = nearest-IsMost fp best sim cases in
          subst (IsMost fp sim (c ∷ cases)) (sym (nearest-less fp best sim c cases e)) (
            rest.0,
            (laws.le_trans (case_sim fp c) sim _ (le_of_not-lt laws sim _ e) rest.0, rest.1),
          )
    ]

  pub found :
      (fp : Fingerprint) (sim : R) (cases : List (Case R)) (r : Option (Case R) × R) (c : Case R)
      → Won fp none sim cases r
      → r.0 ≡ some c
      → Memᴰ c cases × (r.1 ≡ case_sim fp c)
  found fp sim cases _ c held e = absurd (cc)
  found fp sim cases _ c (won d h k) e =
      let same : d ≡ c = some-injective _ _ e in
      subst (λ x. Memᴰ x cases × (case_sim fp d ≡ case_sim fp x)) same (h, refl)

  pub missed :
      (fp : Fingerprint) (sim : R) (cases : List (Case R)) (r : Option (Case R) × R)
      → Won fp none sim cases r
      → r.0 ≡ none
      → r.1 ≡ sim
  missed fp sim cases _ held e = refl
  missed fp sim cases _ (won d h k) e = absurd (cc)
