-- ===== src/Cases/Registers.antt =====
-- The register of an incident: what `_promote_case` decides from the similarity to the stored cases.
use abb_accelerator_submissi.Prelude.{
  ◌≡◌, refl, inl, inr, true, false, Option, none, some, List, [], ◌∷◌, ◌++◌, ◌+◌, Memᴰ, String, any,
  arith, Bool-cases, Option-cases, Float, nought, ◌≼◌, ◌==◌, text_key, All, All-imp, IsOrdered,
  lt_of_le_lt,
}
use abb_accelerator_submissi.Memory.{MemoryConfig}
use abb_accelerator_submissi.Cases.{
  Case, Fingerprint, Promoted, Register, family_of, nearest, case_sim, fold_case, open_case,
  enter_case, merged_lead,
}
use abb_accelerator_submissi.Cases.Nearest.{nearest-Won, nearest-IsMost, IsMost, found, missed}

module _ {R : Type 0} where
  -- What a recurrence of the case `id` at the time `ts` makes of a stored case: one more occurrence, seen at `ts`,
  -- with the lead time `lead`; a case of another identifier stays.
  pub data IsFolded (id : String) (ts : R) (lead : Option R) (c : Case R) : Case R → Type 0 where
    again :
        (d : Case R)
        → c.id ≡ id
        → d.id ≡ c.id
        → d.shape ≡ c.shape
        → d.family_id ≡ c.family_id
        → d.first_seen_ts ≡ c.first_seen_ts
        → d.occurrences ≡ c.occurrences + 1
        → d.last_seen_ts ≡ ts
        → d.typical_lead_time_s ≡ lead
        → IsFolded id ts lead c d
    other : (c.id == id) ≡ false → IsFolded id ts lead c c

  -- The same case by case.
  pub data AreFolded (id : String) (ts : R) (lead : Option R)
      : List (Case R) → List (Case R) → Type 0 where
    done : AreFolded id ts lead [] []
    next :
        (c d : Case R) (cases after : List (Case R))
        → IsFolded id ts lead c d
        → AreFolded id ts lead cases after
        → AreFolded id ts lead (c ∷ cases) (d ∷ after)

module _ {R : Type 0} ⦃f : Float R⦄ where
  fold_case-AreFolded :
      (id : String) (ts : R) (lead : Option R) (cases : List (Case R))
      → AreFolded id ts lead cases (fold_case id ts lead cases)
  unfolding fold_case
  fold_case-AreFolded id ts lead [] = done
  fold_case-AreFolded id ts lead (c ∷ cases) =
      next _ _ _ _
        (elim (Bool-cases (c.id == id)) [
          | inl e ↦
              rw e (again _ ((text_key.same_iff c.id id).0 e) refl refl refl refl refl refl refl)
          | inr e ↦ rw e (other e)
        ])
        (fold_case-AreFolded id ts lead cases)

module _ {R : Type 0} where
  -- The table after a case of the identifier `id` and the family `family` is opened: no row of that identifier is
  -- replaced.
  pub data IsOpened (id family : String) (cases : List (Case R)) : List (Case R) → Type 0 where
    known : any (λ d. d.id == id) cases ≡ true → IsOpened id family cases cases
    added :
        (c : Case R)
        → any (λ d. d.id == id) cases ≡ false
        → c.id ≡ id
        → c.occurrences ≡ 1
        → c.family_id ≡ some family
        → IsOpened id family cases (cases ++ c ∷ [])

module _ {R : Type 0} ⦃f : Float R⦄ where
  -- A stored case that no stored case exceeds in similarity.
  pub record IsNearest (fp : Fingerprint) (cases : List (Case R)) (c : Case R) : Type 0 where
    pub stored : Memᴰ c cases
    pub most : All (λ d. case_sim fp d ≼ case_sim fp c) cases

  -- The decision on an incident of the key `fp`, whose own identifier is `id`.
  pub data IsRegistered (cfg : MemoryConfig R) (id : String) (fp : Fingerprint) (lead : Option R)
      (ts : R) (cases : List (Case R)) (r : Promoted R × List (Case R)) : Type 0 where
    recurred :
        (c : Case R)
        → IsNearest fp cases c
        → cfg.tau_merge ≼ case_sim fp c
        → r.0.case_register ≡ Register.recurrence
        → r.0.case_id ≡ c.id
        → r.0.case_family ≡ family_of c
        → AreFolded c.id ts (merged_lead c lead) cases r.1
        → IsRegistered cfg id fp lead ts cases r
    varied :
        (c : Case R)
        → IsNearest fp cases c
        → f.le cfg.tau_merge (case_sim fp c) ≡ false
        → cfg.tau_family ≼ case_sim fp c
        → r.0.case_register ≡ Register.variant
        → r.0.case_id ≡ id
        → r.0.case_family ≡ family_of c
        → IsOpened id (family_of c) cases r.1
        → IsRegistered cfg id fp lead ts cases r
    new :
        All (λ c. f.lt (case_sim fp c) cfg.tau_family ≡ true) cases
        → r.0.case_register ≡ Register.novel
        → r.0.case_id ≡ id
        → r.0.case_family ≡ id
        → IsOpened id id cases r.1
        → IsRegistered cfg id fp lead ts cases r

  open_case-IsOpened :
      (c : Case R) (family : String) (cases : List (Case R))
      → c.occurrences ≡ 1
      → c.family_id ≡ some family
      → IsOpened c.id family cases (open_case c cases)
  unfolding open_case
  open_case-IsOpened c family cases once own = elim (Bool-cases (any (λ d. d.id == c.id) cases)) [
    | inl e ↦ rw e (known e)
    | inr e ↦ rw e (added c e refl once own)
  ]

  module _ (laws : IsOrdered R) (cfg : MemoryConfig R) (digest : Fingerprint → String) where
    below :
        (fp : Fingerprint) (sim : R) (cases : List (Case R))
        → f.lt sim cfg.tau_family ≡ true
        → All (λ c. case_sim fp c ≼ sim) cases
        → All (λ c. f.lt (case_sim fp c) cfg.tau_family ≡ true) cases
    below fp sim cases h =
        All-imp (λ c. case_sim fp c ≼ sim) (λ c. f.lt (case_sim fp c) cfg.tau_family ≡ true)
          (λ c k. lt_of_le_lt laws (case_sim fp c) sim cfg.tau_family k h) cases

    -- An incident is a recurrence of a stored case of the greatest similarity if that reaches `tau_merge`, and then the
    -- rows of its identifier have one occurrence more, are last seen now and have the merged lead time, and the rest of
    -- them and all other rows stay; else it is a variant, in the family of that case, if the similarity reaches
    -- `tau_family`; else it is novel, and every stored case is less similar than `tau_family`. A variant and a novel
    -- case are entered with one occurrence unless their identifier is stored. `tau_family` is more than 0.
    pub enter_case-IsRegistered :
        (fp : Fingerprint) (lead : Option R) (ts : R) (cases : List (Case R))
        → f.lt nought cfg.tau_family ≡ true
        → IsRegistered cfg (digest fp) fp lead ts cases (enter_case cfg digest fp lead ts cases)
    unfolding enter_case IsMost
    enter_case-IsRegistered fp lead ts cases h =
        let near = nearest fp none nought cases in
        let won = nearest-Won laws fp none nought cases in
        let most = (nearest-IsMost laws fp none nought cases).1 in
        elim (Option-cases near.0) [
          | inl e ↦
              rw (e, enter_case)
                (new (below fp nought cases h (rw (missed fp nought cases near won e) at most)) refl
                  refl refl (open_case-IsOpened _ (digest fp) cases refl refl))
          | inr (c, e) ↦
              let (stored, sim) = found fp nought cases near c won e in
              let best : IsNearest fp cases c = record { stored = stored; most = rw sim at most } in
              elim (Bool-cases (f.le cfg.tau_merge near.1)) [
                | inl merge ↦
                    rw (e, merge, enter_case)
                      (recurred c best (rw sim at merge) refl refl refl
                        (fold_case-AreFolded c.id ts _ cases))
                | inr differs ↦ elim (Bool-cases (f.le cfg.tau_family near.1)) [
                  | inl family ↦
                      rw (e, differs, family, enter_case)
                        (varied c best (rw sim at differs) (rw sim at family) refl refl refl
                          (open_case-IsOpened _ (family_of c) cases refl refl))
                  | inr far ↦
                      rw (e, differs, far, enter_case)
                        (new
                          (below fp near.1 cases
                            (ground (arith, laws.lt-eq-not-le near.1 cfg.tau_family)) most)
                          refl refl refl (open_case-IsOpened _ (digest fp) cases refl refl))
                ]
              ]
        ]
