-- ===== src/Cases/Promotion.antt =====
-- `_promote_case`: which verdicts become cases, and the keys of the two tables.
use abb_accelerator_submissi.Prelude.{
  ◌≡◌, refl, ◌⊎◌, inl, inr, Bool, true, false, Option, none, some, List, [], ◌∷◌, ◌++◌, String, any,
  arith, Bool-cases, Option-cases, List-cases, Float, nought, ◌==◌, ==_refl, text_key, All,
  All-append, All-imp, ◌||◌,
}
use abb_accelerator_submissi.Workload.{stable_workload}
use abb_accelerator_submissi.Ranking.{Cause}
use abb_accelerator_submissi.Pipeline.{Verdict}
use abb_accelerator_submissi.Memory.{MemoryConfig}
use abb_accelerator_submissi.Cases.{
  Case, Fingerprint, Promoted, Observation, Archive, source_rooted, victims_of, nearest, case_sim,
  fold_case, open_case, enter_case, promote_case, fingerprint, lead_time,
}

abbrev pub has_id : {R : Type 0} → List (Case R) → String → Bool
has_id cases id = any (λ d. d.id == id) cases

abbrev pub HasDistinctIds : {R : Type 0} → List (Case R) → Type 0
HasDistinctIds [] = Unit
HasDistinctIds (c ∷ cases) = (has_id cases c.id ≡ false) × HasDistinctIds cases

-- The primary key of `cases`, and the reference that `case_observations` makes to it.
pub record IsLinked {R : Type 0} (a : Archive R) : Type 0 where
  pub ids : HasDistinctIds a.cases
  pub stored : All (λ o. has_id a.cases o.case_id ≡ true) a.observations

-- What a pass that gives the case `p` makes of the archive `a`.
pub record IsRecorded {R : Type 0} ⦃f : Float R⦄ (graph : Verdict R) (a : Archive R)
    (p : Promoted R) (a' : Archive R) : Type 0 where
  pub cause : Cause R
  pub causes : List (Cause R)
  pub ranked : graph.root_cause_ranking ≡ cause ∷ causes
  pub rooted : source_rooted (stable_workload cause.pod) graph.edges ≡ true
  pub observation : Observation R
  pub of_case : observation.case_id ≡ p.case_id
  pub of_root : observation.root ≡ stable_workload cause.pod
  pub appended : a'.observations ≡ a.observations ++ observation ∷ []

-- The table after an incident.
record Grows {R : Type 0} (old : List (Case R)) (r : Promoted R × List (Case R)) : Type 0 where
  ids : HasDistinctIds r.1
  stored : has_id r.1 r.0.case_id ≡ true
  kept : (i : String) → has_id old i ≡ true → has_id r.1 i ≡ true

module _ {R : Type 0} ⦃f : Float R⦄ where
  has_id-fold_case :
      (id : String) (ts : R) (lead : Option R) (cases : List (Case R)) (i : String)
      → has_id (fold_case id ts lead cases) i ≡ has_id cases i
  unfolding fold_case
  has_id-fold_case id ts lead [] i = refl
  has_id-fold_case id ts lead (c ∷ cases) i = ground (arith, has_id-fold_case id ts lead cases i)

  fold_case-HasDistinctIds :
      (id : String) (ts : R) (lead : Option R) (cases : List (Case R))
      → HasDistinctIds cases
      → HasDistinctIds (fold_case id ts lead cases)
  unfolding fold_case
  fold_case-HasDistinctIds id ts lead [] h = tt
  fold_case-HasDistinctIds id ts lead (c ∷ cases) h = (
    ground (arith, has_id-fold_case id ts lead cases c.id),
    fold_case-HasDistinctIds id ts lead cases h.1,
  )

  has_id-append :
      (cases : List (Case R)) (c : Case R) (i : String)
      → has_id (cases ++ c ∷ []) i ≡ (has_id cases i || c.id == i)
  has_id-append [] c i = ground arith
  has_id-append (d ∷ cases) c i = ground (arith, has_id-append cases c i)

  append-HasDistinctIds :
      (cases : List (Case R)) (c : Case R)
      → HasDistinctIds cases
      → has_id cases c.id ≡ false
      → HasDistinctIds (cases ++ c ∷ [])
  append-HasDistinctIds [] c h new = (refl, tt)
  append-HasDistinctIds (d ∷ cases) c h new = (
    ground (
      arith,
      has_id-append cases c d.id,
      text_key.same_iff c.id d.id,
      text_key.same_iff d.id c.id,
    ),
    append-HasDistinctIds cases c h.1 (ground arith),
  )

  open_case-Grows :
      (cases : List (Case R)) (c : Case R) (p : Promoted R)
      → HasDistinctIds cases
      → p.case_id ≡ c.id
      → Grows cases (p, open_case c cases)
  unfolding open_case
  open_case-Grows cases c p h same = elim (Bool-cases (has_id cases c.id)) [
    | inl old ↦ rw old (record { ids = h; stored = rw same old; kept = λ i k. k })
    | inr new ↦ rw new (record {
      ids = append-HasDistinctIds cases c h new;
      stored = ground (arith, has_id-append cases c p.case_id, ==_refl c.id);
      kept = λ i k. ground (arith, has_id-append cases c i);
    })
  ]

  fold_case-Grows :
      (cases : List (Case R)) (ts : R) (lead : Option R) (p : Promoted R)
      → HasDistinctIds cases
      → has_id cases p.case_id ≡ true
      → Grows cases (p, fold_case p.case_id ts lead cases)
  fold_case-Grows cases ts lead p h known = record {
    ids = fold_case-HasDistinctIds p.case_id ts lead cases h;
    stored = rw (has_id-fold_case p.case_id ts lead cases p.case_id) known;
    kept = λ i k. rw (has_id-fold_case p.case_id ts lead cases i) k;
  }

module _ {R : Type 0} ⦃f : Float R⦄ where
  abbrev IsKnown : List (Case R) → Option (Case R) → Type 0
  IsKnown all none = Unit
  IsKnown all (some c) = has_id all c.id ≡ true

  nearest-IsKnown :
      (fp : Fingerprint) (best : Option (Case R)) (sim : R) (all cases : List (Case R))
      → IsKnown all best
      → All (λ c. has_id all c.id ≡ true) cases
      → IsKnown all (nearest fp best sim cases).0
  unfolding nearest
  nearest-IsKnown fp best sim all [] h hs = h
  nearest-IsKnown fp best sim all (c ∷ cases) h hs = elim (Bool-cases (f.lt sim (case_sim fp c))) [
    | inl e ↦ rw (e, nearest) (nearest-IsKnown fp (some c) (case_sim fp c) all cases hs.0 hs.1)
    | inr e ↦ rw (e, nearest) (nearest-IsKnown fp best sim all cases h hs.1)
  ]

  All-has_id : (cases : List (Case R)) → All (λ c. has_id cases c.id ≡ true) cases
  All-has_id [] = tt
  All-has_id (c ∷ cases) = (
    ground (arith, ==_refl c.id),
    All-imp (λ d. has_id cases d.id ≡ true) (λ d. has_id (c ∷ cases) d.id ≡ true)
        (λ d h. ground arith) cases (All-has_id cases),
  )

  module _ (cfg : MemoryConfig R) (digest : Fingerprint → String) where
    enter_case-Grows :
        (fp : Fingerprint) (lead : Option R) (ts : R) (cases : List (Case R))
        → HasDistinctIds cases
        → Grows cases (enter_case cfg digest fp lead ts cases)
    unfolding enter_case
    enter_case-Grows fp lead ts cases h =
        let near = nearest fp none nought cases in
        let known = nearest-IsKnown fp none nought cases cases tt (All-has_id cases) in
        elim (Option-cases near.0) [
          | inl e ↦ rw (e, enter_case) (open_case-Grows cases _ _ h refl)
          | inr (c, e) ↦ elim (Bool-cases (f.le cfg.tau_merge near.1)) [
            | inl merge ↦ rw (e, merge, enter_case) (fold_case-Grows cases ts _ _ h (rw e at known))
            | inr differs ↦ elim (Bool-cases (f.le cfg.tau_family near.1)) [
              | inl family ↦ rw (e, differs, family, enter_case) (open_case-Grows cases _ _ h refl)
              | inr far ↦ rw (e, differs, far, enter_case) (open_case-Grows cases _ _ h refl)
            ]
          ]
        ]

    recorded-IsLinked :
        (a : Archive R) (victims : List String) (root : String) (ts : R)
        (r : Promoted R × List (Case R))
        → IsLinked a
        → Grows a.cases r
        → IsLinked (record {
          cases = r.1;
          observations =
              a.observations
              ++ record { ts = ts; case_id = r.0.case_id; root = root; victims = victims } ∷ [];
        })
    recorded-IsLinked a victims root ts r h g = record {
      ids = g.ids;
      stored =
          All-append (λ o. has_id r.1 o.case_id ≡ true) a.observations _
            (All-imp (λ o. has_id a.cases o.case_id ≡ true) (λ o. has_id r.1 o.case_id ≡ true)
              (λ o. g.kept o.case_id) a.observations h.stored)
            (g.stored, tt);
    }

    -- `_promote_case` keeps the keys: the identifiers of the cases stay different, and every
    -- observation refers to a case that is stored.
    pub promote_case-IsLinked :
        (graph : Verdict R) (ts : R) (a : Archive R)
        → IsLinked a
        → IsLinked (promote_case cfg digest graph ts a).1
    unfolding promote_case
    promote_case-IsLinked graph ts a h = elim (List-cases graph.root_cause_ranking) [
      | inl calm ↦ rw (calm, promote_case) h
      | inr (cause, causes, ranked) ↦
          let root = stable_workload cause.pod in
          elim (Bool-cases (source_rooted root graph.edges)) [
            | inr loose ↦ rw (ranked, loose, promote_case) h
            | inl rooted ↦ elim (List-cases (victims_of root graph.blast_radius graph.edges)) [
              | inl alone ↦ rw (ranked, rooted, alone, promote_case) h
              | inr (v, vs, hit) ↦
                  rw (ranked, rooted, hit, promote_case)
                    (recorded-IsLinked a (v ∷ vs) root ts _ h (
                      enter_case-Grows (fingerprint cfg digest root (v ∷ vs) graph.edges)
                        (lead_time graph.blast_radius graph.edges) ts a.cases h.ids))
            ]
          ]
    ]

    -- A verdict that gives a case has a top cause that owns source evidence, and the pass adds one
    -- observation, of that case and of the cause's workload; a verdict that gives no case leaves both
    -- tables as they were.
    pub promote_case-IsRecorded :
        (graph : Verdict R) (ts : R) (a : Archive R)
        → (promote_case cfg digest graph ts a ≡ (none, a))
          ⊎ ((p : Promoted R) × ((promote_case cfg digest graph ts a).0 ≡ some p)
              × IsRecorded graph a p (promote_case cfg digest graph ts a).1)
    unfolding promote_case
    promote_case-IsRecorded graph ts a = elim (List-cases graph.root_cause_ranking) [
      | inl calm ↦ inl (rw (calm, promote_case) refl)
      | inr (cause, causes, ranked) ↦
          let root = stable_workload cause.pod in
          elim (Bool-cases (source_rooted root graph.edges)) [
            | inr loose ↦ inl (rw (ranked, loose, promote_case) refl)
            | inl rooted ↦ elim (List-cases (victims_of root graph.blast_radius graph.edges)) [
              | inl alone ↦ inl (rw (ranked, rooted, alone, promote_case) refl)
              | inr (v, vs, hit) ↦
                  let entered : Promoted R × List (Case R) =
                    enter_case cfg digest (fingerprint cfg digest root (v ∷ vs) graph.edges)
                      (lead_time graph.blast_radius graph.edges) ts a.cases in
                  inr (
                    entered.0,
                    rw (ranked, rooted, hit, promote_case) refl,
                    record {
                      cause = cause;
                      causes = causes;
                      ranked = ranked;
                      rooted = rooted;
                      observation = record {
                        ts = ts;
                        case_id = entered.0.case_id;
                        root = root;
                        victims = v ∷ vs;
                      };
                      of_case = refl;
                      of_root = refl;
                      appended = rw (ranked, rooted, hit, promote_case) refl;
                    },
                  )
            ]
          ]
    ]
