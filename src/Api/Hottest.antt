-- ===== src/Api/Hottest.antt =====
-- The rows of `pods` against the window.
use mathlib.Core.Option.{some-injective}
use abb_accelerator_submissi.Prelude.{
  ◌≡◌, refl, sym, ap, subst, ◌∙◌, inl, inr, Bool, true, ◌&&◌, none, some, List, [], ◌∷◌, map,
  String, any, arith, Option-cases, Bool-cases, Memᴰ, All, All-imp, Float, nought, IsRounded, ◌==◌,
  text_key, contains, lookup, lookup-any, put-All, sort, IsSorted, sort-IsSorted, sort-All,
  not-lt_total, not-lt_trans,
}
use abb_accelerator_submissi.Window.{Sample}
use abb_accelerator_submissi.Api.Topology.{any-sort}
use abb_accelerator_submissi.Api.Heated.{
  LevelKey, IsSteady, AllSteady, AtLeast, next, row_of-IsSteady, next-AllSteady, next-new,
  next-AtLeast,
}
use abb_accelerator_submissi.Api.Pods.{
  Heat, Rows, level, row_of, heated, heat_all, not_cooler, pods,
}

module _ {R : Type 0} ⦃f : Float R⦄ where
  -- A row of the workload with at least the level.
  abbrev pub shows : String → R → Heat R → Bool
  shows w val row = row.workload == w && f.le (f.round val 4) row.value

  -- A series that counts has such a row.
  abbrev pub IsCharted : List String → List (Heat R) → String × List (Sample R) → Type 0
  IsCharted signals rows s =
      (k : LevelKey) (val : R) → level signals s ≡ some (k, val) → any (shows k.1 val) rows ≡ true

  -- A row has its signal and its value from a series of its workload, unless its value is 0.
  pub data IsSourced (signals : List String) (window : List (String × List (Sample R)))
      (row : Heat R) : Type 0 where
    idle : row.value ≡ nought → IsSourced signals window row
    hot :
        (s : String × List (Sample R)) (k : LevelKey) (val : R)
        → Memᴰ s window
        → level signals s ≡ some (k, val)
        → k.1 ≡ row.workload
        → k.2 ≡ row.signal
        → f.round val 4 ≡ row.value
        → IsSourced signals window row

  -- The mark of a row says whether its workload is flagged.
  abbrev pub IsMarked : List String → Heat R → Type 0
  IsMarked flagged row = row.anomalous ≡ contains flagged row.workload

module _ {R : Type 0} ⦃f : Float R⦄ (laws : IsRounded R)
    (short : (x : R) → f.round (f.round x 4) 4 ≡ f.round x 4) (still : f.round nought 4 ≡ nought)
    (signals flagged : List String) where
  open laws use {ordered, round_mono}

  heat_all-out :
      (out : Rows R) (s : String × List (Sample R)) (window : List (String × List (Sample R)))
      → level signals s ≡ none
      → heat_all signals flagged out (s ∷ window) ≡ heat_all signals flagged out window
  unfolding heat_all
  heat_all-out out s window e = rw (e, heat_all) refl

  heat_all-next :
      (out : Rows R) (s : String × List (Sample R)) (window : List (String × List (Sample R)))
      (k : LevelKey) (val : R)
      → level signals s ≡ some (k, val)
      → heat_all signals flagged out (s ∷ window)
        ≡ heat_all signals flagged (next flagged k val out) window
  unfolding heat_all next
  heat_all-next out s window k val e = rw (e, heat_all) refl

  heat_all-AtLeast :
      (out : Rows R) (window : List (String × List (Sample R))) (w : String) (b : R)
      → AllSteady out
      → AtLeast out w b
      → AtLeast (heat_all signals flagged out window) w b
  unfolding heat_all
  heat_all-AtLeast out [] w b h has = has
  heat_all-AtLeast out (s ∷ window) w b h has = elim (Option-cases (level signals s)) [
    | inl e ↦
        subst (λ d. AtLeast d w b) (sym (heat_all-out out s window e))
          (heat_all-AtLeast out window w b h has)
    | inr ((k, val), e) ↦
        subst (λ d. AtLeast d w b) (sym (heat_all-next out s window k val e))
          (heat_all-AtLeast (next flagged k val out) window w b
            (next-AllSteady laws short still flagged k val out h)
            (next-AtLeast laws short still flagged k val out w b h has))
  ]

  heat_all-AllSteady :
      (out : Rows R) (window : List (String × List (Sample R)))
      → AllSteady out
      → AllSteady (heat_all signals flagged out window)
  unfolding heat_all
  heat_all-AllSteady out [] h = h
  heat_all-AllSteady out (s ∷ window) h = elim (Option-cases (level signals s)) [
    | inl e ↦ subst AllSteady (sym (heat_all-out out s window e)) (heat_all-AllSteady out window h)
    | inr ((k, val), e) ↦ subst AllSteady (sym (heat_all-next out s window k val e)) (
        heat_all-AllSteady (next flagged k val out) window
          (next-AllSteady laws short still flagged k val out h))
  ]

  -- A series that counts has an entry of its workload with at least its level.
  IsCovered : Rows R → String × List (Sample R) → Type 0
  IsCovered out s =
      (k : LevelKey) (val : R) → level signals s ≡ some (k, val) → AtLeast out k.1 (f.round val 4)

  heat_all-IsCovered :
      (out : Rows R) (window : List (String × List (Sample R)))
      → AllSteady out
      → All (IsCovered (heat_all signals flagged out window)) window
  unfolding IsCovered
  heat_all-IsCovered out [] h = tt
  heat_all-IsCovered out (s ∷ window) h = elim (Option-cases (level signals s)) [
    | inl e ↦
        subst (λ d. IsCovered d s × All (IsCovered d) window) (sym (heat_all-out out s window e))
          (λ k val named. absurd (cc), heat_all-IsCovered out window h)
    | inr ((k, val), e) ↦
        let steady = next-AllSteady laws short still flagged k val out h in
        let there =
          heat_all-AtLeast (next flagged k val out) window k.1 (f.round val 4) steady
            (next-new laws short still flagged k val out h) in
        subst (λ d. IsCovered d s × All (IsCovered d) window)
          (sym (heat_all-next out s window k val e))
          (
            λ q v named.
                subst
                  (λ (x : LevelKey × R).
                    AtLeast (heat_all signals flagged (next flagged k val out) window) x.0.1
                      (f.round x.1 4))
                  (some-injective _ _ (sym e ∙ named)) there,
            heat_all-IsCovered (next flagged k val out) window steady,
          )
  ]

  heat_all-IsMarked :
      (out : Rows R) (window : List (String × List (Sample R)))
      → AllSteady out
      → All (λ x. IsMarked flagged x.1) out
      → All (λ x. IsMarked flagged x.1) (heat_all signals flagged out window)
  unfolding heat_all next IsSteady
  heat_all-IsMarked out [] h hs = hs
  heat_all-IsMarked out (s ∷ window) h hs = elim (Option-cases (level signals s)) [
    | inl e ↦
        subst (All (λ x. IsMarked flagged x.1)) (sym (heat_all-out out s window e))
          (heat_all-IsMarked out window h hs)
    | inr ((k, val), e) ↦
        subst (All (λ x. IsMarked flagged x.1)) (sym (heat_all-next out s window k val e)) (
          heat_all-IsMarked (next flagged k val out) window
            (next-AllSteady laws short still flagged k val out h)
            (put-All (IsMarked flagged) k.1 (heated flagged k val (row_of k out)) out
              (ap (contains flagged) (sym (row_of-IsSteady laws short still flagged k out h).0))
              hs))
  ]

  lookup-All :
      (P : Heat R → Type 0) (w : String) (d : Rows R) (r : Heat R)
      → All (λ x. P x.1) d
      → lookup w d ≡ some r
      → P r
  unfolding lookup
  lookup-All P w [] r h e = absurd (cc)
  lookup-All P w ((v, x) ∷ d) r h e = elim (Bool-cases (v == w)) [
    | inl same ↦ subst P (some-injective _ _ (rw same at e)) h.0
    | inr other ↦ lookup-All P w d r h.1 (rw other at e)
  ]

  row_of-IsSourced :
      (whole : List (String × List (Sample R))) (k : LevelKey) (out : Rows R)
      → All (λ x. IsSourced signals whole x.1) out
      → IsSourced signals whole (row_of k out)
  row_of-IsSourced whole k out h = elim (Option-cases (lookup k.1 out)) [
    | inl e ↦ rw (e, row_of) (IsSourced.idle refl)
    | inr (r, e) ↦ rw (e, row_of) (lookup-All (IsSourced signals whole) k.1 out r h e)
  ]

  heated-IsSourced :
      (whole : List (String × List (Sample R))) (s : String × List (Sample R)) (k : LevelKey)
      (val : R) (cur : Heat R)
      → Memᴰ s whole
      → level signals s ≡ some (k, val)
      → cur.workload ≡ k.1
      → IsSourced signals whole cur
      → IsSourced signals whole (heated flagged k val cur)
  unfolding heated
  heated-IsSourced whole s k val cur there e named from = elim (Bool-cases (f.le cur.value val)) [
    | inl up ↦ IsSourced.hot s k val there e (sym named) (rw up refl) (rw up refl)
    | inr down ↦ elim from [
      | IsSourced.idle z ↦ IsSourced.idle (rw down z)
      | IsSourced.hot s' k' v' m e' n g r ↦ IsSourced.hot s' k' v' m e' n (rw down g) (rw down r)
    ]
  ]

  heat_all-IsSourced :
      (whole : List (String × List (Sample R))) (out : Rows R)
      (window : List (String × List (Sample R)))
      → All (λ s. Memᴰ s whole) window
      → AllSteady out
      → All (λ x. IsSourced signals whole x.1) out
      → All (λ x. IsSourced signals whole x.1) (heat_all signals flagged out window)
  unfolding heat_all next IsSteady
  heat_all-IsSourced whole out [] there h hs = hs
  heat_all-IsSourced whole out (s ∷ window) there h hs = elim (Option-cases (level signals s)) [
    | inl e ↦
        subst (All (λ x. IsSourced signals whole x.1)) (sym (heat_all-out out s window e))
          (heat_all-IsSourced whole out window there.1 h hs)
    | inr ((k, val), e) ↦
        subst (All (λ x. IsSourced signals whole x.1)) (sym (heat_all-next out s window k val e)) (
          heat_all-IsSourced whole (next flagged k val out) window there.1
            (next-AllSteady laws short still flagged k val out h)
            (put-All (IsSourced signals whole) k.1 (heated flagged k val (row_of k out)) out
              (heated-IsSourced whole s k val (row_of k out) there.0 e
                (row_of-IsSteady laws short still flagged k out h).0
                (row_of-IsSourced whole k out hs))
              hs))
  ]

  every_member : (xs : List (String × List (Sample R))) → All (λ s. Memᴰ s xs) xs
  every_member [] = tt
  every_member (x ∷ xs) = (
    Memᴰ.head refl,
    All-imp (λ s. Memᴰ s xs) (λ s. Memᴰ s (x ∷ xs)) (λ s m. Memᴰ.tail m) xs (every_member xs),
  )

  values-All : (P : Heat R → Type 0) (d : Rows R) → All (λ x. P x.1) d → All P (map (λ x. x.1) d)
  values-All P [] h = tt
  values-All P (x ∷ d) h = (h.0, values-All P d h.1)

  shown :
      (out : Rows R)
      → AllSteady out
      → (s : String × List (Sample R)) → IsCovered out s
      → IsCharted signals (sort not_cooler (map (λ x. x.1) out)) s
  unfolding AllSteady AtLeast IsCovered IsSteady
  shown out h s covered k val named =
      let (row, found, le) = covered k val named in
      any-sort not_cooler (shows k.1 val) (map (λ x. x.1) out)
      ∙ lookup-any (shows k.1 val) k.1 out row found
          (ground (arith, (h k.1 row found).0, text_key.same_iff row.workload k.1))

  pub pods-IsCharted :
      (window : List (String × List (Sample R)))
      → (rows : List (Heat R)) × (pods signals flagged (some window) ≡ some rows)
        × All (IsCharted signals rows) window
        × All (IsSourced signals window) rows
        × All (IsMarked flagged) rows
        × IsSorted not_cooler rows
  unfolding pods AllSteady lookup
  pods-IsCharted window =
      let out = heat_all signals flagged [] window in
      let start : AllSteady [] = λ w r e. absurd (cc e) in
      let steady : AllSteady out = heat_all-AllSteady [] window start in
      (
        sort not_cooler (map (λ x. x.1) out),
        refl,
        All-imp (IsCovered out) (IsCharted signals (sort not_cooler (map (λ x. x.1) out)))
            (shown out steady) window (heat_all-IsCovered [] window start),
        sort-All not_cooler (IsSourced signals window) (map (λ x. x.1) out) (
            values-All (IsSourced signals window) out
              (heat_all-IsSourced window [] window (every_member window) start tt)),
        sort-All not_cooler (IsMarked flagged) (map (λ x. x.1) out)
            (values-All (IsMarked flagged) out (heat_all-IsMarked [] window start tt)),
        sort-IsSorted not_cooler (λ a b. not-lt_total ordered (f.neg a.value) (f.neg b.value))
            (λ a b c. not-lt_trans ordered (f.neg a.value) (f.neg b.value) (f.neg c.value))
            (map (λ x. x.1) out),
      )
