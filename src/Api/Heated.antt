-- ===== src/Api/Heated.antt =====
-- The rows of `pods` after one series.
use mathlib.Core.Option.{some-injective}
use abb_accelerator_submissi.Prelude.{
  ◌≡◌, refl, sym, subst, inl, inr, some, List, String, Bool-cases, Option-cases, Float, nought, ◌≼◌,
  IsRounded, le_of_not-le, ◌==◌, text_key, ==_refl, lookup, put, lookup-put,
}
use abb_accelerator_submissi.Api.Pods.{Heat, Rows, row_of, heated}

abbrev pub LevelKey : Type 0
LevelKey = String × String × String

module _ {R : Type 0} ⦃f : Float R⦄ where
  -- What is stored: rows of their workload, with rounded values.
  unfoldable pub IsSteady : String → Heat R → Type 0
  IsSteady w r = (r.workload ≡ w) × (f.round r.value 4 ≡ r.value)

  unfoldable pub AllSteady : Rows R → Type 0
  AllSteady out = (w : String) (r : Heat R) → lookup w out ≡ some r → IsSteady w r

  unfoldable pub AtLeast : Rows R → String → R → Type 0
  AtLeast out w b = (r : Heat R) × (lookup w out ≡ some r) × (b ≼ r.value)

  unfoldable pub next : List String → LevelKey → R → Rows R → Rows R
  next flagged k val out = put k.1 (heated flagged k val (row_of k out)) out

module _ {R : Type 0} ⦃f : Float R⦄ (laws : IsRounded R)
    (short : (x : R) → f.round (f.round x 4) 4 ≡ f.round x 4) (still : f.round nought 4 ≡ nought)
    (flagged : List String) where
  open laws use {ordered, round_mono}

  row_of-some :
      (k : LevelKey) (r : Heat R) (out : Rows R) → lookup k.1 out ≡ some r → row_of k out ≡ r
  row_of-some k r out e = rw (e, row_of) refl

  pub row_of-IsSteady : (k : LevelKey) (out : Rows R) → AllSteady out → IsSteady k.1 (row_of k out)
  unfolding IsSteady AllSteady
  row_of-IsSteady k out h = elim (Option-cases (lookup k.1 out)) [
    | inl e ↦ rw (e, row_of) (refl, still)
    | inr (r, e) ↦ subst (IsSteady k.1) (sym (row_of-some k r out e)) (h k.1 r e)
  ]

  -- A row that is heated is steady, and at least as hot as it was and as the level.
  record IsHeated (k : LevelKey) (val : R) (cur row : Heat R) : Type 0 where
    steady : IsSteady k.1 row
    above_level : f.round val 4 ≼ row.value
    above_row : cur.value ≼ row.value

  heated-IsHeated :
      (k : LevelKey) (val : R) (cur : Heat R)
      → IsSteady k.1 cur
      → IsHeated k val cur (heated flagged k val cur)
  unfolding heated IsSteady
  heated-IsHeated k val cur (named, whole) = elim (Bool-cases (f.le cur.value val)) [
    | inl up ↦ record {
      steady = rw up (named, short val);
      above_level = rw up (ordered.le_refl _);
      above_row = rw up (subst (λ x. x ≼ f.round val 4) whole (round_mono cur.value val 4 up));
    }
    | inr down ↦ record {
      steady = rw down (named, whole);
      above_level = rw down (
          subst (λ x. f.round val 4 ≼ x) whole
            (round_mono val cur.value 4 (le_of_not-le ordered cur.value val down)));
      above_row = rw down (ordered.le_refl _);
    }
  ]

  next-IsHeated :
      (k : LevelKey) (val : R) (out : Rows R)
      → AllSteady out
      → IsHeated k val (row_of k out) (heated flagged k val (row_of k out))
  next-IsHeated k val out h = heated-IsHeated k val (row_of k out) (row_of-IsSteady k out h)

  pub next-AllSteady :
      (k : LevelKey) (val : R) (out : Rows R) → AllSteady out → AllSteady (next flagged k val out)
  unfolding next AllSteady
  next-AllSteady k val out h w r found = elim (Bool-cases (k.1 == w)) [
    | inr other ↦
        h w r (rw (lookup-put k.1 w (heated flagged k val (row_of k out)) out, other) at found)
    | inl same ↦
        subst (IsSteady w)
          (some-injective _ _
            (rw (lookup-put k.1 w (heated flagged k val (row_of k out)) out, same) at found))
          (subst (λ x. IsSteady x (heated flagged k val (row_of k out)))
            ((text_key.same_iff k.1 w).0 same) (next-IsHeated k val out h).steady)
  ]

  pub next-new :
      (k : LevelKey) (val : R) (out : Rows R)
      → AllSteady out
      → AtLeast (next flagged k val out) k.1 (f.round val 4)
  unfolding next AtLeast
  next-new k val out h = (
    heated flagged k val (row_of k out),
    rw (lookup-put k.1 k.1 (heated flagged k val (row_of k out)) out, ==_refl k.1) refl,
    (next-IsHeated k val out h).above_level,
  )

  pub next-AtLeast :
      (k : LevelKey) (val : R) (out : Rows R) (w : String) (b : R)
      → AllSteady out
      → AtLeast out w b
      → AtLeast (next flagged k val out) w b
  unfolding next AtLeast
  next-AtLeast k val out w b h (r, found, le) = elim (Bool-cases (k.1 == w)) [
    | inr other ↦
        (r, rw (lookup-put k.1 w (heated flagged k val (row_of k out)) out, other) found, le)
    | inl same ↦
        let old = row_of-some k r out (rw ((text_key.same_iff k.1 w).0 same) found) in
        let more =
          subst (λ x. x.value ≼ (heated flagged k val (row_of k out)).value) old
            (next-IsHeated k val out h).above_row in
        (
          heated flagged k val (row_of k out),
          rw (lookup-put k.1 w (heated flagged k val (row_of k out)) out, same) refl,
          ordered.le_trans b r.value _ le more,
        )
  ]
