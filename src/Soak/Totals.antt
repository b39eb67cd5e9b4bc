-- ===== src/Soak/Totals.antt =====
-- The files and the report of a run against its records.
use mathlib.Core.List.{append_assoc, append-nil, map-append}
use abb_accelerator_submissi.Prelude.{
  ℕ, ◌≡◌, refl, sym, ap, ◌∙◌, inl, inr, Bool, false, Option, none, some, List, [], ◌∷◌, ◌++◌, map,
  String, length, select, arith, All, Bool-cases, Float, if◌then◌else◌, ◌==◌, text_key,
}
use abb_accelerator_submissi.Soak.{Sample, is_match, is_text, mark, expected}
use abb_accelerator_submissi.Soak.Rollup.{Rollup, rollup, observed, named, rate}
use abb_accelerator_submissi.Soak.Run.{
  Line, Files, Mark, Report, no_files, write_record, write_all, mark_of, series, report, summary,
}

abbrev pub is_right : Option Bool → Bool
is_right none = false
is_right (some ok) = ok

is_match-empty : (s : String) → is_match s "" ≡ false
unfolding is_match expected
is_match-empty s = elim (Bool-cases (s == "S1")) [
  | inl e ↦ rw (e, is_match, expected) refl
  | inr e1 ↦ elim (Bool-cases (s == "S2")) [
    | inl e ↦ rw (e1, e, is_match, expected) refl
    | inr e2 ↦ elim (Bool-cases (s == "S3")) [
      | inl e ↦ rw (e1, e2, e, is_match, expected) refl
      | inr e3 ↦ elim (Bool-cases (s == "S5")) [
        | inl e ↦ rw (e1, e2, e3, e, is_match, expected) refl
        | inr e5 ↦ rw (e1, e2, e3, e5, is_match, expected) refl
      ]
    ]
  ]
]

is_match-mark : (s root : String) → is_right (mark s root) ≡ is_match s root
unfolding is_match
is_match-mark s root =
    elim (expected s)
      as (λ o.
        is_right (elim o [ some (some e) ↦ some (root == e) | _ ↦ none ])
        ≡ elim o [ none ↦ false | some none ↦ false | some (some e) ↦ root == e ]) [
          | none ↦ refl
          | some none ↦ refl
          | some (some e) ↦ refl
        ]

is_right-mark :
    (s root : String) → is_right (if is_text root then mark s root else none) ≡ is_match s root
is_right-mark s root = elim (Bool-cases (root == "")) [
  | inl e ↦ rw ((text_key.same_iff root "").0 e) (sym (is_match-empty s))
  | inr e ↦ rw e (is_match-mark s root)
]

module _ {R : Type 0} where
  -- The points of a scenario, and those with the expected root.
  abbrev pub points : String → List (Mark R) → List (Mark R)
  points s = select (λ x. x.phase == s)

  abbrev pub right : List (Mark R) → List (Mark R)
  right = select (λ x. is_right x.matched)

  abbrev pub rooted : List (Mark R) → List (Mark R)
  rooted = select (λ x. is_text x.root)

  length-series : (rows : List (Sample R)) → length (series rows) ≡ length rows
  length-series [] = refl
  length-series (x ∷ rows) = omega (arith, length-series rows)

  length-points :
      (s : String) (rows : List (Sample R))
      → length (points s (series rows)) ≡ length (observed s rows)
  unfolding mark_of
  length-points s [] = refl
  length-points s (x ∷ rows) = ground (arith, length-points s rows)

  length-rooted :
      (s : String) (rows : List (Sample R))
      → length (rooted (points s (series rows))) ≡ length (named (observed s rows))
  unfolding mark_of
  length-rooted s [] = refl
  length-rooted s (x ∷ rows) = elim (Bool-cases (x.phase == s)) [
    | inr e ↦ rw e (length-rooted s rows)
    | inl e ↦ rw e (ground (arith, length-rooted s rows))
  ]

  length-right :
      (s : String) (rows : List (Sample R))
      → length (right (points s (series rows)))
        ≡ length (select (λ x. is_match s x.root) (observed s rows))
  unfolding mark_of
  length-right s [] = refl
  length-right s (x ∷ rows) = elim (Bool-cases (x.phase == s)) [
    | inr e ↦ rw e (length-right s rows)
    | inl e ↦
        let same : x.phase ≡ s = (text_key.same_iff x.phase s).0 e in
        rw e (ground (arith, length-right s rows, is_right-mark s x.root))
  ]

  rate_ap : ⦃f : Float R⦄ (k k' n n' : ℕ) → k ≡ k' → n ≡ n' → rate {R = R} k n ≡ rate k' n'
  rate_ap k k' n n' h e = rw (h, e) refl

  -- The files of the records: the line of the columns stands once, in front of one line for each record.
  abbrev pub files_of : List (Sample R) → Files R
  files_of [] = no_files
  files_of (x ∷ xs) = record {
    samples = x ∷ xs;
    timeline = Line.columns ∷ Line.cells x ∷ map Line.cells xs;
  }

  write_record-files_of :
      (rec : Sample R) (old : List (Sample R))
      → write_record rec (files_of old) ≡ files_of (old ++ rec ∷ [])
  unfolding write_record
  write_record-files_of rec [] = refl
  write_record-files_of rec (x ∷ xs) =
      ap
        (λ ls. record {
          samples = x ∷ (xs ++ rec ∷ []);
          timeline = Line.columns ∷ Line.cells x ∷ ls;
        })
        (sym (map-append Line.cells xs (rec ∷ [])))

  write_all-files_of :
      (recs old : List (Sample R)) → write_all recs (files_of old) ≡ files_of (old ++ recs)
  unfolding write_all
  write_all-files_of [] old = ap files_of (sym (append-nil old))
  write_all-files_of (rec ∷ recs) old =
      ap (write_all recs) (write_record-files_of rec old)
      ∙ write_all-files_of recs (old ++ rec ∷ [])
      ∙ ap files_of (append_assoc old (rec ∷ []) recs)

module _ {R : Type 0} ⦃f : Float R⦄ where
  -- What the summary of a scenario says, counted on the points of the series.
  pub record IsCounted (s : String) (rep : Report R) (sum : Rollup R) : Type 0 where
    pub samples : sum.samples ≡ length (points s rep.series)
    pub detected :
        sum.detect_rate
        ≡ rate (length (rooted (points s rep.series))) (length (points s rep.series))
    pub correct :
        sum.correct_rate
        ≡ rate (length (right (points s rep.series))) (length (points s rep.series))

  rollup-IsCounted :
      (iso : ℕ → String) (rows : List (Sample R)) (s : String)
      → IsCounted s (report iso rows) (rollup s rows)
  unfolding rollup report
  rollup-IsCounted iso rows s = record {
    samples = sym (length-points s rows);
    detected = rate_ap _ _ _ _ (sym (length-rooted s rows)) (sym (length-points s rows));
    correct = rate_ap _ _ _ _ (sym (length-right s rows)) (sym (length-points s rows));
  }

  -- The records that a run appends stand in the two files in their order, under one line of columns. In the report the
  -- series has one point for each; the summary counts them; and for
  -- each scenario the samples, the rate of detections and the rate of correct ones are those of its points.
  pub report-IsCounted :
      (iso : ℕ → String) (recs : List (Sample R))
      → (write_all recs no_files ≡ files_of recs)
        × ((report iso recs).summary.n_samples ≡ length recs)
        × (length (report iso recs).series ≡ length recs)
        × All (λ e. IsCounted e.0 (report iso recs) e.1) (report iso recs).per_scenario
  unfolding report summary
  report-IsCounted iso recs = (
    write_all-files_of recs [],
    length-series recs,
    length-series recs,
    (
      rollup-IsCounted iso recs "S1",
      (
        rollup-IsCounted iso recs "S2",
        (rollup-IsCounted iso recs "S3", (rollup-IsCounted iso recs "S5", tt)),
      ),
    ),
  )
