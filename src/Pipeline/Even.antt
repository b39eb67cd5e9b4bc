-- ===== src/Pipeline/Even.antt =====
-- A pass on vectors of one length, as `build_inputs` hands them over: what `_writer_edge` asks of scipy is then defined.
use abb_accelerator_submissi.Prelude.{
  ℕ, zero, suc, ◌-◌, ◌≤◌, ◌≡◌, refl, sym, ap, ◌∙◌, Option, none, some, List, [], ◌∷◌, map, String,
  arith, Float, All, All-imp, IsRounded, length, take, drop, length-drop,
}
use abb_accelerator_submissi.Gate.{Witness}
use abb_accelerator_submissi.Lag.{Stats}
use abb_accelerator_submissi.Lag.Bounds.{IsCorrelation}
use abb_accelerator_submissi.Detectors.{Numpy}
use abb_accelerator_submissi.Ranking.Impact.{IsDamped}
use abb_accelerator_submissi.Events.{
  Vectors, Options, slice, slice_from, sliced, raw_onsets, center, findings_of,
}
use abb_accelerator_submissi.Pipeline.{Scene, Verdict, scene_of, run_pass}
use abb_accelerator_submissi.Pipeline.Rated.{IsExact}
use abb_accelerator_submissi.Pipeline.Total.{run_pass_total}

module _ {ℓ} {A : Type ℓ} where
  length-take_same :
      (n : ℕ) (xs ys : List A) → length xs ≡ length ys → length (take n xs) ≡ length (take n ys)
  length-take_same zero xs ys h = refl
  length-take_same (suc n) [] [] h = refl
  length-take_same (suc n) [] (y ∷ ys) h = absurd (omega arith)
  length-take_same (suc n) (x ∷ xs) [] h = absurd (omega arith)
  length-take_same (suc n) (x ∷ xs) (y ∷ ys) h = ap suc (length-take_same n xs ys (omega arith))

  length-take_all : (n : ℕ) (xs : List A) → n ≤ length xs → length (take n xs) ≡ n
  length-take_all zero xs h = refl
  length-take_all (suc n) [] h = absurd (omega arith)
  length-take_all (suc n) (x ∷ xs) h = ap suc (length-take_all n xs (omega arith))

  length-slice_same :
      (lo w : ℕ) (xs ys : List A)
      → length xs ≡ length ys
      → length (slice lo w xs) ≡ length (slice lo w ys)
  length-slice_same lo w xs ys h =
      length-take_same w (drop lo xs) (drop lo ys)
        (length-drop lo xs ∙ (ap (λ n. n - lo) h ∙ sym (length-drop lo ys)))

module _ {R : Type 0} where
  abbrev pub IsEven : ℕ → Vectors R → Type 0
  IsEven n = All (λ e. length e.1 ≡ n)

  -- What a writer's profile asks a coefficient of, at a lag in samples, has one length.
  abbrev pub AreAsked : Scene R → Type 0
  AreAsked s =
      All
        (λ a.
          All (λ b. (lag : ℕ) → length (take (length a.1 - lag) a.1) ≡ length (drop lag b.1))
            s.vectors)
        s.writes

  asked :
      (xs ys : List R) (lag : ℕ)
      → length xs ≡ length ys
      → length (take (length xs - lag) xs) ≡ length (drop lag ys)
  asked xs ys lag h =
      length-take_all (length xs - lag) xs (omega arith)
      ∙ (ap (λ n. n - lag) h ∙ sym (length-drop lag ys))

  -- Pairs of vectors of two lists have one length.
  AreLevel : Vectors R → Vectors R → Type 0
  AreLevel xs ys = All (λ a. All (λ b. length a.1 ≡ length b.1) ys) xs

  even-AreLevel : (n : ℕ) (xs ys : Vectors R) → IsEven n xs → IsEven n ys → AreLevel xs ys
  unfolding AreLevel
  even-AreLevel n xs ys h k =
      All-imp (λ a. length a.1 ≡ n) (λ a. All (λ b. length a.1 ≡ length b.1) ys)
        (λ a e.
          All-imp (λ b. length b.1 ≡ n) (λ b. length a.1 ≡ length b.1) (λ b e'. e ∙ sym e') ys k)
        xs h

  slices_level :
      (lo w : ℕ) (v : List R) (ys : Vectors R)
      → All (λ b. length v ≡ length b.1) ys
      → All
          (λ (b : String × List R). length (slice lo w v) ≡ length b.1)
          (map (λ (e : String × List R). (e.0, slice lo w e.1)) ys)
  slices_level lo w v [] h = tt
  slices_level lo w v (y ∷ ys) h = (length-slice_same lo w v y.1 h.0, slices_level lo w v ys h.1)

  level-AreAsked : (s : Scene R) → AreLevel s.writes s.vectors → AreAsked s
  unfolding AreLevel
  level-AreAsked s =
      All-imp (λ a. All (λ b. length a.1 ≡ length b.1) s.vectors)
        (λ a.
          All (λ b. (lag : ℕ) → length (take (length a.1 - lag) a.1) ≡ length (drop lag b.1))
            s.vectors)
        (λ a h.
          All-imp (λ b. length a.1 ≡ length b.1)
            (λ b. (lag : ℕ) → length (take (length a.1 - lag) a.1) ≡ length (drop lag b.1))
            (λ b e lag. asked a.1 b.1 lag e) s.vectors h)
        s.writes

module _ {R : Type 0} ⦃f : Float R⦄ where
  sliced-AreLevel :
      (part : Option (ℕ × ℕ)) (xs ys : Vectors R)
      → AreLevel xs ys
      → AreLevel (sliced part xs) (sliced part ys)
  unfolding AreLevel
  sliced-AreLevel none xs ys h = h
  sliced-AreLevel (some (lo, w)) [] ys h = tt
  sliced-AreLevel (some (lo, w)) (x ∷ xs) ys h =
      (slices_level lo w x.1 ys h.0, sliced-AreLevel (some (lo, w)) xs ys h.1)

module _ {R : Type 0} ⦃f : Float R⦄ (laws : IsRounded R) (damped : IsDamped R) (stats : Stats R)
    (witness : Witness) (exact : IsExact R) (valid : IsCorrelation stats) where
  pub run_pass-even_total :
      (np : Numpy R) (opts : Options R) (vectors : Vectors R) (n : ℕ)
      → IsEven n vectors
      → IsEven n opts.write_vectors
      → let raw = raw_onsets np opts vectors in
        let c = center witness raw in
        AreAsked (scene_of stats witness np opts vectors c (findings_of np opts vectors c raw))
        × ((v : Verdict R) × (run_pass stats witness np opts vectors ≡ some v))
  unfolding scene_of
  run_pass-even_total np opts vectors n h k =
      let raw = raw_onsets np opts vectors in
      let c = center witness raw in
      let part = slice_from opts vectors c in
      (
        level-AreAsked
            (scene_of stats witness np opts vectors c (findings_of np opts vectors c raw))
            (sliced-AreLevel part opts.write_vectors vectors
              (even-AreLevel n opts.write_vectors vectors k h)),
        run_pass_total laws damped stats witness exact valid np opts vectors,
      )
