-- ===== src/Events/Gating.antt =====
-- The deviation gate of `run_pass`.
use abb_accelerator_submissi.Prelude.{
  ℕ, ◌≡◌, refl, inl, inr, true, false, Option, List, [], ◌∷◌, String, Memᴰ, Bool-cases, List-cases,
  Float, All, All-imp,
}
use abb_accelerator_submissi.Detectors.{Numpy, Onset}
use abb_accelerator_submissi.Events.{
  Vectors, Onsets, Options, strong_onsets, deviates, raw_onsets, findings_of,
}

module _ {R : Type 0} ⦃f : Float R⦄ (np : Numpy R) (opts : Options R) where
  -- No pod deviates.
  abbrev pub IsQuiet : Vectors R → Type 0
  IsQuiet vectors = All (λ e. deviates np opts e.0 e.1 ≡ false) vectors

  -- The pod has a vector that deviates, with an onset in it that is not weak.
  pub record IsDisturbed (vectors : Vectors R) (pod : String) : Type 0 where
    pub values : List R
    pub stored : Memᴰ (pod, values) vectors
    pub deviating : deviates np opts pod values ≡ true
    pub onset : Onset R
    pub onsets : List (Onset R)
    pub strong : strong_onsets np values ≡ onset ∷ onsets

  pub raw_onsets-IsQuiet : (vectors : Vectors R) → IsQuiet vectors → raw_onsets np opts vectors ≡ []
  unfolding raw_onsets
  raw_onsets-IsQuiet [] h = refl
  raw_onsets-IsQuiet ((pod, v) ∷ vectors) h = elim (List-cases (strong_onsets np v)) [
    | inl e ↦ rw (e, raw_onsets) (raw_onsets-IsQuiet vectors h.1)
    | inr (o, os, e) ↦ rw (e, h.0, raw_onsets) (raw_onsets-IsQuiet vectors h.1)
  ]

  later :
      (e : String × List R) (vectors : Vectors R) (pod : String)
      → IsDisturbed vectors pod
      → IsDisturbed (e ∷ vectors) pod
  later e vectors pod d = record {
    values = d.values;
    stored = Memᴰ.tail d.stored;
    deviating = d.deviating;
    onset = d.onset;
    onsets = d.onsets;
    strong = d.strong;
  }

  raw_onsets-IsDisturbed :
      (vectors : Vectors R) → All (λ r. IsDisturbed vectors r.0) (raw_onsets np opts vectors)
  unfolding raw_onsets
  raw_onsets-IsDisturbed [] = tt
  raw_onsets-IsDisturbed ((pod, v) ∷ vectors) =
      let rest =
        All-imp (λ r. IsDisturbed vectors r.0) (λ r. IsDisturbed ((pod, v) ∷ vectors) r.0)
          (λ r. later (pod, v) vectors r.0) (raw_onsets np opts vectors)
          (raw_onsets-IsDisturbed vectors) in
      elim (List-cases (strong_onsets np v)) [
        | inl e ↦ rw (e, raw_onsets) rest
        | inr (o, os, e) ↦ elim (Bool-cases (deviates np opts pod v)) [
          | inr quiet ↦ rw (e, quiet, raw_onsets) rest
          | inl loud ↦
              rw (e, loud, raw_onsets)
                (
                  record {
                    values = v;
                    stored = Memᴰ.head refl;
                    deviating = loud;
                    onset = o;
                    onsets = os;
                    strong = e;
                  },
                  rest,
                )
        ]
      ]

  findings_of-All :
      (P : String → Type 0) (vectors : Vectors R) (c : Option ℕ) (raw : Onsets R)
      → All (λ r. P r.0) raw
      → All (λ x. P x.pod) (findings_of np opts vectors c raw)
  unfolding findings_of
  findings_of-All P vectors c [] h = tt
  findings_of-All P vectors c ((pod, []) ∷ raw) h = findings_of-All P vectors c raw h.1
  findings_of-All P vectors c ((pod, o ∷ os) ∷ raw) h = (h.0, findings_of-All P vectors c raw h.1)

  -- Every finding of a pass is of a pod with a vector that deviates and that has an onset of
  -- strength 3 or more, wherever the centre of the event is.
  pub findings_of-IsDisturbed :
      (vectors : Vectors R) (c : Option ℕ)
      → All
          (λ x. IsDisturbed vectors x.pod)
          (findings_of np opts vectors c (raw_onsets np opts vectors))
  findings_of-IsDisturbed vectors c =
      findings_of-All (IsDisturbed vectors) vectors c (raw_onsets np opts vectors)
        (raw_onsets-IsDisturbed vectors)
