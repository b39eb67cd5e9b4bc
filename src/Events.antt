-- ===== src/Events.antt =====
-- correlation/engine/pipeline.py, the detection of `run_pass`: which pods deviate, where the centre of
-- the event is, and the findings.
pub mod Gating
use abb_accelerator_submissi.Prelude.{
  ℕ, zero, suc, ◌-◌, ◌/◌, Bool, true, false, not, ◌&&◌, Option, none, some, List, [], ◌∷◌, map,
  String, length, take, drop, last_items, any, select, ltb, leb, if◌then◌else◌, Float, one, abs,
  min, lookup, best_from, text_key, number_key, ◌==◌,
}
use abb_accelerator_submissi.Gate.{Witness, couples, evidence_key}
use abb_accelerator_submissi.Detectors.{Numpy, Onset, Shape, cusum_onsets, classify, dt_s, nat_min}

pub record Finding (R : Type 0) : Type 0 where
  pub pod : String
  pub shape : Shape
  pub onset_s : R
  pub severity : R
  pub n_onsets : ℕ

abbrev pub Vectors : Type 0 → Type 0
Vectors R = List (String × List R)

abbrev pub Onsets : Type 0 → Type 0
Onsets R = List (String × List (Onset R))

-- The optional arguments of `run_pass`. No baselines means that the pass is not gated.
pub record Options (R : Type 0) : Type 0 where
  pub slo_breach : List String
  pub caps : List (String × R)
  pub window : Option ℕ
  pub write_vectors : Vectors R
  pub baselines : Option (List (String × Option R))
  pub recent : Option ℕ

abbrev pub keys {ℓ} : {A : Type ℓ} → List (String × A) → List String
keys = map (λ e. e.0)

abbrev pub values_of {ℓ} : {A : Type ℓ} → String → List (String × List A) → List A
values_of p d = elim (lookup p d) [ none ↦ [] | some v ↦ v ]

-- `|a - b|` on indices
abbrev pub distance : ℕ → ℕ → ℕ
distance a b = if ltb a b then b - a else a - b

-- A falsy number, `None` or 0, is no number.
abbrev pub truthy : Option ℕ → Option ℕ
truthy (some (suc n)) = some (suc n)
truthy _ = none

abbrev pub slice {ℓ} : {A : Type ℓ} → ℕ → ℕ → List A → List A
slice lo window v = take window (drop lo v)

module _ {R : Type 0} where
  -- The onset nearest to the centre of the event, the first of several; without a centre, the first.
  unfoldable pub nearer : ℕ → Onset R → Onset R → Bool
  nearer c o m = leb (distance m.idx c) (distance o.idx c)

  unfoldable pub event_onset : Option ℕ → Onset R → List (Onset R) → Onset R
  unfolding nearer best_from
  event_onset none o os = o
  event_onset (some c) o os = best_from (nearer c) o os

module _ {R : Type 0} ⦃f : Float R⦄ where
  abbrev pub not_weaker_onset : Onset R → Onset R → Bool
  not_weaker_onset o m = not (f.lt (abs m.zpeak) (abs o.zpeak))

  -- The loop that looks for the centre: the strongest onset of each pod, against the best so far.
  unfoldable pub center_from : R → Option ℕ → Onsets R → List String → Option ℕ
  unfolding lookup best_from
  center_from best center raw [] = center
  center_from best center raw (p ∷ pods) = elim (values_of p raw) [
    | [] ↦ center_from best center raw pods
    | o ∷ os ↦
        let m = best_from not_weaker_onset o os in
        let better = f.lt best (abs m.zpeak) in
        center_from (if better then abs m.zpeak else best) (if better then some m.idx else center)
          raw pods
  ]

  abbrev pub onset_time : Onset R → R
  onset_time o = f.mul (f.of_nat o.idx) dt_s

  abbrev pub onset_times : List (Finding R) → List (String × R)
  onset_times = map (λ x. (x.pod, x.onset_s))

  -- The start of the slice that is centred on the event, if there is a window and an event.
  unfoldable pub slice_from : Options R → Vectors R → Option ℕ → Option (ℕ × ℕ)
  slice_from opts vectors c = elim (truthy opts.window) [
    | none ↦ none
    | some w ↦ elim c [
      | none ↦ none
      | some i ↦
          let n : ℕ = elim vectors [ [] ↦ 0 | e ∷ _ ↦ length e.1 ] in
          some (nat_min (i - w / 3) (n - w), w)
    ]
  ]

  abbrev pub sliced : Option (ℕ × ℕ) → Vectors R → Vectors R
  sliced none vectors = vectors
  sliced (some (lo, w)) vectors = map (λ e. (e.0, slice lo w e.1)) vectors

  unfoldable pub center : Witness → Onsets R → Option ℕ
  unfolding center_from couples
  center witness raw =
      let pods = keys raw in
      let coupled = select (λ p. any (λ q. not (q == p) && couples witness p q) pods) pods in
      center_from (f.neg one) none raw (elim coupled [ [] ↦ pods | p ∷ ps ↦ p ∷ ps ])

  module _ (np : Numpy R) where
    -- The onsets that are not weak.
    unfoldable pub strong_onsets : List R → List (Onset R)
    unfolding cusum_onsets
    strong_onsets v = select (λ o. f.le (f.of_nat 3) (abs o.zpeak)) (cusum_onsets np v)

    -- The pod deviates from its learned level, over the recent tail.
    unfoldable pub deviates : Options R → String → List R → Bool
    unfolding lookup
    deviates opts pod v = elim opts.baselines [
      | none ↦ true
      | some baselines ↦ elim (lookup pod baselines) [
        | none ↦ false
        | some none ↦ false
        | some (some thr) ↦
            let tail : List R = elim (truthy opts.recent) [ none ↦ v | some n ↦ last_items n v ] in
            not (f.le (np.percentile_90 tail) thr)
      ]
    ]

    unfoldable pub raw_onsets : Options R → Vectors R → Onsets R
    unfolding strong_onsets deviates
    raw_onsets opts [] = []
    raw_onsets opts ((pod, v) ∷ vectors) =
        let rest = raw_onsets opts vectors in
        elim (strong_onsets v) [
          | [] ↦ rest
          | o ∷ os ↦ if deviates opts pod v then (pod, o ∷ os) ∷ rest else rest
        ]

    unfoldable pub findings_of : Options R → Vectors R → Option ℕ → Onsets R → List (Finding R)
    unfolding event_onset classify lookup
    findings_of opts vectors c [] = []
    findings_of opts vectors c ((pod, ons) ∷ raw) =
        let rest = findings_of opts vectors c raw in
        elim ons [
          | [] ↦ rest
          | o ∷ os ↦
              let ev = event_onset c o os in
              record {
                pod = pod;
                shape = classify np (values_of pod vectors) ev.idx (lookup pod opts.caps);
                onset_s = onset_time ev;
                severity = min (f.div (abs ev.zpeak) (f.of_nat 10)) one;
                n_onsets = length (o ∷ os);
              }
              ∷ rest
        ]

    unfoldable pub write_onsets : Option ℕ → Vectors R → List (String × R)
    unfolding strong_onsets event_onset
    write_onsets c [] = []
    write_onsets c ((pod, v) ∷ vectors) =
        let rest = write_onsets c vectors in
        elim (strong_onsets v) [
          | [] ↦ rest
          | o ∷ os ↦ (pod, onset_time (event_onset c o os)) ∷ rest
        ]
