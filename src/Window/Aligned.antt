-- ===== src/Window/Aligned.antt =====
-- The vectors that `build_inputs` hands to a pass.
use abb_accelerator_submissi.Prelude.{
  ◌≡◌, refl, ap, ◌∙◌, inl, inr, Option, some, List, [], ◌∷◌, map, select, String, Float, All,
  Bool-cases, Option-cases, unguard, is_some, ◌==◌, text_key, subst, nought, sym, true, Memᴰ,
  All-imp, IsRounded, sort, put, contains, ◌&&◌, max, number_key,
}
use mathlib.Core.Option.{some-injective}
use abb_accelerator_submissi.Cases.{link_key}
use abb_accelerator_submissi.Events.{Vectors}
use abb_accelerator_submissi.Window.{
  Sample, Point, Raw, grid_of, hold, or_zero, last_time, covers, to_vector, to_vectors, collect,
  vectors_by_signal, stamped, series_of, not_after_point, entry,
}
use abb_accelerator_submissi.Window.Lengths.{AreAligned, to_vectors-AreAligned}
use abb_accelerator_submissi.Window.Grid.{IsStepped, held, hold-held}

map-map {ℓ κ μ} :
    {A : Type ℓ} {B : Type κ} {C : Type μ} (g : B → C) (h : A → B) (xs : List A)
    → map g (map h xs) ≡ map (λ x. g (h x)) xs
map-map g h [] = refl
map-map g h (x ∷ xs) = ap (λ ys. g (h x) ∷ ys) (map-map g h xs)

module _ {R : Type 0} ⦃f : Float R⦄ (epoch : String → Option R)
    (whole : List (String × List (Sample R))) where
  -- The points of a signal and a pod come from a series of the window.
  record IsRead (q : (String × String) × List (Point R)) : Type 0 where
    key : String
    samples : List (Sample R)
    there : Memᴰ (key, samples) whole
    named : series_of key ≡ some q.0
    points : q.1 ≡ sort not_after_point (stamped epoch samples)

  put-IsRead :
      (a : String × String) (pts : List (Point R)) (raw : Raw R)
      → IsRead (a, pts)
      → All IsRead raw
      → All IsRead (put a pts raw)
  unfolding put
  put-IsRead a pts [] h hs = (h, tt)
  put-IsRead a pts ((b, w) ∷ raw) h hs = elim (Bool-cases (b == a)) [
    | inl e ↦ rw e (subst (λ c. IsRead (c, pts)) (sym ((link_key.same_iff b a).0 e)) h, hs.1)
    | inr e ↦ rw e (hs.0, put-IsRead a pts raw h hs.1)
  ]

  collect-taken :
      (wanted : List String) (raw : Raw R) (latest : R) (key : String) (samples : List (Sample R))
      (window : List (String × List (Sample R))) (k : String × String)
      → let pts = sort not_after_point (stamped epoch samples) in
        series_of key ≡ some k
        → (contains wanted k.0 && covers pts) ≡ true
        → collect epoch wanted raw latest ((key, samples) ∷ window)
          ≡ collect epoch wanted (put k pts raw) (max latest (last_time pts)) window
  unfolding collect
  collect-taken wanted raw latest key samples window k e taken = rw (e, taken, collect) refl

  collect-IsRead :
      (wanted : List String) (raw : Raw R) (latest : R) (window : List (String × List (Sample R)))
      → All (λ s. Memᴰ s whole) window
      → All IsRead raw
      → All IsRead (collect epoch wanted raw latest window).0
  unfolding collect
  collect-IsRead wanted raw latest [] there h = h
  collect-IsRead wanted raw latest ((key, samples) ∷ window) there h =
      let pts = sort not_after_point (stamped epoch samples) in
      let rest = collect-IsRead wanted raw latest window there.1 h in
      elim (Option-cases (series_of key)) [
        | inl e ↦ rw (e, collect) rest
        | inr (k, e) ↦ elim (Bool-cases (contains wanted k.0 && covers pts)) [
          | inr skipped ↦ rw (e, skipped, collect) rest
          | inl taken ↦
              subst (λ (c : Raw R × R). All IsRead c.0)
                (sym (collect-taken wanted raw latest key samples window k e taken))
                (collect-IsRead wanted (put k pts raw) (max latest (last_time pts)) window there.1 (
                  put-IsRead k pts raw
                    (record {
                      key = key;
                      samples = samples;
                      there = there.0;
                      named = e;
                      points = refl;
                    })
                    h))
        ]
      ]

  module _ (laws : IsRounded R) (step : R) (stepped : IsStepped R step) where
    -- A vector of a signal and a pod on the grid that ends at `latest`: its entries, in the order of the times of the
    -- grid, are what a search of the sorted points of a series of the pod gives for these times, 0 where it gives none.
    pub record IsSampled (latest : R) (sig pod : String) (v : List R) : Type 0 where
      pub key : String
      pub samples : List (Sample R)
      pub there : Memᴰ (key, samples) whole
      pub named : series_of key ≡ some (sig, pod)
      pub first : Point R
      pub others : List (Point R)
      pub points : sort not_after_point (stamped epoch samples) ≡ first ∷ others
      pub on_grid :
          v
          ≡ map
              (λ gt. or_zero step (entry step (held laws step first others gt) gt))
              (grid_of step latest)

    abbrev pub AreSampled : R → String × Vectors R → Type 0
    AreSampled latest sv = All (λ pv. IsSampled latest sv.0 pv.0 pv.1) sv.1

    to_vector-IsSampled :
        (latest : R) (sig pod : String) (pts : List (Point R)) (v : List R)
        → IsRead ((sig, pod), pts)
        → to_vector step latest (grid_of step latest) pts ≡ some v
        → IsSampled latest sig pod v
    unfolding to_vector
    to_vector-IsSampled latest sig pod [] v read h = absurd (cc h)
    to_vector-IsSampled latest sig pod (p ∷ pts) v read h =
        let grid = grid_of step latest in
        let h1 =
          (unguard {b = f.lt (last_time (p ∷ pts)) (f.sub latest (f.mul (f.of_nat 2) step))} h).1 in
        elim (Bool-cases (covers (select is_some (hold step p pts grid)))) [
          | inr e ↦ absurd (cc (rw e at h1))
          | inl e ↦
              let same : map (or_zero step) (hold step p pts grid) ≡ v =
                some-injective _ _ (rw e at h1) in
              let each = hold-held laws step stepped latest _ p pts (sym read.points) in
              record {
                key = read.key;
                samples = read.samples;
                there = read.there;
                named = read.named;
                first = p;
                others = pts;
                points = sym read.points;
                on_grid =
                    sym same
                    ∙ ap (map (or_zero step)) each
                    ∙ map-map (or_zero step) (λ gt. entry step (held laws step p pts gt) gt) grid;
              }
        ]

    to_vectors-AreSampled :
        (latest : R) (sig : String) (raw : Raw R)
        → All IsRead raw
        → AreSampled latest (sig, to_vectors step latest (grid_of step latest) sig raw)
    unfolding to_vectors
    to_vectors-AreSampled latest sig [] h = tt
    to_vectors-AreSampled latest sig (((of_sig, pod), pts) ∷ raw) h =
        let rest = to_vectors-AreSampled latest sig raw h.1 in
        elim (Bool-cases (of_sig == sig)) [
          | inr other ↦ rw (other, to_vectors) rest
          | inl same ↦ elim (Option-cases (to_vector step latest (grid_of step latest) pts)) [
            | inl dropped ↦ rw (same, dropped, to_vectors) rest
            | inr (v, kept) ↦
                let read =
                  subst (λ s. IsRead ((s, pod), pts)) ((text_key.same_iff of_sig sig).0 same) h.0 in
                rw (same, kept, to_vectors)
                  (to_vector-IsSampled latest sig pod pts v read kept, rest)
          ]
        ]

    all-AreSampled :
        (wanted : List String) (latest : R) (raw : Raw R)
        → All IsRead raw
        → All
            (AreSampled latest)
            (map (λ sig. (sig, to_vectors step latest (grid_of step latest) sig raw)) wanted)
    all-AreSampled [] latest raw h = tt
    all-AreSampled (sig ∷ wanted) latest raw h =
        (to_vectors-AreSampled latest sig raw h, all-AreSampled wanted latest raw h)

every_member {ℓ} : {A : Type ℓ} (xs : List A) → All (λ x. Memᴰ x xs) xs
every_member [] = tt
every_member (x ∷ xs) = (
  Memᴰ.head refl,
  All-imp (λ s. Memᴰ s xs) (λ s. Memᴰ s (x ∷ xs)) (λ s m. Memᴰ.tail m) xs (every_member xs),
)

module _ {R : Type 0} ⦃f : Float R⦄ (laws : IsRounded R) (step : R)
    (stepped : IsStepped R step) where
  pub vectors_by_signal-IsAligned :
      (epoch : String → Option R) (wanted : List String) (window : List (String × List (Sample R)))
      → let latest = (collect epoch wanted [] nought window).1 in
        All (AreAligned step) (vectors_by_signal step epoch wanted window)
        × All
            (AreSampled epoch window laws step stepped latest)
            (vectors_by_signal step epoch wanted window)
  unfolding vectors_by_signal
  vectors_by_signal-IsAligned epoch wanted window =
      let (raw, latest) = collect epoch wanted [] nought window in
      (
        to_vectors-AreAligned step wanted latest raw,
        all-AreSampled epoch window laws step stepped wanted latest raw
            (collect-IsRead epoch window wanted [] nought window (every_member window) tt),
      )
