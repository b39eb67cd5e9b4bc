-- ===== src/Window.antt =====
-- correlation/service.py, `build_inputs`: the samples of the window put on one grid of wall-clock times.
-- `_epoch`, the parser of timestamps, is the parameter `epoch`. An entry of the grid without a sample,
-- NaN in the code, is `none`.
pub mod Grid
pub mod Lengths
pub mod Aligned
use Prim.Native.Char.{Char, code}
use abb_accelerator_submissi.Prelude.{
  ℕ, zero, suc, ◌-◌, Bool, not, ◌&&◌, ◌||◌, Option, none, some, List, [], ◌∷◌, map, String, length,
  select, ltb, if◌then◌else◌, Float, nought, abs, max, ◌==◌, text_key, number_key, text_le,
  contains, put, sort, is_some,
}
use abb_accelerator_submissi.Workload.{push}
use abb_accelerator_submissi.Events.{Vectors}
use abb_accelerator_submissi.Cases.{link_key, set_of}

pub record Sample (R : Type 0) : Type 0 where
  pub ts : String
  pub value : R

pub record Event : Type 0 where
  pub pod : String
  pub kind : String

-- `(t, value)`
abbrev pub Point : Type 0 → Type 0
Point R = R × R

-- The points of each signal and pod.
abbrev pub Raw : Type 0 → Type 0
Raw R = List ((String × String) × List (Point R))

abbrev pub is_slash : Char → Bool
is_slash c = code c == b'/'

-- `key.split("/")`
unfoldable pub key_parts : String → List String
key_parts String.[] = String.[] ∷ []
key_parts (String.◌∷◌ c s) =
    let parts = key_parts s in if is_slash c then String.[] ∷ parts else push c parts

abbrev pub last_part : String → List String → String
last_part p [] = p
last_part p (q ∷ parts) = last_part q parts

-- The signal and the pod of a key "ns/pod/signal": the last part and the second, of three or more.
unfoldable pub series_of : String → Option (String × String)
unfolding key_parts
series_of key = elim (key_parts key) [
  | [] ↦ none
  | ns ∷ [] ↦ none
  | ns ∷ pod ∷ [] ↦ none
  | ns ∷ pod ∷ p ∷ parts ↦ some (last_part p parts, pod)
]

-- The samples of the grid, `n`.
abbrev pub grid_n : ℕ
grid_n = 180

abbrev pub min_samples : ℕ
min_samples = 12

-- `k, k + 1, …`, of the given length
abbrev pub count_from : ℕ → ℕ → List ℕ
count_from k zero = []
count_from k (suc m) = k ∷ count_from (suc k) m

-- `len([…]) >= 12`
abbrev pub covers {ℓ} : {A : Type ℓ} → List A → Bool
covers xs = not (ltb (length xs) min_samples)

module _ {R : Type 0} ⦃f : Float R⦄ where
  -- Tuples in order: `not (b < a)`
  abbrev pub not_after_point : Point R → Point R → Bool
  not_after_point a b = not (f.lt b.0 a.0 || (f.le b.0 a.0 && (f.le a.0 b.0 && f.lt b.1 a.1)))

  unfoldable pub stamped : (String → Option R) → List (Sample R) → List (Point R)
  stamped epoch [] = []
  stamped epoch (s ∷ samples) =
      let rest = stamped epoch samples in
      elim (epoch s.ts) [ none ↦ rest | some t ↦ (t, s.value) ∷ rest ]

  -- `pts[-1][0]`
  abbrev pub last_time : List (Point R) → R
  last_time [] = nought
  last_time (p ∷ []) = p.0
  last_time (p ∷ q ∷ pts) = last_time (q ∷ pts)

  -- The loop over the window: the points of the series with 12 or more, and the latest time of all.
  unfoldable pub collect :
      (String → Option R) → List String → Raw R → R → List (String × List (Sample R)) → Raw R × R
  unfolding series_of contains stamped sort put
  collect epoch wanted raw latest [] = (raw, latest)
  collect epoch wanted raw latest ((key, samples) ∷ window) =
      let pts = sort not_after_point (stamped epoch samples) in
      let skip = collect epoch wanted raw latest window in
      elim (series_of key) [
        | none ↦ skip
        | some (sig, pod) ↦
            let take_it =
              collect epoch wanted (put (sig, pod) pts raw) (max latest (last_time pts)) window in
            if contains wanted sig && covers pts then take_it else skip
      ]

  -- `latest - step * (n - 1 - k)`
  unfoldable pub grid_of : R → R → List R
  grid_of step latest =
      map (λ k. f.sub latest (f.mul step (f.of_nat (grid_n - 1 - k)))) (count_from 0 grid_n)

  module _ (step : R) where
    -- The last time that counts for an entry of the grid.
    abbrev pub until : R → R
    until gt = f.add gt (f.div step (f.of_nat 2))

    -- The `while`: the point that is held, and the points behind it.
    unfoldable pub advance : Point R → List (Point R) → R → Point R × List (Point R)
    advance cur [] gt = (cur, [])
    advance cur (q ∷ next) gt =
        let on = advance q next gt in if f.le q.0 (until gt) then on else (cur, q ∷ next)

    abbrev pub entry : Point R → R → Option R
    entry p gt = if f.le (abs (f.sub p.0 gt)) step then some p.1 else none

    -- Sample and hold: one pass over grid and points.
    unfoldable pub hold : Point R → List (Point R) → List R → List (Option R)
    unfolding advance
    hold cur next [] = []
    hold cur next (gt ∷ grid) = let (p, rest) = advance cur next gt in entry p gt ∷ hold p rest grid

    -- Missing entries are 0.
    abbrev pub or_zero : Option R → R
    or_zero none = nought
    or_zero (some v) = v

    -- A pod without recent points, or with fewer than 12 entries, has no vector.
    unfoldable pub to_vector : R → List R → List (Point R) → Option (List R)
    unfolding hold
    to_vector latest grid [] = none
    to_vector latest grid (p ∷ pts) =
        let vec = hold p pts grid in
        if f.lt (last_time (p ∷ pts)) (f.sub latest (f.mul (f.of_nat 2) step))
        then none
        else if covers (select is_some vec)
        then some (map or_zero vec)
        else none

    -- The vectors of one signal.
    unfoldable pub to_vectors : R → List R → String → Raw R → Vectors R
    unfolding to_vector
    to_vectors latest grid sig [] = []
    to_vectors latest grid sig (((of_sig, pod), pts) ∷ raw) =
        let rest = to_vectors latest grid sig raw in
        if of_sig == sig
        then elim (to_vector latest grid pts) [ none ↦ rest | some v ↦ (pod, v) ∷ rest ]
        else rest

    unfoldable pub vectors_by_signal :
        (String → Option R)
        → List String
        → List (String × List (Sample R))
        → List (String × Vectors R)
    unfolding collect grid_of to_vectors
    vectors_by_signal epoch wanted window =
        let (raw, latest) = collect epoch wanted [] nought window in
        map (λ sig. (sig, to_vectors latest (grid_of step latest) sig raw)) wanted

-- The pods of the anomaly candidates, sorted.
unfoldable pub breaches : List Event → List String
unfolding set_of sort
breaches events =
    sort text_le (set_of (map (λ e. e.pod) (select (λ e. e.kind == "anomaly_candidate") events)))
