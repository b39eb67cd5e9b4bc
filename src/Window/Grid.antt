-- ===== src/Window/Grid.antt =====
-- The one pass of sample and hold against a search of all points for each entry of the grid.
use abb_accelerator_submissi.Prelude.{
  ℕ, ◌≡◌, refl, sym, ◌∙◌, inl, inr, true, false, List, [], ◌∷◌, map, arith, Bool-cases, All,
  All-imp, IsSorted, sort, sort-IsSorted, Float, ◌≼◌, IsOrdered, IsRounded, ℕ, zero, suc, ◌-◌, ◌≤◌,
  subst, if◌then◌else◌, le_of_not-lt,
}
use abb_accelerator_submissi.Window.{
  Point, not_after_point, until, advance, entry, hold, grid_n, count_from, grid_of,
}

map-agree {ℓ κ μ} :
    {A : Type ℓ} {B : Type κ} (f g : A → B) (P : A → Type μ)
    → ((x : A) → P x → f x ≡ g x)
    → (xs : List A) → All P xs
    → map f xs ≡ map g xs
map-agree f g P same [] h = refl
map-agree f g P same (x ∷ xs) h = rw (same x h.0, map-agree f g P same xs h.1) refl

module _ {R : Type 0} ⦃f : Float R⦄ where
  -- The times of the points do not fall.
  abbrev pub IsTimed : List (Point R) → Type 0
  IsTimed [] = Unit
  IsTimed (p ∷ pts) = All (λ q. p.0 ≼ q.0) pts × IsTimed pts

  abbrev pub IsAscending : List R → Type 0
  IsAscending [] = Unit
  IsAscending (t ∷ grid) = All (λ u. t ≼ u) grid × IsAscending grid

  module _ (laws : IsRounded R) (step : R) where
    open laws use {ordered, add_mono}

    -- The last of all the points whose time counts for an entry of the grid; else the first point.
    pub held : Point R → List (Point R) → R → Point R
    held cur [] gt = cur
    held cur (q ∷ next) gt = held (if f.le q.0 (until step gt) then q else cur) next gt

    until_mono : (t u : R) → t ≼ u → until step t ≼ until step u
    until_mono t u h = add_mono _ _ _ _ h (ordered.le_refl _)

    not-until : (t u x : R) → t ≼ u → f.le t x ≡ false → f.le u x ≡ false
    not-until t u x h k = elim (Bool-cases (f.le u x)) [
      | inl e ↦ absurd (cc (ordered.le_trans t u x h e))
      | inr e ↦ e
    ]

    held-late :
        (cur : Point R) (next : List (Point R)) (gt : R)
        → All (λ q. f.le q.0 (until step gt) ≡ false) next
        → held cur next gt ≡ cur
    unfolding held
    held-late cur [] gt h = refl
    held-late cur (q ∷ next) gt h = rw (h.0) (held-late cur next gt h.1)

    advance-held :
        (cur : Point R) (next : List (Point R)) (gt : R)
        → IsTimed next
        → (advance step cur next gt).0 ≡ held cur next gt
    unfolding advance held
    advance-held cur [] gt h = refl
    advance-held cur (q ∷ next) gt h = elim (Bool-cases (f.le q.0 (until step gt))) [
      | inl e ↦ rw e (advance-held q next gt h.1)
      | inr e ↦
          let late =
            All-imp (λ r. q.0 ≼ r.0) (λ r. f.le r.0 (until step gt) ≡ false)
              (λ r k. not-until q.0 r.0 (until step gt) k e) next h.0 in
          rw e (sym (held-late cur next gt late))
    ]

    advance-IsTimed :
        (cur : Point R) (next : List (Point R)) (gt : R)
        → IsTimed next
        → IsTimed (advance step cur next gt).1
    unfolding advance
    advance-IsTimed cur [] gt h = tt
    advance-IsTimed cur (q ∷ next) gt h = elim (Bool-cases (f.le q.0 (until step gt))) [
      | inl e ↦ rw e (advance-IsTimed q next gt h.1)
      | inr e ↦ rw e h
    ]

    held-advance :
        (cur : Point R) (next : List (Point R)) (gt later : R)
        → gt ≼ later
        → held (advance step cur next gt).0 (advance step cur next gt).1 later ≡ held cur next later
    unfolding advance held
    held-advance cur [] gt later h = refl
    held-advance cur (q ∷ next) gt later h = elim (Bool-cases (f.le q.0 (until step gt))) [
      | inl e ↦
          let e' : q.0 ≼ until step later = ordered.le_trans _ _ _ e (until_mono gt later h) in
          rw (e, e') (held-advance q next gt later h)
      | inr e ↦ rw e refl
    ]

    hold-each :
        (cur : Point R) (next : List (Point R)) (grid : List R)
        → IsTimed next
        → IsAscending grid
        → hold step cur next grid ≡ map (λ gt. entry step (held cur next gt) gt) grid
    unfolding hold
    hold-each cur next [] h up = refl
    hold-each cur next (gt ∷ grid) h up =
        let on = advance step cur next gt in
        let rest = hold-each on.0 on.1 grid (advance-IsTimed cur next gt h) up.1 in
        let same =
          map-agree (λ u. entry step (held on.0 on.1 u) u) (λ u. entry step (held cur next u) u)
            (λ u. gt ≼ u) (λ u k. rw (held-advance cur next gt u k) refl) grid up.0 in
        rw (rest ∙ same, advance-held cur next gt h) refl

not_before :
    {R : Type 0} ⦃f : Float R⦄
    → IsOrdered R
    → (p q : Point R) → not_after_point p q ≡ true
    → p.0 ≼ q.0
not_before laws p q h = ground (arith, le_of_not-lt laws q.0 p.0)

not_after_point_total :
    {R : Type 0} ⦃f : Float R⦄
    → IsOrdered R
    → (p q : Point R) → not_after_point p q ≡ false
    → not_after_point q p ≡ true
not_after_point_total laws p q h = ground (
  arith,
  laws.lt-eq-not-le p.0 q.0,
  laws.lt-eq-not-le q.0 p.0,
  laws.lt-eq-not-le p.1 q.1,
  laws.lt-eq-not-le q.1 p.1,
  laws.le_total p.0 q.0,
  laws.le_total p.1 q.1,
)

not_after_point_trans :
    {R : Type 0} ⦃f : Float R⦄
    → IsOrdered R
    → (p q r : Point R) → not_after_point p q ≡ true
    → not_after_point q r ≡ true
    → not_after_point p r ≡ true
not_after_point_trans laws p q r h k = ground (
  arith,
  laws.lt-eq-not-le q.0 p.0,
  laws.lt-eq-not-le r.0 q.0,
  laws.lt-eq-not-le r.0 p.0,
  laws.lt-eq-not-le q.1 p.1,
  laws.lt-eq-not-le r.1 q.1,
  laws.lt-eq-not-le r.1 p.1,
  laws.le_trans p.0 q.0 r.0,
  laws.le_trans p.1 q.1 r.1,
  laws.le_trans q.0 r.0 p.0,
  laws.le_trans r.0 p.0 q.0,
)

-- What makes the grid ascend, for the step and the arithmetic of the floats.
pub record IsStepped (R : Type 0) ⦃f : Float R⦄ (step : R) : Type 0 where
  pub sub_anti : (a b c : R) → a ≼ b → f.sub c b ≼ f.sub c a
  pub steps_mono : (m n : ℕ) → m ≤ n → f.mul step (f.of_nat m) ≼ f.mul step (f.of_nat n)

module _ {R : Type 0} ⦃f : Float R⦄ (laws : IsRounded R) (step : R) where
  sorted-IsTimed : (pts : List (Point R)) → IsSorted not_after_point pts → IsTimed pts
  sorted-IsTimed [] h = tt
  sorted-IsTimed (p ∷ pts) h = (
    All-imp (λ q. not_after_point p q ≡ true) (λ q. p.0 ≼ q.0)
        (λ q k. not_before laws.ordered p q k) pts h.0,
    sorted-IsTimed pts h.1,
  )

  -- the time of an entry of the grid
  at : R → ℕ → R
  at latest k = f.sub latest (f.mul step (f.of_nat (grid_n - 1 - k)))

  module _ (stepped : IsStepped R step) (latest : R) where
    at_mono : (j k : ℕ) → j ≤ k → at latest j ≼ at latest k
    unfolding at
    at_mono j k h =
        stepped.sub_anti _ _ latest
          (stepped.steps_mono (grid_n - 1 - k) (grid_n - 1 - j) (omega arith))

    after-All : (j k m : ℕ) → j ≤ k → All (λ u. at latest j ≼ u) (map (at latest) (count_from k m))
    after-All j k zero h = tt
    after-All j k (suc m) h = (at_mono j k h, after-All j (suc k) m (omega arith))

    at-IsAscending : (k m : ℕ) → IsAscending (map (at latest) (count_from k m))
    at-IsAscending k zero = tt
    at-IsAscending k (suc m) = (after-All k (suc k) m (omega arith), at-IsAscending (suc k) m)

    grid_of-IsAscending : IsAscending (grid_of step latest)
    unfolding grid_of at
    grid_of-IsAscending = at-IsAscending 0 grid_n

    -- One pass over the grid and the sorted points of a series gives each entry what a search of all the
    -- points gives: the value of the last point at most half a step after the entry, else of the first
    -- point, if it is at most a step away. The floats have the laws of rounded arithmetic, and the times
    -- of the grid are monotone in their index.
    pub hold-held :
        (points : List (Point R)) (p : Point R) (pts : List (Point R))
        → sort not_after_point points ≡ p ∷ pts
        → hold step p pts (grid_of step latest)
          ≡ map (λ gt. entry step (held laws step p pts gt) gt) (grid_of step latest)
    hold-held points p pts e =
        hold-each laws step p pts (grid_of step latest)
          (sorted-IsTimed (p ∷ pts) (
            subst (IsSorted not_after_point) e (
              sort-IsSorted not_after_point (not_after_point_total laws.ordered)
                (not_after_point_trans laws.ordered) points))).1
          grid_of-IsAscending
