-- ===== src/Gate/Clauses.antt =====
-- The clauses of `accept_edge` without its search: what the gate asks of the profile, of the pods and of the onsets.
use abb_accelerator_submissi.Prelude.{
  ℕ, zero, suc, ◌*◌, ◌<◌, ◌≡◌, ◌↔◌, refl, inl, inr, ◌⊎◌, Bool, true, false, ◌||◌, Option, none,
  some, List, map, String, any, arith, Option-cases, Float, ◌≼◌, abs, lookup, text_key, number_key,
  leb, sort, get_elem?, IsOrdered, le_of_not-lt, not-lt_of_le,
}
use mathlib.Core.Option.{some-injective}
use abb_accelerator_submissi.Lag.{
  Profile, index_of, item_before, neighbors, elevated, adjacent_support,
}
use abb_accelerator_submissi.Gate.{
  Edge, Witness, out_of_order, accept_edge, r_peak, r_adj, temporal_tol_s,
}
use abb_accelerator_submissi.Gate.Acceptance.{SharesResource, edge_for, accept_edge_iff}

-- The entry `n` stands next to the place `i`.
pub data IsBeside (xs : List ℕ) (n : ℕ) : ℕ → Type 0 where
  behind : (i : ℕ) → get_elem? xs (suc i) ≡ some n → IsBeside xs n i
  in_front : (i : ℕ) → get_elem? xs i ≡ some n → IsBeside xs n (suc i)

holds_of : (ℕ → Bool) → Option ℕ → Bool
holds_of p none = false
holds_of p (some n) = p n

holds_of-some :
    (p : ℕ → Bool) (o : Option ℕ) → holds_of p o ≡ true → (n : ℕ) × (o ≡ some n) × (p n ≡ true)
unfolding holds_of
holds_of-some p none h = absurd (cc)
holds_of-some p (some n) h = (n, refl, h)

any-neighbors-zero :
    (p : ℕ → Bool) (xs : List ℕ) → any p (neighbors xs zero) ≡ holds_of p (get_elem? xs (suc zero))
unfolding neighbors item_before holds_of
any-neighbors-zero p xs = elim (Option-cases (get_elem? xs (suc zero))) [
  | inl e ↦ rw (neighbors, e) refl
  | inr (y, e) ↦ rw (neighbors, e) (ground arith)
]

any-neighbors-suc :
    (p : ℕ → Bool) (xs : List ℕ) (i : ℕ)
    → any p (neighbors xs (suc i))
      ≡ (holds_of p (get_elem? xs i) || holds_of p (get_elem? xs (suc (suc i))))
unfolding neighbors item_before holds_of
any-neighbors-suc p xs i = elim (Option-cases (get_elem? xs (suc (suc i)))) [
  | inl e ↦ elim (Option-cases (get_elem? xs i)) [
    | inl e' ↦ rw (neighbors, e, item_before, e') refl
    | inr (y, e') ↦ rw (neighbors, e, item_before, e') (ground arith)
  ]
  | inr (z, e) ↦ elim (Option-cases (get_elem? xs i)) [
    | inl e' ↦ rw (neighbors, e, item_before, e') (ground arith)
    | inr (y, e') ↦ rw (neighbors, e, item_before, e') (ground arith)
  ]
]

any-neighbors-IsBeside :
    (p : ℕ → Bool) (xs : List ℕ) (i : ℕ)
    → any p (neighbors xs i) ≡ true
    → (n : ℕ) × IsBeside xs n i × (p n ≡ true)
any-neighbors-IsBeside p xs zero h =
    let (n, e, q) = holds_of-some p _ (rw (any-neighbors-zero p xs) at h) in (n, behind zero e, q)
any-neighbors-IsBeside p xs (suc i) h =
    let either : (holds_of p (get_elem? xs i) ≡ true)
        ⊎ (holds_of p (get_elem? xs (suc (suc i))) ≡ true) =
      (let k = rw (any-neighbors-suc p xs i) at h in ground arith) in
    elim either [
      | inl k ↦ let (n, e, q) = holds_of-some p _ k in (n, in_front i e, q)
      | inr k ↦ let (n, e, q) = holds_of-some p _ k in (n, behind (suc i) e, q)
    ]

IsBeside-any-neighbors :
    (p : ℕ → Bool) (xs : List ℕ) (n i : ℕ)
    → IsBeside xs n i
    → p n ≡ true
    → any p (neighbors xs i) ≡ true
unfolding holds_of
IsBeside-any-neighbors p xs n i (behind zero e) h = rw (any-neighbors-zero p xs, e) h
IsBeside-any-neighbors p xs n i (behind (suc j) e) h =
    rw (any-neighbors-suc p xs j, e) (ground arith)
IsBeside-any-neighbors p xs n i (in_front j e) h = rw (any-neighbors-suc p xs j, e) (ground arith)

module _ {R : Type 0} ⦃f : Float R⦄ where
  -- The sorted lags of a profile.
  abbrev pub lags_of : Profile R → List ℕ
  lags_of profile = sort leb (map (λ e. e.0) profile)

  -- Next to the lag, in the order of the lags of the profile, stands a lag whose |r| is at least `R_ADJ`.
  pub record IsSupported (profile : Profile R) (lag_s : ℕ) : Type 0 where
    pub place : ℕ
    pub neighbour : ℕ
    pub size : R
    pub here : index_of lag_s (lags_of profile) ≡ some place
    pub beside : IsBeside (lags_of profile) neighbour place
    pub known : lookup neighbour profile ≡ some size
    pub large : r_adj ≼ abs size

  -- Where both onsets are known, the source does not start more than the tolerance after the target, and at a
  -- positive lag the target not more than four lags and the tolerance after the source.
  pub InOrder : Option R → Option R → ℕ → Type 0
  InOrder src dst lag_s =
      (s d : R)
      → src ≡ some s
      → dst ≡ some d
      → (s ≼ f.add d temporal_tol_s)
        × (0 < lag_s → f.sub d s ≼ f.add (f.of_nat (4 * lag_s)) temporal_tol_s)

  -- The three clauses.
  pub record IsWitnessed (src dst : String) (r : R) (lag_s : ℕ) (profile : Profile R) (w : Witness)
      (onset_s : List (String × R)) : Type 0 where
    pub strong : r_peak ≼ r
    pub supported : IsSupported profile lag_s
    pub coupled : SharesResource w src dst
    pub in_order : InOrder (lookup src onset_s) (lookup dst onset_s) lag_s

  elevated-some :
      (profile : Profile R) (n : ℕ)
      → elevated profile r_adj n ≡ true
      → (size : R) × (lookup n profile ≡ some size) × (r_adj ≼ abs size)
  elevated-some profile n h = elim (Option-cases (lookup n profile)) [
    | inl e ↦ absurd (cc (rw (elevated, e) at h))
    | inr (size, e) ↦ (size, e, rw (elevated, e) at h)
  ]

  adjacent_support-IsSupported :
      (profile : Profile R) (lag_s : ℕ)
      → adjacent_support profile lag_s r_adj ≡ true
      → IsSupported profile lag_s
  unfolding adjacent_support
  adjacent_support-IsSupported profile lag_s h =
      elim (Option-cases (index_of lag_s (lags_of profile))) [
        | inl e ↦ absurd (cc (rw (adjacent_support, e) at h))
        | inr (i, e) ↦
            let (n, next, up) =
              any-neighbors-IsBeside (elevated profile r_adj) (lags_of profile) i
                (rw (adjacent_support, e) at h) in
            let (size, known, large) = elevated-some profile n up in
            record {
              place = i;
              neighbour = n;
              size = size;
              here = e;
              beside = next;
              known = known;
              large = large;
            }
      ]

  IsSupported-adjacent_support :
      (profile : Profile R) (lag_s : ℕ)
      → IsSupported profile lag_s
      → adjacent_support profile lag_s r_adj ≡ true
  unfolding adjacent_support
  IsSupported-adjacent_support profile lag_s s =
      rw (adjacent_support, s.here)
        (IsBeside-any-neighbors (elevated profile r_adj) (lags_of profile) s.neighbour s.place
          s.beside (rw (elevated, s.known) (s.large)))

  module _ (laws : IsOrdered R) where
    out_of_order-InOrder :
        (src dst : Option R) (lag_s : ℕ)
        → out_of_order src dst lag_s ≡ false
        → InOrder src dst lag_s
    unfolding out_of_order InOrder
    out_of_order-InOrder none dst lag_s h s d e k = absurd (cc e)
    out_of_order-InOrder (some t) none lag_s h s d e k = absurd (cc k)
    out_of_order-InOrder (some t) (some u) lag_s h s d e k = (
      ground (
        arith,
        some-injective _ _ e,
        some-injective _ _ k,
        le_of_not-lt laws (f.add u temporal_tol_s) t,
      ),
      λ late. ground (
        arith,
        some-injective _ _ e,
        some-injective _ _ k,
        le_of_not-lt laws (f.add (f.of_nat (4 * lag_s)) temporal_tol_s) (f.sub u t),
      ),
    )

    InOrder-out_of_order :
        (src dst : Option R) (lag_s : ℕ)
        → InOrder src dst lag_s
        → out_of_order src dst lag_s ≡ false
    unfolding out_of_order InOrder
    InOrder-out_of_order none dst lag_s h = refl
    InOrder-out_of_order (some t) none lag_s h = refl
    InOrder-out_of_order (some t) (some u) lag_s h = ground (
      arith,
      h t u refl refl,
      not-lt_of_le laws (f.add u temporal_tol_s) t,
      not-lt_of_le laws (f.add (f.of_nat (4 * lag_s)) temporal_tol_s) (f.sub u t),
    )

    -- The gate gives an edge exactly if r is at least `R_PEAK` (r itself, not |r|), a lag next to the peak in the
    -- profile has |r| at least `R_ADJ`, the pods share a network edge or a disk, and, where both onsets are known, the
    -- source starts at most the tolerance after the target and, at a positive lag, the target at most four lags and the
    -- tolerance after the source; it is then the edge of the same pods with r rounded and the evidence of the witness.
    -- The floats are totally ordered.
    pub accept_edge-IsWitnessed :
        (src dst : String) (r : R) (lag_s : ℕ) (profile : Profile R) (w : Witness)
        (onset_s : List (String × R)) (e : Edge R)
        → (accept_edge src dst r lag_s profile w onset_s ≡ some e) ↔ (
            IsWitnessed src dst r lag_s profile w onset_s
            × (e ≡ edge_for src dst r lag_s w onset_s))
    accept_edge-IsWitnessed src dst r lag_s profile w onset_s e =
        let clauses = accept_edge_iff laws src dst r lag_s profile w onset_s e in
        (
          λ h.
              let (p, same) = clauses.0 h in
              (
                record {
                  strong = p.strong;
                  supported = adjacent_support-IsSupported profile lag_s p.supported;
                  coupled = p.coupled;
                  in_order = out_of_order-InOrder _ _ lag_s p.ordered;
                },
                same,
              ),
          λ (p, same). clauses.1 (
            record {
              strong = p.strong;
              supported = IsSupported-adjacent_support profile lag_s p.supported;
              coupled = p.coupled;
              ordered = InOrder-out_of_order _ _ lag_s p.in_order;
            },
            same,
          ),
        )
