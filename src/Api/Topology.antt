-- ===== src/Api/Topology.antt =====
-- What the links of the topology say of the flows.
use mathlib.Core.Option.{some-injective}
use abb_accelerator_submissi.Prelude.{
  ◌≡◌, refl, sym, ap, subst, ◌∙◌, inl, inr, Bool, true, none, some, List, [], ◌∷◌, map, String, any,
  arith, Bool-cases, Option-cases, All, All-imp, Float, ◌≼◌, IsRounded, le_of_lt, le_of_not-lt,
  ◌==◌, text_key, ==_refl, lookup, put, lookup-put, lookup-any, sort, insert_sorted, ◌&&◌, ◌||◌,
  if◌then◌else◌, IsSorted, sort-IsSorted, not-lt_total, not-lt_trans,
}
use abb_accelerator_submissi.Cases.{link_key}
use abb_accelerator_submissi.Api.Flows.{
  Flow, Link, Links, counted, bytes_of, link_of, is_better, collect_links, not_fewer, parse_caretta,
}

module _ {A : Type 0} (before : A → A → Bool) (p : A → Bool) where
  any-insert_sorted : (x : A) (xs : List A) → any p (insert_sorted before x xs) ≡ (p x || any p xs)
  unfolding insert_sorted
  any-insert_sorted x [] = refl
  any-insert_sorted x (y ∷ xs) = ground (arith, any-insert_sorted x xs)

  pub any-sort : (xs : List A) → any p (sort before xs) ≡ any p xs
  unfolding sort
  any-sort [] = refl
  any-sort (x ∷ xs) = any-insert_sorted x (sort before xs) ∙ ap (λ b. p x || b) (any-sort xs)

module _ {R : Type 0} ⦃f : Float R⦄ where
  -- The link is of the two names and carries the bytes of the flow.
  abbrev pub carries : String × String → Flow R → Link R → Bool
  carries k s e = e.src == k.0 && (e.dst == k.1 && f.le (f.round (bytes_of s) 0) e.bytes)

  -- A flow that counts has such a link.
  abbrev pub IsShown : String → List (Link R) → Flow R → Type 0
  IsShown prefix links s =
      (k : String × String) → counted prefix s ≡ some k → any (carries k s) links ≡ true

module _ {R : Type 0} ⦃f : Float R⦄ (laws : IsRounded R)
    (whole : (x : R) → f.round (f.round x 0) 0 ≡ f.round x 0) (prefix : String) where
  open laws use {ordered, round_mono}

  -- The bytes of the entries are whole, and each stands under its pair.
  IsWhole : Links R → Type 0
  IsWhole best =
      (k : String × String) (e : Link R)
      → lookup k best ≡ some e
      → (f.round e.bytes 0 ≡ e.bytes) × ((e.src, e.dst) ≡ k)

  -- The dictionary has an entry of the pair with at least so many bytes.
  AtLeast : Links R → String × String → R → Type 0
  AtLeast best k b = (e : Link R) × (lookup k best ≡ some e) × (b ≼ e.bytes)

  -- the dictionary after a flow
  next : String × String → Flow R → Links R → Links R
  next k s best = if is_better k s best then put k (link_of k s) best else best

  next-IsWhole :
      (k : String × String) (s : Flow R) (best : Links R) → IsWhole best → IsWhole (next k s best)
  unfolding next IsWhole
  next-IsWhole k s best h q e found = elim (Bool-cases (is_better k s best)) [
    | inr worse ↦ h q e (rw worse at found)
    | inl better ↦ elim (Bool-cases (k == q)) [
      | inr other ↦ h q e (rw (better, lookup-put k q (link_of k s) best, other) at found)
      | inl same ↦
          subst (λ (x : Link R). (f.round x.bytes 0 ≡ x.bytes) × ((x.src, x.dst) ≡ q))
            (some-injective _ _ (rw (better, lookup-put k q (link_of k s) best, same) at found))
            (whole (bytes_of s), (link_key.same_iff k q).0 same)
    ]
  ]

  better-lt :
      (k : String × String) (s : Flow R) (best : Links R) (e : Link R)
      → lookup k best ≡ some e
      → is_better k s best ≡ f.lt e.bytes (bytes_of s)
  unfolding is_better
  better-lt k s best e old = rw (old, is_better) refl

  next-new :
      (k : String × String) (s : Flow R) (best : Links R)
      → IsWhole best
      → AtLeast (next k s best) k (f.round (bytes_of s) 0)
  unfolding next IsWhole AtLeast is_better
  next-new k s best h = elim (Bool-cases (is_better k s best)) [
    | inl better ↦ (
      link_of k s,
      rw (next, better, lookup-put k k (link_of k s) best, ==_refl k) refl,
      ordered.le_refl _,
    )
    | inr worse ↦ elim (Option-cases (lookup k best)) [
      | inl new ↦ absurd (cc (rw (is_better, new) at worse))
      | inr (e, old) ↦
          let less =
            le_of_not-lt ordered e.bytes (bytes_of s) (sym (better-lt k s best e old) ∙ worse) in
          (
            e,
            rw (next, worse) old,
            subst (λ x. f.round (bytes_of s) 0 ≼ x) (h k e old).0
                (round_mono (bytes_of s) e.bytes 0 less),
          )
    ]
  ]

  next-AtLeast :
      (k : String × String) (s : Flow R) (best : Links R) (q : String × String) (b : R)
      → IsWhole best
      → AtLeast best q b
      → AtLeast (next k s best) q b
  unfolding next IsWhole AtLeast is_better
  next-AtLeast k s best q b h (e, found, le) = elim (Bool-cases (is_better k s best)) [
    | inr worse ↦ (e, rw (next, worse) found, le)
    | inl better ↦ elim (Bool-cases (k == q)) [
      | inr other ↦ (e, rw (next, better, lookup-put k q (link_of k s) best, other) found, le)
      | inl same ↦
          let old =
            subst (λ x. lookup x best ≡ some e) (sym ((link_key.same_iff k q).0 same)) found in
          let more =
            le_of_lt ordered e.bytes (bytes_of s) (sym (better-lt k s best e old) ∙ better) in
          let larger = ordered.le_trans b e.bytes (f.round (bytes_of s) 0) le (
            subst (λ x. x ≼ f.round (bytes_of s) 0) (h q e found).0
              (round_mono e.bytes (bytes_of s) 0 more)) in
          (link_of k s, rw (next, better, lookup-put k q (link_of k s) best, same) refl, larger)
    ]
  ]

  collect-IsWhole :
      (best : Links R) (flows : List (Flow R))
      → IsWhole best
      → IsWhole (collect_links prefix best flows)
  unfolding collect_links next
  collect-IsWhole best [] h = h
  collect-IsWhole best (s ∷ flows) h = elim (Option-cases (counted prefix s)) [
    | inl out ↦ rw (out, collect_links) (collect-IsWhole best flows h)
    | inr (k, named) ↦
        rw (named, collect_links) (collect-IsWhole (next k s best) flows (next-IsWhole k s best h))
  ]

  collect-AtLeast :
      (best : Links R) (flows : List (Flow R)) (q : String × String) (b : R)
      → IsWhole best
      → AtLeast best q b
      → AtLeast (collect_links prefix best flows) q b
  unfolding collect_links next
  collect-AtLeast best [] q b h has = has
  collect-AtLeast best (s ∷ flows) q b h has = elim (Option-cases (counted prefix s)) [
    | inl out ↦ rw (out, collect_links) (collect-AtLeast best flows q b h has)
    | inr (k, named) ↦
        rw (named, collect_links)
          (collect-AtLeast (next k s best) flows q b (next-IsWhole k s best h)
            (next-AtLeast k s best q b h has))
  ]

  -- A flow that counts has an entry of its pair with at least its bytes.
  IsCovered : Links R → Flow R → Type 0
  IsCovered best s =
      (k : String × String) → counted prefix s ≡ some k → AtLeast best k (f.round (bytes_of s) 0)

  collect-out :
      (best : Links R) (s : Flow R) (flows : List (Flow R))
      → counted prefix s ≡ none
      → collect_links prefix best (s ∷ flows) ≡ collect_links prefix best flows
  unfolding collect_links
  collect-out best s flows out = rw (out, collect_links) refl

  collect-next :
      (best : Links R) (s : Flow R) (flows : List (Flow R)) (k : String × String)
      → counted prefix s ≡ some k
      → collect_links prefix best (s ∷ flows) ≡ collect_links prefix (next k s best) flows
  unfolding collect_links next
  collect-next best s flows k named = rw (named, collect_links) refl

  collect-IsCovered :
      (best : Links R) (flows : List (Flow R))
      → IsWhole best
      → All (IsCovered (collect_links prefix best flows)) flows
  unfolding IsCovered
  collect-IsCovered best [] h = tt
  collect-IsCovered best (s ∷ flows) h = elim (Option-cases (counted prefix s)) [
    | inl out ↦
        subst (λ d. IsCovered d s × All (IsCovered d) flows) (sym (collect-out best s flows out))
          (λ k named. absurd (cc), collect-IsCovered best flows h)
    | inr (k, named) ↦
        let there =
          collect-AtLeast (next k s best) flows k (f.round (bytes_of s) 0) (next-IsWhole k s best h)
            (next-new k s best h) in
        subst (λ d. IsCovered d s × All (IsCovered d) flows)
          (sym (collect-next best s flows k named))
          (
            λ q named'.
                subst
                  (λ x.
                    AtLeast (collect_links prefix (next k s best) flows) x (f.round (bytes_of s) 0))
                  (some-injective _ _ (sym named ∙ named')) there,
            collect-IsCovered (next k s best) flows (next-IsWhole k s best h),
          )
  ]

  shown :
      (best : Links R)
      → IsWhole best
      → (s : Flow R) (k : String × String) → AtLeast best k (f.round (bytes_of s) 0)
      → any (carries k s) (sort not_fewer (map (λ x. x.1) best)) ≡ true
  unfolding IsWhole AtLeast
  shown best h s k (e, found, le) =
      let carried : carries (e.src, e.dst) s e ≡ true =
        ground (arith, ==_refl e.src, ==_refl e.dst) in
      rw (any-sort not_fewer (carries k s) (map (λ x. x.1) best)) (
        lookup-any (carries k s) k best e found
          (subst (λ q. carries q s e ≡ true) (h k e found).1 carried))

  -- The topology shows every flow that counts: it has a link of the same two workloads with at least the
  -- rounded bytes of the flow, and no link stands behind one with fewer bytes. Rounding to whole numbers is
  -- idempotent, and the floats have the laws of rounded arithmetic.
  pub parse_caretta-IsShown :
      (flows : List (Flow R))
      → All (IsShown prefix (parse_caretta prefix flows)) flows
        × IsSorted not_fewer (parse_caretta prefix flows)
  unfolding parse_caretta IsWhole IsCovered AtLeast
  parse_caretta-IsShown flows =
      let best = collect_links prefix [] flows in
      let start : IsWhole [] = λ k e h. absurd (cc h) in
      let whole_best : IsWhole best = collect-IsWhole [] flows start in
      (
        All-imp (IsCovered best) (IsShown prefix (sort not_fewer (map (λ x. x.1) best)))
            (λ s covered k named. shown best whole_best s k (covered k named)) flows
            (collect-IsCovered [] flows start),
        sort-IsSorted not_fewer (λ a b. not-lt_total ordered b.bytes a.bytes)
            (λ a b c h k. not-lt_trans ordered c.bytes b.bytes a.bytes k h) (map (λ x. x.1) best),
      )
