-- ===== src/Ranking/Blast.antt =====
-- The rounds of `blast_radius`, and its report.
use mathlib.Core.Option.{some-injective}
use abb_accelerator_submissi.Prelude.{
  subst, ℕ, zero, suc, ◌+◌, ◌≤◌, ◌≡◌, refl, inl, inr, true, false, not, some, List, [], ◌∷◌, String,
  ap, arith, Bool-cases, List-cases, Float, ◌≼◌, one, ◌==◌, text_key, contains, All, All-append,
  All-select, select, length, length-append, ◌||◌, IsRounded, IsSorted, sort, sort-All,
  sort-IsSorted, le_of_not-lt, not-lt_total, not-lt_trans, Option-cases,
}
use abb_accelerator_submissi.Ranking.{
  Arc, Graph, Victim, Wave, out_edges, carried, cut, reach, reach_all, blast, blast_radius,
  not_less_hit,
}
use abb_accelerator_submissi.Ranking.Graphs.{
  IsInside, IsWellFormed, Link, Walk, here, step, out_edges-Link,
}

-- The nodes that are not seen yet.
abbrev unseen : List String → List String → ℕ
unseen seen nodes = length (select (λ n. not (contains seen n)) nodes)

unseen-nil : (nodes : List String) → unseen [] nodes ≡ length nodes
unfolding contains
unseen-nil [] = refl
unseen-nil (n ∷ nodes) = omega (arith, unseen-nil nodes)

unseen-le : (seen nodes : List String) (x : String) → unseen (x ∷ seen) nodes ≤ unseen seen nodes
unfolding contains
unseen-le seen [] x = omega arith
unseen-le seen (n ∷ nodes) x = ground (arith, unseen-le seen nodes x)

unseen-lt :
    (seen nodes : List String) (x : String)
    → contains nodes x ≡ true
    → contains seen x ≡ false
    → unseen (x ∷ seen) nodes + 1 ≤ unseen seen nodes
unfolding contains
unseen-lt seen [] x h new = absurd (cc)
unseen-lt seen (n ∷ nodes) x h new = ground (
  arith,
  text_key.same_iff n x,
  text_key.same_iff x n,
  unseen-le seen nodes x,
  unseen-lt seen nodes x,
)

unseen_tail :
    (x : String) (seen : List String) (n : String)
    → contains (x ∷ seen) n ≡ false
    → contains seen n ≡ false
unfolding contains
unseen_tail x seen n h = ground arith

module _ {R : Type 0} ⦃f : Float R⦄ where
  -- Each round takes one node from the frontier, and adds only nodes that it marks as seen.
  abbrev work : Graph R → Wave R → ℕ
  work g s = unseen s.seen g.nodes + length s.frontier

  reach-work :
      (g : Graph R) (w : R) (eta : ℕ) (s : Wave R) (a : Arc R)
      → IsInside g.nodes a
      → work g (reach w eta s a) ≤ work g s
  unfolding reach
  reach-work g w eta s a i = ground (
    arith,
    i.to,
    unseen-lt s.seen g.nodes a.dst,
    length-append s.frontier ((a.dst, (carried w a, eta + a.lag_s)) ∷ []),
  )

  reach_all-work :
      (g : Graph R) (w : R) (eta : ℕ) (s : Wave R) (arcs : List (Arc R))
      → All (IsInside g.nodes) arcs
      → work g (reach_all w eta s arcs) ≤ work g s
  unfolding reach_all
  reach_all-work g w eta s [] h = omega arith
  reach_all-work g w eta s (a ∷ arcs) h =
      omega (arith, reach-work g w eta s a h.0, reach_all-work g w eta (reach w eta s a) arcs h.1)

  blast_ends :
      (fuel : ℕ) (g : Graph R) (s : Wave R)
      → IsWellFormed g
      → work g s ≤ fuel
      → (out : List (Victim R)) × (blast fuel g s ≡ some out)
  unfolding blast
  blast_ends zero g s h k = elim (List-cases s.frontier) [
    | inl e ↦ (s.out, rw (e, blast))
    | inr (x, rest, e) ↦ absurd (omega (arith, ap length e))
  ]
  blast_ends (suc fuel) g s h k = elim (List-cases s.frontier) [
    | inl e ↦ (s.out, rw (e, blast))
    | inr ((node, (w, eta)), rest, e) ↦
        let next = reach_all w eta (record s { frontier = rest }) (out_edges g node) in
        let less =
          reach_all-work g w eta (record s { frontier = rest }) (out_edges g node)
            (All-select (IsInside g.nodes) (λ a. a.src == node) g.arcs h) in
        let (out, ends) = blast_ends fuel g next h (omega (arith, ap length e)) in
        (out, rw (e, blast) ends)
  ]

  abbrev start_at : String → Wave R
  start_at root = record { out = []; seen = root ∷ []; frontier = (root, (one, 0)) ∷ [] }

  -- `blast_radius` ends on every graph that has its arcs between its nodes, within one round for each
  -- node.
  pub blast_radius_total :
      (g : Graph R) (root : String)
      → IsWellFormed g
      → (out : List (Victim R)) × (blast_radius g root ≡ some out)
  unfolding blast_radius contains
  blast_radius_total g root h = elim (Bool-cases (contains g.nodes root)) [
    | inl known ↦
        let start : Wave R = start_at root in
        let room : work g start ≤ length g.nodes =
          omega (arith, unseen-lt [] g.nodes root known refl, unseen-nil g.nodes) in
        let (out, ends) = blast_ends (length g.nodes) g start h room in
        (sort not_less_hit out, rw (known, ends))
    | inr unknown ↦ ([], rw unknown)
  ]

  -- What is claimed of a reported pod: it is reached along arcs, it is not the root, and its impact
  -- is at least the rounded cut.
  pub record IsHit (g : Graph R) (root : String) (v : Victim R) : Type 0 where
    pub reached : Walk g root v.pod
    pub other : contains (root ∷ []) v.pod ≡ false
    pub strong : f.round cut 3 ≼ v.impact

  module _ (laws : IsRounded R) (g : Graph R) (root : String) where
    open laws use {ordered, round_mono}

    record Inv (s : Wave R) : Type 0 where
      walks : All (λ x. Walk g root x.0) s.frontier
      hits : All (IsHit g root) s.out
      kept : (n : String) → contains s.seen n ≡ false → contains (root ∷ []) n ≡ false

    Inv-reach :
        (w : R) (eta : ℕ) (node : String) (s : Wave R) (a : Arc R)
        → Walk g root node
        → Link g node a.dst
        → Inv s
        → Inv (reach w eta s a)
    unfolding reach
    Inv-reach w eta node s a walk link inv =
        elim (Bool-cases (contains s.seen a.dst || f.lt (carried w a) cut)) [
          | inl skip ↦ rw skip inv
          | inr go ↦
              let new : contains s.seen a.dst ≡ false = ground arith in
              let strong : f.lt (carried w a) cut ≡ false = ground arith in
              rw go (record {
                walks =
                    All-append (λ x. Walk g root x.0) s.frontier _ inv.walks (step walk link, tt);
                hits = All-append (IsHit g root) s.out _ inv.hits (
                  record {
                    reached = step walk link;
                    other = inv.kept a.dst new;
                    strong = round_mono _ _ 3 (le_of_not-lt ordered _ _ strong);
                  },
                  tt,
                );
                kept = λ n h. inv.kept n (unseen_tail a.dst s.seen n h);
              })
        ]

    Inv-reach_all :
        (w : R) (eta : ℕ) (node : String) (s : Wave R) (arcs : List (Arc R))
        → Walk g root node
        → All (λ a. Link g node a.dst) arcs
        → Inv s
        → Inv (reach_all w eta s arcs)
    unfolding reach_all
    Inv-reach_all w eta node s [] walk links inv = inv
    Inv-reach_all w eta node s (a ∷ arcs) walk links inv =
        Inv-reach_all w eta node (reach w eta s a) arcs walk links.1
          (Inv-reach w eta node s a walk links.0 inv)

    blast-hits :
        (fuel : ℕ) (s : Wave R) (out : List (Victim R))
        → Inv s
        → blast fuel g s ≡ some out
        → All (IsHit g root) out
    unfolding blast
    blast-hits zero s out inv e = elim (List-cases s.frontier) [
      | inl done ↦ subst (All (IsHit g root)) (some-injective _ _ (rw (done, blast) at e)) inv.hits
      | inr (x, rest, more) ↦ absurd (cc (rw (more, blast) at e))
    ]
    blast-hits (suc fuel) s out inv e = elim (List-cases s.frontier) [
      | inl done ↦ subst (All (IsHit g root)) (some-injective _ _ (rw (done, blast) at e)) inv.hits
      | inr ((node, (w, eta)), rest, more) ↦
          let walks = rw more at inv.walks in
          blast-hits fuel _ out
            (Inv-reach_all w eta node (record s { frontier = rest }) (out_edges g node) walks.0
              (out_edges-Link g node)
              (record { walks = walks.1; hits = inv.hits; kept = inv.kept }))
            (rw (more, blast) at e)
    ]

    start-Inv : Inv (start_at root)
    start-Inv = record { walks = (here, tt); hits = tt; kept = λ n h. h }

    -- Every pod of a blast radius is reached from the root along arcs, is not the root, and has an
    -- impact of at least the rounded cut; the list is sorted by falling impact, as the code's sort key
    -- compares it. The floats have the laws of rounded arithmetic.
    pub blast_radius-IsHit :
        (out : List (Victim R))
        → blast_radius g root ≡ some out
        → All (IsHit g root) out × IsSorted not_less_hit out
    unfolding blast_radius
    blast_radius-IsHit out e = elim (Bool-cases (contains g.nodes root)) [
      | inr unknown ↦
          subst (λ o. All (IsHit g root) o × IsSorted not_less_hit o)
            (some-injective _ _ (rw (unknown, blast_radius) at e)) (tt, tt)
      | inl known ↦ elim (Option-cases (blast (length g.nodes) g (start_at root))) [
        | inl stuck ↦ absurd (cc (rw (known, stuck, blast_radius) at e))
        | inr (found, ends) ↦
            subst (λ o. All (IsHit g root) o × IsSorted not_less_hit o)
              (some-injective _ _ (rw (known, ends, blast_radius) at e))
              (
                sort-All not_less_hit (IsHit g root) found
                    (blast-hits (length g.nodes) (start_at root) found start-Inv ends),
                sort-IsSorted not_less_hit
                    (λ a b. not-lt_total ordered (f.neg a.impact) (f.neg b.impact))
                    (λ a b c.
                      not-lt_trans ordered (f.neg a.impact) (f.neg b.impact) (f.neg c.impact))
                    found,
              )
      ]
    ]
