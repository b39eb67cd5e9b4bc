-- ===== src/Render/Held.antt =====
-- The edges that `_render` serves from the memory.
use mathlib.Core.Option.{some-injective}
use abb_accelerator_submissi.Prelude.{
  ◌≡◌, refl, subst, inl, inr, true, some, List, [], ◌∷◌, String, arith, Bool-cases, Option-cases,
  Float, ◌==◌, ==_refl, text_key, contains, lookup, put, All, All-imp,
}
use abb_accelerator_submissi.Workload.{stable_workload}
use abb_accelerator_submissi.Pipeline.{Verdict}
use abb_accelerator_submissi.Memory.{MemoryConfig, Row}
use abb_accelerator_submissi.Render.{
  Served, Source, pods_by_workload, held_edge, held_edges, served_edges,
}

module _ (P : String → Type 0) where
  put-All :
      (k v : String) (d : List (String × String))
      → P v
      → All (λ e. P e.1) d
      → All (λ e. P e.1) (put k v d)
  unfolding put
  put-All k v [] h hs = (h, tt)
  put-All k v ((a, b) ∷ d) h hs = elim (Bool-cases (a == k)) [
    | inl e ↦ rw e (h, hs.1)
    | inr e ↦ rw e (hs.0, put-All k v d h hs.1)
  ]

  lookup-All :
      (k v : String) (d : List (String × String)) → All (λ e. P e.1) d → lookup k d ≡ some v → P v
  unfolding lookup
  lookup-All k v [] hs h = absurd (cc)
  lookup-All k v ((a, b) ∷ d) hs h = elim (Bool-cases (a == k)) [
    | inl e ↦ subst P (some-injective _ _ (rw e at h)) hs.0
    | inr e ↦ lookup-All k v d hs.1 (rw e at h)
  ]

  pods_by_workload-All :
      (found : List (String × String)) (pods : List String)
      → All (λ e. P e.1) found
      → All P pods
      → All (λ e. P e.1) (pods_by_workload found pods)
  unfolding pods_by_workload
  pods_by_workload-All found [] h hs = h
  pods_by_workload-All found (p ∷ pods) h hs =
      pods_by_workload-All (put (stable_workload p) p found) pods
        (put-All (stable_workload p) p found hs.0 h) hs.1

All-contains : (pods : List String) → All (λ p. contains pods p ≡ true) pods
unfolding contains
All-contains [] = tt
All-contains (p ∷ pods) = (
  ground (arith, ==_refl p),
  All-imp (λ q. contains pods q ≡ true) (λ q. contains (p ∷ pods) q ≡ true) (λ q h. ground arith)
      pods (All-contains pods),
)

module _ {R : Type 0} ⦃f : Float R⦄ (cfg : MemoryConfig R) where
  -- The edge comes from the memory, and both its pods are running.
  pub record IsAlive (pods : List String) (e : Served R) : Type 0 where
    pub src : contains pods e.edge.src ≡ true
    pub dst : contains pods e.edge.dst ≡ true
    pub held : e.source ≡ some Source.memory

  held_edge-IsAlive :
      (now : R) (pods : List String) (d : List (String × String)) (row : Row R) (e : Served R)
      → All (λ x. contains pods x.1 ≡ true) d
      → held_edge cfg now d row ≡ some e
      → IsAlive pods e
  unfolding held_edge
  held_edge-IsAlive now pods d row e h built = elim (Option-cases (lookup row.src d)) [
    | inl gone ↦ absurd (cc (rw (gone, held_edge) at built))
    | inr (src, here) ↦ elim (Option-cases (lookup row.dst d)) [
      | inl gone ↦ absurd (cc (rw (here, gone, held_edge) at built))
      | inr (dst, there) ↦
          subst (IsAlive pods) (some-injective _ _ (rw (here, there, held_edge) at built)) (record {
            src = lookup-All (λ p. contains pods p ≡ true) row.src src d h here;
            dst = lookup-All (λ p. contains pods p ≡ true) row.dst dst d h there;
            held = refl;
          })
    ]
  ]

  held_edges-IsAlive :
      (now : R) (pods : List String) (d : List (String × String)) (rows : List (Row R))
      → All (λ x. contains pods x.1 ≡ true) d
      → All (IsAlive pods) (held_edges cfg now d rows)
  unfolding held_edges
  held_edges-IsAlive now pods d [] h = tt
  held_edges-IsAlive now pods d (row ∷ rows) h = elim (Option-cases (held_edge cfg now d row)) [
    | inl e ↦ rw (e, held_edges) (held_edges-IsAlive now pods d rows h)
    | inr (x, e) ↦
        rw (e, held_edges)
          (held_edge-IsAlive now pods d row x h e, held_edges-IsAlive now pods d rows h)
  ]

  -- Every edge that is served from the memory joins two pods that are running now: no edge is drawn
  -- to a pod of an old generation.
  pub served_edges-IsAlive :
      (now : R) (graph : Verdict R) (pods : List String) (rows : List (Row R))
      → All (IsAlive pods) (served_edges cfg now graph pods rows).1
  unfolding served_edges
  served_edges-IsAlive now graph pods rows =
      held_edges-IsAlive now pods (pods_by_workload [] pods) _
        (pods_by_workload-All (λ p. contains pods p ≡ true) [] pods tt (All-contains pods))
