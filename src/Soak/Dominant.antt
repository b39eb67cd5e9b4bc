-- ===== src/Soak/Dominant.antt =====
-- The dominant root of the report against the numbers of its records.
use abb_accelerator_submissi.Prelude.{
  ℕ, ◌+◌, ◌≡◌, ◌≤◌, refl, sym, ap, ◌∙◌, subst, inl, inr, true, false, Option, none, some, List, [],
  ◌∷◌, String, length, select, arith, Bool-cases, List-cases, Option-cases, All, All-imp, text_key,
  ◌==◌, ==_refl, lookup, put, lookup-put, leb→le, best_from, best_from-bounds, best_from-All,
  if◌then◌else◌,
}
use abb_accelerator_submissi.Soak.Rollup.{bump, count_roots, not_more, dominant}

-- How many of the roots are `r`.
abbrev pub count : String → List String → ℕ
count r roots = length (select (λ q. q == r) roots)

abbrev number : Option ℕ → ℕ
number none = 0
number (some n) = n

-- No key stands twice.
abbrev IsDict : List (String × ℕ) → Type 0
IsDict [] = Unit
IsDict (c ∷ counts) = All (λ d. (d.0 == c.0) ≡ false) counts × IsDict counts

put-other :
    (a b : String) (n : ℕ) (d : List (String × ℕ))
    → (a == b) ≡ false
    → All (λ c. (c.0 == b) ≡ false) d
    → All (λ c. (c.0 == b) ≡ false) (put a n d)
unfolding put
put-other a b n [] h hs = (h, tt)
put-other a b n ((c, m) ∷ d) h hs = elim (Bool-cases (c == a)) [
  | inl e ↦ rw e hs
  | inr e ↦ rw e (hs.0, put-other a b n d h hs.1)
]

put-IsDict : (a : String) (n : ℕ) (d : List (String × ℕ)) → IsDict d → IsDict (put a n d)
unfolding put
put-IsDict a n [] h = (tt, tt)
put-IsDict a n ((c, m) ∷ d) h = elim (Bool-cases (c == a)) [
  | inl e ↦ rw e h
  | inr e ↦ rw e (
    put-other a c n d (ground (arith, text_key.same_iff c a, text_key.same_iff a c)) h.0,
    put-IsDict a n d h.1,
  )
]

count_roots-IsDict :
    (counts : List (String × ℕ)) (roots : List String)
    → IsDict counts
    → IsDict (count_roots counts roots)
unfolding count_roots bump
count_roots-IsDict counts [] h = h
count_roots-IsDict counts (r ∷ roots) h =
    count_roots-IsDict (bump r counts) roots (put-IsDict r _ counts h)

number-bump-same :
    (a : String) (counts : List (String × ℕ))
    → number (lookup a (bump a counts)) ≡ number (lookup a counts) + 1
unfolding bump
number-bump-same a counts = elim (Option-cases (lookup a counts)) [
  | inl new ↦ rw (lookup-put a a _ counts, ==_refl a, new) refl
  | inr (n, old) ↦ rw (lookup-put a a _ counts, ==_refl a, old) (omega arith)
]

number-bump :
    (a r : String) (counts : List (String × ℕ))
    → number (lookup r (bump a counts)) ≡ number (lookup r counts) + (if a == r then 1 else 0)
unfolding bump
number-bump a r counts = elim (Bool-cases (a == r)) [
  | inl e ↦ rw e (
      subst (λ q. number (lookup q (bump a counts)) ≡ number (lookup q counts) + 1)
        ((text_key.same_iff a r).0 e) (number-bump-same a counts))
  | inr e ↦ rw (lookup-put a r _ counts, e) (omega arith)
]

number-count_roots :
    (r : String) (counts : List (String × ℕ)) (roots : List String)
    → number (lookup r (count_roots counts roots)) ≡ number (lookup r counts) + count r roots
unfolding count_roots
number-count_roots r counts [] = omega arith
number-count_roots r counts (a ∷ roots) =
    let rest = number-count_roots r (bump a counts) roots in
    let one_more = number-bump a r counts in ground arith

later-entries :
    (c : String × ℕ) (d xs : List (String × ℕ))
    → All (λ x. (x.0 == c.0) ≡ false) xs
    → All (λ x. lookup x.0 d ≡ some x.1) xs
    → All (λ x. lookup x.0 (c ∷ d) ≡ some x.1) xs
unfolding lookup
later-entries c d [] h hs = tt
later-entries c d (x ∷ xs) h hs = (
  ground (arith, h.0, hs.0, text_key.same_iff c.0 x.0, text_key.same_iff x.0 c.0),
  later-entries c d xs h.1 hs.1,
)

lookup-entries : (d : List (String × ℕ)) → IsDict d → All (λ c. lookup c.0 d ≡ some c.1) d
unfolding lookup
lookup-entries [] h = tt
lookup-entries (c ∷ d) h = (rw (==_refl c.0) refl, later-entries c d d h.0 (lookup-entries d h.1))

count-counts :
    (r : String) (roots : List String) → count r roots ≡ number (lookup r (count_roots [] roots))
unfolding lookup
count-counts r roots = let total = number-count_roots r [] roots in omega arith

number-le :
    (m : ℕ) (d : List (String × ℕ)) (r : String) → All (λ c. c.1 ≤ m) d → number (lookup r d) ≤ m
unfolding lookup
number-le m [] r h = omega arith
number-le m ((b, n) ∷ d) r h = let rest = number-le m d r h.1 in let first = h.0 in ground arith

no-count : (r : String) (roots : List String) → count_roots [] roots ≡ [] → count r roots ≡ 0
unfolding lookup
no-count r roots bare = count-counts r roots ∙ rw bare refl

best-count :
    (roots : List String) (c : String × ℕ) (d : List (String × ℕ))
    → count_roots [] roots ≡ c ∷ d
    → let best = best_from not_more c d in
      (best.1 ≡ count best.0 roots) × ((r : String) → count r roots ≤ best.1)
best-count roots c d found =
    let best = best_from not_more c d in
    let entries =
      subst (All (λ x. lookup x.0 (count_roots [] roots) ≡ some x.1)) found
        (lookup-entries (count_roots [] roots) (count_roots-IsDict [] roots tt)) in
    let entry =
      best_from-All not_more (λ x. lookup x.0 (count_roots [] roots) ≡ some x.1) c d entries.0
        entries.1 in
    let (first, others) =
      best_from-bounds not_more (λ x y h. ground arith) (λ x y z h k. ground arith) c d
        (ground arith) in
    let bounds =
      All-imp (λ x. not_more x best ≡ true) (λ x. x.1 ≤ best.1) (λ x h. leb→le x.1 best.1 h) (c ∷ d)
        (first, others) in
    (
      sym (count-counts best.0 roots ∙ ap number entry),
      λ r. rw (count-counts r roots, found) (number-le best.1 (c ∷ d) r bounds),
    )

-- The dominant root of a scenario stands in its records as often as the report says, and no root stands there
-- more often. Without a root the number is 0.
pub dominant-IsMost :
    (roots : List String)
    → ((dominant roots).1 ≡ count (dominant roots).0 roots)
      × ((r : String) → count r roots ≤ (dominant roots).1)
unfolding dominant
dominant-IsMost roots = elim (List-cases (count_roots [] roots)) [
  | inl bare ↦
      rw (dominant, bare)
        (sym (no-count "—" roots bare), λ r. rw (no-count r roots bare) (omega arith))
  | inr (c, d, found) ↦ rw (dominant, found) (best-count roots c d found)
]
