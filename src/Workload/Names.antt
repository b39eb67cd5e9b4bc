-- ===== src/Workload/Names.antt =====
-- What `stable_workload` makes of the names that Kubernetes gives to pods.
use Prim.Native.Char.{Char, code}
use Prim.Native.String.{◌++◌ as ◌+++◌}
use text.Mathlib.TextEquality.{Char-path}
use text.Mathlib.TextLemmas.{nil-append, cons-append}
use abb_accelerator_submissi.Prelude.{
  ◌-◌, ◌≤◌, ◌≡◌, refl, ap, sym, String, false, true, List, [], ◌∷◌, ◌++◌, number_key, length, take,
  ltb, lt→ltb, arith, length-append, Bool-cases, inl, inr,
}
use abb_accelerator_submissi.Workload.{dash, is_dash, push, split, join, stable_workload}

-- No character of the text is a dash.
abbrev pub IsPlain : String → Type 0
IsPlain String.[] = Unit
IsPlain (String.◌∷◌ c s) = (is_dash c ≡ false) × IsPlain s

split_nonempty : (s : String) → 1 ≤ length (split s)
unfolding split
split_nonempty String.[] = omega arith
split_nonempty (String.◌∷◌ c s) = ground (arith, split_nonempty s)

push-append : (c : Char) (xs ys : List String) → 1 ≤ length xs → push c (xs ++ ys) ≡ push c xs ++ ys
push-append c [] ys h = absurd (omega arith)
push-append c (x ∷ xs) ys h = refl

split-append : (s t : String) → split (s +++ String.◌∷◌ dash t) ≡ split s ++ split t
unfolding split
split-append String.[] t = rw nil-append
split-append (String.◌∷◌ c s) t =
    rw (cons-append c s (String.◌∷◌ dash t), split, split-append s t)
      (elim (Bool-cases (is_dash c)) [
        | inl e ↦ rw e
        | inr e ↦ rw e (push-append c (split s) (split t) (split_nonempty s))
      ])

split_plain : (s : String) → IsPlain s → split s ≡ s ∷ []
unfolding split
split_plain String.[] h = refl
split_plain (String.◌∷◌ c s) h = rw (h.0, split_plain s h.1)

join-push :
    (c : Char) (xs : List String) → 1 ≤ length xs → join (push c xs) ≡ String.◌∷◌ c (join xs)
unfolding join
join-push c [] h = absurd (omega arith)
join-push c (x ∷ []) h = refl
join-push c (x ∷ y ∷ xs) h = cons-append c x _

join-nil-cons :
    (xs : List String) → 1 ≤ length xs → join (String.[] ∷ xs) ≡ String.◌∷◌ dash (join xs)
unfolding join
join-nil-cons [] h = absurd (omega arith)
join-nil-cons (x ∷ xs) h = nil-append _

dash_code : (c : Char) → is_dash c ≡ true → code c ≡ b'-'
dash_code c h = ground arith

join-split : (s : String) → join (split s) ≡ s
unfolding join split
join-split String.[] = refl
join-split (String.◌∷◌ c s) = elim (Bool-cases (is_dash c)) [
  | inl e ↦
      rw (e, join-nil-cons (split s) (split_nonempty s), join-split s)
        (ap (λ d. String.◌∷◌ d s) (Char-path dash c (sym (dash_code c e))))
  | inr e ↦ rw (e, join-push c (split s) (split_nonempty s), join-split s)
]

take-append : (xs ys : List String) → take (length xs) (xs ++ ys) ≡ xs
take-append [] ys = refl
take-append (x ∷ xs) ys = ap (◌∷◌ x) (take-append xs ys)

take_two_less :
    (xs : List String) (a b : String)
    → let parts = xs ++ a ∷ b ∷ [] in take (length parts - 2) parts ≡ xs
take_two_less xs a b =
    let e : length (xs ++ a ∷ b ∷ []) - 2 ≡ length xs =
      omega (arith, length-append xs (a ∷ b ∷ [])) in
    rw e (take-append xs (a ∷ b ∷ []))

-- A pod of a Deployment is named by its workload and two parts without a dash, the hash of the
-- ReplicaSet and that of the pod. Whatever dashes the workload's name has, that name is recovered.
pub stable_workload_pod :
    (name replica pod : String)
    → IsPlain replica
    → IsPlain pod
    → stable_workload (name +++ String.◌∷◌ dash (replica +++ String.◌∷◌ dash pod)) ≡ name
unfolding stable_workload
stable_workload_pod name replica pod h k =
    let parts : split (name +++ String.◌∷◌ dash (replica +++ String.◌∷◌ dash pod))
        ≡ split name ++ replica ∷ pod ∷ [] =
      rw (
        split-append name (replica +++ String.◌∷◌ dash pod),
        split-append replica pod,
        split_plain replica h,
        split_plain pod k,
      ) in
    let many : ltb 2 (length (split name ++ replica ∷ pod ∷ [])) ≡ true =
      lt→ltb _ _
        (omega (arith, length-append (split name) (replica ∷ pod ∷ []), split_nonempty name)) in
    rw (parts, many, take_two_less (split name) replica pod) (join-split name)

-- A name of at most two parts is kept.
stable_workload_short : (pod : String) → length (split pod) ≤ 2 → stable_workload pod ≡ pod
unfolding stable_workload
stable_workload_short pod h = ground arith
