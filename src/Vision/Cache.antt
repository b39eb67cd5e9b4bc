-- ===== src/Vision/Cache.antt =====
-- The cache against the frames that came.
use mathlib.Core.List.{append_assoc, append-nil}
use abb_accelerator_submissi.Prelude.{
  ℕ, zero, suc, ◌-◌, ◌≤◌, ◌≡◌, refl, sym, ap, subst, ◌∙◌, Bool, true, false, List, [], ◌∷◌, ◌++◌,
  map, length, last_items, drop, length-append, length-drop, select, arith, leb, leb→le,
  if◌then◌else◌, Float, Bool-cases, inl, inr,
}
use abb_accelerator_submissi.Vision.{Vision, cache_bound, append_frame, on_msg, feed, empty}

drop-append :
    {F : Type 0} (n : ℕ) (xs ys : List F) → n ≤ length xs → drop n (xs ++ ys) ≡ drop n xs ++ ys
drop-append zero xs ys h = refl
drop-append (suc n) [] ys h = absurd (omega (arith, h))
drop-append (suc n) (x ∷ xs) ys h = drop-append n xs ys (omega (arith, h))

drop-suc : {F : Type 0} (n : ℕ) (xs : List F) → drop 1 (drop n xs) ≡ drop (suc n) xs
drop-suc zero xs = refl
drop-suc (suc n) [] = refl
drop-suc (suc n) (x ∷ xs) = drop-suc n xs

-- the last items and one more
last_items-append :
    {F : Type 0} (n : ℕ) (xs : List F) (y : F)
    → last_items n (last_items n xs ++ y ∷ []) ≡ last_items n (xs ++ y ∷ [])
last_items-append n xs y = elim (Bool-cases (leb (length xs) n)) [
  | inl few ↦ let h : length xs - n ≡ 0 = omega (arith, leb→le (length xs) n few) in rw h refl
  | inr many ↦
      let h : n ≤ length xs = ground arith in
      let gap : length (drop (length xs - n) xs ++ y ∷ []) - n ≡ 1 =
        omega (
          arith,
          length-append (drop (length xs - n) xs) (y ∷ []),
          length-drop (length xs - n) xs,
        ) in
      let all : length (xs ++ y ∷ []) - n ≡ suc (length xs - n) =
        omega (arith, length-append xs (y ∷ [])) in
      ap (λ k. drop k (drop (length xs - n) xs ++ y ∷ [])) gap
      ∙ ap (drop 1) (sym (drop-append (length xs - n) xs (y ∷ []) (omega arith)))
      ∙ drop-suc (length xs - n) (xs ++ y ∷ [])
      ∙ ap (λ k. drop k (xs ++ y ∷ [])) (sym all)
]

module _ {F R : Type 0} ⦃f : Float R⦄ (score : F → R) where
  -- What the cache and the list of defects hold after the frames.
  pub record IsFed (leak : Bool) (frames : List F) (s : Vision F R) : Type 0 where
    pub held : s.cache ≡ (if leak then frames else last_items cache_bound frames)
    pub gauge : s.cached ≡ length s.cache
    pub printed : s.defects ≡ select (λ r. f.lt (f.of_nat 200) r) (map score frames)
    pub bounded : length s.cache ≤ (if leak then length frames else cache_bound)

  next-held :
      (leak : Bool) (old : List F) (frame : F) (cache : List F)
      → cache ≡ (if leak then old else last_items cache_bound old)
      → append_frame leak frame cache
        ≡ (if leak then old ++ frame ∷ [] else last_items cache_bound (old ++ frame ∷ []))
  next-held true old frame cache h = ap (λ c. c ++ frame ∷ []) h
  next-held false old frame cache h =
      ap (λ c. last_items cache_bound (c ++ frame ∷ [])) h ∙ last_items-append cache_bound old frame

  held-bounded :
      (leak : Bool) (frames : List F)
      → length (if leak then frames else last_items cache_bound frames)
        ≤ (if leak then length frames else cache_bound)
  held-bounded true frames = omega arith
  held-bounded false frames = omega (arith, length-drop (length frames - cache_bound) frames)

  next-printed :
      (frame : F) (old : List F)
      → (if f.lt (f.of_nat 200) (score frame)
          then select (λ r. f.lt (f.of_nat 200) r) (map score old) ++ score frame ∷ []
          else select (λ r. f.lt (f.of_nat 200) r) (map score old))
        ≡ select (λ r. f.lt (f.of_nat 200) r) (map score (old ++ frame ∷ []))
  next-printed frame [] = refl
  next-printed frame (x ∷ old) = ground (arith, next-printed frame old)

  on_msg-IsFed :
      (leak : Bool) (old : List F) (frame : F) (s : Vision F R)
      → IsFed leak old s
      → IsFed leak (old ++ frame ∷ []) (on_msg score leak frame s)
  unfolding on_msg
  on_msg-IsFed leak old frame s h = record {
    held = next-held leak old frame s.cache h.held;
    gauge = refl;
    printed =
        ap (λ ds. if f.lt (f.of_nat 200) (score frame) then ds ++ score frame ∷ [] else ds)
          h.printed
        ∙ next-printed frame old;
    bounded =
        subst (λ c. length c ≤ (if leak then length (old ++ frame ∷ []) else cache_bound))
          (sym (next-held leak old frame s.cache h.held)) (held-bounded leak (old ++ frame ∷ []));
  }

  feed-IsFed_from :
      (leak : Bool) (frames old : List F) (s : Vision F R)
      → IsFed leak old s
      → IsFed leak (old ++ frames) (feed score leak frames s)
  unfolding feed on_msg
  feed-IsFed_from leak [] old s h = subst (λ fs. IsFed leak fs s) (sym (append-nil old)) h
  feed-IsFed_from leak (frame ∷ frames) old s h =
      subst (λ fs. IsFed leak fs (feed score leak (frame ∷ frames) s))
        (append_assoc old (frame ∷ []) frames)
        (feed-IsFed_from leak frames (old ++ frame ∷ []) (on_msg score leak frame s)
          (on_msg-IsFed leak old frame s h))

  -- After any frames the cache holds the last 64 of them, in their order, and all of them if the leak is on, so it has
  -- at most 64 frames without the leak. The gauge is the length of the cache, and the defects are the scores of more
  -- than 200, in their order.
  pub feed-IsFed :
      (leak : Bool) (frames : List F) → IsFed leak frames (feed score leak frames empty)
  feed-IsFed leak frames = feed-IsFed_from leak frames [] empty (record {
    held = elim (Bool-cases leak) [ inl e ↦ rw e refl | inr e ↦ rw e refl ];
    gauge = refl;
    printed = refl;
    bounded = omega arith;
  })
