-- ===== src/Soak/Notable.antt =====
-- The notable events of the report.
use abb_accelerator_submissi.Prelude.{
  ℕ, zero, suc, ◌≡◌, refl, ◌≤◌, ◌-◌, false, Option, none, some, List, [], ◌∷◌, String, length,
  arith, All, All-imp, drop, text_key, length-drop,
}
use abb_accelerator_submissi.Soak.{
  Sample, Notice, same_seen, is_seen, notice_key, detection, forecast, see, note, notices, events,
}

module _ {R : Type 0} where
  -- No two of the notices have the same key.
  abbrev pub AreOnce : List (Notice R) → Type 0
  AreOnce [] = Unit
  AreOnce (n ∷ rest) =
      All (λ m. same_seen (notice_key n) (notice_key m) ≡ false) rest × AreOnce rest

  -- Notices that are not seen yet, once each.
  abbrev IsFresh : List (String × String) → List (Notice R) → Type 0
  IsFresh seen ns = All (λ m. is_seen (notice_key m) seen ≡ false) ns × AreOnce ns

  note-IsFresh :
      (seen : List (String × String)) (found : Option (Notice R)) (rest : List (Notice R))
      → ((n : Notice R) → found ≡ some n → is_seen (notice_key n) seen ≡ false)
      → IsFresh (see found seen) rest
      → IsFresh seen (note found rest)
  note-IsFresh seen none rest new h = h
  note-IsFresh seen (some n) rest new h =
      let off : (m : Notice R)
          → is_seen (notice_key m) (notice_key n ∷ seen) ≡ false
          → (is_seen (notice_key m) seen ≡ false)
            × (same_seen (notice_key n) (notice_key m) ≡ false) =
        λ m k. unfold is_seen in ground arith in
      (
        (
          new n refl,
          All-imp _ (λ m. is_seen (notice_key m) seen ≡ false) (λ m k. (off m k).0) rest h.0,
        ),
        (
          All-imp _ (λ m. same_seen (notice_key n) (notice_key m) ≡ false) (λ m k. (off m k).1) rest
              h.0,
          h.1,
        ),
      )

  detection-new :
      (seen : List (String × String)) (x : Sample R) (n : Notice R)
      → detection seen x ≡ some n
      → is_seen (notice_key n) seen ≡ false
  unfolding detection
  detection-new seen x n h = ground arith

  forecast-new :
      (seen : List (String × String)) (x : Sample R) (n : Notice R)
      → forecast seen x ≡ some n
      → is_seen (notice_key n) seen ≡ false
  unfolding forecast
  forecast-new seen x n h = ground arith

  notices-IsFresh :
      (seen : List (String × String)) (rows : List (Sample R)) → IsFresh seen (notices seen rows)
  unfolding notices
  notices-IsFresh seen [] = (tt, tt)
  notices-IsFresh seen (x ∷ rows) =
      let found = detection seen x in
      let seen1 = see found seen in
      let warned = forecast seen1 x in
      note-IsFresh seen found _ (detection-new seen x) (
        note-IsFresh seen1 warned _ (forecast-new seen1 x)
          (notices-IsFresh (see warned seen1) rows))

  drop-AreOnce : (n : ℕ) (ns : List (Notice R)) → AreOnce ns → AreOnce (drop n ns)
  drop-AreOnce zero ns h = h
  drop-AreOnce (suc n) [] h = tt
  drop-AreOnce (suc n) (x ∷ ns) h = drop-AreOnce n ns h.1

  -- The report lists at most 40 events, and no two of them have the same key: a scenario is detected at most
  -- once in a cycle, and each cycle has at most one forecast.
  pub events-AreOnce :
      (rows : List (Sample R)) → (length (events rows) ≤ 40) × AreOnce (events rows)
  unfolding events
  events-AreOnce rows =
      let all = notices [] rows in
      (
        rw (length-drop (length all - 40) all) (omega arith),
        drop-AreOnce (length all - 40) all (notices-IsFresh [] rows).1,
      )
