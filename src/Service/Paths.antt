-- ===== src/Service/Paths.antt =====
-- The paths of the databases.
use Prim.Native.String.{◌++◌ as ◌+++◌}
use text.Mathlib.TextLemmas.{
  append_cancel_left, append_cancel_right, append_assoc, nil-append, append-eq-nil_iff,
}
use abb_accelerator_submissi.Prelude.{
  ◌≡◌, ◌≢◌, refl, sym, ap, ◌∙◌, inl, inr, Bool-cases, String, true, false, ◌==◌, text_key, ==_refl,
}
use abb_accelerator_submissi.Service.Process.{db_for}

-- what stands in front of a text is empty if the text stays
nothing_in_front : (s t : String) → s +++ t ≡ t → s ≡ ""
nothing_in_front s t h = append_cancel_right s "" t (h ∙ sym (nil-append t))

abbrev dot : String
dot = "."

abbrev empty_text : String
empty_text = ""

dot_there : dot ≢ empty_text
dot_there h = let e : false ≡ true = (text_key.same_iff dot empty_text).1 h in absurd (cc e)

-- a path with a signal in it is another path
longer : (base sig ext : String) → base +++ ("." +++ (sig +++ ext)) ≢ base +++ ext
longer base sig ext h =
    let same = append_cancel_left base _ _ h in
    let empty = nothing_in_front ("." +++ sig) ext (append_assoc "." sig ext ∙ same) in
    dot_there (append-eq-nil_iff.0 empty).0

module _ (splitext : String → String × String)
    (parted : (path : String) → (splitext path).0 +++ (splitext path).1 ≡ path)
    (path primary : String) where
  db_for-primary : db_for splitext path primary primary ≡ path
  unfolding db_for
  db_for-primary = rw (db_for, ==_refl primary) refl

  db_for-other :
      (s : String)
      → (s == primary) ≡ false
      → db_for splitext path primary s ≡ (splitext path).0 +++ ("." +++ (s +++ (splitext path).1))
  unfolding db_for
  db_for-other s e = rw (db_for, e) refl

  other-not-primary : (s : String) → (s == primary) ≡ false → db_for splitext path primary s ≢ path
  other-not-primary s e h =
      longer (splitext path).0 s (splitext path).1 (sym (db_for-other s e) ∙ h ∙ sym (parted path))

  -- No two signals have the same database: the root and the extension of a path, put together, are the path.
  pub db_for-injective :
      (s t : String) → db_for splitext path primary s ≡ db_for splitext path primary t → s ≡ t
  db_for-injective s t h = elim (Bool-cases (s == primary)) [
    | inl es ↦ elim (Bool-cases (t == primary)) [
      | inl et ↦ (text_key.same_iff s primary).0 es ∙ sym ((text_key.same_iff t primary).0 et)
      | inr et ↦ absurd (
          other-not-primary t et (
            sym h
            ∙ ap (db_for splitext path primary) ((text_key.same_iff s primary).0 es)
            ∙ db_for-primary))
    ]
    | inr es ↦ elim (Bool-cases (t == primary)) [
      | inl et ↦ absurd (
          other-not-primary s es (
            h
            ∙ ap (db_for splitext path primary) ((text_key.same_iff t primary).0 et)
            ∙ db_for-primary))
      | inr et ↦
          let same = sym (db_for-other s es) ∙ h ∙ db_for-other t et in
          let tails = append_cancel_left "." _ _ (append_cancel_left (splitext path).0 _ _ same) in
          append_cancel_right s t (splitext path).1 tails
    ]
  ]
