-- ===== src/Api/Narration.antt =====
-- The cached narrative against one without a cache.

use mathlib.Core.Option.{some-injective}
use abb_accelerator_submissi.Prelude.{
  ◌≡◌, refl, sym, ap, ◌∙◌, subst, ◌⊎◌, inl, inr, Option, none, some, List, [], ◌∷◌, String, Float,
  Memᴰ, All, All-imp, Bool-cases, Option-cases, List-cases, lookup, put, text_key, ◌==◌,
}
use abb_accelerator_submissi.Merge.{truthy_text}
use abb_accelerator_submissi.Api.Narrative.{
  Verdict, Root, Reply, Source, Format, Cache, signature, template_narrative, quiet_reply,
  with_forecast, rooted_narrative, narrative,
}

module _ {R : Type 0} ⦃f : Float R⦄ (fmt : Format R) where
  -- A call: the verdict that was served, and what the model answered.
  abbrev pub Call : Type 0
  Call = Verdict R × Option String

  -- The calls of the handler so far, the last one first, and the cache that they leave.
  pub data Asked : List Call → Cache fmt → Type 0 where
    fresh : Asked [] []
    asked :
        (log : List Call) (cache : Cache fmt) (g : Verdict R) (answer : Option String)
        → Asked log cache
        → Asked ((g, answer) ∷ log) (narrative fmt g answer cache).1

  -- What a handler without a cache says of a verdict with a root: the answer of the model, else the template.
  abbrev pub said : Call → Reply
  said c = elim (truthy_text c.1) [
    | none ↦ record { text = template_narrative fmt c.0; source = Source.fallback }
    | some text ↦ record { text = text; source = Source.llm }
  ]

  said-silent :
      (c : Call)
      → truthy_text c.1 ≡ none
      → said c ≡ record { text = template_narrative fmt c.0; source = Source.fallback }
  said-silent c silent = rw (said, silent) refl

  said-told :
      (c : Call) (text : String)
      → truthy_text c.1 ≡ some text
      → said c ≡ record { text = text; source = Source.llm }
  said-told c text told = rw (said, told) refl

  -- A call of the log has this signature, and the reply is what is said of it.
  abbrev pub IsSaid : List Call → String → Reply → Type 0
  IsSaid log sig reply =
      (c : Call) × Memᴰ c log × (fmt.dumps (signature c.0) ≡ sig) × (reply ≡ said c)

  -- What a handler may reply: on a verdict without a root what `quiet_reply` says; else, in front of the
  -- forecast of this verdict, what is said of this call or of an earlier one with the same signature.
  abbrev pub IsAllowed : List Call → Verdict R → Reply → Type 0
  IsAllowed log g reply =
      ((g.root ≡ []) × (reply ≡ quiet_reply fmt g))
      ⊎ ((base : Reply) × IsSaid log (fmt.dumps (signature g)) base
          × (reply ≡ with_forecast fmt g base))

  IsBacked : List Call → Cache fmt → Type 0
  IsBacked log = All (λ e. IsSaid log e.0 e.1)

  lookup-IsSaid :
      (log : List Call) (cache : Cache fmt) (sig : String) (reply : Reply)
      → IsBacked log cache
      → lookup sig cache ≡ some reply
      → IsSaid log sig reply
  unfolding lookup IsBacked
  lookup-IsSaid log [] sig reply h e = absurd (cc)
  lookup-IsSaid log ((k, c) ∷ cache) sig reply h e = elim (Bool-cases (k == sig)) [
    | inl same ↦
        subst (IsSaid log sig) (some-injective _ _ (rw same at e))
          (subst (λ x. IsSaid log x c) ((text_key.same_iff k sig).0 same) h.0)
    | inr other ↦ lookup-IsSaid log cache sig reply h.1 (rw other at e)
  ]

  older-IsBacked :
      (c : Call) (log : List Call) (cache : Cache fmt)
      → IsBacked log cache
      → IsBacked (c ∷ log) cache
  unfolding IsBacked
  older-IsBacked c log cache h =
      All-imp (λ e. IsSaid log e.0 e.1) (λ e. IsSaid (c ∷ log) e.0 e.1)
        (λ e (d, there, same, what). (d, Memᴰ.tail there, same, what)) cache h

  -- the reply and the cache of a call, in its cases
  narrative-quiet :
      (g : Verdict R) (answer : Option String) (cache : Cache fmt)
      → g.root ≡ []
      → narrative fmt g answer cache ≡ (quiet_reply fmt g, cache)
  unfolding narrative
  narrative-quiet g answer cache quiet = simp (quiet, narrative)

  module _ (g : Verdict R) (answer : Option String) (cache : Cache fmt) (r : Root R)
      (rs : List (Root R)) (rooted : g.root ≡ r ∷ rs) where
    narrative-rooted : narrative fmt g answer cache ≡ rooted_narrative fmt g answer cache
    unfolding narrative
    narrative-rooted = simp (rooted, narrative)

    narrative-hit :
        (c : Reply)
        → lookup (fmt.dumps (signature g)) cache ≡ some c
        → narrative fmt g answer cache ≡ (with_forecast fmt g c, cache)
    unfolding rooted_narrative
    narrative-hit c hit = narrative-rooted ∙ simp (hit, rooted_narrative)

    narrative-silent :
        lookup (fmt.dumps (signature g)) cache ≡ none
        → truthy_text answer ≡ none
        → narrative fmt g answer cache ≡ (with_forecast fmt g (said (g, answer)), cache)
    unfolding rooted_narrative
    narrative-silent miss silent =
        narrative-rooted
        ∙ simp (miss, silent, rooted_narrative)
            (ap (λ x. (with_forecast fmt g x, cache)) (sym (said-silent (g, answer) silent)))

    narrative-told :
        (text : String)
        → lookup (fmt.dumps (signature g)) cache ≡ none
        → truthy_text answer ≡ some text
        → narrative fmt g answer cache ≡ (
          with_forecast fmt g (said (g, answer)),
          (fmt.dumps (signature g), said (g, answer)) ∷ [],
        )
    unfolding rooted_narrative put
    narrative-told text miss told =
        narrative-rooted
        ∙ simp (miss, told, rooted_narrative)
            (ap (λ x. (with_forecast fmt g x, (fmt.dumps (signature g), x) ∷ []))
              (sym (said-told (g, answer) text told)))

  -- A call keeps the cache backed, and its reply is allowed.
  IsGood : List Call → Verdict R → Reply × Cache fmt → Type 0
  IsGood log g p = IsAllowed log g p.0 × IsBacked log p.1

  narrative-step :
      (log : List Call) (cache : Cache fmt) (g : Verdict R) (answer : Option String)
      → IsBacked log cache
      → IsGood ((g, answer) ∷ log) g (narrative fmt g answer cache)
  unfolding IsBacked IsGood
  narrative-step log cache g answer h =
      let older = older-IsBacked (g, answer) log cache h in
      let sig = fmt.dumps (signature g) in
      let now : IsSaid ((g, answer) ∷ log) sig (said (g, answer)) =
        ((g, answer), Memᴰ.head refl, refl, refl) in
      elim (List-cases g.root) [
        | inl quiet ↦
            subst (IsGood ((g, answer) ∷ log) g) (sym (narrative-quiet g answer cache quiet))
              (inl (quiet, refl), older)
        | inr (r, rs, rooted) ↦ elim (Option-cases (lookup sig cache)) [
          | inr (c, hit) ↦
              let (d, there, same, what) = lookup-IsSaid log cache sig c h hit in
              subst (IsGood ((g, answer) ∷ log) g)
                (sym (narrative-hit g answer cache r rs rooted c hit))
                (inr (c, (d, Memᴰ.tail there, same, what), refl), older)
          | inl miss ↦ elim (Option-cases (truthy_text answer)) [
            | inl silent ↦
                subst (IsGood ((g, answer) ∷ log) g)
                  (sym (narrative-silent g answer cache r rs rooted miss silent))
                  (inr (said (g, answer), now, refl), older)
            | inr (text, told) ↦
                subst (IsGood ((g, answer) ∷ log) g)
                  (sym (narrative-told g answer cache r rs rooted text miss told))
                  (inr (said (g, answer), now, refl), (now, tt))
          ]
        ]
      ]

  Asked-IsBacked : (log : List Call) (cache : Cache fmt) → Asked log cache → IsBacked log cache
  unfolding IsBacked IsGood
  Asked-IsBacked _ _ Asked.fresh = tt
  Asked-IsBacked _ _ (Asked.asked log cache g answer before) =
      (narrative-step log cache g answer (Asked-IsBacked log cache before)).1

  -- After any calls, the handler with the cache replies as one without: on a verdict without a root it reports
  -- the forecast or the steady state, and the model is not needed; else it replies, in front of the forecast
  -- of this verdict, with the answer of the model or the template for this verdict, or for an earlier one that
  -- has the same signature.
  pub narrative-IsAllowed :
      (log : List Call) (cache : Cache fmt) (g : Verdict R) (answer : Option String)
      → Asked log cache
      → IsAllowed ((g, answer) ∷ log) g (narrative fmt g answer cache).0
  unfolding IsGood
  narrative-IsAllowed log cache g answer before =
      (narrative-step log cache g answer (Asked-IsBacked log cache before)).0
