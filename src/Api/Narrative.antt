-- ===== src/Api/Narrative.antt =====
-- api/main.py, `narrative`: the sentence on a verdict, with the cache of the model's answers. The verdict is that
-- of `graph`, with workloads for pods; the prompt and the call of the model are left out, and its answer is an
-- argument.
use Prim.Native.String.{◌++◌ as ◌+++◌}
use abb_accelerator_submissi.Prelude.{
  ℕ, Bool, true, false, not, ◌&&◌, ◌||◌, Option, none, some, List, [], ◌∷◌, map, String,
  if◌then◌else◌, Float, nought, abs, ◌==◌, text_key, text_le, lookup, put, sort, best_from, select,
}
use abb_accelerator_submissi.Merge.{truthy_text}

-- The verdict that `graph` serves, with workloads for pods.
pub record Root (R : Type 0) : Type 0 where
  pub pod : String
  pub score : R

pub record Joint (R : Type 0) : Type 0 where
  pub src : String
  pub dst : String
  pub r : R
  pub evidence : List String
  pub state : Option String

pub record Hit (R : Type 0) : Type 0 where
  pub pod : String
  pub eta_s : R

-- The warnings of the engine have all their fields.
pub record Incipient (R : Type 0) : Type 0 where
  pub pod : String
  pub eta_s : R
  pub value : R
  pub limit : R

pub record Verdict (R : Type 0) : Type 0 where
  pub root : List (Root R)
  pub edges : List (Joint R)
  pub blast_radius : List (Hit R)
  pub incipient : List (Incipient R)
  pub signal : Option String
  pub pods : Option ℕ
  pub case_register : Option String

pub data Source : Type 0 where
  forecast steady llm fallback : Source

-- `{"text": …, "source": …}`
pub record Reply : Type 0 where
  pub text : String
  pub source : Source

-- What `_verdict_signature` writes as JSON.
pub record Signature : Type 0 where
  pub root : Option String
  pub edges : List (String × String × Option String)
  pub case : Option String

-- A missing state comes first; Python compares it with no text, and the edges of the engine have one.
abbrev pub state_le : Option String → Option String → Bool
state_le none b = true
state_le (some a) none = false
state_le (some a) (some b) = text_le a b

abbrev pub joint_le : String × String × Option String → String × String × Option String → Bool
joint_le a b =
    if a.0 == b.0
    then (if a.1 == b.1 then state_le a.2 b.2 else text_le a.1 b.1)
    else text_le a.0 b.0

-- What Python writes: whole numbers, `int(x)` in digits, and JSON.
pub record Format (R : Type 0) : Type 0 where
  pub nat : ℕ → String
  pub int : R → String
  pub dumps : Signature → String

abbrev pub comma : List String → String
comma [] = ""
comma (x ∷ []) = x
comma (x ∷ y ∷ xs) = x +++ (", " +++ comma (y ∷ xs))

abbrev pub or_else : Option String → String → String
or_else o d = elim o [ none ↦ d | some s ↦ s ]

module _ {R : Type 0} where
  unfoldable pub signature : Verdict R → Signature
  unfolding sort
  signature g = record {
    root = elim g.root [ [] ↦ none | r ∷ _ ↦ some r.pod ];
    edges = sort joint_le (map (λ e. (e.src, e.dst, e.state)) g.edges);
    case = g.case_register;
  }

module _ {R : Type 0} ⦃f : Float R⦄ (fmt : Format R) where
  abbrev pub not_stronger : Joint R → Joint R → Bool
  not_stronger x m = not (f.lt (abs m.r) (abs x.r))

  abbrev pub not_sooner : Incipient R → Incipient R → Bool
  not_sooner x m = not (f.lt x.eta_s m.eta_s)

  abbrev pub number_text : Option ℕ → Option String
  number_text none = none
  number_text (some n) = some (fmt.nat n)

  -- The strongest edge out of the cause; of all edges if none leaves it.
  abbrev pub strongest : String → Joint R → List (Joint R) → Joint R
  strongest cause e es = elim (select (λ x. x.src == cause) (e ∷ es)) [
    | [] ↦ best_from not_stronger e es
    | o ∷ os ↦ best_from not_stronger o os
  ]

  -- `{b["pod"]: b.get("eta_s") for b in …}.get(victim)`: the last entry of the victim.
  abbrev pub eta_of : String → Option R → List (Hit R) → Option R
  eta_of victim found [] = found
  eta_of victim found (b ∷ blast) =
      eta_of victim (if b.pod == victim then some b.eta_s else found) blast

  -- A time of 0 is falsy.
  abbrev pub eta_text : String → Option R → String
  eta_text victim none = ""
  eta_text victim (some eta) =
      if f.le eta nought && f.le nought eta
      then ""
      else ", with impact on " +++ (victim +++ (" expected in ~" +++ (fmt.int eta +++ "s")))

  abbrev pub register_text : Option String → String
  register_text none = ""
  register_text (some reg) =
      if reg == "recurrence" || reg == "variant"
      then " (recognised as a " +++ (reg +++ " of a known case)")
      else ""

  -- `_template_narrative`
  unfoldable pub template_narrative : Verdict R → String
  unfolding best_from
  template_narrative g =
      let steady : String =
        "Steady state: no causal contention detected across "
        +++ (or_else (number_text g.pods) "0" +++ " workloads.") in
      elim g.root [
        | [] ↦ steady
        | cause ∷ _ ↦ elim g.edges [
          | [] ↦ steady
          | first ∷ edges ↦
              let e = strongest cause.pod first edges in
              let ev : String = elim e.evidence [ [] ↦ "correlation" | k ∷ ks ↦ comma (k ∷ ks) ] in
              cause.pod
              +++ (" is the likely root cause of "
                  +++ (or_else g.signal "psi_io"
                      +++ (" contention: its activity correlates with "
                          +++ (e.dst
                              +++ (" over "
                                  +++ (ev
                                      +++ (eta_text e.dst (eta_of e.dst none g.blast_radius)
                                          +++ (register_text g.case_register +++ "."))))))))
        ]
      ]

  -- The units of `_fmt_mem` from the present one on.
  abbrev pub fmt_mem_from : R → String → List String → String
  fmt_mem_from v unit [] = fmt.int (f.round v 0) +++ (" " +++ unit)
  fmt_mem_from v unit (u ∷ units) =
      let larger = fmt_mem_from (f.div v (f.of_nat 1024)) u units in
      if f.le (f.of_nat 1024) v then larger else fmt.int (f.round v 0) +++ (" " +++ unit)

  abbrev pub fmt_mem : R → String
  fmt_mem b = fmt_mem_from b "B" ("KB" ∷ "MB" ∷ "GB" ∷ [])

  -- `_incipient_text`, of the forecast that comes first.
  unfoldable pub incipient_text : Incipient R → List (Incipient R) → String
  unfolding best_from
  incipient_text w ws =
      let x = best_from not_sooner w ws in
      "Early warning: "
      +++ (x.pod
          +++ (" is trending toward its memory limit ("
              +++ (fmt_mem x.value
                  +++ (" of "
                      +++ (fmt_mem x.limit
                          +++ (") — projected OOM in ~" +++ (fmt.int x.eta_s +++ "s.")))))))

  -- `_NARR_CACHE`: the entry of the last answer of the model.
  abbrev pub Cache : Type 0
  Cache = List (String × Reply)

  -- Without a root there is a forecast to report, or nothing.
  abbrev pub quiet_reply : Verdict R → Reply
  quiet_reply g = elim g.incipient [
    | [] ↦ record { text = template_narrative g; source = Source.steady }
    | w ∷ ws ↦ record { text = incipient_text w ws; source = Source.forecast }
  ]

  -- The forecast behind the verdict.
  abbrev pub with_forecast : Verdict R → Reply → Reply
  with_forecast g reply =
      let fc : String = elim g.incipient [ [] ↦ "" | w ∷ ws ↦ " " +++ incipient_text w ws ] in
      record { text = reply.text +++ fc; source = reply.source }

  -- `narrative` of a verdict with a root: the cached answer, that of the model, which is cached alone, or the
  -- template.
  unfoldable pub rooted_narrative : Verdict R → Option String → Cache → Reply × Cache
  unfolding signature template_narrative incipient_text lookup put
  rooted_narrative g answer cache =
      let sig = fmt.dumps (signature g) in
      elim (lookup sig cache) [
        | some c ↦ (with_forecast g c, cache)
        | none ↦ elim (truthy_text answer) [
          | none ↦ (
            with_forecast g (record { text = template_narrative g; source = Source.fallback }),
            cache,
          )
          | some text ↦
              let out : Reply = record { text = text; source = Source.llm } in
              (with_forecast g out, put sig out [])
        ]
      ]

  -- `narrative`, for the answer of the model in this call: the reply and the cache. The model and the time,
  -- which stand in the reply too, are left out.
  unfoldable pub narrative : Verdict R → Option String → Cache → Reply × Cache
  unfolding template_narrative incipient_text rooted_narrative
  narrative g answer cache = elim g.root [
    | [] ↦ (quiet_reply g, cache)
    | _ ∷ _ ↦ rooted_narrative g answer cache
  ]
