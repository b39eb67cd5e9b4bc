-- ===== src/Soak.antt =====
-- soak/record.py: the flat record of one verdict, and the report over the records of a run. Files, JSON and
-- the texts of the report are left out; an empty number of a record is `none`.
pub mod Notable
pub mod Rollup
pub mod Dominant
pub mod Run
pub mod Totals
use abb_accelerator_submissi.Prelude.{
  ℕ, zero, suc, ◌-◌, Bool, false, not, ◌&&◌, ◌||◌, Option, none, some, List, [], ◌∷◌, String,
  length, select, last_items, if◌then◌else◌, Float, nought, abs, ◌==◌, text_key, best_from, is_some,
}

-- The graph that the API serves.
pub record Root (R : Type 0) : Type 0 where
  pub pod : String
  pub score : R
  pub onset_s : Option R

pub record Link (R : Type 0) : Type 0 where
  pub src : String
  pub dst : String
  pub r : Option R
  pub evidence : List String

pub record Incipient (R : Type 0) : Type 0 where
  pub pod : String
  pub eta_s : Option R

pub record Snapshot (R : Type 0) : Type 0 where
  pub root : List (Root R)
  pub edges : List (Link R)
  pub findings : ℕ
  pub incipient : List (Incipient R)
  pub active : Option ℕ
  pub pods : Option ℕ

-- A line of samples.jsonl.
pub record Sample (R : Type 0) : Type 0 where
  pub t : String
  pub epoch : ℕ
  pub phase : String
  pub cycle : String
  pub ok : Bool
  pub root : String
  pub root_score : Option R
  pub onset_s : Option R
  pub n_edges : Option ℕ
  pub n_findings : Option ℕ
  pub n_incipient : Option ℕ
  pub active : Option ℕ
  pub pods : Option ℕ
  pub top_victim : String
  pub evidence : List String
  pub oom_pod : String
  pub oom_eta_s : Option R
  pub narrative : String
  pub narr_source : String

abbrev pub text_or : {A : Type 0} → Option A → (A → String) → String
text_or o g = elim o [ none ↦ "" | some x ↦ g x ]

module _ {R : Type 0} ⦃f : Float R⦄ where
  -- `abs(x.get("r") or 0.0)`
  abbrev pub strength : Link R → R
  strength e = elim e.r [ none ↦ nought | some r ↦ abs r ]

  abbrev pub not_stronger : Link R → Link R → Bool
  not_stronger x m = not (f.lt (strength m) (strength x))

  -- A forecast without a time counts as 1e9 seconds.
  abbrev pub eta_of : Incipient R → R
  eta_of w = elim w.eta_s [ none ↦ f.of_nat 1000000000 | some eta ↦ eta ]

  abbrev pub not_sooner : Incipient R → Incipient R → Bool
  not_sooner x m = not (f.lt (eta_of x) (eta_of m))

  -- The strongest edge out of the root, or of all edges if none leaves it.
  unfoldable pub top_edge : String → List (Link R) → Option (Link R)
  unfolding best_from
  top_edge root edges = elim (select (λ e. e.src == root) edges) [
    | e ∷ es ↦ some (best_from not_stronger e es)
    | [] ↦ elim edges [ [] ↦ none | e ∷ es ↦ some (best_from not_stronger e es) ]
  ]

  unfoldable pub soonest : List (Incipient R) → Option (Incipient R)
  unfolding best_from
  soonest [] = none
  soonest (w ∷ ws) = some (best_from not_sooner w ws)

  abbrev pub first_root : List (Root R) → Option (Root R)
  first_root [] = none
  first_root (x ∷ xs) = some x

  -- `cmd_append`: the record of a tick. Without a graph its fields are empty.
  unfoldable pub append :
      String → ℕ → String → String → Option (Snapshot R) → Option (String × String) → Sample R
  unfolding top_edge soonest
  append t epoch phase cycle graph narrative =
      let told : String × String = elim narrative [ none ↦ ("", "") | some n ↦ n ] in
      let bare : Sample R = record {
        t = t;
        epoch = epoch;
        phase = phase;
        cycle = cycle;
        ok = is_some graph;
        root = "";
        root_score = none;
        onset_s = none;
        n_edges = none;
        n_findings = none;
        n_incipient = none;
        active = none;
        pods = none;
        top_victim = "";
        evidence = [];
        oom_pod = "";
        oom_eta_s = none;
        narrative = told.0;
        narr_source = told.1;
      } in
      elim graph [
        | none ↦ bare
        | some g ↦
            let root = text_or (first_root g.root) (λ x. x.pod) in
            let top = top_edge root g.edges in
            let first = soonest g.incipient in
            record bare {
              root = root;
              root_score = elim (first_root g.root) [ none ↦ none | some x ↦ some x.score ];
              onset_s = elim (first_root g.root) [ none ↦ none | some x ↦ x.onset_s ];
              n_edges = some (length g.edges);
              n_findings = some g.findings;
              n_incipient = some (length g.incipient);
              active = g.active;
              pods = g.pods;
              top_victim = text_or top (λ e. e.dst);
              evidence = elim top [ none ↦ [] | some e ↦ e.evidence ];
              oom_pod = text_or first (λ w. w.pod);
              oom_eta_s = elim first [ none ↦ none | some w ↦ w.eta_s ];
            }
      ]

-- `EXPECT`: the scenarios and the workload that each should name, if it has one.
unfoldable pub expected : String → Option (Option String)
expected s =
    if s == "S1"
    then some (some "cooling-monitor")
    else if s == "S2"
    then some (some "log-archiver")
    else if s == "S3"
    then some (some "analytics-batch")
    else if s == "S5"
    then some none
    else none

abbrev pub is_scenario : String → Bool
is_scenario s = is_some (expected s)

-- The root is the expected one.
unfoldable pub is_match : String → String → Bool
unfolding expected
is_match s root = elim (expected s) [ none ↦ false | some none ↦ false | some (some e) ↦ root == e ]

abbrev pub is_text : String → Bool
is_text s = not (s == "")

-- The events of the report: the first detection of a scenario in a cycle, with the mark of a match, and
-- the first forecast of a cycle.
pub data Notice (R : Type 0) : Type 0 where
  detect : (t phase cycle root : String) → (ok : Option Bool) → Notice R
  oom : (t phase cycle pod : String) → (eta_s : R) → Notice R

abbrev pub same_seen : String × String → String × String → Bool
same_seen a b = a.0 == b.0 && a.1 == b.1

unfoldable pub is_seen : String × String → List (String × String) → Bool
is_seen k [] = false
is_seen k (s ∷ seen) = same_seen s k || is_seen k seen

abbrev pub mark : String → String → Option Bool
mark phase root = elim (expected phase) [ some (some e) ↦ some (root == e) | _ ↦ none ]

module _ {R : Type 0} where
  -- The entry of the notice in `seen`, where both kinds stand.
  abbrev pub notice_key : Notice R → String × String
  notice_key (Notice.detect t phase cycle root ok) = (cycle, phase)
  notice_key (Notice.oom t phase cycle pod eta_s) = ("oom", cycle)

  unfoldable pub detection : List (String × String) → Sample R → Option (Notice R)
  unfolding is_seen expected
  detection seen x =
      if is_scenario x.phase && (is_text x.root && not (is_seen (x.cycle, x.phase) seen))
      then some (Notice.detect x.t x.phase x.cycle x.root (mark x.phase x.root))
      else none

  unfoldable pub forecast : List (String × String) → Sample R → Option (Notice R)
  unfolding is_seen
  forecast seen x = elim x.oom_eta_s [
    | none ↦ none
    | some eta ↦
        if is_seen ("oom", x.cycle) seen
        then none
        else some (Notice.oom x.t x.phase x.cycle x.oom_pod eta)
  ]

  abbrev pub see : Option (Notice R) → List (String × String) → List (String × String)
  see none seen = seen
  see (some n) seen = notice_key n ∷ seen

  abbrev pub note : Option (Notice R) → List (Notice R) → List (Notice R)
  note none rest = rest
  note (some n) rest = n ∷ rest

  unfoldable pub notices : List (String × String) → List (Sample R) → List (Notice R)
  unfolding detection forecast
  notices seen [] = []
  notices seen (x ∷ rows) =
      let found = detection seen x in
      let seen1 = see found seen in
      let warned = forecast seen1 x in note found (note warned (notices (see warned seen1) rows))

  -- The last 40.
  unfoldable pub events : List (Sample R) → List (Notice R)
  unfolding notices
  events rows = last_items 40 (notices [] rows)
