-- ===== src/Soak/Run.antt =====
-- soak/record.py: the two files that `cmd_append` extends, and the parts of `cmd_report` that are of the whole run: the
-- series and the summary. `iso` is the text of a time; what the report copies from meta.json is left out.
use abb_accelerator_submissi.Prelude.{
  ℕ, ◌-◌, Bool, not, ◌||◌, Option, none, some, List, [], ◌∷◌, ◌++◌, map, String, length, select,
  ltb, if◌then◌else◌, Float, nought, ◌==◌, text_key, number_key,
}
use abb_accelerator_submissi.Cases.{set_of}
use abb_accelerator_submissi.Soak.{Sample, Notice, mark, is_text, events}
use abb_accelerator_submissi.Soak.Rollup.{Rollup, rollup, least_of}

-- A line of timeline.csv: the names of the columns, or the cells of a record, which are all its fields but the
-- narrative.
pub data Line (R : Type 0) : Type 0 where
  columns : Line R
  cells : Sample R → Line R

-- samples.jsonl and timeline.csv.
pub record Files (R : Type 0) : Type 0 where
  pub samples : List (Sample R)
  pub timeline : List (Line R)

-- A point of the charts.
pub record Mark (R : Type 0) : Type 0 where
  pub epoch : ℕ
  pub t : String
  pub phase : String
  pub cycle : String
  pub n_edges : ℕ
  pub n_findings : ℕ
  pub root : String
  pub matched : Option Bool
  pub oom : Option R

pub record Summary (R : Type 0) : Type 0 where
  pub ended_iso : String
  pub duration_min : R
  pub n_samples : ℕ
  pub n_cycles : ℕ

pub record Report (R : Type 0) : Type 0 where
  pub summary : Summary R
  pub per_scenario : List (String × Rollup R)
  pub series : List (Mark R)
  pub events : List (Notice R)

-- `SCEN_ORDER`
abbrev pub scen_order : List String
scen_order = "S1" ∷ "S2" ∷ "S3" ∷ "S5" ∷ []

abbrev pub or_zero : Option ℕ → ℕ
or_zero none = 0
or_zero (some n) = n

abbrev pub greatest_of : ℕ → List ℕ → ℕ
greatest_of m [] = m
greatest_of m (x ∷ xs) = greatest_of (if ltb m x then x else m) xs

abbrev pub in_order : String → Bool
in_order s = s == "S1" || (s == "S2" || (s == "S3" || s == "S5"))

module _ {R : Type 0} where
  abbrev pub no_files : Files R
  no_files = record { samples = []; timeline = [] }

  -- The end of `cmd_append`: the columns stand in front of the first line.
  unfoldable pub write_record : Sample R → Files R → Files R
  write_record rec files = record {
    samples = files.samples ++ rec ∷ [];
    timeline =
        (elim files.timeline [ [] ↦ Line.columns ∷ [] | l ∷ ls ↦ l ∷ ls ]) ++ Line.cells rec ∷ [];
  }

  unfoldable pub write_all : List (Sample R) → Files R → Files R
  unfolding write_record
  write_all [] files = files
  write_all (rec ∷ recs) files = write_all recs (write_record rec files)

  unfoldable pub mark_of : Sample R → Mark R
  mark_of x = record {
    epoch = x.epoch;
    t = x.t;
    phase = x.phase;
    cycle = x.cycle;
    n_edges = or_zero x.n_edges;
    n_findings = or_zero x.n_findings;
    root = x.root;
    matched = if is_text x.root then mark x.phase x.root else none;
    oom = x.oom_eta_s;
  }

  abbrev pub series : List (Sample R) → List (Mark R)
  series = map mark_of

module _ {R : Type 0} ⦃f : Float R⦄ (iso : ℕ → String) where
  -- The first and the last time of the records that have one that is not 0.
  abbrev pub span : List (Mark R) → ℕ × ℕ
  span points = elim (select (λ t. not (t == 0)) (map (λ x. x.epoch) points)) [
    | [] ↦ (0, 0)
    | t ∷ ts ↦ (least_of t ts, greatest_of t ts)
  ]

  unfoldable pub summary : List (Sample R) → Summary R
  unfolding mark_of set_of
  summary rows =
      let (t0, t1) = span (series rows) in
      record {
        ended_iso = if t1 == 0 then "" else iso t1;
        duration_min =
            if t1 == 0 then nought else f.round (f.div (f.of_nat (t1 - t0)) (f.of_nat 60)) 1;
        n_samples = length (series rows);
        n_cycles = length (set_of (map (λ x. x.cycle) (select (λ x. in_order x.phase) rows)));
      }

  -- `cmd_report`
  unfoldable pub report : List (Sample R) → Report R
  unfolding summary mark_of rollup events
  report rows = record {
    summary = summary rows;
    per_scenario = map (λ s. (s, rollup s rows)) scen_order;
    series = series rows;
    events = events rows;
  }
