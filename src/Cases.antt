-- ===== src/Cases.antt =====
-- correlation/engine/state.py, the tables `cases` and `case_observations`: how similar an incident is
-- to a stored case, and what `_promote_case` makes of a verdict. Sets are lists without repetition.
-- The SHA-1 of the key's JSON text is the parameter `digest`.
mod Sets
mod Incident
pub mod Promotion
pub mod Nearest
pub mod Registers
unfoldable pub use Sets.*
unfoldable pub use Incident.*
use abb_accelerator_submissi.Prelude.{
  ℕ, zero, suc, ◌+◌, Bool, true, false, not, ◌||◌, Option, none, some, List, [], ◌∷◌, ◌++◌, map,
  String, any, if◌then◌else◌, Float, nought, ◌==◌, text_key, number_key, sort,
}
use abb_accelerator_submissi.Workload.{stable_workload}
use abb_accelerator_submissi.Gate.{Edge, Evidence, evidence_key}
use abb_accelerator_submissi.Pipeline.{Verdict}
use abb_accelerator_submissi.Memory.{MemoryConfig}

abbrev pub Motif : Type 0
Motif = List (String × String)

-- What identifies an incident: the key that is hashed and stored. The links of the motif are sorted
-- and may repeat.
pub record Fingerprint : Type 0 where
  pub stressors : List String
  pub victims : List String
  pub motif : Motif
  pub signal : String
  pub witness_kind : Option Evidence

pub record Case (R : Type 0) : Type 0 where
  pub id : String
  pub shape : Fingerprint
  pub occurrences : ℕ
  pub first_seen_ts : R
  pub last_seen_ts : R
  pub typical_lead_time_s : Option R
  pub family_id : Option String

pub data Register : Type 0 where
  recurrence variant novel : Register

-- The entry that `_promote_case` returns.
pub record Promoted (R : Type 0) : Type 0 where
  pub case_id : String
  pub case_family : String
  pub case_register : Register
  pub case_sim : R

pub record Observation (R : Type 0) : Type 0 where
  pub ts : R
  pub case_id : String
  pub root : String
  pub victims : List String

abbrev pub same_kind : Option Evidence → Option Evidence → Bool
same_kind none none = true
same_kind (some a) (some b) = a == b
same_kind _ _ = false

abbrev pub family_of : {R : Type 0} → Case R → String
family_of c = elim c.family_id [ none ↦ c.id | some id ↦ id ]

-- The tables of cases and of observations.
pub record Archive (R : Type 0) : Type 0 where
  pub cases : List (Case R)
  pub observations : List (Observation R)

module _ {R : Type 0} ⦃f : Float R⦄ where
  -- 0 where the signal or the physical witness differs.
  unfoldable pub case_sim : Fingerprint → Case R → R
  unfolding jaccard set_of
  case_sim fp case =
      if not (fp.signal == case.shape.signal)
        || not (same_kind fp.witness_kind case.shape.witness_kind)
      then nought
      else f.add
          (f.add (f.mul (f.decimal 40 2) (overlap fp.victims case.shape.victims))
            (f.mul (f.decimal 20 2) (overlap fp.stressors case.shape.stressors)))
          (f.mul (f.decimal 40 2) (overlap fp.motif case.shape.motif))

  -- The nearest case: a later one must be strictly more similar, and the first more than 0.
  unfoldable pub nearest : Fingerprint → Option (Case R) → R → List (Case R) → Option (Case R) × R
  unfolding case_sim
  nearest fp best sim [] = (best, sim)
  nearest fp best sim (c ∷ cases) =
      let s = case_sim fp c in
      let wins = f.lt sim s in
      nearest fp (if wins then some c else best) (if wins then s else sim) cases

  -- The lead time of a recurrence: the mean over its occurrences.
  unfoldable pub merged_lead : Case R → Option R → Option R
  merged_lead c none = c.typical_lead_time_s
  merged_lead c (some lead) = elim c.typical_lead_time_s [
    | none ↦ some lead
    | some old ↦
        some
          (f.div (f.add (f.mul old (f.of_nat c.occurrences)) lead) (f.of_nat (c.occurrences + 1)))
  ]

  unfoldable pub fold_case : String → R → Option R → List (Case R) → List (Case R)
  fold_case id ts lead [] = []
  fold_case id ts lead (c ∷ cases) =
      (if c.id == id
        then record c {
          occurrences = c.occurrences + 1;
          last_seen_ts = ts;
          typical_lead_time_s = lead;
        }
        else c)
      ∷ fold_case id ts lead cases

  -- `INSERT OR IGNORE`
  unfoldable pub open_case : Case R → List (Case R) → List (Case R)
  open_case c cases = if any (λ d. d.id == c.id) cases then cases else cases ++ c ∷ []

  module _ (cfg : MemoryConfig R) (digest : Fingerprint → String) where
    abbrev pub link_of : Edge R → String × String
    link_of e = (stable_workload e.src, stable_workload e.dst)

    unfoldable pub fingerprint : String → List String → List (Edge R) → Fingerprint
    unfolding dominant_witness sort
    fingerprint root victims edges = record {
      stressors = root ∷ [];
      victims = victims;
      motif = sort link_le (map link_of edges);
      signal = cfg.signal;
      witness_kind = dominant_witness edges;
    }

    -- The decision on the nearest case, and the table after it.
    unfoldable pub enter_case :
        Fingerprint → Option R → R → List (Case R) → Promoted R × List (Case R)
    unfolding nearest merged_lead fold_case open_case
    enter_case fp lead ts cases =
        let (best, sim) = nearest fp none nought cases in
        let new_id = digest fp in
        let fresh : String → Case R = λ family. record {
          id = new_id;
          shape = fp;
          occurrences = 1;
          first_seen_ts = ts;
          last_seen_ts = ts;
          typical_lead_time_s = lead;
          family_id = some family;
        } in
        let opened : String → Register → Promoted R × List (Case R) = λ family register. (
          record {
            case_id = new_id;
            case_family = family;
            case_register = register;
            case_sim = f.round sim 3;
          },
          open_case (fresh family) cases,
        ) in
        elim best [
          | none ↦ opened new_id Register.novel
          | some c ↦
              if f.le cfg.tau_merge sim
              then (
                record {
                  case_id = c.id;
                  case_family = family_of c;
                  case_register = Register.recurrence;
                  case_sim = f.round sim 3;
                },
                fold_case c.id ts (merged_lead c lead) cases,
              )
              else if f.le cfg.tau_family sim
              then opened (family_of c) Register.variant
              else opened new_id Register.novel
        ]

    -- A case comes only from a verdict with a root that owns source evidence, and with victims.
    unfoldable pub promote_case : Verdict R → R → Archive R → Option (Promoted R) × Archive R
    unfolding source_rooted victims_of fingerprint enter_case lead_time
    promote_case graph ts archive = elim graph.root_cause_ranking [
      | [] ↦ (none, archive)
      | cause ∷ _ ↦
          let root = stable_workload cause.pod in
          if not (source_rooted root graph.edges)
          then (none, archive)
          else elim (victims_of root graph.blast_radius graph.edges) [
            | [] ↦ (none, archive)
            | v ∷ vs ↦
                let fp = fingerprint root (v ∷ vs) graph.edges in
                let (promoted, cases) =
                  enter_case fp (lead_time graph.blast_radius graph.edges) ts archive.cases in
                (
                  some promoted,
                  record {
                    cases = cases;
                    observations =
                        archive.observations
                        ++ record {
                          ts = ts;
                          case_id = promoted.case_id;
                          root = root;
                          victims = v ∷ vs;
                        }
                          ∷ [];
                  },
                )
          ]
    ]
