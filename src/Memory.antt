-- ===== src/Memory.antt =====
-- correlation/engine/state.py, the table `edge_memory` and the three updates of `observe`: an edge that
-- is seen is confirmed, one that is not seen decays, and the pairs on a shared disk are seeded. A row
-- is keyed by the two workloads and the signal; a replaced row goes to the end of the table.
pub mod Table
pub mod Keyed
pub mod Each
pub mod Bounds
pub mod Later
pub mod Steps
pub mod Hysteresis
use abb_accelerator_submissi.Prelude.{
  ℕ, ◌+◌, Bool, false, not, ◌&&◌, ◌||◌, Option, none, some, List, [], ◌∷◌, ◌++◌, map, String,
  if◌then◌else◌, Float, nought, one, max, ◌==◌, text_key, text_le, contains, select, any,
}
use abb_accelerator_submissi.Workload.{stable_workload}
use abb_accelerator_submissi.Gate.{Edge, Evidence, Pairs}

pub record MemoryConfig (R : Type 0) : Type 0 where
  pub signal : String
  pub alpha : R
  pub decay : R
  pub show : R
  pub hide : R
  pub prior : R
  pub floor_frac : R
  pub tau_merge : R
  pub tau_family : R
  pub base_alpha : R
  pub dev_k : R
  pub mad_floor : R
  pub base_min_n : ℕ

pub data EdgeState : Type 0 where
  active confirming steady decaying hidden : EdgeState

pub record Row (R : Type 0) : Type 0 where
  pub src : String
  pub dst : String
  pub signal : String
  pub confidence : R
  pub r : R
  pub lag_s : ℕ
  pub evidence : List Evidence
  pub hits : ℕ
  pub visible : Bool
  pub state : EdgeState
  pub first_seen_ts : R
  pub last_seen_ts : R
  pub updated_ts : R
  pub base_conf : R

abbrev pub RowKey : Type 0
RowKey = String × String × String

abbrev pub same_key : RowKey → RowKey → Bool
same_key a b = a.0 == b.0 && a.1 == b.1 && a.2 == b.2

abbrev pub has_row_key : RowKey → List RowKey → Bool
has_row_key k = any (same_key k)

module _ {R : Type 0} where
  abbrev pub key_of : Row R → RowKey
  key_of row = (row.src, row.dst, row.signal)

  -- `SELECT … WHERE src=? AND dst=? AND signal=?`
  unfoldable pub find_row : RowKey → List (Row R) → Option (Row R)
  find_row k [] = none
  find_row k (row ∷ rows) = if same_key (key_of row) k then some row else find_row k rows

  abbrev pub delete_row : RowKey → List (Row R) → List (Row R)
  delete_row k = select (λ row. not (same_key (key_of row) k))

  -- `INSERT OR REPLACE`
  unfoldable pub replace_row : Row R → List (Row R) → List (Row R)
  replace_row row rows = delete_row (key_of row) rows ++ row ∷ []

  -- `UPDATE edge_memory SET base_conf=? WHERE …`
  unfoldable pub set_base : R → RowKey → List (Row R) → List (Row R)
  set_base base k [] = []
  set_base base k (row ∷ rows) =
      (if same_key (key_of row) k then record row { base_conf = base } else row)
      ∷ set_base base k rows

module _ {R : Type 0} ⦃f : Float R⦄ (cfg : MemoryConfig R) where
  abbrev pub edge_key : Edge R → RowKey
  edge_key e = (stable_workload e.src, stable_workload e.dst, cfg.signal)

  -- The confidence after one more hit.
  abbrev pub raised : R → R
  raised conf = f.add conf (f.mul cfg.alpha (f.sub one conf))

  -- The floor that is learned: it never falls.
  abbrev pub learned_floor : R → R → R
  learned_floor prev conf = max prev (f.mul cfg.floor_frac conf)

  -- The row that `_confirm_edge` writes.
  unfoldable pub confirmed : Edge R → R → Option (Row R) → Row R
  confirmed e ts old =
      let conf : R = elim old [ none ↦ cfg.alpha | some row ↦ raised row.confidence ] in
      let prev_base : R = elim old [ none ↦ nought | some row ↦ row.base_conf ] in
      let shown : Bool = elim old [
        | none ↦ f.le cfg.show conf
        | some row ↦ row.visible || f.le cfg.show conf
      ] in
      record {
        src = stable_workload e.src;
        dst = stable_workload e.dst;
        signal = cfg.signal;
        confidence = conf;
        r = e.r;
        lag_s = e.lag_s;
        evidence = e.evidence;
        hits = elim old [ none ↦ 1 | some row ↦ row.hits + 1 ];
        visible = shown;
        state = if shown then EdgeState.active else EdgeState.confirming;
        first_seen_ts = elim old [ none ↦ ts | some row ↦ row.first_seen_ts ];
        last_seen_ts = ts;
        updated_ts = ts;
        base_conf = learned_floor prev_base conf;
      }

  unfoldable pub confirm_edge : Edge R → R → List (Row R) → List (Row R)
  unfolding confirmed replace_row
  confirm_edge e ts rows = replace_row (confirmed e ts (find_row (edge_key e) rows)) rows

  unfoldable pub confirm_edges : List (Edge R) → R → List (Row R) → List (Row R)
  unfolding confirm_edge
  confirm_edges [] ts rows = rows
  confirm_edges (e ∷ edges) ts rows = confirm_edges edges ts (confirm_edge e ts rows)

  -- The confidence after a pass without the edge: it falls to the learned floor, not to nought.
  abbrev pub lowered : Row R → R
  lowered row = max row.base_conf (f.mul row.confidence (f.sub one cfg.decay))

  unfoldable pub decayed : R → Row R → Row R
  decayed ts row =
      let conf = lowered row in
      let shown = row.visible && f.le cfg.hide conf in
      let at_floor = f.le conf (f.add row.base_conf (f.decimal 1 9)) && f.lt nought row.base_conf in
      record row {
        confidence = conf;
        visible = shown;
        state =
            if at_floor
            then EdgeState.steady
            else if shown
            then EdgeState.decaying
            else EdgeState.hidden;
        updated_ts = ts;
      }

  -- A row decays if it is of this signal, is not seen, and both its workloads run.
  abbrev pub fades : List RowKey → List String → Row R → Bool
  fades seen present row =
      row.signal == cfg.signal
      && (not (has_row_key (key_of row) seen)
          && (contains present row.src && contains present row.dst))

  unfoldable pub faded : List RowKey → List String → R → Row R → Row R
  unfolding decayed
  faded seen present ts row = if fades seen present row then decayed ts row else row

  unfoldable pub decay_absent_edges : List RowKey → List String → R → List (Row R) → List (Row R)
  decay_absent_edges seen present ts [] = []
  decay_absent_edges seen present ts (row ∷ rows) =
      faded seen present ts row ∷ decay_absent_edges seen present ts rows

  -- A new pair starts at the prior, as its confidence and as its floor.
  abbrev pub seeded : String → String → R → Row R
  seeded a b ts = record {
    src = a;
    dst = b;
    signal = cfg.signal;
    confidence = cfg.prior;
    r = nought;
    lag_s = 0;
    evidence = Evidence.pvc ∷ [];
    hits = 0;
    visible = false;
    state = EdgeState.steady;
    first_seen_ts = ts;
    last_seen_ts = ts;
    updated_ts = ts;
    base_conf = cfg.prior;
  }

  unfoldable pub seed_key : String → String → R → List (Row R) → List (Row R)
  unfolding set_base
  seed_key a b ts rows = elim (find_row (a, b, cfg.signal) rows) [
    | none ↦ rows ++ seeded a b ts ∷ []
    | some row ↦
        if f.lt row.base_conf cfg.prior then set_base cfg.prior (a, b, cfg.signal) rows else rows
  ]

  -- One pair of pods on a shared disk; `sorted` puts the lesser workload first.
  unfoldable pub seed_pair : List String → R → String → String → List (Row R) → List (Row R)
  unfolding seed_key
  seed_pair present ts p q rows =
      let a = stable_workload p in
      let b = stable_workload q in
      if a == b || not (contains present a && contains present b)
      then rows
      else if text_le a b
      then seed_key a b ts rows
      else seed_key b a ts rows

  unfoldable pub seed_structural : Pairs → List String → R → List (Row R) → List (Row R)
  unfolding seed_pair
  seed_structural [] present ts rows = rows
  seed_structural ((p, q) ∷ pairs) present ts rows =
      seed_structural pairs present ts (seed_pair present ts p q rows)

  -- The three updates of `observe`, in its order.
  unfoldable pub update_edges :
      Option Pairs → List (Edge R) → List String → R → List (Row R) → List (Row R)
  unfolding seed_structural confirm_edges decay_absent_edges
  update_edges shared edges present ts rows =
      let seeds : List (Row R) = elim shared [
        | none ↦ rows
        | some pairs ↦ seed_structural pairs present ts rows
      ] in
      decay_absent_edges (map edge_key edges) present ts (confirm_edges edges ts seeds)
