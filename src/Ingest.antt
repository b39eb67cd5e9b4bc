-- ===== src/Ingest.antt =====
-- workloads/telemetry-ingest/main.py: the bounded queue of messages between the MQTT callback and the writer, and
-- the batches of the writer. The database is the outcome of a step; time and the broker are left out.
pub mod Transfer
use abb_accelerator_submissi.Prelude.{
  ℕ, zero, suc, Bool, List, [], ◌∷◌, ◌++◌, String, length, ltb, if◌then◌else◌, ◌≡◌,
}

-- `(time.time(), m.topic, m.payload.decode())`
pub record Message (R : Type 0) : Type 0 where
  pub ts : R
  pub topic : String
  pub payload : String

-- The state: `Q`, the batch that the writer holds, the rows of the table, and the batches that a failed insert
-- left behind, which no variable of the program keeps.
pub record Ingest (R : Type 0) : Type 0 where
  pub queue : List (Message R)
  pub batch : List (Message R)
  pub readings : List (Message R)
  pub lost : List (Message R)

abbrev pub maxsize : ℕ
maxsize = 50000

abbrev pub batch_size : ℕ
batch_size = 500

module _ {R : Type 0} where
  abbrev pub empty : Ingest R
  empty = record { queue = []; batch = []; readings = []; lost = [] }

  -- `on_msg`: a message for a full queue is dropped.
  unfoldable pub on_msg : Message R → Ingest R → Ingest R
  on_msg m s = if ltb (length s.queue) maxsize then record s { queue = s.queue ++ m ∷ [] } else s

  -- `Q.get()` and `Q.get_nowait()`: the first message goes to the batch. Without one the state stays.
  unfoldable pub take_one : Ingest R → Ingest R
  take_one s = elim s.queue [
    | [] ↦ s
    | m ∷ queue ↦ record s { queue = queue; batch = s.batch ++ m ∷ [] }
  ]

  -- The loop of the writer that fills the batch: `n` more rounds until the second is over.
  unfoldable pub fill : ℕ → Ingest R → Ingest R
  unfolding take_one
  fill zero s = s
  fill (suc n) s =
      let rest = fill n (take_one s) in
      elim s.queue [ [] ↦ s | _ ∷ _ ↦ if ltb (length s.batch) batch_size then rest else s ]

  -- `executemany` and `commit`; an exception drops the batch with the connection.
  unfoldable pub flush : Bool → Ingest R → Ingest R
  flush ok s =
      if ok
      then record s { readings = s.readings ++ s.batch; batch = [] }
      else record s { lost = s.lost ++ s.batch; batch = [] }

  -- The steps of the writer: `get` waits for a message, so that a batch starts with one, is filled, and then is
  -- written or lost. Between two of them the callback may run.
  pub data Write : Ingest R → Ingest R → Type 0 where
    started : (s : Ingest R) → s.batch ≡ [] → Write s (take_one s)
    filled : (n : ℕ) (s : Ingest R) → Write s (fill n s)
    flushed : (ok : Bool) (s : Ingest R) → Write s (flush ok s)
