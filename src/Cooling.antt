-- ===== src/Cooling.antt =====
-- workloads/cooling-monitor/main.py: the HTTP handler that arms a storm, and the loop that writes the heartbeat and
-- runs the storm. The handler runs in a thread of its own, so its requests fall between the steps of the loop. The
-- file `FLUSH` is a flag; `line` is the text of a journal line at a time. The output and the pauses are left out.
pub mod Beats
pub mod Runs
pub mod Storms
use Prim.Native.Char.{Char, code}
use Prim.Native.String.{◌++◌ as ◌+++◌}
use abb_accelerator_submissi.Prelude.{
  ℕ, zero, suc, ◌+◌, ◌%◌, Bool, true, false, not, ◌&&◌, Option, none, some, List, [], ◌∷◌, ◌++◌,
  String, if◌then◌else◌, Float, nought, ◌==◌, text_key, number_key,
}

-- The constants of the module, which the environment sets.
pub record Settings (R : Type 0) : Type 0 where
  pub dir : String
  pub fio_size : String
  pub fio_jobs : String
  pub fio_runtime : String
  pub fio_fsync : String
  pub fio_direct : String
  pub journal_lines : ℕ
  pub journal_period_s : R
  pub journal_fsync_every : ℕ

-- Where the loop is: at the heartbeat, at `exists`, at `remove`, at `subprocess.run`.
pub data Phase : Type 0 where
  beating checking removing storming : Phase

-- The files, the variables of `main`, and what was asked of the disk: the calls of `fsync` and the commands run.
pub record Cooling (R : Type 0) : Type 0 where
  pub phase : Phase
  pub flag : Bool
  pub thermal_log : List String
  pub writes : ℕ
  pub last_journal : R
  pub fsyncs : ℕ
  pub ran : List (List String)

abbrev pub slash : Char
slash = "/"

abbrev is_slash : Char → Bool
is_slash c = code c == b'/'

-- A character in front of a text that has lost its slashes at the end.
unfoldable pub keep : Char → String → String
keep c String.[] = if is_slash c then String.[] else String.◌∷◌ c String.[]
keep c (String.◌∷◌ d s) = String.◌∷◌ c (String.◌∷◌ d s)

-- `path.rstrip("/")`
unfoldable pub rstrip : String → String
unfolding keep
rstrip String.[] = String.[]
rstrip (String.◌∷◌ c s) = keep c (rstrip s)

abbrev pub is_flush : String → Bool
is_flush path = rstrip path == "/flush"

-- `do_GET`: the status of the reply.
unfoldable pub do_get : String → ℕ
do_get path = if path == "/healthz" then 200 else 404

unfoldable pub replicate {ℓ} : {A : Type ℓ} → ℕ → A → List A
replicate zero a = []
replicate (suc n) a = a ∷ replicate n a

module _ {R : Type 0} where
  -- `do_POST`: the status of the reply, and the flag.
  unfoldable pub do_post : String → Cooling R → ℕ × Cooling R
  unfolding rstrip
  do_post path s = if is_flush path then (202, record s { flag = true }) else (404, s)

  -- The arguments of `subprocess.run`.
  unfoldable pub fio_command : Settings R → List String
  fio_command set =
      "fio"
      ∷ "--name=thermalflush"
      ∷ ("--directory=" +++ set.dir)
      ∷ "--rw=write"
      ∷ "--bs=1M"
      ∷ ("--size=" +++ set.fio_size)
      ∷ ("--numjobs=" +++ set.fio_jobs)
      ∷ ("--fsync=" +++ set.fio_fsync)
      ∷ ("--direct=" +++ set.fio_direct)
      ∷ "--ioengine=libaio"
      ∷ "--time_based"
      ∷ ("--runtime=" +++ set.fio_runtime)
      ∷ "--group_reporting"
      ∷ "--unlink=1"
      ∷ []

  -- `JOURNAL_FSYNC_EVERY and writes % JOURNAL_FSYNC_EVERY == 0`
  abbrev pub syncs : Settings R → ℕ → Bool
  syncs set writes = not (set.journal_fsync_every == 0) && (writes % set.journal_fsync_every == 0)

-- What happens next: a request, or a step of the loop at a time.
pub data Event (R : Type 0) : Type 0 where
  post : String → Event R
  round : R → Event R

module _ {R : Type 0} ⦃f : Float R⦄ where
  -- The start of `main`, with the files as they are found.
  abbrev pub started : Bool → List String → Cooling R
  started flag log = record {
    phase = Phase.beating;
    flag = flag;
    thermal_log = log;
    writes = 0;
    last_journal = nought;
    fsyncs = 0;
    ran = [];
  }

module _ {R : Type 0} ⦃f : Float R⦄ (set : Settings R) (line : R → String) where
  -- The heartbeat, when it is due: the journal is written anew.
  unfoldable pub heartbeat : R → Cooling R → Cooling R
  unfolding replicate
  heartbeat now s =
      if f.le set.journal_period_s (f.sub now s.last_journal)
      then record s {
        thermal_log = replicate set.journal_lines (line now);
        writes = s.writes + 1;
        fsyncs = if syncs set (s.writes + 1) then s.fsyncs + 1 else s.fsyncs;
        last_journal = now;
      }
      else s

  -- One step of `main`; `os.remove` raises where there is no file.
  unfoldable pub loop_step : R → Cooling R → Option (Cooling R)
  unfolding heartbeat fio_command
  loop_step now s = elim s.phase [
    | Phase.beating ↦ some (record (heartbeat now s) { phase = Phase.checking })
    | Phase.checking ↦ some (record s { phase = if s.flag then Phase.removing else Phase.beating })
    | Phase.removing ↦
        if s.flag then some (record s { phase = Phase.storming; flag = false }) else none
    | Phase.storming ↦
        some (record s { phase = Phase.beating; ran = s.ran ++ fio_command set ∷ [] })
  ]

  unfoldable pub event_step : Event R → Cooling R → Option (Cooling R)
  unfolding loop_step do_post
  event_step (Event.post path) s = some (do_post path s).1
  event_step (Event.round now) s = loop_step now s

  -- `none` is the end of the loop by an exception.
  unfoldable pub run : List (Event R) → Cooling R → Option (Cooling R)
  unfolding event_step
  run [] s = some s
  run (e ∷ events) s = elim (event_step e s) [ none ↦ none | some s' ↦ run events s' ]
