-- ===== src/Service/Process.antt =====
-- correlation/service.py: the process around the loop: the database files of the signals, the memories that they open
-- to, and what the HTTP server answers. `splitext` is that of os.path; a file is given with the name of its signal,
-- and `version` is the row that `GraphMemory` records, with the time and the texts of its parameters.
use Prim.Native.String.{◌++◌ as ◌+++◌}
use abb_accelerator_submissi.Prelude.{
  Option, none, some, List, [], ◌∷◌, map, String, if◌then◌else◌, Float, ◌==◌, text_key, ◌||◌,
  lookup,
}
use abb_accelerator_submissi.Cooling.{rstrip}
use abb_accelerator_submissi.Store.{ModelVersion}
use abb_accelerator_submissi.Store.Migration.{Disk, open_memory, disk_of, recorded_version}
use abb_accelerator_submissi.Service.{Graph, Memories}

-- `_db_for`: the first signal keeps the path, the others have their name in it.
unfoldable pub db_for : (String → String × String) → String → String → String → String
db_for splitext memory_db primary signal =
    if signal == primary
    then memory_db
    else (splitext memory_db).0 +++ ("." +++ (signal +++ (splitext memory_db).1))

abbrev pub Files : Type 0 → Type 0
Files R = List (String × Disk R)

-- What `do_GET` answers: `ok`, the graph, or 404.
pub data Page (R : Type 0) : Type 0 where
  healthy : Page R
  graph : Graph R → Page R
  not_found : Page R

unfoldable pub do_get : {R : Type 0} → String → Graph R → Page R
unfolding rstrip
do_get path g =
    if path == "/healthz"
    then Page.healthy
    else if rstrip path == "" || rstrip path == "/graph"
    then Page.graph g
    else Page.not_found

module _ {R : Type 0} ⦃f : Float R⦄ where
  -- The version that the start on the files left in the file of a signal.
  unfoldable pub version_in : Files R → String → Option String
  unfolding lookup recorded_version
  version_in files sig = elim (lookup sig files) [ none ↦ none | some d ↦ recorded_version d ]

  -- What the files hold when a process ends that was started on `files`.
  abbrev pub files_of : Files R → Memories R → Files R
  files_of files = map (λ sm. (sm.0, disk_of (version_in files sm.0) sm.1))

  -- `_memory`
  unfoldable pub boot : (String → ModelVersion R) → Files R → Option (Memories R)
  unfolding open_memory
  boot version [] = some []
  boot version ((sig, d) ∷ files) = elim (open_memory (version sig) d) [
    | none ↦ none
    | some m ↦ elim (boot version files) [
      | none ↦ none
      | some memories ↦ some ((sig, m) ∷ memories)
    ]
  ]
