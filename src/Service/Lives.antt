-- ===== src/Service/Lives.antt =====
-- The process over its rounds and its restarts.
use mathlib.Core.Option.{some-injective}
use abb_accelerator_submissi.Prelude.{
  ◌≡◌, refl, sym, subst, ◌∙◌, inl, inr, Option, some, [], ◌∷◌, map, String, Float, All, All-imp,
  IsRounded, Option-cases, lookup, text_key, false,
}
use abb_accelerator_submissi.Lag.{Stats}
use abb_accelerator_submissi.Lag.Bounds.{IsCorrelation}
use abb_accelerator_submissi.Detectors.{Numpy}
use abb_accelerator_submissi.Ranking.Impact.{IsDamped}
use abb_accelerator_submissi.Pipeline.Rated.{IsExact}
use abb_accelerator_submissi.Pipeline.Total.{run_pass-IsRated}
use abb_accelerator_submissi.Memory.Keyed.{IsKeyed}
use abb_accelerator_submissi.Memory.Bounds.{IsBounded, IsFractional}
use abb_accelerator_submissi.Cases.{Fingerprint}
use abb_accelerator_submissi.Cases.Promotion.{IsLinked}
use abb_accelerator_submissi.Store.{Memory, ModelVersion, record_model_version}
use abb_accelerator_submissi.Store.Observing.{IsSound, remember-IsSound}
use abb_accelerator_submissi.Store.Migration.{
  Disk, or_empty, open_memory, disk_of, is_version, pod_version,
}
use abb_accelerator_submissi.Store.Opening.{
  IsVersioned, carried, cases_of, open_memory-IsUpgrade, open_memory-IsSound, reopened,
  recorded_version-not_pods,
}
use abb_accelerator_submissi.Domain.{config_for}
use abb_accelerator_submissi.Service.{start, Settings, Poll, Graph, Memories, tick}
use abb_accelerator_submissi.Service.Rated.{IsRatedMemory, remember-IsRated}
use abb_accelerator_submissi.Render.Total.{IsRatedRow}
use abb_accelerator_submissi.Service.Rounds.{tick-keeps}
use abb_accelerator_submissi.Service.Sound.{config_for-IsFractional}
use abb_accelerator_submissi.Service.Start.{start_total}
use abb_accelerator_submissi.Service.Live.{tick_total}
use abb_accelerator_submissi.Service.Process.{Files, files_of, version_in, boot}

module _ {R : Type 0} ⦃f : Float R⦄ where
  -- A file whose rows keep the invariant of the memory, with coefficients between 0 and 1.
  pub record IsSoundFile (d : Disk R) : Type 0 where
    pub versioned : IsVersioned d
    pub keyed : IsKeyed (carried d)
    pub bounded : All IsBounded (carried d)
    pub rated : All IsRatedRow (carried d)
    pub linked :
        IsLinked
          (record { cases = cases_of d.cases; observations = or_empty [] d.case_observations })

  -- What every memory of the process is.
  abbrev pub IsFit : Memory R → Type 0
  IsFit m = IsSound m × IsRatedMemory m

  abbrev pub AreFit : Memories R → Type 0
  AreFit = All (λ sm. IsFit sm.1)

  open_memory-IsFit :
      (laws : IsRounded R) (v : ModelVersion R) (d : Disk R) (m : Memory R)
      → IsSoundFile d
      → open_memory v d ≡ some m
      → IsFit m
  open_memory-IsFit laws v d m h e =
      let (m', e', up) = open_memory-IsUpgrade v d h.versioned in
      let same : m' ≡ m = some-injective _ _ (sym e' ∙ e) in
      (
        open_memory-IsSound laws v d m h.versioned h.keyed h.bounded h.linked e,
        subst IsRatedMemory same (subst (All IsRatedRow) (sym up.edges) h.rated),
      )

  boot-AreFit :
      (laws : IsRounded R) (version : String → ModelVersion R) (files : Files R)
      (memories : Memories R)
      → All (λ sd. IsSoundFile sd.1) files
      → boot version files ≡ some memories
      → AreFit memories
  unfolding boot
  boot-AreFit laws version [] memories h e = subst AreFit (some-injective _ _ e) tt
  boot-AreFit laws version ((sig, d) ∷ files) memories h e =
      elim (Option-cases (open_memory (version sig) d)) [
        | inl stuck ↦ absurd (cc (rw (boot, stuck) at e))
        | inr (m, opens) ↦ elim (Option-cases (boot version files)) [
          | inl stuck ↦ absurd (cc (rw (boot, opens, stuck) at e))
          | inr (rest, more) ↦ subst AreFit (some-injective _ _ (rw (boot, opens, more) at e)) (
            open_memory-IsFit laws (version sig) d m h.0 opens,
            boot-AreFit laws version files rest h.1 more,
          )
        ]
      ]

  -- The memories after a restart: the same, with the version recorded.
  abbrev pub restarted : (String → ModelVersion R) → Memories R → Memories R
  restarted version = map (λ sm. (sm.0, record_model_version (version sm.0) sm.1))

  boot-more :
      (version : String → ModelVersion R) (sig : String) (d : Disk R) (files : Files R)
      (m : Memory R) (memories : Memories R)
      → open_memory (version sig) d ≡ some m
      → boot version files ≡ some memories
      → boot version ((sig, d) ∷ files) ≡ some ((sig, m) ∷ memories)
  unfolding boot
  boot-more version sig d files m memories opens more = rw (boot, opens, more) refl

  version_in-not_pods :
      (files : Files R) (sig : String) → is_version pod_version (version_in files sig) ≡ false
  unfolding version_in
  version_in-not_pods files sig = elim (Option-cases (lookup sig files)) [
    | inl e ↦ rw (version_in, e) refl
    | inr (d, e) ↦ rw (version_in, e) (recorded_version-not_pods d)
  ]

  pub boot-files_of :
      (version : String → ModelVersion R) (files : Files R) (memories : Memories R)
      → boot version (files_of files memories) ≡ some (restarted version memories)
  unfolding boot
  boot-files_of version files [] = refl
  boot-files_of version files ((sig, m) ∷ memories) =
      boot-more version sig (disk_of (version_in files sig) m) (files_of files memories) _ _
        (reopened (version sig) (version_in files sig) m (version_in-not_pods files sig))
        (boot-files_of version files memories)

  restarted-AreFit :
      (version : String → ModelVersion R) (memories : Memories R)
      → AreFit memories
      → AreFit (restarted version memories)
  unfolding record_model_version
  restarted-AreFit version [] h = tt
  restarted-AreFit version ((sig, m) ∷ memories) h = (
    (record { keyed = h.0.0.keyed; bounded = h.0.0.bounded; linked = h.0.0.linked }, h.0.1),
    restarted-AreFit version memories h.1,
  )

module _ {R : Type 0} ⦃f : Float R⦄ (stats : Stats R) (np : Numpy R) (digest : Fingerprint → String)
    (epoch : String → Option R) (set : Settings R) where
  -- The files that the present process was started on and its memories: from the first files, by rounds, and by
  -- restarts on the files that a process left.
  pub data Life (files : Files R) : Files R → Memories R → Type 0 where
    born :
        (version : String → ModelVersion R) (memories : Memories R)
        → boot version files ≡ some memories
        → Life files files memories
    lived :
        (now : Files R) (memories : Memories R) (poll : Poll R) (out : Graph R × Memories R)
        → Life files now memories
        → tick stats np digest epoch set poll memories ≡ some out
        → Life files now out.1
    reborn :
        (version : String → ModelVersion R) (now : Files R) (before memories : Memories R)
        → Life files now before
        → boot version (files_of now before) ≡ some memories
        → Life files (files_of now before) memories

module _ {R : Type 0} ⦃f : Float R⦄ (laws : IsRounded R) (exact : IsExact R) (damped : IsDamped R)
    (stats : Stats R) (valid : IsCorrelation stats) (np : Numpy R) (digest : Fingerprint → String)
    (epoch : String → Option R) (set : Settings R) (fractional : IsFractional set.edge) where
  Life-AreFit :
      (files now : Files R) (memories : Memories R)
      → All (λ sd. IsSoundFile sd.1) files
      → Life stats np digest epoch set files now memories
      → AreFit memories
  Life-AreFit files _ memories h (Life.born version _ e) =
      boot-AreFit laws version files memories h e
  Life-AreFit files now memories h (Life.lived _ before poll out l e) =
      tick-keeps stats np digest epoch set (λ sig m. IsFit m)
        (λ sig graph vectors witness opts ts m ran was. (
          remember-IsSound laws (config_for set.edge sig)
              (config_for-IsFractional laws set.edge sig fractional) np digest graph vectors
              (some witness) ts m was.0,
          remember-IsRated laws (config_for set.edge sig) np digest graph vectors (some witness) ts
              m (run_pass-IsRated laws damped stats witness exact valid np opts vectors graph ran)
              was.1,
        ))
        poll before out e (Life-AreFit files now before h l)
  Life-AreFit files _ memories h (Life.reborn version now before _ l e) =
      subst AreFit (some-injective _ _ (sym (boot-files_of version now before) ∙ e))
        (restarted-AreFit version before (Life-AreFit files now before h l))

  -- From database files of any version whose rows keep the invariant, over any rounds and restarts, whatever they
  -- fetch: the memories keep the invariant, the process has a graph to serve at its start, the next round ends with
  -- one, and a restart on the files that are left, each with the schema version that its start recorded, comes back with
  -- the memories as they are, with the version of the model recorded. The configured rates are
  -- fractions, the coefficients of scipy are at most 1, `round` keeps 0 and 1, the floats have the laws of rounded
  -- arithmetic, and the sixth power of `DECAY` is below `CUT`.
  pub Life_lem :
      (files now : Files R) (memories : Memories R) (clock : String → R) (poll : Poll R)
      (version : String → ModelVersion R)
      → All (λ sd. IsSoundFile sd.1) files
      → Life stats np digest epoch set files now memories
      → All (λ sm. IsSound sm.1) memories
        × ((g : Graph R) × (start stats np digest epoch set clock memories ≡ some g))
        × ((out : Graph R × Memories R) × (tick stats np digest epoch set poll memories ≡ some out))
        × (boot version (files_of now memories) ≡ some (restarted version memories))
  Life_lem files now memories clock poll version h life =
      let fit = Life-AreFit files now memories h life in
      let rated =
        All-imp (λ sm. IsFit sm.1) (λ sm. IsRatedMemory sm.1) (λ sm x. x.1) memories fit in
      (
        All-imp (λ sm. IsFit sm.1) (λ sm. IsSound sm.1) (λ sm x. x.0) memories fit,
        start_total laws exact damped stats np digest epoch set clock memories rated,
        tick_total laws exact damped stats valid np digest epoch set poll memories rated,
        boot-files_of version now memories,
      )
