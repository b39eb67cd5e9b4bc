-- ===== src/Cooling/Storms.antt =====
-- The loop from a flag to its storm.
use mathlib.Core.Option.{some-injective}
use abb_accelerator_submissi.Prelude.{
  ℕ, suc, ◌+◌, ◌≤◌, ◌≡◌, refl, sym, subst, ◌∙◌, inl, inr, true, false, Option, some, List, [], ◌∷◌,
  ◌++◌, String, length, length-append, arith, Bool-cases, if◌then◌else◌, Float, text_key,
  number_key,
}
use abb_accelerator_submissi.Cooling.{
  Settings, Phase, Cooling, Event, is_flush, do_post, heartbeat, loop_step, event_step, run,
  fio_command,
}
use abb_accelerator_submissi.Cooling.Runs.{event_step-IsTidy, run-IsTidy_from}
use abb_accelerator_submissi.Cooling.Beats.{
  IsTidy, IsFlagged, one_if, is_storming, Phase-cases, heartbeat-cases, loop_step-beating,
  loop_step-checking, loop_step-removing, loop_step-storming,
}

-- The steps of the loop among the events.
abbrev pub rounds : {R : Type 0} → List (Event R) → ℕ
rounds [] = 0
rounds (Event.post path ∷ events) = rounds events
rounds (Event.round now ∷ events) = suc (rounds events)

-- The steps of the loop until a flag that is there has had its storm.
abbrev left : Phase → ℕ
left Phase.beating = 4
left Phase.checking = 3
left Phase.removing = 2
left Phase.storming = 5

-- `goal` storms will have run after `n` more steps of the loop.
data IsDue {R : Type 0} (goal : ℕ) (s : Cooling R) (n : ℕ) : Type 0 where
  waiting :
      s.flag ≡ true
      → left s.phase ≤ n
      → goal ≤ length s.ran + (1 + one_if (is_storming s.phase))
      → IsDue goal s n
  running : s.phase ≡ Phase.storming → 1 ≤ n → goal ≤ length s.ran + 1 → IsDue goal s n
  done : goal ≤ length s.ran → IsDue goal s n

module _ {R : Type 0} ⦃f : Float R⦄ (set : Settings R) (line : R → String) where
  heartbeat-same :
      (now : R) (s : Cooling R)
      → ((heartbeat set line now s).flag ≡ s.flag) × ((heartbeat set line now s).ran ≡ s.ran)
  heartbeat-same now s = elim (heartbeat-cases set line now s) [
    | inl due ↦ rw due (refl, refl)
    | inr early ↦ rw early (refl, refl)
  ]

  beating-IsDue :
      (goal n : ℕ) (now : R) (s : Cooling R)
      → s.phase ≡ Phase.beating
      → IsDue goal s (suc n)
      → IsDue goal (record (heartbeat set line now s) { phase = Phase.checking }) n
  beating-IsDue goal n now s at (waiting up late h) =
      waiting ((heartbeat-same now s).0 ∙ up) (omega (arith, rw at at late))
        (rw ((heartbeat-same now s).1) (omega (arith, rw at at h)))
  beating-IsDue goal n now s at (running storm late h) = absurd (cc)
  beating-IsDue goal n now s at (done h) = done (rw ((heartbeat-same now s).1) h)

  checking-IsDue :
      (goal n : ℕ) (s : Cooling R)
      → s.phase ≡ Phase.checking
      → IsDue goal s (suc n)
      → IsDue goal (record s { phase = if s.flag then Phase.removing else Phase.beating }) n
  checking-IsDue goal n s at (waiting up late h) =
      waiting up (rw up (omega (arith, rw at at late))) (rw up (omega (arith, rw at at h)))
  checking-IsDue goal n s at (running storm late h) = absurd (cc)
  checking-IsDue goal n s at (done h) = done h

  removing-IsDue :
      (goal n : ℕ) (s : Cooling R)
      → s.phase ≡ Phase.removing
      → IsDue goal s (suc n)
      → IsDue goal (record s { phase = Phase.storming; flag = false }) n
  removing-IsDue goal n s at (waiting up late h) =
      running refl (omega (arith, rw at at late)) (omega (arith, rw at at h))
  removing-IsDue goal n s at (running storm late h) = absurd (cc)
  removing-IsDue goal n s at (done h) = done h

  storming-IsDue :
      (goal n : ℕ) (s : Cooling R)
      → s.phase ≡ Phase.storming
      → IsDue goal s (suc n)
      → IsDue goal (record s { phase = Phase.beating; ran = s.ran ++ fio_command set ∷ [] }) n
  storming-IsDue goal n s at (waiting up late h) =
      waiting up (omega (arith, rw at at late))
        (rw (length-append s.ran (fio_command set ∷ [])) (omega (arith, rw at at h)))
  storming-IsDue goal n s at (running storm late h) =
      done (rw (length-append s.ran (fio_command set ∷ [])) (omega (arith, h)))
  storming-IsDue goal n s at (done h) =
      done (rw (length-append s.ran (fio_command set ∷ [])) (omega (arith, h)))

  same-IsDue :
      {goal n : ℕ} {o : Option (Cooling R)} {s t : Cooling R}
      → o ≡ some s
      → o ≡ some t
      → IsDue goal t n
      → IsDue goal s n
  same-IsDue {goal} {n} e same = subst (λ t. IsDue goal t n) (some-injective _ _ (sym same ∙ e))

  loop_step-IsDue :
      (goal n : ℕ) (now : R) (s s' : Cooling R)
      → IsFlagged s.phase s.flag
      → loop_step set line now s ≡ some s'
      → IsDue goal s (suc n)
      → IsDue goal s' n
  loop_step-IsDue goal n now s s' flagged e due = elim (Phase-cases s.phase) [
    | inl at ↦
        same-IsDue e (loop_step-beating set line now s at) (beating-IsDue goal n now s at due)
    | inr (inl at) ↦
        same-IsDue e (loop_step-checking set line now s at) (checking-IsDue goal n s at due)
    | inr (inr (inl at)) ↦
        same-IsDue e (loop_step-removing set line now s at (rw at at flagged))
          (removing-IsDue goal n s at due)
    | inr (inr (inr at)) ↦
        same-IsDue e (loop_step-storming set line now s at) (storming-IsDue goal n s at due)
  ]

  flag-IsDue :
      (goal n : ℕ) (s : Cooling R) → IsDue goal s n → IsDue goal (record s { flag = true }) n
  flag-IsDue goal n s (waiting up late h) = waiting refl late h
  flag-IsDue goal n s (running storm late h) = running storm late h
  flag-IsDue goal n s (done h) = done h

  event_step-IsDue :
      (e : Event R) (goal n : ℕ) (s s' : Cooling R)
      → IsFlagged s.phase s.flag
      → event_step set line e s ≡ some s'
      → IsDue goal s (rounds (e ∷ []) + n)
      → IsDue goal s' n
  unfolding event_step do_post
  event_step-IsDue (Event.round now) goal n s s' flagged e due =
      loop_step-IsDue goal n now s s' flagged e (subst (IsDue goal s) (omega arith) due)
  event_step-IsDue (Event.post path) goal n s s' flagged e due = elim (Bool-cases (is_flush path)) [
    | inl flush ↦
        same-IsDue (rw flush at e) refl
          (flag-IsDue goal n s (subst (IsDue goal s) (omega arith) due))
    | inr other ↦ same-IsDue (rw other at e) refl (subst (IsDue goal s) (omega arith) due)
  ]

  rounds-next :
      (e : Event R) (events : List (Event R)) (n : ℕ)
      → rounds (e ∷ events) + n ≡ rounds (e ∷ []) + (rounds events + n)
  rounds-next (Event.post path) events n = omega arith
  rounds-next (Event.round now) events n = omega arith

  run-IsDue :
      (events : List (Event R)) (goal armed n : ℕ) (s s' : Cooling R)
      → IsTidy set armed s
      → run set line events s ≡ some s'
      → IsDue goal s (rounds events + n)
      → IsDue goal s' n
  unfolding run
  run-IsDue [] goal armed n s s' tidy e due =
      same-IsDue e refl (subst (IsDue goal s) (omega arith) due)
  run-IsDue (step ∷ events) goal armed n s s' tidy e due =
      let (next, same, kept) = event_step-IsTidy set line step armed s tidy in
      run-IsDue events goal _ n next s' kept (rw (same, run) at e) (
        event_step-IsDue step goal (rounds events + n) s next tidy.flagged same
          (subst (IsDue goal s) (rounds-next step events n) due))

  left-le : (p : Phase) → (2 ≤ left p) × (left p ≤ 5)
  left-le Phase.beating = (omega arith, omega arith)
  left-le Phase.checking = (omega arith, omega arith)
  left-le Phase.removing = (omega arith, omega arith)
  left-le Phase.storming = (omega arith, omega arith)

  over : (goal : ℕ) (s : Cooling R) → IsDue goal s 0 → goal ≤ length s.ran
  over goal s (waiting up late h) = absurd (omega (arith, (left-le s.phase).0))
  over goal s (running storm late h) = absurd (omega (arith, late))
  over goal s (done h) = h

  -- A storm that is armed runs: wherever the loop is, after five more of its steps, under any requests, one more storm
  -- has run, and two more where one is running when the flag is set.
  pub run-storms :
      (events : List (Event R)) (armed : ℕ) (s : Cooling R)
      → IsTidy set armed s
      → s.flag ≡ true
      → 5 ≤ rounds events
      → (s' : Cooling R) × (run set line events s ≡ some s')
        × (length s.ran + (1 + one_if (is_storming s.phase)) ≤ length s'.ran)
  run-storms events armed s tidy up enough =
      let goal = length s.ran + (1 + one_if (is_storming s.phase)) in
      let (s', same, kept) = run-IsTidy_from set line events armed s tidy in
      (
        s',
        same,
        over goal s' (
            run-IsDue events goal armed 0 s s' tidy same
              (waiting up (omega (arith, (left-le s.phase).1)) (omega arith))),
      )
