-- ===== src/Api/Console.antt =====
-- The console against what a cluster promises.
use abb_accelerator_submissi.Prelude.{
  ℕ, ◌≡◌, ◌≢◌, ◌⊎◌, refl, ◌∙◌, Bool, true, false, Option, some, String, Bool-cases, inl, inr, ◌==◌,
  text_key, number_key, arith,
}
use abb_accelerator_submissi.Api.Scenarios.{
  Outcome, Job, Cluster, Status, Reply, then_call, unless_missing, await_gone, clone_job,
  clone_when_gone, job_for, trigger_s2, reply_of, trigger,
}

-- What a cluster shows of its state, and what its calls promise when they answer: a Job that is created is the one
-- that is there, and the CronJob is as it was; the template that is read is that of the CronJob; the value of a patch
-- is that of the Deployment; a request to /flush arms the storm.
pub record IsCluster {W S : Type 0} (k : Cluster W S) : Type 0 where
  pub job_of : W → Option (Job S)
  pub template_of : W → Option S
  pub leak_of : W → String
  pub is_armed : W → Bool
  pub created :
      (j : Job S) (w w' : W)
      → k.create_job j w ≡ (Outcome.answered tt, w')
      → (job_of w' ≡ some j) × (template_of w' ≡ template_of w)
  pub read :
      (spec : S) (w w' : W)
      → k.get_cron_job w ≡ (Outcome.answered spec, w')
      → template_of w' ≡ some spec
  pub patched :
      (v : String) (w w' : W) → k.patch_leak v w ≡ (Outcome.answered tt, w') → leak_of w' ≡ v
  pub flushed : (w w' : W) → k.post_flush w ≡ (Outcome.answered tt, w') → is_armed w' ≡ true

differs : (a b : String) → (a == b) ≡ false → a ≢ b
differs a b h e = ground (arith, text_key.same_iff a b)

module _ {W S : Type 0} (k : Cluster W S) (laws : IsCluster k) where
  -- What a reply of `trigger` says of the state before and after.
  pub data IsDone (sid : String) (w : W) : Reply → W → Type 0 where
    stormed :
        (w' : W)
        → sid ≡ "S1"
        → laws.is_armed w' ≡ true
        → IsDone sid w (Reply.said "S1" Status.armed) w'
    cloned :
        (spec : S) (w' : W)
        → sid ≡ "S2"
        → laws.template_of w' ≡ some spec
        → laws.job_of w' ≡ some (job_for spec)
        → IsDone sid w (Reply.said "S2" Status.fired) w'
    leaks :
        (w' : W)
        → sid ≡ "S5"
        → laws.leak_of w' ≡ "true"
        → IsDone sid w (Reply.said "S5" Status.fired) w'
    fails :
        (code : ℕ) (w' : W)
        → (sid ≡ "S1") ⊎ (sid ≡ "S2") ⊎ (sid ≡ "S5")
        → IsDone sid w (Reply.refused code) w'
    unknown : sid ≢ "S1" → sid ≢ "S2" → sid ≢ "S5" → IsDone sid w (Reply.refused 501) w

  -- A sequence of calls that answers.
  answered-then_call :
      {A B : Type 0} (r : Outcome A × W) (next : A → W → Outcome B × W) (b : B) (w : W)
      → then_call r next ≡ (Outcome.answered b, w)
      → (a : A) × (w1 : W) × (r ≡ (Outcome.answered a, w1)) × (next a w1 ≡ (Outcome.answered b, w))
  unfolding then_call
  answered-then_call (Outcome.answered a, w1) next b w h = (a, w1, refl, h)
  answered-then_call (Outcome.http_error code, w1) next b w h = absurd (cc)
  answered-then_call (Outcome.failed, w1) next b w h = absurd (cc)

  trigger_s2-cloned :
      (w w' : W)
      → trigger_s2 k w ≡ (Outcome.answered tt, w')
      → (spec : S) × (laws.template_of w' ≡ some spec) × (laws.job_of w' ≡ some (job_for spec))
  unfolding trigger_s2 clone_when_gone clone_job
  trigger_s2-cloned w w' h =
      let (_, w1, _, h1) =
        answered-then_call (unless_missing (k.delete_job w)) (λ _ w1. clone_when_gone k w1) tt w'
          h in
      let (_, w2, _, h2) =
        answered-then_call (await_gone k 20 w1) (λ _ w2. clone_job k w2) tt w' h1 in
      let (spec, w3, got, h3) =
        answered-then_call (k.get_cron_job w2) (λ spec. k.create_job (job_for spec)) tt w' h2 in
      let (job, same) = laws.created (job_for spec) w3 w' h3 in
      (spec, same ∙ laws.read spec w2 w3 got, job)

  -- a reply of one of the scenarios
  replied :
      (sid name : String) (status : Status) (w : W) (r : Outcome Unit × W)
      → (sid ≡ "S1") ⊎ (sid ≡ "S2") ⊎ (sid ≡ "S5")
      → ((w' : W) → r ≡ (Outcome.answered tt, w') → IsDone sid w (Reply.said name status) w')
      → IsDone sid w
          (reply_of k (Reply.refused 503) name status r).0
          (reply_of k (Reply.refused 503) name status r).1
  unfolding reply_of
  replied sid name status w (Outcome.answered a, w') known done = done w' refl
  replied sid name status w (Outcome.http_error code, w') known done = fails code w' known
  replied sid name status w (Outcome.failed, w') known done = fails 503 w' known

  -- A trigger that is answered with 200 has done what it says: for S1 the storm is armed, for S2 the Job of the fixed
  -- name is there, with the template of the CronJob, and for S5 the leak is on. A text that is none of the three is
  -- refused with 501 and changes nothing; any failure of a call ends as an error with a code. The cluster keeps the
  -- promises of its calls.
  pub trigger-IsDone : (sid : String) (w : W) → IsDone sid w (trigger k sid w).0 (trigger k sid w).1
  unfolding trigger
  trigger-IsDone sid w = elim (Bool-cases (sid == "S1")) [
    | inl e ↦
        let same = (text_key.same_iff sid "S1").0 e in
        rw e (
          replied sid "S1" Status.armed w (k.post_flush w) (inl same)
            (λ w' h. stormed w' same (laws.flushed w w' h)))
    | inr e1 ↦ elim (Bool-cases (sid == "S2")) [
      | inl e ↦
          let same = (text_key.same_iff sid "S2").0 e in
          rw (e1, e)
            (replied sid "S2" Status.fired w (trigger_s2 k w) (inr (inl same)) (λ w' h.
              let (spec, template, job) = trigger_s2-cloned w w' h in
              cloned spec w' same template job))
      | inr e2 ↦ elim (Bool-cases (sid == "S5")) [
        | inl e ↦
            let same = (text_key.same_iff sid "S5").0 e in
            rw (e1, e2, e)
              (replied sid "S5" Status.fired w (k.patch_leak "true" w) (inr (inr same))
                (λ w' h. leaks w' same (laws.patched "true" w w' h)))
        | inr e5 ↦
            rw (e1, e2, e5)
              (unknown (differs sid "S1" e1) (differs sid "S2" e2) (differs sid "S5" e5))
      ]
    ]
  ]
