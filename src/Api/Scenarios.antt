-- ===== src/Api/Scenarios.antt =====
-- api/main.py, the scenario console: `trigger` and `reset_scenario`, with `_trigger_s2` and `_leak`. Kubernetes and the
-- cooling monitor are the parameter `Cluster`: its calls take and give the state of the plant, with the time that
-- passes in between. `sid` is the text after `upper`; the texts of the errors are left out.
use abb_accelerator_submissi.Prelude.{
  ℕ, zero, suc, String, if◌then◌else◌, ◌==◌, text_key, number_key,
}

-- What a call gives: its answer, an `HTTPError` with its code, or another exception.
pub data Outcome (A : Type 0) : Type 0 where
  answered : A → Outcome A
  http_error : ℕ → Outcome A
  failed : Outcome A

-- The Job that is posted: its name and namespace, and the specification of its pods.
pub record Job (S : Type 0) : Type 0 where
  pub name : String
  pub namespace : String
  pub spec : S

-- The calls that the console makes, at their fixed paths: the Job, the CronJob, the Deployment, and the storm.
pub record Cluster (W S : Type 0) : Type 0 where
  -- `DELETE …/jobs/log-archiver-s2?propagationPolicy=Background`
  pub delete_job : W → Outcome Unit × W
  -- `GET …/jobs/log-archiver-s2`, and the half second after an answer
  pub get_job : W → Outcome Unit × W
  -- `GET …/cronjobs/log-archiver`, its `spec.jobTemplate.spec`
  pub get_cron_job : W → Outcome S × W
  -- `POST …/jobs`
  pub create_job : Job S → W → Outcome Unit × W
  -- `PATCH …/deployments/vision-qc`, with the value of `LEAK_ENABLED`
  pub patch_leak : String → W → Outcome Unit × W
  -- `POST` to `/flush` of the cooling monitor
  pub post_flush : W → Outcome Unit × W

-- The `status` of an answer.
pub data Status : Type 0 where
  armed fired reset self_clears : Status

-- What the endpoint answers: 200 with the scenario and a status, an error with its code, or nothing, where it raises.
pub data Reply : Type 0 where
  said : String → Status → Reply
  refused : ℕ → Reply
  raised : Reply

abbrev pub job_name : String
job_name = "log-archiver-s2"

abbrev pub job_for : {S : Type 0} → S → Job S
job_for spec = record { name = job_name; namespace = "factory-data"; spec = spec }

module _ {A B W : Type 0} where
  -- The next call, unless this one raises.
  unfoldable pub then_call : Outcome A × W → (A → W → Outcome B × W) → Outcome B × W
  then_call (Outcome.answered a, w) next = next a w
  then_call (Outcome.http_error code, w) next = (Outcome.http_error code, w)
  then_call (Outcome.failed, w) next = (Outcome.failed, w)

module _ {W : Type 0} where
  -- `except HTTPError as e: if e.code != 404: raise`
  unfoldable pub unless_missing : Outcome Unit × W → Outcome Unit × W
  unless_missing (Outcome.http_error code, w) =
      if code == 404 then (Outcome.answered tt, w) else (Outcome.http_error code, w)
  unless_missing (o, w) = (o, w)

module _ {W S : Type 0} (k : Cluster W S) where
  -- The rounds that wait for the old Job: on to the next while it is there, and over after a 404.
  unfoldable pub await_gone : ℕ → W → Outcome Unit × W
  await_gone zero w = (Outcome.answered tt, w)
  await_gone (suc n) w =
      let (answer, w') = k.get_job w in
      let rest = await_gone n w' in
      elim answer [
        | Outcome.answered a ↦ rest
        | Outcome.http_error code ↦
            if code == 404 then (Outcome.answered tt, w') else (Outcome.http_error code, w')
        | Outcome.failed ↦ (Outcome.failed, w')
      ]

  -- The last two calls of `_trigger_s2`: the Job from the template of the CronJob.
  unfoldable pub clone_job : W → Outcome Unit × W
  unfolding then_call
  clone_job w = then_call (k.get_cron_job w) (λ spec. k.create_job (job_for spec))

  unfoldable pub clone_when_gone : W → Outcome Unit × W
  unfolding then_call await_gone clone_job
  clone_when_gone w = then_call (await_gone 20 w) (λ _ w'. clone_job w')

  unfoldable pub trigger_s2 : W → Outcome Unit × W
  unfolding then_call unless_missing clone_when_gone
  trigger_s2 w = then_call (unless_missing (k.delete_job w)) (λ _ w'. clone_when_gone w')

  -- The answer after the calls; `other` is for an exception that is no `HTTPError`.
  unfoldable pub reply_of : Reply → String → Status → Outcome Unit × W → Reply × W
  reply_of other sid status (Outcome.answered a, w) = (Reply.said sid status, w)
  reply_of other sid status (Outcome.http_error code, w) = (Reply.refused code, w)
  reply_of other sid status (Outcome.failed, w) = (other, w)

  unfoldable pub trigger : String → W → Reply × W
  unfolding trigger_s2 reply_of
  trigger sid w =
      if sid == "S1"
      then reply_of (Reply.refused 503) "S1" Status.armed (k.post_flush w)
      else if sid == "S2"
      then reply_of (Reply.refused 503) "S2" Status.fired (trigger_s2 w)
      else if sid == "S5"
      then reply_of (Reply.refused 503) "S5" Status.fired (k.patch_leak "true" w)
      else (Reply.refused 501, w)

  -- Here another exception is not caught.
  unfoldable pub reset_scenario : String → W → Reply × W
  unfolding unless_missing reply_of
  reset_scenario sid w =
      if sid == "S2"
      then reply_of Reply.raised "S2" Status.reset (unless_missing (k.delete_job w))
      else if sid == "S5"
      then reply_of Reply.raised "S5" Status.reset (k.patch_leak "false" w)
      else if sid == "S1"
      then (Reply.said "S1" Status.self_clears, w)
      else (Reply.refused 501, w)
