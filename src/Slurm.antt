-- ===== src/Slurm.antt =====
-- JobMonitorSlurmCERN of reana_job_controller/job_monitor.py. The submit node that it asks over SSH
-- and the transfer of outputs are not part of the repository: they are the fields of `Submitter`.
pub mod Results
pub mod Progress
pub mod Submission
pub mod Tests
use reana_job_controller.Prelude.{List, String, [], if◌then◌else◌, one_of, ◌∷◌}
use reana_job_controller.Dict.{Dict}
use reana_job_controller.Python.{
  Action, Result, for_each, gets, lift, pure, try_except, ◌>>=◌, ◌>>◌,
}
use reana_job_controller.JobDb.{
  Job, State, call, get_outputs, mark_deleted, sleep, store_job_logs, update_job_status,
}
use reana_job_controller.JobDb
use reana_job_controller.Managers.{Outside}
use reana_job_controller.Managers
use reana_job_controller.Managers.Backends.{slurmcern}
use reana_job_controller.Kubernetes.Monitor.{collect_remaining}

pub record Submitter : Type 0 where
  -- the output of `scontrol show job ... -o | ... JobState ...` for a job, without its line end
  pub job_state : String → Result String
  -- SlurmJobManagerCERN.get_outputs()
  pub transfer : Result (Unit {0})
  pub outside : Outside

-- slurmJobStatus["failed"] and slurmJobStatus["finished"]
abbrev pub failed_states : List String
failed_states =
    "BOOT_FAIL" ∷ "CANCELLED" ∷ "DEADLINE" ∷ "FAILED" ∷ "NODE_FAIL" ∷ "OUT_OF_MEMORY" ∷ "PREEMPTED"
    ∷ "TIMEOUT" ∷ "SUSPENDED" ∷ "STOPPED" ∷ []

abbrev pub finished_states : List String
finished_states = "COMPLETED" ∷ []

abbrev pub statuses_to_skip : List String
statuses_to_skip = "finished" ∷ "failed" ∷ "stopped" ∷ []

-- The loop that fills slurm_jobs, which is the loop of the Kubernetes monitor for another backend.
unfoldable pub jobs_to_watch : Dict Job → Dict String
jobs_to_watch db = collect_remaining "slurmcern" statuses_to_skip db []

module _ (submitter : Submitter) where
  -- the body of both `if`s
  unfoldable pub record_end : String → String → String → Action State (Unit {0})
  record_end id slurm_job_id status = do
    call get_outputs
    lift submitter.transfer
    update_job_status id status
    mark_deleted id
    db ← gets (λ s. s.job_db)
    job ← lift (JobDb.get_job id db)
    logs ← lift (Managers.get_logs submitter.outside slurmcern slurm_job_id job.workflow_workspace)
    store_job_logs id logs

  -- the two `if`s, one after the other
  unfoldable pub settle_state : String → String → String → Action State (Unit {0})
  unfolding record_end
  settle_state id slurm_job_id state = do
    (if one_of state finished_states then record_end id slurm_job_id "finished" else pure tt)
    (if one_of state failed_states then record_end id slurm_job_id "failed" else pure tt)

  unfoldable pub watch_job : String × String → Action State (Unit {0})
  unfolding settle_state
  watch_job (slurm_job_id, id) = do
    state ← lift (submitter.job_state slurm_job_id)
    settle_state id slurm_job_id state

  -- One round of `while True`. With no job to watch it goes round again at once.
  unfoldable pub watch_pass : Action State (Unit {0})
  unfolding jobs_to_watch watch_job
  watch_pass =
      try_except (do db ← gets (λ s. s.job_db); for_each (jobs_to_watch db) watch_job)
        (λ e. call (sleep 120))

-- The passes one after another, each with what the submit node answers in it.
unfoldable pub watch_jobs : List Submitter → State → State
watch_jobs [] s = s
watch_jobs (submitter ∷ later) s = watch_jobs later (watch_pass submitter s).1
