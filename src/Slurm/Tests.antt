-- ===== src/Slurm/Tests.antt =====
-- The Slurm monitor on small inputs.
use reana_job_controller.Prelude.{
  [], none, refl, some, ◌∷◌, ◌≡◌, Bool-cases, String, eq_iff, inl, inr, sym, ◌==◌,
}
use reana_job_controller.Python.{ok}
use reana_job_controller.Text.{concat, join_path}
use reana_job_controller.Dict.{insert, lookup}
use reana_job_controller.JobDb.{Job, State}
use reana_job_controller.Managers
use reana_job_controller.Managers.Backends.{}
use reana_job_controller.Rest.Samples.{job_on, outside}
use reana_job_controller.JobDb.Frame.{Guarded}
use reana_job_controller.Slurm.{Submitter, watch_job, watch_jobs, statuses_to_skip, watch_pass}
use reana_job_controller.Kubernetes.Monitor.{is_remaining}
use reana_job_controller.Kubernetes.Monitor.Remaining.{Remains}
use reana_job_controller.Slurm.Progress.{Over, watch_pass-Over}
use reana_job_controller.Slurm.Results.{
  end_of, ended, is_watched, watch_job_lem, watch_jobs-Guarded_slurm,
}

abbrev submitter : Submitter
submitter = record { job_state = λ b. ok "COMPLETED"; transfer = ok tt; outside = outside }

abbrev the_job : Job
the_job = job_on "j1" "slurmcern" "running"

abbrev one_job : State
one_job = record { job_db = ("j1", the_job) ∷ []; calls = [] }

watch_jobs-Guarded_slurm_example :
    Guarded is_watched one_job.job_db (watch_jobs (submitter ∷ []) one_job).job_db
watch_jobs-Guarded_slurm_example =
    watch_jobs-Guarded_slurm (submitter ∷ []) one_job (unfold lookup in (refl, tt))

watch_job_lem_example :
    ((watch_job submitter ("b", "j1") one_job).0 ≡ ok tt)
    × ((watch_job submitter ("b", "j1") one_job).1.job_db
        ≡ insert "j1" (ended the_job (end_of "COMPLETED") (some "texttext")) one_job.job_db)
watch_job_lem_example =
    watch_job_lem submitter "b" "j1" one_job the_job (some "texttext") (unfold lookup in refl) refl
      (unfold Managers.get_logs concat join_path in refl) "COMPLETED" refl

ends : (end_of "TIMEOUT" ≡ some "failed") × (end_of "PENDING" ≡ none)
ends = (refl, refl)

only_job : (j : String) → Remains "slurmcern" statuses_to_skip "b" j one_job.job_db → j ≡ "j1"
unfolding lookup
only_job j (job, found, wanted, named) = elim (Bool-cases ("j1" == j)) [
  | inl same ↦ sym ((eq_iff "j1" j).0 same)
  | inr other ↦ cc (rw other at found)
]

watch_pass-Over_example : Over "j1" (watch_pass submitter one_job).1
watch_pass-Over_example =
    watch_pass-Over submitter (λ b. "COMPLETED") one_job "j1" "finished" the_job
      (unfold lookup in (refl, tt)) (record { answers = λ b. refl; transfers = refl })
      (unfold lookup in refl) (unfold is_remaining in refl) only_job refl
