-- ===== src/Rest/Shutdown.antt =====
-- What the shutdown does to each job, stated job by job: the specification of the handler.
pub mod Closing
pub mod Round
pub mod Whole
use reana_job_controller.Prelude.{
  Bool, List, Option, String, [], false, if◌then◌else◌, one_of, true, ◌∷◌, ◌≡◌,
}
use reana_job_controller.Python.{Result, ok, raised}
use reana_job_controller.Dict.{Dict}
use reana_job_controller.JobDb.{Job}
use reana_job_controller.Managers.{Outside}
use reana_job_controller.Managers
use reana_job_controller.Managers.Backends.{
  Backend, backend_named, compute4punch, htcondorcern, kubernetes, slurmcern,
}

abbrev pub is_final : String → Bool
is_final status = one_of status ("finished" ∷ "failed" ∷ "stopped" ∷ [])

abbrev pub returned {ℓ} : {A : Type ℓ} → Result A → Bool
returned (ok a) = true
returned (raised e) = false

-- Whether `stop` of a backend returns, which is all that the handler asks of it: for Kubernetes it
-- returns if the API deletes the job, for HTCondor always, since it only logs an exception of the
-- removal, and for Slurm and Compute4PUNCH never. For HTCondor it does not say that the job is gone.
abbrev pub stop_returns : Outside → Backend → String → Bool
stop_returns out kubernetes b = returned (out.api.delete_job b)
stop_returns out htcondorcern b = true
stop_returns out slurmcern b = false
stop_returns out compute4punch b = false

-- Whether the shutdown counts a job that is not final as stopped, and what the job is afterwards: as
-- it was if its logs cannot be had, else with the logs, and marked as stopped and deleted if `stop`
-- returned.
abbrev pub stops_with : Outside → Backend → Job → Result (Option String) → Bool
stops_with out backend job (raised e) = false
stops_with out backend job (ok logs) = stop_returns out backend job.backend_job_id

abbrev pub written_with : Outside → Backend → Job → Result (Option String) → Job
written_with out backend job (raised e) = job
written_with out backend job (ok logs) =
    if stop_returns out backend job.backend_job_id
    then record job { log = logs; status = "stopped"; deleted = true }
    else record job { log = logs }

abbrev pub logs_read : Outside → Backend → Job → Result (Option String)
logs_read out backend job = Managers.get_logs out backend job.backend_job_id job.workflow_workspace

abbrev pub stops_on : Outside → Job → Result Backend → Bool
stops_on out job (raised e) = false
stops_on out job (ok backend) = stops_with out backend job (logs_read out backend job)

abbrev pub written_on : Outside → Job → Result Backend → Job
written_on out job (raised e) = job
written_on out job (ok backend) = written_with out backend job (logs_read out backend job)

abbrev pub is_settled : Outside → Job → Bool
is_settled out job =
    if is_final job.status then true else stops_on out job (backend_named job.compute_backend)

abbrev pub after_shutdown : Outside → Job → Job
after_shutdown out job =
    if is_final job.status then job else written_on out job (backend_named job.compute_backend)

abbrev pub settle_all : Outside → Dict Job → Dict Job
settle_all out [] = []
settle_all out (item ∷ db) = (item.0, after_shutdown out item.1) ∷ settle_all out db

-- the ids of the jobs that could not be stopped, in the order of JOB_DB
abbrev pub unsettled : Outside → Dict Job → List String
unsettled out [] = []
unsettled out (item ∷ db) =
    let rest = unsettled out db in if is_settled out item.1 then rest else item.0 ∷ rest

abbrev pub HasBackend : Job → Type 0
HasBackend job = (backend : Backend) × (backend_named job.compute_backend ≡ ok backend)

abbrev pub AllHaveBackend : Dict Job → Type 0
AllHaveBackend [] = Unit
AllHaveBackend (item ∷ db) = HasBackend item.1 × AllHaveBackend db
