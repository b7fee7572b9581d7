-- ===== src/Rest/Shutdown/Closing.antt =====
-- Proofs on shutdown of reana_job_controller/rest.py: what a response 200 says of the jobs.
use reana_job_controller.Prelude.{String, [], ◌∷◌, ◌≡◌, true, Option}
use reana_job_controller.Python.{ok}
use reana_job_controller.Dict.{Dict}
use reana_job_controller.JobDb.{Job}
use reana_job_controller.JobDb.Laws.{}
use reana_job_controller.Managers.{Outside}
use reana_job_controller.Managers.Backends.{kubernetes, htcondorcern}
use reana_job_controller.Rest.Shutdown.{is_final, logs_read}

-- What a job is before and after a shutdown that leaves none over. Of an HTCondor job it says that
-- `stop` was called for it, and not that the schedd removed it.
pub data Closed (out : Outside) (job : Job) : Job → Type 0 where
  was_final : is_final job.status ≡ true → Closed out job job
  pod_deleted :
      {logs : Option String}
      → job.compute_backend ≡ "kubernetes"
      → out.api.delete_job job.backend_job_id ≡ ok tt
      → logs_read out kubernetes job ≡ ok logs
      → Closed out job (record job { log = logs; status = "stopped"; deleted = true })
  removal_called :
      {logs : Option String}
      → job.compute_backend ≡ "htcondorcern"
      → logs_read out htcondorcern job ≡ ok logs
      → Closed out job (record job { log = logs; status = "stopped"; deleted = true })

abbrev pub AllClosed : Outside → Dict Job → Dict Job → Type 0
AllClosed out [] [] = Unit
AllClosed out [] (new ∷ news) = ⊥
AllClosed out (old ∷ olds) [] = ⊥
AllClosed out (old ∷ olds) (new ∷ news) =
    (old.0 ≡ new.0) × Closed out old.1 new.1 × AllClosed out olds news
