-- ===== src/JobDb/Laws.antt =====
-- The laws of the accessors of JOB_DB: which job each writer changes, and what it leaves alone.
use reana_job_controller.Prelude.{String, ◌≡◌, true, Option, none, some, [], ◌∷◌, ◌++◌}
use reana_job_controller.Dict.{lookup, insert}
use reana_job_controller.Python.{ok, raised, key_error}
use reana_job_controller.JobDb.{
  Job, State, session_logs, session_status, modify_job, write_job, store_job_logs,
  update_job_status, mark_deleted,
}

module _ (id : String) (f : Job → Job) (s : State) {job : Job}
    (known : lookup id s.job_db ≡ some job) where
  pub modify_job-known :
      modify_job id f s ≡ (ok tt, record s { job_db = insert id (f job) s.job_db })
  unfolding modify_job
  modify_job-known = rw (known, write_job)

pub modify_job-unknown :
    (id : String) (f : Job → Job) (s : State)
    → lookup id s.job_db ≡ none
    → modify_job id f s ≡ (raised (key_error id), s)
unfolding modify_job
modify_job-unknown id f s h = rw (h, write_job)

module _ (id : String) (s : State) {job : Job} (known : lookup id s.job_db ≡ some job) where
  pub update_job_status-known :
      (status : String)
      → update_job_status id status s ≡ (
        ok tt,
        record {
          job_db = insert id (record job { status = status }) s.job_db;
          calls = s.calls ++ session_status id status ∷ [];
        },
      )
  unfolding update_job_status
  update_job_status-known status =
      rw (modify_job-known id (λ j. record j { status = status }) s known)

  pub store_job_logs-known :
      (logs : Option String)
      → store_job_logs id logs s ≡ (
        ok tt,
        record {
          job_db = insert id (record job { log = logs }) s.job_db;
          calls = s.calls ++ session_logs id logs ∷ [];
        },
      )
  unfolding store_job_logs
  store_job_logs-known logs = rw (modify_job-known id (λ j. record j { log = logs }) s known)

  pub mark_deleted-known :
      mark_deleted id s
      ≡ (ok tt, record s { job_db = insert id (record job { deleted = true }) s.job_db })
  unfolding mark_deleted
  mark_deleted-known = modify_job-known id (λ j. record j { deleted = true }) s known
