-- ===== src/Rest/Create/Reads.antt =====
-- Proofs on the reading handlers of reana_job_controller/rest.py after create_job and
-- store_job_logs.
use reana_job_controller.Prelude.{Option, String, ap, inl, inr, refl, some, sym, ◌∙◌, ◌≡◌}
use reana_job_controller.Text.{}
use reana_job_controller.Dict.{Dict, lookup}
use reana_job_controller.Dict.Laws.{has_key_lem, lookup-insert_self}
use reana_job_controller.Python.{ok, ok_inj}
use reana_job_controller.JobDb.{
  Job, JobView, State, job_exists, retrieve_job, retrieve_job_logs, store_job_logs, text, view_job,
}
use reana_job_controller.JobDb
use reana_job_controller.JobDb.Laws.{store_job_logs-known}
use reana_job_controller.Rest
use reana_job_controller.Rest.{Response, job_id, one, log_text, respond, log_response}
use reana_job_controller.Rest.Create.{create_job, Environment, Controller}
use reana_job_controller.Rest.Create.Laws.{create_job_cases}

abbrev pub ShowsRunning : String → Dict Job → Type 0
ShowsRunning id db =
    (view : JobView) × (Rest.get_job id db ≡ ok (respond (one view) 200))
    × (view.status ≡ "running")

get_job-known :
    (id : String) (db : Dict Job) (job : Job)
    → lookup id db ≡ some job
    → Rest.get_job id db ≡ ok (respond (one (view_job (text "") job)) 200)
unfolding Rest.get_job job_exists retrieve_job JobDb.get_job
get_job-known id db job found = rw (has_key_lem id db, found) refl

job_id_inj : (a b : String) → ok (respond (job_id a) 201) ≡ ok (respond (job_id b) 201) → a ≡ b
job_id_inj a b e = let same : job_id a ≡ job_id b = ap (λ (r : Response). r.body) (ok_inj e) in cc

-- A job that create_job answers with 201 can be read at once under the id of the answer, and is
-- running.
pub get_job-create_job :
    {Json : Type 0} (env : Environment Json) (json : Option Json) (c : Controller) (id : String)
    → (create_job env json c).0 ≡ ok (respond (job_id id) 201)
    → ShowsRunning id (create_job env json c).1.state.job_db
unfolding view_job
get_job-create_job env json c id e = elim (create_job_cases env json c) [
  | inl refused ↦ absurd (refused.not_created (job_id id) e)
  | inr created ↦ elim created.answer [
    | inr (x, started, answer) ↦ cc (sym answer ∙ e)
    | inl answer ↦
        let same : created.id ≡ id = job_id_inj created.id id (sym answer ∙ e) in
        let found : lookup id (create_job env json c).1.state.job_db ≡ some created.job =
          ap (lookup id) created.written
          ∙ rw (← same) (lookup-insert_self created.id created.job c.state.job_db) in
        (view_job (text "") created.job, get_job-known id _ created.job found, created.running.0)
  ]
]

-- The logs that are stored for a job in JOB_DB are the logs that its logs endpoint answers.
pub get_logs-store_job_logs :
    (id logs : String) (s : State) (job : Job)
    → lookup id s.job_db ≡ some job
    → Rest.get_logs id (store_job_logs id (some logs) s).1.job_db ≡ ok (respond (log_text logs) 200)
unfolding Rest.get_logs job_exists retrieve_job_logs JobDb.get_job log_response
get_logs-store_job_logs id logs s job found =
    rw (store_job_logs-known id s found (some logs), has_key_lem, lookup-insert_self) refl
