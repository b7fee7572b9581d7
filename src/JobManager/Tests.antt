-- ===== src/JobManager/Tests.antt =====
-- The hook around `execute`, and the variables of a job, on small inputs.
use reana_job_controller.Prelude.{Option, String, [], refl, some, true, ◌∷◌, ◌≡◌, ◌≢◌}
use reana_job_controller.Text.{}
use reana_job_controller.Dict.{Dict, lookup}
use reana_job_controller.Python.{ok, operational_error, raised}
use reana_job_controller.JobManager.{Backing, Ledger, create_job_in_db, execute, extend_env_vars}
use reana_job_controller.JobManager.Laws.{extend_env_vars_lem}

abbrev nothing : Ledger
nothing = record { submitted = []; rows = []; cached = [] }

abbrev no_database : Backing
no_database = record {
  submit = λ l. ok "b1";
  commit = λ l. raised (operational_error "gone");
  cache = λ id l. ok tt;
  cache_enabled = true;
}

left_behind :
    execute no_database nothing
    ≡ (raised (operational_error "gone"), record { submitted = "b1" ∷ []; rows = []; cached = [] })
unfolding execute create_job_in_db
left_behind = refl

abbrev asked : Dict (Option String)
asked = ("REANA_WORKSPACE", some "/etc") ∷ ("A", some "1") ∷ []

extend_env_vars_lem_example :
    let extended = extend_env_vars "tcp://dask" (some "/ws") (some "w") asked in
    (lookup "REANA_WORKSPACE" extended ≡ some (some "/ws"))
    × (lookup "REANA_WORKFLOW_UUID" extended ≡ some (some "w"))
    × (lookup "DASK_SCHEDULER_URI" extended ≡ some (some "tcp://dask"))
    × ((k : String)
        → k ≢ "REANA_WORKSPACE"
        → k ≢ "REANA_WORKFLOW_UUID"
        → k ≢ "DASK_SCHEDULER_URI"
        → lookup k extended ≡ lookup k asked)
extend_env_vars_lem_example = extend_env_vars_lem "tcp://dask" (some "/ws") (some "w") asked
