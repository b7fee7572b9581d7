-- ===== src/JobManager.antt =====
-- JobManager of reana_job_controller/job_manager.py: the environment of a job, and the hook around
-- `execute` of every backend. The submission, the insertion into reana_db and the job cache are
-- parameters; before_execution does nothing.
pub mod Laws
pub mod Tests
use reana_job_controller.Prelude.{Bool, List, Option, String, [], if◌then◌else◌, some, ◌++◌, ◌∷◌}
use reana_job_controller.Text.{str}
use reana_job_controller.Dict.{Dict, insert}
use reana_job_controller.Python.{Action, Result, ok, pure, raised, ◌>>=◌, ◌>>◌}

-- The values are texts, or None for a workspace that the constructor was not given.
unfoldable pub extend_env_vars :
    String → Option String → Option String → Dict (Option String) → Dict (Option String)
extend_env_vars dask_scheduler_uri workflow_workspace workflow_uuid env_vars =
    insert "DASK_SCHEDULER_URI" (some dask_scheduler_uri) (
      insert "REANA_WORKFLOW_UUID" (some (str workflow_uuid))
        (insert "REANA_WORKSPACE" workflow_workspace env_vars))

-- What stands outside: backend job ids in the order of their submission, the rows of the job table
-- as pairs of a backend job id and a job id, and the job ids in the cache.
pub record Ledger : Type 0 where
  pub submitted : List String
  pub rows : List (String × String)
  pub cached : List String

pub record Backing : Type 0 where
  -- the wrapped function: submits, and returns the backend job id
  pub submit : Ledger → Result String
  -- Session.add and Session.commit, which gives the id of the row
  pub commit : Ledger → Result String
  -- cache_job, up to its commit
  pub cache : String → Ledger → Result (Unit {0})
  pub cache_enabled : Bool

add_submitted : Result String → Action Ledger String
add_submitted (raised e) l = (raised e, l)
add_submitted (ok b) l = (ok b, record l { submitted = l.submitted ++ b ∷ [] })

add_row : String → Result String → Action Ledger String
add_row b (raised e) l = (raised e, l)
add_row b (ok id) l = (ok id, record l { rows = l.rows ++ (b, id) ∷ [] })

add_cached : String → Result (Unit {0}) → Action Ledger (Unit {0})
add_cached id (raised e) l = (raised e, l)
add_cached id (ok done) l = (ok tt, record l { cached = l.cached ++ id ∷ [] })

module _ (backing : Backing) where
  pub create_job_in_db : String → Action Ledger String
  unfolding add_row
  create_job_in_db backend_job_id l = add_row backend_job_id (backing.commit l) l

  pub cache_job : String → Action Ledger (Unit {0})
  unfolding add_cached
  cache_job id l = add_cached id (backing.cache id l) l

  -- `execute` under the hook: the backend job id, and the job id that the row gives
  unfoldable pub execute : Action Ledger (String × String)
  unfolding add_submitted create_job_in_db cache_job
  execute = do
    backend_job_id ← λ l. add_submitted (backing.submit l) l
    id ← create_job_in_db backend_job_id
    (if backing.cache_enabled then cache_job id else pure tt)
    pure (backend_job_id, id)
