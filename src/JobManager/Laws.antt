-- ===== src/JobManager/Laws.antt =====
-- Proofs on the hook around execute and on the environment of a job
-- (reana_job_controller/job_manager.py).
use reana_job_controller.Prelude.{
  Option, String, [], false, some, ◌++◌, ◌∷◌, ◌≡◌, sym, true, ◌∙◌, ◌≢◌,
}
use reana_job_controller.Text.{str}
use reana_job_controller.Dict.{Dict, lookup, insert}
use reana_job_controller.Dict.Laws.{lookup-insert, lookup-insert_ne}
use reana_job_controller.Python.{Exception, Result, ok, raised, ◌>>=◌, ◌>>◌}
use reana_job_controller.JobManager.{Backing, Ledger, extend_env_vars}

-- The variables that a job gets from the controller win over those of the request, whatever the
-- request has under their names, and every other variable is as in the request.
pub extend_env_vars_lem :
    (dask : String) (workspace uuid : Option String) (env_vars : Dict (Option String))
    → let extended = extend_env_vars dask workspace uuid env_vars in
      (lookup "REANA_WORKSPACE" extended ≡ some workspace)
      × (lookup "REANA_WORKFLOW_UUID" extended ≡ some (some (str uuid)))
      × (lookup "DASK_SCHEDULER_URI" extended ≡ some (some dask))
      × ((k : String)
          → k ≢ "REANA_WORKSPACE"
          → k ≢ "REANA_WORKFLOW_UUID"
          → k ≢ "DASK_SCHEDULER_URI"
          → lookup k extended ≡ lookup k env_vars)
unfolding extend_env_vars
extend_env_vars_lem dask workspace uuid env_vars =
    let first = insert "REANA_WORKSPACE" workspace env_vars in
    let second = insert "REANA_WORKFLOW_UUID" (some (str uuid)) first in
    (
      simp lookup-insert,
      simp lookup-insert,
      simp lookup-insert,
      λ k a b c.
          lookup-insert_ne "DASK_SCHEDULER_URI" k (some dask) second (λ p. c (sym p))
          ∙ lookup-insert_ne "REANA_WORKFLOW_UUID" k (some (str uuid)) first (λ p. b (sym p))
          ∙ lookup-insert_ne "REANA_WORKSPACE" k workspace env_vars (λ p. a (sym p)),
    )

unfoldable pub with_job : Ledger → String → Ledger
with_job l b = record l { submitted = l.submitted ++ b ∷ [] }

unfoldable pub with_row : Ledger → String → String → Ledger
with_row l b id = record {
  submitted = l.submitted ++ b ∷ [];
  rows = l.rows ++ (b, id) ∷ [];
  cached = l.cached;
}

unfoldable pub with_cached : Ledger → String → String → Ledger
with_cached l b id = record {
  submitted = l.submitted ++ b ∷ [];
  rows = l.rows ++ (b, id) ∷ [];
  cached = l.cached ++ id ∷ [];
}

-- The ends of `execute` from a ledger, each with what the submission, the insertion and the cache
-- answered to lead there.
pub data Ending (backing : Backing) (l : Ledger) : Result (String × String) × Ledger → Type 0 where
  not_submitted : {e : Exception} → backing.submit l ≡ raised e → Ending backing l (raised e, l)
  orphaned :
      {b : String} {e : Exception}
      → backing.submit l ≡ ok b
      → backing.commit (with_job l b) ≡ raised e
      → Ending backing l (raised e, with_job l b)
  uncached :
      {b id : String} {e : Exception}
      → backing.submit l ≡ ok b
      → backing.commit (with_job l b) ≡ ok id
      → backing.cache_enabled ≡ true
      → backing.cache id (with_row l b id) ≡ raised e
      → Ending backing l (raised e, with_row l b id)
  done_uncached :
      {b id : String}
      → backing.submit l ≡ ok b
      → backing.commit (with_job l b) ≡ ok id
      → backing.cache_enabled ≡ false
      → Ending backing l (ok (b, id), with_row l b id)
  done_cached :
      {b id : String}
      → backing.submit l ≡ ok b
      → backing.commit (with_job l b) ≡ ok id
      → backing.cache_enabled ≡ true
      → backing.cache id (with_row l b id) ≡ ok tt
      → Ending backing l (ok (b, id), with_cached l b id)
