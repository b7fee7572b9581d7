-- ===== src/Rest/Delete.antt =====
-- Proofs on delete_job of reana_job_controller/rest.py (DELETE /jobs/<job_id>/).
use reana_job_controller.Prelude.{
  Option, String, [], none, refl, some, ◌∷◌, ◌≡◌, Option-cases, inl, inr,
}
use reana_job_controller.Text.{concat}
use reana_job_controller.Dict.{lookup}
use reana_job_controller.Dict.Laws.{has_key_lem}
use reana_job_controller.Python.{
  Exception, Result, continue, handle, ok, pure, raised, submission_error, lift, try_except, ◌>>=◌,
  ◌>>◌,
}
use reana_job_controller.JobDb.{Job, State, job_exists, retrieve_backend_job_id}
use reana_job_controller.JobDb
use reana_job_controller.Managers.{Outside}
use reana_job_controller.Managers
use reana_job_controller.Managers.Backends.{Backend, backend_named}
use reana_job_controller.Rest.Shutdown.Round.{stop_cases}
use reana_job_controller.Rest.{Response, bad_gateway, empty, message, no_job, respond, delete_job}

-- the answer to what `stop` returned or raised
abbrev pub answer_to : (Exception → String) → Result (Unit {0}) → Result Response
answer_to describe (ok done) = ok (respond empty 204)
answer_to describe (raised (submission_error reason)) = ok (
    respond
      (message (
        concat
          ("Connection to compute backend failed:\n" ∷ describe (submission_error reason) ∷ [])))
      502)
answer_to describe (raised e) = raised e

abbrev pub answer_on : Outside → Job → State → Result Backend → Result Response
answer_on out job s (raised e) = answer_to out.describe (raised e)
answer_on out job s (ok backend) =
    answer_to out.describe (Managers.stop out backend job.backend_job_id s).0

abbrev pub answer_for : Outside → String → String → State → Option Job → Result Response
answer_for out id compute_backend s none = ok (respond (no_job id) 404)
answer_for out id compute_backend s (some job) = answer_on out job s (backend_named compute_backend)

module _ (out : Outside) (s : State) (job : Job) where
  handled_lem :
      (r : Result (Unit {0})) (t : State)
      → t.job_db ≡ s.job_db
      → let outcome =
          handle
            (continue r (λ _. pure (respond empty 204)) t).0
            (bad_gateway out.describe)
            (continue r (λ _. pure (respond empty 204)) t).1 in
        (outcome.0 ≡ answer_to out.describe r) × (outcome.1.job_db ≡ s.job_db)
  handled_lem (ok done) t same = (refl, same)
  handled_lem (raised (submission_error reason)) t same = (refl, same)
  handled_lem (raised e) t same = (refl, same)

  on_backend :
      (id : String) (r : Result Backend)
      → let outcome =
          try_except
            (do
              backend ← lift r
              Managers.stop out backend job.backend_job_id
              pure (respond empty 204))
            (bad_gateway out.describe)
            s in
        (outcome.0 ≡ answer_on out job s r) × (outcome.1.job_db ≡ s.job_db)
  on_backend id (raised e) = handled_lem (raised e) s refl
  on_backend id (ok backend) =
      let (r, t) = Managers.stop out backend job.backend_job_id s in
      handled_lem r t (stop_cases out backend job.backend_job_id s).0

-- DELETE, on every branch: for an id that is not in JOB_DB the answer is 404; for one that is, an
-- unknown backend raises KeyError, and else the answer is 204 if `stop` of the named backend
-- returned, 502 if it raised ComputingBackendSubmissionError, and the exception if it raised
-- another one. JOB_DB is left as it was: neither the status nor the mark `deleted` is written.
pub delete_job_lem :
    (out : Outside) (id compute_backend : String) (s : State)
    → ((delete_job out id compute_backend s).0
        ≡ answer_for out id compute_backend s (lookup id s.job_db))
      × ((delete_job out id compute_backend s).1.job_db ≡ s.job_db)
unfolding delete_job job_exists retrieve_backend_job_id JobDb.get_job
delete_job_lem out id compute_backend s = elim (Option-cases (lookup id s.job_db)) [
  | inl absent ↦ rw (has_key_lem id s.job_db, absent) (refl, refl)
  | inr (job, found) ↦
      rw (has_key_lem id s.job_db, found) (on_backend out s job id (backend_named compute_backend))
]
