-- ===== src/Rest/Shutdown/Whole.antt =====
-- Proofs on shutdown of reana_job_controller/rest.py: the jobs afterwards, and the response.
use mathlib.Core.List.{append-nil, append_assoc}
use reana_job_controller.Prelude.{
  List, String, [], if◌then◌else◌, some, ◌++◌, ◌∷◌, ◌≡◌, Bool-cases, inl, inr, ap, false, refl, sym,
  ◌∙◌, ◌⊎◌, Option, some_inj, ◌==◌,
}
use reana_job_controller.Text.{concat, join}
use reana_job_controller.Python.{ok, Result, raised}
use reana_job_controller.Dict.{Dict, IsDict, lookup, insert}
use reana_job_controller.Dict.Laws.{insert-IsDict, insert-middle, lookup-middle}
use reana_job_controller.JobDb.{Job, State, retrieve_all_jobs, empty_list, view_job}
use reana_job_controller.JobDb.Laws.{}
use reana_job_controller.Managers.{Outside}
use reana_job_controller.Managers.Backends.{backend_named, compute4punch, slurmcern}
use reana_job_controller.Rest.{
  stop_jobs, Body, message, respond, shutdown, shutdown_response, settle_job,
}
use reana_job_controller.Rest.Shutdown.{
  AllHaveBackend, is_settled, settle_all, unsettled, is_final, after_shutdown, logs_read,
  stops_with,
}
use reana_job_controller.Rest.Shutdown.Round.{settle_job_lem}

settle-IsDict-front :
    (out : Outside) (front : Dict Job) (id : String) (job new : Job) (back : Dict Job)
    → IsDict (front ++ (id, job) ∷ back)
    → IsDict ((front ++ (id, new) ∷ []) ++ back)
settle-IsDict-front out front id job new back v =
    rw (append_assoc, ← insert-middle front id job new back v) (insert-IsDict id new _ v)

unsettled_step :
    (out : Outside) (id : String) (job : Job) (db : Dict Job) (failed : List String)
    → (if is_settled out job then failed else failed ++ id ∷ []) ++ unsettled out db
      ≡ failed ++ unsettled out ((id, job) ∷ db)
unsettled_step out id job db failed = elim (Bool-cases (is_settled out job)) [
  | inl settled ↦ rw settled
  | inr left ↦ rw (left, append_assoc)
]

stop_jobs_lem :
    (out : Outside) (front back : Dict Job) (failed : List String) (s : State)
    → s.job_db ≡ front ++ back
    → IsDict (front ++ back)
    → AllHaveBackend back
    → ((stop_jobs out (retrieve_all_jobs back) failed s).0 ≡ ok (failed ++ unsettled out back))
      × ((stop_jobs out (retrieve_all_jobs back) failed s).1.job_db ≡ front ++ settle_all out back)
unfolding stop_jobs retrieve_all_jobs
stop_jobs_lem out front [] failed s e v b = (rw append-nil, e)
stop_jobs_lem out front ((id, job) ∷ back) failed s e v b =
    let found : lookup id s.job_db ≡ some job = rw e (lookup-middle front id job back v) in
    let round = settle_job_lem out id job failed s found b.0 in
    let new = after_shutdown out job in
    let more = if is_settled out job then failed else failed ++ id ∷ [] in
    let t = (settle_job out id (view_job empty_list job) failed s).1 in
    let next : t.job_db ≡ (front ++ (id, new) ∷ []) ++ back =
      round.written
      ∙ ap (insert id new) e
      ∙ insert-middle front id job new back v
      ∙ sym (append_assoc front ((id, new) ∷ []) back) in
    let ih =
      stop_jobs_lem out (front ++ (id, new) ∷ []) back more t next
        (settle-IsDict-front out front id job new back v) b.1 in
    rw round.failures (
      ih.0 ∙ ap (λ l. ok l) (unsettled_step out id job back failed),
      ih.1 ∙ append_assoc front ((id, new) ∷ []) (settle_all out back),
    )

-- If JOB_DB is a dictionary and every job in it names one of the four compute backends, the shutdown
-- returns a response, and does the following to each job, whatever happens to the others. A job with
-- a final status is left alone. Any other gets its logs, if they can be had, and is then marked as
-- stopped and deleted if `stop` of its backend returns: for Kubernetes if the API deletes the job,
-- for Slurm and Compute4PUNCH never, and for HTCondor always, also if the removal raised in the
-- schedd. A job that is neither final nor so marked is left over. The response is 200 if no job is
-- left over, else 500 with the ids of those that are, in the order of JOB_DB.
pub shutdown_lem :
    (out : Outside) (s : State)
    → IsDict s.job_db
    → AllHaveBackend s.job_db
    → ((shutdown out s).0 ≡ ok (shutdown_response (unsettled out s.job_db)))
      × ((shutdown out s).1.job_db ≡ settle_all out s.job_db)
unfolding shutdown
shutdown_lem out s v b =
    let (e, written) = stop_jobs_lem out [] s.job_db [] s refl v b in rw e (refl, written)

-- The backends whose `stop` cannot be called as the handlers call it.
abbrev pub CannotStop : Job → Type 0
CannotStop job = (job.compute_backend ≡ "slurmcern") ⊎ (job.compute_backend ≡ "compute4punch")

stops_with-slurmcern :
    (out : Outside) (job : Job) (read : Result (Option String))
    → stops_with out slurmcern job read ≡ false
stops_with-slurmcern out job (raised e) = refl
stops_with-slurmcern out job (ok logs) = refl

stops_with-compute4punch :
    (out : Outside) (job : Job) (read : Result (Option String))
    → stops_with out compute4punch job read ≡ false
stops_with-compute4punch out job (raised e) = refl
stops_with-compute4punch out job (ok logs) = refl

not-is_settled :
    (out : Outside) (job : Job)
    → is_final job.status ≡ false
    → CannotStop job
    → is_settled out job ≡ false
unfolding backend_named
not-is_settled out job h (inl e) =
    let known : backend_named job.compute_backend ≡ ok slurmcern = ap backend_named e in
    rw (h, known) (stops_with-slurmcern out job (logs_read out slurmcern job))
not-is_settled out job h (inr e) =
    let known : backend_named job.compute_backend ≡ ok compute4punch = ap backend_named e in
    rw (h, known) (stops_with-compute4punch out job (logs_read out compute4punch job))

unsettled-cons :
    (out : Outside) (id : String) (job : Job) (db : Dict Job)
    → lookup id db ≡ some job
    → is_settled out job ≡ false
    → (k : String) × (ks : List String) × (unsettled out db ≡ k ∷ ks)
unfolding lookup
unsettled-cons out id job [] found h = cc
unsettled-cons out id job (item ∷ db) found h = elim (Bool-cases (is_settled out item.1)) [
  | inr left ↦ (item.0, unsettled out db, rw left)
  | inl settled ↦ elim (Bool-cases (item.0 == id)) [
    | inl same ↦ cc (sym h ∙ rw (some_inj (rw same at found)) at settled)
    | inr other ↦
        let (k, ks, e) = unsettled-cons out id job db (rw other at found) h in (k, ks, rw settled e)
  ]
]

-- While JOB_DB holds a Slurm or Compute4PUNCH job whose status is not final, the shutdown answers
-- 500, whatever the backends do.
pub shutdown-CannotStop :
    (out : Outside) (s : State) (id : String) (job : Job)
    → IsDict s.job_db
    → AllHaveBackend s.job_db
    → lookup id s.job_db ≡ some job
    → is_final job.status ≡ false
    → CannotStop job
    → (body : Body) × ((shutdown out s).0 ≡ ok (respond body 500))
shutdown-CannotStop out s id job v b found h c =
    let (k, ks, e) = unsettled-cons out id job s.job_db found (not-is_settled out job h c) in
    (
      message (concat ("Could not stop jobs " ∷ join ", " (k ∷ ks) ∷ [])),
      (shutdown_lem out s v b).0 ∙ ap (λ ids. ok (shutdown_response ids)) e,
    )
