-- ===== src/Rest/Shutdown/Round.antt =====
-- Proofs on one round of the loop of the shutdown (rest.py), for the specification in Rest/Shutdown.
use reana_job_controller.Prelude.{
  Bool-cases, List, Option, String, [], ap, arith, if◌then◌else◌, inl, inr, refl, some, sym, true,
  ◌++◌, ◌∙◌, ◌∷◌, ◌≡◌,
}
use reana_job_controller.Python.{Result, continue, handle, ok, pure, raised, ◌>>◌}
use reana_job_controller.Dict.{insert, lookup}
use reana_job_controller.Dict.Laws.{insert-insert, insert-same, lookup-insert_self}
use reana_job_controller.JobDb.{
  Job, State, call, empty_list, mark_deleted, session_logs, session_status, store_job_logs,
  update_job_status, view_job,
}
use reana_job_controller.JobDb
use reana_job_controller.JobDb.Laws.{
  mark_deleted-known, store_job_logs-known, update_job_status-known,
}
use reana_job_controller.Managers.{Outside}
use reana_job_controller.Managers
use reana_job_controller.Managers.Backends.{
  Backend, compute4punch, htcondorcern, kubernetes, slurmcern,
}
use reana_job_controller.Kubernetes
use reana_job_controller.Rest.{settle_job, try_stop}
use reana_job_controller.Rest.Shutdown.{
  HasBackend, after_shutdown, stop_returns, is_final, is_settled, logs_read, returned, stops_with,
  written_with,
}

-- When `stop` returns, and that it writes no job.
pub stop_cases :
    (out : Outside) (backend : Backend) (b : String) (s : State)
    → ((Managers.stop out backend b s).1.job_db ≡ s.job_db)
      × (returned (Managers.stop out backend b s).0 ≡ stop_returns out backend b)
unfolding Managers.stop Kubernetes.stop call
stop_cases out kubernetes b s = (refl, ground arith)
stop_cases out htcondorcern b s = (ground arith, ground arith)
stop_cases out slurmcern b s = (refl, refl)
stop_cases out compute4punch b s = (refl, refl)

module _ (id : String) where
  -- the two writes after a successful `stop`
  mark_stopped_lem :
      (s : State) (job : Job)
      → lookup id s.job_db ≡ some job
      → let (r, t) = (do update_job_status id "stopped"; mark_deleted id) s in
        (r ≡ ok tt)
        × (t.job_db ≡ insert id (record job { status = "stopped"; deleted = true }) s.job_db)
  mark_stopped_lem s job found =
      let j1 : Job = record job { status = "stopped" } in
      let s1 : State = record {
        job_db = insert id j1 s.job_db;
        calls = s.calls ++ session_status id "stopped" ∷ [];
      } in
      rw
        (
          update_job_status-known id s found "stopped",
          mark_deleted-known id s1 (lookup-insert_self id j1 s.job_db),
        )
        (refl, insert-insert id j1 (record j1 { deleted = true }) s.job_db)

  module _ (out : Outside) (backend : Backend) (job : Job) (s : State)
      (found : lookup id s.job_db ≡ some job) where
    Stopping : Result (Option String) → Result (Unit {0}) × State → Type 0
    Stopping read outcome =
        (returned outcome.0 ≡ stops_with out backend job read)
        × (outcome.1.job_db ≡ insert id (written_with out backend job read) s.job_db)

    after_stop :
        (logs : Option String) (r : Result (Unit {0})) (t : State)
        → t.job_db ≡ insert id (record job { log = logs }) s.job_db
        → returned r ≡ stop_returns out backend job.backend_job_id
        → Stopping
            (ok logs)
            (continue r (λ _. do update_job_status id "stopped"; mark_deleted id) t)
    unfolding Stopping
    after_stop logs (raised e) t same h = rw (← h) (refl, same)
    after_stop logs (ok a) t same h =
        let j1 : Job = record job { log = logs } in
        let (done, written) = mark_stopped_lem t j1 (rw same (lookup-insert_self id j1 s.job_db)) in
        rw (← h, done)
          (
            refl,
            written
                ∙ ap (insert id (record j1 { status = "stopped"; deleted = true })) same
                ∙ insert-insert id j1 (record j1 { status = "stopped"; deleted = true }) s.job_db,
          )

    after_read :
        (read : Result (Option String))
        → Stopping read (
            continue read
              (λ logs. do
                store_job_logs id logs
                Managers.stop out backend job.backend_job_id
                update_job_status id "stopped"
                mark_deleted id)
              s)
    unfolding Stopping
    after_read (raised e) = (refl, sym (insert-same id job s.job_db found))
    after_read (ok logs) =
        let s1 : State = record {
          job_db = insert id (record job { log = logs }) s.job_db;
          calls = s.calls ++ session_logs id logs ∷ [];
        } in
        let (r, t) = Managers.stop out backend job.backend_job_id s1 in
        let (same, can) = stop_cases out backend job.backend_job_id s1 in
        rw (store_job_logs-known id s found logs) (after_stop logs r t same can)

    try_stop_lem : Stopping (logs_read out backend job) (try_stop out backend id job s)
    unfolding try_stop
    try_stop_lem = after_read (logs_read out backend job)

-- what one round of the loop returns and writes
pub record Settled (out : Outside) (id : String) (job : Job) (failed : List String) (s : State)
    (outcome : Result (List String) × State) : Type 0 where
  pub failures : outcome.0 ≡ ok (if is_settled out job then failed else failed ++ id ∷ [])
  pub written : outcome.1.job_db ≡ insert id (after_shutdown out job) s.job_db

module _ (out : Outside) (id : String) (job : Job) (failed : List String) (s : State)
    (found : lookup id s.job_db ≡ some job) where
  after_try :
      (backend : Backend) (r : Result (Unit {0})) (t : State) (read : Result (Option String))
      → Stopping id out backend job s found read (r, t)
      → let (r', t') =
          handle
            (continue r (λ _. pure failed) t).0
            (λ e. pure (failed ++ id ∷ []))
            (continue r (λ _. pure failed) t).1 in
        (r' ≡ ok (if stops_with out backend job read then failed else failed ++ id ∷ [])) × (t' ≡ t)
  unfolding Stopping
  after_try backend (ok a) t read h = rw (← h.0) (refl, refl)
  after_try backend (raised e) t read h = rw (← h.0) (refl, refl)

  pub settle_job_lem :
      HasBackend job
      → Settled out id job failed s (settle_job out id (view_job empty_list job) failed s)
  unfolding settle_job view_job JobDb.get_job Stopping
  settle_job_lem (backend, known) = elim (Bool-cases (is_final job.status)) [
    | inl final ↦ rw final (record {
      failures = rw final;
      written = rw final (sym (insert-same id job s.job_db found));
    })
    | inr open_status ↦
        let (r, t) = try_stop out backend id job s in
        let stopping = try_stop_lem id out backend job s found in
        let (e, same) = after_try backend r t (logs_read out backend job) stopping in
        rw (open_status, found, known)
          (record {
            failures = rw (open_status, known) e;
            written = rw (open_status, known) (ap (λ (u : State). u.job_db) same ∙ stopping.1);
          })
  ]
