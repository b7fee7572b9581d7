-- ===== src/Rest/Create/Laws.antt =====
-- Proofs on create_job of reana_job_controller/rest.py, branch by branch.
use reana_job_controller.Prelude.{
  refl, suc, true, zero, ◌≡◌, List, Option, String, ap, arith, false, inl, none, some, ℕ, ◌≢◌, ◌⊎◌,
  Bool-cases, [], inr, ◌++◌, ◌∷◌, one_of,
}
use reana_job_controller.Prelude.Int.{decrement, increment, negsuc, pos, ℤ}
use reana_job_controller.Python.{
  Exception, Result, ok, ok_inj, raised, continue, pure, memory_limit_exceeded, wrong_memory_format,
  operational_error, system_exit,
}
use reana_job_controller.Dict.{insert}
use reana_job_controller.Dict.Laws.{lookup-insert_self, insert-insert}
use reana_job_controller.JobDb.{Call, Job, State, session_status, call, session_workflow_logs}
use reana_job_controller.JobDb.Laws.{update_job_status-known}
use reana_job_controller.Creation.{Condition, start_creation, stop_creation}
use reana_job_controller.Managers.Backends.{Backend, backend_named}
use reana_job_controller.Rest.{Body, Response, job_id, message, respond, job_message}
use reana_job_controller.Rest.Create.{
  Controller, Environment, JobRequest, create_job, new_job, on_state, store_job, register_job,
  Loaded, after_construct, after_execute, after_load, construct_job, invalid, submission_failed,
  submit, valid, get_or, unsupported,
}

decrement-increment : (z : ℤ) → decrement (increment z) ≡ z
decrement-increment (pos n) = refl
decrement-increment (negsuc zero) = refl
decrement-increment (negsuc (suc n)) = refl

start_creation-permitted :
    (c : Condition)
    → c.creation_permitted ≡ true
    → start_creation c ≡ (true, record c { ongoing_creations = increment c.ongoing_creations })
unfolding start_creation
start_creation-permitted c h = rw h refl

start_creation-refused :
    (c : Condition) → c.creation_permitted ≡ false → start_creation c ≡ (false, c)
unfolding start_creation
start_creation-refused c h = simp h

-- a creation that is granted and ended leaves the condition as it was
stop-start :
    (c : Condition)
    → (stop_creation (record c { ongoing_creations = increment c.ongoing_creations })).1 ≡ c
unfolding stop_creation
stop-start c =
    ap (λ z. record c { ongoing_creations = z }) (decrement-increment c.ongoing_creations)

-- No job is created: JOB_DB and the condition are as before, and the answer is not 201.
pub record Refused (c : Controller) (outcome : Result Response × Controller) : Type 0 where
  pub same_jobs : outcome.1.state.job_db ≡ c.state.job_db
  pub same_condition : outcome.1.condition ≡ c.condition
  pub not_created : (body : Body) → outcome.0 ≢ ok (respond body 201)

module _ {Json : Type 0} (env : Environment Json) where
  -- A job is created: creation was permitted, the backend returned the ids, JOB_DB has one new
  -- entry for them, which is running and not deleted, and the answer is 201 with the job's id,
  -- unless starting the monitor raised.
  pub record Created (c : Controller) (outcome : Result Response × Controller) : Type 0 where
    pub permitted : c.condition.creation_permitted ≡ true
    pub backend : Backend
    pub request : JobRequest
    pub backend_job_id : String
    pub id : String
    pub submitted : env.execute backend request ≡ ok (backend_job_id, id)
    pub job : Job
    pub written : outcome.1.state.job_db ≡ insert id job c.state.job_db
    pub same_condition : outcome.1.condition ≡ c.condition
    pub named : (job.job_id ≡ id) × (job.backend_job_id ≡ backend_job_id)
    pub running : (job.status ≡ "running") × (job.deleted ≡ false) × (job.log ≡ none)
    pub placed : job.workflow_workspace ≡ request.workflow_workspace
    pub answer :
        (outcome.0 ≡ ok (respond (job_id id) 201))
        ⊎ ((e : Exception) × (env.start_monitor backend request.workflow_uuid ≡ raised e)
            × (outcome.0 ≡ raised e))

  abbrev pub Outcome : Controller → Result Response × Controller → Type 0
  Outcome c outcome = Refused c outcome ⊎ Created c outcome

  module _ (request : JobRequest) (compute_backend : String) (backend : Backend) (b id : String)
      (c : Controller) (permitted : c.condition.creation_permitted ≡ true)
      (submitted : env.execute backend request ≡ ok (b, id)) where
    stored_job : Job
    unfolding new_job
    stored_job = record (new_job request compute_backend b id) { status = "running" }

    created :
        (t : State)
        → t.job_db ≡ insert id stored_job c.state.job_db
        → (outcome : Result Response)
        → (outcome ≡ ok (respond (job_id id) 201))
          ⊎ ((e : Exception) × (env.start_monitor backend request.workflow_uuid ≡ raised e)
              × (outcome ≡ raised e))
        → Created c (outcome, record c { state = t })
    unfolding stored_job new_job
    created t same outcome answer = record {
      permitted = permitted;
      backend = backend;
      request = request;
      backend_job_id = b;
      id = id;
      submitted = submitted;
      job = stored_job;
      written = same;
      same_condition = refl;
      named = (refl, refl);
      running = (refl, refl, refl);
      placed = refl;
      answer = answer;
    }

    started :
        (t : State)
        → t.job_db ≡ insert id stored_job c.state.job_db
        → (r : Result (Unit {0})) → env.start_monitor backend request.workflow_uuid ≡ r
        → Created c (
            on_state
              (λ s. continue r (λ _. pure (respond (job_id id) 201)) s)
              (record c { state = t }))
    started t same (ok done) h = created t same (ok (respond (job_id id) 201)) (inl refl)
    started t same (raised e) h = created t same (raised e) (inr (e, h, refl))

    register_job_lem :
        Created c (on_state (register_job env request compute_backend backend (b, id)) c)
    unfolding register_job store_job new_job stored_job
    register_job_lem =
        let job = new_job request compute_backend b id in
        let first : State = record c.state { job_db = insert id job c.state.job_db } in
        let known = update_job_status-known id first (lookup-insert_self id job c.state.job_db) in
        rw (known "running") (
          started
            (record {
              job_db = insert id stored_job first.job_db;
              calls = first.calls ++ session_status id "running" ∷ [];
            })
            (insert-insert id job stored_job c.state.job_db)
            (env.start_monitor backend request.workflow_uuid) refl)

  refused :
      (c : Controller) (body : Body) (code : ℕ) (calls : List Call)
      → code ≢ 201
      → Refused c (
        ok (respond body code),
        record c { state = record { job_db = c.state.job_db; calls = calls } },
      )
  refused c body code calls h = record {
    same_jobs = refl;
    same_condition = refl;
    not_created = λ other e. h (ap (λ (r : Response). r.code) (ok_inj e));
  }

  stopped : (c : Controller) (e : Exception) → Refused c (raised e, c)
  stopped c e = record { same_jobs = refl; same_condition = refl; not_created = λ body h. cc h }

  failed_lem : (e : Exception) (c : Controller) → Refused c (ok (submission_failed env e), c)
  unfolding submission_failed
  failed_lem (operational_error e) c =
      refused c (submission_failed env (operational_error e)).body 500 c.state.calls (omega arith)
  failed_lem e c = refused c (submission_failed env e).body 500 c.state.calls (omega arith)

  after_execute_lem :
      (request : JobRequest) (compute_backend : String) (backend : Backend)
      (r : Result (String × String)) (c : Controller)
      → c.condition.creation_permitted ≡ true
      → env.execute backend request ≡ r
      → Outcome c (after_execute env request compute_backend backend r c)
  unfolding after_execute submission_failed
  after_execute_lem request compute_backend backend (ok (b, id)) c permitted submitted =
      inr (register_job_lem request compute_backend backend b id c permitted submitted)
  after_execute_lem request compute_backend backend (raised system_exit) c permitted submitted =
      inl (stopped c system_exit)
  after_execute_lem request compute_backend backend (raised e) c permitted submitted =
      inl (failed_lem e c)

  submit_lem :
      (request : JobRequest) (compute_backend : String) (backend : Backend) (c : Controller)
      → Outcome c (submit env request compute_backend backend c)
  unfolding submit
  submit_lem request compute_backend backend c = elim (Bool-cases c.condition.creation_permitted) [
    | inr closing ↦ rw (start_creation-refused c.condition closing) (
        inl (
          refused c (message "Cannot create new jobs, shutting down") 400 c.state.calls
            (omega arith)))
    | inl permitted ↦
        rw (start_creation-permitted c.condition permitted, stop-start c.condition)
          (after_execute_lem request compute_backend backend (env.execute backend request) c
            permitted refl)
  ]

  after_construct_lem :
      (request : JobRequest) (compute_backend : String) (backend : Backend) (r : Result (Unit {0}))
      (c : Controller)
      → Outcome c (after_construct env request compute_backend backend r c)
  unfolding after_construct
  after_construct_lem request compute_backend backend (ok done) c =
      submit_lem request compute_backend backend c
  after_construct_lem request compute_backend backend (raised (memory_limit_exceeded m)) c =
      inl (refused c (message m) 403 c.state.calls (omega arith))
  after_construct_lem request compute_backend backend (raised (wrong_memory_format m)) c =
      inl (refused c (message m) 400 c.state.calls (omega arith))
  after_construct_lem request compute_backend backend (raised e) c = inl (stopped c e)

  construct_job_lem :
      (request : JobRequest) (compute_backend : String) (r : Result Backend) (c : Controller)
      → Outcome c (construct_job env request compute_backend r c)
  unfolding construct_job
  construct_job_lem request compute_backend (raised e) c = inl (stopped c e)
  construct_job_lem request compute_backend (ok backend) c =
      after_construct_lem request compute_backend backend (env.construct backend request) c

  after_load_lem : (r : Result Loaded) (c : Controller) → Outcome c (after_load env r c)
  unfolding after_load call
  after_load_lem (raised e) c = inl (stopped c e)
  after_load_lem (ok (invalid errors)) c =
      inl (refused c (message errors) 400 c.state.calls (omega arith))
  after_load_lem (ok (valid request)) c =
      let compute_backend = get_or request.compute_backend env.default_compute_backend in
      elim (Bool-cases (one_of compute_backend env.supported_compute_backends)) [
        | inl supported ↦
            rw supported
              (construct_job_lem request compute_backend (backend_named compute_backend) c)
        | inr other ↦ rw other (
            inl (
              refused c (job_message (unsupported env compute_backend)) 500
                (c.state.calls
                  ++ session_workflow_logs request.workflow_uuid (unsupported env compute_backend)
                    ∷ [])
                (omega arith)))
      ]

  -- create_job, on every branch: either no job is created, JOB_DB and the condition are as before,
  -- and the answer is an exception or a response whose code is not 201; or creation was permitted,
  -- the backend's execute() returned two ids, JOB_DB has gained one job under the second of them,
  -- which is running, not deleted and without logs, and the answer is 201 with the id, except that
  -- an exception of the start of the monitor is raised, with the job kept. In both cases the count
  -- of ongoing creations is balanced.
  pub create_job_cases : (json : Option Json) (c : Controller) → Outcome c (create_job env json c)
  unfolding create_job
  create_job_cases none c =
      inl (refused c (message "Empty request") 400 c.state.calls (omega arith))
  create_job_cases (some json) c = after_load_lem (env.load json) c
