-- ===== src/Slurm/Progress.antt =====
-- Proofs on one round of JobMonitorSlurmCERN (reana_job_controller/job_monitor.py) that meets no
-- error: the jobs that it settles.
use mathlib.Core.Path.{subst}
use reana_job_controller.Prelude.{
  Option, String, [], one_of, refl, some, true, ◌∷◌, ◌≡◌, Bool-cases, List, Option-cases, eq_iff,
  eq_refl, inl, inr, some_inj, ◌==◌, ◌⊎◌, ap, sym, ◌∙◌,
}
use reana_job_controller.Dict.{insert, lookup, Dict, IsDict}
use reana_job_controller.Dict.Laws.{lookup-insert, lookup-insert_self}
use reana_job_controller.Python.{ok, for_each}
use reana_job_controller.JobDb.{Job, State}
use reana_job_controller.JobDb.Frame.{AllIds}
use reana_job_controller.Kubernetes.Monitor.{collect_remaining}
use reana_job_controller.Kubernetes.Monitor.Remaining.{
  Remains, collect_remaining_complete, collect_remaining_sound,
}
use reana_job_controller.Managers
use reana_job_controller.Managers.Backends.{slurmcern}
use reana_job_controller.Slurm.{
  Submitter, watch_job, failed_states, finished_states, jobs_to_watch, statuses_to_skip, watch_pass,
}
use reana_job_controller.Slurm.Results.{
  end_of, ended, watch_job_lem, collect_remaining-AllIds, is_watched,
}

-- The submit node answers for every job, and the transfer works.
pub record Responds (submitter : Submitter) (states : String → String) : Type 0 where
  pub answers : (b : String) → submitter.job_state b ≡ ok (states b)
  pub transfers : submitter.transfer ≡ ok tt

abbrev pub final : List String
final = "finished" ∷ "failed" ∷ []

abbrev pub Knows : State → String → Type 0
Knows s id = (job : Job) × (lookup id s.job_db ≡ some job)

-- The job is over, and out of the queue.
abbrev pub Over : String → State → Type 0
Over id s =
    (job : Job) × (lookup id s.job_db ≡ some job)
    × (one_of job.status final ≡ true)
    × (job.deleted ≡ true)

has_logs :
    (submitter : Submitter) (b : String) (job : Job)
    → (logs : Option String) × (Managers.get_logs submitter.outside slurmcern b
          job.workflow_workspace
        ≡ ok logs)
unfolding Managers.get_logs
has_logs submitter b job = (_, refl)

end_of-final : (state status : String) → end_of state ≡ some status → one_of status final ≡ true
end_of-final state status e = elim (Bool-cases (one_of state finished_states)) [
  | inl finished ↦ rw (← some_inj (rw finished at e)) refl
  | inr open_state ↦ elim (Bool-cases (one_of state failed_states)) [
    | inl failed ↦ rw (← some_inj (rw (open_state, failed) at e)) refl
    | inr other ↦ cc (rw (open_state, other) at e)
  ]
]

module _ (submitter : Submitter) (states : String → String)
    (responds : Responds submitter states) where
  -- what a visit does, as an insertion
  visit :
      (b id : String) (s : State)
      → Knows s id
      → (job : Job) × (lookup id s.job_db ≡ some job)
        × (logs : Option String) × ((watch_job submitter (b, id) s).0 ≡ ok tt)
        × ((watch_job submitter (b, id) s).1.job_db
            ≡ insert id (ended job (end_of (states b)) logs) s.job_db)
  visit b id s (job, found) =
      let (logs, read) = has_logs submitter b job in
      let (done, written) =
        watch_job_lem submitter b id s job logs found responds.transfers read (states b)
          (responds.answers b) in
      (job, found, logs, done, written)

-- a job that is over stays over when it is visited again
ended-Over :
    (job : Job) (state : String) (logs : Option String)
    → one_of job.status final ≡ true
    → job.deleted ≡ true
    → (one_of (ended job (end_of state) logs).status final ≡ true)
      × ((ended job (end_of state) logs).deleted ≡ true)
ended-Over job state logs closed gone = elim (Option-cases (end_of state)) [
  | inl going ↦ rw going (closed, gone)
  | inr (status, over) ↦ rw over (end_of-final state status over, refl)
]

-- the entry of a job after a write
module _ (written : String) (value : Job) (db : Dict Job) (asked : String) where
  read_back :
      (P : Job → Type 0)
      → ((written ≡ asked) → P value)
      → ((job : Job) → lookup asked db ≡ some job → P job)
      → (written ≡ asked) ⊎ ((job : Job) × (lookup asked db ≡ some job))
      → (job : Job) × (lookup asked (insert written value db) ≡ some job) × P job
  read_back P new old there = elim (Bool-cases (written == asked)) [
    | inl same ↦
        let p = (eq_iff written asked).0 same in
        (value, rw (lookup-insert written asked value db, same) refl, new p)
    | inr other ↦ elim there [
      | inl p ↦ absurd (cc (eq_refl asked))
      | inr (job, found) ↦
          (job, rw (lookup-insert written asked value db, other) found, old job found)
    ]
  ]

abbrev IsOver : Job → Type 0
IsOver job = (one_of job.status final ≡ true) × (job.deleted ≡ true)

AllIds-map :
    (P Q : String → Type 0) (found : Dict String)
    → ((id : String) → P id → Q id)
    → AllIds P found
    → AllIds Q found
AllIds-map P Q [] h all = tt
AllIds-map P Q (item ∷ found) h all = (h item.1 all.0, AllIds-map P Q found h all.1)

module _ (submitter : Submitter) (states : String → String) (responds : Responds submitter states)
    (b id : String) (s : State) (known : Knows s id) where
  abbrev after : State
  after = (watch_job submitter (b, id) s).1

  visit-Knows : (asked : String) → Knows s asked → Knows after asked
  visit-Knows asked there =
      let (job, found, logs, done, written) = visit submitter states responds b id s known in
      let (kept, reads, unused) =
        read_back id (ended job (end_of (states b)) logs) s.job_db asked (λ j. Unit {0})
          (λ same. tt) (λ j e. tt) (inr there) in
      (kept, rw written reads)

  visit-Over : (asked : String) → Over asked s → Over asked after
  visit-Over asked (over, there, closed, gone) =
      let (job, found, logs, done, written) = visit submitter states responds b id s known in
      let (kept, reads, holds) =
        read_back id (ended job (end_of (states b)) logs) s.job_db asked IsOver
          (λ same.
            let e : job ≡ over = some_inj (sym found ∙ ap (λ k. lookup k s.job_db) same ∙ there) in
            ended-Over job (states b) logs (rw e closed) (rw e gone))
          (λ j e. rw (some_inj (sym e ∙ there)) (closed, gone)) (inr (over, there)) in
      (kept, rw written reads, holds.0, holds.1)

  visit-ends : (status : String) → end_of (states b) ≡ some status → Over id after
  visit-ends status over =
      let (job, found, logs, done, written) = visit submitter states responds b id s known in
      (
        ended job (end_of (states b)) logs,
        rw written (lookup-insert_self id (ended job (end_of (states b)) logs) s.job_db),
        rw over (end_of-final (states b) status over),
        rw over refl,
      )

module _ (submitter : Submitter) (states : String → String) (responds : Responds submitter states)
    (b target status : String) (over : end_of (states b) ≡ some status) where
  -- the loop, once it has met the target or has it before it
  loop-Over :
      (found : Dict String) (s : State)
      → AllIds (Knows s) found
      → (lookup b found ≡ some target) ⊎ Over target s
      → ((for_each found (watch_job submitter) s).0 ≡ ok tt)
        × Over target (for_each found (watch_job submitter) s).1
  unfolding for_each lookup
  loop-Over [] s all (inl e) = cc e
  loop-Over [] s all (inr done) = (refl, done)
  loop-Over ((b', id') ∷ found) s all here =
      let (job, there, logs, done, written) = visit submitter states responds b' id' s all.0 in
      let next = (watch_job submitter (b', id') s).1 in
      let rest =
        AllIds-map (Knows s) (Knows next) found
          (visit-Knows submitter states responds b' id' s all.0) all.1 in
      let goal : (lookup b found ≡ some target) ⊎ Over target next = elim here [
        | inr before ↦ inr (visit-Over submitter states responds b' id' s all.0 target before)
        | inl e ↦ elim (Bool-cases (b' == b)) [
          | inl same ↦
              let p : b' ≡ b = (eq_iff b' b).0 same in
              let q : id' ≡ target = some_inj (rw same at e) in
              inr (
                subst (λ i. Over i next) q
                  (visit-ends submitter states responds b' id' s all.0 status (rw p over)))
          | inr other ↦ inl (rw other at e)
        ]
      ] in
      rw done (loop-Over found next rest goal)

-- If the submit node answers for every job and the transfer of outputs works, one round of the Slurm
-- monitor settles each job that it watches and whose state is one of an end: afterwards the status
-- of the job is finished or failed and it is marked as deleted, whatever the other jobs are. JOB_DB
-- is a dictionary, and no other job that is watched has the same backend job id.
pub watch_pass-Over :
    (submitter : Submitter) (states : String → String) (s : State) (id status : String) (job : Job)
    → IsDict s.job_db
    → Responds submitter states
    → lookup id s.job_db ≡ some job
    → is_watched job ≡ true
    → ((j : String) → Remains "slurmcern" statuses_to_skip job.backend_job_id j s.job_db → j ≡ id)
    → end_of (states job.backend_job_id) ≡ some status
    → Over id (watch_pass submitter s).1
unfolding watch_pass jobs_to_watch lookup
watch_pass-Over submitter states s id status job is_dict responds found watched unique over =
    let b = job.backend_job_id in
    let pairs = collect_remaining "slurmcern" statuses_to_skip s.job_db [] in
    let (id', e) =
      collect_remaining_complete "slurmcern" statuses_to_skip b id s.job_db []
        (job, found, watched, refl) in
    let same : id' ≡ id =
      elim (collect_remaining_sound "slurmcern" statuses_to_skip b id' s.job_db [] is_dict e) [
        | inl old ↦ cc old
        | inr remains ↦ unique id' remains
      ] in
    let known =
      collect_remaining-AllIds (Knows s) s.job_db [] is_dict (λ j v there h. (v, there)) tt in
    let (done, settled) =
      loop-Over submitter states responds b id status over pairs s known
        (inl (e ∙ ap (λ i. some i) same)) in
    rw done settled
