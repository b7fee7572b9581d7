-- ===== src/Punch/Results.antt =====
-- Proofs on JobMonitorCompute4PUNCH (reana_job_controller/job_monitor.py): which jobs are written,
-- and held jobs.
use reana_job_controller.Prelude.{
  Bool-cases, List, Option, String, [], if◌then◌else◌, inl, inr, none, some, true, ◌∷◌, ◌≡◌, ◌≢◌,
  ap, eq_iff, false, refl, ◌==◌,
}
use reana_job_controller.Text.{}
use reana_job_controller.Dict.{Dict, IsDict, insert, keys, lookup}
use reana_job_controller.Dict.Laws.{lookup-head, lookup-tail}
use reana_job_controller.Python.{for_each, lift, ok, pure, try_except, ◌>>◌, raised, type_error}
use reana_job_controller.JobDb.{Job, State, call, sleep}
use reana_job_controller.JobDb.Frame.{
  changes_rules, AllIds, Changes, Changes-for_ids, Guarded, Guarded-Watched, Guarded-refl,
  Guarded-trans, Respects-bind, Respects-call, Respects-lift, Respects-pure, Respects-try_except,
  Watched, insert-AllIds,
}
use reana_job_controller.Managers
use reana_job_controller.Punch.{
  LoginNode, Row, c4p_job_mapping, fill_queue, filter_jobs_to_watch, finish, lose, map_jobs,
  query_c4p_jobs, release, settle, watch_job, watch_jobs, watch_mapped, watch_pass, is_text,
}

module _ (node : LoginNode) {P : String → Type 0} where
  finish-Changes : (b id status : String) → P id → Changes P (finish node b id status)
  unfolding finish
  finish-Changes b id status allowed = search changes_rules depth 14

  lose-Changes : (b id : String) → P id → Changes P (lose node b id)
  unfolding lose
  lose-Changes b id allowed = search changes_rules depth 10

  release-Changes : (b id : String) (row : Row) → P id → Changes P (release node b id row)
  unfolding release Managers.stop
  release-Changes b id row allowed = search (changes_rules, finish-Changes) depth 10

  settle-Changes : (b id : String) (row : Option Row) → P id → Changes P (settle node b id row)
  unfolding settle
  settle-Changes b id none allowed = lose-Changes b id allowed
  settle-Changes b id (some row) allowed =
      search (changes_rules, finish-Changes, release-Changes) depth 8

  watch_job-Changes :
      (statuses : Dict Row) (b id : String) → P id → Changes P (watch_job node statuses (b, id))
  unfolding watch_job
  watch_job-Changes statuses b id allowed = settle-Changes b id (lookup b statuses) allowed

map_jobs-AllIds :
    (P : String → Type 0) (db : Dict Job) (mapping : Dict String)
    → IsDict db
    → ((id : String) (job : Job) → lookup id db ≡ some job → filter_jobs_to_watch job ≡ true → P id)
    → AllIds P mapping
    → AllIds P (map_jobs db mapping)
unfolding map_jobs lookup
map_jobs-AllIds P [] mapping d each all = all
map_jobs-AllIds P ((j, v) ∷ db) mapping d each all =
    map_jobs-AllIds P db
      (if filter_jobs_to_watch v then insert v.backend_job_id j mapping else mapping) d.1
      (λ id job there h. each id job (lookup-tail j id v job db d.0 there) h)
      (elim (Bool-cases (filter_jobs_to_watch v)) [
        | inl watched ↦
            rw watched (
              insert-AllIds P v.backend_job_id j mapping (each j v (lookup-head j v db) watched)
                all)
        | inr other ↦ rw other all
      ])

module _ (node : LoginNode) where
  watch_mapped-Changes :
      {P : String → Type 0} (mapping : Dict String)
      → AllIds P mapping
      → Changes P (watch_mapped node mapping)
  unfolding watch_mapped
  watch_mapped-Changes mapping all =
      Respects-bind (lift (query_c4p_jobs node (keys mapping)))
        (λ statuses. for_each mapping (watch_job node statuses))
        (Respects-lift (query_c4p_jobs node (keys mapping)))
        (λ statuses.
          Changes-for_ids mapping (watch_job node statuses) (watch_job-Changes node statuses) all)

  watch_pass-Guarded :
      (s : State)
      → IsDict s.job_db
      → Guarded filter_jobs_to_watch s.job_db (watch_pass node s).1.job_db
  unfolding watch_pass c4p_job_mapping
  watch_pass-Guarded s d =
      let loop : Changes (Watched filter_jobs_to_watch s.job_db) (do
        try_except (watch_mapped node (c4p_job_mapping s.job_db)) (λ e. pure tt)
        call (sleep 120)) =
        Respects-bind _ _
          (Respects-try_except _ (λ e. pure tt)
            (watch_mapped-Changes (c4p_job_mapping s.job_db) (
              map_jobs-AllIds (Watched filter_jobs_to_watch s.job_db) s.job_db [] d
                (λ id job found h. (job, found, h)) tt))
            (λ e. Respects-pure tt))
          (λ _. Respects-call (sleep 120)) in
      Guarded-Watched (loop.at s)

-- The Compute4PUNCH monitor, pass after pass, whatever the login node answers in each and whichever
-- calls raise: no job of JOB_DB is added, removed or reordered, a job of another backend, a deleted
-- job and a job with a final status stay exactly as they are, and of the others the status, the
-- logs and the mark `deleted` change at most. JOB_DB is a dictionary.
pub watch_jobs-Guarded_punch :
    (answers : List LoginNode) (s : State)
    → IsDict s.job_db
    → Guarded filter_jobs_to_watch s.job_db (watch_jobs answers s).job_db
unfolding watch_jobs
watch_jobs-Guarded_punch [] s d = Guarded-refl s.job_db
watch_jobs-Guarded_punch (node ∷ later) s d =
    let one = watch_pass-Guarded node s d in
    Guarded-trans one (watch_jobs-Guarded_punch later (watch_pass node s).1 (one.dict d))

is_text-not : (x : String) (o : Option String) → o ≢ some x → is_text x o ≡ false
is_text-not x none h = refl
is_text-not x (some y) h = elim (Bool-cases (y == x)) [
  | inl same ↦ absurd (h (ap (λ t. some t) ((eq_iff y x).0 same)))
  | inr other ↦ other
]

settle-held :
    (node : LoginNode) (b id : String) (row : Row) (s : State)
    → row.job_status ≡ some "5"
    → row.hold_reason_code ≢ some "16"
    → settle node b id (some row) s ≡ (raised type_error, s)
unfolding settle release Managers.stop
settle-held node b id row s held reason =
    let running : is_text "4" row.job_status ≡ false = ap (is_text "4") held in
    let holding : is_text "5" row.job_status ≡ true = ap (is_text "5") held in
    rw (running, holding, is_text-not "16" row.hold_reason_code reason) refl

-- A held job that comes first in the mapping, for a reason other than 16, ends the pass: `stop`
-- cannot be called on the class, so this job is not recorded, and neither is any job behind it.
pub watch_pass-held :
    (node : LoginNode) (s : State) (b id : String) (rest : Dict String) (rows : List Row)
    (row : Row)
    → c4p_job_mapping s.job_db ≡ (b, id) ∷ rest
    → node.rows (b ∷ keys rest) ≡ ok rows
    → lookup b (fill_queue rows []) ≡ some row
    → row.job_status ≡ some "5"
    → row.hold_reason_code ≢ some "16"
    → (watch_pass node s).1.job_db ≡ s.job_db
unfolding watch_pass watch_mapped for_each watch_job query_c4p_jobs call keys
watch_pass-held node s b id rest rows row mapped answered there held reason =
    rw (mapped, answered, there, settle-held node b id row s held reason) refl
