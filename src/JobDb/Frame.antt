-- ===== src/JobDb/Frame.antt =====
-- What an action may do to JOB_DB: write the status, the logs and the mark `deleted` of the jobs
-- that it is about, and nothing else.
use reana_job_controller.Prelude.{
  String, ◌≡◌, refl, some, Bool, true, false, if◌then◌else◌, Option, ap, ◌∙◌, Bool-cases,
  Option-cases, eq_iff, inl, inr, some_inj, sym, ◌==◌, List, [], ◌∷◌,
}
use reana_job_controller.Python.{
  ◌>>=◌, Action, Exception, Result, continue, gets, handle, lift, ok, pure, raise, raised,
  try_except, for_each,
}
use reana_job_controller.Dict.{Dict, lookup, keys, insert, IsDict}
use reana_job_controller.Dict.Laws.{keys-insert, lookup-insert, lookup-insert_ne, insert-IsDict}
use reana_job_controller.JobDb.{
  Call, Job, State, call, mark_deleted, modify_job, store_job_logs, update_job_status, session_logs,
  session_status,
}
use reana_job_controller.JobDb.Laws.{modify_job-known, modify_job-unknown}

-- A preorder on the contents of JOB_DB.
pub record Order : Type 1 where
  pub Leads : Dict Job → Dict Job → Type 0
  pub same : (db : Dict Job) → Leads db db
  pub trans : {a b c : Dict Job} → Leads a b → Leads b c → Leads a c

-- Whatever state it starts from, the action leads upwards.
pub record Respects (o : Order) {A : Type 0} (m : Action State A) : Type 0 where
  pub at : (s : State) → o.Leads s.job_db (m s).1.job_db

module _ {o : Order} where
  pub Respects-pure : {A : Type 0} (a : A) → Respects o (pure a)
  Respects-pure a = record { at = λ s. o.same s.job_db }

  pub Respects-raise : {A : Type 0} (e : Exception) → Respects o (raise {A = A} e)
  Respects-raise e = record { at = λ s. o.same s.job_db }

  pub Respects-lift : {A : Type 0} (r : Result A) → Respects o (lift r)
  Respects-lift r = record { at = λ s. o.same s.job_db }

  pub Respects-gets : {A : Type 0} (f : State → A) → Respects o (gets f)
  Respects-gets f = record { at = λ s. o.same s.job_db }

  pub Respects-call : (c : Call) → Respects o (call c)
  unfolding call
  Respects-call c = record { at = λ s. o.same s.job_db }

  pub Respects-if :
      {A : Type 0} (t : Bool) (m n : Action State A)
      → Respects o m
      → Respects o n
      → Respects o (if t then m else n)
  Respects-if true m n cm cn = cm
  Respects-if false m n cm cn = cn

  pub continue-Respects :
      {A B : Type 0} (r : Result A) (f : A → Action State B)
      → ((a : A) → Respects o (f a))
      → Respects o (continue r f)
  continue-Respects (ok a) f cf = cf a
  continue-Respects (raised e) f cf = Respects-raise e

  pub Respects-bind :
      {A B : Type 0} (m : Action State A) (f : A → Action State B)
      → Respects o m
      → ((a : A) → Respects o (f a))
      → Respects o (m >>= f)
  Respects-bind m f cm cf = record {
    at = λ s. let (r, s') = m s in o.trans (cm.at s) ((continue-Respects r f cf).at s');
  }

  handle-Respects :
      {A : Type 0} (r : Result A) (h : Exception → Action State A)
      → ((e : Exception) → Respects o (h e))
      → Respects o (handle r h)
  handle-Respects (ok a) h ch = Respects-pure a
  handle-Respects (raised e) h ch = ch e

  pub Respects-try_except :
      {A : Type 0} (m : Action State A) (h : Exception → Action State A)
      → Respects o m
      → ((e : Exception) → Respects o (h e))
      → Respects o (try_except m h)
  Respects-try_except m h cm ch = record {
    at = λ s. let (r, s') = m s in o.trans (cm.at s) ((handle-Respects r h ch).at s');
  }

  pub Respects-for_each :
      {A : Type 0} (xs : List A) (body : A → Action State (Unit {0}))
      → ((x : A) → Respects o (body x))
      → Respects o (for_each xs body)
  unfolding for_each
  Respects-for_each [] body h = Respects-pure tt
  Respects-for_each (x ∷ xs) body h = record {
    at = λ s.
        let (r, t) = body x s in
        o.trans ((h x).at s)
          ((continue-Respects r (λ _. for_each xs body) (λ _. Respects-for_each xs body h)).at t);
  }

abbrev pub SameJob : Job → Job → Type 0
SameJob a b = b ≡ record a { status = b.status; log = b.log; deleted = b.deleted }

SameJob-trans : (a b c : Job) → SameJob a b → SameJob b c → SameJob a c
SameJob-trans a b c p q =
    q ∙ ap (λ (j : Job). record j { status = c.status; log = c.log; deleted = c.deleted }) p

-- From `before` to `after`, only jobs under keys with P are written.
pub record Changed (P : String → Type 0) (before after : Dict Job) : Type 0 where
  pub order : keys after ≡ keys before
  pub dict : IsDict before → IsDict after
  pub others : (k : String) → ¬ P k → lookup k after ≡ lookup k before
  pub same :
      (k : String) (job : Job)
      → lookup k before ≡ some job
      → (new : Job) × (lookup k after ≡ some new) × SameJob job new

module _ {P : String → Type 0} where
  pub Changed-refl : (db : Dict Job) → Changed P db db
  Changed-refl db = record {
    order = refl;
    dict = λ d. d;
    others = λ k h. refl;
    same = λ k job found. (job, found, refl);
  }

  pub Changed-trans : {a b c : Dict Job} → Changed P a b → Changed P b c → Changed P a c
  Changed-trans p q = record {
    order = q.order ∙ p.order;
    dict = λ d. q.dict (p.dict d);
    others = λ k h. q.others k h ∙ p.others k h;
    same = λ k job found.
        let (mid, there, one) = p.same k job found in
        let (new, here, two) = q.same k mid there in (new, here, SameJob-trans job mid new one two);
  }

abbrev pub changed : (String → Type 0) → Order
changed P = record { Leads = Changed P; same = Changed-refl; trans = Changed-trans }

abbrev pub Changes : (String → Type 0) → {A : Type 0} → Action State A → Type 0
Changes P m = Respects (changed P) m

module _ {P : String → Type 0} where
  insert-Changed :
      (id : String) (job new : Job) (db : Dict Job)
      → lookup id db ≡ some job
      → P id
      → SameJob job new
      → Changed P db (insert id new db)
  insert-Changed id job new db found allowed same = record {
    order = keys-insert id new job db found;
    dict = insert-IsDict id new db;
    others = λ k h. lookup-insert_ne id k new db (λ p. h (rw p at allowed));
    same = λ k old there. elim (Bool-cases (id == k)) [
      | inl here ↦
          let p : job ≡ old = some_inj (sym found ∙ rw (← (eq_iff id k).0 here) at there) in
          (new, rw (lookup-insert, here), rw (← p) same)
      | inr other ↦ (old, rw (lookup-insert, other) there, refl)
    ];
  }

  pub Changes-modify_job :
      (id : String) (f : Job → Job)
      → P id
      → ((job : Job) → SameJob job (f job))
      → Changes P (modify_job id f)
  Changes-modify_job id f allowed keeps = record {
    at = λ s. elim (Option-cases (lookup id s.job_db)) [
      | inl absent ↦ rw (modify_job-unknown id f s absent) (Changed-refl s.job_db)
      | inr (job, found) ↦
          rw (modify_job-known id f s found)
            (insert-Changed id job (f job) s.job_db found allowed (keeps job))
    ];
  }

  pub Changes-update_job_status :
      (id status : String) → P id → Changes P (update_job_status id status)
  unfolding update_job_status
  Changes-update_job_status id status allowed =
      Respects-bind (modify_job id (λ job. record job { status = status })) _
        (Changes-modify_job id _ allowed (λ job. refl))
        (λ _. Respects-call (session_status id status))

  pub Changes-store_job_logs :
      (id : String) (logs : Option String) → P id → Changes P (store_job_logs id logs)
  unfolding store_job_logs
  Changes-store_job_logs id logs allowed =
      Respects-bind (modify_job id (λ job. record job { log = logs })) _
        (Changes-modify_job id _ allowed (λ job. refl)) (λ _. Respects-call (session_logs id logs))

  pub Changes-mark_deleted : (id : String) → P id → Changes P (mark_deleted id)
  unfolding mark_deleted
  Changes-mark_deleted id allowed = Changes-modify_job id _ allowed (λ job. refl)

pub ruleset changes_rules = (
  Respects-pure, Respects-raise, Respects-lift, Respects-gets, Respects-call, Respects-if,
  Respects-bind, Respects-try_except, Changes-update_job_status, Changes-store_job_logs,
  Changes-mark_deleted,
)

-- From `before` to `after`, only the jobs that are watched are written.
pub record Guarded (is_watched : Job → Bool) (before after : Dict Job) : Type 0 where
  pub order : keys after ≡ keys before
  pub dict : IsDict before → IsDict after
  pub kept :
      (k : String) (job : Job)
      → lookup k before ≡ some job
      → is_watched job ≡ false
      → lookup k after ≡ some job
  pub same :
      (k : String) (job : Job)
      → lookup k before ≡ some job
      → (new : Job) × (lookup k after ≡ some new) × SameJob job new

module _ {is_watched : Job → Bool} where
  pub Guarded-refl : (db : Dict Job) → Guarded is_watched db db
  Guarded-refl db = record {
    order = refl;
    dict = λ d. d;
    kept = λ k job found h. found;
    same = λ k job found. (job, found, refl);
  }

  pub Guarded-trans :
      {a b c : Dict Job} → Guarded is_watched a b → Guarded is_watched b c → Guarded is_watched a c
  Guarded-trans p q = record {
    order = q.order ∙ p.order;
    dict = λ d. q.dict (p.dict d);
    kept = λ k job found h. q.kept k job (p.kept k job found h) h;
    same = λ k job found.
        let (mid, there, one) = p.same k job found in
        let (new, here, two) = q.same k mid there in (new, here, SameJob-trans job mid new one two);
  }

  -- It is enough that a job under each key that may be written is watched at the start.
  pub Guarded-Changed :
      {P : String → Type 0} {before after : Dict Job}
      → ((k : String) (job : Job) → lookup k before ≡ some job → is_watched job ≡ false → ¬ P k)
      → Changed P before after
      → Guarded is_watched before after
  Guarded-Changed watched c = record {
    order = c.order;
    dict = c.dict;
    kept = λ k job found h. c.others k (watched k job found h) ∙ found;
    same = c.same;
  }

abbrev pub guarded : (Job → Bool) → Order
guarded is_watched = record {
  Leads = Guarded is_watched;
  same = Guarded-refl;
  trans = Guarded-trans;
}

-- `P` holds of the ids in a dictionary from backend job ids to REANA job ids.
abbrev pub AllIds : (String → Type 0) → Dict String → Type 0
AllIds P [] = Unit
AllIds P (item ∷ found) = P item.1 × AllIds P found

pub insert-AllIds :
    (P : String → Type 0) (b id : String) (found : Dict String)
    → P id
    → AllIds P found
    → AllIds P (insert b id found)
unfolding insert
insert-AllIds P b id [] h all = (h, tt)
insert-AllIds P b id (item ∷ found) h all = elim (Bool-cases (item.0 == b)) [
  | inl same ↦ rw same (h, all.1)
  | inr other ↦ rw other (all.0, insert-AllIds P b id found h all.1)
]

module _ {P : String → Type 0} where
  -- a loop over the entries of such a dictionary
  pub Changes-for_ids :
      (found : Dict String) (body : String × String → Action State (Unit {0}))
      → ((b id : String) → P id → Changes P (body (b, id)))
      → AllIds P found
      → Changes P (for_each found body)
  unfolding for_each
  Changes-for_ids [] body h all = Respects-pure tt
  Changes-for_ids (item ∷ found) body h all = record {
    at = λ s.
        let (r, t) = body item s in
        Changed-trans ((h item.0 item.1 all.0).at s) (
          (continue-Respects r (λ _. for_each found body)
              (λ _. Changes-for_ids found body h all.1)).at
            t);
  }

-- `id` stands for a job that is watched.
abbrev pub Watched : (Job → Bool) → Dict Job → String → Type 0
Watched is_watched db id = (job : Job) × (lookup id db ≡ some job) × (is_watched job ≡ true)

pub Guarded-Watched :
    {is_watched : Job → Bool} {before after : Dict Job}
    → Changed (Watched is_watched before) before after
    → Guarded is_watched before after
Guarded-Watched c =
    Guarded-Changed
      (λ k job found h p.
        let (other, there, watched) = p in cc (rw (← some_inj (sym found ∙ there), h) at watched))
      c
