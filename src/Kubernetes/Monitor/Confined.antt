-- ===== src/Kubernetes/Monitor/Confined.antt =====
-- Actions that touch no job but the Kubernetes job of one backend job id, and keep a property of it.
use reana_job_controller.Prelude.{
  Bool, Bool-cases, String, eq_iff, false, if◌then◌else◌, inl, inr, refl, some, some_inj, sym, true,
  ◌==◌, ◌∙◌, ◌≡◌, ◌≢◌,
}
use reana_job_controller.Dict.{Dict, insert, lookup}
use reana_job_controller.Dict.Laws.{
  insert-IsDict, lookup-insert, lookup-insert_ne, lookup-insert_self,
}
use reana_job_controller.Python.{
  Action, Exception, Result, continue, gets, handle, lift, ok, pure, raised, try_except, ◌>>=◌,
}
use reana_job_controller.JobDb.{Call, Job, State, call, modify_job}
use reana_job_controller.JobDb.Laws.{modify_job-known}
use reana_job_controller.Kubernetes.{}
use reana_job_controller.Kubernetes.Monitor.{get_reana_job_id}
use reana_job_controller.Kubernetes.Monitor.Remaining.{IsSound, Stands, get_reana_job_id-eq}

-- A write to a job that keeps its backend and its backend job id keeps the invariant.
module _ (id : String) (job new : Job) (db : Dict Job) (found : lookup id db ≡ some job)
    (backend : new.compute_backend ≡ job.compute_backend)
    (named : new.backend_job_id ≡ job.backend_job_id) where
  insert-origin :
      (i : String) (a : Job)
      → lookup i (insert id new db) ≡ some a
      → (o : Job) × (lookup i db ≡ some o)
        × (a.compute_backend ≡ o.compute_backend)
        × (a.backend_job_id ≡ o.backend_job_id)
  insert-origin i a e = elim (Bool-cases (id == i)) [
    | inl same ↦
        let p : new ≡ a = some_inj (rw (lookup-insert, same) at e) in
        (job, rw (← (eq_iff id i).0 same) found, rw (← p) backend, rw (← p) named)
    | inr other ↦ (a, rw (lookup-insert, other) at e, refl, refl)
  ]

  pub insert-IsSound : IsSound db → IsSound (insert id new db)
  insert-IsSound v = record {
    is_dict = insert-IsDict id new db v.is_dict;
    unique = λ i j a b p q ha hb same.
        let (o, po, ao, no') = insert-origin i a p in
        let (u, pu, au, nu) = insert-origin j b q in
        v.unique i j o u po pu (sym ao ∙ ha) (sym au ∙ hb) (sym no' ∙ same ∙ nu);
  }

module _ (P : Job → Type 0) (b id : String) where
  -- what an action may make of the database
  pub record Touches (before after : Dict Job) : Type 0 where
    pub sound : IsSound after
    pub stands : Stands P b id after
    pub others : (k : String) → k ≢ id → lookup k after ≡ lookup k before

  pub record Confined {A : Type 0} (m : Action State A) : Type 0 where
    pub at :
        (s : State) → IsSound s.job_db → Stands P b id s.job_db → Touches s.job_db (m s).1.job_db

module _ {P : Job → Type 0} {b id : String} where
  Touches-refl : (db : Dict Job) → IsSound db → Stands P b id db → Touches P b id db db
  Touches-refl db v st = record { sound = v; stands = st; others = λ k h. refl }

  pub Confined-pure : {A : Type 0} (a : A) → Confined P b id (pure a)
  Confined-pure a = record { at = λ s v st. Touches-refl s.job_db v st }

  pub Confined-lift : {A : Type 0} (r : Result A) → Confined P b id (lift r)
  Confined-lift r = record { at = λ s v st. Touches-refl s.job_db v st }

  pub Confined-gets : {A : Type 0} (f : State → A) → Confined P b id (gets f)
  Confined-gets f = record { at = λ s v st. Touches-refl s.job_db v st }

  pub Confined-call : (c : Call) → Confined P b id (call c)
  unfolding call
  Confined-call c = record { at = λ s v st. Touches-refl s.job_db v st }

  pub Confined-if :
      {A : Type 0} (t : Bool) (m n : Action State A)
      → Confined P b id m
      → Confined P b id n
      → Confined P b id (if t then m else n)
  Confined-if true m n cm cn = cm
  Confined-if false m n cm cn = cn

  continue-Confined :
      {A B : Type 0} (r : Result A) (f : A → Action State B)
      → ((a : A) → Confined P b id (f a))
      → Confined P b id (continue r f)
  continue-Confined (ok a) f cf = cf a
  continue-Confined (raised e) f cf = record { at = λ s v st. Touches-refl s.job_db v st }

  pub Confined-bind :
      {A B : Type 0} (m : Action State A) (f : A → Action State B)
      → Confined P b id m
      → ((a : A) → Confined P b id (f a))
      → Confined P b id (m >>= f)
  Confined-bind m f cm cf = record {
    at = λ s v st.
        let (r, s') = m s in
        let one = cm.at s v st in
        let two = (continue-Confined r f cf).at s' one.sound one.stands in
        record {
          sound = two.sound;
          stands = two.stands;
          others = λ k h. two.others k h ∙ one.others k h;
        };
  }

  handle-Confined :
      {A : Type 0} (r : Result A) (h : Exception → Action State A)
      → ((e : Exception) → Confined P b id (h e))
      → Confined P b id (handle r h)
  handle-Confined (ok a) h ch = record { at = λ s v st. Touches-refl s.job_db v st }
  handle-Confined (raised e) h ch = ch e

  pub Confined-try_except :
      {A : Type 0} (m : Action State A) (h : Exception → Action State A)
      → Confined P b id m
      → ((e : Exception) → Confined P b id (h e))
      → Confined P b id (try_except m h)
  Confined-try_except m h cm ch = record {
    at = λ s v st.
        let (r, s') = m s in
        let one = cm.at s v st in
        let two = (handle-Confined r h ch).at s' one.sound one.stands in
        record {
          sound = two.sound;
          stands = two.stands;
          others = λ k n. two.others k n ∙ one.others k n;
        };
  }

  -- A write to the job itself, of a field that is neither its backend nor its backend job id.
  pub Confined-modify_job :
      (f : Job → Job)
      → ((job : Job) → (f job).compute_backend ≡ job.compute_backend)
      → ((job : Job) → (f job).backend_job_id ≡ job.backend_job_id)
      → ((job : Job) → P job → P (f job))
      → Confined P b id (modify_job id f)
  Confined-modify_job f backend named keeps = record {
    at = λ s v st. rw (modify_job-known id f s st.found) (record {
      sound =
          insert-IsSound id st.job (f st.job) s.job_db st.found (backend st.job) (named st.job) v;
      stands = record {
        job = f st.job;
        found = lookup-insert_self id (f st.job) s.job_db;
        here = backend st.job ∙ st.here;
        named = named st.job ∙ st.named;
        holds = keeps st.job st.holds;
      };
      others = λ k h. lookup-insert_ne id k (f st.job) s.job_db (λ p. h (sym p));
    });
  }

  -- The REANA job id that is looked up is `id`, or the lookup raises.
  pub Confined-with_id :
      {A : Type 0} (rest : String → Action State A)
      → Confined P b id (rest id)
      → Confined P b id (do db ← gets (λ s. s.job_db); x ← lift (get_reana_job_id b db); rest x)
  Confined-with_id rest c = record {
    at = λ s v st. found s v st (get_reana_job_id b s.job_db) refl;
  }
    where
      found :
          (s : State)
          → IsSound s.job_db
          → Stands P b id s.job_db
          → (r : Result String) → get_reana_job_id b s.job_db ≡ r
          → Touches P b id s.job_db (continue r rest s).1.job_db
      found s v st (raised e) h = Touches-refl s.job_db v st
      found s v st (ok x) h = rw (get_reana_job_id-eq v st x h) (c.at s v st)

pub ruleset confined_rules = (
  Confined-pure, Confined-lift, Confined-gets, Confined-call, Confined-if, Confined-bind,
  Confined-try_except, Confined-with_id,
)
