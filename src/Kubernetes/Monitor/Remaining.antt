-- ===== src/Kubernetes/Monitor/Remaining.antt =====
-- What the dictionary of the remaining jobs holds, and the invariant of JOB_DB under which a
-- backend job id names one job.
use reana_job_controller.Prelude.{
  ap, one_of, List, String, [], arith, eq_iff, inl, inr, some, true, ◌∷◌, ◌≡◌, ◌⊎◌, Bool-cases,
  Option-cases, eq_refl, if◌then◌else◌, sym, ◌==◌, ◌∙◌, some_inj, false,
}
use reana_job_controller.Dict.{Dict, IsDict, lookup, insert}
use reana_job_controller.Dict.Laws.{
  lookup-head, lookup-tail, lookup-insert, lookup-insert_ne, lookup-insert_self,
}
use reana_job_controller.Python.{ok}
use reana_job_controller.JobDb.{Job}
use reana_job_controller.Kubernetes.Monitor.{
  collect_remaining, is_remaining, get_reana_job_id, get_remaining_jobs,
}

module _ (backend : String) (skip : List String) where
  -- `id` is in `db`, counts as remaining, and has the backend job id `b`
  abbrev pub Remains : String → String → Dict Job → Type 0
  Remains b id db =
      (job : Job) × (lookup id db ≡ some job)
      × (is_remaining backend skip job ≡ true)
      × (job.backend_job_id ≡ b)

  -- one round of the loop
  abbrev found_after : Job → String → Dict String → Dict String
  found_after v j found =
      if is_remaining backend skip v then insert v.backend_job_id j found else found

  found_after_sound :
      (b id j : String) (v : Job) (db : Dict Job) (found : Dict String)
      → lookup b (found_after v j found) ≡ some id
      → (lookup b found ≡ some id) ⊎ Remains b id ((j, v) ∷ db)
  found_after_sound b id j v db found e = elim (Bool-cases (is_remaining backend skip v)) [
    | inr n ↦ inl (rw n at e)
    | inl r ↦ elim (Bool-cases (v.backend_job_id == b)) [
      | inr n ↦ inl (
          sym (
            lookup-insert_ne v.backend_job_id b j found
              (λ p. ground (arith, eq_iff v.backend_job_id b)))
          ∙ rw r at e)
      | inl same ↦
          let p : v.backend_job_id ≡ b = (eq_iff v.backend_job_id b).0 same in
          let q : j ≡ id =
            some_inj (sym (lookup-insert_self v.backend_job_id j found) ∙ rw (r, ← p) at e) in
          inr (v, rw (← q) (lookup-head j v db), r, p)
    ]
  ]

  pub collect_remaining_sound :
      (b id : String) (db : Dict Job) (found : Dict String)
      → IsDict db
      → lookup b (collect_remaining backend skip db found) ≡ some id
      → (lookup b found ≡ some id) ⊎ Remains b id db
  unfolding collect_remaining
  collect_remaining_sound b id [] found d e = inl e
  collect_remaining_sound b id ((j, v) ∷ db) found d e =
      elim (collect_remaining_sound b id db _ d.1 e) [
        | inl old ↦ found_after_sound b id j v db found old
        | inr (job, known, wanted, named) ↦
            inr (job, lookup-tail j id v job db d.0 known, wanted, named)
      ]

  found_after_keeps :
      (b id j : String) (v : Job) (found : Dict String)
      → lookup b found ≡ some id
      → (id' : String) × (lookup b (found_after v j found) ≡ some id')
  found_after_keeps b id j v found e = elim (Bool-cases (is_remaining backend skip v)) [
    | inr n ↦ (id, rw n e)
    | inl r ↦ elim (Bool-cases (v.backend_job_id == b)) [
      | inl same ↦ (j, rw (r, lookup-insert, same))
      | inr other ↦ (id, rw (r, lookup-insert, other) e)
    ]
  ]

  collect_remaining_keeps :
      (b id : String) (db : Dict Job) (found : Dict String)
      → lookup b found ≡ some id
      → (id' : String) × (lookup b (collect_remaining backend skip db found) ≡ some id')
  unfolding collect_remaining
  collect_remaining_keeps b id [] found e = (id, e)
  collect_remaining_keeps b id ((j, v) ∷ db) found e =
      let (id', e') = found_after_keeps b id j v found e in
      collect_remaining_keeps b id' db (found_after v j found) e'

  pub collect_remaining_complete :
      (b id : String) (db : Dict Job) (found : Dict String)
      → Remains b id db
      → (id' : String) × (lookup b (collect_remaining backend skip db found) ≡ some id')
  unfolding collect_remaining lookup
  collect_remaining_complete b id [] found (job, known, wanted, named) = cc
  collect_remaining_complete b id ((j, v) ∷ db) found (job, known, wanted, named) =
      elim (Bool-cases (j == id)) [
        | inr other ↦
            collect_remaining_complete b id db (found_after v j found)
              (job, rw other at known, wanted, named)
        | inl same ↦
            let p : v ≡ job = some_inj (rw same at known) in
            collect_remaining_keeps b j db (found_after v j found)
              (rw (p, wanted, lookup-insert, named, eq_refl b))
      ]

-- No two Kubernetes jobs have one backend job id.
pub record IsSound (db : Dict Job) : Type 0 where
  pub is_dict : IsDict db
  pub unique :
      (i j : String) (a b : Job)
      → lookup i db ≡ some a
      → lookup j db ≡ some b
      → a.compute_backend ≡ "kubernetes"
      → b.compute_backend ≡ "kubernetes"
      → a.backend_job_id ≡ b.backend_job_id
      → i ≡ j

remaining_backend :
    (skip : List String) (job : Job)
    → is_remaining "kubernetes" skip job ≡ true
    → job.compute_backend ≡ "kubernetes"
unfolding is_remaining
remaining_backend skip job h = ground (arith, eq_iff job.compute_backend "kubernetes")

-- The job in the database under `id` is the Kubernetes job of `b`, and satisfies `P`.
pub record Stands (P : Job → Type 0) (b id : String) (db : Dict Job) : Type 0 where
  pub job : Job
  pub found : lookup id db ≡ some job
  pub here : job.compute_backend ≡ "kubernetes"
  pub named : job.backend_job_id ≡ b
  pub holds : P job

module _ {P : Job → Type 0} {b id : String} {db : Dict Job} (v : IsSound db)
    (st : Stands P b id db) where
  pub remaining-eq :
      (skip : List String) (x : String)
      → lookup b (get_remaining_jobs skip db) ≡ some x
      → (x ≡ id) × (is_remaining "kubernetes" skip st.job ≡ true)
  unfolding get_remaining_jobs lookup
  remaining-eq skip x e = elim (collect_remaining_sound "kubernetes" skip b x db [] v.is_dict e) [
    | inl old ↦ cc
    | inr (job, known, wanted, named) ↦
        let p : x ≡ id =
          v.unique x id job st.job known st.found (remaining_backend skip job wanted) st.here
            (named ∙ sym st.named) in
        (p, rw (some_inj (sym known ∙ rw (← p) at st.found)) at wanted)
  ]

  pub get_reana_job_id-eq : (x : String) → get_reana_job_id b db ≡ ok x → x ≡ id
  unfolding get_reana_job_id
  get_reana_job_id-eq x e = elim (Option-cases (lookup b (get_remaining_jobs [] db))) [
    | inl n ↦ cc (rw n at e)
    | inr (y, known) ↦ (remaining-eq [] x (ground arith)).0
  ]

module _ (b x : String) (db : Dict Job) (v : IsSound db) where
  pub remaining-Remains :
      (skip : List String)
      → lookup b (get_remaining_jobs skip db) ≡ some x
      → Remains "kubernetes" skip b x db
  unfolding get_remaining_jobs lookup
  remaining-Remains skip e =
      elim (collect_remaining_sound "kubernetes" skip b x db [] v.is_dict e) [
        | inl old ↦ cc
        | inr found ↦ found
      ]

  is_remaining-nil :
      (skip : List String) (job : Job)
      → is_remaining "kubernetes" skip job ≡ true
      → (is_remaining "kubernetes" [] job ≡ true) × (one_of job.status skip ≡ false)
  unfolding is_remaining
  is_remaining-nil skip job h = ground arith

  -- What remains under some statuses is found again without them.
  pub Remains-Stands :
      (skip : List String)
      → Remains "kubernetes" skip b x db
      → Stands (λ job. one_of job.status skip ≡ false) b x db × (get_reana_job_id b db ≡ ok x)
  unfolding get_reana_job_id get_remaining_jobs
  Remains-Stands skip (job, known, wanted, named) =
      let (still, open_status) = is_remaining-nil skip job wanted in
      let st : Stands (λ j. one_of j.status skip ≡ false) b x db = record {
        job = job;
        found = known;
        here = remaining_backend skip job wanted;
        named = named;
        holds = open_status;
      } in
      let (y, e) =
        collect_remaining_complete "kubernetes" [] b x db [] (job, known, still, named) in
      (st, rw (e, ap (λ k. ok k) (remaining-eq v st [] y e).0))
