-- ===== src/Kubernetes/Limits.antt =====
-- set_user_id and set_memory_limit of reana_job_controller/kubernetes_job_manager.py, which its
-- constructor calls. The reading of memory sizes is of reana_commons: two parameters.
use reana_job_controller.Prelude.{
  Bool, Bool-cases, Option, String, [], arith, if◌then◌else◌, inl, inr, ltb, none, not, refl, some,
  suc, true, zero, ℕ, ◌&&◌, ◌==◌, ◌∷◌, ◌≡◌, ◌≢◌, ◌≤◌, ◌⊎◌, ap, eq_iff, false, sym, ◌∙◌,
}
use reana_job_controller.Prelude.Int.{gt, is_zero, negsuc, pos, ℤ}
use reana_job_controller.Text.{concat}
use reana_job_controller.Python.{
  Result, bind_result, memory_limit_exceeded, ok, raised, wrong_memory_format,
}

-- the user id of the job's pods, from the requested one and WORKFLOW_RUNTIME_USER_UID
unfoldable pub set_user_id : ℤ → Option ℤ → ℤ
set_user_id default_uid none = default_uid
set_user_id default_uid (some uid) =
    if not (is_zero uid) && not (gt (pos 100) uid) then uid else default_uid

pub record Memory : Type 0 where
  -- validate_kubernetes_memory and kubernetes_memory_to_bytes
  pub validate : String → Bool
  pub to_bytes : String → Result ℕ
  -- REANA_KUBERNETES_JOBS_MAX_USER_MEMORY_LIMIT, `none` if it is not set or empty
  pub max_limit : Option String

wrong_format : String → String
wrong_format limit =
    concat ("The \"kubernetes_memory_limit\" provided " ∷ limit ∷ " has wrong format." ∷ [])

exceeds : String → String → String
exceeds limit max_limit = concat (
    "The \"kubernetes_memory_limit\" provided (" ∷ limit ∷ ") exceeds the limit (" ∷ max_limit
    ∷ ")." ∷ [])

module _ (memory : Memory) where
  check_maximum : String → Option String → Result (Option String)
  unfolding exceeds
  check_maximum limit none = ok (some limit)
  check_maximum limit (some max_limit) = bind_result (memory.to_bytes limit) (λ asked.
      bind_result (memory.to_bytes max_limit) (λ allowed.
        if ltb allowed asked
        then raised (memory_limit_exceeded (exceeds limit max_limit))
        else ok (some limit)))

  -- the limit that is set, from the requested one
  unfoldable pub set_memory_limit : Option String → Result (Option String)
  unfolding check_maximum wrong_format
  set_memory_limit none = ok none
  set_memory_limit (some limit) =
      if limit == ""
      then ok (some limit)
      else if memory.validate limit
      then check_maximum limit memory.max_limit
      else raised (wrong_memory_format (wrong_format limit))

-- No pod runs under a requested user id below 100: the user id is the requested one, which is 100
-- or more, or the default.
pub set_user_id_cases :
    (default_uid : ℤ) (asked : Option ℤ)
    → ((n : ℕ) × (asked ≡ some (pos n)) × (100 ≤ n) × (set_user_id default_uid asked ≡ pos n))
      ⊎ (set_user_id default_uid asked ≡ default_uid)
unfolding set_user_id
set_user_id_cases default_uid none = inr refl
set_user_id_cases default_uid (some (negsuc n)) = inr refl
set_user_id_cases default_uid (some (pos zero)) = inr refl
set_user_id_cases default_uid (some (pos (suc n))) = elim (Bool-cases (ltb (suc n) 100)) [
  | inl small ↦ inr (rw small refl)
  | inr large ↦ inl (suc n, refl, ground arith, rw large refl)
]

within_maximum :
    (limit max_limit : String) (asked allowed : ℕ)
    → (if ltb allowed asked
        then raised (memory_limit_exceeded (exceeds limit max_limit))
        else ok (some limit))
      ≡ ok (some limit)
    → asked ≤ allowed
within_maximum limit max_limit asked allowed e = elim (Bool-cases (ltb allowed asked)) [
  | inl above ↦ cc (rw above at e)
  | inr within ↦ ground arith
]

check_maximum-bounded :
    (memory : Memory) (limit max_limit : String) (allowed : ℕ) (r : Result ℕ)
    → memory.to_bytes max_limit ≡ ok allowed
    → bind_result r (λ asked. bind_result (memory.to_bytes max_limit) (λ most.
      if ltb most asked
      then raised (memory_limit_exceeded (exceeds limit max_limit))
      else ok (some limit)))
      ≡ ok (some limit)
    → (asked : ℕ) × (r ≡ ok asked) × (asked ≤ allowed)
check_maximum-bounded memory limit max_limit allowed (raised x) read e = cc e
check_maximum-bounded memory limit max_limit allowed (ok asked) read e =
    (asked, refl, within_maximum limit max_limit asked allowed (rw read at e))

-- A memory limit that is accepted when a maximum is configured has the right format, and is not
-- above the maximum, in bytes.
pub set_memory_limit-bounded :
    (memory : Memory) (limit max_limit : String) (allowed : ℕ)
    → memory.max_limit ≡ some max_limit
    → memory.to_bytes max_limit ≡ ok allowed
    → limit ≢ ""
    → set_memory_limit memory (some limit) ≡ ok (some limit)
    → (memory.validate limit ≡ true)
      × (asked : ℕ) × (memory.to_bytes limit ≡ ok asked)
      × (asked ≤ allowed)
unfolding set_memory_limit check_maximum
set_memory_limit-bounded memory limit max_limit allowed configured read nonempty accepted =
    let some_text : (limit == "") ≡ false = ground (arith, eq_iff limit "") in
    elim (Bool-cases (memory.validate limit)) [
      | inr wrong ↦ cc (rw (some_text, wrong) at accepted)
      | inl valid ↦
          let checked : check_maximum memory limit memory.max_limit ≡ ok (some limit) =
            rw (some_text, valid) at accepted in
          let (asked, sized, within) =
            check_maximum-bounded memory limit max_limit allowed (memory.to_bytes limit) read
              (sym (ap (check_maximum memory limit) configured) ∙ checked) in
          (valid, asked, sized, within)
    ]
