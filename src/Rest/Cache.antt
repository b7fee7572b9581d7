-- ===== src/Rest/Cache.antt =====
-- check_if_cached and get_cached_user_secrets of reana_job_controller/rest.py, and job_is_cached of
-- reana_job_controller/job_db.py. The hashes of reana_commons, json.loads and the store of the
-- secrets are parameters; the table of reana_db is a list of rows.
use reana_job_controller.Prelude.{
  All, Bool, Bool-cases, List, Option, String, [], arith, eq_iff, false, if◌then◌else◌, inl, inr,
  none, refl, some, ◌&&◌, ◌==◌, ◌∷◌, ◌≡◌, ◌⊎◌,
}
use reana_job_controller.Dict.{Dict, lookup}
use reana_job_controller.Python.{Action, Result, bind_result, key_error, ok, raised}

-- JobCache
pub record JobCache : Type 0 where
  pub job_id : String
  pub parameters : String
  pub workspace_hash : String
  pub result_path : String

pub record Hashes (Json : Type 0) : Type 0 where
  -- json.loads
  pub loads : String → Result Json
  pub calculate_job_input_hash : Json → Json → Result String
  -- calculate_hash_of_dir, with none for -1
  pub calculate_hash_of_dir : String → Result (Option String)

pub data CacheAnswer : Type 0 where
  -- {"cached": True, "result_path": ..., "job_id": ...}
  cached : String → String → CacheAnswer
  -- {"cached": False, "result_path": None}
  not_cached : CacheAnswer

abbrev pub is_row : String → String → JobCache → Bool
is_row input_hash workspace_hash row =
    row.parameters == input_hash && row.workspace_hash == workspace_hash

-- filter_by(parameters=..., workspace_hash=...).first()
unfoldable pub first_row : String → String → List JobCache → Option JobCache
first_row input_hash workspace_hash [] = none
first_row input_hash workspace_hash (row ∷ rows) =
    let later = first_row input_hash workspace_hash rows in
    if is_row input_hash workspace_hash row then some row else later

-- the result for a directory that could be hashed or not
find_cached : List JobCache → String → Option String → Option JobCache
find_cached rows input_hash none = none
find_cached rows input_hash (some workspace_hash) = first_row input_hash workspace_hash rows

cache_answer : Option JobCache → CacheAnswer
cache_answer none = not_cached
cache_answer (some row) = cached row.result_path row.job_id

-- request.args[name]: Flask answers a missing argument with 400, here KeyError.
abbrev argument : String → Dict String → Result String
argument name args = elim (lookup name args) [
  | none ↦ raised (key_error name)
  | some value ↦ ok value
]

module _ {Json : Type 0} (hashes : Hashes Json) where
  unfoldable pub job_is_cached : List JobCache → Json → Json → String → Result (Option JobCache)
  unfolding find_cached
  job_is_cached rows job_spec workflow_json workflow_workspace =
      bind_result (hashes.calculate_job_input_hash job_spec workflow_json) (λ input_hash.
        bind_result (hashes.calculate_hash_of_dir workflow_workspace)
          (λ workspace_hash. ok (find_cached rows input_hash workspace_hash)))

  -- GET /job_cache, whose status is 200 if nothing is raised
  unfoldable pub check_if_cached : List JobCache → Dict String → Result CacheAnswer
  unfolding job_is_cached cache_answer
  check_if_cached rows args = bind_result (argument "job_spec" args) (λ spec_text.
      bind_result (hashes.loads spec_text) (λ job_spec.
        bind_result (argument "workflow_json" args) (λ workflow_text.
          bind_result (hashes.loads workflow_text) (λ workflow_json.
            bind_result (argument "workflow_workspace" args) (λ workspace.
              bind_result (job_is_cached rows job_spec workflow_json workspace)
                (λ found. ok (cache_answer found)))))))

-- _SECRETS_CACHE, with what fetching the secrets gives
get_cached_user_secrets : {Secrets : Type 0} → Result Secrets → Action (Option Secrets) Secrets
get_cached_user_secrets fetch (some secrets) = (ok secrets, some secrets)
get_cached_user_secrets (ok secrets) none = (ok secrets, some secrets)
get_cached_user_secrets (raised e) none = (raised e, none)

-- The row that is found has both hashes; if none is found, no row has.
first_row_cases :
    (input_hash workspace_hash : String) (rows : List JobCache)
    → ((row : JobCache) × (first_row input_hash workspace_hash rows ≡ some row)
        × (row.parameters ≡ input_hash)
        × (row.workspace_hash ≡ workspace_hash))
      ⊎ (first_row input_hash workspace_hash rows ≡ none)
        × All (λ row. is_row input_hash workspace_hash row ≡ false) rows
unfolding first_row
first_row_cases input_hash workspace_hash [] = inr (refl, tt)
first_row_cases input_hash workspace_hash (row ∷ rows) =
    elim (Bool-cases (is_row input_hash workspace_hash row)) [
      | inl here ↦ inl (
        row,
        rw here refl,
        ground (arith, eq_iff row.parameters input_hash),
        ground (arith, eq_iff row.workspace_hash workspace_hash),
      )
      | inr other ↦ elim (first_row_cases input_hash workspace_hash rows) [
        | inl (found, e, same, hashed) ↦ inl (found, rw other e, same, hashed)
        | inr (e, all) ↦ inr (rw other e, (other, all))
      ]
    ]
