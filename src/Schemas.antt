-- ===== src/Schemas.antt =====
-- set_kubernetes_job_timeout of reana_job_controller/schemas.py, the hook that runs on the data of
-- a job request before marshmallow loads it. The data are a dictionary of JSON values; Python's
-- int() and str() on them, and the two limits of the configuration, are parameters.
pub mod Timeout
pub mod Tests
use reana_job_controller.Prelude.{Option, String, [], if◌then◌else◌, none, some, ◌∷◌}
use reana_job_controller.Prelude.Int.{gt, is_positive, ℤ}
use reana_job_controller.Text.{concat}
use reana_job_controller.Dict.{Dict, insert, lookup}
use reana_job_controller.Python.{
  Result, bind_result, key_error, ok, raised, type_error, validation_error, value_error,
}

pub record Settings (Value : Type 0) : Type 0 where
  -- int(value), and an integer as a value
  pub to_int : Value → Result ℤ
  pub of_int : ℤ → Value
  -- str(value)
  pub show : Value → String
  pub timeout_limit : Value
  pub max_user_timeout_limit : Value

abbrev pub key : String
key = "kubernetes_job_timeout"

-- `except (ValueError, TypeError)`: other exceptions pass
abbrev pub or_invalid : String → Result ℤ → Result ℤ
or_invalid message (ok n) = ok n
or_invalid message (raised value_error) = raised (validation_error message)
or_invalid message (raised type_error) = raised (validation_error message)
or_invalid message (raised e) = raised e

module _ {Value : Type 0} (settings : Settings Value) where
  default_message : String
  default_message = concat (
      "Default value of kubernetes_job_timeout is not an integer. Provided value is '"
      ∷ settings.show settings.timeout_limit
      ∷ "'. Please contact the administrator."
      ∷ [])

  not_integer : Value → String
  not_integer value = concat (
      "kubernetes_job_timeout must be an integer. Provided value is '"
      ∷ settings.show value
      ∷ "'."
      ∷ [])

  not_positive : ℤ → String
  not_positive n = concat (
      "kubernetes_job_timeout must be greater than 0.Provided value is "
      ∷ settings.show (settings.of_int n)
      ∷ "."
      ∷ [])

  max_message : String
  max_message = concat (
      "Max value for kubernetes_job_timeout is not an integer. Provided value is '"
      ∷ settings.show settings.max_user_timeout_limit
      ∷ "'. Please contact the administrator."
      ∷ [])

  too_long : ℤ → ℤ → String
  too_long n max_value = concat (
      "kubernetes_job_timeout exceeds maximum allowed value of "
      ∷ settings.show (settings.of_int max_value)
      ∷ " seconds. Provided value is "
      ∷ settings.show (settings.of_int n)
      ∷ " seconds."
      ∷ [])

  -- the lines under `if "kubernetes_job_timeout" not in in_data`
  with_default : Option Value → Dict Value → Result (Dict Value)
  unfolding default_message
  with_default (some value) in_data = ok in_data
  with_default none in_data =
      bind_result (or_invalid default_message (settings.to_int settings.timeout_limit))
        (λ n. ok (insert key (settings.of_int n) in_data))

  check_limit : ℤ → Dict Value → Result (Dict Value)
  unfolding max_message too_long
  check_limit job_timeout in_data =
      bind_result (or_invalid max_message (settings.to_int settings.max_user_timeout_limit))
        (λ max_value.
          if gt job_timeout max_value
          then raised (validation_error (too_long job_timeout max_value))
          else ok (insert key (settings.of_int job_timeout) in_data))

  check_positive : ℤ → Dict Value → Result (Dict Value)
  unfolding not_positive check_limit
  check_positive job_timeout in_data =
      if is_positive job_timeout
      then check_limit job_timeout in_data
      else raised (validation_error (not_positive job_timeout))

  -- the lines after the default is set; the key is there then
  check_timeout : Option Value → Dict Value → Result (Dict Value)
  unfolding not_integer check_positive
  check_timeout none in_data = raised (key_error key)
  check_timeout (some value) in_data =
      bind_result (or_invalid (not_integer value) (settings.to_int value))
        (λ job_timeout. check_positive job_timeout in_data)

  unfoldable pub set_kubernetes_job_timeout : Dict Value → Result (Dict Value)
  unfolding with_default check_timeout
  set_kubernetes_job_timeout in_data =
      bind_result (with_default (lookup key in_data) in_data)
        (λ filled. check_timeout (lookup key filled) filled)
