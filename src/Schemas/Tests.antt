-- ===== src/Schemas/Tests.antt =====
-- The hook of the request schema on small inputs.
use reana_job_controller.Prelude.{String, [], refl, ◌∷◌, ◌≡◌}
use reana_job_controller.Prelude.Int.{pos, ℤ}
use reana_job_controller.Dict.{Dict, insert, lookup}
use reana_job_controller.Python.{Result, ok, raised, value_error}
use reana_job_controller.Schemas.{Settings, key, set_kubernetes_job_timeout}
use reana_job_controller.Schemas.Timeout.{
  Accepted, set_kubernetes_job_timeout-Accepted, set_kubernetes_job_timeout-in_range,
}

data Json : Type 0 where
  number : ℤ → Json
  word : String → Json

abbrev int_of : Json → Result ℤ
int_of (number n) = ok n
int_of (word w) = raised value_error

abbrev settings : Settings Json
settings = record {
  to_int = int_of;
  of_int = λ n. number n;
  show = λ v. "a value";
  timeout_limit = number (pos 100);
  max_user_timeout_limit = number (pos 500);
}

abbrev request : Dict Json
request = ("cmd", word "date") ∷ (key, number (pos 60)) ∷ []

accepted : set_kubernetes_job_timeout settings request ≡ ok request
unfolding set_kubernetes_job_timeout lookup insert
accepted = refl

defaulted :
    set_kubernetes_job_timeout settings (("cmd", word "date") ∷ [])
    ≡ ok (("cmd", word "date") ∷ (key, number (pos 100)) ∷ [])
unfolding set_kubernetes_job_timeout lookup insert
defaulted = refl

set_kubernetes_job_timeout-Accepted_example : Accepted settings request request
set_kubernetes_job_timeout-Accepted_example =
    set_kubernetes_job_timeout-Accepted settings request request accepted

set_kubernetes_job_timeout-in_range_example :
    set_kubernetes_job_timeout settings request ≡ ok (insert key (number (pos 60)) request)
set_kubernetes_job_timeout-in_range_example =
    set_kubernetes_job_timeout-in_range settings request (number (pos 60)) (pos 60) (pos 500)
      (unfold lookup in refl) refl refl refl refl
