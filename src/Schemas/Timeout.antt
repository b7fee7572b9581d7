-- ===== src/Schemas/Timeout.antt =====
-- Proofs on set_kubernetes_job_timeout (reana_job_controller/schemas.py).
use reana_job_controller.Prelude.{
  Bool-cases, Option, String, ap, false, inl, inr, none, refl, some, true, ◌∙◌, ◌≡◌, ◌≢◌,
  if◌then◌else◌, sym,
}
use reana_job_controller.Prelude.Int.{gt, is_positive, ℤ}
use reana_job_controller.Dict.{Dict, insert, lookup}
use reana_job_controller.Dict.Laws.{insert-same, lookup-insert_ne, lookup-insert_self}
use reana_job_controller.Python.{
  Result, ok, ok_inj, raised, type_error, value_error, validation_error, bind_result-ok,
}
use reana_job_controller.Schemas.{
  Settings, check_limit, check_positive, check_timeout, key, or_invalid, set_kubernetes_job_timeout,
  with_default, max_message, not_integer, too_long, default_message,
}

or_invalid-ok : (message : String) (r : Result ℤ) (n : ℤ) → or_invalid message r ≡ ok n → r ≡ ok n
or_invalid-ok message (ok m) n e = e
or_invalid-ok message (raised value_error) n e = cc e
or_invalid-ok message (raised type_error) n e = cc e
or_invalid-ok message (raised x) n e = cc e

module _ {Value : Type 0} (settings : Settings Value) where
  -- What the hook promises of the data that it returns.
  pub record Accepted (before after : Dict Value) : Type 0 where
    pub timeout : ℤ
    pub max_value : ℤ
    pub limit : settings.to_int settings.max_user_timeout_limit ≡ ok max_value
    pub positive : is_positive timeout ≡ true
    pub within : gt timeout max_value ≡ false
    pub stored : lookup key after ≡ some (settings.of_int timeout)
    pub others : (k : String) → key ≢ k → lookup k after ≡ lookup k before

  check_limit-Accepted :
      (n : ℤ) (before after : Dict Value)
      → is_positive n ≡ true
      → check_limit settings n before ≡ ok after
      → Accepted before after
  unfolding check_limit
  check_limit-Accepted n before after positive e =
      let (max_value, limit, checked) =
        bind_result-ok
          (or_invalid (max_message settings) (settings.to_int settings.max_user_timeout_limit))
          (λ m.
            if gt n m
            then raised (validation_error (too_long settings n m))
            else ok (insert key (settings.of_int n) before))
          after e in
      elim (Bool-cases (gt n max_value)) [
        | inl long ↦ cc (rw long at checked)
        | inr within ↦
            let out : insert key (settings.of_int n) before ≡ after =
              ok_inj (rw within at checked) in
            record {
              timeout = n;
              max_value = max_value;
              limit = or_invalid-ok _ _ max_value limit;
              positive = positive;
              within = within;
              stored = rw (← out) (lookup-insert_self key (settings.of_int n) before);
              others = λ k h. rw (← out) (lookup-insert_ne key k (settings.of_int n) before h);
            }
      ]

  check_timeout-Accepted :
      (value : Option Value) (before after : Dict Value)
      → check_timeout settings value before ≡ ok after
      → Accepted before after
  unfolding check_timeout check_positive
  check_timeout-Accepted none before after e = cc e
  check_timeout-Accepted (some value) before after e =
      let (n, converted, checked) =
        bind_result-ok (or_invalid (not_integer settings value) (settings.to_int value))
          (λ m. check_positive settings m before) after e in
      elim (Bool-cases (is_positive n)) [
        | inl positive ↦ check_limit-Accepted n before after positive (rw positive at checked)
        | inr other ↦ cc (rw other at checked)
      ]

  with_default-others :
      (value : Option Value) (before filled : Dict Value)
      → with_default settings value before ≡ ok filled
      → (k : String) → key ≢ k
      → lookup k filled ≡ lookup k before
  unfolding with_default
  with_default-others (some value) before filled e k h = ap (lookup k) (sym (ok_inj e))
  with_default-others none before filled e k h =
      let (n, converted, out) =
        bind_result-ok
          (or_invalid (default_message settings) (settings.to_int settings.timeout_limit))
          (λ m. ok (insert key (settings.of_int m) before)) filled e in
      let same : insert key (settings.of_int n) before ≡ filled = ok_inj out in
      rw (← same) (lookup-insert_ne key k (settings.of_int n) before h)

  -- Data that the hook returns hold a timeout that is a positive integer and not above the limit
  -- of the configuration, and every other field is as in the request.
  pub set_kubernetes_job_timeout-Accepted :
      (in_data out : Dict Value)
      → set_kubernetes_job_timeout settings in_data ≡ ok out
      → Accepted in_data out
  unfolding set_kubernetes_job_timeout
  set_kubernetes_job_timeout-Accepted in_data out e =
      let (filled, defaulted, checked) = bind_result-ok _ _ out e in
      let a = check_timeout-Accepted (lookup key filled) filled out checked in
      record {
        timeout = a.timeout;
        max_value = a.max_value;
        limit = a.limit;
        positive = a.positive;
        within = a.within;
        stored = a.stored;
        others = λ k h.
            a.others k h ∙ with_default-others (lookup key in_data) in_data filled defaulted k h;
      }

  -- An integer from 1 to the limit is accepted, and the data are returned with it in the field.
  pub set_kubernetes_job_timeout-in_range :
      (in_data : Dict Value) (value : Value) (timeout max_value : ℤ)
      → lookup key in_data ≡ some value
      → settings.to_int value ≡ ok timeout
      → settings.to_int settings.max_user_timeout_limit ≡ ok max_value
      → is_positive timeout ≡ true
      → gt timeout max_value ≡ false
      → set_kubernetes_job_timeout settings in_data
        ≡ ok (insert key (settings.of_int timeout) in_data)
  unfolding set_kubernetes_job_timeout with_default check_timeout check_positive check_limit
  set_kubernetes_job_timeout-in_range in_data value n max_value given converted limit positive
        within =
      rw (given, given, converted, positive, limit, within) refl

  -- The hook is idempotent: the data that it returns pass it unchanged. int() of an integer is the
  -- integer.
  pub set_kubernetes_job_timeout_idem :
      (in_data out : Dict Value)
      → ((n : ℤ) → settings.to_int (settings.of_int n) ≡ ok n)
      → set_kubernetes_job_timeout settings in_data ≡ ok out
      → set_kubernetes_job_timeout settings out ≡ ok out
  set_kubernetes_job_timeout_idem in_data out integers e =
      let a = set_kubernetes_job_timeout-Accepted in_data out e in
      set_kubernetes_job_timeout-in_range out (settings.of_int a.timeout) a.timeout a.max_value
        a.stored (integers a.timeout) a.limit a.positive a.within
      ∙ ap (λ d. ok d) (insert-same key (settings.of_int a.timeout) out a.stored)
