-- ===== src/Python.antt =====
-- What the modelled code uses of Python: exceptions as values, and actions that mutate a state and
-- may raise. What was written before a raise stays written, so the state comes back with the error.
use reana_job_controller.Prelude.{String, List, [], ◌∷◌, ◌≡◌, refl}

pub data Exception : Type 0 where
  key_error : String → Exception
  -- errors.py, raised with the reason of the Kubernetes API
  submission_error : String → Exception
  -- kubernetes.client.rest.ApiException, with its reason
  api_exception : String → Exception
  -- sqlalchemy.exc.OperationalError
  operational_error : String → Exception
  -- reana_commons.errors
  memory_limit_exceeded wrong_memory_format : String → Exception
  -- marshmallow.ValidationError
  validation_error : String → Exception
  -- FileNotFoundError, with its text
  file_not_found : String → Exception
  not_implemented_error : Exception
  attribute_error type_error value_error assertion_error runtime_error : Exception
  unbound_local_error : Exception
  -- subprocess.CalledProcessError, by its text
  called_process_error : String → Exception
  -- SystemExit of sys.exit(1), in initialize_krb5_token. No `except Exception` catches it; the only
  -- one around a call of that function is the one in create_job, which lets it pass.
  system_exit : Exception
  -- any other exception, by its text
  other_error : String → Exception

pub data Result {ℓ} (A : Type ℓ) : Type ℓ where
  ok : A → Result A
  raised : Exception → Result A

pub ok_inj {ℓ} : {A : Type ℓ} {a b : A} → ok a ≡ ok b → a ≡ b
ok_inj e = cc

module _ {ℓ κ} {A : Type ℓ} {B : Type κ} where
  abbrev pub bind_result : Result A → (A → Result B) → Result B
  bind_result (ok a) f = f a
  bind_result (raised e) f = raised e

  pub bind_result-ok :
      (r : Result A) (f : A → Result B) (b : B)
      → bind_result r f ≡ ok b
      → (a : A) × (r ≡ ok a) × (f a ≡ ok b)
  bind_result-ok (ok a) f b e = (a, refl, e)
  bind_result-ok (raised x) f b e = cc e

abbrev pub Action {ℓ} : Type ℓ → Type ℓ → Type ℓ
Action S A = S → Result A × S

module _ {ℓ} {S A : Type ℓ} where
  abbrev pub pure : A → Action S A
  pure a s = (ok a, s)

  abbrev pub raise : Exception → Action S A
  raise e s = (raised e, s)

  abbrev pub lift : Result A → Action S A
  lift r s = (r, s)

  abbrev pub gets : (S → A) → Action S A
  gets f s = (ok (f s), s)

module _ {ℓ} {S A B : Type ℓ} where
  abbrev pub continue : Result A → (A → Action S B) → Action S B
  continue (raised e) next s = (raised e, s)
  continue (ok a) next s = next a s

  infixl 10 ◌>>=◌ ◌>>◌
  abbrev pub ◌>>=◌ : Action S A → (A → Action S B) → Action S B
  ◌>>=◌ action next before = let (outcome, after) = action before in continue outcome next after

  abbrev pub ◌>>◌ : Action S A → Action S B → Action S B
  first >> second = first >>= λ unused. second

module _ {ℓ} {S A : Type ℓ} where
  abbrev pub handle : Result A → (Exception → Action S A) → Action S A
  handle (ok a) h s = (ok a, s)
  handle (raised e) h s = h e s

  -- try: m  except Exception as e: h e
  abbrev pub try_except : Action S A → (Exception → Action S A) → Action S A
  try_except m h s = let (r, s') = m s in handle r h s'

  -- try: m  finally: last. An exception of `last` replaces that of `m`.
  abbrev pub try_finally : Action S A → Action S Unit → Action S A
  try_finally m last s =
      let (r, s') = m s in
      let (end, s'') = last s' in (elim end [ ok unused ↦ r | raised e ↦ raised e ], s'')

-- for x in xs: body x
module _ {ℓ} {S : Type 0} {A : Type ℓ} where
  unfoldable pub for_each : List A → (A → Action S Unit) → Action S Unit
  for_each [] body s = (ok tt, s)
  for_each (x ∷ xs) body s = let (r, s') = body x s in continue r (λ _. for_each xs body) s'
