-- ===== src/Ssh/Token/Trust.antt =====
-- Proofs on the access token of MotleyCueTokenAuth (reana_job_controller/utils.py).
use mathlib.Core.Path.{subst}
use reana_job_controller.Prelude.{
  String, some, true, ℕ, ◌≡◌, ◌≢◌, ◌≤◌, Bool-cases, Option, arith, eq_iff, false, inl, inr, refl,
  suc, ◌==◌, ◌⊎◌, ap, ltb, not, sym, ◌*◌, ◌+◌, ◌∙◌,
}
use reana_job_controller.Python.{ok, Exception, Result, raised, continue, gets, ok_inj}
use reana_job_controller.Ssh.{is_set}
use reana_job_controller.Ssh.Token.{
  Auth, Service, is_access_token_valid, access_token, has_token, keep_expiry, keep_token,
  refresh_access_token,
}

-- While the expiry date counts as valid, it is the one of the token.
abbrev pub IsTrusted : Service → ℕ → Auth → Type 0
IsTrusted service now auth =
    is_access_token_valid now auth ≡ true
    → (token : String) × (auth.access_token ≡ some token)
      × (service.expiry_date token ≡ ok auth.access_token_expires_on)

-- The decoder raises for the empty text.
abbrev pub RejectsEmpty : Service → Type 0
RejectsEmpty service = (exp : ℕ) → service.expiry_date "" ≢ ok exp

valid-later :
    (now later : ℕ) (auth : Auth)
    → now ≤ later
    → is_access_token_valid later auth ≡ true
    → is_access_token_valid now auth ≡ true
unfolding is_access_token_valid
valid-later now later auth h e = ground arith

pub IsTrusted-later :
    (service : Service) (now later : ℕ) (auth : Auth)
    → now ≤ later
    → IsTrusted service now auth
    → IsTrusted service later auth
IsTrusted-later service now later auth h trusted valid =
    trusted (valid-later now later auth h valid)

Result-cases :
    {A : Type 0} (r : Result A) → ((a : A) × (r ≡ ok a)) ⊎ ((e : Exception) × (r ≡ raised e))
Result-cases (ok a) = inl (a, refl)
Result-cases (raised e) = inr (e, refl)

-- what a use of the token promises
abbrev pub Served : Service → ℕ → Auth → Result (Option String) × Auth → Type 0
Served service now auth (answer, after) =
    IsTrusted service now after
    × ((answered : Option String)
        → answer ≡ ok answered
        → (token : String) × (answered ≡ some token)
          × (service.expiry_date token ≡ ok after.access_token_expires_on)
          × ((is_access_token_valid now auth ≡ true) ⊎ (after.refreshes ≡ suc auth.refreshes)))

module _ (service : Service) (now : ℕ) (auth : Auth) where
  access_token-valid :
      RejectsEmpty service
      → IsTrusted service now auth
      → is_access_token_valid now auth ≡ true
      → access_token service now auth ≡ (ok auth.access_token, auth)
  unfolding access_token has_token
  access_token-valid rejects trusted valid =
      let (token, held, dated) = trusted valid in
      let some_token : (token == "") ≡ false = elim (Bool-cases (token == "")) [
        | inl same ↦
            let p : token ≡ "" = (eq_iff token "").0 same in
            absurd (rejects auth.access_token_expires_on (rw p at dated))
        | inr other ↦ other
      ] in
      let has : has_token auth ≡ true = ap is_set held ∙ ap not some_token in rw (has, valid) refl

  -- the token is kept, then its date
  abbrev with_token : String → Auth
  with_token token = record auth { access_token = some token; refreshes = suc auth.refreshes }

  access_token-invalid :
      is_access_token_valid now auth ≡ false
      → access_token service now auth
        ≡ continue
            (refresh_access_token service auth).0
            (λ unused. gets (λ a. a.access_token))
            (refresh_access_token service auth).1
  unfolding access_token
  access_token-invalid invalid = elim (Bool-cases (has_token auth)) [
    | inl has ↦ rw (has, invalid) refl
    | inr none_yet ↦ rw none_yet refl
  ]

  untrusted :
      (after : Auth)
      → is_access_token_valid now auth ≡ false
      → after.access_token_expires_on ≡ auth.access_token_expires_on
      → IsTrusted service now after
  unfolding is_access_token_valid
  untrusted after invalid same valid =
      absurd (cc (ap (λ exp. ltb (now + 100 * 1000000) (exp * 1000000)) same))

  refresh-Served :
      is_access_token_valid now auth ≡ false
      → Served service now auth (
          continue
            (refresh_access_token service auth).0
            (λ unused. gets (λ a. a.access_token))
            (refresh_access_token service auth).1)
  unfolding refresh_access_token keep_token keep_expiry
  refresh-Served invalid = elim (Result-cases (service.new_token auth.refreshes)) [
    | inr (e, no_answer) ↦ rw no_answer (untrusted auth invalid refl, λ a failed. cc failed)
    | inl (token, given) ↦ elim (Result-cases (service.expiry_date token)) [
      | inr (e, undated) ↦
          rw (given, undated) (untrusted (with_token token) invalid refl, λ a failed. cc failed)
      | inl (exp, dated) ↦
          rw (given, dated)
            (
              (λ valid. (token, refl, dated)),
              (λ a answered. (token, sym (ok_inj answered), dated, inr refl)),
            )
    ]
  ]

-- If the expiry date of the token is right while it counts as valid, it is so after each use of the
-- property `access_token`, whatever the token service and the decoder answer; and a token that is
-- given carries the date that is kept, and was valid for more than 100 s or is new. The decoder
-- rejects the empty text.
pub access_token-Served :
    (service : Service) (now : ℕ) (auth : Auth)
    → RejectsEmpty service
    → IsTrusted service now auth
    → Served service now auth (access_token service now auth)
access_token-Served service now auth rejects trusted =
    elim (Bool-cases (is_access_token_valid now auth)) [
      | inl valid ↦
          let (token, held, dated) = trusted valid in
          subst (Served service now auth)
            (sym (access_token-valid service now auth rejects trusted valid))
            (trusted, λ a answered. (token, sym (ok_inj answered) ∙ held, dated, inl valid))
      | inr invalid ↦
          subst (Served service now auth) (sym (access_token-invalid service now auth invalid))
            (refresh-Served service now auth invalid)
    ]
