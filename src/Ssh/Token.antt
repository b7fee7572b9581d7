-- ===== src/Ssh/Token.antt =====
-- MotleyCueTokenAuth (reana_job_controller/utils.py): the access token of Compute4PUNCH, with its
-- refresh. The token service, the decoder of tokens and the clock are parameters.
pub mod Trust
use reana_job_controller.Prelude.{
  Bool, List, Option, String, [], if◌then◌else◌, ltb, none, some, suc, ℕ, ◌&&◌, ◌*◌, ◌+◌, ◌∷◌,
}
use reana_job_controller.Text.{}
use reana_job_controller.Ssh.{is_set}
use reana_job_controller.Python.{Action, Result, gets, lift, ok, pure, ◌>>=◌, ◌>>◌}

-- Times are in microseconds, but an expiry date is in seconds.
pub record Auth : Type 0 where
  pub access_token : Option String
  pub access_token_expires_on : ℕ
  -- how often a token was asked for
  pub refreshes : ℕ

pub record Service : Type 0 where
  -- get_access_token_from_jwt_mytoken, the n-th time
  pub new_token : ℕ → Result String
  -- jwt.decode(token)["exp"]
  pub expiry_date : String → Result ℕ

-- `self._access_token` and `self._access_token_expires_on` of __init__
abbrev pub no_token : Auth
no_token = record { access_token = none; access_token_expires_on = 0; refreshes = 0 }

-- "token should be at least valid for 100 s"
unfoldable pub is_access_token_valid : ℕ → Auth → Bool
is_access_token_valid now auth = ltb (now + 100 * 1000000) (auth.access_token_expires_on * 1000000)

has_token : Auth → Bool
has_token auth = is_set auth.access_token

module _ (service : Service) where
  keep_token : String → Action Auth (Unit {0})
  keep_token token auth =
      (ok tt, record auth { access_token = some token; refreshes = suc auth.refreshes })

  keep_expiry : ℕ → Action Auth (Unit {0})
  keep_expiry exp auth = (ok tt, record auth { access_token_expires_on = exp })

  -- The token is kept before its expiry date is decoded.
  unfoldable pub refresh_access_token : Action Auth (Unit {0})
  unfolding keep_token keep_expiry
  refresh_access_token = do
    n ← gets (λ auth. auth.refreshes)
    token ← lift (service.new_token n)
    keep_token token
    exp ← lift (service.expiry_date token)
    keep_expiry exp

  -- the property `access_token`
  unfoldable pub access_token : ℕ → Action Auth (Option String)
  unfolding refresh_access_token has_token is_access_token_valid
  access_token now = do
    valid ← gets (λ auth. has_token auth && is_access_token_valid now auth)
    (if valid then pure tt else refresh_access_token)
    gets (λ auth. auth.access_token)

  -- The prompts of the server, each with `echo` and whether "Access Token" is in it. The token is
  -- asked for again at each of them.
  unfoldable pub motley_cue_auth_handler :
      ℕ → List (Bool × Bool) → Action Auth (List (Option String))
  motley_cue_auth_handler now [] = pure []
  motley_cue_auth_handler now ((echo, has_access_token) ∷ prompts) = do
    answer ← if echo && has_access_token then access_token now else pure (some "")
    answers ← motley_cue_auth_handler now prompts
    pure (answer ∷ answers)
