-- ===== src/Punch/Submission/Sent.antt =====
-- Proofs on Compute4PUNCHJobManager.execute (reana_job_controller/compute4punch_job_manager.py): the
-- commands that the login node gets, and the answer.
use reana_job_controller.Prelude.{List, String, [], false, ◌==◌, ◌∷◌, ◌≡◌}
use reana_job_controller.Text.{join_path}
use reana_job_controller.Text.Parts.{}
use reana_job_controller.Dict.{}
use reana_job_controller.Python.{◌>>=◌, ◌>>=◌, Action}
use reana_job_controller.Ssh.{Network, Options, State}
use reana_job_controller.Ssh.Laws.{}
use reana_job_controller.Ssh.Effects.{Does, IsReliable, sent}
use reana_job_controller.Ssh.Answers.{Answers}
use reana_job_controller.Punch.Submission.{
  Site, description_command, mkdir_command, mytoken_command, script_command, without_skipped,
}
use reana_job_controller.Punch.Submission.Description.{Manager, Paths, job_description}

-- the class attribute is set
abbrev IsIn : String → State → Type 0
IsIn workspace s = s.c4p_workspace_path ≡ workspace

-- the commands before the submission
abbrev pub preparations : Site → Manager → Paths → String → List String → String → List String
preparations site self paths workspace found name =
    let description =
      job_description self paths.job_execution_script_path (without_skipped found) name in
    mkdir_command workspace
    ∷ mkdir_command (join_path workspace "logs")
    ∷ script_command site self paths.job_execution_script_path
    ∷ description_command site description paths.job_description_path
    ∷ mytoken_command site
    ∷ []

module _ (net : Network) (site : Site) (self : Manager) (client : Options) (paths : Paths)
    (workspace : String) (reliable : IsReliable net client)
    (path_set : (workspace == "") ≡ false) where
  abbrev Sends : Action State (Unit {0}) → List String → Type 0
  Sends m commands = Does sent (IsIn workspace) (IsIn workspace) m commands
