-- ===== src/Punch/Submission.antt =====
-- Compute4PUNCHJobManager.__init__, execute and get_outputs
-- (reana_job_controller/compute4punch_job_manager.py), under the hook of the base class (JobManager).
-- The service reana_db, the walk over the workspace and the encoders of the standard library are
-- fields of `Site`.
pub mod Description
pub mod Response
pub mod Lines
pub mod Sent
pub mod Tests
use reana_job_controller.Prelude.{
  Bool, List, Option, String, [], if◌then◌else◌, none, one_of, some, ◌==◌, ◌∷◌,
}
use reana_job_controller.Text.{concat, join_path, str}
use reana_job_controller.Text.Parts.{last_part, replace, strip}
use reana_job_controller.Dict.{Dict, lookup}
use reana_job_controller.Python.{
  Action, Exception, Result, attribute_error, file_not_found, for_each, gets, lift, ok, pure, raise,
  raised, try_except, try_finally, ◌>>=◌, ◌>>◌,
}
use reana_job_controller.Ssh.{
  Network, Options, State, close_sftp, exec_command, open_sftp, operate, put_file, remote_chdir,
  remote_mkdir, remote_stat, ssh_client,
}
use reana_job_controller.Transfer.{Entries, download_output_directory}
use reana_job_controller.Punch.Submission.Description.{Manager, Paths, job_description}
use reana_job_controller.Punch.Submission.Response.{submitted_id}

-- the environment of the service
pub record Site : Type 0 where
  -- the keyword arguments of SSHClient, from the configuration
  pub options : Options
  -- C4P_REANA_REL_WORKFLOW_PATH
  pub rel_workflow_path : String
  -- os.environ
  pub environ : Dict String
  -- base64.b64encode(cmd.encode("utf-8")).decode("utf-8") and shlex.quote
  pub b64encode : String → String
  pub quote : String → String
  -- workflow.get_full_workflow_name(), if the workflow is in reana_db
  pub full_workflow_name : Option String
  -- walk and is_directory of reana_commons.workspace, for the workspace of the workflow
  pub walk : Result (List String)
  pub is_directory : String → Bool

-- stdout.strip(), where stdout is None if the command failed
unfoldable pub stripped : Option String → Result String
stripped none = raised attribute_error
stripped (some stdout) = ok (strip stdout)

abbrev skipped_input_files : List String
skipped_input_files = ".job.ad" ∷ ".machine.ad" ∷ ".chirp.config" ∷ []

-- the list comprehension of _get_job_inputs
unfoldable pub without_skipped : List String → List String
without_skipped [] = []
without_skipped (x ∷ xs) =
    let rest = without_skipped xs in if one_of x skipped_input_files then rest else x ∷ rest

-- self.workflow.get_full_workflow_name()
workflow_name : Option String → Result String
workflow_name none = raised attribute_error
workflow_name (some name) = ok name

-- The commands that are sent to the login node.
unfoldable pub mkdir_command : String → String
mkdir_command path = concat ("mkdir -p " ∷ path ∷ [])

unfoldable pub description_command : Site → String → String → String
description_command site description path =
    concat ("cat <<< " ∷ site.quote description ∷ " > " ∷ path ∷ [])

encode_cmd : Site → String → String
encode_cmd site cmd = concat ("echo " ∷ site.b64encode cmd ∷ " | base64 -d | bash" ∷ [])

unfoldable pub script_command : Site → Manager → String → String
unfolding encode_cmd
script_command site self path =
    let cmd = replace self.cmd self.workflow_workspace "$_CONDOR_JOB_IWD" in
    concat (
      "cat <<< '"
      ∷ "#!/bin/bash\n"
      ∷ encode_cmd site cmd
      ∷ "' > "
      ∷ path
      ∷ " && chmod +x "
      ∷ path
      ∷ [])

unfoldable pub mytoken_command : Site → String
mytoken_command site =
    concat
      ("/usr/local/bin/reana_upload_mytoken <<< " ∷ str (lookup "HELMHOLTZ_TOP" site.environ) ∷ [])

unfoldable pub submit_command : String → String → String
submit_command workspace description_path =
    concat ("cd " ∷ workspace ∷ "&&condor_submit --verbose " ∷ last_part b'/' description_path ∷ [])

set_home : String → Action State (Unit {0})
set_home home s = (ok tt, record s { c4p_home_path = home })

set_workspace : String → Action State (Unit {0})
set_workspace workspace s = (ok tt, record s { c4p_workspace_path = workspace })

unfoldable pub rel_workspace_path : Site → Manager → String
rel_workspace_path site self = join_path site.rel_workflow_path self.workflow_uuid

-- `except FileNotFoundError`
on_missing : Action State (Unit {0}) → Exception → Action State (Unit {0})
on_missing make (file_not_found path) = make
on_missing make e = raise e

module _ (net : Network) where
  -- an exec_command whose result is not used
  abbrev pub send : Options → String → Action State (Unit {0})
  send client command = exec_command net client command >>= λ unused. pure tt

  -- the property c4p_home_path
  unfoldable pub home_path : Options → Action State String
  unfolding stripped set_home
  home_path client = do
    known ← gets (λ s. s.c4p_home_path)
    (if known == ""
        then (do
          stdout ← exec_command net client "pwd"
          home ← lift (stripped stdout)
          set_home home)
        else pure tt)
    gets (λ s. s.c4p_home_path)

  -- the property c4p_abs_workspace_path
  unfoldable pub abs_workspace_path : Site → Manager → Options → Action State String
  unfolding home_path set_workspace rel_workspace_path
  abs_workspace_path site self client = do
    known ← gets (λ s. s.c4p_workspace_path)
    (if known == ""
        then (do
          home ← home_path client
          set_workspace (join_path home (rel_workspace_path site self)))
        else pure tt)
    gets (λ s. s.c4p_workspace_path)

  -- __init__, as far as it calls anything: the connection and the paths of the script and of the
  -- description
  unfoldable pub construct : Site → Manager → Action State (Options × Paths)
  unfolding abs_workspace_path
  construct site self = do
    client ← ssh_client net site.options
    script ← abs_workspace_path site self client
    description ← abs_workspace_path site self client
    pure (
      client,
      record {
        job_execution_script_path = join_path script "run.sh";
        job_description_path = join_path description "submit.jdl";
      },
    )

  -- A directory that cannot be made is passed over: `continue` in the `finally` block drops the
  -- exception.
  upload_input : Site → Manager → Options → String → Action State (Unit {0})
  unfolding on_missing abs_workspace_path
  upload_input site self client job_input =
      if site.is_directory job_input
      then try_except
          (try_except (operate net (remote_stat job_input))
            (on_missing (operate net (remote_mkdir job_input))))
          (λ e. pure tt)
      else (do
        workspace ← abs_workspace_path site self client
        operate net (
            put_file (join_path self.workflow_workspace job_input) (join_path workspace job_input)))

  unfoldable pub upload_job_inputs :
      Site → Manager → Options → List String → Action State (Unit {0})
  unfolding upload_input
  upload_job_inputs site self client job_inputs = do
    operate net open_sftp
    operate net (remote_chdir (rel_workspace_path site self))
    try_finally (for_each job_inputs (upload_input site self client)) (operate net close_sftp)

  create_workspace_environment : Site → Manager → Options → Action State (Unit {0})
  create_workspace_environment site self client = do
    workspace ← abs_workspace_path site self client
    send client (mkdir_command workspace)
    again ← abs_workspace_path site self client
    send client (mkdir_command (join_path again "logs"))

  create_job_description : Site → Manager → Options → Paths → List String → Action State (Unit {0})
  unfolding workflow_name
  create_job_description site self client paths job_inputs = do
    name ← lift (workflow_name site.full_workflow_name)
    send client (
        description_command site
          (job_description self paths.job_execution_script_path job_inputs name)
          paths.job_description_path)

  -- what comes before the submission
  unfoldable pub prepare : Site → Manager → Options × Paths → Action State (Unit {0})
  unfolding create_workspace_environment create_job_description upload_job_inputs
  prepare site self (client, paths) = do
    create_workspace_environment site self client
    send client (script_command site self paths.job_execution_script_path)
    found ← lift site.walk
    let job_inputs = without_skipped found
    create_job_description site self client paths job_inputs
    upload_job_inputs site self client job_inputs
    send client (mytoken_command site)

  unfoldable pub run_submit : Site → Manager → Options × Paths → Action State String
  unfolding abs_workspace_path submit_command
  run_submit site self (client, paths) = do
    workspace ← abs_workspace_path site self client
    response ← exec_command net client (submit_command workspace paths.job_description_path)
    lift (submitted_id response)

  unfoldable pub execute : Site → Manager → Options × Paths → Action State String
  unfolding prepare run_submit
  execute site self made = prepare site self made >> run_submit site self made

  -- get_outputs, for a tree on the login node
  unfoldable pub get_outputs : String → String → Entries → Action State (Unit {0})
  get_outputs src dest items = do
    operate net open_sftp
    operate net (remote_chdir src)
    try_finally (download_output_directory net src dest items) (operate net close_sftp)
