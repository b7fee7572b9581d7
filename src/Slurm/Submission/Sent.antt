-- ===== src/Slurm/Submission/Sent.antt =====
-- Proofs on SlurmJobManagerCERN.execute (reana_job_controller/slurmcern_job_manager.py): the commands
-- that the submit node gets, and the answer.
use mathlib.Core.Path.{subst}
use mathlib.Core.List.{append-nil}
use reana_job_controller.Prelude.{
  List, String, [], refl, ◌∷◌, ◌≡◌, if◌then◌else◌, Bool-cases, inl, inr, sym, ◌++◌, ap, ◌∙◌,
}
use reana_job_controller.Text.{join_path}
use reana_job_controller.Text.Parts.{drop_first}
use reana_job_controller.Dict.{}
use reana_job_controller.Python.{◌>>=◌, ◌>>◌, Action, ok, pure, gets}
use reana_job_controller.Ssh.{
  Event, Network, Options, State, close_sftp, local_chdir, open_sftp, operate, put_file,
  remote_mkdir, remote_command, initialize_krb5_token, ssh_client,
}
use reana_job_controller.Ssh.Laws.{reply}
use reana_job_controller.Ssh.Effects.{
  Does, Does-pure, Does-then, IsReliable, IsStable, sent, AnyState, Does-try_except, send-Does,
  Does-gets, Does-exec, picked, exec_command-sent, client_of, initialize_krb5_token-Does,
  picked-last, ssh_client-sent,
}
use reana_job_controller.Ssh.Answers.{
  Answers, Quiet, client-Answers, for_each-Quiet, quiet, then-Answers,
}
use reana_job_controller.Transfer.{Entries}
use reana_job_controller.Slurm.Submission.{
  put_files, upload_dir, upload_workspace, Manager, Site, dump_job_file, encode_cmd, home_path,
  is_img_type_docker, job_file_command, job_submission_file_command, mkdir_command, pull_command,
  pull_image, send, set_paths, transfer_inputs, dump_job_submission_file, prepare, run_sbatch,
  sbatch_command, stripped, execute,
}
use reana_job_controller.Slurm.Submission.Walk.{os_walk}

-- the class attributes
abbrev HasPaths : String → String → State → Type 0
HasPaths slurm_workspace reana_workspace s =
    (s.slurm_workspace_path ≡ slurm_workspace) × (s.reana_workspace_path ≡ reana_workspace)

module _ (net : Network) (client : Options) (reliable : IsReliable net client) {P : State → Type 0}
    (stable : IsStable P) where
  upload_dir-Quiet :
      (home : String) (found : String × List String) → Quiet P (upload_dir net home found)
  unfolding upload_dir put_files
  upload_dir-Quiet home (dirpath, filenames) =
      let remote_dir = join_path home (drop_first dirpath) in
      Does-then
        (Does-try_except (λ e. pure tt)
          (quiet net client reliable stable (remote_mkdir remote_dir) refl))
        (for_each-Quiet
          (λ name. operate net (put_file (join_path dirpath name) (join_path remote_dir name)))
          filenames
          (λ name.
            quiet net client reliable stable
              (put_file (join_path dirpath name) (join_path remote_dir name)) refl))

  upload_workspace-Quiet :
      (home workspace : String) (items : Entries)
      → Quiet P (upload_workspace net home workspace items)
  unfolding upload_workspace
  upload_workspace-Quiet home workspace items =
      Does-then (quiet net client reliable stable open_sftp refl) (
        Does-then (quiet net client reliable stable (local_chdir workspace) refl) (
          Does-then
            (for_each-Quiet (upload_dir net home) (os_walk workspace items) (upload_dir-Quiet home))
            (quiet net client reliable stable close_sftp refl)))

-- the commands before the submission
abbrev pub preparations : Site → Manager → String → List String
preparations site self workspace =
    let pulled =
      if is_img_type_docker self.docker_img
      then pull_command workspace self.docker_img ∷ []
      else [] in
    "pwd"
    ∷ mkdir_command workspace
    ∷ (pulled
        ++ job_file_command workspace (encode_cmd site self.cmd)
          ∷ job_submission_file_command self workspace self.workflow_workspace
          ∷ [])

-- the home directory is known, by the configuration or by `pwd`
abbrev pub HasHome : Network → Site → String → Type 0
HasHome net site home = (past : List Event) → home_path site (reply (net.run past "pwd")) ≡ ok home

module _ (net : Network) (site : Site) (self : Manager) (client : Options) (home : String)
    (reliable : IsReliable net client) (at_home : HasHome net site home) where
  abbrev workspace : String
  workspace = join_path home (drop_first self.workflow_workspace)

  abbrev Prepared : State → Type 0
  Prepared = HasPaths workspace self.workflow_workspace

  abbrev Sends : (State → Type 0) → Action State (Unit {0}) → List String → Type 0
  Sends P m commands = Does sent P Prepared m commands

  prepared : IsStable Prepared
  prepared s events p = p

  set_paths-Sends : Sends AnyState (set_paths workspace self.workflow_workspace) []
  unfolding set_paths
  set_paths-Sends = record {
    succeeds = λ s p. refl;
    reaches = λ s p. (refl, refl);
    picks = λ s p. sym (append-nil (picked sent s.events));
  }

  transfer_inputs-Sends :
      (items : Entries)
      → Sends AnyState
          (transfer_inputs net site self client items)
          ("pwd" ∷ mkdir_command workspace ∷ [])
  unfolding transfer_inputs
  transfer_inputs-Sends items =
      Does-exec net client reliable (λ s events p. p) "pwd" _
        (λ past. rw (at_home past) (
          Does-then set_paths-Sends (
            Does-then (send-Does net client reliable prepared (mkdir_command workspace)) (
              upload_workspace-Quiet net client reliable prepared home self.workflow_workspace
                items))))

  pull_image-Sends : Sends Prepared (pull_image net self client) (
      if is_img_type_docker self.docker_img
      then pull_command workspace self.docker_img ∷ []
      else [])
  unfolding pull_image
  pull_image-Sends =
      Does-gets (λ s. s.slurm_workspace_path) workspace
        (λ found.
          if is_img_type_docker self.docker_img
          then send net client (pull_command found self.docker_img)
          else pure tt)
        (λ s p. p.0)
        (elim (Bool-cases (is_img_type_docker self.docker_img)) [
          | inl docker ↦
              rw docker
                (send-Does net client reliable prepared (pull_command workspace self.docker_img))
          | inr other ↦ rw other Does-pure
        ])

  dump_job_file-Sends :
      (cmd : String)
      → Sends Prepared (dump_job_file net cmd client) (job_file_command workspace cmd ∷ [])
  unfolding dump_job_file
  dump_job_file-Sends cmd =
      Does-gets (λ s. s.slurm_workspace_path) workspace
        (λ found. send net client (job_file_command found cmd)) (λ s p. p.0)
        (send-Does net client reliable prepared (job_file_command workspace cmd))

  dump_job_submission_file-Sends :
      Sends Prepared
        (dump_job_submission_file net self client)
        (job_submission_file_command self workspace self.workflow_workspace ∷ [])
  unfolding dump_job_submission_file
  dump_job_submission_file-Sends =
      let send_file =
        λ (found kept : String). send net client (job_submission_file_command self found kept) in
      Does-gets (λ s. s.slurm_workspace_path) workspace
        (λ found. gets (λ s. s.reana_workspace_path) >>= send_file found) (λ s p. p.0)
        (Does-gets (λ s. s.reana_workspace_path) self.workflow_workspace (send_file workspace)
          (λ s p. p.1)
          (send-Does net client reliable prepared
            (job_submission_file_command self workspace self.workflow_workspace)))

  prepare-Sends :
      (items : Entries)
      → Sends AnyState (prepare net site self items client) (preparations site self workspace)
  unfolding prepare
  prepare-Sends items = Does-then (transfer_inputs-Sends items) (
      Does-then pull_image-Sends
        (Does-then (dump_job_file-Sends (encode_cmd site self.cmd)) dump_job_submission_file-Sends))

module _ (net : Network) (command : String) where
  run_sbatch-Answers :
      (client : Options) (s : State)
      → IsReliable net client
      → sbatch_command s.slurm_workspace_path ≡ command
      → Answers net stripped command (run_sbatch net client) s []
  unfolding run_sbatch
  run_sbatch-Answers client s reliable e =
      let (past, same, run) = exec_command-sent net client command s reliable in
      (
        past,
        same ∙ sym (append-nil (picked sent s.events)),
        rw (e, run) refl,
        rw (e, run) (picked-last sent past (remote_command command)),
      )

-- For a network that is reliable with the object that SSHClient gives, and a home directory that is
-- known, `execute` sends these commands in this order: `pwd`, the creation of the workspace, the pull
-- of the image if it is one of Docker, the two files and `sbatch`. Whatever the commands between
-- `pwd` and `sbatch` answer, the result is the output of `sbatch` without the white space behind it,
-- and AttributeError if `sbatch` failed.
pub execute-sent :
    (net : Network) (site : Site) (self : Manager) (items : Entries) (home : String) (s : State)
    → IsReliable net (client_of net s.instance_made site.options)
    → HasHome net site home
    → let workspace = join_path home (drop_first self.workflow_workspace) in
      let (answer, after) = execute net site self items s in
      (past : List Event) × (picked sent past
        ≡ picked sent s.events ++ preparations site self workspace)
      × (answer ≡ stripped (reply (net.run past (sbatch_command workspace))))
      × (picked sent after.events ≡ picked sent past ++ sbatch_command workspace ∷ [])
unfolding execute
execute-sent net site self items home s reliable at_home =
    let client = client_of net s.instance_made site.options in
    let workspace = join_path home (drop_first self.workflow_workspace) in
    let command = sbatch_command workspace in
    let kinit =
      initialize_krb5_token-Does net client reliable {P = λ t. t.instance_made ≡ s.instance_made}
        (λ t events p. p) site.environ self.workflow_uuid in
    let ready = (initialize_krb5_token net site.environ self.workflow_uuid s).1 in
    let (connected, made, quiet) =
      ssh_client-sent net site.options ready (rw (kinit.reaches s refl) reliable) in
    let does = prepare-Sends net site self client home reliable at_home items in
    let done = (prepare net site self items client connected).1 in
    let sbatch =
      run_sbatch-Answers net command client done reliable
        (ap sbatch_command (does.reaches connected tt).0) in
    let commands = preparations site self workspace in
    let prepared =
      then-Answers net stripped command (prepare net site self items client) (run_sbatch net client)
        commands [] connected does tt sbatch in
    let with_client =
      client-Answers net stripped command (ssh_client net site.options)
        (λ client. prepare net site self items client >> run_sbatch net client) client
        (commands ++ []) ready connected
        (made ∙ ap (λ i. (ok (client_of net i site.options), connected)) (kinit.reaches s refl))
        quiet prepared in
    subst (Answers net stripped command (execute net site self items) s) (append-nil commands) (
      then-Answers net stripped command (initialize_krb5_token net site.environ self.workflow_uuid)
        (ssh_client net site.options >>= λ client.
          prepare net site self items client >> run_sbatch net client)
        [] (commands ++ []) s kinit refl with_client)
