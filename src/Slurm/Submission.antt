-- ===== src/Slurm/Submission.antt =====
-- SlurmJobManagerCERN.execute and get_outputs (reana_job_controller/slurmcern_job_manager.py), under
-- the hook of the base class (JobManager). The workspace is a finite tree; os.walk does not follow
-- symbolic links to directories.
pub mod Walk
pub mod Sent
pub mod Tests
use reana_job_controller.Prelude.{
  Bool, List, Option, String, [], if◌then◌else◌, none, not, some, ◌==◌, ◌||◌, ◌∷◌,
}
use reana_job_controller.Text.{concat, join_path}
use reana_job_controller.Text.Parts.{drop_first, is_in, last_part, replace, rstrip}
use reana_job_controller.Dict.{Dict}
use reana_job_controller.Python.{
  Action, Result, attribute_error, for_each, gets, lift, ok, pure, raised, try_except, ◌>>=◌, ◌>>◌,
}
use reana_job_controller.Ssh.{
  Network, Options, State, close_sftp, exec_command, initialize_krb5_token, local_chdir, no_options,
  open_sftp, operate, put_file, remote_mkdir, ssh_client,
}
use reana_job_controller.Transfer.{Entries, download_dir}
use reana_job_controller.Slurm.Submission.Walk.{os_walk}

-- The attributes of the job manager that `execute` reads.
pub record Manager : Type 0 where
  pub docker_img : String
  pub cmd : String
  pub job_name : String
  pub workflow_uuid : String
  pub workflow_workspace : String
  pub partition : String
  pub timelimit : String

-- the environment of the service
pub record Site : Type 0 where
  -- the keyword arguments of SSHClient, from the configuration
  pub options : Options
  -- SLURM_HOME_PATH
  pub slurm_home_path : String
  -- os.environ
  pub environ : Dict String
  -- base64.b64encode(cmd.encode("utf-8")).decode("utf-8")
  pub b64encode : String → String

abbrev job_file : String
job_file = "job.sh"

abbrev job_description_file : String
job_description_file = "job_description.sh"

unfoldable pub is_img_type_docker : String → Bool
is_img_type_docker docker_img = not (is_in ".sif" docker_img || is_in "cvmfs" docker_img)

unfoldable pub get_container : String → String
unfolding is_img_type_docker
get_container docker_img =
    if is_img_type_docker docker_img
    then concat (replace (last_part b'/' docker_img) ":" "_" ∷ ".sif" ∷ [])
    else docker_img

unfoldable pub encode_cmd : Site → String → String
encode_cmd site cmd = concat ("echo " ∷ site.b64encode cmd ∷ "|base64 -d|bash" ∷ [])

unfoldable pub wrap_singularity_cmd : String → String → String → String
unfolding get_container
wrap_singularity_cmd slurm_workspace reana_workspace docker_img = concat (
    "singularity exec -B "
    ∷ slurm_workspace
    ∷ ":"
    ∷ reana_workspace
    ∷ " "
    ∷ get_container docker_img
    ∷ " ./"
    ∷ job_file
    ∷ [])

-- the commands that are sent to the submit node
unfoldable pub mkdir_command : String → String
mkdir_command workspace = concat ("mkdir -p " ∷ workspace ∷ [])

unfoldable pub pull_command : String → String → String
pull_command workspace docker_img =
    concat ("cd " ∷ workspace ∷ " && singularity pull docker://" ∷ docker_img ∷ [])

unfoldable pub job_file_command : String → String → String
job_file_command workspace cmd = concat (
    "cd " ∷ workspace ∷ " && job=\"" ∷ "#!/bin/bash \n" ∷ cmd ∷ "\" && echo \"$job\" > " ∷ job_file
    ∷ " && chmod +x " ∷ job_file ∷ [])

unfoldable pub job_submission_file_command : Manager → String → String → String
unfolding wrap_singularity_cmd
job_submission_file_command self slurm_workspace reana_workspace = concat (
    "cd "
    ∷ slurm_workspace
    ∷ " && job=\""
    ∷ "#!/bin/bash \n#SBATCH --job-name="
    ∷ self.job_name
    ∷ " \n#SBATCH --output=reana_job.%j.out \n#SBATCH --error=reana_job.%j.err \n#SBATCH --partition "
    ∷ self.partition
    ∷ " \n#SBATCH --time "
    ∷ self.timelimit
    ∷ " \nexport PATH=$PATH:/usr/sbin \nsrun "
    ∷ wrap_singularity_cmd slurm_workspace reana_workspace self.docker_img
    ∷ "\" && echo \"$job\"> "
    ∷ job_description_file
    ∷ [])

unfoldable pub sbatch_command : String → String
sbatch_command workspace =
    concat ("cd " ∷ workspace ∷ " && sbatch --parsable " ∷ job_description_file ∷ [])

-- stdout.rstrip(), where stdout is None if the command failed
unfoldable pub stripped : Option String → Result String
stripped none = raised attribute_error
stripped (some stdout) = ok (rstrip stdout)

-- SlurmJobManagerCERN.SLURM_HOME_PATH or stdout.rstrip()
unfoldable pub home_path : Site → Option String → Result String
unfolding stripped
home_path site stdout =
    if site.slurm_home_path == "" then stripped stdout else ok site.slurm_home_path

set_paths : String → String → Action State (Unit {0})
set_paths slurm_workspace reana_workspace s = (
  ok tt,
  record s { slurm_workspace_path = slurm_workspace; reana_workspace_path = reana_workspace },
)

module _ (net : Network) where
  -- an exec_command whose result is not used
  abbrev pub send : Options → String → Action State (Unit {0})
  send client command = exec_command net client command >>= λ unused. pure tt

  put_files : String → String → List String → Action State (Unit {0})
  put_files local_dir remote_dir filenames =
      for_each filenames
        (λ name. operate net (put_file (join_path local_dir name) (join_path remote_dir name)))

  -- the body of the loop over os.walk
  upload_dir : String → String × List String → Action State (Unit {0})
  unfolding put_files
  upload_dir home (dirpath, filenames) = do
    let remote_dir = join_path home (drop_first dirpath)
    try_except (operate net (remote_mkdir remote_dir)) (λ e. pure tt)
    put_files dirpath remote_dir filenames

  unfoldable pub upload_workspace : String → String → Entries → Action State (Unit {0})
  unfolding upload_dir
  upload_workspace home workspace items = do
    operate net open_sftp
    operate net (local_chdir workspace)
    for_each (os_walk workspace items) (upload_dir home)
    operate net close_sftp

  unfoldable pub transfer_inputs : Site → Manager → Options → Entries → Action State (Unit {0})
  unfolding home_path set_paths upload_workspace
  transfer_inputs site self client items = do
    stdout ← exec_command net client "pwd"
    home ← lift (home_path site stdout)
    let workspace = join_path home (drop_first self.workflow_workspace)
    set_paths workspace self.workflow_workspace
    send client (mkdir_command workspace)
    upload_workspace home self.workflow_workspace items

  unfoldable pub pull_image : Manager → Options → Action State (Unit {0})
  unfolding pull_command
  pull_image self client = do
    workspace ← gets (λ s. s.slurm_workspace_path)
    (if is_img_type_docker self.docker_img
        then send client (pull_command workspace self.docker_img)
        else pure tt)

  unfoldable pub dump_job_file : String → Options → Action State (Unit {0})
  unfolding job_file_command
  dump_job_file cmd client = do
    workspace ← gets (λ s. s.slurm_workspace_path)
    send client (job_file_command workspace cmd)

  unfoldable pub dump_job_submission_file : Manager → Options → Action State (Unit {0})
  unfolding job_submission_file_command
  dump_job_submission_file self client = do
    slurm_workspace ← gets (λ s. s.slurm_workspace_path)
    reana_workspace ← gets (λ s. s.reana_workspace_path)
    send client (job_submission_file_command self slurm_workspace reana_workspace)

  -- the last two statements
  unfoldable pub run_sbatch : Options → Action State String
  unfolding sbatch_command
  run_sbatch client = do
    workspace ← gets (λ s. s.slurm_workspace_path)
    stdout ← exec_command net client (sbatch_command workspace)
    lift (stripped stdout)

  -- what comes between the connection and the submission
  unfoldable pub prepare : Site → Manager → Entries → Options → Action State (Unit {0})
  unfolding transfer_inputs pull_image dump_job_file dump_job_submission_file
  prepare site self items client = do
    transfer_inputs site self client items
    pull_image self client
    dump_job_file (encode_cmd site self.cmd) client
    dump_job_submission_file self client

  unfoldable pub execute : Site → Manager → Entries → Action State String
  unfolding prepare run_sbatch
  execute site self items = do
    initialize_krb5_token net site.environ self.workflow_uuid
    client ← ssh_client net site.options
    prepare site self items client
    run_sbatch client

  -- SlurmJobManagerCERN.get_outputs, for a tree on the submit node. SSHClient() gives the object that
  -- execute made.
  unfoldable pub get_outputs : Entries → Action State (Unit {0})
  get_outputs items = do
    slurm_workspace ← gets (λ s. s.slurm_workspace_path)
    reana_workspace ← gets (λ s. s.reana_workspace_path)
    operate net (local_chdir reana_workspace)
    ssh_client net no_options
    operate net open_sftp
    download_dir net slurm_workspace reana_workspace items
    operate net close_sftp
