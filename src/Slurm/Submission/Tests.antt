-- ===== src/Slurm/Submission/Tests.antt =====
-- Tests of SlurmJobManagerCERN.execute (reana_job_controller/slurmcern_job_manager.py).
use reana_job_controller.Prelude.{[], none, refl, ◌∷◌, ◌≡◌}
use reana_job_controller.Text.{join_path, concat}
use reana_job_controller.Text.Parts.{drop_first, last_part, replace, rstrip, is_in}
use reana_job_controller.Dict.{lookup}
use reana_job_controller.Python.{ok, for_each}
use reana_job_controller.Ssh.{exec_command, initialize_krb5_token, ssh_client}
use reana_job_controller.Ssh.Laws.{}
use reana_job_controller.Ssh.Effects.{client_of}
use reana_job_controller.Ssh.Answers.{Answers}
use reana_job_controller.Ssh.Tests.{options_to, small_network, small_network-IsReliable, start}
use reana_job_controller.Transfer.{Entries, directory, empty, entry, file}
use reana_job_controller.Slurm.Submission.{
  Manager, Site, execute, get_container, home_path, prepare, run_sbatch, sbatch_command, stripped,
  transfer_inputs, encode_cmd, mkdir_command,
}
use reana_job_controller.Slurm.Submission.Walk.{os_walk}
use reana_job_controller.Slurm.Submission.Sent.{execute-sent, preparations}

abbrev small_manager : Manager
small_manager = record {
  docker_img = "docker.io/library/python:3";
  cmd = "python a.py";
  job_name = "job";
  workflow_uuid = "w1";
  workflow_workspace = "/var/w1";
  partition = "inf-short";
  timelimit = "60";
}

abbrev small_site : Site
small_site = record {
  options = options_to "slurm";
  slurm_home_path = "";
  environ = ("CERN_USER", "alice") ∷ [];
  b64encode = λ cmd. "cHl0aG9u";
}

abbrev small_workspace : Entries
small_workspace = entry "a.py" file (entry "data" (directory (entry "x" file empty)) empty)

execute-sent_example :
    Answers small_network stripped
      (sbatch_command "/home/user/var/w1")
      (execute small_network small_site small_manager small_workspace)
      start
      (preparations small_site small_manager "/home/user/var/w1")
unfolding drop_first join_path
execute-sent_example =
    execute-sent small_network small_site small_manager small_workspace "/home/user" start
      (small_network-IsReliable (client_of small_network none (options_to "slurm")))
      (unfold home_path stripped rstrip in λ past. refl)

small_container : get_container "docker.io/library/python:3" ≡ "python_3.sif"
unfolding get_container last_part replace is_in concat
small_container = refl

submitted : (execute small_network small_site small_manager small_workspace start).0 ≡ ok "42"
unfolding execute prepare transfer_inputs run_sbatch stripped home_path rstrip initialize_krb5_token
    lookup ssh_client exec_command mkdir_command concat join_path drop_first for_each os_walk is_in
    encode_cmd replace last_part
submitted = refl
