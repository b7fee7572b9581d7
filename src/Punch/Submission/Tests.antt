-- ===== src/Punch/Submission/Tests.antt =====
-- Tests of Compute4PUNCHJobManager.execute (reana_job_controller/compute4punch_job_manager.py).
use reana_job_controller.Prelude.{[], none, refl, some, ◌==◌, ◌∷◌, ◌≡◌}
use reana_job_controller.Text.{concat, join}
use reana_job_controller.Text.Parts.{before, last_part, split, splitlines, is_digit, is_space}
use reana_job_controller.Dict.{}
use reana_job_controller.Python.{ok}
use reana_job_controller.Ssh.{State}
use reana_job_controller.Ssh.Laws.{}
use reana_job_controller.Ssh.Effects.{}
use reana_job_controller.Ssh.Answers.{Answers}
use reana_job_controller.Ssh.Tests.{options_to, start}
use reana_job_controller.Transfer.{}
use reana_job_controller.Punch.Submission.{Site}
use reana_job_controller.Punch.Submission.Description.{
  Manager, Paths, first_lines, job_description, job_description_template, job_environment,
}
use reana_job_controller.Punch.Submission.Response.{next_id, search_id, submitted_id}
use reana_job_controller.Punch.Submission.Lines.{split-job_description}

-- The memory limit tries to bring in a second `queue`.
abbrev small_manager : Manager
small_manager = record {
  docker_img = "python:3";
  cmd = "cd /var/w1 ; python a.py";
  env_vars = ("A", some "1") ∷ ("B", none) ∷ [];
  workflow_uuid = "w1";
  workflow_workspace = "/var/w1";
  job_name = "job";
  c4p_cpu_cores = "8";
  c4p_memory_limit = "20000\nqueue 100";
  c4p_additional_requirements = "";
}

abbrev small_site : Site
small_site = record {
  options = options_to "punch";
  rel_workflow_path = "reana/workflows";
  environ = [];
  b64encode = λ cmd. "cHl0aG9u";
  quote = λ text. text;
  full_workflow_name = some "wf.1";
  walk = ok ("a.py" ∷ ".job.ad" ∷ "data" ∷ []);
  is_directory = λ path. path == "data";
}

abbrev small_paths : Paths
small_paths = record {
  job_execution_script_path = "/home/user/w1/run.sh";
  job_description_path = "/home/user/w1/submit.jdl";
}

abbrev in_place : State
in_place = record start { c4p_workspace_path = "/home/user/w1" }

split-job_description_example :
    split b'\n' (job_description small_manager "/w/run.sh" ("a.py" ∷ []) "wf.1")
    ≡ first_lines (job_description_template small_manager "/w/run.sh" ("a.py" ∷ []) "wf.1")
split-job_description_example = split-job_description small_manager "/w/run.sh" ("a.py" ∷ []) "wf.1"

cut_lines :
    first_lines (job_description_template small_manager "/w/run.sh" ("a.py" ∷ []) "wf.1")
    ≡ "executable = run.sh" ∷ "use_oauth_services = helmholtz"
      ∷ "output = logs/$(cluster).$(process).out" ∷ "error = logs/$(cluster).$(process).err"
      ∷ "log = cluster.log" ∷ "environment = \"A=1 B=None\"" ∷ "ShouldTransferFiles = YES"
      ∷ "WhenToTransferOutput = ON_SUCCESS" ∷ "preserve_relative_paths = TRUE"
      ∷ "transfer_input_files = a.py" ∷ "transfer_output_files = ." ∷ "request_cpus = 8"
      ∷ "request_memory = 20000" ∷ "+SINGULARITY_JOB_CONTAINER = \"python:3\""
      ∷ "description = \"wf.1_job\"" ∷ "queue 1" ∷ []
unfolding first_lines job_description_template before last_part concat join job_environment
cut_lines = refl

submitted : submitted_id (some "Submitting\n** Proc 12.0:\nQ = 1\n** Proc 13.0:\n") ≡ ok "12.0"
unfolding submitted_id next_id splitlines search_id is_space is_digit
submitted = refl
