-- ===== src/Htcondor/Submission.antt =====
-- HTCondorJobManagerCERN.execute, up to the transaction with the schedd
-- (reana_job_controller/htcondorcern_job_manager.py). The expressions of the job's ClassAd are texts.
-- The executor that runs _submit is awaited at once.
pub mod Arguments
pub mod Commands
pub mod Tests
use reana_job_controller.Prelude.{
  Bool, List, Option, String, [], if◌then◌else◌, none, not, one_of, some, true, ℕ, ◌&&◌, ◌||◌, ◌==◌,
  ◌∷◌,
}
use reana_job_controller.Text.{concat, join, str}
use reana_job_controller.Text.Parts.{digits_value, ends_with, isdigit}
use reana_job_controller.Dict.{Dict}
use reana_job_controller.Python.{Result, bind_result, ok}
use reana_job_controller.Htcondor.Submission.Arguments.{
  Codec, Manager, Workflow, format_arguments, workflow_of,
}

-- job_ad, with the keys that execute writes; a key that it leaves out is `none`
pub record JobAd : Type 0 where
  pub job_description : String
  pub job_max_retries : ℕ
  pub leave_job_in_queue : String
  pub cmd : String
  pub arguments : Option String
  pub docker_image : Option String
  pub want_docker : Option Bool
  pub docker_network_type : Option String
  pub environment : String
  pub out : String
  pub err : String
  pub log : String
  pub should_transfer_files : String
  pub when_to_transfer_output : String
  pub transfer_input : String
  pub transfer_output : String
  pub periodic_release : String
  pub job_flavour : Option String
  pub max_run_time : Option ℕ
  pub accounting_group : Option String

-- the local files, shlex.quote, and the flavours of reana_commons
pub record Host : Type 0 where
  pub copyfile : String → String → Result (Unit {0})
  -- open(path, "w"), write and close
  pub write_file : String → String → Result (Unit {0})
  -- os.listdir(workspace), after the wrapper file was written
  pub listdir : Result (List String)
  pub chdir : String → Result (Unit {0})
  pub quote : String → String
  -- HTCONDOR_JOB_FLAVOURS.keys()
  pub job_flavours : List String
  -- _submit through the executor, with its retries
  pub submit : JobAd → Result String

unfoldable pub format_env_vars : Dict (Option String) → String
format_env_vars [] = ""
format_env_vars ((key, value) ∷ vars) =
    concat (" " ∷ key ∷ "=" ∷ str value ∷ format_env_vars vars ∷ [])

-- the script that runs the job in an unpacked image
unfoldable pub singularity_template : Host → Manager → String → String
singularity_template host self arguments = concat (
    "#!/bin/bash \nsingularity exec --home $PWD:/srv --bind $PWD:/srv --bind /cvmfs --bind /eos "
    ∷ self.docker_img
    ∷ " bash -c "
    ∷ host.quote (concat (arguments ∷ " | bash" ∷ []))
    ∷ [])

-- The exception of the handler is raised again.
unfoldable pub copy_wrapper_file : Host → Codec → Manager → Result (Unit {0})
unfolding singularity_template
copy_wrapper_file host codec self =
    if self.unpacked_img
    then bind_result (format_arguments codec self) (λ arguments.
      host.write_file "job_singularity_wrapper.sh" (singularity_template host self arguments))
    else host.copyfile "/etc/job_wrapper.sh"
        (concat (self.workflow_workspace ∷ "/job_wrapper.sh" ∷ []))

unfoldable pub forbidden_files : List String
forbidden_files = ".job.ad" ∷ ".machine.ad" ∷ ".chirp.config" ∷ []

-- not item.endswith(skip_extensions)
has_skipped_extension : String → Bool
has_skipped_extension item = ends_with item ".err" || ends_with item ".log" || ends_with item ".out"

unfoldable pub input_files : List String → List String
unfolding forbidden_files has_skipped_extension
input_files [] = []
input_files (item ∷ items) =
    let rest = input_files items in
    if not (one_of item forbidden_files) && not (has_skipped_extension item)
    then item ∷ rest
    else rest

unfoldable pub get_input_files : Host → Codec → Manager → Result String
unfolding copy_wrapper_file input_files
get_input_files host codec self =
    bind_result (copy_wrapper_file host codec self)
      (λ copied. bind_result host.listdir (λ items. ok (join "," (input_files items))))

-- job_ad["Arguments"], which a job in an unpacked image lacks
arguments_of : Codec → Manager → Result (Option String)
arguments_of codec self =
    if self.unpacked_img
    then ok none
    else bind_result (format_arguments codec self) (λ arguments. ok (some arguments))

-- the flavour and the run time: one of the two
unfoldable pub runtime_of : Host → String → Option String × Option ℕ
runtime_of host max_runtime =
    if one_of max_runtime host.job_flavours
    then (some max_runtime, none)
    else if isdigit max_runtime
    then (none, some (digits_value max_runtime))
    else (none, some 3600)

-- `if self.htcondor_accounting_group:`, which an empty group does not pass
truthy : Option String → Option String
truthy none = none
truthy (some group) = if group == "" then none else some group

job_ad_of : Host → Manager → Workflow → Option String → String → JobAd
unfolding runtime_of truthy
job_ad_of host self workflow arguments transfer_input = record {
  job_description = concat (workflow.full_workflow_name ∷ "_" ∷ self.job_name ∷ []);
  job_max_retries = 3;
  leave_job_in_queue =
      "(JobStatus == 4) && ((StageOutFinish =?= UNDEFINED) || (StageOutFinish == 0))";
  cmd = if self.unpacked_img then "./job_singularity_wrapper.sh" else "./job_wrapper.sh";
  arguments = arguments;
  docker_image = if self.unpacked_img then none else some self.docker_img;
  want_docker = if self.unpacked_img then none else some true;
  docker_network_type = if self.unpacked_img then none else some "host";
  environment = format_env_vars self.env_vars;
  out = "strcat(\"reana_job.\", ClusterId, \".\", ProcId, \".out\")";
  err = "strcat(\"reana_job.\", ClusterId, \".\", ProcId, \".err\")";
  log = "strcat(\"reana_job.\", ClusterId, \".err\")";
  should_transfer_files = "YES";
  when_to_transfer_output = "ON_EXIT";
  transfer_input = transfer_input;
  transfer_output = ".";
  periodic_release = "(HoldReasonCode == 35)";
  job_flavour = (runtime_of host self.htcondor_max_runtime).0;
  max_run_time = (runtime_of host self.htcondor_max_runtime).1;
  accounting_group = truthy self.htcondor_accounting_group;
}

-- The workflow is read in __init__; without one its attributes raise AttributeError.
unfoldable pub build_job_ad : Host → Codec → Manager → Result JobAd
unfolding arguments_of get_input_files job_ad_of
build_job_ad host codec self = bind_result (workflow_of self.workflow) (λ workflow.
    bind_result (arguments_of codec self) (λ arguments.
      bind_result (get_input_files host codec self)
        (λ transfer_input. ok (job_ad_of host self workflow arguments transfer_input))))

unfoldable pub execute : Host → Codec → Manager → Result String
unfolding build_job_ad
execute host codec self =
    bind_result (host.chdir self.workflow_workspace)
      (λ moved. bind_result (build_job_ad host codec self) host.submit)
