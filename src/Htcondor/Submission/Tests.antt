-- ===== src/Htcondor/Submission/Tests.antt =====
-- Tests of the ClassAd that HTCondorJobManagerCERN submits
-- (reana_job_controller/htcondorcern_job_manager.py).
use reana_job_controller.Prelude.{String, [], false, none, refl, some, ◌∷◌, ◌≡◌}
use reana_job_controller.Text.{concat, join}
use reana_job_controller.Text.Parts.{
  digits_value, is_in, is_space, isdigit, lstrip, replace, ends_with, part_behind,
}
use reana_job_controller.Text.Parts.Words.{NoSpace}
use reana_job_controller.Dict.{}
use reana_job_controller.Python.{ok, raised, unbound_local_error}
use reana_job_controller.Htcondor.Submission.{
  Host, build_job_ad, execute, get_input_files, runtime_of,
}
use reana_job_controller.Htcondor.Submission.Arguments.{
  Codec, Manager, base_cmd, format_arguments, replace_absolute_paths_with_relative, workflow_of,
}
use reana_job_controller.Htcondor.Submission.Commands.{format_arguments-serial}

abbrev small_codec : Codec
small_codec = record { b64encode = λ text. text; b64decode = λ text. ok text }

abbrev manager_for : String → String → Manager
manager_for workflow_type cmd = record {
  docker_img = "python:3";
  cmd = cmd;
  env_vars = ("A", some "1") ∷ ("B", some "2") ∷ [];
  workflow_workspace = "/var/w1";
  job_name = "job";
  workflow = some (record { type_of = workflow_type; full_workflow_name = "wf.1" });
  unpacked_img = false;
  htcondor_max_runtime = "120";
  htcondor_accounting_group = none;
}

format_arguments-serial_example :
    format_arguments small_codec (manager_for "serial" "cd /var/w1 ; python a.py")
    ≡ ok "echo python a.py|base64 -d"
unfolding concat
format_arguments-serial_example =
    format_arguments-serial small_codec (manager_for "serial" "cd /var/w1 ; python a.py")
      (record { type_of = "serial"; full_workflow_name = "wf.1" }) "python a.py" refl refl refl
      (unfold NoSpace is_space in (refl, (refl, (refl, (refl, (refl, (refl, (refl, tt)))))))) refl
      (unfold lstrip in refl) refl

unbound :
    format_arguments small_codec (manager_for "yadage" "python a.py") ≡ raised unbound_local_error
unfolding format_arguments base_cmd workflow_of is_in
unbound = refl

relative :
    format_arguments small_codec (manager_for "yadage" "python /var/w1/a.py")
    ≡ ok "echo python a.py|base64 -d"
unfolding format_arguments base_cmd workflow_of is_in replace concat
    replace_absolute_paths_with_relative
relative = refl

abbrev small_host : Host
small_host = record {
  copyfile = λ from to. ok tt;
  write_file = λ path text. ok tt;
  listdir = ok ("a.py" ∷ "job.log" ∷ ".job.ad" ∷ "job_wrapper.sh" ∷ []);
  chdir = λ path. ok tt;
  quote = λ text. text;
  job_flavours = "espresso" ∷ [];
  submit = λ ad. ok ad.transfer_input;
}

submitted :
    execute small_host small_codec (manager_for "serial" "cd /var/w1 ; python a.py")
    ≡ ok "a.py,job_wrapper.sh"
unfolding execute build_job_ad format_arguments base_cmd workflow_of get_input_files part_behind
    lstrip join ends_with
submitted = refl

runtimes :
    (runtime_of small_host "espresso" ≡ (some "espresso", none))
    × (runtime_of small_host "120" ≡ (none, some 120))
    × (runtime_of small_host "" ≡ (none, some 3600))
unfolding runtime_of isdigit digits_value
runtimes = (refl, refl, refl)
