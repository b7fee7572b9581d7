-- ===== src/Htcondor/Submission/Arguments.antt =====
-- HTCondorJobManagerCERN._format_arguments
-- (reana_job_controller/htcondorcern_job_manager.py): the command of a job, by the type of its
-- workflow. IndexError stands for a command with too few words.
use Prim.Native.String.{◌++◌}
use reana_job_controller.Prelude.{
  Bool, Option, String, [], if◌then◌else◌, none, some, ◌==◌, ◌||◌, ◌∷◌,
}
use reana_job_controller.Text.{concat, join_path}
use reana_job_controller.Text.Parts.{before, is_in, part_behind, replace, word}
use reana_job_controller.Dict.{Dict}
use reana_job_controller.Python.{
  Result, attribute_error, bind_result, ok, other_error, raised, unbound_local_error,
}

pub record Workflow : Type 0 where
  -- workflow.type_ and workflow.get_full_workflow_name()
  pub type_of : String
  pub full_workflow_name : String

-- The attributes of the job manager that `execute` reads.
pub record Manager : Type 0 where
  pub docker_img : String
  pub cmd : String
  pub env_vars : Dict (Option String)
  pub workflow_workspace : String
  pub job_name : String
  -- none if _get_workflow found nothing
  pub workflow : Option Workflow
  pub unpacked_img : Bool
  pub htcondor_max_runtime : String
  -- `none` if it is None or empty
  pub htcondor_accounting_group : Option String

-- base64 with UTF-8
pub record Codec : Type 0 where
  pub b64encode : String → String
  pub b64decode : String → Result String

unfoldable pub workflow_of : Option Workflow → Result Workflow
workflow_of none = raised attribute_error
workflow_of (some workflow) = ok workflow

unfoldable pub or_index_error : Option String → Result String
or_index_error none = raised (other_error "IndexError")
or_index_error (some part) = ok part

-- `or cmd`, for a text or None
or_cmd : Option String → String → String
or_cmd none cmd = cmd
or_cmd (some text) cmd = if text == "" then cmd else text

unfoldable pub replace_absolute_paths_with_relative : String → String → Option String
replace_absolute_paths_with_relative workspace cmd =
    if is_in workspace cmd then some (replace cmd (workspace ++ "/") "") else none

-- the branch of yadage
yadage_cmd : Codec → String → String → Result String
unfolding or_index_error or_cmd replace_absolute_paths_with_relative
yadage_cmd codec workspace cmd =
    if is_in "base64" cmd
    then bind_result (or_index_error (word 1 (before b'|' cmd))) (λ encoded.
      bind_result (codec.b64decode encoded)
        (λ decoded. ok (or_cmd (replace_absolute_paths_with_relative workspace decoded) decoded)))
    else if is_in workspace cmd
    then ok (or_cmd (replace_absolute_paths_with_relative workspace cmd) cmd)
    else raised unbound_local_error

-- base_cmd, which no branch binds for another type
unfoldable pub base_cmd : Codec → String → String → String → Result String
unfolding yadage_cmd or_index_error
base_cmd codec workflow_type workspace cmd =
    if workflow_type == "serial" || workflow_type == "snakemake"
    then bind_result (or_index_error (part_behind 3 cmd)) (λ base.
      ok (if workflow_type == "snakemake" then replace base (join_path workspace "") "" else base))
    else if workflow_type == "cwl"
    then ok (replace cmd workspace "$_CONDOR_JOB_IWD")
    else if workflow_type == "yadage"
    then yadage_cmd codec workspace cmd
    else raised unbound_local_error

unfoldable pub format_arguments : Codec → Manager → Result String
unfolding base_cmd workflow_of
format_arguments codec self = bind_result (workflow_of self.workflow) (λ workflow.
    bind_result (base_cmd codec workflow.type_of self.workflow_workspace self.cmd)
      (λ base. ok (concat ("echo " ∷ codec.b64encode base ∷ "|base64 -d" ∷ []))))
