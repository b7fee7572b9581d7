-- ===== src/Punch/Submission/Description.antt =====
-- Compute4PUNCHJobManager._create_c4p_job_description
-- (reana_job_controller/compute4punch_job_manager.py): the text of the job description.
use reana_job_controller.Prelude.{List, Option, String, [], if◌then◌else◌, ◌==◌, ◌∷◌}
use reana_job_controller.Text.{concat, join, str}
use reana_job_controller.Text.Parts.{before, last_part}
use reana_job_controller.Dict.{Dict}

-- The attributes of the job manager that `execute` reads. The values of the environment are texts or
-- None.
pub record Manager : Type 0 where
  pub docker_img : String
  pub cmd : String
  pub env_vars : Dict (Option String)
  pub workflow_uuid : String
  pub workflow_workspace : String
  pub job_name : String
  pub c4p_cpu_cores : String
  pub c4p_memory_limit : String
  pub c4p_additional_requirements : String

-- the two paths that __init__ computes
pub record Paths : Type 0 where
  pub job_execution_script_path : String
  pub job_description_path : String

unfoldable pub job_environment : Dict (Option String) → List String
job_environment [] = []
job_environment ((key, value) ∷ vars) = concat (key ∷ "=" ∷ str value ∷ []) ∷ job_environment vars

-- f"{name} = {value}" if value else ""
abbrev optional : String → String → String
optional name value = if value == "" then "" else concat (name ∷ " = " ∷ value ∷ [])

unfoldable pub job_description_template : Manager → String → List String → String → List String
unfolding job_environment
job_description_template self script_path job_inputs workflow_name =
    concat ("executable = " ∷ last_part b'/' script_path ∷ [])
    ∷ "use_oauth_services = helmholtz"
    ∷ "output = logs/$(cluster).$(process).out"
    ∷ "error = logs/$(cluster).$(process).err"
    ∷ "log = cluster.log"
    ∷ concat ("environment = \"" ∷ join " " (job_environment self.env_vars) ∷ "\"" ∷ [])
    ∷ "ShouldTransferFiles = YES"
    ∷ "WhenToTransferOutput = ON_SUCCESS"
    ∷ "preserve_relative_paths = TRUE"
    ∷ optional "transfer_input_files" (join "," job_inputs)
    ∷ "transfer_output_files = ."
    ∷ concat ("request_cpus = " ∷ self.c4p_cpu_cores ∷ [])
    ∷ concat ("request_memory = " ∷ self.c4p_memory_limit ∷ [])
    ∷ concat ("+SINGULARITY_JOB_CONTAINER = \"" ∷ self.docker_img ∷ "\"" ∷ [])
    ∷ optional "requirements" self.c4p_additional_requirements
    ∷ concat ("description = \"" ∷ workflow_name ∷ "_" ∷ self.job_name ∷ "\"" ∷ [])
    ∷ "queue 1"
    ∷ []

-- the first line of each entry, without the empty ones
unfoldable pub first_lines : List String → List String
first_lines [] = []
first_lines (x ∷ xs) =
    let line = before b'\n' x in
    let rest = first_lines xs in if line == "" then rest else line ∷ rest

unfoldable pub job_description : Manager → String → List String → String → String
unfolding job_description_template first_lines
job_description self script_path job_inputs workflow_name =
    join "\n" (first_lines (job_description_template self script_path job_inputs workflow_name))
