-- ===== src/Managers/Backends.antt =====
-- config.COMPUTE_BACKENDS of reana_job_controller/config.py, by its keys.
use reana_job_controller.Prelude.{String, if◌then◌else◌, ◌==◌}
use reana_job_controller.Python.{Result, key_error, ok, raised}

pub data Backend : Type 0 where
  kubernetes htcondorcern slurmcern compute4punch : Backend

-- COMPUTE_BACKENDS[name]
unfoldable pub backend_named : String → Result Backend
backend_named name =
    if name == "kubernetes"
    then ok kubernetes
    else if name == "htcondorcern"
    then ok htcondorcern
    else if name == "slurmcern"
    then ok slurmcern
    else if name == "compute4punch"
    then ok compute4punch
    else raised (key_error name)
