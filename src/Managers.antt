-- ===== src/Managers.antt =====
-- What the job managers of the four compute backends do for the REST interface and the monitors:
-- config.COMPUTE_BACKENDS, and `stop` and `get_logs` of KubernetesJobManager,
-- HTCondorJobManagerCERN, SlurmJobManagerCERN and Compute4PUNCHJobManager. The systems that they
-- call are the fields of `Outside`.
pub mod Backends
use reana_job_controller.Prelude.{Option, String, [], none, some, ◌∷◌}
use reana_job_controller.Text.{concat, join_path}
use reana_job_controller.Python.{
  Action, Exception, Result, bind_result, file_not_found, lift, not_implemented_error, ok, pure,
  raise, raised, try_except, type_error, ◌>>=◌, ◌>>◌,
}
use reana_job_controller.JobDb.{State, call, stop_job}
use reana_job_controller.Managers.Backends.{
  Backend, compute4punch, htcondorcern, kubernetes, slurmcern,
}
use reana_job_controller.Kubernetes.{Api}
use reana_job_controller.Kubernetes
use reana_job_controller.Kubernetes.Logs

pub record Outside : Type 0 where
  pub api : Api
  -- open(path).read()
  pub read_file : String → Result String
  -- open_file(workspace, path) of reana_commons.workspace, and read()
  pub open_file : String → String → Result String
  -- schedd.act(Remove, "ClusterId==..."), the schedd included
  pub remove_cluster : String → Result (Unit {0})
  -- str(e)
  pub describe : Exception → String

-- The two files are read one after the other; any exception gives a message in place of the logs.
read_logs : Result String → Result String → Result String
read_logs first second = bind_result first (λ a. bind_result second (λ b. ok (concat (a ∷ b ∷ []))))

missing_logs : String → String → String
missing_logs backend_job_id e =
    concat ("Job logs of " ∷ backend_job_id ∷ " were not found. " ∷ e ∷ [])

or_message : Outside → String → Result String → Option String
unfolding missing_logs
or_message out backend_job_id (ok logs) = some logs
or_message out backend_job_id (raised e) = some (missing_logs backend_job_id (out.describe e))

-- HTCondorJobManagerCERN.get_logs
condor_logs : Outside → String → String → Option String
unfolding read_logs or_message
condor_logs out backend_job_id workspace =
    let file = λ (ending : String).
      out.read_file (join_path workspace (concat ("reana_job." ∷ backend_job_id ∷ ending ∷ []))) in
    or_message out backend_job_id (read_logs (file ".0.err") (file ".0.out"))

-- SlurmJobManagerCERN.get_logs
slurm_logs : Outside → String → String → Option String
unfolding read_logs or_message
slurm_logs out backend_job_id workspace =
    let file = λ (ending : String).
      out.read_file (join_path workspace (concat ("reana_job." ∷ backend_job_id ∷ ending ∷ []))) in
    or_message out backend_job_id (read_logs (file ".err") (file ".out"))

-- `except FileNotFoundError`: other exceptions pass
catch_missing : Outside → String → Result String → Result (Option String)
unfolding missing_logs
catch_missing out backend_job_id (ok logs) = ok (some logs)
catch_missing out backend_job_id (raised (file_not_found path)) =
    ok (some (missing_logs backend_job_id (out.describe (file_not_found path))))
catch_missing out backend_job_id (raised e) = raised e

-- Compute4PUNCHJobManager.get_logs
punch_logs : Outside → String → String → Result (Option String)
unfolding read_logs catch_missing
punch_logs out backend_job_id workspace =
    let file = λ (ending : String).
      out.open_file workspace (concat ("logs/" ∷ backend_job_id ∷ ending ∷ [])) in
    catch_missing out backend_job_id (read_logs (file ".out") (file ".err"))

-- job_manager_cls.get_logs(backend_job_id, workspace=workspace)
unfoldable pub get_logs : Outside → Backend → String → String → Result (Option String)
unfolding condor_logs slurm_logs punch_logs
get_logs out kubernetes backend_job_id workspace = Logs.get_logs out.api backend_job_id none
get_logs out htcondorcern backend_job_id workspace = ok (condor_logs out backend_job_id workspace)
get_logs out slurmcern backend_job_id workspace = ok (slurm_logs out backend_job_id workspace)
get_logs out compute4punch backend_job_id workspace = punch_logs out backend_job_id workspace

-- HTCondorJobManagerCERN.stop: exceptions are logged
condor_stop : Outside → String → Action State (Unit {0})
condor_stop out backend_job_id =
    try_except (do call (stop_job backend_job_id); lift (out.remove_cluster backend_job_id))
      (λ e. pure tt)

-- job_manager_cls.stop(backend_job_id), on the class. The Slurm manager inherits JobManager.stop,
-- whose one parameter is `self`, and which raises. `stop` of the Compute4PUNCH manager has `self`
-- and `backend_job_id`, so the call on the class lacks an argument.
unfoldable pub stop : Outside → Backend → String → Action State (Unit {0})
unfolding condor_stop
stop out kubernetes backend_job_id = Kubernetes.stop out.api backend_job_id
stop out htcondorcern backend_job_id = condor_stop out backend_job_id
stop out slurmcern backend_job_id = raise not_implemented_error
stop out compute4punch backend_job_id = raise type_error
