-- ===== src/Rest/Samples.antt =====
-- Sample data for the tests: the systems outside the job controller, and a job.
use reana_job_controller.Prelude.{String, [], false, none, some}
use reana_job_controller.Python.{ok, raised, runtime_error}
use reana_job_controller.Text.{}
use reana_job_controller.Dict.{}
use reana_job_controller.JobDb.{Job}
use reana_job_controller.Kubernetes.{Api}
use reana_job_controller.Managers.{Outside}
use reana_job_controller.Managers.Backends.{}

abbrev pub api : Api
api = record {
  read_pod_log = λ pod container. ok "hello";
  list_pods = λ backend_job_id. ok [];
  delete_job = λ backend_job_id. ok tt;
}

abbrev pub outside : Outside
outside = record {
  api = api;
  read_file = λ path. ok "text";
  open_file = λ workspace path. ok "text";
  remove_cluster = λ cluster. raised runtime_error;
  describe = λ e. "an error";
}

abbrev pub job_on : String → String → String → Job
job_on id compute_backend status = record {
  cmd = some "date";
  cvmfs_mounts = none;
  docker_img = "busybox";
  job_id = id;
  max_restart_count = 3;
  restart_count = 0;
  status = status;
  deleted = false;
  compute_backend = compute_backend;
  backend_job_id = "b";
  workflow_workspace = "/ws";
  log = none;
}
