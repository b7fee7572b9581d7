-- ===== src/Kubernetes/JobSpec/Build.antt =====
-- KubernetesJobManager.execute of reana_job_controller/kubernetes_job_manager.py, under the hook of
-- the base class (JobManager). The unique name of the job and the request to the Kubernetes API,
-- which the package retrying repeats, are parameters.
use reana_job_controller.Prelude.{
  Bool, List, Option, String, [], false, if◌then◌else◌, none, some, true, ◌==◌, ◌∷◌,
}
use reana_job_controller.Text.{}
use reana_job_controller.Dict.{Dict}
use reana_job_controller.Python.{Result, bind_result, ok}
use reana_job_controller.Kubernetes.JobSpec.{
  Deployment, EnvVar, Job, Manager, PodSpec, Volume, VolumeMount, add_eos_volume,
  add_hostpath_volumes, add_image_pull_secrets, add_krb5_containers, add_kubernetes_job_timeout,
  add_memory_limit, add_shared_volume, add_workspace_volume, extend_env, extend_volumes, mount,
  plain,
}
use reana_job_controller.Kubernetes.JobSpec.Credentials.{
  add_rucio_init_container, add_voms_proxy_init_container,
}

-- the dictionary that `execute` starts with
unfoldable pub initial_pod : Manager → PodSpec
initial_pod self = record {
  automount_service_account_token = false;
  main = record {
    image = self.docker_img;
    command = "bash" ∷ "-c" ∷ [];
    args = self.cmd ∷ [];
    name = "job";
    env = [];
    volume_mounts = [];
    allow_privilege_escalation = some false;
    image_pull_policy = none;
    memory_limit = none;
  };
  sidecars = [];
  init_containers = [];
  volumes = [];
  restart_policy = "Never";
  termination_grace_period_seconds = 5;
  enable_service_links = false;
  security_context = none;
  image_pull_secrets = [];
  active_deadline_seconds = none;
  node_selector = none;
}

-- the loop over env_vars.items()
unfoldable pub job_env : Dict (Option String) → List EnvVar
job_env [] = []
job_env ((var, value) ∷ vars) = record { name = var; value = plain value } ∷ job_env vars

unfoldable pub add_secrets : Deployment → PodSpec → PodSpec
add_secrets d pod =
    mount (d.secrets_volume_mount ∷ [])
      (extend_volumes (d.secrets_volume ∷ []) (extend_env d.secret_env_vars pod))

-- the seven calls of methods, from add_memory_limit on
unfoldable pub add_parts : Deployment → Manager → PodSpec → PodSpec
add_parts d self pod = add_kubernetes_job_timeout self.kubernetes_job_timeout (
    add_image_pull_secrets d.image_pull_secrets (
      add_eos_volume d.eos_volume (
        add_shared_volume d self.shared_file_system (
          add_workspace_volume d self.workflow_workspace (
            add_hostpath_volumes d.hostpath_mounts
              (add_memory_limit self.kubernetes_memory_limit d.default_memory_limit pod))))))

unfoldable pub add_cvmfs : List VolumeMount × List Volume → PodSpec → PodSpec
add_cvmfs (volume_mounts, volumes) pod = extend_volumes volumes (mount volume_mounts pod)

unfoldable pub add_cvmfs_volumes : Deployment → String → PodSpec → Result PodSpec
unfolding add_cvmfs
add_cvmfs_volumes d cvmfs_mounts pod =
    if cvmfs_mounts == "false"
    then ok pod
    else bind_result (d.cvmfs_volumes cvmfs_mounts) (λ parts. ok (add_cvmfs parts pod))

abbrev pub when : Bool → (PodSpec → PodSpec) → PodSpec → PodSpec
when asked add pod = if asked then add pod else pod

abbrev pub add_node_selector : Option String → PodSpec → PodSpec
add_node_selector none pod = pod
add_node_selector (some label) pod = record pod { node_selector = some label }

-- the statements behind the CVMFS volumes
unfoldable pub add_identity : Deployment → Manager → PodSpec → PodSpec
add_identity d self pod = add_node_selector d.node_label (
    when self.rucio (add_rucio_init_container d) (
      when self.voms_proxy (add_voms_proxy_init_container d self) (
        when self.kerberos (add_krb5_containers d self)
          (record pod { security_context = some (d.user_gid, self.kubernetes_uid) }))))

unfoldable pub build_pod : Deployment → Manager → Result PodSpec
unfolding initial_pod job_env add_secrets add_parts add_cvmfs_volumes add_identity
build_pod d self =
    bind_result
      (add_cvmfs_volumes d self.cvmfs_mounts
        (add_parts d self (extend_env (job_env self.env_vars) (add_secrets d (initial_pod self)))))
      (λ pod. ok (add_identity d self pod))

unfoldable pub job_of : Deployment → Manager → String → PodSpec → Job
job_of d self backend_job_id pod = record {
  name = backend_job_id;
  namespace = d.namespace;
  backoff_limit = 0;
  auto_selector = true;
  workflow_label = self.workflow_uuid;
  pod = pod;
}

-- `create` is create_namespaced_job with its retries; the answer is the job's name.
unfoldable pub execute_job :
    Deployment → Manager → String → (Job → Result (Unit {0})) → Result String
unfolding build_pod job_of
execute_job d self backend_job_id create =
    bind_result (build_pod d self) (λ pod.
      bind_result (create (job_of d self backend_job_id pod)) (λ created. ok backend_job_id))
