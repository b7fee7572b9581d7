-- ===== src/Kubernetes/JobSpec/Tests.antt =====
-- Tests of the job that KubernetesJobManager.execute builds
-- (reana_job_controller/kubernetes_job_manager.py), on a small deployment.
use mathlib.Core.Path.{subst}
use reana_job_controller.Prelude.{List, String, [], eq_refl, none, refl, some, true, ◌∷◌, ◌≡◌}
use reana_job_controller.Prelude.Int.{pos, ℤ}
use reana_job_controller.Text.{}
use reana_job_controller.Dict.{}
use reana_job_controller.Python.{api_exception, ok, ok_inj, raised}
use reana_job_controller.Kubernetes.JobSpec.{
  Container, Deployment, Krb5Config, Manager, PodSpec, ProxySettings, Volume, VolumeMount,
  extend_env, given, has_volume, add_eos_volume, add_hostpath_volumes, add_image_pull_secrets,
  add_krb5_containers, add_kubernetes_job_timeout, add_memory_limit, add_shared_volume,
  add_workspace_volume,
}
use reana_job_controller.Kubernetes.JobSpec.Build.{
  add_cvmfs, add_cvmfs_volumes, add_identity, add_parts, add_secrets, build_pod, execute_job,
  initial_pod, job_env,
}
use reana_job_controller.Kubernetes.JobSpec.Credentials.{
  add_rucio_init_container, add_voms_proxy_init_container,
}
use reana_job_controller.Kubernetes.JobSpec.Mounts.{Covered, Fits, IsCoherent, build_pod-Fits}
use reana_job_controller.Kubernetes.JobSpec.Confinement.{bare, bare-build_pod, promised}

abbrev helper : String → List VolumeMount → Container
helper name mounts = record {
  image = "docker.io/helper";
  command = "kinit" ∷ [];
  args = [];
  name = name;
  env = [];
  volume_mounts = mounts;
  allow_privilege_escalation = none;
  image_pull_policy = none;
  memory_limit = none;
}

abbrev volume_of : String → Volume
volume_of name = record { name = name; source = given name }

abbrev mount_of : String → VolumeMount
mount_of name = record { name = name; mount_path = name }

abbrev small_config : ℤ → Krb5Config
small_config uid = record {
  volumes = volume_of "krb5-cache" ∷ [];
  volume_mounts = mount_of "krb5-cache" ∷ [];
  env = [];
  init_container = helper "krb5-init" (mount_of "secrets" ∷ mount_of "krb5-cache" ∷ []);
  renew_container = helper "krb5-renew" (mount_of "krb5-cache" ∷ []);
}

abbrev small_proxy : String → ProxySettings
small_proxy name = record {
  cache_location = name;
  cache_filename = "file";
  container_image = "docker.io/proxy";
  container_name = name;
}

abbrev small_deployment : Deployment
small_deployment = record {
  namespace = "default";
  secret_env_vars = [];
  secrets_volume = volume_of "secrets";
  secrets_volume_mount = mount_of "secrets";
  workspace_volume = λ workspace. (mount_of "workspace", volume_of "workspace");
  shared_volume = volume_of "workspace";
  eos_volume = none;
  hostpath_mounts = record { name = "data"; host_path = "/data"; mount_path = none } ∷ [];
  image_pull_secrets = "" ∷ "gitlab" ∷ [];
  default_memory_limit = some "8Gi";
  cvmfs_volumes = λ repositories. ok (mount_of repositories ∷ [], volume_of repositories ∷ []);
  user_gid = 0;
  kerberos_config = small_config;
  krb5_status_file = "/krb5/status";
  voms_proxy = small_proxy "voms";
  rucio = small_proxy "rucio";
  cern_bundle_filename = "bundle.pem";
  environ = ("VONAME", "atlas") ∷ [];
  node_label = none;
}

abbrev small_manager : Manager
small_manager = record {
  docker_img = "python:3";
  cmd = "python a.py";
  workflow_uuid = "w1";
  workflow_workspace = "/var/reana/w1";
  env_vars = ("A", some "1") ∷ [];
  cvmfs_mounts = "cms.cern.ch";
  shared_file_system = true;
  kerberos = true;
  voms_proxy = true;
  rucio = true;
  kubernetes_uid = pos 1000;
  kubernetes_memory_limit = none;
  kubernetes_job_timeout = some (pos 60);
}

small_deployment-IsCoherent : IsCoherent small_deployment
unfolding has_volume
small_deployment-IsCoherent = record {
  secrets = refl;
  workspace = λ w. refl;
  eos = λ p e. cc e;
  cvmfs = λ repositories parts e.
      subst (λ p. Covered p.1 p.0) (ok_inj e) (rw (eq_refl repositories) refl, tt);
  kerberos = λ uid. ((refl, tt), (refl, (refl, tt)), (refl, tt));
}

abbrev small_pod : PodSpec
small_pod = add_identity small_deployment small_manager (
    add_cvmfs (mount_of "cms.cern.ch" ∷ [], volume_of "cms.cern.ch" ∷ [])
      (add_parts small_deployment small_manager (
        extend_env (job_env small_manager.env_vars)
          (add_secrets small_deployment (initial_pod small_manager)))))

small_pod_lem : build_pod small_deployment small_manager ≡ ok small_pod
unfolding build_pod add_cvmfs_volumes
small_pod_lem = refl

build_pod-Fits_example : Fits small_deployment small_pod
build_pod-Fits_example =
    build_pod-Fits small_deployment small_manager small_pod small_deployment-IsCoherent
      small_pod_lem

bare-build_pod_example : bare small_pod ≡ promised small_deployment small_manager
bare-build_pod_example = bare-build_pod small_deployment small_manager small_pod small_pod_lem

volume_names : List Volume → List String
volume_names [] = []
volume_names (v ∷ vs) = v.name ∷ volume_names vs

-- The shared volume is the workspace volume here, so it is not added again.
small_volumes :
    volume_names small_pod.volumes
    ≡ "secrets" ∷ "data" ∷ "workspace" ∷ "cms.cern.ch" ∷ "krb5-cache" ∷ "voms-proxy-cache"
      ∷ "rucio-cache" ∷ []
unfolding volume_names add_identity add_cvmfs add_parts job_env add_secrets initial_pod
    add_rucio_init_container add_voms_proxy_init_container add_krb5_containers add_shared_volume
    add_workspace_volume add_hostpath_volumes add_memory_limit add_kubernetes_job_timeout
    add_image_pull_secrets add_eos_volume
small_volumes = refl

-- an API that refuses the request
refused :
    execute_job small_deployment small_manager "run-job-1"
      (λ job. raised (api_exception "Conflict"))
    ≡ raised (api_exception "Conflict")
unfolding execute_job build_pod add_cvmfs_volumes
refused = refl

submitted : execute_job small_deployment small_manager "run-job-1" (λ job. ok tt) ≡ ok "run-job-1"
unfolding execute_job build_pod add_cvmfs_volumes
submitted = refl
