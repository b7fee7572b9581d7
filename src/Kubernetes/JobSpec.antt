-- ===== src/Kubernetes/JobSpec.antt =====
-- The job that KubernetesJobManager.execute (reana_job_controller/kubernetes_job_manager.py) submits,
-- and the methods that add to its pod. A dictionary that becomes part of the job is a record with
-- the keys that the code writes. What reana_commons and the configuration give is in `Deployment`.
pub mod Credentials
pub mod Build
pub mod Mounts
pub mod Confinement
pub mod Tests
use reana_job_controller.Prelude.{
  Bool, List, Option, String, [], false, if◌then◌else◌, none, not, some, ℕ, ◌&&◌, ◌++◌, ◌==◌, ◌||◌,
  ◌∷◌,
}
use reana_job_controller.Prelude.Int.{ℤ}
use reana_job_controller.Text.{concat}
use reana_job_controller.Dict.{Dict}
use reana_job_controller.Python.{Result}

pub record VolumeMount : Type 0 where
  pub name : String
  pub mount_path : String

pub data VolumeSource : Type 0 where
  -- "emptyDir": {} and "hostPath": {"path": ...}
  empty_dir : VolumeSource
  host_path : String → VolumeSource
  -- a source that reana_commons writes
  given : String → VolumeSource

pub record Volume : Type 0 where
  pub name : String
  pub source : VolumeSource

pub data EnvValue : Type 0 where
  plain : Option String → EnvValue
  -- "valueFrom" a key of the user's secret
  from_secret : String → EnvValue

pub record EnvVar : Type 0 where
  pub name : String
  pub value : EnvValue

pub record Container : Type 0 where
  pub image : String
  pub command : List String
  pub args : List String
  pub name : String
  pub env : List EnvVar
  pub volume_mounts : List VolumeMount
  -- keys that only some containers have
  pub allow_privilege_escalation : Option Bool
  pub image_pull_policy : Option String
  -- resources.limits.memory
  pub memory_limit : Option String

-- job["spec"]["template"]["spec"]
pub record PodSpec : Type 0 where
  pub automount_service_account_token : Bool
  -- containers[0] and the containers behind it
  pub main : Container
  pub sidecars : List Container
  pub init_containers : List Container
  pub volumes : List Volume
  pub restart_policy : String
  pub termination_grace_period_seconds : ℕ
  pub enable_service_links : Bool
  -- V1PodSecurityContext: run_as_group and run_as_user
  pub security_context : Option (ℕ × ℤ)
  pub image_pull_secrets : List String
  pub active_deadline_seconds : Option ℤ
  pub node_selector : Option String

pub record Job : Type 0 where
  pub name : String
  pub namespace : String
  pub backoff_limit : ℕ
  pub auto_selector : Bool
  -- the label "reana-run-job-workflow-uuid" of the template
  pub workflow_label : String
  pub pod : PodSpec

-- an item of REANA_JOB_HOSTPATH_MOUNTS
pub record HostMount : Type 0 where
  pub name : String
  pub host_path : String
  pub mount_path : Option String

-- get_kerberos_k8s_config
pub record Krb5Config : Type 0 where
  pub volumes : List Volume
  pub volume_mounts : List VolumeMount
  pub env : List EnvVar
  pub init_container : Container
  pub renew_container : Container

-- the settings VOMSPROXY_* and RUCIO_* of the application
pub record ProxySettings : Type 0 where
  pub cache_location : String
  pub cache_filename : String
  pub container_image : String
  pub container_name : String

pub record Deployment : Type 0 where
  pub namespace : String
  -- UserSecrets: env variables, the volume and its mount
  pub secret_env_vars : List EnvVar
  pub secrets_volume : Volume
  pub secrets_volume_mount : VolumeMount
  -- get_workspace_volume and get_reana_shared_volume
  pub workspace_volume : String → VolumeMount × Volume
  pub shared_volume : Volume
  -- K8S_CERN_EOS_MOUNT_CONFIGURATION, if K8S_CERN_EOS_AVAILABLE
  pub eos_volume : Option (VolumeMount × Volume)
  pub hostpath_mounts : List HostMount
  pub image_pull_secrets : List String
  -- REANA_KUBERNETES_JOBS_MEMORY_LIMIT, `none` if it is unset or empty
  pub default_memory_limit : Option String
  -- get_k8s_cvmfs_volumes after ast.literal_eval
  pub cvmfs_volumes : String → Result (List VolumeMount × List Volume)
  -- WORKFLOW_RUNTIME_USER_GID
  pub user_gid : ℕ
  pub kerberos_config : ℤ → Krb5Config
  -- KRB5_STATUS_FILE_LOCATION
  pub krb5_status_file : String
  pub voms_proxy : ProxySettings
  pub rucio : ProxySettings
  -- RUCIO_CERN_BUNDLE_CACHE_FILENAME
  pub cern_bundle_filename : String
  -- os.environ
  pub environ : Dict String
  -- REANA_RUNTIME_JOBS_KUBERNETES_NODE_LABEL, `none` if it is empty
  pub node_label : Option String

-- The attributes of the job manager that `execute` reads. An empty or zero value that is tested for
-- truth is `none`.
pub record Manager : Type 0 where
  pub docker_img : String
  pub cmd : String
  pub workflow_uuid : String
  pub workflow_workspace : String
  pub env_vars : Dict (Option String)
  pub cvmfs_mounts : String
  pub shared_file_system : Bool
  pub kerberos : Bool
  pub voms_proxy : Bool
  pub rucio : Bool
  pub kubernetes_uid : ℤ
  pub kubernetes_memory_limit : Option String
  pub kubernetes_job_timeout : Option ℤ

-- containers[0]["volumeMounts"].extend, containers[0]["env"].extend, volumes.extend
abbrev pub mount : List VolumeMount → PodSpec → PodSpec
mount ms pod = record pod {
  main = record pod.main { volume_mounts = pod.main.volume_mounts ++ ms };
}

abbrev pub extend_env : List EnvVar → PodSpec → PodSpec
extend_env vars pod = record pod { main = record pod.main { env = pod.main.env ++ vars } }

abbrev pub extend_volumes : List Volume → PodSpec → PodSpec
extend_volumes vs pod = record pod { volumes = pod.volumes ++ vs }

abbrev pub extend_init : List Container → PodSpec → PodSpec
extend_init cs pod = record pod { init_containers = pod.init_containers ++ cs }

unfoldable pub add_volumes : List (VolumeMount × Volume) → PodSpec → PodSpec
add_volumes [] pod = pod
add_volumes ((volume_mount, volume) ∷ rest) pod =
    add_volumes rest (extend_volumes (volume ∷ []) (mount (volume_mount ∷ []) pod))

unfoldable pub add_kubernetes_job_timeout : Option ℤ → PodSpec → PodSpec
add_kubernetes_job_timeout none pod = pod
add_kubernetes_job_timeout (some timeout) pod = record pod {
  active_deadline_seconds = some timeout;
}

unfoldable pub add_workspace_volume : Deployment → String → PodSpec → PodSpec
unfolding add_volumes
add_workspace_volume d workspace pod = add_volumes (d.workspace_volume workspace ∷ []) pod

-- any(v["name"] == name for v in volumes)
unfoldable pub has_volume : String → List Volume → Bool
has_volume name [] = false
has_volume name (v ∷ vs) = v.name == name || has_volume name vs

unfoldable pub add_shared_volume : Deployment → Bool → PodSpec → PodSpec
unfolding has_volume
add_shared_volume d shared_file_system pod =
    if shared_file_system && not (has_volume d.shared_volume.name pod.volumes)
    then extend_volumes (d.shared_volume ∷ []) pod
    else pod

unfoldable pub add_eos_volume : Option (VolumeMount × Volume) → PodSpec → PodSpec
unfolding add_volumes
add_eos_volume none pod = pod
add_eos_volume (some eos) pod = add_volumes (eos ∷ []) pod

unfoldable pub non_empty : List String → List String
non_empty [] = []
non_empty (name ∷ names) = let rest = non_empty names in if name == "" then rest else name ∷ rest

unfoldable pub add_image_pull_secrets : List String → PodSpec → PodSpec
unfolding non_empty
add_image_pull_secrets names pod = record pod { image_pull_secrets = non_empty names }

abbrev set_job_memory_limit : Option String → PodSpec → PodSpec
set_job_memory_limit none pod = pod
set_job_memory_limit (some limit) pod = record pod {
  main = record pod.main { memory_limit = some limit };
}

-- the limit of the job if there is one, else that of the configuration if there is one
unfoldable pub add_memory_limit : Option String → Option String → PodSpec → PodSpec
add_memory_limit none default pod = set_job_memory_limit default pod
add_memory_limit (some limit) default pod = set_job_memory_limit (some limit) pod

abbrev mount_path_of : HostMount → String
mount_path_of m = elim m.mount_path [ none ↦ m.host_path | some path ↦ path ]

unfoldable pub hostpath_volumes : List HostMount → List (VolumeMount × Volume)
hostpath_volumes [] = []
hostpath_volumes (m ∷ ms) =
    (
      record { name = m.name; mount_path = mount_path_of m },
      record { name = m.name; source = host_path m.host_path },
    )
    ∷ hostpath_volumes ms

unfoldable pub add_hostpath_volumes : List HostMount → PodSpec → PodSpec
unfolding hostpath_volumes add_volumes
add_hostpath_volumes mounts pod = add_volumes (hostpath_volumes mounts) pod

-- The renew container is put behind containers[0], whose command is replaced.
unfoldable pub add_krb5_containers : Deployment → Manager → PodSpec → PodSpec
add_krb5_containers d self pod =
    let krb5 = d.kerberos_config self.kubernetes_uid in
    let pod1 =
      extend_init (krb5.init_container ∷ [])
        (extend_env krb5.env (mount krb5.volume_mounts (extend_volumes krb5.volumes pod))) in
    record pod1 {
      sidecars = pod1.sidecars ++ krb5.renew_container ∷ [];
      main = record pod1.main {
        args = concat ("trap 'touch " ∷ d.krb5_status_file ∷ "' EXIT; " ∷ self.cmd ∷ []) ∷ [];
      };
    }
