-- ===== src/Kubernetes/JobSpec/Confinement.antt =====
-- Proofs on the job that is built (reana_job_controller/kubernetes_job_manager.py): what its pod may
-- do and which limits it has, apart from volumes, environment and init containers.
use reana_job_controller.Prelude.{
  Bool, Option, String, [], Bool-cases, List, ap, false, if◌then◌else◌, inl, inr, none, not, refl,
  some, sym, ◌&&◌, ◌==◌, ◌∷◌, ◌≡◌, true, ◌∙◌,
}
use reana_job_controller.Prelude.Int.{ℤ}
use reana_job_controller.Text.{concat}
use reana_job_controller.Python.{bind_result-ok, ok, ok_inj}
use reana_job_controller.Kubernetes.JobSpec.{
  Deployment, Manager, PodSpec, Volume, VolumeMount, add_eos_volume, add_hostpath_volumes,
  add_image_pull_secrets, add_kubernetes_job_timeout, add_memory_limit, add_shared_volume,
  add_volumes, add_workspace_volume, extend_volumes, has_volume, mount, non_empty,
  add_krb5_containers, extend_env, hostpath_volumes,
}
use reana_job_controller.Kubernetes.JobSpec.Credentials.{
  add_cache, add_rucio_init_container, add_voms_proxy_init_container,
}
use reana_job_controller.Kubernetes.JobSpec.Build.{
  add_cvmfs, add_cvmfs_volumes, add_parts, add_identity, add_node_selector, add_secrets, build_pod,
  initial_pod, job_env, when,
}

-- the pod without what the volumes, the mounts, the variables and the init containers add
abbrev pub bare : PodSpec → PodSpec
bare pod = record pod {
  volumes = [];
  sidecars = [];
  init_containers = [];
  main = record pod.main { env = []; volume_mounts = [] };
}

abbrev first_of : Option String → Option String → Option String
first_of none default = default
first_of (some own) default = some own

-- the command as the shell of the container gets it
abbrev script_of : Deployment → Manager → String
script_of d self =
    if self.kerberos
    then concat ("trap 'touch " ∷ d.krb5_status_file ∷ "' EXIT; " ∷ self.cmd ∷ [])
    else self.cmd

-- the pod that is promised
unfoldable pub promised : Deployment → Manager → PodSpec
promised d self = record {
  automount_service_account_token = false;
  main = record {
    image = self.docker_img;
    command = "bash" ∷ "-c" ∷ [];
    args = script_of d self ∷ [];
    name = "job";
    env = [];
    volume_mounts = [];
    allow_privilege_escalation = some false;
    image_pull_policy = none;
    memory_limit = first_of self.kubernetes_memory_limit d.default_memory_limit;
  };
  sidecars = [];
  init_containers = [];
  volumes = [];
  restart_policy = "Never";
  termination_grace_period_seconds = 5;
  enable_service_links = false;
  security_context = some (d.user_gid, self.kubernetes_uid);
  image_pull_secrets = non_empty d.image_pull_secrets;
  active_deadline_seconds = self.kubernetes_job_timeout;
  node_selector = d.node_label;
}

bare-add_volumes :
    (parts : List (VolumeMount × Volume)) (pod : PodSpec) → bare (add_volumes parts pod) ≡ bare pod
unfolding add_volumes
bare-add_volumes [] pod = refl
bare-add_volumes ((m, v) ∷ parts) pod =
    bare-add_volumes parts (extend_volumes (v ∷ []) (mount (m ∷ []) pod))

bare-add_shared_volume :
    (d : Deployment) (shared : Bool) (pod : PodSpec)
    → bare (add_shared_volume d shared pod) ≡ bare pod
unfolding add_shared_volume
bare-add_shared_volume d shared pod =
    elim (Bool-cases (shared && not (has_volume d.shared_volume.name pod.volumes))) [
      | inl added ↦ rw added refl
      | inr kept ↦ rw kept refl
    ]

bare-add_eos_volume :
    (eos : Option (VolumeMount × Volume)) (pod : PodSpec) → bare (add_eos_volume eos pod) ≡ bare pod
unfolding add_eos_volume
bare-add_eos_volume none pod = refl
bare-add_eos_volume (some eos) pod = bare-add_volumes (eos ∷ []) pod

bare-add_memory_limit :
    (own default : Option String) (pod : PodSpec)
    → bare (add_memory_limit own default pod) ≡ add_memory_limit own default (bare pod)
unfolding add_memory_limit
bare-add_memory_limit none none pod = refl
bare-add_memory_limit none (some default) pod = refl
bare-add_memory_limit (some own) default pod = refl

bare-add_kubernetes_job_timeout :
    (timeout : Option ℤ) (pod : PodSpec)
    → bare (add_kubernetes_job_timeout timeout pod) ≡ add_kubernetes_job_timeout timeout (bare pod)
unfolding add_kubernetes_job_timeout
bare-add_kubernetes_job_timeout none pod = refl
bare-add_kubernetes_job_timeout (some timeout) pod = refl

-- what the other parts add to the pod
abbrev limited : Deployment → Manager → PodSpec → PodSpec
limited d self pod = record pod {
  main = record pod.main {
    memory_limit = first_of self.kubernetes_memory_limit d.default_memory_limit;
  };
  image_pull_secrets = non_empty d.image_pull_secrets;
  active_deadline_seconds = self.kubernetes_job_timeout;
}

add_memory_limit-unset :
    (own default : Option String) (pod : PodSpec)
    → pod.main.memory_limit ≡ none
    → add_memory_limit own default pod
      ≡ record pod { main = record pod.main { memory_limit = first_of own default } }
unfolding add_memory_limit
add_memory_limit-unset none none pod e =
    ap (λ limit. record pod { main = record pod.main { memory_limit = limit } }) e
add_memory_limit-unset none (some default) pod e = refl
add_memory_limit-unset (some own) default pod e = refl

add_kubernetes_job_timeout-unset :
    (timeout : Option ℤ) (pod : PodSpec)
    → pod.active_deadline_seconds ≡ none
    → add_kubernetes_job_timeout timeout pod ≡ record pod { active_deadline_seconds = timeout }
unfolding add_kubernetes_job_timeout
add_kubernetes_job_timeout-unset none pod e =
    ap (λ limit. record pod { active_deadline_seconds = limit }) e
add_kubernetes_job_timeout-unset (some timeout) pod e = refl

add_node_selector-unset :
    (label : Option String) (pod : PodSpec)
    → pod.node_selector ≡ none
    → add_node_selector label pod ≡ record pod { node_selector = label }
add_node_selector-unset none pod e = ap (λ label. record pod { node_selector = label }) e
add_node_selector-unset (some label) pod e = refl

bare-add_parts :
    (d : Deployment) (self : Manager) (pod : PodSpec)
    → pod.main.memory_limit ≡ none
    → pod.active_deadline_seconds ≡ none
    → bare (add_parts d self pod) ≡ limited d self (bare pod)
unfolding add_parts add_workspace_volume add_hostpath_volumes add_image_pull_secrets
bare-add_parts d self pod e f =
    let workspace = d.workspace_volume self.workflow_workspace ∷ [] in
    let memory = add_memory_limit self.kubernetes_memory_limit d.default_memory_limit pod in
    let hosts = add_volumes (hostpath_volumes d.hostpath_mounts) memory in
    let volumes = add_volumes workspace hosts in
    let shared = add_shared_volume d self.shared_file_system volumes in
    let inner =
      bare-add_eos_volume d.eos_volume shared
      ∙ bare-add_shared_volume d self.shared_file_system volumes
      ∙ bare-add_volumes workspace hosts
      ∙ bare-add_volumes (hostpath_volumes d.hostpath_mounts) memory
      ∙ bare-add_memory_limit self.kubernetes_memory_limit d.default_memory_limit pod
      ∙ add_memory_limit-unset self.kubernetes_memory_limit d.default_memory_limit (bare pod) e in
    let same = ap (add_image_pull_secrets d.image_pull_secrets) inner in
    bare-add_kubernetes_job_timeout self.kubernetes_job_timeout _
    ∙ ap (add_kubernetes_job_timeout self.kubernetes_job_timeout) same
    ∙ add_kubernetes_job_timeout-unset self.kubernetes_job_timeout _ f

bare-add_cvmfs_volumes :
    (d : Deployment) (repositories : String) (pod result : PodSpec)
    → add_cvmfs_volumes d repositories pod ≡ ok result
    → bare result ≡ bare pod
unfolding add_cvmfs_volumes add_cvmfs
bare-add_cvmfs_volumes d repositories pod result e = elim (Bool-cases (repositories == "false")) [
  | inl unused ↦ sym (ap bare (ok_inj (rw unused at e)))
  | inr used ↦
      let (parts, found, added) =
        bind_result-ok (d.cvmfs_volumes repositories) (λ parts. ok (add_cvmfs parts pod)) result
          (rw used at e) in
      sym (ap bare (ok_inj added))
]

-- the arguments of the command once Kerberos was asked for
abbrev with_args : Deployment → Manager → PodSpec → PodSpec
with_args d self pod = record pod { main = record pod.main { args = script_of d self ∷ [] } }

bare-when :
    (asked : Bool) (add : PodSpec → PodSpec) (pod : PodSpec)
    → ((p : PodSpec) → bare (add p) ≡ bare p)
    → bare (when asked add pod) ≡ bare pod
bare-when true add pod h = h pod
bare-when false add pod h = refl

bare-voms :
    (d : Deployment) (self : Manager) (pod : PodSpec)
    → bare (add_voms_proxy_init_container d self pod) ≡ bare pod
unfolding add_voms_proxy_init_container add_cache
bare-voms d self pod = refl

bare-rucio : (d : Deployment) (pod : PodSpec) → bare (add_rucio_init_container d pod) ≡ bare pod
unfolding add_rucio_init_container add_cache
bare-rucio d pod = refl

bare-krb5 :
    (d : Deployment) (self : Manager) (pod : PodSpec)
    → pod.main.args ≡ self.cmd ∷ []
    → bare (when self.kerberos (add_krb5_containers d self) pod) ≡ with_args d self (bare pod)
unfolding add_krb5_containers
bare-krb5 d self pod e = elim (Bool-cases self.kerberos) [
  | inl asked ↦ rw asked refl
  | inr not_asked ↦
      rw not_asked
        (ap (λ args. record (bare pod) { main = record (bare pod).main { args = args } }) e)
]

bare-node_selector :
    (label : Option String) (pod : PodSpec)
    → bare (add_node_selector label pod) ≡ add_node_selector label (bare pod)
bare-node_selector none pod = refl
bare-node_selector (some label) pod = refl

bare-add_identity :
    (d : Deployment) (self : Manager) (pod : PodSpec)
    → pod.main.args ≡ self.cmd ∷ []
    → bare (add_identity d self pod)
      ≡ add_node_selector d.node_label (
          with_args d self
            (record (bare pod) { security_context = some (d.user_gid, self.kubernetes_uid) }))
unfolding add_identity
bare-add_identity d self pod e =
    let started = record pod { security_context = some (d.user_gid, self.kubernetes_uid) } in
    let kerberos = when self.kerberos (add_krb5_containers d self) started in
    let voms = when self.voms_proxy (add_voms_proxy_init_container d self) kerberos in
    rw
      (
        bare-node_selector d.node_label (when self.rucio (add_rucio_init_container d) voms),
        bare-when self.rucio (add_rucio_init_container d) voms (bare-rucio d),
        bare-when self.voms_proxy (add_voms_proxy_init_container d self) kerberos
            (bare-voms d self),
        bare-krb5 d self started e,
      )
      refl

-- Whatever the deployment and the job, a pod that `execute` builds is, apart from its volumes, mounts,
-- environment, sidecars and init containers, the promised one.
pub bare-build_pod :
    (d : Deployment) (self : Manager) (pod : PodSpec)
    → build_pod d self ≡ ok pod
    → bare pod ≡ promised d self
unfolding build_pod promised initial_pod
bare-build_pod d self pod e =
    let secrets = extend_env (job_env self.env_vars) (add_secrets d (initial_pod self)) in
    let started = add_parts d self secrets in
    let (before, added, finished) =
      bind_result-ok (add_cvmfs_volumes d self.cvmfs_mounts started)
        (λ pod. ok (add_identity d self pod)) pod e in
    let same =
      bare-add_cvmfs_volumes d self.cvmfs_mounts started before added
      ∙ bare-add_parts d self secrets refl refl in
    ap bare (sym (ok_inj finished))
    ∙ bare-add_identity d self before (ap (λ p. p.main.args) same)
    ∙ ap
        (λ p. add_node_selector d.node_label (
          with_args d self
            (record p { security_context = some (d.user_gid, self.kubernetes_uid) })))
        same
    ∙ add_node_selector-unset d.node_label _ refl
