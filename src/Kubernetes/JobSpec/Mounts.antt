-- ===== src/Kubernetes/JobSpec/Mounts.antt =====
-- Proofs on the job that is built (reana_job_controller/kubernetes_job_manager.py): each volume that a
-- container mounts is a volume of the pod.
use mathlib.Core.Path.{subst}
use reana_job_controller.Prelude.{
  All, List, String, [], arith, eq_refl, refl, some, true, ◌++◌, ◌∷◌, ◌≡◌, Bool, Bool-cases, Option,
  eq_iff, false, inl, inr, none, not, ◌&&◌, ◌==◌,
}
use reana_job_controller.Prelude.Int.{ℤ}
use reana_job_controller.Text.{}
use reana_job_controller.Dict.{}
use reana_job_controller.Python.{ok, ok_inj, bind_result-ok}
use reana_job_controller.Kubernetes.JobSpec.{
  Container, Deployment, PodSpec, Volume, VolumeMount, extend_init, extend_volumes, has_volume,
  mount, EnvVar, HostMount, Manager, ProxySettings, add_eos_volume, add_hostpath_volumes,
  add_image_pull_secrets, add_krb5_containers, add_kubernetes_job_timeout, add_memory_limit,
  add_shared_volume, add_volumes, add_workspace_volume, extend_env, hostpath_volumes,
}
use reana_job_controller.Kubernetes.JobSpec.Credentials.{
  add_cache, cache_mount, cache_volume, add_voms_proxy_init_container, add_rucio_init_container,
  init_container,
}
use reana_job_controller.Kubernetes.JobSpec.Build.{
  add_cvmfs, add_cvmfs_volumes, add_identity, add_node_selector, add_parts, add_secrets,
  initial_pod, job_env, when, build_pod,
}

-- each of the mounts names one of the volumes
abbrev pub Covered : List Volume → List VolumeMount → Type 0
Covered vs ms = All (λ m. has_volume m.name vs ≡ true) ms

abbrev pub AllCovered : List Volume → List Container → Type 0
AllCovered vs cs = All (λ c. Covered vs c.volume_mounts) cs

-- What reana_commons and the configuration promise: a mount comes with its volume.
pub record IsCoherent (d : Deployment) : Type 0 where
  pub secrets : d.secrets_volume_mount.name ≡ d.secrets_volume.name
  pub workspace : (w : String) → (d.workspace_volume w).0.name ≡ (d.workspace_volume w).1.name
  pub eos : (p : VolumeMount × Volume) → d.eos_volume ≡ some p → p.0.name ≡ p.1.name
  pub cvmfs :
      (repositories : String) (parts : List VolumeMount × List Volume)
      → d.cvmfs_volumes repositories ≡ ok parts
      → Covered parts.1 parts.0
  pub kerberos :
      (uid : ℤ)
      → let krb5 = d.kerberos_config uid in
        let own = d.secrets_volume ∷ krb5.volumes in
        Covered own krb5.volume_mounts
        × Covered own krb5.init_container.volume_mounts
        × Covered own krb5.renew_container.volume_mounts

has_volume-append_left :
    (name : String) (vs ws : List Volume)
    → has_volume name vs ≡ true
    → has_volume name (vs ++ ws) ≡ true
unfolding has_volume
has_volume-append_left name [] ws h = cc h
has_volume-append_left name (v ∷ vs) ws h = ground (arith, has_volume-append_left name vs ws)

has_volume-append_right :
    (name : String) (vs ws : List Volume)
    → has_volume name ws ≡ true
    → has_volume name (vs ++ ws) ≡ true
unfolding has_volume
has_volume-append_right name [] ws h = h
has_volume-append_right name (v ∷ vs) ws h = ground (arith, has_volume-append_right name vs ws)

has_volume-last :
    (name : String) (vs : List Volume) (v : Volume)
    → name ≡ v.name
    → has_volume name (vs ++ v ∷ []) ≡ true
unfolding has_volume
has_volume-last name vs v e = has_volume-append_right name vs (v ∷ []) (rw (e, eq_refl v.name) refl)

Covered-append_left :
    (vs ws : List Volume) (ms : List VolumeMount) → Covered vs ms → Covered (vs ++ ws) ms
Covered-append_left vs ws [] h = tt
Covered-append_left vs ws (m ∷ ms) h =
    (has_volume-append_left m.name vs ws h.0, Covered-append_left vs ws ms h.1)

Covered-append_right :
    (vs ws : List Volume) (ms : List VolumeMount) → Covered ws ms → Covered (vs ++ ws) ms
Covered-append_right vs ws [] h = tt
Covered-append_right vs ws (m ∷ ms) h =
    (has_volume-append_right m.name vs ws h.0, Covered-append_right vs ws ms h.1)

AllCovered-append_left :
    (vs ws : List Volume) (cs : List Container) → AllCovered vs cs → AllCovered (vs ++ ws) cs
AllCovered-append_left vs ws [] h = tt
AllCovered-append_left vs ws (c ∷ cs) h =
    (Covered-append_left vs ws c.volume_mounts h.0, AllCovered-append_left vs ws cs h.1)

All-append : {A : Type 0} (P : A → Type 0) (xs ys : List A) → All P xs → All P ys → All P (xs ++ ys)
All-append P [] ys h k = k
All-append P (x ∷ xs) ys h k = (h.0, All-append P xs ys h.1 k)

-- what holds of a pod while it is built
pub record Fits (d : Deployment) (pod : PodSpec) : Type 0 where
  pub main : Covered pod.volumes pod.main.volume_mounts
  pub sidecars : AllCovered pod.volumes pod.sidecars
  pub init_containers : AllCovered pod.volumes pod.init_containers
  pub secrets : has_volume d.secrets_volume.name pod.volumes ≡ true

module _ {d : Deployment} {pod : PodSpec} where
  extend_volumes-Fits : (ws : List Volume) → Fits d pod → Fits d (extend_volumes ws pod)
  extend_volumes-Fits ws f = record {
    main = Covered-append_left pod.volumes ws pod.main.volume_mounts f.main;
    sidecars = AllCovered-append_left pod.volumes ws pod.sidecars f.sidecars;
    init_containers = AllCovered-append_left pod.volumes ws pod.init_containers f.init_containers;
    secrets = has_volume-append_left d.secrets_volume.name pod.volumes ws f.secrets;
  }

  mount-Fits : (ms : List VolumeMount) → Covered pod.volumes ms → Fits d pod → Fits d (mount ms pod)
  mount-Fits ms c f = record {
    main = All-append _ pod.main.volume_mounts ms f.main c;
    sidecars = f.sidecars;
    init_containers = f.init_containers;
    secrets = f.secrets;
  }

  extend_init-Fits :
      (cs : List Container) → AllCovered pod.volumes cs → Fits d pod → Fits d (extend_init cs pod)
  extend_init-Fits cs c f = record {
    main = f.main;
    sidecars = f.sidecars;
    init_containers = All-append _ pod.init_containers cs f.init_containers c;
    secrets = f.secrets;
  }

  -- a volume with its mount
  add_volume-Fits :
      (m : VolumeMount) (v : Volume)
      → m.name ≡ v.name
      → Fits d pod
      → Fits d (extend_volumes (v ∷ []) (mount (m ∷ []) pod))
  add_volume-Fits m v e f =
      let g = extend_volumes-Fits (v ∷ []) f in
      record {
        main =
            All-append _ pod.main.volume_mounts (m ∷ []) g.main
              (has_volume-last m.name pod.volumes v e, tt);
        sidecars = g.sidecars;
        init_containers = g.init_containers;
        secrets = g.secrets;
      }

abbrev Paired : List (VolumeMount × Volume) → Type 0
Paired = All (λ p. p.0.name ≡ p.1.name)

-- a volume is the one of the secrets or one of the new ones
Covered-own :
    (sv : Volume) (vs ws : List Volume) (ms : List VolumeMount)
    → has_volume sv.name vs ≡ true
    → Covered (sv ∷ ws) ms
    → Covered (vs ++ ws) ms
unfolding has_volume
Covered-own sv vs ws [] h c = tt
Covered-own sv vs ws (m ∷ ms) h c = (
  elim (Bool-cases (sv.name == m.name)) [
    | inl same ↦ has_volume-append_left m.name vs ws (rw (← (eq_iff sv.name m.name).0 same) h)
    | inr other ↦ has_volume-append_right m.name vs ws (rw other at c.0)
  ],
  Covered-own sv vs ws ms h c.1,
)

module _ {d : Deployment} where
  add_volumes-Fits :
      (parts : List (VolumeMount × Volume)) (pod : PodSpec)
      → Paired parts
      → Fits d pod
      → Fits d (add_volumes parts pod)
  unfolding add_volumes
  add_volumes-Fits [] pod h f = f
  add_volumes-Fits ((m, v) ∷ parts) pod h f =
      add_volumes-Fits parts (extend_volumes (v ∷ []) (mount (m ∷ []) pod)) h.1
        (add_volume-Fits m v h.0 f)

  add_shared_volume-Fits :
      (shared : Bool) (pod : PodSpec) → Fits d pod → Fits d (add_shared_volume d shared pod)
  unfolding add_shared_volume
  add_shared_volume-Fits shared pod f =
      elim (Bool-cases (shared && not (has_volume d.shared_volume.name pod.volumes))) [
        | inl added ↦ rw added (extend_volumes-Fits (d.shared_volume ∷ []) f)
        | inr kept ↦ rw kept f
      ]

  add_memory_limit-Fits :
      (own default : Option String) (pod : PodSpec)
      → Fits d pod
      → Fits d (add_memory_limit own default pod)
  unfolding add_memory_limit
  add_memory_limit-Fits none none pod f = f
  add_memory_limit-Fits none (some default) pod f = record {
    main = f.main;
    sidecars = f.sidecars;
    init_containers = f.init_containers;
    secrets = f.secrets;
  }
  add_memory_limit-Fits (some own) default pod f = record {
    main = f.main;
    sidecars = f.sidecars;
    init_containers = f.init_containers;
    secrets = f.secrets;
  }

  add_kubernetes_job_timeout-Fits :
      (timeout : Option ℤ) (pod : PodSpec)
      → Fits d pod
      → Fits d (add_kubernetes_job_timeout timeout pod)
  unfolding add_kubernetes_job_timeout
  add_kubernetes_job_timeout-Fits none pod f = f
  add_kubernetes_job_timeout-Fits (some timeout) pod f = record {
    main = f.main;
    sidecars = f.sidecars;
    init_containers = f.init_containers;
    secrets = f.secrets;
  }

  add_image_pull_secrets-Fits :
      (names : List String) (pod : PodSpec) → Fits d pod → Fits d (add_image_pull_secrets names pod)
  unfolding add_image_pull_secrets
  add_image_pull_secrets-Fits names pod f = record {
    main = f.main;
    sidecars = f.sidecars;
    init_containers = f.init_containers;
    secrets = f.secrets;
  }

hostpath_volumes-Paired : (ms : List HostMount) → Paired (hostpath_volumes ms)
unfolding hostpath_volumes
hostpath_volumes-Paired [] = tt
hostpath_volumes-Paired (m ∷ ms) = (refl, hostpath_volumes-Paired ms)

module _ {d : Deployment} (coherent : IsCoherent d) where
  add_eos_volume-Fits :
      (eos : Option (VolumeMount × Volume)) (pod : PodSpec)
      → d.eos_volume ≡ eos
      → Fits d pod
      → Fits d (add_eos_volume eos pod)
  unfolding add_eos_volume
  add_eos_volume-Fits none pod e f = f
  add_eos_volume-Fits (some parts) pod e f =
      add_volumes-Fits (parts ∷ []) pod (coherent.eos parts e, tt) f

  add_parts-Fits : (self : Manager) (pod : PodSpec) → Fits d pod → Fits d (add_parts d self pod)
  unfolding add_parts add_hostpath_volumes add_workspace_volume
  add_parts-Fits self pod f = add_kubernetes_job_timeout-Fits self.kubernetes_job_timeout _ (
      add_image_pull_secrets-Fits d.image_pull_secrets _ (
        add_eos_volume-Fits d.eos_volume _ refl (
          add_shared_volume-Fits self.shared_file_system _ (
            add_volumes-Fits (d.workspace_volume self.workflow_workspace ∷ []) _
              (coherent.workspace self.workflow_workspace, tt)
              (add_volumes-Fits (hostpath_volumes d.hostpath_mounts) _
                (hostpath_volumes-Paired d.hostpath_mounts)
                (add_memory_limit-Fits self.kubernetes_memory_limit d.default_memory_limit pod
                  f))))))

  start-Fits :
      (self : Manager)
      → Fits d (extend_env (job_env self.env_vars) (add_secrets d (initial_pod self)))
  unfolding initial_pod add_secrets has_volume
  start-Fits self = record {
    main = (rw (coherent.secrets, eq_refl d.secrets_volume.name) refl, tt);
    sidecars = tt;
    init_containers = tt;
    secrets = rw (eq_refl d.secrets_volume.name) refl;
  }

  add_cvmfs-Fits :
      (parts : List VolumeMount × List Volume) (pod : PodSpec)
      → Covered parts.1 parts.0
      → Fits d pod
      → Fits d (add_cvmfs parts pod)
  unfolding add_cvmfs
  add_cvmfs-Fits (ms, vs) pod c f =
      mount-Fits ms (Covered-append_right pod.volumes vs ms c) (extend_volumes-Fits vs f)

  add_krb5_containers-Fits :
      (self : Manager) (pod : PodSpec) → Fits d pod → Fits d (add_krb5_containers d self pod)
  unfolding add_krb5_containers
  add_krb5_containers-Fits self pod f =
      let krb5 = d.kerberos_config self.kubernetes_uid in
      let (own, init, renew) = coherent.kerberos self.kubernetes_uid in
      let grown = λ (ms : List VolumeMount) (c : Covered (d.secrets_volume ∷ krb5.volumes) ms).
        Covered-own d.secrets_volume pod.volumes krb5.volumes ms f.secrets c in
      let g = extend_volumes-Fits krb5.volumes f in
      record {
        main = All-append _ pod.main.volume_mounts krb5.volume_mounts g.main (grown _ own);
        sidecars =
            All-append _ pod.sidecars (krb5.renew_container ∷ []) g.sidecars (grown _ renew, tt);
        init_containers =
            All-append _ pod.init_containers (krb5.init_container ∷ []) g.init_containers
              (grown _ init, tt);
        secrets = g.secrets;
      }

  add_cache-Fits :
      (name : String) (settings : ProxySettings) (var : EnvVar) (container : Container)
      (pod : PodSpec)
      → container.volume_mounts ≡ d.secrets_volume_mount ∷ cache_mount name settings ∷ []
      → Fits d pod
      → Fits d (add_cache name settings var container pod)
  unfolding add_cache
  add_cache-Fits name settings var container pod e f =
      let volume = cache_volume name in
      let g = extend_volumes-Fits (volume ∷ []) f in
      let here = has_volume-last name pod.volumes volume refl in
      record {
        main =
            All-append _ pod.main.volume_mounts (cache_mount name settings ∷ []) g.main (here, tt);
        sidecars = g.sidecars;
        init_containers =
            All-append _ pod.init_containers (container ∷ []) g.init_containers
              (rw e (rw coherent.secrets g.secrets, (here, tt)), tt);
        secrets = g.secrets;
      }

  when-Fits :
      (asked : Bool) (add : PodSpec → PodSpec) (pod : PodSpec)
      → ((p : PodSpec) → Fits d p → Fits d (add p))
      → Fits d pod
      → Fits d (when asked add pod)
  when-Fits true add pod h f = h pod f
  when-Fits false add pod h f = f

  add_node_selector-Fits :
      (label : Option String) (pod : PodSpec) → Fits d pod → Fits d (add_node_selector label pod)
  add_node_selector-Fits none pod f = f
  add_node_selector-Fits (some label) pod f = record {
    main = f.main;
    sidecars = f.sidecars;
    init_containers = f.init_containers;
    secrets = f.secrets;
  }

  add_voms-Fits :
      (self : Manager) (pod : PodSpec)
      → Fits d pod
      → Fits d (add_voms_proxy_init_container d self pod)
  unfolding add_voms_proxy_init_container init_container
  add_voms-Fits self pod f = add_cache-Fits "voms-proxy-cache" d.voms_proxy _ _ pod refl f

  add_rucio-Fits : (pod : PodSpec) → Fits d pod → Fits d (add_rucio_init_container d pod)
  unfolding add_rucio_init_container init_container
  add_rucio-Fits pod f = add_cache-Fits "rucio-cache" d.rucio _ _ pod refl f

  add_identity-Fits :
      (self : Manager) (pod : PodSpec) → Fits d pod → Fits d (add_identity d self pod)
  unfolding add_identity
  add_identity-Fits self pod f =
      let started = record pod { security_context = some (d.user_gid, self.kubernetes_uid) } in
      let f0 : Fits d started = record {
        main = f.main;
        sidecars = f.sidecars;
        init_containers = f.init_containers;
        secrets = f.secrets;
      } in
      add_node_selector-Fits d.node_label _ (
        when-Fits self.rucio (add_rucio_init_container d) _ add_rucio-Fits (
          when-Fits self.voms_proxy (add_voms_proxy_init_container d self) _ (add_voms-Fits self) (
            when-Fits self.kerberos (add_krb5_containers d self) started
              (add_krb5_containers-Fits self) f0)))

  add_cvmfs_volumes-Fits :
      (repositories : String) (pod result : PodSpec)
      → add_cvmfs_volumes d repositories pod ≡ ok result
      → Fits d pod
      → Fits d result
  unfolding add_cvmfs_volumes
  add_cvmfs_volumes-Fits repositories pod result e f = elim (Bool-cases (repositories == "false")) [
    | inl unused ↦ subst (Fits d) (ok_inj (rw unused at e)) f
    | inr used ↦
        let e' = rw used at e in
        let (parts, found, added) =
          bind_result-ok (d.cvmfs_volumes repositories) (λ parts. ok (add_cvmfs parts pod)) result
            e' in
        subst (Fits d) (ok_inj added)
          (add_cvmfs-Fits parts pod (coherent.cvmfs repositories parts found) f)
  ]

-- Of a coherent deployment, in the pod that `execute` builds, whatever the job asks for, each volume
-- mount of the job's container, of the containers behind it and of the init containers names a
-- volume of the pod, and the volume of the secrets is there.
pub build_pod-Fits :
    (d : Deployment) (self : Manager) (pod : PodSpec)
    → IsCoherent d
    → build_pod d self ≡ ok pod
    → Fits d pod
unfolding build_pod
build_pod-Fits d self pod coherent e =
    let started =
      add_parts d self (extend_env (job_env self.env_vars) (add_secrets d (initial_pod self))) in
    let (before, added, finished) =
      bind_result-ok (add_cvmfs_volumes d self.cvmfs_mounts started)
        (λ pod. ok (add_identity d self pod)) pod e in
    subst (Fits d) (ok_inj finished) (
      add_identity-Fits coherent self before (
        add_cvmfs_volumes-Fits coherent self.cvmfs_mounts started before added
          (add_parts-Fits coherent self _ (start-Fits coherent self))))
