-- ===== src/Kubernetes/JobSpec/Credentials.antt =====
-- _add_voms_proxy_init_container and _add_rucio_init_container of
-- reana_job_controller/kubernetes_job_manager.py: the init containers that prepare the grid proxy and
-- the Rucio configuration, with the volume that hands each of them over to the job.
use reana_job_controller.Prelude.{String, [], if◌then◌else◌, none, some, ◌==◌, ◌∷◌}
use reana_job_controller.Prelude.Int.{ℤ}
use reana_job_controller.Text.{concat, join_path, show_int, to_lower}
use reana_job_controller.Dict.{Dict, lookup}
use reana_job_controller.Kubernetes.JobSpec.{
  Container, Deployment, EnvVar, Manager, PodSpec, ProxySettings, Volume, VolumeMount, empty_dir,
  extend_env, extend_init, extend_volumes, mount, plain,
}

-- os.environ.get(name, default)
abbrev pub get_env : Dict String → String → String → String
get_env environ name default = elim (lookup name environ) [ none ↦ default | some value ↦ value ]

abbrev plain_var : String → String → EnvVar
plain_var name value = record { name = name; value = plain (some value) }

-- the volume of a cache and its mount
abbrev pub cache_volume : String → Volume
cache_volume name = record { name = name; source = empty_dir }

abbrev pub cache_mount : String → ProxySettings → VolumeMount
cache_mount name settings = record { name = name; mount_path = settings.cache_location }

-- the init container of a cache
unfoldable pub init_container : Deployment → ProxySettings → VolumeMount → String → Container
init_container d settings cache script = record {
  image = settings.container_image;
  command = "/bin/bash" ∷ [];
  args = "-c" ∷ script ∷ [];
  name = settings.container_name;
  env = d.secret_env_vars;
  volume_mounts = d.secrets_volume_mount ∷ cache ∷ [];
  allow_privilege_escalation = none;
  image_pull_policy = some "IfNotPresent";
  memory_limit = none;
}

-- the four statements at the end of both methods
unfoldable pub add_cache : String → ProxySettings → EnvVar → Container → PodSpec → PodSpec
add_cache name settings var container pod = extend_init (container ∷ []) (
    extend_env (var ∷ [])
      (mount (cache_mount name settings ∷ []) (extend_volumes (cache_volume name ∷ []) pod)))

-- multi-user deployment mode: the proxy file is supplied by the user
user_proxy_script : String → String → String → String
user_proxy_script user_file file_path uid = concat (
    "if [ ! -f \"/etc/reana/secrets/" ∷ user_file
    ∷ "\" ]; then                         echo \"[ERROR] VOMSPROXY_FILE " ∷ user_file
    ∷ " does not exist in user secrets.\";                         exit;                      fi;                      cp /etc/reana/secrets/"
    ∷ user_file ∷ " " ∷ file_path ∷ ";                      chown " ∷ uid ∷ " " ∷ file_path ∷ [])

-- single-user deployment mode: the proxy file is generated from the user's secrets
generated_proxy_script : String → String → String → String
generated_proxy_script vo file_path uid = concat (
    "if [ ! -f \"/etc/reana/secrets/userkey.pem\" ]; then                         echo \"[ERROR] File userkey.pem does not exist in user secrets.\";                         exit;                      fi;                      if [ ! -f \"/etc/reana/secrets/usercert.pem\" ]; then                         echo \"[ERROR] File usercert.pem does not exist in user secrets.\";                         exit;                      fi;                      if [ -z \"$VOMSPROXY_PASS\" ]; then                         echo \"[ERROR] Environment variable VOMSPROXY_PASS is not set in user secrets.\";                         exit;                      fi;                      if [ -z \"$VONAME\" ]; then                         echo \"[ERROR] Environment variable VONAME is not set in user secrets.\";                         exit;                      fi;                      cp /etc/reana/secrets/userkey.pem /tmp/userkey.pem;                          chmod 400 /tmp/userkey.pem;                          echo $VOMSPROXY_PASS | base64 -d | voms-proxy-init                          --voms "
    ∷ to_lower vo
    ∷ " --key /tmp/userkey.pem                          --cert $(readlink -f /etc/reana/secrets/usercert.pem)                          --pwstdin --out "
    ∷ file_path
    ∷ ";                          chown "
    ∷ uid
    ∷ " "
    ∷ file_path
    ∷ [])

voms_proxy_script : Dict String → String → ℤ → String
unfolding user_proxy_script generated_proxy_script
voms_proxy_script environ file_path kubernetes_uid =
    let user_file = get_env environ "VOMSPROXY_FILE" "" in
    if user_file == ""
    then generated_proxy_script (get_env environ "VONAME" "") file_path (show_int kubernetes_uid)
    else user_proxy_script user_file file_path (show_int kubernetes_uid)

unfoldable pub voms_proxy_file_path : Deployment → String
voms_proxy_file_path d = join_path d.voms_proxy.cache_location d.voms_proxy.cache_filename

unfoldable pub add_voms_proxy_init_container : Deployment → Manager → PodSpec → PodSpec
unfolding add_cache init_container voms_proxy_script voms_proxy_file_path
add_voms_proxy_init_container d self pod =
    let file_path = voms_proxy_file_path d in
    add_cache "voms-proxy-cache" d.voms_proxy (plain_var "X509_USER_PROXY" file_path)
      (init_container d d.voms_proxy (cache_mount "voms-proxy-cache" d.voms_proxy)
        (voms_proxy_script d.environ file_path self.kubernetes_uid))
      pod

-- the hosts that are detected from the name of the virtual organisation
abbrev detected_host : String → String
detected_host vo =
    if vo == "atlas"
    then "https://voatlasrucio-server-prod.cern.ch"
    else concat ("https://" ∷ vo ∷ "-rucio.cern.ch" ∷ [])

abbrev detected_auth_host : String → String
detected_auth_host vo =
    if vo == "atlas"
    then "https://voatlasrucio-auth-prod.cern.ch"
    else concat ("https://" ∷ vo ∷ "-rucio-auth.cern.ch" ∷ [])

rucio_script : String → String → String → String → String → String → String
rucio_script account vo host auth_host bundle_path config_path = concat (
    "if [ -z \"$VONAME\" ]; then                     echo \"[ERROR] Environment variable VONAME is not set in user secrets.\";                     exit;                  fi;                  if [ -z \"$RUCIO_USERNAME\" ]; then                     echo \"[ERROR] Environment variable RUCIO_USERNAME is not set in user secrets.\";                     exit;                  fi;                  export RUCIO_CFG_ACCOUNT="
    ∷ account ∷ "                     RUCIO_CFG_CLIENT_VO=" ∷ vo
    ∷ "                     RUCIO_CFG_RUCIO_HOST=" ∷ host
    ∷ "                     RUCIO_CFG_AUTH_HOST=" ∷ auth_host
    ∷ ";                 cp /etc/pki/tls/certs/CERN-bundle.pem " ∷ bundle_path
    ∷ ";                 j2 /opt/user/rucio.cfg.j2 > " ∷ config_path ∷ [])

unfoldable pub rucio_config_file_path : Deployment → String
rucio_config_file_path d = join_path d.rucio.cache_location d.rucio.cache_filename

unfoldable pub add_rucio_init_container : Deployment → PodSpec → PodSpec
unfolding add_cache init_container rucio_script rucio_config_file_path
add_rucio_init_container d pod =
    let config_path = rucio_config_file_path d in
    let vo = get_env d.environ "VONAME" "" in
    add_cache "rucio-cache" d.rucio (plain_var "RUCIO_CONFIG" config_path)
      (init_container d d.rucio (cache_mount "rucio-cache" d.rucio) (
        rucio_script (get_env d.environ "RUCIO_USERNAME" "") vo
          (get_env d.environ "RUCIO_RUCIO_HOST" (detected_host vo))
          (get_env d.environ "RUCIO_AUTH_HOST" (detected_auth_host vo))
          (join_path d.rucio.cache_location d.cern_bundle_filename) config_path))
      pod
