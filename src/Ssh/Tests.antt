-- ===== src/Ssh/Tests.antt =====
-- Tests of SSHClient, its decorator and the access token (reana_job_controller/utils.py), with a
-- network that answers from a table.
use reana_job_controller.Prelude.{
  Bool, List, String, [], false, if◌then◌else◌, none, refl, some, true, ◌==◌, ◌∷◌, ◌≡◌,
}
use reana_job_controller.Text.{concat}
use reana_job_controller.Dict.{lookup}
use reana_job_controller.Python.{Result, ok, other_error, raised, value_error}
use reana_job_controller.Ssh.{
  Event, Network, Options, Outcome, State, connect, establish_connection, exec_command, init_client,
  initialize_krb5_token, local_command, no_options, remote_command, resolved, ssh_client,
}
use reana_job_controller.Ssh.Token.{
  Service, access_token, is_access_token_valid, motley_cue_auth_handler, no_token,
  refresh_access_token,
}
use reana_job_controller.Ssh.Token.Trust.{RejectsEmpty, Served, access_token-Served}
use reana_job_controller.Ssh.Laws.{exec_command_cases, happened, ssh_client-once}
use reana_job_controller.Ssh.Effects.{IsReliable}

abbrev connected_once : List Event → Bool
connected_once [] = false
connected_once (event ∷ events) = true

-- Commands that start with "fail" fail; the first `pwd` tells the home directory.
abbrev answer_of : String → Result Outcome
answer_of command =
    if command == "pwd"
    then ok (0, "/home/user\n", "")
    else if command == "fail"
    then ok (1, "", "no such command")
    else ok (0, "42\n", "")

abbrev pub small_network : Network
small_network = record {
  resolve = λ hostname. raised (other_error "unknown host");
  connects = λ past client. ok tt;
  is_active = connected_once;
  run = λ past command. answer_of command;
  answers = λ past event. ok tt;
}

abbrev pub options_to : String → Options
options_to hostname = record no_options { hostname = some hostname }

abbrev pub start : State
start = record {
  instance_made = none;
  local_dirs = [];
  slurm_workspace_path = "";
  reana_workspace_path = "";
  c4p_home_path = "";
  c4p_workspace_path = "";
  events = [];
}

pub small_network-IsReliable : (client : Options) → IsReliable small_network client
small_network-IsReliable client = record { answers = λ past event. refl; connects = λ past. refl }

abbrev connected_state : State
connected_state = record start {
  instance_made = some (options_to "slurm");
  events = connect (options_to "slurm") ∷ [];
}

exec_command_cases_example :
    exec_command small_network (options_to "slurm") "fail" connected_state
    ≡ (ok none, happened connected_state (remote_command "fail" ∷ []))
exec_command_cases_example =
    (exec_command_cases small_network (options_to "slurm") "fail" connected_state).0 refl

first_call :
    ssh_client small_network (options_to "slurm") start ≡ (ok (options_to "slurm"), connected_state)
unfolding ssh_client init_client establish_connection resolved
first_call = refl

ssh_client-once_example :
    ssh_client small_network (options_to "punch") connected_state
    ≡ (ok (options_to "slurm"), connected_state)
ssh_client-once_example =
    ssh_client-once small_network (options_to "slurm") (options_to "punch") (options_to "slurm")
      start connected_state first_call

-- a user without a keytab file
no_keytab :
    (initialize_krb5_token small_network (("CERN_USER", "alice") ∷ []) "w1" start).1.events
    ≡ local_command "kinit -kt /etc/reana/secrets/None alice@CERN.CH" ∷ []
unfolding initialize_krb5_token lookup concat
no_keytab = refl

abbrev small_service : Service
small_service = record {
  new_token = λ n. ok "token";
  expiry_date = λ token. if token == "" then raised value_error else ok 1000;
}

small_service-RejectsEmpty : RejectsEmpty small_service
small_service-RejectsEmpty exp e = cc e

access_token-Served_example :
    Served small_service 5 no_token (access_token small_service 5 no_token)
access_token-Served_example =
    access_token-Served small_service 5 no_token small_service-RejectsEmpty
      (unfold is_access_token_valid in λ valid. absurd (cc valid))

fetched : (access_token small_service 5 no_token).0 ≡ ok (some "token")
unfolding access_token is_access_token_valid refresh_access_token
fetched = refl

one_prompt :
    (motley_cue_auth_handler small_service 5 ((true, true) ∷ (true, false) ∷ []) no_token).0
    ≡ ok (some "token" ∷ some "" ∷ [])
unfolding motley_cue_auth_handler access_token is_access_token_valid refresh_access_token
one_prompt = refl
