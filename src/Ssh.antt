-- ===== src/Ssh.antt =====
-- SSHClient with its decorator `singleton`, and initialize_krb5_token
-- (reana_job_controller/utils.py): the one SSH connection that the Slurm and the Compute4PUNCH
-- managers use. The network, which is not part of the repository, is a parameter; its answers may
-- depend on all that happened before.
pub mod Laws
pub mod Effects
pub mod Answers
pub mod Token
pub mod Tests
use reana_job_controller.Prelude.{
  Bool, List, Option, String, [], if◌then◌else◌, none, some, ℕ, ◌++◌, ◌==◌, ◌∷◌, false, not, suc,
  zero,
}
use reana_job_controller.Text.{concat, str}
use reana_job_controller.Dict.{Dict, lookup}
use reana_job_controller.Python.{
  Action, Result, bind_result, gets, ok, other_error, pure, raised, try_except, ◌>>=◌, ◌>>◌,
  Exception, called_process_error, raise, system_exit,
}

-- the keyword arguments of SSHClient
pub record Options : Type 0 where
  pub hostname : Option String
  pub port : Option ℕ
  pub timeout : Option ℕ
  pub banner_timeout : Option ℕ
  pub auth_timeout : Option ℕ
  -- the strategy, by a name
  pub auth_strategy : Option String

-- SSHClient()
abbrev pub no_options : Options
no_options = record {
  hostname = none;
  port = none;
  timeout = none;
  banner_timeout = none;
  auth_timeout = none;
  auth_strategy = none;
}

pub data Event : Type 0 where
  -- ssh_client.connect and ssh_client.exec_command
  connect : Options → Event
  remote_command : String → Event
  -- SFTP
  open_sftp close_sftp : Event
  remote_chdir remote_mkdir remote_stat remote_list : String → Event
  -- from the remote path to the local one, from the local path to the remote one
  get_file put_file : String → String → Event
  -- on this side
  local_chdir makedirs : String → Event
  local_command : String → Event
  -- Workflow.update_workflow_status with new logs
  workflow_logs : String → String → Event

pub record State : Type 0 where
  -- `instances` of the decorator: the object SSHClient, by its attributes
  pub instance_made : Option Options
  pub local_dirs : List String
  -- class attributes of SlurmJobManagerCERN: SLURM_WORKSAPCE_PATH and REANA_WORKSPACE_PATH
  pub slurm_workspace_path : String
  pub reana_workspace_path : String
  -- class attributes of Compute4PUNCHJobManager: C4P_HOME_PATH and C4P_WORKSPACE_PATH
  pub c4p_home_path : String
  pub c4p_workspace_path : String
  -- oldest first
  pub events : List Event

-- exit status, standard output and standard error
abbrev pub Outcome : Type 0
Outcome = ℕ × String × String

pub record Network : Type 0 where
  -- socket.gethostbyname_ex(hostname)[2][0]
  pub resolve : String → Result String
  -- ssh_client.connect(...), given what happened before
  pub connects : List Event → Options → Result (Unit {0})
  -- get_transport().active
  pub is_active : List Event → Bool
  pub run : List Event → String → Result Outcome
  -- an operation of SFTP, or one on this side
  pub answers : List Event → Event → Result (Unit {0})

-- An event is recorded when it is attempted.
abbrev pub perform {ℓ} : {A : Type ℓ} → Event → (List Event → Result A) → State → Result A × State
perform event outcome s = (outcome s.events, record s { events = s.events ++ event ∷ [] })

-- the truth of a text or None
abbrev pub is_set : Option String → Bool
is_set none = false
is_set (some t) = not (t == "")

keep_instance : Options → Action State Options
keep_instance client s = (ok client, record s { instance_made = some client })

-- the body of the `try`
check_exit : Outcome → Result (Option String)
check_exit (zero, stdout, stderr) = ok (some stdout)
check_exit (suc n, stdout, stderr) = raised (other_error stderr)

module _ (net : Network) where
  -- an operation of SFTP, or one on this side
  abbrev pub operate : Event → Action State (Unit {0})
  operate event = perform event (λ past. net.answers past event)

  -- the attribute `hostname`
  unfoldable pub resolved : Option String → Option String
  resolved none = none
  resolved (some hostname) =
      if hostname == ""
      then some hostname
      else elim (net.resolve hostname) [ ok address ↦ some address | raised e ↦ some hostname ]

  unfoldable pub establish_connection : Options → Action State (Unit {0})
  establish_connection client = perform (connect client) (λ past. net.connects past client)

  -- SSHClient.__init__, which gives the object
  unfoldable pub init_client : Options → Action State Options
  unfolding establish_connection resolved
  init_client options = do
    let client = record options { hostname = resolved options.hostname }
    establish_connection client
    pure client

  -- the object that is there, else a new one, which is kept
  get_instance : Option Options → Options → Action State Options
  unfolding init_client keep_instance
  get_instance none options = init_client options >>= keep_instance
  get_instance (some client) options = pure client

  -- getinstance(**kwargs) of the decorator
  unfoldable pub ssh_client : Options → Action State Options
  unfolding get_instance
  ssh_client options s = get_instance s.instance_made options s

  run_command : String → Action State (Option String)
  unfolding check_exit
  run_command command =
      perform (remote_command command) (λ past. bind_result (net.run past command) check_exit)

  -- None when the command fails: the exception is logged.
  unfoldable pub exec_command : Options → String → Action State (Option String)
  unfolding establish_connection run_command
  exec_command client command = do
    past ← gets (λ s. s.events)
    (if net.is_active past then pure tt else establish_connection client)
    try_except (run_command command) (λ e. pure none)

  -- `except subprocess.CalledProcessError`: the error goes to the workflow's logs, then sys.exit(1).
  on_kinit_error : String → String → Exception → Action State (Unit {0})
  on_kinit_error workflow_uuid cmd (called_process_error e) = do
    operate (
        workflow_logs workflow_uuid
          (concat ("Executing: " ∷ cmd ∷ " \n Authentication failed: " ∷ e ∷ [])))
    raise system_exit
  on_kinit_error workflow_uuid cmd e = raise e

  -- Without a user the error is only logged. An empty CERN_USER counts as none.
  unfoldable pub initialize_krb5_token : Dict String → String → Action State (Unit {0})
  unfolding on_kinit_error
  initialize_krb5_token environ workflow_uuid =
      let cern_user = lookup "CERN_USER" environ in
      let cmd = concat (
        "kinit -kt /etc/reana/secrets/"
        ∷ str (lookup "CERN_KEYTAB" environ)
        ∷ " "
        ∷ str cern_user
        ∷ "@CERN.CH"
        ∷ []) in
      if is_set cern_user
      then try_except (operate (local_command cmd)) (on_kinit_error workflow_uuid cmd)
      else operate (workflow_logs workflow_uuid "CERN_USER is not set.")
