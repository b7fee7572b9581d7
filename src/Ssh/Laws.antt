-- ===== src/Ssh/Laws.antt =====
-- Proofs on SSHClient and its decorator (reana_job_controller/utils.py).
use reana_job_controller.Prelude.{
  List, Option, String, [], none, some, suc, zero, ◌++◌, ◌∷◌, ◌≡◌, false, refl, true, ◌⊎◌, ap, sym,
  ◌∙◌,
}
use reana_job_controller.Text.{}
use reana_job_controller.Python.{
  Result, ok, pure, raised, try_except, Exception, bind_result, handle, continue, ok_inj,
}
use reana_job_controller.Ssh.{
  Event, Network, Options, Outcome, State, check_exit, remote_command, run_command, connect,
  establish_connection, exec_command, init_client, keep_instance, ssh_client, get_instance,
}

-- what a command gives, seen by the caller
abbrev pub reply : Result Outcome → Option String
reply (ok (zero, stdout, stderr)) = some stdout
reply (ok (suc n, stdout, stderr)) = none
reply (raised e) = none

abbrev pub happened : State → List Event → State
happened s events = record s { events = s.events ++ events }

checked :
    (r : Result Outcome) (s : State)
    → handle (bind_result r check_exit) (λ e. pure none) s ≡ (ok (reply r), s)
unfolding check_exit
checked (ok (zero, stdout, stderr)) s = refl
checked (ok (suc n, stdout, stderr)) s = refl
checked (raised e) s = refl

module _ (net : Network) (client : Options) (command : String) (s : State) where
  run_command_lem :
      try_except (run_command net command) (λ e. pure none) s
      ≡ (ok (reply (net.run s.events command)), happened s (remote_command command ∷ []))
  unfolding run_command
  run_command_lem = checked (net.run s.events command) (happened s (remote_command command ∷ []))

  exec_command-active :
      net.is_active s.events ≡ true
      → exec_command net client command s
        ≡ (ok (reply (net.run s.events command)), happened s (remote_command command ∷ []))
  unfolding exec_command
  exec_command-active active = rw active run_command_lem

module _ (net : Network) (client : Options) (command : String) (s : State) where
  exec_command-unconnected :
      (e : Exception)
      → net.is_active s.events ≡ false
      → net.connects s.events client ≡ raised e
      → exec_command net client command s ≡ (raised e, happened s (connect client ∷ []))
  unfolding exec_command establish_connection
  exec_command-unconnected e inactive lost = rw (inactive, lost) refl

  exec_command-reconnected :
      net.is_active s.events ≡ false
      → net.connects s.events client ≡ ok tt
      → let past = s.events ++ connect client ∷ [] in
        exec_command net client command s ≡ (
          ok (reply (net.run past command)),
          record s { events = past ++ remote_command command ∷ [] },
        )
  unfolding exec_command establish_connection
  exec_command-reconnected inactive made =
      rw (inactive, made) (run_command_lem net client command (happened s (connect client ∷ [])))

-- A command that the network runs, with the connection made first if it is not active: the only
-- exception is that of the connection.
abbrev pub Connected : Network → Options → State → Type 0
Connected net client s = (net.is_active s.events ≡ true) ⊎ (net.connects s.events client ≡ ok tt)

-- On every branch: with an active connection the command is run on it; else the connection is made
-- first, with the same options, and its exception passes. When the command is run, its output is
-- given if it exits with 0, and None whatever else happens to it.
pub exec_command_cases :
    (net : Network) (client : Options) (command : String) (s : State)
    → (net.is_active s.events ≡ true
        → exec_command net client command s
          ≡ (ok (reply (net.run s.events command)), happened s (remote_command command ∷ [])))
      × (net.is_active s.events ≡ false
          → net.connects s.events client ≡ ok tt
          → let past = s.events ++ connect client ∷ [] in
            exec_command net client command s ≡ (
              ok (reply (net.run past command)),
              record s { events = past ++ remote_command command ∷ [] },
            ))
      × ((e : Exception)
          → net.is_active s.events ≡ false
          → net.connects s.events client ≡ raised e
          → exec_command net client command s ≡ (raised e, happened s (connect client ∷ [])))
exec_command_cases net client command s = (
  exec_command-active net client command s,
  exec_command-reconnected net client command s,
  exec_command-unconnected net client command s,
)

keep_instance-made :
    (r : Result Options) (client : Options) (before after : State)
    → continue r keep_instance before ≡ (ok client, after)
    → after.instance_made ≡ some client
unfolding keep_instance
keep_instance-made (ok made) client before after e =
    ap (λ p. p.1.instance_made) (sym e) ∙ ap some (ok_inj (ap (λ p. p.0) e))
keep_instance-made (raised x) client before after e = cc (ap (λ p. p.0) e)

get_instance-made :
    (net : Network) (made : Option Options) (options client : Options) (s after : State)
    → s.instance_made ≡ made
    → get_instance net made options s ≡ (ok client, after)
    → after.instance_made ≡ some client
unfolding get_instance
get_instance-made net none options client s after m e =
    let (r, before) = init_client net options s in keep_instance-made r client before after e
get_instance-made net (some made) options client s after m e =
    ap (λ p. p.1.instance_made) (sym e) ∙ m ∙ ap some (ok_inj (ap (λ p. p.0) e))

-- Once a call of SSHClient has given an object, each later call gives the same object, whatever its
-- own arguments are, and makes no connection.
pub ssh_client-once :
    (net : Network) (options later client : Options) (s after : State)
    → ssh_client net options s ≡ (ok client, after)
    → ssh_client net later after ≡ (ok client, after)
unfolding ssh_client get_instance
ssh_client-once net options later client s after e =
    rw (get_instance-made net s.instance_made options client s after refl e) refl
