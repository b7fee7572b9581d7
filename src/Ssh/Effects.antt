-- ===== src/Ssh/Effects.antt =====
-- Lemmas on actions over an SSH connection (reana_job_controller/utils.py and its callers): what an
-- action that succeeds adds to the events of one kind.
use mathlib.Core.List.{append-nil, append_assoc}
use reana_job_controller.Prelude.{
  List, [], ap, refl, sym, ◌++◌, ◌∙◌, ◌∷◌, ◌≡◌, Bool-cases, String, inl, inr, Option, none, some,
}
use reana_job_controller.Text.{}
use reana_job_controller.Python.{
  ◌>>=◌, ◌>>◌, Action, ok, pure, Exception, try_except, gets, try_finally,
}
use reana_job_controller.Dict.{Dict, lookup}
use reana_job_controller.Ssh.{
  Event, State, Network, Options, connect, exec_command, operate, remote_command,
  establish_connection, get_instance, init_client, initialize_krb5_token, is_set, keep_instance,
  resolved, ssh_client,
}
use reana_job_controller.Ssh.Laws.{exec_command_cases, reply}

-- what a function picks from the events
unfoldable pub picked : {X : Type 0} → (Event → List X) → List Event → List X
picked pick [] = []
picked pick (event ∷ events) = pick event ++ picked pick events

picked-append :
    {X : Type 0} (pick : Event → List X) (xs ys : List Event)
    → picked pick (xs ++ ys) ≡ picked pick xs ++ picked pick ys
unfolding picked
picked-append pick [] ys = refl
picked-append pick (x ∷ xs) ys =
    rw (picked-append pick xs ys) (sym (append_assoc (pick x) (picked pick xs) (picked pick ys)))

pub picked-last :
    {X : Type 0} (pick : Event → List X) (events : List Event) (event : Event)
    → picked pick (events ++ event ∷ []) ≡ picked pick events ++ pick event
unfolding picked
picked-last pick events event =
    picked-append pick events (event ∷ [])
    ∙ ap (λ found. picked pick events ++ found) (append-nil (pick event))

-- From a state in which P holds the action succeeds and picks these, and then Q holds.
pub record Does {X : Type 0} (pick : Event → List X) (P Q : State → Type 0)
    (m : Action State (Unit {0})) (xs : List X) : Type 0 where
  pub succeeds : (s : State) → P s → (m s).0 ≡ ok tt
  pub reaches : (s : State) → P s → Q (m s).1
  pub picks : (s : State) → P s → picked pick (m s).1.events ≡ picked pick s.events ++ xs

module _ {X : Type 0} {pick : Event → List X} where
  pub Does-then :
      {P Q R : State → Type 0} {m n : Action State (Unit {0})} {xs ys : List X}
      → Does pick P Q m xs
      → Does pick Q R n ys
      → Does pick P R (m >> n) (xs ++ ys)
  Does-then {m} {n} {xs} {ys} h k = record {
    succeeds = λ s p. rw (h.succeeds s p) (k.succeeds (m s).1 (h.reaches s p));
    reaches = λ s p. rw (h.succeeds s p) (k.reaches (m s).1 (h.reaches s p));
    picks = λ s p. rw (h.succeeds s p) (
        k.picks (m s).1 (h.reaches s p)
        ∙ ap (λ found. found ++ ys) (h.picks s p)
        ∙ append_assoc (picked pick s.events) xs ys);
  }

  pub Does-pure : {P : State → Type 0} → Does pick P P (pure tt) []
  Does-pure {P} = record {
    succeeds = λ s p. refl;
    reaches = λ s p. p;
    picks = λ s p. sym (append-nil (picked pick s.events));
  }

  pub Does-try_except :
      {P Q : State → Type 0} {m : Action State (Unit {0})} {xs : List X}
      (h : Exception → Action State (Unit {0}))
      → Does pick P Q m xs
      → Does pick P Q (try_except m h) xs
  Does-try_except {m} h does = record {
    succeeds = λ s p. rw (does.succeeds s p) refl;
    reaches = λ s p. rw (does.succeeds s p) (does.reaches s p);
    picks = λ s p. rw (does.succeeds s p) (does.picks s p);
  }

  pub Does-try_finally :
      {P Q R : State → Type 0} {m last : Action State (Unit {0})} {xs ys : List X}
      → Does pick P Q m xs
      → Does pick Q R last ys
      → Does pick P R (try_finally m last) (xs ++ ys)
  Does-try_finally {m} {last} {xs} {ys} h k = record {
    succeeds = λ s p. rw (k.succeeds (m s).1 (h.reaches s p)) (h.succeeds s p);
    reaches = λ s p. k.reaches (m s).1 (h.reaches s p);
    picks = λ s p.
        k.picks (m s).1 (h.reaches s p)
        ∙ ap (λ found. found ++ ys) (h.picks s p)
        ∙ append_assoc (picked pick s.events) xs ys;
  }

  -- an action that starts by reading what P tells
  pub Does-known :
      {P Q : State → Type 0} {A : Type 0} {xs : List X} (m : Action State A) (a : A)
      (next : A → Action State (Unit {0}))
      → ((s : State) → P s → m s ≡ (ok a, s))
      → Does pick P Q (next a) xs
      → Does pick P Q (m >>= next) xs
  Does-known m a next known does = record {
    succeeds = λ s p. rw (known s p) (does.succeeds s p);
    reaches = λ s p. rw (known s p) (does.reaches s p);
    picks = λ s p. rw (known s p) (does.picks s p);
  }

  pub Does-gets :
      {P Q : State → Type 0} {A : Type 0} {xs : List X} (f : State → A) (a : A)
      (next : A → Action State (Unit {0}))
      → ((s : State) → P s → f s ≡ a)
      → Does pick P Q (next a) xs
      → Does pick P Q (gets f >>= next) xs
  Does-gets f a next known does =
      Does-known (gets f) a next (λ s p. ap (λ found. (ok found, s)) (known s p)) does

-- P does not read the events.
abbrev pub IsStable : (State → Type 0) → Type 0
IsStable P = (s : State) (events : List Event) → P s → P (record s { events = events })

abbrev pub AnyState : State → Type 0
AnyState s = Unit {0}

-- The operations always succeed, and so does a connection with these options when one is made.
pub record IsReliable (net : Network) (client : Options) : Type 0 where
  pub answers : (past : List Event) (event : Event) → net.answers past event ≡ ok tt
  pub connects : (past : List Event) → net.connects past client ≡ ok tt

abbrev pub sent : Event → List String
sent (remote_command command) = command ∷ []
sent event = []

-- What a command does: a connection may have come before it.
pub exec_command-sent :
    (net : Network) (client : Options) (command : String) (s : State)
    → IsReliable net client
    → (past : List Event) × (picked sent past ≡ picked sent s.events)
      × (exec_command net client command s ≡ (
        ok (reply (net.run past command)),
        record s { events = past ++ remote_command command ∷ [] },
      ))
exec_command-sent net client command s reliable =
    let (active, reconnected, unconnected) = exec_command_cases net client command s in
    elim (Bool-cases (net.is_active s.events)) [
      | inl now_active ↦ (s.events, refl, active now_active)
      | inr inactive ↦ (
        s.events ++ connect client ∷ [],
        picked-last sent s.events (connect client) ∙ append-nil (picked sent s.events),
        reconnected inactive (reliable.connects s.events),
      )
    ]

module _ (net : Network) (client : Options) (reliable : IsReliable net client) {P : State → Type 0}
    (stable : IsStable P) where
  pub operate-Does :
      {X : Type 0} {pick : Event → List X} (event : Event)
      → Does pick P P (operate net event) (pick event)
  operate-Does {pick} event = record {
    succeeds = λ s p. reliable.answers s.events event;
    reaches = λ s p. stable s (s.events ++ event ∷ []) p;
    picks = λ s p. picked-last pick s.events event;
  }

  -- an action that starts with a command and goes on with its answer
  pub Does-exec :
      {Q : State → Type 0} {xs : List String} (command : String)
      (next : Option String → Action State (Unit {0}))
      → ((past : List Event) → Does sent P Q (next (reply (net.run past command))) xs)
      → Does sent P Q (exec_command net client command >>= next) (command ∷ xs)
  Does-exec {Q} {xs} command next does = record {
    succeeds = λ s p.
        let (past, same, e) = exec_command-sent net client command s reliable in
        rw e ((does past).succeeds _ (stable s (past ++ remote_command command ∷ []) p));
    reaches = λ s p.
        let (past, same, e) = exec_command-sent net client command s reliable in
        rw e ((does past).reaches _ (stable s (past ++ remote_command command ∷ []) p));
    picks = λ s p.
        let (past, same, e) = exec_command-sent net client command s reliable in
        let all = past ++ remote_command command ∷ [] in
        rw e (
          (does past).picks _ (stable s all p)
          ∙ ap (λ found. found ++ xs) (picked-last sent past (remote_command command))
          ∙ ap (λ found. (found ++ command ∷ []) ++ xs) same
          ∙ append_assoc (picked sent s.events) (command ∷ []) xs);
  }

  pub send-Does :
      (command : String)
      → Does sent P P (exec_command net client command >>= λ unused. pure tt) (command ∷ [])
  send-Does command = Does-exec command (λ unused. pure tt) (λ past. Does-pure)

  pub initialize_krb5_token-Does :
      (environ : Dict String) (workflow_uuid : String)
      → Does sent P P (initialize_krb5_token net environ workflow_uuid) []
  unfolding initialize_krb5_token
  initialize_krb5_token-Does environ workflow_uuid =
      elim (Bool-cases (is_set (lookup "CERN_USER" environ))) [
        | inl known ↦ rw known (Does-try_except _ (operate-Does _))
        | inr unknown ↦ rw unknown (operate-Does _)
      ]

-- the object that SSHClient gives when it succeeds
unfoldable pub client_of : Network → Option Options → Options → Options
client_of net none options = record options { hostname = resolved net options.hostname }
client_of net (some client) options = client

get_instance-sent :
    (net : Network) (made : Option Options) (options : Options) (s : State)
    → IsReliable net (client_of net made options)
    → (after : State) × (get_instance net made options s ≡ (ok (client_of net made options), after))
      × (picked sent after.events ≡ picked sent s.events)
unfolding get_instance init_client establish_connection keep_instance client_of
get_instance-sent net none options s reliable =
    let client = client_of net none options in
    let past = s.events ++ connect client ∷ [] in
    (
      record s { events = past; instance_made = some client },
      rw (reliable.connects s.events) refl,
      picked-last sent s.events (connect client) ∙ append-nil (picked sent s.events),
    )
get_instance-sent net (some client) options s reliable = (s, refl, refl)

pub ssh_client-sent :
    (net : Network) (options : Options) (s : State)
    → IsReliable net (client_of net s.instance_made options)
    → (after : State) × (ssh_client net options s
        ≡ (ok (client_of net s.instance_made options), after))
      × (picked sent after.events ≡ picked sent s.events)
unfolding ssh_client
ssh_client-sent net options s reliable = get_instance-sent net s.instance_made options s reliable
