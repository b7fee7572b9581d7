-- ===== src/Ssh/Answers.antt =====
-- Lemmas on a submission over SSH (the callers of reana_job_controller/utils.py): the commands before
-- it and its answer.
use mathlib.Core.List.{append_assoc}
use mathlib.Core.Path.{subst}
use reana_job_controller.Prelude.{List, Option, String, [], ap, ◌++◌, ◌∙◌, ◌∷◌, ◌≡◌}
use reana_job_controller.Python.{◌>>=◌, ◌>>◌, Action, Result, for_each, ok}
use reana_job_controller.Ssh.{Event, Network, Options, State, operate}
use reana_job_controller.Ssh.Laws.{reply}
use reana_job_controller.Ssh.Effects.{
  Does, Does-pure, Does-then, IsReliable, IsStable, operate-Does, picked, sent,
}

-- From this state the action sends these commands and then `command`, whose answer it gives.
abbrev pub Answers :
    Network
    → (Option String → Result String)
    → String
    → Action State String
    → State
    → List String
    → Type 0
Answers net finish command m s commands =
    let (answer, after) = m s in
    (past : List Event) × (picked sent past ≡ picked sent s.events ++ commands)
    × (answer ≡ finish (reply (net.run past command)))
    × (picked sent after.events ≡ picked sent past ++ command ∷ [])

module _ (net : Network) (finish : Option String → Result String) (command : String) where
  pub then-Answers :
      {P Q : State → Type 0} (m : Action State (Unit {0})) (n : Action State String)
      (xs ys : List String) (s : State)
      → Does sent P Q m xs
      → P s
      → Answers net finish command n (m s).1 ys
      → Answers net finish command (m >> n) s (xs ++ ys)
  then-Answers m n xs ys s does p (past, all, answer, last) = (
    past,
    all ∙ ap (λ found. found ++ ys) (does.picks s p) ∙ append_assoc (picked sent s.events) xs ys,
    rw (does.succeeds s p) answer,
    rw (does.succeeds s p) last,
  )

  pub client-Answers :
      (m : Action State Options) (n : Options → Action State String) (client : Options)
      (commands : List String) (s after : State)
      → m s ≡ (ok client, after)
      → picked sent after.events ≡ picked sent s.events
      → Answers net finish command (n client) after commands
      → Answers net finish command (m >>= n) s commands
  client-Answers m n client commands s after e quiet (past, all, answer, last) =
      (past, all ∙ ap (λ found. found ++ commands) quiet, rw e answer, rw e last)

-- no command is sent
abbrev pub Quiet : (State → Type 0) → Action State (Unit {0}) → Type 0
Quiet P m = Does sent P P m []

module _ {P : State → Type 0} where
  pub for_each-Quiet :
      {A : Type 0} (body : A → Action State (Unit {0})) (xs : List A)
      → ((x : A) → Quiet P (body x))
      → Quiet P (for_each xs body)
  unfolding for_each
  for_each-Quiet body [] h = Does-pure
  for_each-Quiet body (x ∷ xs) h = Does-then (h x) (for_each-Quiet body xs h)

module _ (net : Network) (client : Options) (reliable : IsReliable net client) {P : State → Type 0}
    (stable : IsStable P) where
  pub quiet : (event : Event) → sent event ≡ [] → Quiet P (operate net event)
  quiet event e =
      subst (λ found. Does sent P P (operate net event) found) e
        (operate-Does net client reliable stable event)
