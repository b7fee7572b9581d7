-- ===== src/Htcondor/Submission/Commands.antt =====
-- Proofs on HTCondorJobManagerCERN._format_arguments
-- (reana_job_controller/htcondorcern_job_manager.py): the command of a serial workflow.
use Prim.Native.String.{◌++◌}
use Prim.Native.Char.{Char}
use text.Mathlib.TextLemmas.{append-nil, append_assoc, cons-append, nil-append}
use reana_job_controller.Prelude.{String, [], ap, false, refl, some, ◌==◌, ◌∙◌, ◌∷◌, ◌≡◌}
use reana_job_controller.Text.{concat}
use reana_job_controller.Text.Parts.{is_space, lstrip, part_behind, skip_words}
use reana_job_controller.Text.Parts.Words.{NoSpace, skip_words-end, skip_words-word}
use reana_job_controller.Python.{ok, Result, bind_result}
use reana_job_controller.Htcondor.Submission.Arguments.{
  Codec, Manager, Workflow, base_cmd, format_arguments, or_index_error, workflow_of,
}

-- what the workflow engine of serial and snakemake workflows sends
abbrev pub in_workspace : String → String → String
in_workspace workspace cmd = concat ("cd " ∷ workspace ∷ " ; " ∷ cmd ∷ [])

abbrev blank : Char
blank = " "

-- a constant that ends in a blank, in front of a text
blank-append : (a rest : String) → (a ++ " ") ++ rest ≡ a ++ String.◌∷◌ blank rest
blank-append a rest =
    append_assoc a " " rest
    ∙ ap (λ s. a ++ s) (cons-append blank "" rest ∙ ap (String.◌∷◌ blank) (nil-append rest))

-- the text as words with one blank behind each
in_workspace-words :
    (workspace cmd : String)
    → in_workspace workspace cmd
      ≡ "cd" ++ String.◌∷◌ blank (workspace ++ String.◌∷◌ blank (";" ++ String.◌∷◌ blank cmd))
unfolding concat
in_workspace-words workspace cmd =
    let behind : " ; " ++ (cmd ++ "") ≡ String.◌∷◌ blank (";" ++ String.◌∷◌ blank cmd) =
      ap (λ s. " ; " ++ s) (append-nil cmd)
      ∙ cons-append blank "; " cmd
      ∙ ap (String.◌∷◌ blank) (blank-append ";" cmd) in
    ap (λ s. "cd " ++ (workspace ++ s)) behind
    ∙ blank-append "cd" (workspace ++ String.◌∷◌ blank (";" ++ String.◌∷◌ blank cmd))

part_behind-in_workspace :
    (workspace cmd : String)
    → NoSpace workspace
    → (workspace == "") ≡ false
    → lstrip cmd ≡ cmd
    → (cmd == "") ≡ false
    → part_behind 3 (in_workspace workspace cmd) ≡ some cmd
unfolding part_behind NoSpace is_space
part_behind-in_workspace workspace cmd h k starts some_cmd =
    let third = ";" ++ String.◌∷◌ blank cmd in
    let second = workspace ++ String.◌∷◌ blank third in
    let found : skip_words 3 (in_workspace workspace cmd) ≡ cmd =
      ap (skip_words 3) (in_workspace-words workspace cmd)
      ∙ skip_words-word 2 "cd" blank second (refl, (refl, tt)) refl refl
      ∙ skip_words-word 1 workspace blank third h k refl
      ∙ skip_words-word 0 ";" blank cmd (refl, tt) refl refl
      ∙ skip_words-end cmd starts in
    rw (found, some_cmd) refl

base_cmd-serial :
    (codec : Codec) (workspace cmd : String)
    → part_behind 3 (in_workspace workspace cmd) ≡ some cmd
    → base_cmd codec "serial" workspace (in_workspace workspace cmd) ≡ ok cmd
unfolding base_cmd or_index_error
base_cmd-serial codec workspace cmd part = rw part refl

bind_known :
    {A B : Type 0} {r : Result A} {a : A} (f : A → Result B) → r ≡ ok a → bind_result r f ≡ f a
bind_known f e = ap (λ r. bind_result r f) e

-- For a serial workflow whose command is `cd <workspace> ; <command>`, where the workspace is a text
-- without white space, not empty, and the command starts with a character that is no white space,
-- Arguments decodes exactly the command of the user.
pub format_arguments-serial :
    (codec : Codec) (self : Manager) (workflow : Workflow) (cmd : String)
    → self.workflow ≡ some workflow
    → workflow.type_of ≡ "serial"
    → self.cmd ≡ in_workspace self.workflow_workspace cmd
    → NoSpace self.workflow_workspace
    → (self.workflow_workspace == "") ≡ false
    → lstrip cmd ≡ cmd
    → (cmd == "") ≡ false
    → format_arguments codec self ≡ ok (concat ("echo " ∷ codec.b64encode cmd ∷ "|base64 -d" ∷ []))
unfolding format_arguments workflow_of
format_arguments-serial codec self workflow cmd found serial sent no_space some_workspace starts
      some_cmd =
    let workspace = self.workflow_workspace in
    let base =
      ap (λ type. base_cmd codec type workspace self.cmd) serial
      ∙ ap (base_cmd codec "serial" workspace) sent
      ∙ base_cmd-serial codec workspace cmd
          (part_behind-in_workspace workspace cmd no_space some_workspace starts some_cmd) in
    bind_known _ (ap workflow_of found) ∙ bind_known _ base
