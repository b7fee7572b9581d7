-- ===== src/Punch/Submission/Lines.antt =====
-- Proofs on the job description of Compute4PUNCHJobManager
-- (reana_job_controller/compute4punch_job_manager.py): its lines.
use Prim.Native.String.{◌++◌}
use Prim.Native.Char.{Char}
use text.Mathlib.TextLemmas.{cons-append, nil-append}
use reana_job_controller.Prelude.{
  All, Bool-cases, List, String, [], ap, inl, inr, refl, ◌==◌, ◌∙◌, ◌∷◌, ◌≡◌, ◌≢◌,
}
use reana_job_controller.Text.{join}
use reana_job_controller.Text.Parts.{before, split}
use reana_job_controller.Text.Parts.Splitting.{Lacks, before-Lacks, split-Lacks, split_at_sep}
use reana_job_controller.Dict.{}
use reana_job_controller.Punch.Submission.Description.{
  Manager, first_lines, job_description, job_description_template,
}

abbrev newline : Char
newline = "\n"

newline-append : (r : String) → "\n" ++ r ≡ String.◌∷◌ newline r
newline-append r = cons-append newline "" r ∙ ap (String.◌∷◌ newline) (nil-append r)

split-join :
    (x : String) (xs : List String)
    → Lacks b'\n' x
    → All (Lacks b'\n') xs
    → split b'\n' (join "\n" (x ∷ xs)) ≡ x ∷ xs
unfolding join
split-join x [] h k = split-Lacks b'\n' x h
split-join x (y ∷ ys) h k =
    rw
      (
        newline-append (join "\n" (y ∷ ys)),
        split_at_sep b'\n' x newline (join "\n" (y ∷ ys)) refl h,
      )
      (ap (λ rest. x ∷ rest) (split-join y ys k.0 k.1))

first_lines-Lacks : (xs : List String) → All (Lacks b'\n') (first_lines xs)
unfolding first_lines
first_lines-Lacks [] = tt
first_lines-Lacks (x ∷ xs) = elim (Bool-cases (before b'\n' x == "")) [
  | inl gone ↦ rw gone (first_lines-Lacks xs)
  | inr there ↦ rw there (before-Lacks b'\n' x, first_lines-Lacks xs)
]

split-join_some :
    (xs : List String) → All (Lacks b'\n') xs → xs ≢ [] → split b'\n' (join "\n" xs) ≡ xs
split-join_some [] h some_line = absurd (some_line refl)
split-join_some (x ∷ xs) h some_line = split-join x xs h.0 h.1

cons-ne-nil : (x : String) (xs : List String) → x ∷ xs ≢ []
cons-ne-nil x xs e = cc e

-- The second entry is a constant.
first_lines-some :
    (x : String) (xs : List String) → first_lines (x ∷ "use_oauth_services = helmholtz" ∷ xs) ≢ []
unfolding first_lines before
first_lines-some x xs = elim (Bool-cases (before b'\n' x == "")) [
  | inl gone ↦ rw gone (cons-ne-nil "use_oauth_services = helmholtz" (first_lines xs))
  | inr there ↦
      rw there (cons-ne-nil (before b'\n' x) ("use_oauth_services = helmholtz" ∷ first_lines xs))
]

some_first :
    (template : List String) (x : String) (xs : List String)
    → template ≡ x ∷ "use_oauth_services = helmholtz" ∷ xs
    → first_lines template ≢ []
some_first template x xs e = rw e (first_lines-some x xs)

-- Whatever the user's texts hold, the lines of the job description are exactly the entries of the
-- template, each cut at its first newline, in order and without the empty ones: no text adds a line.
pub split-job_description :
    (self : Manager) (script_path : String) (job_inputs : List String) (workflow_name : String)
    → split b'\n' (job_description self script_path job_inputs workflow_name)
      ≡ first_lines (job_description_template self script_path job_inputs workflow_name)
unfolding job_description job_description_template
split-job_description self script_path job_inputs workflow_name =
    let template = job_description_template self script_path job_inputs workflow_name in
    split-join_some (first_lines template) (first_lines-Lacks template)
      (some_first template _ _ refl)
