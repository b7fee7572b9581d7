-- ===== src/Punch/Submission/Response.antt =====
-- The job id in what condor_submit answers: SUBMIT_ID_PATTERN and the end of
-- Compute4PUNCHJobManager.execute (reana_job_controller/compute4punch_job_manager.py). The pattern is
-- `Proc\s(\d+\.\d+)`, for the characters of ASCII.
use Prim.Native.String.{◌++◌}
use text.Mathlib.Text.{starts_with}
use reana_job_controller.Prelude.{
  List, Option, String, [], if◌then◌else◌, none, not, some, ◌&&◌, ◌==◌, ◌∷◌,
}
use reana_job_controller.Text.{}
use reana_job_controller.Text.Parts.{has_code, is_digit, is_space, splitlines}
use reana_job_controller.Python.{Result, attribute_error, ok, other_error, raised}

-- the digits at the start of a text, and what is behind them
take_digits : String → String × String
take_digits String.[] = ("", "")
take_digits (String.◌∷◌ c s) =
    let (digits, rest) = take_digits s in
    if is_digit c then (String.◌∷◌ c digits, rest) else ("", String.◌∷◌ c s)

-- `\.\d+` behind the digits of the cluster
fraction : String → String → Option String
fraction digits String.[] = none
fraction digits (String.◌∷◌ c s) =
    let (process, rest) = take_digits s in
    if has_code c b'.' && not (process == "") then some (digits ++ ("." ++ process)) else none

number : String → Option String
unfolding take_digits fraction
number s = let (digits, rest) = take_digits s in if digits == "" then none else fraction digits rest

-- `\s` and the number
behind_proc : String → Option String
unfolding number
behind_proc String.[] = none
behind_proc (String.◌∷◌ c s) = if is_space c then number s else none

drop_four : String → String
drop_four (String.◌∷◌ a (String.◌∷◌ b (String.◌∷◌ c (String.◌∷◌ d s)))) = s
drop_four s = ""

-- the group of the pattern, if it matches at the start
match_here : String → Option String
unfolding behind_proc drop_four
match_here s = if starts_with s "Proc" then behind_proc (drop_four s) else none

or_else : Option String → Option String → Option String
or_else none later = later
or_else (some found) later = some found

-- SUBMIT_ID_PATTERN.search(line).group(1), for the first place where it matches
unfoldable pub search_id : String → Option String
unfolding match_here or_else
search_id String.[] = none
search_id (String.◌∷◌ c s) = or_else (match_here (String.◌∷◌ c s)) (search_id s)

-- search gives None, which has no `group`, if nothing matches
group_of : Option String → Result String
group_of none = raised attribute_error
group_of (some found) = ok found

-- next(...) over the lines that start with "** Proc"
unfoldable pub next_id : List String → Result String
unfolding search_id group_of
next_id [] = raised (other_error "StopIteration")
next_id (line ∷ lines) =
    let later = next_id lines in
    if starts_with line "** Proc" then group_of (search_id line) else later

-- The response is None if the command failed.
unfoldable pub submitted_id : Option String → Result String
unfolding next_id
submitted_id none = raised attribute_error
submitted_id (some response) = next_id (splitlines response)
