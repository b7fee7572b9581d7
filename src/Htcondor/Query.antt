-- ===== src/Htcondor/Query.antt =====
-- format_condor_job_que_query of reana_job_controller/job_monitor.py: the constraint that
-- query_condor_jobs sends to the schedd.
use Prim.Native.String.{count, ◌++◌}
use text.Mathlib.TextLemmas.{append-nil, append_assoc, cons-append, length-append}
use reana_job_controller.Prelude.{
  List, String, [], ap, arith, false, if◌then◌else◌, ltb, refl, ℕ, ◌∙◌, ◌∷◌, ◌≡◌, sym,
}
use reana_job_controller.Text.{concat, join}

-- s[:-n]
drop_end : ℕ → String → String
drop_end n String.[] = ""
drop_end n (String.◌∷◌ c s) =
    let rest = drop_end n s in if ltb (count s) n then "" else String.◌∷◌ c rest

-- base_query.format(job_id) for each id
clauses : List String → String
clauses [] = ""
clauses (job_id ∷ job_ids) = concat ("ClusterId == " ∷ job_id ∷ " ||" ∷ []) ++ clauses job_ids

unfoldable pub format_condor_job_que_query : List String → String
unfolding drop_end clauses
format_condor_job_que_query backend_job_ids = drop_end 2 (clauses backend_job_ids)

-- the condition on one id
abbrev pub condition : String → String
condition job_id = concat ("ClusterId == " ∷ job_id ∷ " " ∷ [])

pub conditions : List String → List String
conditions [] = []
conditions (job_id ∷ job_ids) = condition job_id ∷ conditions job_ids

drop_end-append : (s : String) → drop_end 2 (s ++ "||") ≡ s
unfolding drop_end
drop_end-append String.[] = refl
drop_end-append (String.◌∷◌ c s) =
    let long : ltb (count (s ++ "||")) 2 ≡ false = rw (length-append s "||") (ground arith) in
    rw (cons-append c s "||", long, drop_end-append s) refl

clause_lem :
    (job_id : String) → concat ("ClusterId == " ∷ job_id ∷ " ||" ∷ []) ≡ condition job_id ++ "||"
unfolding concat
clause_lem job_id = sym (
    append_assoc "ClusterId == " (job_id ++ " ") "||"
    ∙ ap (λ s. "ClusterId == " ++ s) (append_assoc job_id " " "||"))

clauses-join :
    (job_id : String) (job_ids : List String)
    → clauses (job_id ∷ job_ids) ≡ join "||" (conditions (job_id ∷ job_ids)) ++ "||"
unfolding clauses conditions join
clauses-join job_id [] =
    append-nil (concat ("ClusterId == " ∷ job_id ∷ " ||" ∷ [])) ∙ clause_lem job_id
clauses-join job_id (other ∷ job_ids) =
    let rest = join "||" (conditions (other ∷ job_ids)) in
    ap (λ s. s ++ clauses (other ∷ job_ids)) (clause_lem job_id)
    ∙ ap (λ s. (condition job_id ++ "||") ++ s) (clauses-join other job_ids)
    ∙ sym (append_assoc (condition job_id ++ "||") rest "||")
    ∙ ap (λ s. s ++ "||") (append_assoc (condition job_id) "||" rest)

-- The constraint is the conditions on the ids, joined by the operator "or".
pub format_condor_job_que_query_lem :
    (job_id : String) (job_ids : List String)
    → format_condor_job_que_query (job_id ∷ job_ids) ≡ join "||" (conditions (job_id ∷ job_ids))
unfolding format_condor_job_que_query
format_condor_job_que_query_lem job_id job_ids =
    ap (drop_end 2) (clauses-join job_id job_ids)
    ∙ drop_end-append (join "||" (conditions (job_id ∷ job_ids)))

two_ids : format_condor_job_que_query ("1" ∷ "2" ∷ []) ≡ "ClusterId == 1 ||ClusterId == 2 "
unfolding format_condor_job_que_query concat
two_ids = refl
