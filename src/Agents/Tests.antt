-- ===== src/Agents/Tests.antt =====
-- A group of two children and a loop that passes at its second iteration.
use fluxaos.Prelude.{
  ℕ, ◌≡◌, ◌≤◌, ◌<◌, ◌↔◌, refl, String, true, false, Option, none, some, [], ◌∷◌, All, any, count,
  not, if◌then◌else◌, ◌==◌, decimal,
}
use fluxaos.Executor.Ports.{DocVerdict, ResultDoc, GraphResult, returned}
use fluxaos.Agents.Parallel.{Aggregation, ChildResult, has_passed, aggregate, aggregate-meaning}
use fluxaos.Agents.First.{IsMet, run_loop_executor-first}
use fluxaos.Agents.Loop.{Until, check_until_condition, iterate, run_loop_executor}

abbrev passing : ChildResult
passing = record { id = "a"; stage_run_id = 1; passed = true; ingest_output = "ok"; error = none }

abbrev failing : ChildResult
failing = record { id = "b"; stage_run_id = 2; passed = false; ingest_output = ""; error = none }

aggregate-meaning_example :
    ((aggregate (passing ∷ failing ∷ []) Aggregation.all_pass ≡ true)
      ↔ All (λ r. has_passed r ≡ true) (passing ∷ failing ∷ []))
    × (aggregate (passing ∷ failing ∷ []) Aggregation.any_pass
        ≡ any has_passed (passing ∷ failing ∷ []))
    × ((aggregate (passing ∷ failing ∷ []) Aggregation.majority_pass ≡ true) ↔ (
        count (λ r. not (has_passed r)) (passing ∷ failing ∷ [])
        < count has_passed (passing ∷ failing ∷ [])))
aggregate-meaning_example = aggregate-meaning (passing ∷ failing ∷ [])

-- One of two children is no majority.
half_is_no_majority : aggregate (passing ∷ failing ∷ []) Aggregation.majority_pass ≡ false
unfolding aggregate count
half_is_no_majority = refl

abbrev doc_of : DocVerdict → ResultDoc
doc_of v = record {
  verdict = v;
  signal_reason = none;
  question = none;
  input_tokens = none;
  output_tokens = none;
  model = none;
  text = "";
}

abbrev nth_run : ℕ → GraphResult
nth_run n = returned (decimal n) none

abbrev read_none : String → Option ResultDoc
read_none text = none

abbrev nth_file : ℕ → Option ResultDoc
nth_file n = if n == 2 then some (doc_of DocVerdict.pass) else some (doc_of DocVerdict.fail)

stops_at_two : (run_loop_executor nth_run read_none nth_file Until.verdict_pass 5).iterations ≡ 2
unfolding run_loop_executor iterate check_until_condition
stops_at_two = refl

completes : (run_loop_executor nth_run read_none nth_file Until.verdict_pass 5).completed ≡ true
unfolding run_loop_executor iterate check_until_condition
completes = refl

run_loop_executor-first_example :
    (1 ≤ (run_loop_executor nth_run read_none nth_file Until.verdict_pass 5).iterations)
    × ((run_loop_executor nth_run read_none nth_file Until.verdict_pass 5).iterations ≤ 5)
    × IsMet nth_run read_none nth_file Until.verdict_pass 5
        (run_loop_executor nth_run read_none nth_file Until.verdict_pass 5).iterations
    × ((j : ℕ)
        → 1 ≤ j
        → j < (run_loop_executor nth_run read_none nth_file Until.verdict_pass 5).iterations
        → IsMet nth_run read_none nth_file Until.verdict_pass 5 j
        → ⊥)
run_loop_executor-first_example =
    run_loop_executor-first nth_run read_none nth_file Until.verdict_pass 5 completes refl
