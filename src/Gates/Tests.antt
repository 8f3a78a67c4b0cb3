-- ===== src/Gates/Tests.antt =====
-- Runs of the gate engine, and its theorems at a concrete rule set.
use fluxaos.Prelude.{◌≤◌, ◌≡◌, ◌↔◌, refl, String, true, false, none, some, [], ◌∷◌, arith, ok}
use fluxaos.Js.{Value, undef, num, str, obj, end, field, member}
use fluxaos.Js.Sample.{Num, digits, sample_js}
use fluxaos.Gates.Rules.{
  RuleOperator, equals, less_than, greater_than, RuleSeverity, block, required, FailureAction,
  GateMode, GateVerdict, and_all, or_any, Rule, RuleItems, RuleGroup, RuleResult, GateEvaluation,
}
use fluxaos.Gates.Operators.{resolve_field, to_number, apply_operator}
use fluxaos.Gates.Engine.{
  severity_weight, action_weight, resolve_worst_action, evaluate_group, evaluate_gate,
}
use fluxaos.Gates.Meaning.{items_hold, results_of, leaf_results, evaluate_group-meaning}
use fluxaos.Gates.Worst.{weight, resolve_worst_action-heaviest}
use fluxaos.Gates.Verdict.{evaluate_gate-proceeds_iff}

abbrev check : String → RuleOperator → Value Num → RuleSeverity → FailureAction → Rule Num
check path operator value severity on_fail = record {
  field = path;
  operator = operator;
  value = value;
  severity = severity;
  on_fail = on_fail;
  label = none;
}

-- `{ exit_code: 0, output: { tests: "12" } }`
abbrev context : Value Num
context =
    obj (field "exit_code" (num (some 0)) (field "output" (obj (field "tests" (str "12") end)) end))

abbrev clean_exit : Rule Num
clean_exit = check "exit_code" equals (num (some 0)) required FailureAction.rework

abbrev many_tests : Rule Num
many_tests = check "output.tests" greater_than (num (some 20)) required FailureAction.abort

abbrev some_tests : Rule Num
some_tests = check "output.tests" less_than (str "20") required FailureAction.hold

abbrev group : RuleGroup Num
group = record {
  logic = and_all;
  rules = RuleItems.rule clean_exit (
      RuleItems.group or_any (RuleItems.rule many_tests (RuleItems.rule some_tests RuleItems.end))
        RuleItems.end);
}

abbrev blocked : Rule Num
blocked = check "exit_code" equals (num (some 0)) block FailureAction.proceed

resolved : resolve_field sample_js "output.tests" context ≡ str "12"
unfolding resolve_field member
resolved = refl

not_a_number : apply_operator sample_js less_than (str "x") (num (some 3)) ≡ false
unfolding apply_operator to_number digits
not_a_number = refl

evaluate_group-meaning_example :
    evaluate_group sample_js group context 0
    ≡ ok (
      record {
        logic = and_all;
        passed = items_hold sample_js and_all group.rules context;
        results = results_of sample_js group.rules context;
      },
      leaf_results sample_js group.rules context,
    )
evaluate_group-meaning_example = evaluate_group-meaning sample_js group context

abbrev failure : Rule Num → RuleResult Num
failure r = record { rule = r; passed = false; actual_value = undef; reason = "" }

lighter : weight (failure clean_exit) ≤ weight (failure many_tests)
unfolding severity_weight action_weight
lighter = omega arith

lighter' : weight (failure some_tests) ≤ weight (failure many_tests)
unfolding severity_weight action_weight
lighter' = omega arith

resolve_worst_action-heaviest_example :
    resolve_worst_action (failure clean_exit ∷ failure many_tests ∷ failure some_tests ∷ [])
    ≡ some FailureAction.abort
resolve_worst_action-heaviest_example =
    resolve_worst_action-heaviest (failure clean_exit ∷ []) (failure many_tests)
      (failure some_tests ∷ []) (lighter, tt) (lighter', tt)

evaluate_gate-proceeds_iff_example :
    (e : GateEvaluation Num) × (evaluate_gate sample_js GateMode.rules (some group) context ≡ ok e)
    × ((e.verdict ≡ GateVerdict.proceed)
        ↔ (items_hold sample_js and_all group.rules context ≡ true))
evaluate_gate-proceeds_iff_example =
    evaluate_gate-proceeds_iff sample_js group context (λ e. cc) (omega arith) (λ e. cc, tt, tt)
      ((λ e. cc, λ e. cc), ((λ e. cc, λ e. cc), ((λ e. cc, λ e. cc), tt)))
