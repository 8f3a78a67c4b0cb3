-- ===== src/Gates/Engine.antt =====
-- src/core/gates/engine.ts: groups, effective failures, the worst action and the verdict.
use fluxaos.Prelude.{
  ℕ, suc, String, Bool, true, false, ◌&&◌, ◌||◌, Option, none, some, List, [], ◌∷◌, ◌++◌, length,
  ltb, leb, ◌==◌, decimal, ◌+s◌, if◌then◌else◌, Result, ok, err, ◌>>=◌,
}
use fluxaos.Js.{Value, Js}
use fluxaos.Gates.Rules.{
  RuleSeverity, block, required, warn, FailureAction, GateMode, GateVerdict, Logic, and_all, or_any,
  RuleItems, RuleGroup, RuleResult, ResultItems, GroupResult, GateEvaluation,
}
use fluxaos.Gates.Operators.{evaluate_rule}

-- The only exception of the engine.
pub data GateError : Type 0 where
  nesting_too_deep : GateError

abbrev pub max_nesting_depth : ℕ
max_nesting_depth = 3

module _ {N : Type 0} where
  -- `results.every((r) => r.passed)` and `results.some((r) => r.passed)`
  unfoldable pub every_passed : ResultItems N → Bool
  every_passed ResultItems.end = true
  every_passed (ResultItems.rule r rest) = r.passed && every_passed rest
  every_passed (ResultItems.group l p sub rest) = p && every_passed rest

  unfoldable pub some_passed : ResultItems N → Bool
  some_passed ResultItems.end = false
  some_passed (ResultItems.rule r rest) = r.passed || some_passed rest
  some_passed (ResultItems.group l p sub rest) = p || some_passed rest

  unfoldable pub group_passed : Logic → ResultItems N → Bool
  group_passed and_all results = every_passed results
  group_passed or_any results = some_passed results

  -- `rules.length === 0`
  unfoldable pub is_empty : RuleItems N → Bool
  is_empty RuleItems.end = true
  is_empty _ = false

  -- `collectEffectiveFailures` of a group that has failed, over its results: a passed group adds
  -- nothing.
  unfoldable pub collect_failures : ResultItems N → List (RuleResult N)
  collect_failures ResultItems.end = []
  collect_failures (ResultItems.rule r rest) =
      let more = collect_failures rest in if r.passed then more else r ∷ more
  collect_failures (ResultItems.group l p sub rest) =
      let inner = collect_failures sub in
      let more = collect_failures rest in if p then more else inner ++ more

  unfoldable pub collect_effective_failures : GroupResult N → List (RuleResult N)
  unfolding collect_failures
  collect_effective_failures g = if g.passed then [] else collect_failures g.results

unfoldable pub severity_weight : RuleSeverity → ℕ
severity_weight block = 3
severity_weight required = 2
severity_weight warn = 1

unfoldable pub action_weight : FailureAction → ℕ
action_weight FailureAction.abort = 6
action_weight FailureAction.rework = 5
action_weight FailureAction.hold = 4
action_weight FailureAction.escalate = 3
action_weight FailureAction.notify = 2
action_weight FailureAction.proceed = 1

module _ {N : Type 0} where
  -- The test by which the loop of `resolveWorstAction` replaces the worst failure so far.
  unfoldable pub is_worse : RuleResult N → RuleResult N → Bool
  unfolding severity_weight action_weight
  is_worse current worst =
      let current_sev = severity_weight current.rule.severity in
      let worst_sev = severity_weight worst.rule.severity in
      ltb worst_sev current_sev
      || current_sev == worst_sev
        && ltb (action_weight worst.rule.on_fail) (action_weight current.rule.on_fail)

  unfoldable pub worst_from : RuleResult N → List (RuleResult N) → RuleResult N
  worst_from worst [] = worst
  worst_from worst (current ∷ rest) =
      worst_from (if is_worse current worst then current else worst) rest

abbrev pub action_unless_warn : RuleSeverity → FailureAction → Option FailureAction
action_unless_warn warn action = none
action_unless_warn _ action = some action

module _ {N : Type 0} where
  unfoldable pub resolve_worst_action : List (RuleResult N) → Option FailureAction
  unfolding worst_from is_worse
  resolve_worst_action [] = none
  resolve_worst_action (first ∷ rest) =
      let worst = worst_from first rest in action_unless_warn worst.rule.severity worst.rule.on_fail

unfoldable pub action_to_verdict : Option FailureAction → GateVerdict
action_to_verdict none = GateVerdict.proceed
action_to_verdict (some FailureAction.abort) = GateVerdict.abort
action_to_verdict (some FailureAction.rework) = GateVerdict.rework
action_to_verdict (some FailureAction.hold) = GateVerdict.hold
action_to_verdict (some FailureAction.escalate) = GateVerdict.hold
action_to_verdict (some FailureAction.notify) = GateVerdict.hold
action_to_verdict (some FailureAction.proceed) = GateVerdict.proceed

abbrev pub is_proceed : GateVerdict → Bool
is_proceed GateVerdict.proceed = true
is_proceed _ = false

-- A value in a template string.
abbrev pub action_text : Option FailureAction → String
action_text none = "null"
action_text (some FailureAction.abort) = "abort"
action_text (some FailureAction.rework) = "rework"
action_text (some FailureAction.hold) = "hold"
action_text (some FailureAction.escalate) = "escalate"
action_text (some FailureAction.notify) = "notify"
action_text (some FailureAction.proceed) = "proceed"

module _ {N : Type 0} (js : Js N) where
  -- The loop of `evaluateGroup` at one depth, with what it pushes on `results` and `collector`.
  unfoldable pub evaluate_items :
      RuleItems N → Value N → ℕ → Result GateError (ResultItems N × List (RuleResult N))
  evaluate_items RuleItems.end context depth = ok (ResultItems.end, [])
  evaluate_items (RuleItems.rule r rest) context depth = do
    (results, collected) ← evaluate_items rest context depth
    let result = evaluate_rule js r context
    ok (ResultItems.rule result results, result ∷ collected)
  evaluate_items (RuleItems.group logic rules rest) context depth =
      let inner = evaluate_items rules context (suc depth) in
      let outer = evaluate_items rest context depth in
      if leb max_nesting_depth (suc depth) then err nesting_too_deep else do
        (sub, collected) ← inner
        (results, more) ← outer
        ok (ResultItems.group logic (group_passed logic sub) sub results, collected ++ more)

  unfoldable pub evaluate_group :
      RuleGroup N → Value N → ℕ → Result GateError (GroupResult N × List (RuleResult N))
  unfolding evaluate_items group_passed every_passed some_passed
  evaluate_group g context depth = if leb max_nesting_depth depth then err nesting_too_deep else do
    (results, collected) ← evaluate_items g.rules context depth
    ok (
      record { logic = g.logic; passed = group_passed g.logic results; results = results },
      collected,
    )

  -- The evaluation of a mode that reads no rules.
  abbrev pub fixed : GateVerdict → Bool → Option FailureAction → String → GateEvaluation N
  fixed verdict passed worst reason = record {
    verdict = verdict;
    passed = passed;
    worst_action = worst;
    rule_results = [];
    group_result = none;
    reason = reason;
  }

  abbrev pub judge : GroupResult N × List (RuleResult N) → GateEvaluation N
  judge (group_result, all_rule_results) =
      let failures = collect_effective_failures group_result in
      let worst = resolve_worst_action failures in
      let verdict = action_to_verdict worst in
      record {
        verdict = verdict;
        passed = is_proceed verdict;
        worst_action = worst;
        rule_results = all_rule_results;
        group_result = some group_result;
        reason =
            if is_proceed verdict
            then "all rules passed"
            else decimal (length failures)
              +s " rule(s) failed — worst action: "
              +s action_text worst;
      }

  abbrev pub evaluate_rules : Option (RuleGroup N) → Value N → Result GateError (GateEvaluation N)
  evaluate_rules none context = ok (fixed GateVerdict.proceed true none "no rules configured")
  evaluate_rules (some g) context =
      if is_empty g.rules
      then ok (fixed GateVerdict.proceed true none "no rules configured")
      else do evaluated ← evaluate_group g context 0; ok (judge evaluated)

  unfoldable pub evaluate_gate :
      GateMode → Option (RuleGroup N) → Value N → Result GateError (GateEvaluation N)
  unfolding evaluate_group collect_effective_failures resolve_worst_action action_to_verdict
  evaluate_gate GateMode.auto rules context =
      ok (fixed GateVerdict.proceed true none "gate mode: auto")
  evaluate_gate GateMode.skip rules context =
      ok (fixed GateVerdict.proceed true none "gate mode: skip")
  evaluate_gate GateMode.hold rules context = ok (
      fixed GateVerdict.hold false (some FailureAction.hold)
        "gate mode: hold — manual release required")
  evaluate_gate GateMode.manual rules context = ok (
      fixed GateVerdict.hold false (some FailureAction.hold)
        "gate mode: manual — manual release required")
  evaluate_gate GateMode.rules rules context = evaluate_rules rules context
