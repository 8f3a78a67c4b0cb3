-- ===== src/Gates/Rules.antt =====
-- src/core/gates/types.ts: rules, groups of rules, and results.
use fluxaos.Prelude.{String, Bool, Option, List}
use fluxaos.Js.{Value}

pub data RuleOperator : Type 0 where
  equals not_equals less_than greater_than contains matches in_list exists : RuleOperator

pub data RuleSeverity : Type 0 where
  block required warn : RuleSeverity

pub data FailureAction : Type 0 where
  proceed hold rework abort notify escalate : FailureAction

pub data GateMode : Type 0 where
  auto rules hold manual skip : GateMode

pub data GateVerdict : Type 0 where
  proceed hold rework abort : GateVerdict

pub data Logic : Type 0 where
  and_all or_any : Logic

-- `value` is `undef` where the rule has none.
pub record Rule (N : Type 0) : Type 0 where
  pub field : String
  pub operator : RuleOperator
  pub value : Value N
  pub severity : RuleSeverity
  pub on_fail : FailureAction
  pub label : Option String

-- The array `rules: Array<Rule | RuleGroup>`; `isRuleGroup` tells `rule` from `group`.
pub data RuleItems (N : Type 0) : Type 0 where
  end : RuleItems N
  rule : Rule N → RuleItems N → RuleItems N
  group : Logic → RuleItems N → RuleItems N → RuleItems N

pub record RuleGroup (N : Type 0) : Type 0 where
  pub logic : Logic
  pub rules : RuleItems N

pub record RuleResult (N : Type 0) : Type 0 where
  pub rule : Rule N
  pub passed : Bool
  pub actual_value : Value N
  pub reason : String

-- The array `results: Array<RuleResult | GroupResult>`.
pub data ResultItems (N : Type 0) : Type 0 where
  end : ResultItems N
  rule : RuleResult N → ResultItems N → ResultItems N
  group : Logic → Bool → ResultItems N → ResultItems N → ResultItems N

pub record GroupResult (N : Type 0) : Type 0 where
  pub logic : Logic
  pub passed : Bool
  pub results : ResultItems N

pub record GateEvaluation (N : Type 0) : Type 0 where
  pub verdict : GateVerdict
  pub passed : Bool
  pub worst_action : Option FailureAction
  pub rule_results : List (RuleResult N)
  pub group_result : Option (GroupResult N)
  pub reason : String
