-- ===== src/Gates/Operators.antt =====
-- src/core/gates/engine.ts: fields, operators and single rules.
use fluxaos.Prelude.{
  String, Bool, true, false, not, Option, none, some, List, [], ◌∷◌, any, ltb, str_eq, str_includes,
  utf16_length, split, ◌+s◌, if◌then◌else◌,
}
use fluxaos.Js.{
  Value, undef, null, num, str, arr, Js, items, is_object, member, strict_equals, same_value_zero,
}
use fluxaos.Gates.Rules.{
  RuleOperator, equals, not_equals, less_than, greater_than, contains, matches, in_list, exists,
  RuleSeverity, block, Rule, RuleResult,
}

module _ {N : Type 0} (js : Js N) where
  unfoldable pub resolve_parts : Value N → List String → Value N
  resolve_parts current [] = current
  resolve_parts current (part ∷ parts) = elim (is_object current) [
    | true ↦ resolve_parts (member js current part) parts
    | false ↦ undef
  ]

  unfoldable pub resolve_field : String → Value N → Value N
  unfolding resolve_parts split
  resolve_field path context = resolve_parts context (split path b'.')

  unfoldable pub loose_equals : Value N → Value N → Bool
  unfolding strict_equals
  loose_equals (num a) (str s) = js.num_eq a (js.number s)
  loose_equals (str s) (num b) = js.num_eq (js.number s) b
  loose_equals a b = strict_equals js a b

  unfoldable pub to_number : Value N → N
  to_number (num n) = n
  to_number (str s) = let n = js.number s in if js.is_nan n then js.nan else n
  to_number _ = js.nan

  abbrev regex_test : Option (String → Bool) → String → Bool
  regex_test none s = false
  regex_test (some test) s = test s

  unfoldable pub contains_value : Value N → Value N → Bool
  contains_value (str s) (str t) = str_includes s t
  contains_value (arr vs) expected = any (λ v. same_value_zero js v expected) (items vs)
  contains_value _ _ = false

  unfoldable pub matches_pattern : Value N → Value N → Bool
  matches_pattern (str s) (str pattern) =
      if ltb 500 (utf16_length pattern) then false else regex_test (js.reg_exp pattern) s
  matches_pattern _ _ = false

  unfoldable pub is_in : Value N → Value N → Bool
  is_in actual (arr vs) = any (loose_equals actual) (items vs)
  is_in actual _ = false

  abbrev is_present : Value N → Bool
  is_present undef = false
  is_present null = false
  is_present _ = true

  unfoldable pub apply_operator : RuleOperator → Value N → Value N → Bool
  apply_operator exists actual expected = is_present actual
  apply_operator equals actual expected = loose_equals actual expected
  apply_operator not_equals actual expected = not (loose_equals actual expected)
  apply_operator less_than actual expected = js.num_lt (to_number actual) (to_number expected)
  apply_operator greater_than actual expected = js.num_lt (to_number expected) (to_number actual)
  apply_operator contains actual expected = contains_value actual expected
  apply_operator matches actual expected = matches_pattern actual expected
  apply_operator in_list actual expected = is_in actual expected

  abbrev operator_text : RuleOperator → String
  operator_text equals = "equals"
  operator_text not_equals = "not_equals"
  operator_text less_than = "less_than"
  operator_text greater_than = "greater_than"
  operator_text contains = "contains"
  operator_text matches = "matches"
  operator_text in_list = "in"
  operator_text exists = "exists"

  -- `rule.label ? … : ''`, where the empty label is no label.
  abbrev label_text : Option String → String
  label_text none = ""
  label_text (some label) = if str_eq label "" then "" else "[" +s label +s "] "

  unfoldable pub format_failure_reason : Rule N → Value N → String
  format_failure_reason r actual =
      label_text r.label
      +s r.field
      +s ": expected "
      +s operator_text r.operator
      +s " "
      +s js.stringify r.value
      +s ", got "
      +s js.stringify actual

  abbrev is_block : RuleSeverity → Bool
  is_block block = true
  is_block _ = false

  unfoldable pub evaluate_rule : Rule N → Value N → RuleResult N
  unfolding resolve_field apply_operator format_failure_reason
  evaluate_rule r context =
      let actual = resolve_field r.field context in
      let passed = apply_operator r.operator actual r.value in
      if is_block r.severity
      then record {
        rule = r;
        passed = false;
        actual_value = undef;
        reason = "severity is block — unconditional hold";
      }
      else record {
        rule = r;
        passed = passed;
        actual_value = actual;
        reason = if passed then "" else format_failure_reason r actual;
      }
