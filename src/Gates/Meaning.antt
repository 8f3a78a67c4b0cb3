-- ===== src/Gates/Meaning.antt =====
-- src/core/gates/engine.ts, described without the engine: what a rule set says of a context, how deep it
-- is nested, and the rules that it holds. `evaluate_group` computes exactly this.
use Prim.Native.Nat.{max}
use fluxaos.Prelude.{
  ltb→lt, if◌then◌else◌, ℕ, suc, ◌+◌, ◌<◌, ◌≤◌, ◌≡◌, refl, Bool, true, false, ◌&&◌, ◌||◌, List, [],
  ◌∷◌, ◌++◌, map, arith, ok, err, leb, ltb, lt→not_leb, Bool-cases, inl, inr,
}
use mathlib.Core.List.{map-append}
use fluxaos.Js.{Value, Js}
use fluxaos.Gates.Rules.{
  Logic, and_all, or_any, Rule, RuleItems, RuleGroup, RuleResult, ResultItems,
}
use fluxaos.Gates.Operators.{evaluate_rule}
use fluxaos.Gates.Engine.{
  nesting_too_deep, every_passed, some_passed, group_passed, evaluate_items, evaluate_group,
}

abbrev pub combine : Logic → Bool → Bool → Bool
combine and_all a b = a && b
combine or_any a b = a || b

abbrev pub unit_of : Logic → Bool
unit_of and_all = true
unit_of or_any = false

module _ {N : Type 0} where
  -- The rules of a tree in document order, and the depth of its groups.
  abbrev pub leaves : RuleItems N → List (Rule N)
  leaves RuleItems.end = []
  leaves (RuleItems.rule r rest) = r ∷ leaves rest
  leaves (RuleItems.group l sub rest) = leaves sub ++ leaves rest

  abbrev pub nesting : RuleItems N → ℕ
  nesting RuleItems.end = 0
  nesting (RuleItems.rule r rest) = nesting rest
  nesting (RuleItems.group l sub rest) = max (suc (nesting sub)) (nesting rest)

module _ {N : Type 0} (js : Js N) where
  -- The truth value of a tree: conjunction or disjunction of its parts.
  abbrev pub items_hold : Logic → RuleItems N → Value N → Bool
  items_hold l RuleItems.end ctx = unit_of l
  items_hold l (RuleItems.rule r rest) ctx =
      combine l (evaluate_rule js r ctx).passed (items_hold l rest ctx)
  items_hold l (RuleItems.group k sub rest) ctx =
      combine l (items_hold k sub ctx) (items_hold l rest ctx)

  -- The tree of results.
  abbrev pub results_of : RuleItems N → Value N → ResultItems N
  results_of RuleItems.end ctx = ResultItems.end
  results_of (RuleItems.rule r rest) ctx =
      ResultItems.rule (evaluate_rule js r ctx) (results_of rest ctx)
  results_of (RuleItems.group k sub rest) ctx =
      ResultItems.group k (items_hold k sub ctx) (results_of sub ctx) (results_of rest ctx)

  abbrev pub leaf_results : RuleItems N → Value N → List (RuleResult N)
  leaf_results items ctx = map (λ r. evaluate_rule js r ctx) (leaves items)

  pub group_passed-results_of :
      (l : Logic) (items : RuleItems N) (ctx : Value N)
      → group_passed l (results_of items ctx) ≡ items_hold l items ctx
  unfolding group_passed every_passed some_passed
  group_passed-results_of and_all RuleItems.end ctx = refl
  group_passed-results_of or_any RuleItems.end ctx = refl
  group_passed-results_of and_all (RuleItems.rule r rest) ctx =
      ground (arith, group_passed-results_of and_all rest ctx)
  group_passed-results_of or_any (RuleItems.rule r rest) ctx =
      ground (arith, group_passed-results_of or_any rest ctx)
  group_passed-results_of and_all (RuleItems.group k sub rest) ctx =
      ground (arith, group_passed-results_of and_all rest ctx)
  group_passed-results_of or_any (RuleItems.group k sub rest) ctx =
      ground (arith, group_passed-results_of or_any rest ctx)

  pub evaluate_items-eq :
      (items : RuleItems N) (ctx : Value N) (depth : ℕ)
      → nesting items + depth < 3
      → evaluate_items js items ctx depth ≡ ok (results_of items ctx, leaf_results items ctx)
  unfolding evaluate_items
  evaluate_items-eq RuleItems.end ctx depth h = refl
  evaluate_items-eq (RuleItems.rule r rest) ctx depth h = rw (evaluate_items-eq rest ctx depth h)
  evaluate_items-eq (RuleItems.group k sub rest) ctx depth h = rw (
    lt→not_leb 3 (suc depth) (omega arith),
    evaluate_items-eq sub ctx (suc depth) (omega arith),
    evaluate_items-eq rest ctx depth (omega arith),
    group_passed-results_of k sub ctx,
    map-append,
  )

  pub evaluate_items-too_deep :
      (items : RuleItems N) (ctx : Value N) (depth : ℕ)
      → depth < 3
      → 3 ≤ nesting items + depth
      → evaluate_items js items ctx depth ≡ err nesting_too_deep
  unfolding evaluate_items
  evaluate_items-too_deep RuleItems.end ctx depth h k = absurd (omega arith)
  evaluate_items-too_deep (RuleItems.rule r rest) ctx depth h k =
      rw (evaluate_items-too_deep rest ctx depth h k)
  evaluate_items-too_deep (RuleItems.group l sub rest) ctx depth h k =
      elim (Bool-cases (leb 3 (suc depth))) [
        | inl deep ↦ rw deep
        | inr shallow ↦ rw shallow (elim (Bool-cases (ltb (nesting sub + suc depth) 3)) [
          | inl fits ↦ rw (
            evaluate_items-eq sub ctx (suc depth) (ground arith),
            evaluate_items-too_deep rest ctx depth h (ground arith),
          )
          | inr over ↦
              rw (evaluate_items-too_deep sub ctx (suc depth) (ground arith) (ground arith))
        ])
      ]

  -- The whole rule set is read, each rule once and in order, and its truth value is that of its
  -- conjunctions and disjunctions, unless the groups are nested too deep: exactly then it throws.
  pub evaluate_group-meaning :
      (g : RuleGroup N) (ctx : Value N)
      → evaluate_group js g ctx 0 ≡ (
          if ltb (nesting g.rules) 3
          then ok (
            record {
              logic = g.logic;
              passed = items_hold g.logic g.rules ctx;
              results = results_of g.rules ctx;
            },
            leaf_results g.rules ctx,
          )
          else err nesting_too_deep)
  unfolding evaluate_group
  evaluate_group-meaning g ctx = elim (Bool-cases (ltb (nesting g.rules) 3)) [
    | inl e ↦
        let h = ltb→lt (nesting g.rules) 3 e in
        rw (
          e,
          evaluate_items-eq g.rules ctx 0 (omega arith),
          group_passed-results_of g.logic g.rules ctx,
        )
    | inr e ↦
        let h : 3 ≤ nesting g.rules = ground arith in
        rw (e, evaluate_items-too_deep g.rules ctx 0 (omega arith) (omega arith))
  ]
