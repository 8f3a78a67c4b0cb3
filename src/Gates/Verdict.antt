-- ===== src/Gates/Verdict.antt =====
-- src/core/gates/engine.ts: when a rule set lets its stage proceed.
use fluxaos.Prelude.{
  lt→ltb, ◌≤◌, ◌<◌, ◌≡◌, refl, ap, sym, ◌∙◌, ◌≢◌, ◌↔◌, ◌⊎◌, inl, inr, Bool, true, false, some, List,
  [], ◌∷◌, ◌++◌, All, All-append, All-split, subst, arith, Bool-cases, ok,
}
use fluxaos.Js.{Value, Js}
use fluxaos.Gates.Rules.{
  RuleSeverity, block, warn, FailureAction, GateMode, GateVerdict, Logic, and_all, or_any, Rule,
  RuleItems, RuleGroup, RuleResult, GateEvaluation,
}
use fluxaos.Gates.Operators.{evaluate_rule}
use fluxaos.Gates.Engine.{
  severity_weight, action_weight, is_worse, worst_from, action_unless_warn, resolve_worst_action,
  collect_failures, collect_effective_failures, action_to_verdict, evaluate_gate, judge, is_empty,
}
use fluxaos.Gates.Meaning.{
  combine, unit_of, leaves, nesting, items_hold, results_of, leaf_results, evaluate_group-meaning,
}
use fluxaos.Gates.Worst.{weight, resolve_worst_action-heaviest}

-- A rule whose failure must stop the stage.
abbrev pub IsStrict : {N : Type 0} → Rule N → Type 0
IsStrict r = (r.severity ≢ warn) × (r.on_fail ≢ FailureAction.proceed)

module _ {N : Type 0} where
  abbrev pub NoEmptyGroup : RuleItems N → Type 0
  NoEmptyGroup RuleItems.end = Unit
  NoEmptyGroup (RuleItems.rule r rest) = NoEmptyGroup rest
  NoEmptyGroup (RuleItems.group l sub rest) =
      (sub ≢ RuleItems.end) × NoEmptyGroup sub × NoEmptyGroup rest

  is_empty-false : (items : RuleItems N) → items ≢ RuleItems.end → is_empty items ≡ false
  unfolding is_empty
  is_empty-false RuleItems.end h = absurd (h refl)
  is_empty-false (RuleItems.rule r rest) h = refl
  is_empty-false (RuleItems.group l sub rest) h = refl

  append-ne_nil : (xs ys : List (RuleResult N)) → xs ≢ [] → (xs ++ ys) ≢ []
  append-ne_nil [] ys h = absurd (h refl)
  append-ne_nil (x ∷ xs) ys h = λ e. cc

tail_fails :
    (l : Logic) (a b : Bool) → combine l a b ≡ false → a ≡ true → (unit_of l ≡ true) × (b ≡ false)
tail_fails l a b h p = ground arith

module _ {N : Type 0} (js : Js N) where
  rule-evaluate_rule : (r : Rule N) (ctx : Value N) → (evaluate_rule js r ctx).rule ≡ r
  unfolding evaluate_rule
  rule-evaluate_rule r ctx = ground arith

  -- Only rules of the tree are counted as failures.
  collect_failures-All :
      (P : Rule N → Type 0) (items : RuleItems N) (ctx : Value N)
      → All P (leaves items)
      → All (λ f. P f.rule) (collect_failures (results_of js items ctx))
  unfolding collect_failures
  collect_failures-All P RuleItems.end ctx h = tt
  collect_failures-All P (RuleItems.rule r rest) ctx h =
      let more = collect_failures-All P rest ctx h.1 in
      elim (Bool-cases (evaluate_rule js r ctx).passed) [
        | inl p ↦ rw p more
        | inr p ↦ rw p (subst P (sym (rule-evaluate_rule r ctx)) h.0, more)
      ]
  collect_failures-All P (RuleItems.group l sub rest) ctx h =
      let parts = All-split P (leaves sub) (leaves rest) h in
      let inner = collect_failures-All P sub ctx parts.0 in
      let more = collect_failures-All P rest ctx parts.1 in
      elim (Bool-cases (items_hold js l sub ctx)) [
        | inl p ↦ rw p more
        | inr p ↦ rw p (All-append (λ f. P f.rule) _ _ inner more)
      ]

  -- A group that fails has a failure that counts.
  collect_failures-ne_nil :
      (l : Logic) (items : RuleItems N) (ctx : Value N)
      → (unit_of l ≡ true) ⊎ (items ≢ RuleItems.end)
      → NoEmptyGroup items
      → items_hold js l items ctx ≡ false
      → collect_failures (results_of js items ctx) ≢ []
  unfolding collect_failures
  collect_failures-ne_nil and_all RuleItems.end ctx start full fails = λ e. cc
  collect_failures-ne_nil or_any RuleItems.end ctx (inl h) full fails = λ e. cc
  collect_failures-ne_nil or_any RuleItems.end ctx (inr h) full fails = absurd (h refl)
  collect_failures-ne_nil l (RuleItems.rule r rest) ctx start full fails =
      elim (Bool-cases (evaluate_rule js r ctx).passed) [
        | inl p ↦
            let (unit, later) = tail_fails l _ _ fails p in
            rw p (collect_failures-ne_nil l rest ctx (inl unit) full later)
        | inr p ↦ rw p (λ e. cc)
      ]
  collect_failures-ne_nil l (RuleItems.group k sub rest) ctx start (present, inner, outer) fails =
      elim (Bool-cases (items_hold js k sub ctx)) [
        | inl p ↦
            let (unit, later) = tail_fails l _ _ fails p in
            rw p (collect_failures-ne_nil l rest ctx (inl unit) outer later)
        | inr p ↦ rw p (append-ne_nil _ _ (collect_failures-ne_nil k sub ctx (inr present) inner p))
      ]

  -- What `evaluateGate` returns for a rule set that is not nested too deep.
  pub evaluation : RuleGroup N → Value N → GateEvaluation N
  evaluation g ctx = judge js (
    record {
      logic = g.logic;
      passed = items_hold js g.logic g.rules ctx;
      results = results_of js g.rules ctx;
    },
    leaf_results js g.rules ctx,
  )

  pub evaluate_gate-rules :
      (g : RuleGroup N) (ctx : Value N)
      → g.rules ≢ RuleItems.end
      → nesting g.rules < 3
      → evaluate_gate js GateMode.rules (some g) ctx ≡ ok (evaluation g ctx)
  unfolding evaluate_gate evaluation
  evaluate_gate-rules g ctx full h =
      rw
        (is_empty-false g.rules full, evaluate_group-meaning js g ctx, lt→ltb (nesting g.rules) 3 h)

  verdict-passed :
      (g : RuleGroup N) (ctx : Value N)
      → items_hold js g.logic g.rules ctx ≡ true
      → (evaluation g ctx).verdict ≡ GateVerdict.proceed
  unfolding evaluation collect_effective_failures resolve_worst_action action_to_verdict
  verdict-passed g ctx h = rw h

-- Failures of strict rules have a strict worst.
IsStrict-worst :
    {N : Type 0} (w : RuleResult N) (fs : List (RuleResult N))
    → IsStrict w.rule
    → All (λ f. IsStrict f.rule) fs
    → IsStrict (worst_from w fs).rule
unfolding worst_from
IsStrict-worst w [] h hs = h
IsStrict-worst w (f ∷ fs) h hs = elim (Bool-cases (is_worse f w)) [
  | inl e ↦ rw (e, worst_from) (IsStrict-worst f fs hs.0 hs.1)
  | inr e ↦ rw (e, worst_from) (IsStrict-worst w fs h hs.1)
]

strict_verdict :
    (s : RuleSeverity) (a : FailureAction)
    → s ≢ warn
    → a ≢ FailureAction.proceed
    → action_to_verdict (action_unless_warn s a) ≢ GateVerdict.proceed
unfolding action_to_verdict
strict_verdict s a hs ha = ground arith

strict_stops :
    {N : Type 0} (fs : List (RuleResult N))
    → fs ≢ []
    → All (λ f. IsStrict f.rule) fs
    → action_to_verdict (resolve_worst_action fs) ≢ GateVerdict.proceed
unfolding resolve_worst_action
strict_stops [] h hs = absurd (h refl)
strict_stops (f ∷ fs) h hs = let s = IsStrict-worst f fs hs.0 hs.1 in strict_verdict _ _ s.0 s.1

module _ {N : Type 0} (js : Js N) where
  verdict-failed :
      (g : RuleGroup N) (ctx : Value N)
      → g.rules ≢ RuleItems.end
      → NoEmptyGroup g.rules
      → All IsStrict (leaves g.rules)
      → items_hold js g.logic g.rules ctx ≡ false
      → (evaluation js g ctx).verdict ≢ GateVerdict.proceed
  unfolding evaluation collect_effective_failures
  verdict-failed g ctx full nonempty strict fails = rw fails (
      strict_stops (collect_failures (results_of js g.rules ctx))
        (collect_failures-ne_nil js g.logic g.rules ctx (inr full) nonempty fails)
        (collect_failures-All js IsStrict g.rules ctx strict))

  -- A rule set whose rules all stop the stage when they fail, with no empty group, lets the stage
  -- proceed exactly when its conjunctions and disjunctions hold.
  pub evaluate_gate-proceeds_iff :
      (g : RuleGroup N) (ctx : Value N)
      → g.rules ≢ RuleItems.end
      → nesting g.rules < 3
      → NoEmptyGroup g.rules
      → All IsStrict (leaves g.rules)
      → (e : GateEvaluation N) × (evaluate_gate js GateMode.rules (some g) ctx ≡ ok e)
        × ((e.verdict ≡ GateVerdict.proceed) ↔ (items_hold js g.logic g.rules ctx ≡ true))
  evaluate_gate-proceeds_iff g ctx full h nonempty strict = (
    evaluation js g ctx,
    evaluate_gate-rules js g ctx full h,
    (
      λ p. elim (Bool-cases (items_hold js g.logic g.rules ctx)) [
        | inl holds ↦ holds
        | inr fails ↦ absurd (verdict-failed g ctx full nonempty strict fails p)
      ],
      verdict-passed js g ctx,
    ),
  )

-- A `block` rule in a conjunction.
module _ {N : Type 0} (js : Js N) where
  abbrev pub NotBlock : Rule N → Type 0
  NotBlock r = r.severity ≢ block

  light : (f : RuleResult N) → NotBlock f.rule → weight f ≤ 31
  unfolding severity_weight action_weight
  light f h = ground arith

  weight_block_proceed :
      (f : RuleResult N)
      → f.rule.severity ≡ block
      → f.rule.on_fail ≡ FailureAction.proceed
      → weight f ≡ 31
  unfolding severity_weight action_weight
  weight_block_proceed f hb hp = ground arith

  AtMost-light :
      (fs : List (RuleResult N)) → All (λ f. NotBlock f.rule) fs → All (λ f. weight f ≤ 31) fs
  AtMost-light [] h = tt
  AtMost-light (f ∷ fs) h = (light f h.0, AtMost-light fs h.1)

  block-fails :
      (r : Rule N) (ctx : Value N) → r.severity ≡ block → (evaluate_rule js r ctx).passed ≡ false
  unfolding evaluate_rule
  block-fails r ctx h = ground arith

  -- Whatever the other rules are and however they fail, if the only `block` rule of a conjunction
  -- stands first and has the action `proceed`, then the gate says `proceed`.
  block_with_proceed :
      (r : Rule N) (rest : RuleItems N) (ctx : Value N)
      → r.severity ≡ block
      → r.on_fail ≡ FailureAction.proceed
      → All NotBlock (leaves rest)
      → nesting rest < 3
      → (e : GateEvaluation N) × (evaluate_gate js GateMode.rules
            (some (record { logic = and_all; rules = RuleItems.rule r rest }))
            ctx
          ≡ ok e)
        × (e.verdict ≡ GateVerdict.proceed)
  unfolding evaluation collect_effective_failures collect_failures action_to_verdict
      resolve_worst_action evaluate_rule
  block_with_proceed r rest ctx hb hp others h =
      let g : RuleGroup N = record { logic = and_all; rules = RuleItems.rule r rest } in
      (evaluation js g ctx, evaluate_gate-rules js g ctx (λ e. cc) h, verdict)
    where
      failed : RuleResult N
      failed = evaluate_rule js r ctx

      same : failed.rule ≡ r
      same = rule-evaluate_rule js r ctx

      sev : failed.rule.severity ≡ block
      sev = ap (λ q. q.severity) same ∙ hb

      act : failed.rule.on_fail ≡ FailureAction.proceed
      act = ap (λ q. q.on_fail) same ∙ hp

      more : List (RuleResult N)
      more = collect_failures (results_of js rest ctx)

      bounded : All (λ f. weight f ≤ weight failed) more
      bounded =
          rw (weight_block_proceed failed sev act)
            (AtMost-light more (collect_failures-All js NotBlock rest ctx others))

      worst :
          resolve_worst_action (failed ∷ more)
          ≡ action_unless_warn failed.rule.severity failed.rule.on_fail
      worst = resolve_worst_action-heaviest [] failed more tt bounded

      verdict :
          (evaluation js (record { logic = and_all; rules = RuleItems.rule r rest }) ctx).verdict
          ≡ GateVerdict.proceed
      verdict = rw (block-fails r ctx hb, worst, sev, act)
