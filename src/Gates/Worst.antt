-- ===== src/Gates/Worst.antt =====
-- `resolveWorstAction` of src/core/gates/engine.ts picks the action of the heaviest failure.
use fluxaos.Prelude.{
  ℕ, ◌+◌, ◌*◌, ◌≤◌, ◌≡◌, true, false, List, [], ◌∷◌, ◌++◌, All, All-append, arith, Bool-cases, inl,
  inr, if◌then◌else◌,
}
use fluxaos.Gates.Rules.{RuleSeverity, FailureAction, RuleResult}
use fluxaos.Gates.Engine.{
  severity_weight, action_weight, is_worse, worst_from, action_unless_warn, resolve_worst_action,
}

module _ {N : Type 0} where
  -- Severity first, then the action: `block > required > warn`, then
  -- `abort > rework > hold > escalate > notify > proceed`.
  abbrev pub weight : RuleResult N → ℕ
  weight r = 10 * severity_weight r.rule.severity + action_weight r.rule.on_fail

action_weight_bounds : (a : FailureAction) → (1 ≤ action_weight a) × (action_weight a ≤ 6)
unfolding action_weight
action_weight_bounds a = ground arith

action_weight_injective : (a b : FailureAction) → action_weight a ≡ action_weight b → a ≡ b
unfolding action_weight
action_weight_injective a b h = ground arith

severity_weight_injective : (s t : RuleSeverity) → severity_weight s ≡ severity_weight t → s ≡ t
unfolding severity_weight
severity_weight_injective s t h = ground arith

module _ {N : Type 0} where
  same_weight :
      (u v : RuleResult N)
      → weight u ≡ weight v
      → action_unless_warn u.rule.severity u.rule.on_fail
        ≡ action_unless_warn v.rule.severity v.rule.on_fail
  same_weight u v h =
      let ba = action_weight_bounds u.rule.on_fail in
      let bb = action_weight_bounds v.rule.on_fail in
      let s = severity_weight_injective u.rule.severity v.rule.severity (omega arith) in
      let a = action_weight_injective u.rule.on_fail v.rule.on_fail (omega arith) in cc

  is_worse-weight :
      (u v : RuleResult N)
      → (is_worse u v ≡ true → weight v ≤ weight u) × (is_worse u v ≡ false → weight u ≤ weight v)
  unfolding is_worse
  is_worse-weight u v =
      let ba = action_weight_bounds u.rule.on_fail in
      let bb = action_weight_bounds v.rule.on_fail in (λ h. ground arith, λ h. ground arith)

  abbrev AtMost : ℕ → List (RuleResult N) → Type 0
  AtMost n = All (λ f. weight f ≤ n)

  -- The loop never lowers the weight, and bounds what it has read.
  worst_from-ge_start :
      (w : RuleResult N) (fs : List (RuleResult N)) → weight w ≤ weight (worst_from w fs)
  unfolding worst_from
  worst_from-ge_start w [] = omega arith
  worst_from-ge_start w (f ∷ fs) =
      let sw = is_worse-weight f w in
      elim (Bool-cases (is_worse f w)) [
        | inl e ↦ rw (e, worst_from) (omega (arith, sw.0 e, worst_from-ge_start f fs))
        | inr e ↦ rw (e, worst_from) (worst_from-ge_start w fs)
      ]

  worst_from-le :
      (n : ℕ) (w : RuleResult N) (fs : List (RuleResult N))
      → weight w ≤ n
      → AtMost n fs
      → weight (worst_from w fs) ≤ n
  unfolding worst_from
  worst_from-le n w [] h hs = h
  worst_from-le n w (f ∷ fs) h hs = elim (Bool-cases (is_worse f w)) [
    | inl e ↦ rw (e, worst_from) (worst_from-le n f fs hs.0 hs.1)
    | inr e ↦ rw (e, worst_from) (worst_from-le n w fs h hs.1)
  ]

  worst_from-ge_member :
      (w : RuleResult N) (before : List (RuleResult N)) (v : RuleResult N)
      (after : List (RuleResult N))
      → weight v ≤ weight (worst_from w (before ++ v ∷ after))
  unfolding worst_from
  worst_from-ge_member w [] v after =
      let sw = is_worse-weight v w in
      elim (Bool-cases (is_worse v w)) [
        | inl e ↦ rw (e, worst_from) (worst_from-ge_start v after)
        | inr e ↦ rw (e, worst_from) (omega (arith, sw.1 e, worst_from-ge_start w after))
      ]
  worst_from-ge_member w (f ∷ before) v after =
      worst_from-ge_member (if is_worse f w then f else w) before v after

  -- Among the failures `before ++ v ∷ after`, if none is heavier than `v`, then `v` decides.
  pub resolve_worst_action-heaviest :
      (before : List (RuleResult N)) (v : RuleResult N) (after : List (RuleResult N))
      → AtMost (weight v) before
      → AtMost (weight v) after
      → resolve_worst_action (before ++ v ∷ after)
        ≡ action_unless_warn v.rule.severity v.rule.on_fail
  unfolding resolve_worst_action
  resolve_worst_action-heaviest [] v after hb ha = same_weight (worst_from v after) v (
      omega (arith, worst_from-ge_start v after, worst_from-le (weight v) v after (omega arith) ha))
  resolve_worst_action-heaviest (f ∷ before) v after hb ha =
      same_weight (worst_from f (before ++ v ∷ after)) v (
        omega (
          arith,
          worst_from-ge_member f before v after,
          worst_from-le (weight v) f (before ++ v ∷ after) hb.0
              (All-append (λ g. weight g ≤ weight v) before (v ∷ after) hb.1 (omega arith, ha)),
        ))
