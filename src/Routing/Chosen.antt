-- ===== src/Routing/Chosen.antt =====
-- src/core/orchestrator/routing-resolver.ts: what a routing consists of, by the tables alone.
use fluxaos.Prelude.{
  filter-append, find-All, ℕ, ◌≤◌, ◌≡◌, ◌≢◌, refl, sym, ap, ◌∙◌, subst, String, Bool, true, false,
  ◌&&◌, ◌==◌, ==_iff, and_true, str_eq, eq_iff, any, Option, none, some, List, [], ◌∷◌, ◌++◌, All,
  All-map, All-Splits, Splits, Splits-cons, find, find-passes, filter, filter-keeps, filter-All,
  utf16_length, ltb, leb→le, or_true, Bool-cases, Option-cases, inl, inr, ◌⊎◌, arith,
}
use fluxaos.Executor.Ports.{given}
use fluxaos.Executor.Given.{given-some, given-none}
use fluxaos.Routing.Resolver.{
  RoutedStage, RoutingRule, Candidate, ResolvedRouting, Routes, is_one_of, names_stage, is_wildcard,
  or_rule, rule_for, or_zero, within, compiled, allowed, or_preferred, routing, resolve,
}
use fluxaos.Routing.Routed.{passes_both, qualifies}
use fluxaos.Routing.Pick.{Offered, resolve-qualifies}

-- A rule of a profile in scope.
abbrev pub IsActive : Routes → RoutingRule → Type 0
IsActive t r = Splits t.rules r × Splits t.profile_ids r.profile_id

-- No rule of a profile in scope is for this stage name, or for every stage where there is none.
abbrev pub NoneFor : Routes → Option String → Type 0
NoneFor t stage_name = (r : RoutingRule) → IsActive t r → r.stage_name ≢ stage_name

-- The rule that names the stage, or else one for every stage, or else none.
abbrev pub RuleFor : Routes → String → Option RoutingRule → Type 0
RuleFor t name none = NoneFor t (some name) × NoneFor t none
RuleFor t name (some r) =
    IsActive t r × ((r.stage_name ≡ some name) ⊎ ((r.stage_name ≡ none) × NoneFor t (some name)))

-- The driver of the stage, or, where it has none, that of the rule; an empty name is none.
abbrev pub DriverFor : RoutedStage → Option RoutingRule → String → Type 0
DriverFor stage rule d =
    (d ≢ "")
    × ((stage.driver ≡ some d)
        ⊎ (((stage.driver ≡ none) ⊎ (stage.driver ≡ some ""))
            × ((r : RoutingRule) × (rule ≡ some r) × (r.preferred_driver ≡ some d))))

-- A pattern of at most 500 characters that compiles and matches, or none.
abbrev pub Matches : (String → Option (String → Bool)) → Option String → String → Type 0
Matches compile pattern identifier =
    (pattern ≡ none)
    ⊎ (pattern ≡ some "")
    ⊎ ((text : String) × (test : String → Bool) × (pattern ≡ some text)
        × (utf16_length text ≤ 500)
        × (compile text ≡ some test)
        × (test identifier ≡ true))

abbrev pub Allows : (String → Option (String → Bool)) → Option RoutingRule → Candidate → Type 0
Allows compile none c = Unit
Allows compile (some r) c =
    Matches compile r.allowed_models_pattern c.model.identifier
    × ((limit : ℕ) → r.max_cost_usd ≡ some limit → or_zero c.model.cost_per_1k_input ≤ limit)

one_of-Splits : (ids : List ℕ) (id : ℕ) → is_one_of ids id ≡ true → Splits ids id
unfolding any
one_of-Splits [] id h = absurd (cc)
one_of-Splits (i ∷ ids) id h = elim (or_true (i == id) (is_one_of ids id) h) [
  | inl t ↦ ([], ids, ap (λ x. x ∷ ids) ((==_iff i id).0 t))
  | inr t ↦ Splits-cons id i ids (one_of-Splits ids id t)
]

Splits-one_of : (before after : List ℕ) (id : ℕ) → is_one_of (before ++ id ∷ after) id ≡ true
unfolding any
Splits-one_of [] after id = let itself : (id == id) ≡ true = (==_iff id id).1 refl in rw itself refl
Splits-one_of (i ∷ before) after id = elim (Bool-cases (i == id)) [
  | inl t ↦ rw t refl
  | inr t ↦ rw t (Splits-one_of before after id)
]

missing {ℓ} :
    {A : Type ℓ} (p : A → Bool) (before after : List A) (a : A)
    → find p (before ++ a ∷ after) ≡ none
    → p a ≡ false
unfolding find
missing p [] after a h = elim (Bool-cases (p a)) [
  | inl t ↦ let wrong : some a ≡ none = rw t at h in absurd (cc)
  | inr t ↦ t
]
missing p (x ∷ before) after a h = elim (Bool-cases (p x)) [
  | inl t ↦ let wrong : some x ≡ none = rw t at h in absurd (cc)
  | inr t ↦ missing p before after a (rw t at h)
]

missing-filter {ℓ} :
    {A : Type ℓ} (p q : A → Bool) (xs : List A) (a : A)
    → find p (filter q xs) ≡ none
    → Splits xs a
    → q a ≡ true
    → p a ≡ false
missing-filter p q xs a h (before, after, e) kept =
    let parts = filter-append q before (a ∷ after) in
    let there : filter q (a ∷ after) ≡ a ∷ filter q after = unfold filter in rw kept refl in
    let whole : filter q xs ≡ filter q before ++ a ∷ filter q after =
      ap (filter q) e ∙ parts ∙ ap (λ l. filter q before ++ l) there in
    missing p (filter q before) (filter q after) a (sym (ap (find p) whole) ∙ h)

both_hold {ℓ κ} :
    {A : Type ℓ} (P Q : A → Type κ) (xs : List A) → All P xs → All Q xs → All (λ x. P x × Q x) xs
both_hold P Q [] h k = tt
both_hold P Q (x ∷ xs) h k = ((h.0, k.0), both_hold P Q xs h.1 k.1)

named_by :
    (name : String) (o : Option String)
    → (elim o [ none ↦ false | some s ↦ str_eq s name ]) ≡ true
    → o ≡ some name
named_by name none h = absurd (cc)
named_by name (some s) h = ap some ((eq_iff s name).0 h)

wildcard_by : (o : Option String) → (elim o [ none ↦ true | some s ↦ false ]) ≡ true → o ≡ none
wildcard_by none h = refl
wildcard_by (some s) h = absurd (cc)

module _ (t : Routes) (name : String) where
  abbrev in_profile : RoutingRule → Bool
  in_profile r = is_one_of t.profile_ids r.profile_id

  All-live : All (IsActive t) (filter in_profile t.rules)
  All-live =
      All-map (λ r. Splits t.rules r × (in_profile r ≡ true)) (IsActive t) _
        (λ r (split, kept). (split, one_of-Splits t.profile_ids r.profile_id kept))
        (both_hold (Splits t.rules) (λ r. in_profile r ≡ true) _
          (filter-keeps (Splits t.rules) in_profile t.rules (All-Splits t.rules))
          (filter-All in_profile t.rules))

  in_profile_of : (r : RoutingRule) → IsActive t r → in_profile r ≡ true
  in_profile_of r (split, (before, after, e)) = rw e (Splits-one_of before after r.profile_id)

  not_named : find (names_stage name) (filter in_profile t.rules) ≡ none → NoneFor t (some name)
  not_named e r active is =
      let other =
        missing-filter (names_stage name) in_profile t.rules r e active.0
          (in_profile_of r active) in
      let same : str_eq name name ≡ true = (eq_iff name name).1 refl in
      let passes : names_stage name r ≡ true = rw is same in absurd (cc (passes, other))

  not_wildcard : find is_wildcard (filter in_profile t.rules) ≡ none → NoneFor t none
  not_wildcard e r active is =
      let other =
        missing-filter is_wildcard in_profile t.rules r e active.0 (in_profile_of r active) in
      let passes : is_wildcard r ≡ true = rw is refl in absurd (cc (passes, other))

  wildcard-RuleFor :
      (o : Option RoutingRule)
      → NoneFor t (some name)
      → find is_wildcard (filter in_profile t.rules) ≡ o
      → RuleFor t name o
  wildcard-RuleFor none unnamed e = (unnamed, not_wildcard e)
  wildcard-RuleFor (some r) unnamed e = (
    find-All (IsActive t) is_wildcard _ r All-live e,
    inr (wildcard_by r.stage_name (find-passes is_wildcard _ r e), unnamed),
  )

  chosen-RuleFor :
      (o : Option RoutingRule)
      → find (names_stage name) (filter in_profile t.rules) ≡ o
      → RuleFor t name (or_rule o (find is_wildcard (filter in_profile t.rules)))
  chosen-RuleFor none e =
      wildcard-RuleFor (find is_wildcard (filter in_profile t.rules)) (not_named e) refl
  chosen-RuleFor (some r) e = (
    find-All (IsActive t) (names_stage name) _ r All-live e,
    inl (named_by name r.stage_name (find-passes (names_stage name) _ r e)),
  )

  rule_for-RuleFor : RuleFor t name (rule_for t name)
  unfolding rule_for
  rule_for-RuleFor = chosen-RuleFor (find (names_stage name) (filter in_profile t.rules)) refl

preferred-DriverFor :
    (stage : RoutedStage) (rule : Option RoutingRule) (d : String) (own : Option String)
    → given stage.driver ≡ own
    → or_preferred own rule ≡ some d
    → DriverFor stage rule d
preferred-DriverFor stage rule d (some own) e h =
    let is_d : given stage.driver ≡ some d = e ∙ h in
    let (driver, full) = given-some stage.driver d is_d in (full, inl driver)
preferred-DriverFor stage none d none e h = absurd (cc)
preferred-DriverFor stage (some r) d none e h =
    let (driver, full) = given-some r.preferred_driver d h in
    (full, inr (given-none stage.driver e, (r, refl, driver)))

module _ (compile : String → Option (String → Bool)) (c : Candidate) where
  compiled-Matches :
      (pattern p : Option String) (limit : Option ℕ)
      → given pattern ≡ p
      → passes_both (compiled compile p) limit c ≡ true
      → Matches compile pattern c.model.identifier
  compiled-Matches pattern none limit e h = elim (given-none pattern e) [
    | inl n ↦ inl n
    | inr n ↦ inr (inl n)
  ]
  compiled-Matches pattern (some text) limit e h = elim (Bool-cases (ltb 500 (utf16_length text))) [
    | inl long ↦ let wrong : false ≡ true = rw long at h in absurd (cc)
    | inr short ↦ elim (Option-cases (compile text)) [
      | inl none_compiled ↦ let wrong : false ≡ true = rw (short, none_compiled) at h in absurd (cc)
      | inr (test, compiles) ↦
          let passes : (test c.model.identifier && within limit c) ≡ true =
            rw (short, compiles) at h in
          inr (
            inr (
              text,
              test,
              (given-some pattern text e).0,
              ground (arith, short),
              compiles,
              (and_true (test c.model.identifier) (within limit c) passes).0,
            ))
    ]
  ]

  passes-within :
      (test : Option (Candidate → Bool)) (limit : Option ℕ)
      → passes_both test limit c ≡ true
      → within limit c ≡ true
  passes-within none limit h = absurd (cc)
  passes-within (some test) limit h = (and_true (test c) (within limit c) h).1

  within-le :
      (limit : Option ℕ) (n : ℕ)
      → within limit c ≡ true
      → limit ≡ some n
      → or_zero c.model.cost_per_1k_input ≤ n
  within-le none n h e = absurd (cc)
  within-le (some m) n h e =
      let same : m ≡ n = cc in
      subst (λ k. or_zero c.model.cost_per_1k_input ≤ k) same (leb→le _ _ h)

  qualifies-Allows :
      (rule : Option RoutingRule) → qualifies compile rule c ≡ true → Allows compile rule c
  qualifies-Allows none h = tt
  qualifies-Allows (some r) h = (
    compiled-Matches r.allowed_models_pattern (given r.allowed_models_pattern) r.max_cost_usd refl
        h,
    λ limit e.
        within-le r.max_cost_usd limit (passes-within (allowed compile (some r)) r.max_cost_usd h)
          e,
  )

-- A routing is that of a model of the tables and its provider, which is healthy and in scope. The rule of the stage is
-- one of a profile in scope that names it, or else one for every stage: its pattern, where it has one, has at most 500
-- characters, compiles and matches the model's identifier, and the input cost is within its limit. The driver is the
-- stage's, or, where it has none, the rule's.
pub resolve-picks :
    (compile : String → Option (String → Bool)) (t : Routes) (stage_id project_id : ℕ)
    (stage : RoutedStage) (r : ResolvedRouting)
    → find (λ (s : RoutedStage). s.id == stage_id) t.stages ≡ some stage
    → resolve compile t stage_id project_id ≡ some r
    → (rule : Option RoutingRule) × (c : Candidate) × (d : String) × (r ≡ routing c d)
      × RuleFor t stage.name rule
      × DriverFor stage rule d
      × Offered t c
      × Allows compile rule c
resolve-picks compile t stage_id project_id stage r found resolved =
    let (c, d, same, driver, offered, passes) =
      resolve-qualifies compile t stage_id project_id stage r found resolved in
    let rule = rule_for t stage.name in
    (
      rule,
      c,
      d,
      same,
      rule_for-RuleFor t stage.name,
      preferred-DriverFor stage rule d (given stage.driver) refl driver,
      offered,
      qualifies-Allows compile c rule passes,
    )
