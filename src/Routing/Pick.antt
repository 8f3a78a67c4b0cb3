-- ===== src/Routing/Pick.antt =====
-- src/core/orchestrator/routing-resolver.ts: which model is picked.
use fluxaos.Prelude.{
  ℕ, ◌≤◌, ◌≡◌, refl, sym, ◌∙◌, ap, subst, String, Bool, true, ◌==◌, ==_iff, Option, none, some,
  List, [], ◌∷◌, find, filter, Bool-cases, Option-cases, inl, inr, arith, All, All-append,
  filter-keeps, filter-All, Splits, All-Splits, sort_by, sort_by-keeps, sort_by-IsSortedBy,
  IsSortedBy, sort_by-All_of,
}
use fluxaos.Routing.Resolver.{
  SortStrategy, RoutedStage, RoutingRule, Provider, Model, Candidate, ResolvedRouting, Routes,
  is_one_of, rule_for, provider_by_id, candidate_of, flat_map, candidates, input_cost, within,
  max_cost_of, strategy_of, allowed, sort_candidates, driver_for, routing, pick, with_pattern,
  with_candidates, resolve,
}
use fluxaos.Routing.Routed.{passes_both, qualifies}

provider_by_id-keeps {κ} :
    (P : Provider → Type κ) (ps : List Provider) (id : ℕ) (p : Provider)
    → All P ps
    → provider_by_id ps id ≡ some p
    → P p × (p.id ≡ id)
unfolding provider_by_id
provider_by_id-keeps P [] id p h e = absurd (cc)
provider_by_id-keeps P (q ∷ ps) id p h e = elim (Option-cases (provider_by_id ps id)) [
  | inr (found, f) ↦ provider_by_id-keeps P ps id p h.1 (f ∙ (rw f at e))
  | inl f ↦ elim (Bool-cases (q.id == id)) [
    | inl same ↦
        let e' : some q ≡ some p = rw (f, same) at e in
        let is_q : q ≡ p = cc in subst (λ x. P x × (x.id ≡ id)) is_q (h.0, (==_iff q.id id).0 same)
    | inr differs ↦
        let e' : (let o : Option Provider = none in o) ≡ some p = rw (f, differs) at e in
        absurd (cc)
  ]
]

-- A model of the tables with its provider, which is healthy and in scope.
abbrev pub Offered : Routes → Candidate → Type 0
Offered t c =
    Splits t.providers c.provider
    × (c.provider.is_healthy ≡ true)
    × Splits t.models c.model
    × (c.provider.id ≡ c.model.provider_id)

module _ (t : Routes) where
  abbrev healthy : List Provider
  healthy = filter (λ (p : Provider). p.is_healthy) t.providers

  abbrev IsHealthy : Provider → Type 0
  IsHealthy p = Splits t.providers p × (p.is_healthy ≡ true)

  both {ℓ κ} :
      {A : Type ℓ} (P Q : A → Type κ) (xs : List A) → All P xs → All Q xs → All (λ x. P x × Q x) xs
  both P Q [] h k = tt
  both P Q (x ∷ xs) h k = ((h.0, k.0), both P Q xs h.1 k.1)

  healthy-All : All IsHealthy healthy
  healthy-All =
      both (Splits t.providers) (λ (p : Provider). p.is_healthy ≡ true) healthy
        (filter-keeps (Splits t.providers) _ t.providers (All-Splits t.providers))
        (filter-All _ t.providers)

  candidate-Offered :
      (m : Model) (o : Option Provider)
      → provider_by_id healthy m.provider_id ≡ o
      → Splits t.models m
      → All (Offered t) (candidate_of o m)
  candidate-Offered m none e split = tt
  candidate-Offered m (some p) e split =
      let (is_healthy, same) =
        provider_by_id-keeps IsHealthy healthy m.provider_id p healthy-All e in
      ((is_healthy.0, is_healthy.1, split, same), tt)

  flat_map-Offered :
      (ms : List Model)
      → All (Splits t.models) ms
      → All
          (Offered t)
          (flat_map (λ (m : Model). candidate_of (provider_by_id healthy m.provider_id) m) ms)
  unfolding flat_map
  flat_map-Offered [] h = tt
  flat_map-Offered (m ∷ ms) h =
      All-append (Offered t) _ _ (candidate-Offered m _ refl h.0) (flat_map-Offered ms h.1)

  candidates-Offered : All (Offered t) (candidates t)
  unfolding candidates
  candidates-Offered =
      flat_map-Offered _ (filter-keeps (Splits t.models) _ t.models (All-Splits t.models))

sort_candidates-keeps {κ} :
    (P : Candidate → Type κ) (s : SortStrategy) (cs : List Candidate)
    → All P cs
    → All P (sort_candidates s cs)
unfolding sort_candidates
sort_candidates-keeps P SortStrategy.cost cs h = sort_by-keeps input_cost P cs h
sort_candidates-keeps P SortStrategy.quality cs h = h
sort_candidates-keeps P SortStrategy.other_strategy cs h = h

filter-both :
    (test : Candidate → Bool) (limit : Option ℕ) (cs : List Candidate)
    → filter (within limit) (filter test cs) ≡ filter (passes_both (some test) limit) cs
unfolding filter
filter-both test limit [] = refl
filter-both test limit (c ∷ cs) = elim (Bool-cases (test c)) [
  | inl e ↦ elim (Bool-cases (within limit c)) [
    | inl f ↦ rw (e, f) (ap (λ l. c ∷ l) (filter-both test limit cs))
    | inr f ↦ rw (e, f) (filter-both test limit cs)
  ]
  | inr e ↦ rw e (filter-both test limit cs)
]

-- The first candidate, with the driver.
abbrev Picked : List Candidate → Option String → ResolvedRouting → Type 0
Picked cs driver r =
    (c : Candidate) × (rest : List Candidate) × (d : String) × (cs ≡ c ∷ rest)
    × (driver ≡ some d)
    × (r ≡ routing c d)

pick-Picked :
    (cs : List Candidate) (driver : Option String) (r : ResolvedRouting)
    → pick cs driver ≡ some r
    → Picked cs driver r
pick-Picked [] driver r e = absurd (cc)
pick-Picked (c ∷ cs) none r e = absurd (cc)
pick-Picked (c ∷ cs) (some d) r e = (c, cs, d, refl, refl, cc)

-- The candidates that qualify, as they are sorted.
abbrev sorted :
    (String → Option (String → Bool)) → Option RoutingRule → List Candidate → List Candidate
sorted compile rule cs = sort_candidates (strategy_of rule) (filter (qualifies compile rule) cs)

with_candidates-Picked :
    (compile : String → Option (String → Bool)) (rule : Option RoutingRule) (stage : RoutedStage)
    (cs : List Candidate) (r : ResolvedRouting)
    → with_candidates compile rule stage cs ≡ some r
    → Picked (sorted compile rule cs) (driver_for stage rule) r
with_candidates-Picked compile rule stage [] r e = absurd (cc)
with_candidates-Picked compile rule stage (c ∷ cs) r e = go (allowed compile rule) e
  where
    go :
        (test : Option (Candidate → Bool))
        → with_pattern rule stage (c ∷ cs) test ≡ some r
        → Picked
            (sort_candidates
              (strategy_of rule)
              (filter (passes_both test (max_cost_of rule)) (c ∷ cs)))
            (driver_for stage rule)
            r
    go none e = absurd (cc)
    go (some test) e =
        subst (λ l. Picked (sort_candidates (strategy_of rule) l) (driver_for stage rule) r)
          (filter-both test (max_cost_of rule) (c ∷ cs)) (pick-Picked _ _ r e)

module _ (compile : String → Option (String → Bool)) (t : Routes) (stage_id project_id : ℕ)
    (stage : RoutedStage) (r : ResolvedRouting)
    (found : find (λ (s : RoutedStage). s.id == stage_id) t.stages ≡ some stage)
    (resolved : resolve compile t stage_id project_id ≡ some r) where
  resolve-Picked :
      Picked
        (sorted compile (rule_for t stage.name) (candidates t))
        (driver_for stage (rule_for t stage.name))
        r
  unfolding resolve
  resolve-Picked = elim (Bool-cases (is_one_of t.project_ids project_id)) [
    | inl e ↦
        with_candidates-Picked compile (rule_for t stage.name) stage (candidates t) r
          (rw (found, e) at resolved)
    | inr e ↦
        let nothing : (let o : Option ResolvedRouting = none in o) ≡ some r =
          rw (found, e) at resolved in
        absurd (cc)
  ]

  pub resolve-qualifies :
      (c : Candidate) × (d : String) × (r ≡ routing c d)
      × (driver_for stage (rule_for t stage.name) ≡ some d)
      × Offered t c
      × (qualifies compile (rule_for t stage.name) c ≡ true)
  resolve-qualifies =
      let (c, rest, d, first, driver, same) = resolve-Picked in
      let rule = rule_for t stage.name in
      let offered =
        sort_candidates-keeps (Offered t) (strategy_of rule) _ (
          filter-keeps (Offered t) (qualifies compile rule) (candidates t)
            (candidates-Offered t)) in
      let passing =
        sort_candidates-keeps (λ x. qualifies compile rule x ≡ true) (strategy_of rule) _
          (filter-All (qualifies compile rule) (candidates t)) in
      (
        c,
        d,
        same,
        driver,
        (subst (All (Offered t)) first offered).0,
        (subst (All (λ x. qualifies compile rule x ≡ true)) first passing).0,
      )

  -- Under the strategy cost, no model that qualifies has a lower input cost than the one that is picked.
  pub resolve-cheapest :
      strategy_of (rule_for t stage.name) ≡ SortStrategy.cost
      → All
          (λ (q : Candidate). r.cost_per_1k_input ≤ input_cost q)
          (filter (qualifies compile (rule_for t stage.name)) (candidates t))
  unfolding sort_candidates
  resolve-cheapest cheapest =
      let (c, rest, d, first, driver, same) = resolve-Picked in
      let left = filter (qualifies compile (rule_for t stage.name)) (candidates t) in
      let first' : sort_by input_cost left ≡ c ∷ rest =
        sym (ap (λ s. sort_candidates s left) cheapest) ∙ first in
      let in_order : IsSortedBy input_cost (c ∷ rest) =
        subst (IsSortedBy input_cost) first' (sort_by-IsSortedBy input_cost left) in
      let best : All (λ q. input_cost c ≤ input_cost q) (sort_by input_cost left) =
        subst (All (λ q. input_cost c ≤ input_cost q)) (sym first') (omega arith, in_order.0) in
      let is_cost : r.cost_per_1k_input ≡ input_cost c =
        ap (λ (x : ResolvedRouting). x.cost_per_1k_input) same in
      subst (λ n. All (λ q. n ≤ input_cost q) left) (sym is_cost)
        (sort_by-All_of input_cost _ left best)
