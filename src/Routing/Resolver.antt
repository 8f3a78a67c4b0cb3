-- ===== src/Routing/Resolver.antt =====
-- `resolve` of src/core/orchestrator/routing-resolver.ts. The compiler of regular expressions is a
-- parameter; costs are counted in millionths of a dollar.
use fluxaos.Prelude.{
  ℕ, String, Bool, true, false, Option, none, some, List, [], ◌∷◌, ◌++◌, map, find, filter, any,
  ltb, leb, ◌==◌, str_eq, if◌then◌else◌, sort_by, utf16_length,
}
use fluxaos.Executor.Ports.{given}

pub data SortStrategy : Type 0 where
  quality cost other_strategy : SortStrategy

pub record RoutedStage : Type 0 where
  pub id : ℕ
  pub name : String
  pub driver : Option String

pub record RoutingRule : Type 0 where
  pub id : ℕ
  pub profile_id : ℕ
  pub stage_name : Option String
  pub allowed_models_pattern : Option String
  pub preferred_driver : Option String
  pub sort_strategy : Option SortStrategy
  pub max_cost_usd : Option ℕ

pub record Provider : Type 0 where
  pub id : ℕ
  pub name : String
  pub base_url : Option String
  pub api_key_ref : Option String
  pub is_healthy : Bool

pub record Model : Type 0 where
  pub id : ℕ
  pub provider_id : ℕ
  pub identifier : String
  pub cost_per_1k_input : Option ℕ
  pub cost_per_1k_output : Option ℕ

pub record Candidate : Type 0 where
  pub provider : Provider
  pub model : Model

pub record ResolvedRouting : Type 0 where
  pub provider_id : ℕ
  pub provider_name : String
  pub provider_base_url : Option String
  pub provider_api_key_ref : Option String
  pub model_id : ℕ
  pub model_identifier : String
  pub driver : String
  pub cost_per_1k_input : ℕ
  pub cost_per_1k_output : ℕ

-- What the queries read: the tables, and the profiles and providers in the project's scope.
pub record Routes : Type 0 where
  pub stages : List RoutedStage
  pub project_ids : List ℕ
  pub profile_ids : List ℕ
  pub rules : List RoutingRule
  pub providers : List Provider
  pub models : List Model

abbrev pub is_one_of : List ℕ → ℕ → Bool
is_one_of ids id = any (λ i. i == id) ids

abbrev pub names_stage : String → RoutingRule → Bool
names_stage name r = elim r.stage_name [ none ↦ false | some s ↦ str_eq s name ]

abbrev pub is_wildcard : RoutingRule → Bool
is_wildcard r = elim r.stage_name [ none ↦ true | some s ↦ false ]

abbrev pub or_rule : Option RoutingRule → Option RoutingRule → Option RoutingRule
or_rule (some r) other = some r
or_rule none other = other

-- The rule for a stage: one that names it, or else one for every stage.
unfoldable pub rule_for : Routes → String → Option RoutingRule
unfolding any
rule_for t name =
    let rules = filter (λ (r : RoutingRule). is_one_of t.profile_ids r.profile_id) t.rules in
    or_rule (find (names_stage name) rules) (find is_wildcard rules)

-- In a map made of entries the last one with a key wins.
unfoldable pub provider_by_id : List Provider → ℕ → Option Provider
provider_by_id [] id = none
provider_by_id (p ∷ rest) id = elim (provider_by_id rest id) [
  | some q ↦ some q
  | none ↦ if p.id == id then some p else none
]

abbrev pub candidate_of : Option Provider → Model → List Candidate
candidate_of none m = []
candidate_of (some p) m = record { provider = p; model = m } ∷ []

unfoldable pub flat_map : (Model → List Candidate) → List Model → List Candidate
flat_map f [] = []
flat_map f (m ∷ rest) = f m ++ flat_map f rest

unfoldable pub candidates : Routes → List Candidate
unfolding any provider_by_id flat_map
candidates t =
    let healthy = filter (λ (p : Provider). p.is_healthy) t.providers in
    let ids = map (λ (p : Provider). p.id) healthy in
    flat_map (λ (m : Model). candidate_of (provider_by_id healthy m.provider_id) m)
      (filter (λ (m : Model). is_one_of ids m.provider_id) t.models)

abbrev pub or_zero : Option ℕ → ℕ
or_zero none = 0
or_zero (some n) = n

abbrev pub input_cost : Candidate → ℕ
input_cost c = or_zero c.model.cost_per_1k_input

abbrev pub within : Option ℕ → Candidate → Bool
within none c = true
within (some limit) c = leb (input_cost c) limit

-- What a rule's pattern allows; none where the pattern is too long or is no regular expression.
abbrev pub compiled : (String → Option (String → Bool)) → Option String → Option (Candidate → Bool)
compiled compile none = some (λ c. true)
compiled compile (some pattern) =
    if ltb 500 (utf16_length pattern)
    then none
    else elim (compile pattern) [ none ↦ none | some test ↦ some (λ c. test c.model.identifier) ]

abbrev pub pattern_of : Option RoutingRule → Option String
pattern_of none = none
pattern_of (some r) = given r.allowed_models_pattern

abbrev pub max_cost_of : Option RoutingRule → Option ℕ
max_cost_of none = none
max_cost_of (some r) = r.max_cost_usd

abbrev or_quality : Option SortStrategy → SortStrategy
or_quality none = SortStrategy.quality
or_quality (some s) = s

abbrev pub strategy_of : Option RoutingRule → SortStrategy
strategy_of none = SortStrategy.quality
strategy_of (some r) = or_quality r.sort_strategy

abbrev pub allowed :
    (String → Option (String → Bool)) → Option RoutingRule → Option (Candidate → Bool)
allowed compile rule = compiled compile (pattern_of rule)

unfoldable pub sort_candidates : SortStrategy → List Candidate → List Candidate
sort_candidates SortStrategy.cost cs = sort_by input_cost cs
sort_candidates _ cs = cs

abbrev pub or_preferred : Option String → Option RoutingRule → Option String
or_preferred (some d) rule = some d
or_preferred none none = none
or_preferred none (some r) = given r.preferred_driver

abbrev pub driver_for : RoutedStage → Option RoutingRule → Option String
driver_for stage rule = or_preferred (given stage.driver) rule

abbrev pub routing : Candidate → String → ResolvedRouting
routing c driver = record {
  provider_id = c.provider.id;
  provider_name = c.provider.name;
  provider_base_url = c.provider.base_url;
  provider_api_key_ref = c.provider.api_key_ref;
  model_id = c.model.id;
  model_identifier = c.model.identifier;
  driver = driver;
  cost_per_1k_input = or_zero c.model.cost_per_1k_input;
  cost_per_1k_output = or_zero c.model.cost_per_1k_output;
}

abbrev pub with_driver : Candidate → Option String → Option ResolvedRouting
with_driver c none = none
with_driver c (some driver) = some (routing c driver)

abbrev pub pick : List Candidate → Option String → Option ResolvedRouting
pick [] driver = none
pick (c ∷ rest) driver = with_driver c driver

abbrev pub with_pattern :
    Option RoutingRule
    → RoutedStage
    → List Candidate
    → Option (Candidate → Bool)
    → Option ResolvedRouting
with_pattern rule stage cs none = none
with_pattern rule stage cs (some test) =
    pick (sort_candidates (strategy_of rule) (filter (within (max_cost_of rule)) (filter test cs)))
      (driver_for stage rule)

abbrev pub with_candidates :
    (String → Option (String → Bool))
    → Option RoutingRule
    → RoutedStage
    → List Candidate
    → Option ResolvedRouting
with_candidates compile rule stage [] = none
with_candidates compile rule stage (c ∷ rest) =
    with_pattern rule stage (c ∷ rest) (allowed compile rule)

abbrev in_project :
    (String → Option (String → Bool)) → Routes → ℕ → Option RoutedStage → Option ResolvedRouting
in_project compile t project_id none = none
in_project compile t project_id (some stage) =
    if is_one_of t.project_ids project_id
    then with_candidates compile (rule_for t stage.name) stage (candidates t)
    else none

unfoldable pub resolve :
    (String → Option (String → Bool)) → Routes → (stage_id project_id : ℕ) → Option ResolvedRouting
unfolding any rule_for candidates sort_candidates utf16_length
resolve compile t stage_id project_id =
    in_project compile t project_id (find (λ (s : RoutedStage). s.id == stage_id) t.stages)
