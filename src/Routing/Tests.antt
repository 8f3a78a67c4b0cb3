-- ===== src/Routing/Tests.antt =====
-- src/core/orchestrator/routing-resolver.ts with two models, of which a rule wants the cheaper one.
use fluxaos.Prelude.{
  ◌≤◌, ◌≡◌, refl, String, Bool, true, ◌==◌, Option, none, some, [], ◌∷◌, find, filter, any, All,
  sort_by, utf16_length,
}
use fluxaos.Routing.Resolver.{
  SortStrategy, RoutedStage, RoutingRule, Provider, Model, Candidate, ResolvedRouting, Routes,
  rule_for, provider_by_id, flat_map, candidates, input_cost, strategy_of, sort_candidates, routing,
  resolve,
}
use fluxaos.Routing.Routed.{qualifies}
use fluxaos.Routing.Pick.{Offered, resolve-cheapest}
use fluxaos.Routing.Chosen.{RuleFor, DriverFor, Allows, resolve-picks}

abbrev build : RoutedStage
build = record { id = 1; name = "build"; driver = none }

abbrev build_rule : RoutingRule
build_rule = record {
  id = 5;
  profile_id = 9;
  stage_name = some "build";
  allowed_models_pattern = some ".*";
  preferred_driver = some "claude";
  sort_strategy = some SortStrategy.cost;
  max_cost_usd = some 4000;
}

abbrev local : Provider
local = record { id = 3; name = "local"; base_url = none; api_key_ref = none; is_healthy = true }

abbrev large : Model
large = record {
  id = 20;
  provider_id = 3;
  identifier = "large";
  cost_per_1k_input = some 3000;
  cost_per_1k_output = none;
}

abbrev small : Model
small = record large { id = 21; identifier = "small"; cost_per_1k_input = some 500 }

abbrev routes : Routes
routes = record {
  stages = build ∷ [];
  project_ids = 7 ∷ [];
  profile_ids = 9 ∷ [];
  rules = build_rule ∷ [];
  providers = local ∷ [];
  models = large ∷ small ∷ [];
}

abbrev match_all : String → Option (String → Bool)
match_all pattern = some (λ text. true)

abbrev small_routing : ResolvedRouting
small_routing = routing (record { provider = local; model = small }) "claude"

picks_small : resolve match_all routes 1 7 ≡ some small_routing
unfolding resolve rule_for candidates provider_by_id flat_map sort_candidates sort_by filter find
    any utf16_length
picks_small = refl

build_found : find (λ (s : RoutedStage). s.id == 1) routes.stages ≡ some build
unfolding find
build_found = refl

by_cost : strategy_of (rule_for routes "build") ≡ SortStrategy.cost
unfolding rule_for find filter any
by_cost = refl

resolve-picks_example :
    (rule : Option RoutingRule) × (c : Candidate) × (d : String) × (small_routing ≡ routing c d)
    × RuleFor routes "build" rule
    × DriverFor build rule d
    × Offered routes c
    × Allows match_all rule c
resolve-picks_example =
    resolve-picks match_all routes 1 7 build small_routing build_found picks_small

resolve-cheapest_example :
    All
      (λ (q : Candidate). 500 ≤ input_cost q)
      (filter (qualifies match_all (rule_for routes "build")) (candidates routes))
resolve-cheapest_example =
    resolve-cheapest match_all routes 1 7 build small_routing build_found picks_small by_cost
