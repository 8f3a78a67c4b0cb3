-- ===== src/Routing/Routed.antt =====
-- src/core/orchestrator/routing-resolver.ts: the candidates that the rule allows.
use fluxaos.Prelude.{ℕ, String, Bool, false, ◌&&◌, Option, none, some}
use fluxaos.Routing.Resolver.{RoutingRule, Candidate, within, max_cost_of, allowed}

abbrev pub passes_both : Option (Candidate → Bool) → Option ℕ → Candidate → Bool
passes_both none limit c = false
passes_both (some test) limit c = test c && within limit c

-- A candidate's identifier matches the pattern of the rule, and its cost is within the rule's limit.
abbrev pub qualifies : (String → Option (String → Bool)) → Option RoutingRule → Candidate → Bool
qualifies compile rule c = passes_both (allowed compile rule) (max_cost_of rule) c
