-- ===== src/Scopes/Tests.antt =====
-- A catalog row and a project's row of src/core/services/resolve-scoped.ts.
use fluxaos.Prelude.{
  ◌≤◌, ◌≡◌, refl, true, none, some, List, [], ◌∷◌, All, Splits, ok, filter, sort_by, every,
}
use fluxaos.Scopes.Resolve.{
  ScopeContext, ScopedRow, Kind, in_scope, scoped_where, priority, is_valid,
  assert_valid_scoped_rows, resolve_scoped,
}
use fluxaos.Scopes.Specific.{rank, resolve_scoped-most_specific}

abbrev context : ScopeContext
context = record { project_id = some 7; user_id = none; team_id = none; org_id = some 1 }

abbrev shared : ScopedRow
shared = record {
  id = 1;
  kind = Kind.catalog;
  org_id = none;
  team_id = none;
  user_id = none;
  project_id = none;
  key = 4;
  extra = true;
}

abbrev own_row : ScopedRow
own_row = record shared { id = 2; kind = Kind.project; project_id = some 7 }

abbrev table : List ScopedRow
table = shared ∷ own_row ∷ []

own_row_wins : resolve_scoped context table ≡ ok (some own_row)
unfolding resolve_scoped assert_valid_scoped_rows every is_valid priority in_scope filter sort_by
own_row_wins = refl

resolve_scoped-most_specific_example :
    (scoped_where context own_row ≡ true)
    × (is_valid own_row ≡ true)
    × Splits table own_row
    × All (λ (q : ScopedRow). scoped_where context q ≡ true → rank own_row.kind ≤ rank q.kind) table
resolve_scoped-most_specific_example =
    resolve_scoped-most_specific context table own_row own_row_wins
