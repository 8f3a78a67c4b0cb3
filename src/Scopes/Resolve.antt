-- ===== src/Scopes/Resolve.antt =====
-- `resolveScoped` and `resolveScopedAll` of src/core/services/resolve-scoped.ts. A comparison with null is
-- not true in SQL.
use fluxaos.Prelude.{
  ℕ, ◌+◌, Bool, true, false, not, ◌&&◌, Option, none, some, List, [], ◌∷◌, filter, every, head?,
  ltb, ◌==◌, is_some, if◌then◌else◌, sort_by, Result, ok, err,
}

pub record ScopeContext : Type 0 where
  pub project_id : Option ℕ
  pub user_id : Option ℕ
  pub team_id : Option ℕ
  pub org_id : Option ℕ

pub data Kind : Type 0 where
  catalog org team user project other : Kind

-- `key` is the column that `resolveScopedAll` deduplicates by, and `extra` tells whether the row
-- satisfies the caller's further condition.
pub record ScopedRow : Type 0 where
  pub id : ℕ
  pub kind : Kind
  pub org_id : Option ℕ
  pub team_id : Option ℕ
  pub user_id : Option ℕ
  pub project_id : Option ℕ
  pub key : ℕ
  pub extra : Bool

abbrev sql_eq : Option ℕ → Option ℕ → Bool
sql_eq (some a) (some b) = a == b
sql_eq (some a) none = false
sql_eq none b = false

abbrev pub is_null : Option ℕ → Bool
is_null none = true
is_null (some a) = false

abbrev is_catalog_row : ScopedRow → Bool
is_catalog_row r =
    is_null r.org_id && (is_null r.team_id && (is_null r.user_id && is_null r.project_id))

-- `scopedWhere`: the layer of the row's kind; the layer of a missing id is not asked for.
unfoldable pub in_scope : ScopeContext → ScopedRow → Kind → Bool
in_scope ctx r Kind.catalog = is_catalog_row r
in_scope ctx r Kind.org = sql_eq r.org_id ctx.org_id
in_scope ctx r Kind.team = sql_eq r.team_id ctx.team_id
in_scope ctx r Kind.user = sql_eq r.user_id ctx.user_id
in_scope ctx r Kind.project = sql_eq r.project_id ctx.project_id
in_scope ctx r Kind.other = false

abbrev pub scoped_where : ScopeContext → ScopedRow → Bool
scoped_where ctx r = in_scope ctx r r.kind && r.extra

abbrev is_kind : Kind → Kind → Bool
is_kind Kind.catalog Kind.catalog = true
is_kind Kind.org Kind.org = true
is_kind Kind.team Kind.team = true
is_kind Kind.user Kind.user = true
is_kind Kind.project Kind.project = true
is_kind _ _ = false

-- `priorityExpression`, case by case.
unfoldable pub priority : ScopeContext → ScopedRow → ℕ
priority ctx r =
    if sql_eq r.project_id ctx.project_id && is_kind r.kind Kind.project
    then 1
    else if sql_eq r.user_id ctx.user_id && is_kind r.kind Kind.user
    then 2
    else if sql_eq r.team_id ctx.team_id && is_kind r.kind Kind.team
    then 3
    else if sql_eq r.org_id ctx.org_id && is_kind r.kind Kind.org
    then 4
    else if is_catalog_row r && is_kind r.kind Kind.catalog
    then 5
    else 99

abbrev one_if : Option ℕ → ℕ
one_if none = 0
one_if (some a) = 1

abbrev set_scopes : ScopedRow → ℕ
set_scopes r = one_if r.org_id + (one_if r.team_id + (one_if r.user_id + one_if r.project_id))

abbrev expected_kind : ScopedRow → Kind
expected_kind r =
    if is_some r.project_id
    then Kind.project
    else if is_some r.user_id
    then Kind.user
    else if is_some r.team_id
    then Kind.team
    else if is_some r.org_id
    then Kind.org
    else Kind.catalog

-- `assertValidScopedRow` does not throw.
unfoldable pub is_valid : ScopedRow → Bool
is_valid r = not (ltb 1 (set_scopes r)) && is_kind r.kind (expected_kind r)

pub data ScopeError : Type 0 where
  invalid_scoped_row : ScopeError

unfoldable pub assert_valid_scoped_rows : List ScopedRow → Result ScopeError (List ScopedRow)
unfolding is_valid
assert_valid_scoped_rows rows = if every is_valid rows then ok rows else err invalid_scoped_row

abbrev pub limit_one : List ScopedRow → List ScopedRow
limit_one [] = []
limit_one (r ∷ rest) = r ∷ []

abbrev pub first_of : Result ScopeError (List ScopedRow) → Result ScopeError (Option ScopedRow)
first_of (ok rows) = ok (head? rows)
first_of (err e) = err e

unfoldable pub resolve_scoped : ScopeContext → List ScopedRow → Result ScopeError (Option ScopedRow)
unfolding priority in_scope assert_valid_scoped_rows
resolve_scoped ctx table = first_of (
    assert_valid_scoped_rows (limit_one (sort_by (priority ctx) (filter (scoped_where ctx) table))))

-- `SELECT DISTINCT ON (key)`: the first row of every key, of rows in the order of their keys.
unfoldable pub distinct_after : ℕ → List ScopedRow → List ScopedRow
distinct_after k [] = []
distinct_after k (r ∷ rest) =
    let later = distinct_after r.key rest in
    let skipped = distinct_after k rest in if r.key == k then skipped else r ∷ later

unfoldable pub distinct_on : List ScopedRow → List ScopedRow
unfolding distinct_after
distinct_on [] = []
distinct_on (r ∷ rest) = r ∷ distinct_after r.key rest

unfoldable pub resolve_scoped_all :
    ScopeContext → List ScopedRow → Result ScopeError (List ScopedRow)
unfolding priority in_scope assert_valid_scoped_rows distinct_on
resolve_scoped_all ctx table = assert_valid_scoped_rows (
    distinct_on (
      sort_by (λ (r : ScopedRow). r.key)
        (sort_by (priority ctx) (filter (scoped_where ctx) table))))
