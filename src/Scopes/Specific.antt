-- ===== src/Scopes/Specific.antt =====
-- src/core/services/resolve-scoped.ts: the most specific row wins.
use fluxaos.Prelude.{
  sort_by-All_of, All-Splits, filter-All_of, if◌then◌else◌, filter-keeps, subst, Splits, IsSortedBy,
  ℕ, ◌≤◌, ◌≡◌, refl, sym, true, false, Option, some, List, [], ◌∷◌, inl, inr, arith, Bool-cases,
  every, filter, filter-All, All, All-map, sort_by, sort_by-IsSortedBy, sort_by-keeps, Result, ok,
  err,
}
use fluxaos.Scopes.Resolve.{
  ScopeError, invalid_scoped_row, ScopeContext, ScopedRow, Kind, in_scope, scoped_where, priority,
  is_valid, assert_valid_scoped_rows, limit_one, first_of, resolve_scoped,
}

-- The order of the layers.
abbrev pub rank : Kind → ℕ
rank Kind.project = 1
rank Kind.user = 2
rank Kind.team = 3
rank Kind.org = 4
rank Kind.catalog = 5
rank Kind.other = 99

priority-rank :
    (ctx : ScopeContext) (r : ScopedRow) (kind : Kind)
    → r.kind ≡ kind
    → in_scope ctx r kind ≡ true
    → priority ctx r ≡ rank kind
unfolding in_scope priority
priority-rank ctx r Kind.catalog k h = rw k (ground arith)
priority-rank ctx r Kind.org k h = rw k (ground arith)
priority-rank ctx r Kind.team k h = rw k (ground arith)
priority-rank ctx r Kind.user k h = rw k (ground arith)
priority-rank ctx r Kind.project k h = rw k (ground arith)
priority-rank ctx r Kind.other k h = absurd (cc (h))

in_scope-rank :
    (ctx : ScopeContext) (r : ScopedRow) → scoped_where ctx r ≡ true → priority ctx r ≡ rank r.kind
in_scope-rank ctx r h = priority-rank ctx r r.kind refl (ground arith)

-- The rows that may be the answer, the most specific first.
abbrev candidates : ScopeContext → List ScopedRow → List ScopedRow
candidates ctx table = sort_by (priority ctx) (filter (scoped_where ctx) table)

abbrev IsBest : ScopeContext → List ScopedRow → ScopedRow → Type 0
IsBest ctx table r =
    All (λ (q : ScopedRow). scoped_where ctx q ≡ true → priority ctx r ≤ priority ctx q) table

first-IsBest :
    (ctx : ScopeContext) (table : List ScopedRow) (r : ScopedRow) (rest : List ScopedRow)
    → candidates ctx table ≡ r ∷ rest
    → IsBest ctx table r
first-IsBest ctx table r rest e =
    let sorted = sort_by-IsSortedBy (priority ctx) (filter (scoped_where ctx) table) in
    let sorted' : IsSortedBy (priority ctx) (r ∷ rest) =
      subst (IsSortedBy (priority ctx)) e sorted in
    let all : All (λ (q : ScopedRow). priority ctx r ≤ priority ctx q) (candidates ctx table) =
      subst (All (λ (q : ScopedRow). priority ctx r ≤ priority ctx q)) (sym e)
        (omega arith, sorted'.0) in
    filter-All_of _ (scoped_where ctx) table (sort_by-All_of (priority ctx) _ _ all)

first-scoped :
    (ctx : ScopeContext) (table : List ScopedRow) (r : ScopedRow) (rest : List ScopedRow)
    → candidates ctx table ≡ r ∷ rest
    → (scoped_where ctx r ≡ true) × Splits table r
first-scoped ctx table r rest e =
    let passes : All (λ x. scoped_where ctx x ≡ true) (candidates ctx table) =
      sort_by-keeps (priority ctx) _ _ (filter-All (scoped_where ctx) table) in
    let splits : All (Splits table) (candidates ctx table) =
      sort_by-keeps (priority ctx) (Splits table) _
        (filter-keeps (Splits table) (scoped_where ctx) table (All-Splits table)) in
    (
      (subst (All (λ x. scoped_where ctx x ≡ true)) e passes).0,
      (subst (All (Splits table)) e splits).0,
    )

picked :
    (x r : ScopedRow)
    → is_valid x ≡ true
    → first_of (if every is_valid (x ∷ []) then ok (x ∷ []) else err invalid_scoped_row)
      ≡ ok (some r)
    → x ≡ r
unfolding every
picked x r v k =
    let k' : (let answer : Result ScopeError (Option ScopedRow) = ok (some x) in answer)
        ≡ ok (some r) =
      rw v at k in
    cc

refused :
    (x r : ScopedRow)
    → is_valid x ≡ false
    → first_of (if every is_valid (x ∷ []) then ok (x ∷ []) else err invalid_scoped_row)
      ≡ ok (some r)
    → ⊥
unfolding every
refused x r v k =
    let k' : (let answer : Result ScopeError (Option ScopedRow) = err invalid_scoped_row in answer)
        ≡ ok (some r) =
      rw v at k in
    cc

-- A row that `resolveScoped` returns is one of the table's rows in scope, it is valid, and no row in scope
-- is more specific: a project's row before a user's, then a team's, an organization's and the catalog's.
pub resolve_scoped-most_specific :
    (ctx : ScopeContext) (table : List ScopedRow) (r : ScopedRow)
    → resolve_scoped ctx table ≡ ok (some r)
    → (scoped_where ctx r ≡ true)
      × (is_valid r ≡ true)
      × Splits table r
      × All (λ (q : ScopedRow). scoped_where ctx q ≡ true → rank r.kind ≤ rank q.kind) table
unfolding resolve_scoped assert_valid_scoped_rows every
resolve_scoped-most_specific ctx table r h = go (candidates ctx table) refl h
  where
    go :
        (rows : List ScopedRow)
        → candidates ctx table ≡ rows
        → first_of (
            if every is_valid (limit_one rows) then ok (limit_one rows) else err invalid_scoped_row)
          ≡ ok (some r)
        → (scoped_where ctx r ≡ true)
          × (is_valid r ≡ true)
          × Splits table r
          × All (λ (q : ScopedRow). scoped_where ctx q ≡ true → rank r.kind ≤ rank q.kind) table
    go [] e k = absurd (cc)
    go (x ∷ rest) e k = elim (Bool-cases (is_valid x)) [
      | inl v ↦
          let same = picked x r v k in
          let (scoped, splits) = first-scoped ctx table x rest e in
          let best = first-IsBest ctx table x rest e in
          subst
            (λ y.
              (scoped_where ctx y ≡ true)
              × (is_valid y ≡ true)
              × Splits table y
              × All (λ (q : ScopedRow). scoped_where ctx q ≡ true → rank y.kind ≤ rank q.kind)
                  table)
            same
            (
              scoped,
              v,
              splits,
              All-map _ _ table
                  (λ q le c.
                    let le' = le c in
                    let a = in_scope-rank ctx x scoped in
                    let b = in_scope-rank ctx q c in omega arith)
                  best,
            )
      | inr v ↦ absurd (refused x r v k)
    ]
