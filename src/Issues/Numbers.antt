-- ===== src/Issues/Numbers.antt =====
-- `create` of src/core/services/issue.ts: the number, the version and the state of a new issue.
use fluxaos.Prelude.{
  Splits, All-Splits, filter-keeps, ℕ, ◌+◌, ◌≤◌, ◌<◌, ◌≡◌, refl, ap, ◌∙◌, sym, subst, Bool-cases,
  inl, inr, String, Bool, true, false, ◌&&◌, some, List, [], ◌∷◌, ◌++◌, arith, count, count-append,
  head?, sort_by-keeps, filter-All, All, All-map, ◌==◌, ok, ◌>>=◌, >>=-eq-ok,
}
use fluxaos.Store.{Issue, IssueState, Db}
use fluxaos.Issues.Lookup.{
  is_candidate, first_state, find_non_terminal_state, resolve_status_by_config_key,
}
use fluxaos.Issues.Writes.{record_event}
use fluxaos.Issues.Moves.{or_throw-ok, ok_pair}
use fluxaos.Issues.Service.{
  CreateIssueInput, max_number, new_issue, insert_issue, check_parent, create,
}

abbrev pub has_number : ℕ → ℕ → Issue → Bool
has_number project_id number i = i.project_id == project_id && i.number == number

-- `unique().on(projectId, number)`
abbrev pub AreNumbered : List Issue → Type 0
AreNumbered rows = (project_id number : ℕ) → count (has_number project_id number) rows ≤ 1

max_number-All :
    (project_id : ℕ) (rows : List Issue)
    → All (λ (r : Issue). r.project_id ≡ project_id → r.number ≤ max_number project_id rows) rows
unfolding max_number
max_number-All project_id [] = tt
max_number-All project_id (i ∷ rows) = (
  λ same. ground arith,
  All-map _ _ rows (λ r h same. let below = h same in ground arith)
      (max_number-All project_id rows),
)

fresh_number :
    (project_id number : ℕ) (rows : List Issue)
    → All (λ (r : Issue). r.project_id ≡ project_id → r.number < number) rows
    → count (has_number project_id number) rows ≡ 0
unfolding count
fresh_number project_id number [] h = refl
fresh_number project_id number (r ∷ rows) h =
    let below = h.0 in ground (arith, fresh_number project_id number rows h.1)

append_numbered :
    (rows : List Issue) (row : Issue)
    → AreNumbered rows
    → All (λ (r : Issue). r.project_id ≡ row.project_id → r.number < row.number) rows
    → AreNumbered (rows ++ row ∷ [])
unfolding count
append_numbered rows row numbered below p n =
    let more = count-append (has_number p n) rows (row ∷ []) in
    let before = numbered p n in
    elim (Bool-cases (has_number p n row)) [
      | inl e ↦
          let is_p : row.project_id ≡ p = ground arith in
          let is_n : row.number ≡ n = ground arith in
          let none_before : count (has_number p n) rows ≡ 0 =
            subst (λ q. count (has_number q n) rows ≡ 0) is_p
              (subst (λ m. count (has_number row.project_id m) rows ≡ 0) is_n
                (fresh_number row.project_id row.number rows below)) in
          ground arith
      | inr e ↦ ground arith
    ]

-- The first state is one of the candidates.
pub first_state-candidate :
    (project_id : ℕ) (terminal : Bool) (db : Db) (s : IssueState)
    → first_state project_id terminal db ≡ some s
    → is_candidate project_id terminal s ≡ true
unfolding first_state
first_state-candidate project_id terminal db s h =
    go _
      (sort_by-keeps (λ (x : IssueState). x.sort_order)
        (λ x. is_candidate project_id terminal x ≡ true) _
        (filter-All (is_candidate project_id terminal) db.states))
      h
  where
    go :
        (xs : List IssueState)
        → All (λ x. is_candidate project_id terminal x ≡ true) xs
        → head? xs ≡ some s
        → is_candidate project_id terminal s ≡ true
    go [] all e = absurd (cc)
    go (x ∷ xs) all e = cc (all.0, e)

first_state-Splits :
    (project_id : ℕ) (terminal : Bool) (db : Db) (s : IssueState)
    → first_state project_id terminal db ≡ some s
    → Splits db.states s
unfolding first_state
first_state-Splits project_id terminal db s h =
    go _
      (sort_by-keeps (λ (x : IssueState). x.sort_order) (Splits db.states) _
        (filter-keeps (Splits db.states) (is_candidate project_id terminal) db.states
          (All-Splits db.states)))
      h
  where
    go : (xs : List IssueState) → All (Splits db.states) xs → head? xs ≡ some s → Splits db.states s
    go [] all e = absurd (cc)
    go (x ∷ xs) all e = let same : some x ≡ some s = e in subst (Splits db.states) (cc) all.0

module _ (render : String → String) (input : CreateIssueInput) (db : Db) (row : Issue) (after : Db)
    (created : create render input db ≡ ok (row, after)) where
  pub create-ok :
      (initial : IssueState) × (status_id : ℕ) × (first_state input.project_id false db
        ≡ some initial)
      × (row
          ≡ new_issue render input initial.id status_id
              (max_number input.project_id db.issues + 1)
              db)
      × (after.issues ≡ db.issues ++ row ∷ [])
      × (after.states ≡ db.states)
  unfolding create record_event find_non_terminal_state
  create-ok =
      let made = λ (initial : IssueState) (status_id : ℕ).
        new_issue render input initial.id status_id (max_number input.project_id db.issues + 1)
          db in
      let done = λ (initial : IssueState) (status_id : ℕ) (_ : Unit {0}).
        ok (insert_issue render input (made initial status_id) db) in
      let (initial, at, h) =
        >>=-eq-ok (find_non_terminal_state input.project_id db)
          (λ initial.
            resolve_status_by_config_key input.project_id "issues.status.on_create_key" db
            >>= λ status_id. check_parent input db >>= done initial status_id)
          created in
      let (status_id, is_status, h) =
        >>=-eq-ok (resolve_status_by_config_key input.project_id "issues.status.on_create_key" db)
          (λ status_id. check_parent input db >>= done initial status_id) h in
      let (u, parent, h) = >>=-eq-ok (check_parent input db) (done initial status_id) h in
      let row' = made initial status_id in
      let (same_row, same_db) = ok_pair row' row (insert_issue render input row' db).1 after h in
      (
        initial,
        status_id,
        or_throw-ok (first_state input.project_id false db) _ initial at,
        same_row,
        ap (λ (d : Db). d.issues) same_db ∙ ap (λ r. db.issues ++ r ∷ []) (sym same_row),
        ap (λ (d : Db). d.states) same_db,
      )

  -- A created issue is open, in version 1 and in an active state of its project that is not terminal;
  -- its number is larger than that of every issue of the project; it is the one row added; and where no
  -- two issues of a project had the same number, none have after.
  pub create-number :
      AreNumbered db.issues
      → (row.is_closed ≡ false)
        × (row.version ≡ 1)
        × ((initial : IssueState) × Splits db.states initial
            × (row.state_id ≡ initial.id)
            × (initial.project_id ≡ input.project_id)
            × (initial.is_terminal ≡ false)
            × (initial.is_active ≡ true))
        × All (λ (r : Issue). r.project_id ≡ input.project_id → r.number < row.number) db.issues
        × (after.issues ≡ db.issues ++ row ∷ [])
        × AreNumbered after.issues
  create-number numbered =
      let (initial, status_id, at, is_row, is_db, same_states) = create-ok in
      let candidate = first_state-candidate input.project_id false db initial at in
      let number_of = ap (λ (r : Issue). r.number) is_row in
      let project_of = ap (λ (r : Issue). r.project_id) is_row in
      let below : All (λ (r : Issue). r.project_id ≡ input.project_id → r.number < row.number)
          db.issues =
        All-map _ _ db.issues (λ r h same. let le = h same in omega (arith, number_of))
          (max_number-All input.project_id db.issues) in
      (
        ap (λ (r : Issue). r.is_closed) is_row,
        ap (λ (r : Issue). r.version) is_row,
        (
          initial,
          first_state-Splits input.project_id false db initial at,
          ap (λ (r : Issue). r.state_id) is_row,
          ground arith,
          ground arith,
          ground arith,
        ),
        below,
        is_db,
        subst AreNumbered (sym is_db)
            (append_numbered db.issues row numbered (rw project_of below)),
      )
