-- ===== src/Issues/Levels.antt =====
-- src/core/services/issue.ts: induction over what the automatic closing of parents writes.
use fluxaos.Prelude.{
  ℕ, zero, suc, ◌≡◌, subst, true, false, Option, none, some, arith, find, find-passes, update_where,
  ltb, Bool-cases, Option-cases, inl, inr, ok, Result-cases,
}
use fluxaos.Store.{Actor, IssueEventType, Payload, Issue, IssueState, Db, issue_has_id}
use fluxaos.Issues.Lookup.{find_issue, find_terminal_state, open_count}
use fluxaos.Issues.Writes.{
  has_version, update_version, record_event, close_by, close_parent, is_conflict, attempt,
  close_parent_of, auto_close_levels,
}

module _ (terminal : IssueState) (parent : Issue) (now : ℕ) where
  -- The write of one closed parent.
  abbrev pub closed_parent : Db → Db
  closed_parent db = record db {
    issues =
        update_where (has_version parent.id parent.version) (close_by terminal parent.version now)
          db.issues;
  }

-- The event of a closed parent.
abbrev pub recorded : ℕ → Issue → IssueState → Db → Db
recorded child_id parent terminal db =
    record_event parent.id Actor.orchestrator IssueEventType.state_changed
      (Payload.state parent.state_id terminal.id true (some child_id)) db

-- A reflexive and transitive relation that holds of every write of a closed parent holds of the whole
-- climb.
module _ (R : Db → Db → Type 0) (R_refl : (db : Db) → R db db)
    (R_trans : (a b c : Db) → R a b → R b c → R a c)
    (step : (child_id : ℕ) (terminal : IssueState) (parent : Issue) (db : Db)
      → find_issue parent.id db ≡ some parent
      → parent.is_closed ≡ false
      → find_terminal_state parent.project_id db ≡ ok terminal
      → R db (recorded child_id parent terminal (closed_parent terminal parent db.now db))) where
  -- One step up the tree, over any check `up` of the levels above it.
  module _ (up : ℕ → Db → Db) (levels_above : (id : ℕ) (db : Db) → R db (up id db)) where
    close_parent-relates :
        (child_id : ℕ) (parent : Issue) (db : Db)
        → find_issue parent.id db ≡ some parent
        → parent.is_closed ≡ false
        → R db (close_parent up child_id parent db).1
    unfolding close_parent find_terminal_state update_version find_issue record_event
    close_parent-relates child_id parent db found is_open =
        elim (Result-cases (find_terminal_state parent.project_id db)) [
          | inl (e, failed) ↦ rw failed (R_refl db)
          | inr (terminal, at) ↦
              elim (Option-cases (find (has_version parent.id parent.version) db.issues)) [
                | inl gone ↦ rw (at, gone) (R_refl db)
                | inr (row, there) ↦
                    rw (at, there)
                      (let mid =
                          recorded child_id parent terminal
                            (closed_parent terminal parent db.now db) in
                        R_trans db mid (up parent.id mid)
                          (step child_id terminal parent db found is_open at)
                          (levels_above parent.id mid))
              ]
        ]

    attempt-relates : (child_id parent_id : ℕ) (db : Db) → R db (attempt up child_id parent_id db).1
    unfolding attempt
    attempt-relates child_id parent_id db = elim (Option-cases (find_issue parent_id db)) [
      | inl e ↦ rw e (R_refl db)
      | inr (parent, e) ↦
          let same : parent_id ≡ parent.id =
            ground (arith, find-passes (issue_has_id parent_id) db.issues parent e) in
          elim (Bool-cases parent.is_closed) [
            | inl c ↦ rw (e, c) (R_refl db)
            | inr c ↦ elim (Bool-cases (ltb 0 (open_count parent_id db))) [
              | inl o ↦ rw (e, c, o) (R_refl db)
              | inr o ↦
                  rw (e, c, o)
                    (close_parent-relates child_id parent db
                      (subst (λ i. find_issue i db ≡ some parent) same e) c)
            ]
          ]
    ]

    close_parent_of-relates :
        (child_id : ℕ) (child : Option Issue) (db : Db)
        → R db (close_parent_of up child_id child db)
    close_parent_of-relates child_id none db = R_refl db
    close_parent_of-relates child_id (some child) db = elim (Option-cases child.parent_issue_id) [
      | inl e ↦ rw e (R_refl db)
      | inr (parent_id, e) ↦
          let first = attempt-relates child_id parent_id db in
          let db' = (attempt up child_id parent_id db).1 in
          elim (Bool-cases (is_conflict (attempt up child_id parent_id db).0)) [
            | inl c ↦
                rw (e, c)
                  (R_trans db db' (attempt up child_id parent_id db').1 first
                    (attempt-relates child_id parent_id db'))
            | inr c ↦ rw (e, c) first
          ]
    ]

  pub auto_close_levels-relates :
      (levels child_id : ℕ) (db : Db) → R db (auto_close_levels levels child_id db)
  unfolding auto_close_levels
  auto_close_levels-relates zero child_id db = R_refl db
  auto_close_levels-relates (suc levels) child_id db =
      close_parent_of-relates (auto_close_levels levels) (auto_close_levels-relates levels) child_id
        (find_issue child_id db) db
