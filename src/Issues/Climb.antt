-- ===== src/Issues/Climb.antt =====
-- src/core/services/issue.ts: what happens to the parent when a child is closed.
use fluxaos.Prelude.{ℕ, suc, ◌≡◌, refl, true, some, Bool-cases, inl, inr, ◌⊎◌}
use fluxaos.Store.{Issue, Db}
use fluxaos.Issues.Lookup.{find_issue, has_open_children}
use fluxaos.Issues.Writes.{attempt, auto_close_levels, maybe_auto_close_parent}

module _ (levels child_id parent_id : ℕ) (child parent : Issue) (db : Db)
    (found_child : find_issue child_id db ≡ some child)
    (is_child : child.parent_issue_id ≡ some parent_id)
    (found_parent : find_issue parent_id db ≡ some parent) where
  abbrev after : Db
  after = auto_close_levels (suc levels) child_id db

  stays : (parent.is_closed ≡ true) ⊎ (has_open_children parent_id db ≡ true) → after ≡ db
  unfolding auto_close_levels attempt has_open_children
  stays (inl c) = rw (found_child, is_child, found_parent, c) refl
  stays (inr o) = elim (Bool-cases parent.is_closed) [
    | inl c ↦ rw (found_child, is_child, found_parent, c) refl
    | inr c ↦ rw (found_child, is_child, found_parent, c, o) refl
  ]

-- A child of the parent was closed. Where the parent is closed already, or has an open child left, the
-- check changes nothing.
maybe_auto_close_parent-waits :
    (child_id parent_id : ℕ) (child parent : Issue) (db : Db)
    → find_issue child_id db ≡ some child
    → child.parent_issue_id ≡ some parent_id
    → find_issue parent_id db ≡ some parent
    → (parent.is_closed ≡ true) ⊎ (has_open_children parent_id db ≡ true)
    → maybe_auto_close_parent child_id db ≡ db
unfolding maybe_auto_close_parent
maybe_auto_close_parent-waits child_id parent_id child parent db fc ic fp =
    stays 50 child_id parent_id child parent db fc ic fp
