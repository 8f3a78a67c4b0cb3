-- ===== src/Issues/Writes.antt =====
-- src/core/services/issue.ts: versions, events, and the automatic closing of parents.
use fluxaos.Prelude.{
  ℕ, zero, suc, Bool, true, false, ◌&&◌, Option, none, some, [], ◌∷◌, ◌++◌, find, update_where, ltb,
  ◌==◌, if◌then◌else◌, Result, ok, err,
}
use fluxaos.Store.{Actor, IssueEventType, IssueState, Issue, Payload, Db}
use fluxaos.Issues.Lookup.{IssueError, find_issue, find_terminal_state, open_count}

unfoldable pub record_event : ℕ → Actor → IssueEventType → Payload → Db → Db
record_event issue_id actor type payload db = record db {
  issue_events =
      db.issue_events
      ++ record { issue_id = issue_id; actor = actor; type = type; payload = payload } ∷ [];
}

unfoldable pub assert_version : Issue → ℕ → Result IssueError (Unit {0})
assert_version current expected =
    if current.version == expected then ok tt else err IssueError.version_conflict

abbrev pub has_version : ℕ → ℕ → Issue → Bool
has_version id version i = i.id == id && i.version == version

-- `update(issue).set(…).where(id AND version).returning()`: the first row that was written.
abbrev pub written : ℕ → ℕ → (Issue → Issue) → Db → Option Issue → Option (Issue × Db)
written id version change db none = none
written id version change db (some row) =
    some (change row, record db { issues = update_where (has_version id version) change db.issues })

unfoldable pub update_version : ℕ → ℕ → (Issue → Issue) → Db → Option (Issue × Db)
update_version id version change db =
    written id version change db (find (has_version id version) db.issues)

-- What `transition`, `stateOverride` and the closing of a parent write.
abbrev pub move : IssueState → ℕ → ℕ → Issue → Issue
move target version now i = record i {
  state_id = target.id;
  is_closed = target.is_terminal;
  closed_at = if target.is_terminal then some now else none;
  version = suc version;
  updated_at = now;
}

abbrev pub close_by : IssueState → ℕ → ℕ → Issue → Issue
close_by target version now i = record i {
  state_id = target.id;
  is_closed = true;
  closed_at = some now;
  version = suc version;
  updated_at = now;
}

pub data Outcome : Type 0 where
  closed already_closed has_open conflict : Outcome

abbrev pub is_conflict : Outcome → Bool
is_conflict conflict = true
is_conflict _ = false

-- The `try` block of one attempt; `up` is the check one level further up.
module _ (up : ℕ → Db → Db) where
  abbrev after_close : ℕ → Issue → IssueState → Db → Option (Issue × Db) → Outcome × Db
  after_close child_id parent terminal db none = (conflict, db)
  after_close child_id parent terminal db (some (updated, db')) = (
    closed,
    up parent.id (
        record_event parent.id Actor.orchestrator IssueEventType.state_changed
          (Payload.state parent.state_id terminal.id true (some child_id)) db'),
  )

  abbrev close_in : ℕ → Issue → Result IssueError IssueState → Db → Outcome × Db
  close_in child_id parent (err e) db = (conflict, db)
  close_in child_id parent (ok terminal) db =
      after_close child_id parent terminal db
        (update_version parent.id parent.version (close_by terminal parent.version db.now) db)

  unfoldable pub close_parent : ℕ → Issue → Db → Outcome × Db
  unfolding update_version record_event find_terminal_state
  close_parent child_id parent db =
      close_in child_id parent (find_terminal_state parent.project_id db) db

  abbrev attempt_parent : ℕ → ℕ → Option Issue → Db → Outcome × Db
  attempt_parent child_id parent_id none db = (already_closed, db)
  attempt_parent child_id parent_id (some parent) db =
      if parent.is_closed
      then (already_closed, db)
      else if ltb 0 (open_count parent_id db)
      then (has_open, db)
      else close_parent child_id parent db

  unfoldable pub attempt : ℕ → ℕ → Db → Outcome × Db
  unfolding close_parent open_count find_issue
  attempt child_id parent_id db = attempt_parent child_id parent_id (find_issue parent_id db) db

  -- A conflict is tried once more.
  abbrev attempt_twice : ℕ → ℕ → Db → Db
  attempt_twice child_id parent_id db =
      let (outcome, db') = attempt child_id parent_id db in
      let (_, db'') = attempt child_id parent_id db' in if is_conflict outcome then db'' else db'

  abbrev pub close_parent_of : ℕ → Option Issue → Db → Db
  close_parent_of child_id none db = db
  close_parent_of child_id (some child) db = elim child.parent_issue_id [
    | none ↦ db
    | some parent_id ↦ attempt_twice child_id parent_id db
  ]

-- `depth > 50` stops the recursion, so there are 51 levels at most.
unfoldable pub auto_close_levels : ℕ → ℕ → Db → Db
unfolding attempt
auto_close_levels zero child_id db = db
auto_close_levels (suc levels) child_id db =
    close_parent_of (auto_close_levels levels) child_id (find_issue child_id db) db

unfoldable pub maybe_auto_close_parent : ℕ → Db → Db
unfolding auto_close_levels
maybe_auto_close_parent child_id db = auto_close_levels 51 child_id db
