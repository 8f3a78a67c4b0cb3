-- ===== src/Issues/Service.antt =====
-- src/core/services/issue.ts: the operations that write. An operation that the database runs as a read and
-- a later guarded write takes the store twice: `seen`, at the read, and `db`, at the write.
mod Fields
unfoldable pub use Fields.*
use fluxaos.Prelude.{
  ℕ, suc, ◌+◌, String, Bool, true, false, ◌&&◌, not, Option, none, some, List, [], ◌∷◌, ◌++◌, find,
  filter, leb, str_eq, ◌==◌, if◌then◌else◌, is_some, Result, ok, err, ◌>>=◌,
}
use fluxaos.Store.{Actor, IssueEventType, Issue, Payload, IssueEvent, Db}
use fluxaos.Issues.Lookup.{
  IssueError, or_throw, find_issue, find_state, find_terminal_state, find_non_terminal_state,
  resolve_status_by_config_key,
}
use fluxaos.Issues.Writes.{
  record_event, assert_version, update_version, move, maybe_auto_close_parent,
}

-- The common part of `transition` and `stateOverride`, from the row that was read.
unfoldable pub move_issue :
    Bool → ℕ → ℕ → ℕ → Option String → Issue → Db → Db → Result IssueError (Issue × Db)
unfolding assert_version update_version record_event maybe_auto_close_parent find_state
move_issue override id to_state_id version user current seen db = do
  _ ← assert_version current version
  target ← or_throw (find_state to_state_id seen) IssueError.target_not_found
  (updated, db') ←
      or_throw (update_version id version (move target version db.now) db)
        IssueError.version_conflict
  let recorded =
      record_event id (actor_of user) IssueEventType.state_changed
        (Payload.state current.state_id to_state_id override none) db'
  ok (updated, if target.is_terminal then maybe_auto_close_parent id recorded else recorded)

unfoldable pub transition : ℕ → ℕ → ℕ → ℕ → Option String → Db → Db → Result IssueError (Issue × Db)
unfolding move_issue
transition id to_state_id version project_id user seen db = do
  current ←
      or_throw (find (λ (i : Issue). i.id == id && i.project_id == project_id) seen.issues)
        IssueError.issue_not_found
  move_issue false id to_state_id version user current seen db

unfoldable pub state_override : ℕ → ℕ → ℕ → Option String → Db → Db → Result IssueError (Issue × Db)
unfolding move_issue find_issue
state_override id to_state_id version user seen db = do
  current ← or_throw (find_issue id seen) IssueError.issue_not_found
  move_issue true id to_state_id version user current seen db

unfoldable pub close : ℕ → ℕ → Option String → Db → Db → Result IssueError (Issue × Db)
unfolding state_override find_issue find_terminal_state
close id version user seen db = do
  current ← or_throw (find_issue id seen) IssueError.issue_not_found
  terminal ← find_terminal_state current.project_id seen
  state_override id terminal.id version user seen db

unfoldable pub reopen : ℕ → ℕ → Option String → Db → Db → Result IssueError (Issue × Db)
unfolding state_override find_issue find_non_terminal_state
reopen id version user seen db = do
  current ← or_throw (find_issue id seen) IssueError.issue_not_found
  non_terminal ← find_non_terminal_state current.project_id seen
  state_override id non_terminal.id version user seen db

abbrev pub set_status : ℕ → ℕ → ℕ → Issue → Issue
set_status status_id version now i = record i {
  status_id = status_id;
  version = suc version;
  updated_at = now;
}

unfoldable pub update_status :
    ℕ → ℕ → Actor → ℕ → Option String → Db → Result IssueError (Issue × Db)
unfolding update_version record_event
update_status id status_id actor version reason db = do
  (updated, db') ←
      or_throw (update_version id version (set_status status_id version db.now) db)
        IssueError.version_conflict
  ok (
    updated,
    record_event id actor IssueEventType.status_changed (Payload.status status_id reason) db',
  )

-- The issue's events go with it: `onDelete: 'cascade'`.
unfoldable pub delete : ℕ → ℕ → Db → Db
delete id project_id db =
    let is_target = λ (i : Issue). i.id == id && i.project_id == project_id in
    let gone = is_some (find is_target db.issues) in
    record db {
      issues = filter (λ i. not (is_target i)) db.issues;
      issue_events = filter (λ (e : IssueEvent). not (gone && e.issue_id == id)) db.issue_events;
    }
