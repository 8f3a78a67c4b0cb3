-- ===== src/Issues/Lookup.antt =====
-- src/core/services/issue.ts: the helpers that look states and statuses up, and the queries.
use fluxaos.Prelude.{
  ℕ, String, Bool, true, false, ◌&&◌, not, Option, none, some, List, find, filter, count, head?,
  str_eq, ltb, ◌==◌, if◌then◌else◌, sort_by, Result, ok, err, ◌>>=◌,
}
use fluxaos.Store.{
  IssueState, IssueStatus, ConfigValue, ConfigEntry, Issue, Db, issue_has_id, state_has_id,
}

-- The exceptions of the service.
pub data IssueError : Type 0 where
  issue_not_found version_conflict no_terminal_state no_non_terminal_state missing_config
        config_not_a_string status_not_found state_not_found target_not_found parent_not_found
        cross_project_parent :
      IssueError

-- `if (!row) throw error`
abbrev pub or_throw {ℓ} : {A : Type ℓ} → Option A → IssueError → Result IssueError A
or_throw none e = err e
or_throw (some a) e = ok a

unfoldable pub find_issue : ℕ → Db → Option Issue
find_issue id db = find (issue_has_id id) db.issues

unfoldable pub find_state : ℕ → Db → Option IssueState
find_state id db = find (state_has_id id) db.states

-- `where(project AND isTerminal = terminal AND isActive).orderBy(sortOrder).limit(1)`
abbrev pub is_candidate : ℕ → Bool → IssueState → Bool
is_candidate project_id terminal s =
    s.project_id == project_id
    && (if terminal then s.is_terminal else not s.is_terminal)
    && s.is_active

unfoldable pub first_state : ℕ → Bool → Db → Option IssueState
first_state project_id terminal db = head? (
    sort_by (λ (s : IssueState). s.sort_order)
      (filter (is_candidate project_id terminal) db.states))

unfoldable pub find_terminal_state : ℕ → Db → Result IssueError IssueState
unfolding first_state
find_terminal_state project_id db =
    or_throw (first_state project_id true db) IssueError.no_terminal_state

unfoldable pub find_non_terminal_state : ℕ → Db → Result IssueError IssueState
unfolding first_state
find_non_terminal_state project_id db =
    or_throw (first_state project_id false db) IssueError.no_non_terminal_state

abbrev is_project : ℕ → Option ℕ → Bool
is_project project_id none = false
is_project project_id (some p) = p == project_id

abbrev pub is_entry : ℕ → String → ConfigEntry → Bool
is_entry project_id key c = is_project project_id c.project_id && str_eq c.key key

abbrev as_string : ConfigValue → Result IssueError String
as_string (ConfigValue.text s) = ok s
as_string _ = err IssueError.config_not_a_string

-- The config row of the project, which has to hold a string.
unfoldable pub config_string : ℕ → String → Db → Result IssueError String
config_string project_id key db = do
  config ← or_throw (find (is_entry project_id key) db.config) IssueError.missing_config
  as_string config.value

abbrev pub is_status : ℕ → String → IssueStatus → Bool
is_status project_id key s = s.project_id == project_id && str_eq s.key key

unfoldable pub resolve_status_by_config_key : ℕ → String → Db → Result IssueError ℕ
unfolding config_string
resolve_status_by_config_key project_id config_key db = do
  status_key ← config_string project_id config_key db
  status ← or_throw (find (is_status project_id status_key) db.statuses) IssueError.status_not_found
  ok status.id

abbrev pub is_state : ℕ → String → IssueState → Bool
is_state project_id key s = s.project_id == project_id && str_eq s.key key && s.is_active

unfoldable pub find_state_by_key : ℕ → String → Db → Result IssueError IssueState
find_state_by_key project_id key db =
    or_throw (find (is_state project_id key) db.states) IssueError.state_not_found

unfoldable pub resolve_state_by_config_key : ℕ → String → Db → Result IssueError IssueState
unfolding config_string find_state_by_key
resolve_state_by_config_key project_id config_key db = do
  state_key ← config_string project_id config_key db
  find_state_by_key project_id state_key db

abbrev pub is_child_of : ℕ → Issue → Bool
is_child_of parent_id i = is_project parent_id i.parent_issue_id

-- `SELECT COUNT(*) … WHERE parent_issue_id = parentId AND is_closed = false`
unfoldable pub open_count : ℕ → Db → ℕ
open_count parent_id db = count (λ i. is_child_of parent_id i && not i.is_closed) db.issues

unfoldable pub has_open_children : ℕ → Db → Bool
unfolding open_count
has_open_children parent_id db = ltb 0 (open_count parent_id db)

unfoldable pub count_children : ℕ → Db → ℕ × ℕ
unfolding open_count
count_children parent_id db =
    (open_count parent_id db, count (λ i. is_child_of parent_id i && i.is_closed) db.issues)

unfoldable pub get_by_id : ℕ → ℕ → Db → Option (Issue × Bool)
unfolding has_open_children
get_by_id id project_id db =
    elim (find (λ (i : Issue). i.id == id && i.project_id == project_id) db.issues) [
      | none ↦ none
      | some row ↦ some (row, has_open_children id db)
    ]

unfoldable pub get_by_number : ℕ → ℕ → Db → Option Issue
get_by_number project_id number db =
    find (λ (i : Issue). i.project_id == project_id && i.number == number) db.issues

unfoldable pub get_children : ℕ → Db → List Issue
get_children parent_id db =
    sort_by (λ (i : Issue). i.number) (filter (is_child_of parent_id) db.issues)

abbrev parent_of : Option Issue → Option ℕ
parent_of none = none
parent_of (some child) = child.parent_issue_id

unfoldable pub get_parent : ℕ → Db → Option Issue
unfolding find_issue
get_parent child_id db = elim (parent_of (find_issue child_id db)) [
  | none ↦ none
  | some parent_id ↦ find_issue parent_id db
]
