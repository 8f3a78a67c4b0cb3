-- ===== src/Issues/Tests.antt =====
-- The life of issues (src/core/services/issue.ts) on a small store.
use fluxaos.Prelude.{
  Splits, ap, ℕ, ◌<◌, ◌≡◌, refl, Bool, true, false, String, Option, none, some, [], ◌∷◌, ◌++◌,
  arith, find, count, sort_by, filter, ok, err, All,
}
use fluxaos.Store.{Actor, Issue, IssueState, ConfigValue, Db}
use fluxaos.Issues.Lookup.{
  IssueError, find_issue, find_state, first_state, find_non_terminal_state,
  resolve_status_by_config_key, config_string,
}
use fluxaos.Issues.Writes.{close_by, assert_version, update_version}
use fluxaos.Issues.Service.{CreateIssueInput, create, transition, update_status, move_issue}
use fluxaos.Issues.Versions.{AreUnique, transition-lock}
use fluxaos.Issues.Numbers.{AreNumbered, create-number}
use fluxaos.Issues.Consistency.{AreKeyed, AreSettled, Wrote, Wrote-AreSettled}

abbrev issue_of : ℕ → ℕ → Bool → Option ℕ → Issue
issue_of id state_id is_closed parent = record {
  id = id;
  project_id = 1;
  number = id;
  title = "";
  body_md = none;
  body_html = none;
  state_id = state_id;
  status_id = 1;
  type_id = 1;
  priority_id = 1;
  is_closed = is_closed;
  assignee = none;
  author = "system";
  labels = [];
  version = 1;
  closed_at = none;
  parent_issue_id = parent;
  created_at = 0;
  updated_at = 0;
}

abbrev backlog : IssueState
backlog = record {
  id = 1;
  project_id = 1;
  key = "backlog";
  is_terminal = false;
  is_active = true;
  sort_order = 0;
}

abbrev done : IssueState
done = record {
  id = 2;
  project_id = 1;
  key = "done";
  is_terminal = true;
  is_active = true;
  sort_order = 1;
}

abbrev parent_issue : Issue
parent_issue = issue_of 1 1 false none

abbrev child_issue : Issue
child_issue = issue_of 2 1 false (some 1)

abbrev family : Db
family = record {
  projects = [];
  pipelines = [];
  stages = [];
  runs = [];
  stage_runs = [];
  events = [];
  issues = parent_issue ∷ child_issue ∷ [];
  states = backlog ∷ done ∷ [];
  statuses = record { id = 1; project_id = 1; key = "new" } ∷ [];
  config =
      record {
        project_id = some 1;
        key = "issues.status.on_create_key";
        value = ConfigValue.text "new";
      }
      ∷ [];
  issue_events = [];
  next_id = 3;
  now = 100;
}

abbrev input : CreateIssueInput
input = record {
  project_id = 1;
  title = "third";
  body_md = none;
  type_id = 1;
  priority_id = 1;
  assignee = none;
  labels = [];
  author = none;
  parent_issue_id = some 1;
}

-- The store after the child was closed, before its parent is checked.
abbrev child_closed : Db
child_closed = record family { issues = parent_issue ∷ close_by done 1 100 child_issue ∷ [] }

family-AreUnique : AreUnique family.issues
unfolding count
family-AreUnique id = ground arith

first_transition :
    (row : Issue) × (after : Db) × (transition 2 2 1 1 none family family ≡ ok (row, after))
unfolding transition move_issue find assert_version update_version find_state
first_transition = (_, _, refl)

abbrev moved_row : Issue
moved_row = first_transition.0

abbrev moved_db : Db
moved_db = first_transition.1

transition-lock_example :
    (moved_row.version ≡ 2)
    × (transition 2 1 1 1 none family moved_db ≡ err IssueError.version_conflict)
    × (update_status 2 9 Actor.system 1 none moved_db ≡ err IssueError.version_conflict)
transition-lock_example =
    transition-lock 2 2 1 1 none family family moved_row moved_db 1 backlog none 9 Actor.system none
      family-AreUnique first_transition.2 (unfold find_state find in refl)

family-AreNumbered : AreNumbered family.issues
unfolding count
family-AreNumbered project_id number = ground arith

abbrev plain : String → String
plain text = text

third : (row : Issue) × (after : Db) × (create plain input family ≡ ok (row, after))
unfolding create find find_non_terminal_state first_state filter sort_by
    resolve_status_by_config_key config_string find_issue
third = (_, _, refl)

create-number_example :
    (third.0.is_closed ≡ false)
    × (third.0.version ≡ 1)
    × ((initial : IssueState) × Splits family.states initial
        × (third.0.state_id ≡ initial.id)
        × (initial.project_id ≡ 1)
        × (initial.is_terminal ≡ false)
        × (initial.is_active ≡ true))
    × All (λ (r : Issue). r.project_id ≡ 1 → r.number < third.0.number) family.issues
    × (third.1.issues ≡ family.issues ++ third.0 ∷ [])
    × AreNumbered third.1.issues
create-number_example = create-number plain input family third.0 third.1 third.2 family-AreNumbered

family-AreKeyed : AreKeyed family.states
unfolding find
family-AreKeyed = (refl, (refl, tt))

abbrev terminal_of : Option IssueState → Bool
terminal_of none = false
terminal_of (some s) = s.is_terminal

family-AreSettled : AreSettled family
unfolding find
family-AreSettled = (λ s h. (ap terminal_of h, refl), (λ s h. (ap terminal_of h, refl), tt))

Wrote-AreSettled_example : AreSettled moved_db
Wrote-AreSettled_example =
    Wrote-AreSettled family moved_db moved_row family-AreKeyed family-AreSettled
      (Wrote.transitioned 2 2 1 1 none family refl first_transition.2)
