-- ===== src/Issues/Service/Fields.antt =====
-- `create` and `updateFields` of src/core/services/issue.ts. The second takes the store twice: `seen`, at
-- its read, and `db`, at its guarded write.
use fluxaos.Prelude.{
  ℕ, suc, ◌+◌, String, Bool, true, false, ◌&&◌, not, Option, none, some, List, [], ◌∷◌, ◌++◌, find,
  leb, str_eq, ◌==◌, if◌then◌else◌, Result, ok, err, ◌>>=◌,
}
use fluxaos.Store.{Actor, IssueEventType, Issue, Payload, Db}
use fluxaos.Issues.Lookup.{
  IssueError, or_throw, find_issue, find_non_terminal_state, resolve_status_by_config_key,
}
use fluxaos.Issues.Writes.{record_event, assert_version, update_version}

pub record CreateIssueInput : Type 0 where
  pub project_id : ℕ
  pub title : String
  pub body_md : Option String
  pub type_id : ℕ
  pub priority_id : ℕ
  pub assignee : Option String
  pub labels : List String
  pub author : Option String
  pub parent_issue_id : Option ℕ

pub record UpdateFieldsInput : Type 0 where
  pub title : Option String
  pub body_md : Option String
  pub type_id : Option ℕ
  pub priority_id : Option ℕ
  pub assignee : Option (Option String)
  pub labels : Option (List String)

-- `userId ?? 'system'`
abbrev pub actor_of : Option String → Actor
actor_of none = Actor.system
actor_of (some user) = Actor.user user

abbrev pub or_default {ℓ} : {A : Type ℓ} → Option A → A → A
or_default none d = d
or_default (some a) d = a

abbrev larger : ℕ → ℕ → ℕ
larger a b = if leb a b then b else a

-- `COALESCE(MAX(number), 0)` over the issues of the project, which the transaction has locked.
unfoldable pub max_number : ℕ → List Issue → ℕ
max_number project_id [] = 0
max_number project_id (i ∷ rest) =
    let others = max_number project_id rest in
    if i.project_id == project_id then larger i.number others else others

abbrev pub check_parent : CreateIssueInput → Db → Result IssueError (Unit {0})
check_parent input db = elim input.parent_issue_id [
  | none ↦ ok tt
  | some parent_id ↦ elim (find_issue parent_id db) [
    | none ↦ err IssueError.parent_not_found
    | some parent ↦
        if parent.project_id == input.project_id then ok tt else err IssueError.cross_project_parent
  ]
]

-- `f.title !== undefined ? f.title : old`
abbrev given {ℓ} : {A : Type ℓ} → Option A → A → A
given none old = old
given (some new) old = new

abbrev optional_eq : Option String → Option String → Bool
optional_eq none none = true
optional_eq (some s) (some t) = str_eq s t
optional_eq none (some t) = false
optional_eq (some s) none = false

-- Equality of the JSON texts of two lists of labels.
unfoldable pub labels_eq : List String → List String → Bool
labels_eq [] [] = true
labels_eq (s ∷ ss) (t ∷ ts) = str_eq s t && labels_eq ss ts
labels_eq [] (t ∷ ts) = false
labels_eq (s ∷ ss) [] = false

abbrev named_if : Bool → String → List String
named_if true name = name ∷ []
named_if false name = []

abbrev changed {ℓ} : {A : Type ℓ} → (A → A → Bool) → A → Option A → Bool
changed eq old none = false
changed eq old (some new) = not (eq old new)

-- The names of the tracked fields whose value differs.
unfoldable pub changes_of : UpdateFieldsInput → Issue → List String
unfolding labels_eq
changes_of fields current =
    named_if (changed str_eq current.title fields.title) "title"
    ++ (named_if
          (changed optional_eq current.body_md
            (elim fields.body_md [ none ↦ none | some b ↦ some (some b) ]))
          "bodyMd"
        ++ (named_if (changed ◌==◌ current.type_id fields.type_id) "typeId"
            ++ (named_if (changed ◌==◌ current.priority_id fields.priority_id) "priorityId"
                ++ (named_if (changed optional_eq current.assignee fields.assignee) "assignee"
                    ++ named_if (changed labels_eq current.labels fields.labels) "labels"))))

abbrev is_nil {ℓ} : {A : Type ℓ} → List A → Bool
is_nil [] = true
is_nil (x ∷ xs) = false

-- `render` is `renderMarkdown` of src/core/markdown.ts.
module _ (render : String → String) where
  -- `bodyMd ? renderMarkdown(bodyMd) : null`, where the empty text counts as none.
  abbrev render_body : Option String → Option String
  render_body none = none
  render_body (some body) = if str_eq body "" then none else some (render body)

  abbrev pub new_issue : CreateIssueInput → ℕ → ℕ → ℕ → Db → Issue
  new_issue input state_id status_id number db = record {
    id = db.next_id;
    project_id = input.project_id;
    number = number;
    title = input.title;
    body_md = input.body_md;
    body_html = render_body input.body_md;
    state_id = state_id;
    status_id = status_id;
    type_id = input.type_id;
    priority_id = input.priority_id;
    is_closed = false;
    assignee = input.assignee;
    author = or_default input.author "system";
    labels = input.labels;
    version = 1;
    closed_at = none;
    parent_issue_id = input.parent_issue_id;
    created_at = db.now;
    updated_at = db.now;
  }

  abbrev pub insert_issue : CreateIssueInput → Issue → Db → Issue × Db
  insert_issue input row db = (
    row,
    record_event row.id (actor_of input.author) IssueEventType.issue_created
        (Payload.created row.author)
        (record db { issues = db.issues ++ row ∷ []; next_id = suc db.next_id }),
  )

  unfoldable pub create : CreateIssueInput → Db → Result IssueError (Issue × Db)
  unfolding max_number record_event find_non_terminal_state resolve_status_by_config_key find_issue
  create input db = do
    initial ← find_non_terminal_state input.project_id db
    status_id ← resolve_status_by_config_key input.project_id "issues.status.on_create_key" db
    _ ← check_parent input db
    let number = max_number input.project_id db.issues + 1
    ok (insert_issue input (new_issue input initial.id status_id number db) db)

  abbrev new_body : Option String → Option String → Option String
  new_body none old = old
  new_body (some body) old = render_body (some body)

  abbrev new_body_md : Option String → Option String → Option String
  new_body_md none old = old
  new_body_md (some body) old = some body

  abbrev apply_fields : UpdateFieldsInput → ℕ → ℕ → Issue → Issue
  apply_fields fields version now i = record i {
    title = given fields.title i.title;
    body_md = new_body_md fields.body_md i.body_md;
    body_html = new_body fields.body_md i.body_html;
    type_id = given fields.type_id i.type_id;
    priority_id = given fields.priority_id i.priority_id;
    assignee = given fields.assignee i.assignee;
    labels = given fields.labels i.labels;
    version = suc version;
    updated_at = now;
  }

  unfoldable pub update_fields :
      ℕ → UpdateFieldsInput → ℕ → ℕ → Option String → Db → Db → Result IssueError (Issue × Db)
  unfolding assert_version update_version record_event changes_of
  update_fields id fields version project_id user seen db = do
    current ←
        or_throw (find (λ (i : Issue). i.id == id && i.project_id == project_id) seen.issues)
          IssueError.issue_not_found
    _ ← assert_version current version
    (updated, db') ←
        or_throw (update_version id version (apply_fields fields version db.now) db)
          IssueError.version_conflict
    let changes = changes_of fields current
    ok (
      updated,
      if is_nil changes
          then db'
          else record_event id (actor_of user) IssueEventType.fields_updated
              (Payload.fields changes) db',
    )
