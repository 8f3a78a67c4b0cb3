-- ===== src/Watcher/Dispatch.antt =====
-- src/core/orchestrator/issue-watcher.ts, one function for each inner function. A throw is escalated, and
-- ends the daemon.
use fluxaos.Prelude.{
  ℕ, String, Bool, true, false, not, ◌&&◌, Option, none, some, List, [], ◌∷◌, find, filter, any,
  is_some, ◌==◌, if◌then◌else◌, Result, ok, err, ◌>>=◌,
}
use fluxaos.Store.{is_run_terminal, PipelineRun, Project, Issue, ConfigValue, Db}
use fluxaos.Runs.Service.{create_run}
use fluxaos.Issues.Lookup.{find_issue, is_entry, is_status}
use Prim.Native.Char.{code}

-- The details of an `IssueWatcherConfigError`.
pub data WatcherError : Type 0 where
  config_not_found config_not_a_string status_not_found : WatcherError

abbrev or_throw {ℓ} : {A : Type ℓ} → Option A → WatcherError → Result WatcherError A
or_throw none e = err e
or_throw (some a) e = ok a

abbrev as_string : ConfigValue → Result WatcherError String
as_string (ConfigValue.text s) = ok s
as_string _ = err config_not_a_string

unfoldable pub drop_last_quote : String → String
drop_last_quote String.[] = String.[]
drop_last_quote (String.◌∷◌ c String.[]) =
    if code c == 34 then String.[] else String.◌∷◌ c String.[]
drop_last_quote (String.◌∷◌ c (String.◌∷◌ d s)) = String.◌∷◌ c (drop_last_quote (String.◌∷◌ d s))

-- `value.replace(/^"|"$/g, '')`
unfoldable pub strip_quotes : String → String
unfolding drop_last_quote
strip_quotes String.[] = String.[]
strip_quotes (String.◌∷◌ c s) =
    if code c == 34 then drop_last_quote s else drop_last_quote (String.◌∷◌ c s)

unfoldable pub resolve_open_status_id : ℕ → Db → Result WatcherError ℕ
unfolding strip_quotes
resolve_open_status_id project_id db = do
  config ←
      or_throw (find (is_entry project_id "issues.status.on_create_key") db.config) config_not_found
  value ← as_string config.value
  status ← or_throw (find (is_status project_id (strip_quotes value)) db.statuses) status_not_found
  ok status.id

-- A run of the issue that has not come to an end.
abbrev pub is_active_run : ℕ → PipelineRun → Bool
is_active_run issue_id r = elim r.issue_id [
  | none ↦ false
  | some i ↦ i == issue_id && not (is_run_terminal r.status)
]

unfoldable pub has_active_run : ℕ → Db → Bool
has_active_run issue_id db = any (is_active_run issue_id) db.runs

abbrev pub project_has_id : ℕ → Project → Bool
project_has_id id p = p.id == id

abbrev pub default_pipeline : Option Project → Option ℕ
default_pipeline none = none
default_pipeline (some p) = p.default_pipeline_id

abbrev pub if_open : ℕ → ℕ → ℕ → Option ℕ
if_open pipeline_id status_id open_status_id =
    if status_id == open_status_id then some pipeline_id else none

abbrev pub with_pipeline : ℕ → Issue → Option ℕ → Db → Result WatcherError (Option ℕ)
with_pipeline project_id fresh none db = ok none
with_pipeline project_id fresh (some pipeline_id) db = do
  open_status_id ← resolve_open_status_id project_id db
  ok (if_open pipeline_id fresh.status_id open_status_id)

abbrev pub with_fresh : ℕ → Option Issue → Db → Result WatcherError (Option ℕ)
with_fresh project_id none db = ok none
with_fresh project_id (some fresh) db =
    if fresh.is_closed
    then ok none
    else with_pipeline project_id fresh
        (default_pipeline (find (project_has_id project_id) db.projects)) db

-- The guards of `dispatch` but the last: the pipeline to start, or none where the issue is skipped.
unfoldable pub eligible : ℕ → ℕ → Db → Result WatcherError (Option ℕ)
unfolding find_issue resolve_open_status_id
eligible issue_id project_id db = with_fresh project_id (find_issue issue_id db) db

-- Guard 3, at the store that its query sees.
abbrev pub unless_active : ℕ → Option ℕ → Db → Option ℕ
unless_active issue_id none db = none
unless_active issue_id (some pipeline_id) db =
    if has_active_run issue_id db then none else some pipeline_id

-- All guards; other writers may come between those that read `seen` and the last.
unfoldable pub clear_to_start : ℕ → ℕ → Db → Db → Result WatcherError (Option ℕ)
unfolding eligible has_active_run
clear_to_start issue_id project_id seen db = do
  pipeline_id ← eligible issue_id project_id seen
  ok (unless_active issue_id pipeline_id db)

abbrev pub started : ℕ → Option ℕ → Db → Db
started issue_id none db = db
started issue_id (some pipeline_id) db = (create_run pipeline_id issue_id db).1

-- `dispatch`, where nobody else writes meanwhile.
unfoldable pub dispatch : ℕ → ℕ → Db → Result WatcherError Db
unfolding clear_to_start create_run
dispatch issue_id project_id db = do
  pipeline_id ← clear_to_start issue_id project_id db db
  ok (started issue_id pipeline_id db)

abbrev pub is_in_flight : ℕ → List ℕ → Bool
is_in_flight issue_id in_flight = any (λ i. i == issue_id) in_flight

-- The id leaves `inFlight` in any case.
unfoldable pub handle_issue_event : List ℕ → ℕ → ℕ → Db → Result WatcherError Db
unfolding dispatch any
handle_issue_event in_flight issue_id project_id db =
    if is_in_flight issue_id in_flight then ok db else dispatch issue_id project_id db

-- The loop of the sweep, over the issues that were open when it began, and that had no active run then.
unfoldable pub sweep_each : List ℕ → Db → List Issue → Db → Result WatcherError Db
unfolding handle_issue_event has_active_run
sweep_each in_flight began [] db = ok db
sweep_each in_flight began (row ∷ rest) db = do
  db' ←
      if has_active_run row.id began
      then ok db
      else handle_issue_event in_flight row.id row.project_id db
  sweep_each in_flight began rest db'

unfoldable pub startup_sweep : List ℕ → Db → Result WatcherError Db
unfolding sweep_each
startup_sweep in_flight db =
    sweep_each in_flight db (filter (λ (i : Issue). not i.is_closed) db.issues) db

unfoldable pub validate_each : List Project → Db → Result WatcherError (Unit {0})
unfolding resolve_open_status_id
validate_each [] db = ok tt
validate_each (p ∷ rest) db = do
  open_status_id ← resolve_open_status_id p.id db
  validate_each rest db

unfoldable pub validate_dispatch_config : Db → Result WatcherError (Unit {0})
unfolding validate_each
validate_dispatch_config db =
    validate_each (filter (λ (p : Project). is_some p.default_pipeline_id) db.projects) db

-- `start`, given whether the watcher runs already, with the sweep that it fires; no event comes during it.
unfoldable pub start : Bool → List ℕ → Db → Result WatcherError Db
unfolding validate_dispatch_config startup_sweep
start true in_flight db = ok db
start false in_flight db = do checked ← validate_dispatch_config db; startup_sweep in_flight db
