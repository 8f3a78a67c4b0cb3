-- ===== src/Control/Access.antt =====
-- src/server/ownership.ts, and the guards of src/server/routers/pipeline.ts.
use fluxaos.Prelude.{
  ℕ, String, Bool, true, false, ◌&&◌, ◌||◌, not, ◌==◌, str_eq, any, Option, none, some, List, find,
  if◌then◌else◌, Result, ok, err, ◌>>=◌,
}
use fluxaos.Store.{PipelineStage, PipelineRun, StageRun, Db, run_has_id, stage_run_has_id}
use fluxaos.Executor.Finish.{find_pipeline, resolve_project_id_for_run}
use fluxaos.Executor.Ports.{given}

-- The rows of `project`, `project_member` and `team_member` that the check joins.
pub record Members : Type 0 where
  pub bypass : Bool
  pub teams : List (ℕ × Option ℕ)
  pub project_members : List (ℕ × ℕ)
  pub team_members : List (ℕ × ℕ)

pub data RouterError : Type 0 where
  not_found unauthorized bad_request : RouterError
  internal : String → RouterError

abbrev pub pair_is : ℕ → ℕ → ℕ × ℕ → Bool
pair_is a b (x, y) = x == a && y == b

abbrev in_team : Members → Option ℕ → ℕ → Bool
in_team m none viewer = false
in_team m (some team) viewer = any (pair_is team viewer) m.team_members

abbrev pub is_member : Members → ℕ → Option ℕ → ℕ → Bool
is_member m project_id team viewer =
    any (pair_is project_id viewer) m.project_members || in_team m team viewer

abbrev pub team_row : Members → ℕ → Option (ℕ × Option ℕ)
team_row m project_id = find (λ (p : ℕ × Option ℕ). p.0 == project_id) m.teams

abbrev pub granted_if : Bool → Result RouterError (Unit {0})
granted_if true = ok tt
granted_if false = err not_found

abbrev pub with_team : Members → ℕ → ℕ → Option (ℕ × Option ℕ) → Result RouterError (Unit {0})
with_team m project_id viewer none = err not_found
with_team m project_id viewer (some (id, team)) = granted_if (is_member m project_id team viewer)

unfoldable pub assert_project_access : Members → ℕ → Option ℕ → Result RouterError (Unit {0})
assert_project_access m project_id none = if m.bypass then ok tt else err unauthorized
assert_project_access m project_id (some viewer) =
    with_team m project_id viewer (team_row m project_id)

abbrev project_of_run : Option PipelineRun → Db → Option ℕ
project_of_run none db = none
project_of_run (some run) db = elim (find_pipeline run.pipeline_id db) [
  | none ↦ none
  | some pipe ↦ some pipe.project_id
]

abbrev project_of_stage_run : Option StageRun → Db → Option ℕ
project_of_stage_run none db = none
project_of_stage_run (some s) db = project_of_run (find (run_has_id s.pipeline_run_id) db.runs) db

unfoldable pub get_project_id_for_stage_run : ℕ → Db → Option ℕ
unfolding find_pipeline
get_project_id_for_stage_run stage_run_id db =
    project_of_stage_run (find (stage_run_has_id stage_run_id) db.stage_runs) db

abbrev pub same_project : Option ℕ → ℕ → Bool
same_project none project_id = false
same_project (some p) project_id = p == project_id

unfoldable pub assert_run_ownership :
    Members → ℕ → ℕ → Option ℕ → Db → Result RouterError (Unit {0})
unfolding assert_project_access resolve_project_id_for_run
assert_run_ownership m run_id project_id viewer db = do
  owned ← granted_if (same_project (resolve_project_id_for_run run_id db) project_id)
  assert_project_access m project_id viewer

unfoldable pub assert_stage_run_ownership :
    Members → ℕ → ℕ → Option ℕ → Db → Result RouterError (Unit {0})
unfolding assert_project_access get_project_id_for_stage_run
assert_stage_run_ownership m stage_run_id project_id viewer db = do
  owned ← granted_if (same_project (get_project_id_for_stage_run stage_run_id db) project_id)
  assert_project_access m project_id viewer

abbrev pub is_sibling : ℕ → Option ℕ → String → PipelineStage → Bool
is_sibling pipeline_id exclude name s =
    s.pipeline_id == pipeline_id && not (same_project exclude s.id) && str_eq s.name name

abbrev pub is_route : ℕ → Option ℕ → Db → String → Bool
is_route pipeline_id exclude db name =
    str_eq name "__complete__"
    || str_eq name "__blocked__"
    || any (is_sibling pipeline_id exclude name) db.stages

abbrev pub route_valid : ℕ → Option ℕ → Db → Option String → Result RouterError (Unit {0})
route_valid pipeline_id exclude db none = ok tt
route_valid pipeline_id exclude db (some name) =
    if is_route pipeline_id exclude db name then ok tt else err bad_request

unfoldable pub assert_routing_fields_valid :
    ℕ → (on_pass on_fail fallback : Option String) → Option ℕ → Db → Result RouterError (Unit {0})
assert_routing_fields_valid pipeline_id on_pass on_fail fallback exclude db = do
  first ← route_valid pipeline_id exclude db (given on_pass)
  second ← route_valid pipeline_id exclude db (given on_fail)
  route_valid pipeline_id exclude db (given fallback)
