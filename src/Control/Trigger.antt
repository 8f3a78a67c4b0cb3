-- ===== src/Control/Trigger.antt =====
-- The mutation `trigger` of src/server/routers/pipeline.ts.
use fluxaos.Prelude.{ℕ, none, if◌then◌else◌, Result, ok, err}
use fluxaos.Store.{EventType, PipelineRun, Db}
use fluxaos.Issues.Lookup.{has_open_children}
use fluxaos.Runs.Service.{create_run, create_stage_run, append_event}
use fluxaos.Control.Access.{RouterError, bad_request}

-- The issue is looked up in `read`; `first` and `second` are what others write between the insert of the run, that of
-- its stage run, and the event: the three are no transaction, and the first of them starts `handleNewRun`.
unfoldable pub trigger :
    (first second : Db → Db) (pipeline_id issue_id stage_id : ℕ) (read db : Db)
    → Result RouterError PipelineRun × Db
unfolding has_open_children create_run create_stage_run append_event
trigger first second pipeline_id issue_id stage_id read db =
    let (run, created) = create_run pipeline_id issue_id db in
    let (s_run, seeded) = create_stage_run run.id stage_id (first created) in
    if has_open_children issue_id read then (err bad_request, db) else (
      ok run,
      append_event s_run.id EventType.launched none
          "manually triggered by user — awaiting daemon pickup" (second seeded),
    )
