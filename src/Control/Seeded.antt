-- ===== src/Control/Seeded.antt =====
-- src/core/orchestrator/event-orchestrator.ts takes up a run that `trigger` of src/server/routers/pipeline.ts has
-- created.
use fluxaos.Prelude.{
  sym, subst, ℕ, ==_refl, count, count-append, ◌<◌, ◌≡◌, refl, ap, ◌∙◌, arith, Bool, true, false,
  ◌==◌, none, some, List, [], ◌∷◌, ◌++◌, All, find, find-append, filter, filter-append, sort_by,
  insert_by, Result, ok,
}
use fluxaos.Store.{StageRunStatus, EventType, PipelineRun, PipelineStage, StageRun, Db, run_has_id}
use fluxaos.Issues.Lookup.{has_open_children}
use fluxaos.Runs.Service.{
  create_run, create_stage_run, append_event, get_run, get_stages, get_stage_runs, get_running_runs,
  has_running_status, try_acquire_running_slot,
}
use fluxaos.Runs.Slots.{AreUnique, try_acquire_running_slot_iff}
use fluxaos.Runs.Limit.{fresh_run, Step, Reach, IsWithin, Reach-IsWithin}
use fluxaos.Orchestrator.Handlers.{stage_with_id, choose_stage, take_up}
use fluxaos.Control.Access.{RouterError}
use fluxaos.Control.Trigger.{trigger}

no_stage_runs :
    (n : ℕ) (ss : List StageRun)
    → All (λ (s : StageRun). s.pipeline_run_id < n) ss
    → filter (λ (s : StageRun). s.pipeline_run_id == n) ss ≡ []
unfolding filter
no_stage_runs n [] h = refl
no_stage_runs n (s ∷ ss) h =
    let below = h.0 in
    let other : (s.pipeline_run_id == n) ≡ false = ground (arith, below) in
    rw other (no_stage_runs n ss h.1)

-- The writes leave the runs, the stage runs and the stages of the pipelines.
abbrev pub Leaves : (Db → Db) → Type 0
Leaves write =
    (db : Db)
    → ((write db).runs ≡ db.runs)
      × ((write db).stage_runs ≡ db.stage_runs)
      × ((write db).stages ≡ db.stages)

module _ (limit pipeline_id issue_id : ℕ) (db : Db) where
  abbrev the_run : PipelineRun
  the_run = (create_run pipeline_id issue_id db).0

  abbrev created : Db
  created = (create_run pipeline_id issue_id db).1

  module _ (w : IsWithin limit db)
      (numbered : All (λ (s : StageRun). s.pipeline_run_id < db.next_id) db.stage_runs)
      (free : get_running_runs db < limit) where
    unique : AreUnique created.runs
    unfolding create_run
    unique = (Reach-IsWithin w (Reach.next Reach.here (Step.created pipeline_id issue_id))).unique

    module _ (after : Db) (same_runs : after.runs ≡ created.runs)
        (same_stages : after.stages ≡ db.stages) where
      stored : get_run the_run.id after ≡ some the_run
      unfolding get_run create_run
      stored = rw same_runs (
          find-append (run_has_id db.next_id) db.runs the_run
            (fresh_run db.next_id db.runs w.numbered) (==_refl db.next_id))

      free_after : get_running_runs after < limit
      unfolding get_running_runs create_run count
      free_after =
          rw (same_runs, count-append has_running_status db.runs (the_run ∷ []))
            (omega (arith, free))

      acquired : (try_acquire_running_slot the_run.id limit after).0 ≡ true
      unfolding create_run
      acquired =
          (try_acquire_running_slot_iff the_run.id limit after
              (subst AreUnique (sym same_runs) unique)).1
            (the_run, stored, refl, free_after)

      -- Taken up in this store, the run is launched where its stage runs say.
      taken :
          (first : PipelineStage) (rest : List PipelineStage)
          → get_stages pipeline_id db ≡ first ∷ rest
          → (take_up limit the_run.id after).0
            ≡ some (
                choose_stage the_run first
                  (first ∷ rest)
                  (try_acquire_running_slot the_run.id limit after).1)
      unfolding take_up create_run get_stages
      taken first rest sorted = rw stored (rw (same_stages, sorted) (rw acquired refl))

    of_run : StageRun → Bool
    of_run s = s.pipeline_run_id == db.next_id

    unseeded :
        (after : Db) → after.stage_runs ≡ db.stage_runs → get_stage_runs the_run.id after ≡ []
    unfolding get_stage_runs create_run sort_by
    unseeded after same = rw same (
        ap (sort_by (λ (s : StageRun). s.created_at))
          (no_stage_runs db.next_id db.stage_runs numbered))

    seeds :
        (after : Db) (seed : StageRun)
        → seed.pipeline_run_id ≡ db.next_id
        → after.stage_runs ≡ db.stage_runs ++ seed ∷ []
        → get_stage_runs the_run.id after ≡ seed ∷ []
    unfolding get_stage_runs create_run sort_by insert_by of_run
    seeds after seed mine same =
        let kept : filter of_run (db.stage_runs ++ seed ∷ []) ≡ seed ∷ [] =
          filter-append of_run db.stage_runs (seed ∷ [])
          ∙ ap (λ l. l ++ filter of_run (seed ∷ []))
              (no_stage_runs db.next_id db.stage_runs numbered)
          ∙ (unfold filter in rw (mine, ==_refl db.next_id) refl) in
        rw same (ap (sort_by (λ (s : StageRun). s.created_at)) kept)

module _ (first second : Db → Db) (limit pipeline_id issue_id stage_id : ℕ) (db : Db) where
  abbrev the_seed : StageRun
  the_seed =
      (create_stage_run (the_run limit pipeline_id issue_id db).id stage_id
        (first (created limit pipeline_id issue_id db))).0

  abbrev seeded_db : Db
  seeded_db =
      append_event the_seed.id EventType.launched none
        "manually triggered by user — awaiting daemon pickup"
        (second
          (create_stage_run (the_run limit pipeline_id issue_id db).id stage_id
            (first (created limit pipeline_id issue_id db))).1)

  triggers :
      (read : Db)
      → has_open_children issue_id read ≡ false
      → trigger first second pipeline_id issue_id stage_id read db
        ≡ (ok (the_run limit pipeline_id issue_id db), seeded_db)
  unfolding trigger
  triggers read childless = rw childless refl

  module _ (leaves_first : Leaves first) (leaves_second : Leaves second) where
    runs_left : seeded_db.runs ≡ (created limit pipeline_id issue_id db).runs
    unfolding create_stage_run append_event
    runs_left = (leaves_second _).0 ∙ (leaves_first _).0

    stages_left : seeded_db.stages ≡ db.stages
    unfolding create_run create_stage_run append_event
    stages_left = (leaves_second _).2 ∙ (leaves_first _).2

    stage_runs_left : seeded_db.stage_runs ≡ db.stage_runs ++ the_seed ∷ []
    unfolding create_run create_stage_run append_event
    stage_runs_left = (leaves_second _).1 ∙ ap (λ ss. ss ++ the_seed ∷ []) (leaves_first _).1

    module _ (w : IsWithin limit db)
        (numbered : All (λ (s : StageRun). s.pipeline_run_id < db.next_id) db.stage_runs)
        (free : get_running_runs db < limit) (head stage : PipelineStage)
        (rest : List PipelineStage) (sorted : get_stages pipeline_id db ≡ head ∷ rest) where
      taken_after :
          find (stage_with_id stage_id) (head ∷ rest) ≡ some stage
          → (take_up limit (the_run limit pipeline_id issue_id db).id seeded_db).0
            ≡ some (record {
              run = the_run limit pipeline_id issue_id db;
              stage = stage;
              pre_existing = some the_seed;
            })
      unfolding choose_stage create_stage_run try_acquire_running_slot
      taken_after found =
          taken limit pipeline_id issue_id db w numbered free seeded_db runs_left stages_left head
            rest sorted
          ∙ ap some (
              rw
                (seeds limit pipeline_id issue_id db w numbered free seeded_db the_seed
                  (unfold create_run in refl) stage_runs_left)
                (unfold find in rw found refl))

      taken_before :
          (take_up limit
            (the_run limit pipeline_id issue_id db).id
            (created limit pipeline_id issue_id db)).0
          ≡ some (record {
            run = the_run limit pipeline_id issue_id db;
            stage = head;
            pre_existing = none;
          })
      unfolding choose_stage try_acquire_running_slot
      taken_before =
          taken limit pipeline_id issue_id db w numbered free
            (created limit pipeline_id issue_id db) refl (unfold create_run in refl) head rest
            sorted
          ∙ ap some (
              rw
                (unseeded limit pipeline_id issue_id db w numbered free
                  (created limit pipeline_id issue_id db) (unfold create_run in refl))
                (unfold find in refl))

-- A triggered run that the orchestrator takes up after the trigger, with a slot free, is launched at the stage of its
-- pipeline that the user has chosen, with the pending stage run that was created for it, where others leave the runs,
-- the stage runs and the stages as they are meanwhile. Taken up before the stage run is inserted, as the insert of
-- the run allows, it is launched at the first stage of its pipeline, with a stage run of its own.
pub take_up-trigger :
    (first second : Db → Db) (limit pipeline_id issue_id stage_id : ℕ) (read db : Db)
    (head stage : PipelineStage) (rest : List PipelineStage)
    → Leaves first
    → Leaves second
    → has_open_children issue_id read ≡ false
    → IsWithin limit db
    → All (λ (s : StageRun). s.pipeline_run_id < db.next_id) db.stage_runs
    → get_running_runs db < limit
    → get_stages pipeline_id db ≡ head ∷ rest
    → find (stage_with_id stage_id) (head ∷ rest) ≡ some stage
    → (run : PipelineRun) × (seed : StageRun) × ((trigger first second pipeline_id issue_id stage_id
          read db).0
        ≡ ok run)
      × (seed.pipeline_stage_id ≡ stage_id)
      × (seed.status ≡ StageRunStatus.pending)
      × ((take_up limit run.id (trigger first second pipeline_id issue_id stage_id read db).1).0
          ≡ some (record { run = run; stage = stage; pre_existing = some seed }))
      × ((take_up limit run.id (create_run pipeline_id issue_id db).1).0
          ≡ some (record { run = run; stage = head; pre_existing = none }))
take_up-trigger first second limit pipeline_id issue_id stage_id read db head stage rest
      leaves_first leaves_second childless w numbered free sorted found =
    (
      the_run limit pipeline_id issue_id db,
      the_seed first second limit pipeline_id issue_id stage_id db,
      ap (λ (r : Result RouterError PipelineRun × Db). r.0) answer,
      unfold create_stage_run in refl,
      unfold create_stage_run in refl,
      ap
            (λ (r : Result RouterError PipelineRun × Db).
              (take_up limit (the_run limit pipeline_id issue_id db).id r.1).0)
            answer
          ∙ taken_after first second limit pipeline_id issue_id stage_id db leaves_first
              leaves_second w numbered free head stage rest sorted found,
      taken_before first second limit pipeline_id issue_id stage_id db leaves_first leaves_second w
          numbered free head stage rest sorted,
    )
  where
    answer : trigger first second pipeline_id issue_id stage_id read db ≡ (
      ok (the_run limit pipeline_id issue_id db),
      seeded_db first second limit pipeline_id issue_id stage_id db,
    )
    answer = triggers first second limit pipeline_id issue_id stage_id db read childless
