-- ===== src/Orchestrator/Tests.antt =====
-- The daemon of src/core/orchestrator/event-orchestrator.ts with one pending run.
use fluxaos.Prelude.{◌≡◌, ◌⊎◌, true, false, [], ◌∷◌, arith, count}
use fluxaos.Store.{PipelineRunStatus, PipelineRun, Db}
use fluxaos.Runs.Slots.{AreUnique}
use fluxaos.Executor.Ends.{IsOpen, IsEnded}
use fluxaos.Executor.Sample.{the_run, start_db, quiet}
use fluxaos.Orchestrator.Handlers.{Daemon, take_up, is_in_flight, handle_new_run}
use fluxaos.Orchestrator.Claims.{Claimed, take_up-Claimed}
use fluxaos.Orchestrator.Handled.{handle_new_run-ends}

abbrev pending_run : PipelineRun
pending_run = record the_run { status = PipelineRunStatus.pending }

abbrev waiting_db : Db
waiting_db = record start_db { runs = pending_run ∷ [] }

waiting_db-AreUnique : AreUnique waiting_db.runs
unfolding count
waiting_db-AreUnique id = ground arith

take_up-Claimed_example : Claimed 5 3 waiting_db (take_up 5 3 waiting_db)
take_up-Claimed_example = take_up-Claimed 5 3 waiting_db waiting_db-AreUnique

abbrev daemon : Daemon
daemon = record { world = record { db = waiting_db; terminals = [] }; in_flight = [] }

handle_new_run-ends_example :
    ((handle_new_run quiet 5 4 3 daemon).1.in_flight ≡ [])
    × (((is_in_flight 3 [] ≡ true) × (handle_new_run quiet 5 4 3 daemon ≡ (false, daemon)))
        ⊎ ((is_in_flight 3 [] ≡ false)
            × (IsOpen daemon.world (handle_new_run quiet 5 4 3 daemon).1.world
                ⊎ IsEnded 3 daemon.world (handle_new_run quiet 5 4 3 daemon).1.world)))
handle_new_run-ends_example = handle_new_run-ends quiet 5 4 3 daemon waiting_db-AreUnique
