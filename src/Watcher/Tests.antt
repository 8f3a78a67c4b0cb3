-- ===== src/Watcher/Tests.antt =====
-- src/core/orchestrator/issue-watcher.ts with an open issue of a project that has a default pipeline.
use fluxaos.Prelude.{
  ℕ, ◌≤◌, ◌≡◌, refl, true, false, some, List, [], ◌∷◌, ◌++◌, any, count, find, filter, arith, ok,
}
use fluxaos.Store.{PipelineRun, ConfigValue, Db}
use fluxaos.Runs.Service.{create_run}
use fluxaos.Executor.Sample.{the_issue, start_db}
use fluxaos.Issues.Lookup.{find_issue}
use fluxaos.Watcher.Dispatch.{
  strip_quotes, drop_last_quote, resolve_open_status_id, is_active_run, has_active_run, eligible,
  clear_to_start, validate_each, validate_dispatch_config, start,
}
use fluxaos.Watcher.Sweep.{start-covers}
use fluxaos.Watcher.Tasks.{
  Task, guarded, cleared, System, began, checked, inserted, Reach, here, next, active_runs, is_for,
  Reach-IsSingle,
}

abbrev watched : Db
watched = record start_db {
  projects =
      record {
        id = 1;
        name = "p";
        default_pipeline_id = some 1;
        repo_url = some "u";
        default_branch = "main";
      }
      ∷ [];
  runs = [];
  statuses = record { id = 1; project_id = 1; key = "open" } ∷ [];
  config =
      record {
        project_id = some 1;
        key = "issues.status.on_create_key";
        value = ConfigValue.text "\"open\"";
      }
      ∷ [];
}

watched_valid : validate_dispatch_config watched ≡ ok tt
unfolding validate_dispatch_config validate_each resolve_open_status_id filter find strip_quotes
    drop_last_quote
watched_valid = refl

watched-eligible : eligible 5 1 watched ≡ ok (some 1)
unfolding eligible find_issue resolve_open_status_id find strip_quotes drop_last_quote
watched-eligible = refl

watched_found : find_issue 5 watched ≡ some the_issue
unfolding find_issue find
watched_found = refl

start-covers_example :
    (more : List PipelineRun) × (n : ℕ) × (start false [] watched
      ≡ ok (record watched { runs = [] ++ more; next_id = n }))
    × (any (is_active_run 5) ([] ++ more) ≡ true)
start-covers_example = start-covers watched the_issue 1 watched_valid watched_found watched-eligible

abbrev task : Task
task = record { issue_id = 5; project_id = 1; phase = guarded }

abbrev dispatched : System
dispatched = record { db = (create_run 1 5 watched).1; tasks = [] }

watched_clear : clear_to_start 5 1 watched watched ≡ ok (some 1)
unfolding clear_to_start eligible find_issue resolve_open_status_id find strip_quotes
    drop_last_quote has_active_run any
watched_clear = refl

one_event : Reach (record { db = watched; tasks = [] }) dispatched
unfolding any clear_to_start eligible find_issue resolve_open_status_id find strip_quotes
    drop_last_quote has_active_run
one_event =
    next (next (next here (began watched [] 5 1 refl)) (checked watched watched [] [] task refl))
      (inserted watched [] [] (record task { phase = cleared 1 }) 1 refl)

Reach-IsSingle_example : (active_runs 5 dispatched.db ≤ 1) × (count (is_for 5) dispatched.tasks ≤ 1)
unfolding count
Reach-IsSingle_example = Reach-IsSingle watched 5 (omega arith) one_event
