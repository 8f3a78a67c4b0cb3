-- ===== src/Runs/Limiter.antt =====
-- What src/core/orchestrator/pipeline-run-service.ts promises of pipeline runs: a counting semaphore and, for
-- each id, a status. Rows, their order, their clocks and costs are forgotten.
use fluxaos.Prelude.{
  ℕ, ◌+◌, ◌-◌, Bool, true, false, ◌==◌, ltb, Option, none, some, List, [], ◌∷◌, if◌then◌else◌,
}
use fluxaos.Store.{PipelineRunStatus}

pub record Limiter : Type 0 where
  pub statuses : ℕ → Option PipelineRunStatus
  pub in_use : ℕ

abbrev pub set :
    (ℕ → Option PipelineRunStatus) → ℕ → Option PipelineRunStatus → ℕ → Option PipelineRunStatus
set statuses id status i = if i == id then status else statuses i

abbrev pub held : Option PipelineRunStatus → ℕ
held (some PipelineRunStatus.running) = 1
held _ = 0

abbrev pub over : PipelineRunStatus → Option PipelineRunStatus → Option PipelineRunStatus
over status none = none
over status (some old) = some status

abbrev pub enter : ℕ → Limiter → Limiter
enter id v = record v { statuses = set v.statuses id (some PipelineRunStatus.pending) }

abbrev pub started_at : ℕ → Limiter → Limiter
started_at id v = record {
  statuses = set v.statuses id (some PipelineRunStatus.running);
  in_use = v.in_use + 1;
}

abbrev pub grant : ℕ → ℕ → Limiter → Option PipelineRunStatus → Bool × Limiter
grant limit id v (some PipelineRunStatus.pending) =
    if ltb v.in_use limit then (true, started_at id v) else (false, v)
grant limit id v _ = (false, v)

-- A pending run gets a slot while one is free.
abbrev pub acquire : ℕ → ℕ → Limiter → Bool × Limiter
acquire limit id v = grant limit id v (v.statuses id)

-- A run takes a status other than `running`, and gives back the slot that it held.
abbrev pub leave : ℕ → PipelineRunStatus → Limiter → Limiter
leave id status v = record {
  statuses = set v.statuses id (over status (v.statuses id));
  in_use = v.in_use - held (v.statuses id);
}

pub data Command : Type 0 where
  entering acquiring : ℕ → Command
  leaving : ℕ → PipelineRunStatus → Command

abbrev pub perform : ℕ → Command → Limiter → Limiter
perform limit (Command.entering id) v = enter id v
perform limit (Command.acquiring id) v = (acquire limit id v).1
perform limit (Command.leaving id status) v = leave id status v

abbrev pub perform_all : ℕ → List Command → Limiter → Limiter
perform_all limit [] v = v
perform_all limit (c ∷ rest) v = perform_all limit rest (perform limit c v)
