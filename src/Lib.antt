-- ===== src/Lib.antt =====
-- fluxaOS: an orchestrator that takes the issues of a project through pipelines of stages, each run by
-- an agent in a process, with gates that judge the results.
--
-- The parts and their files:
--   Js         the values of JavaScript that the gate engine computes with; numbers, the reading of
--              a number from a text, and regular expressions are a parameter, whose documented
--              behaviour JsLaws states
--   Store      the database of src/core/db/schema.ts and the status strings of
--              src/core/constants.ts: a record of lists of rows, a clock, and the next id
--   Gates      src/core/gates/engine.ts (evaluateGate, evaluateGroup, evaluateRule, resolveField,
--              applyOperator, resolveWorstAction, actionToVerdict) and types.ts
--   Runs       src/core/orchestrator/pipeline-run-service.ts, one function for each method; Timeline
--              is listEvents, Limit the interleavings of the writes to runs, Limiter the semaphore
--              that they refine
--   Issues     src/core/services/issue.ts: Lookup its queries, Writes the versioned write and
--              maybeAutoCloseParent, Service the operations
--   Executor   src/core/orchestrator/stage-executor.ts and run-helpers.ts, with
--              src/core/pipeline/prompt-composer.ts and result-doc.ts: Ports is what it is given, Launch
--              is launchStage, Route applyVerdict and handleStageFailed, Finish finishRun of
--              event-orchestrator.ts and blockIssueOnRun; it calls Runs and Issues
--   Orchestrator  src/core/orchestrator/event-orchestrator.ts: Handlers is handleNewRun, drainPending and
--              recoverOnStartup, which claim a slot in Runs and launch stages by Executor
--   Scopes     src/core/services/resolve-scoped.ts: the rows of a catalog by scope
--   Routing    src/core/orchestrator/routing-resolver.ts: the model and the driver of a stage
--   Watcher    src/core/orchestrator/issue-watcher.ts: Dispatch its guards, the dispatch and the sweep at
--              start, Tasks the interleavings of its handlers
--   Commands   src/core/orchestrator/command-builder.ts: Template is renderTemplate on lists of
--              characters, Build is buildCommand
--   Runner     src/core/orchestrator/stage-runner.ts and manual-run.ts, with stage-runner-env.ts and
--              brand-resolver.ts: Ports is what they are given, Environment, Load and Execute are
--              executeStageRun, Manual is executeManualRun; they call Runs, Issues, Routing and Commands
--   Isolation  src/adapters/git/worktree-isolation-provider.ts, path-resolver.ts and artifacts-path.ts, with
--              src/core/services/runtime-config.ts: Ports is the host, a store with a disk, Provider
--              acquires and releases the worktree of a run
--   Cleanup    src/core/cleanup: Safety is isSafeToRemove, Remove removeEnvironment and onPrClosed, Sweep the
--              sweeps over worktrees and artifacts; it releases by Isolation
--   Deploy     src/core/deploy and src/core/orchestrator/pipeline-terminal-hook.ts: Bridge commits, pushes,
--              opens the pull request and records it, Hook is onTerminal; they call Issues and Isolation
--   Control    src/server/routers/pipeline.ts and src/server/ownership.ts: Access is who may change a run,
--              Mutations cancels, approves, rejects and executes by Runs, Trigger creates a run, Seeded is its
--              take-up by Orchestrator, Routes relates the accepted routes to those that Executor takes
--   Agents     src/core/agents/parallel-executor.ts and loop-executor.ts, over the runs of an agent
--
-- A method of a service is a function from the store to the store, with an exception as a value of
-- Result. A transaction is one step. Where a method reads and later writes under a guard, it takes the
-- store twice, so that other writers may come between. Uuids, timestamps and versions are numbers, and
-- money is counted in millionths of a dollar. A query for one row takes the first that matches.
--
-- Operations on the host are actions of Prelude/Actions: what was written before an exception stays. Git, the
-- forge and the file system are parameters on a disk of any type, and nobody else uses it meanwhile.
--
-- The recursion of maybeAutoCloseParent is on the 51 levels that its depth guard allows; the groups of
-- rules are a data type, so that evaluateGroup is structural. The launch of a
-- stage goes on with the launch of another one as its last call, and takes fuel. Handlers that overlap
-- meet only in the store: Runs/Limit interleaves their claims, and a handler in Orchestrator runs to its end.
--
-- Limits: in createStageRun the read of the largest attempt and the insert are one step, and the insert of a deploy
-- record does not check that the run exists. The draining that finishRun starts is left out of a launch and
-- modelled as drainPending. Of the status of runs Runs/Limit leaves out one write, updateRunStatus to running, which
-- only src/scripts/orchestrator-demo.ts makes.
--
-- Not modelled: the user interface, the other routers and the command line, the adapters to processes, queues,
-- Supabase and LangGraph, the calls of git themselves, failures of the database itself, and the columns
-- that nothing reads back.
mod Prelude
pub mod Js
pub mod Store
pub mod Gates
pub mod Runs
pub mod Issues
pub mod Executor
pub mod Orchestrator
pub mod Scopes
pub mod Agents
pub mod Routing
pub mod Watcher
pub mod Commands
pub mod Runner
pub mod Isolation
pub mod Cleanup
pub mod Deploy
pub mod Control
