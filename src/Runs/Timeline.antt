-- ===== src/Runs/Timeline.antt =====
-- `listEvents` of src/core/orchestrator/pipeline-run-service.ts.
pub mod Order
use mathlib.Core.List.{Perm}
use fluxaos.Prelude.{
  ℕ, Bool, true, false, not, Option, none, some, List, [], ◌∷◌, ◌++◌, filter, is_some, leb, ◌==◌,
  if◌then◌else◌, sort_by,
}
use fluxaos.Store.{Event, Db}

abbrev pub is_stream : Event → Bool
is_stream e = is_some e.line_number

-- `getLineNumber(e)!`, asked of stream events only.
abbrev pub line_of : Event → ℕ
line_of e = elim e.line_number [ none ↦ 0 | some n ↦ n ]

-- The inner loop: the lifecycle events up to a time, and the others.
unfoldable pub take_until : ℕ → List Event → List Event
take_until t [] = []
take_until t (l ∷ ls) = let more = take_until t ls in if leb l.timestamp t then l ∷ more else []

unfoldable pub drop_until : ℕ → List Event → List Event
drop_until t [] = []
drop_until t (l ∷ ls) = let more = drop_until t ls in if leb l.timestamp t then more else l ∷ ls

unfoldable pub merge : List Event → List Event → List Event
unfolding take_until drop_until
merge [] lifecycle = lifecycle
merge (s ∷ stream) lifecycle =
    take_until s.timestamp lifecycle ++ s ∷ merge stream (drop_until s.timestamp lifecycle)

abbrev pub rows_of : ℕ → Db → List Event
rows_of stage_run_id db =
    sort_by (λ (e : Event). e.timestamp)
      (filter (λ (e : Event). e.stage_run_id == stage_run_id) db.events)

unfoldable pub list_events : ℕ → Db → List Event
unfolding merge
list_events stage_run_id db =
    let rows = rows_of stage_run_id db in
    let stream = sort_by line_of (filter is_stream rows) in
    let lifecycle = filter (λ e. not (is_stream e)) rows in merge stream lifecycle
