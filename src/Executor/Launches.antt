-- ===== src/Executor/Launches.antt =====
-- `applyVerdict` of src/core/orchestrator/stage-executor.ts: which stage a verdict launches.
use fluxaos.Prelude.{
  ℕ, String, ◌≡◌, ◌≢◌, ◌↔◌, refl, true, false, ◌==◌, ==_iff, and_true, str_eq, eq_iff, Option, none,
  some, List, ◌∷◌, ◌++◌, All, All-map, find, find-IsFirst, IsFirst-find, Bool-cases, Option-cases,
  inl, inr, ◌⊎◌,
}
use fluxaos.Store.{PipelineRun, PipelineStage, Issue, Db}
use fluxaos.Gates.Rules.{GateVerdict}
use fluxaos.Issues.Lookup.{find_issue}
use fluxaos.Executor.Ports.{Ports, World}
use fluxaos.Executor.Route.{
  apply_verdict, is_gone, route_of, is_stage_named, complete_sentinel, blocked_sentinel,
}
use fluxaos.Executor.Given.{differs, differs_of, given-some, some-given}
use fluxaos.Executor.Verdicts.{target_of, apply_verdict-Leads}

-- The routing field of a stage for a verdict: onPass, onFail, or fallback where the run is held or aborted.
abbrev pub FieldFor : GateVerdict → PipelineStage → Option String → Type 0
FieldFor GateVerdict.proceed stage field = stage.on_pass ≡ field
FieldFor GateVerdict.rework stage field = stage.on_fail ≡ field
FieldFor GateVerdict.hold stage field = stage.fallback ≡ field
FieldFor GateVerdict.abort stage field = stage.fallback ≡ field

-- A run without an issue, or with one that is stored.
abbrev pub HasItsIssue : Option ℕ → Db → Type 0
HasItsIssue issue_id db =
    (issue_id ≡ none)
    ⊎ ((id : ℕ) × (issue : Issue) × (issue_id ≡ some id) × (find_issue id db ≡ some issue))

-- The first stage of a pipeline with a name.
abbrev pub IsFirstNamed : ℕ → String → List PipelineStage → PipelineStage → Type 0
IsFirstNamed pipeline_id name stages next =
    (before : List PipelineStage) × (after : List PipelineStage) × (stages ≡ before ++ next ∷ after)
    × (next.pipeline_id ≡ pipeline_id)
    × (next.name ≡ name)
    × All (λ (s : PipelineStage). s.pipeline_id ≡ pipeline_id → s.name ≢ name) before

-- Whether a verdict launches a stage, as the stage's fields say it.
abbrev pub Launches : PipelineRun → PipelineStage → GateVerdict → Db → PipelineStage → Type 0
Launches run stage verdict db next =
    HasItsIssue run.issue_id db
    × ((name : String) × FieldFor verdict stage (some name)
        × (name ≢ "")
        × (name ≢ "__complete__")
        × (name ≢ "__blocked__")
        × IsFirstNamed run.pipeline_id name db.stages next)

field-FieldFor :
    (verdict : GateVerdict) (stage : PipelineStage) (o : Option String)
    → route_of verdict stage ≡ o
    → FieldFor verdict stage o
field-FieldFor GateVerdict.proceed stage o h = h
field-FieldFor GateVerdict.rework stage o h = h
field-FieldFor GateVerdict.hold stage o h = h
field-FieldFor GateVerdict.abort stage o h = h

FieldFor-field :
    (verdict : GateVerdict) (stage : PipelineStage) (o : Option String)
    → FieldFor verdict stage o
    → route_of verdict stage ≡ o
FieldFor-field GateVerdict.proceed stage o h = h
FieldFor-field GateVerdict.rework stage o h = h
FieldFor-field GateVerdict.hold stage o h = h
FieldFor-field GateVerdict.abort stage o h = h

here-HasItsIssue : (o : Option ℕ) (db : Db) → is_gone o db ≡ false → HasItsIssue o db
here-HasItsIssue none db h = inl refl
here-HasItsIssue (some id) db h = elim (Option-cases (find_issue id db)) [
  | inl e ↦ let wrong : true ≡ false = rw e at h in absurd (cc)
  | inr (issue, e) ↦ inr (id, issue, refl, e)
]

HasItsIssue-here : (o : Option ℕ) (db : Db) → HasItsIssue o db → is_gone o db ≡ false
HasItsIssue-here o db (inl e) = rw e refl
HasItsIssue-here o db (inr (id, issue, e, found)) = rw e (rw found refl)

module _ (pipeline_id : ℕ) (name : String) (stages : List PipelineStage)
    (next : PipelineStage) where
  first_named :
      find (is_stage_named pipeline_id name) stages ≡ some next
      → IsFirstNamed pipeline_id name stages next
  first_named found =
      let (before, after, e, passes, others) =
        find-IsFirst (is_stage_named pipeline_id name) stages next found in
      let (own, named) =
        and_true (next.pipeline_id == pipeline_id) (str_eq next.name name) passes in
      (
        before,
        after,
        e,
        (==_iff next.pipeline_id pipeline_id).0 own,
        (eq_iff next.name name).0 named,
        All-map (λ (s : PipelineStage). is_stage_named pipeline_id name s ≡ false)
            (λ (s : PipelineStage). s.pipeline_id ≡ pipeline_id → s.name ≢ name) before
            (λ (s : PipelineStage) (other : is_stage_named pipeline_id name s ≡ false) of_pipeline
                same.
              let a = (==_iff s.pipeline_id pipeline_id).1 of_pipeline in
              let b = (eq_iff s.name name).1 same in
              let wrong : true ≡ false = rw (a, b) at other in absurd (cc))
            others,
      )

  named_first :
      IsFirstNamed pipeline_id name stages next
      → find (is_stage_named pipeline_id name) stages ≡ some next
  named_first (before, after, e, own, named, others) =
      let a = (==_iff next.pipeline_id pipeline_id).1 own in
      let b = (eq_iff next.name name).1 named in
      IsFirst-find (is_stage_named pipeline_id name) stages next (
        before,
        after,
        e,
        rw (a, b) refl,
        All-map (λ (s : PipelineStage). s.pipeline_id ≡ pipeline_id → s.name ≢ name)
            (λ (s : PipelineStage). is_stage_named pipeline_id name s ≡ false) before
            (λ (s : PipelineStage) (other : s.pipeline_id ≡ pipeline_id → s.name ≢ name).
              elim (Bool-cases (is_stage_named pipeline_id name s)) [
                | inl t ↦
                    let (c, d) = and_true (s.pipeline_id == pipeline_id) (str_eq s.name name) t in
                    absurd
                      (other ((==_iff s.pipeline_id pipeline_id).0 c) ((eq_iff s.name name).0 d))
                | inr t ↦ t
              ])
            others,
      )

-- A verdict launches a stage exactly when the run has no issue or its issue is stored, and the stage's routing field
-- for the verdict (onPass for proceed, onFail for rework, fallback for hold and abort) is a name, not empty and no
-- sentinel, of which that stage is the first in the run's pipeline.
pub apply_verdict-Launches_iff :
    (ports : Ports) (run : PipelineRun) (stage : PipelineStage) (verdict : GateVerdict)
    (reason question : Option String) (w : World) (next : PipelineStage)
    → (target_of (apply_verdict ports run stage verdict reason question w) ≡ some next)
      ↔ Launches run stage verdict w.db next
apply_verdict-Launches_iff ports run stage verdict reason question w next = (
  λ h.
      let (here, (name, at, complete, blocked, found)) =
        (apply_verdict-Leads ports run stage verdict reason question w next).0 h in
      let (field, full) = given-some (route_of verdict stage) name at in
      (
        here-HasItsIssue run.issue_id w.db here,
        (
          name,
          field-FieldFor verdict stage (some name) field,
          full,
          differs name complete_sentinel complete,
          differs name blocked_sentinel blocked,
          first_named run.pipeline_id name w.db.stages next found,
        ),
      ),
  λ (here, (name, field, full, complete, blocked, found)).
      (apply_verdict-Leads ports run stage verdict reason question w next).1 (
        HasItsIssue-here run.issue_id w.db here,
        (
          name,
          some-given (route_of verdict stage) name (FieldFor-field verdict stage (some name) field)
              full,
          differs_of name complete_sentinel complete,
          differs_of name blocked_sentinel blocked,
          named_first run.pipeline_id name w.db.stages next found,
        ),
      ),
)
