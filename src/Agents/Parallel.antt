-- ===== src/Agents/Parallel.antt =====
-- src/core/agents/parallel-executor.ts. A child's run is a parameter; it ends on its own in any order, and
-- the results stand in the order of the children.
use fluxaos.Prelude.{
  sym, ℕ, ◌+◌, ◌*◌, ◌≤◌, ◌<◌, ◌≡◌, ◌↔◌, refl, String, Bool, true, false, not, Option, none, some,
  List, [], ◌∷◌, map, arith, All, length, any, count, ltb, leb, ltb→lt, lt→ltb, ◌==◌, ==_iff,
  Bool-cases, inl, inr, ◌+s◌,
}
use fluxaos.Executor.Ports.{DocVerdict, ResultDoc, GraphResult, threw, returned, given}

pub data Aggregation : Type 0 where
  all_pass any_pass majority_pass none_of_them : Aggregation

pub record ChildResult : Type 0 where
  pub id : String
  pub stage_run_id : ℕ
  pub passed : Bool
  pub ingest_output : String
  pub error : Option String

pub record Child : Type 0 where
  pub id : String
  pub stage_run_id : ℕ

abbrev doc_passes : Option ResultDoc → Bool
doc_passes none = false
doc_passes (some doc) = elim doc.verdict [ DocVerdict.pass ↦ true | _ ↦ false ]

-- `read` is what an output holds as a valid document.
abbrev after_run : (String → Option ResultDoc) → Child → GraphResult → ChildResult
after_run read child (threw text) = record {
  id = child.id;
  stage_run_id = child.stage_run_id;
  passed = false;
  ingest_output = "";
  error = some ("child " +s (child.id +s (" threw: " +s text)));
}
after_run read child (returned output error) = elim (given error) [
  | some text ↦ record {
    id = child.id;
    stage_run_id = child.stage_run_id;
    passed = false;
    ingest_output = output;
    error = some text;
  }
  | none ↦ record {
    id = child.id;
    stage_run_id = child.stage_run_id;
    passed = doc_passes (read output);
    ingest_output = output;
    error = none;
  }
]

unfoldable pub run_child : (String → Option ResultDoc) → (Child → GraphResult) → Child → ChildResult
run_child read run child = after_run read child (run child)

abbrev pub has_passed : ChildResult → Bool
has_passed r = r.passed

-- `passCount > total / 2` is a comparison of fractions.
unfoldable pub aggregate : List ChildResult → Aggregation → Bool
aggregate results Aggregation.all_pass = count has_passed results == length results
aggregate results Aggregation.any_pass = leb 1 (count has_passed results)
aggregate results Aggregation.majority_pass = ltb (length results) (2 * count has_passed results)
aggregate results Aggregation.none_of_them = true

unfoldable pub run_parallel_executor :
    (String → Option ResultDoc)
    → (Child → GraphResult)
    → List Child
    → Aggregation
    → Bool × List ChildResult
unfolding run_child aggregate
run_parallel_executor read run children aggregation =
    let results = map (run_child read run) children in (aggregate results aggregation, results)

abbrev HasPassed : ChildResult → Type 0
HasPassed r = has_passed r ≡ true

count-le : (results : List ChildResult) → count has_passed results ≤ length results
unfolding count
count-le [] = omega arith
count-le (r ∷ rest) = ground (arith, count-le rest)

All-count :
    (results : List ChildResult) → All HasPassed results → count has_passed results ≡ length results
unfolding count
All-count [] h = refl
All-count (r ∷ rest) h = let here = h.0 in ground (arith, All-count rest h.1)

count-All :
    (results : List ChildResult) → count has_passed results ≡ length results → All HasPassed results
unfolding count
count-All [] h = tt
count-All (r ∷ rest) h = elim (Bool-cases (has_passed r)) [
  | inl e ↦ (e, count-All rest (ground arith))
  | inr e ↦ absurd (ground (arith, count-le rest))
]

any-count : (results : List ChildResult) → any has_passed results ≡ leb 1 (count has_passed results)
unfolding any count
any-count [] = ground arith
any-count (r ∷ rest) = ground (arith, any-count rest)

count-not :
    (results : List ChildResult)
    → count (λ r. not (has_passed r)) results + count has_passed results ≡ length results
unfolding count
count-not [] = omega arith
count-not (r ∷ rest) = ground (arith, count-not rest)

-- The group passes: under all-pass exactly when every child has passed, under any-pass exactly when one
-- has, and under majority-pass exactly when more children have passed than have not.
pub aggregate-meaning :
    (results : List ChildResult)
    → ((aggregate results Aggregation.all_pass ≡ true) ↔ All HasPassed results)
      × (aggregate results Aggregation.any_pass ≡ any has_passed results)
      × ((aggregate results Aggregation.majority_pass ≡ true)
          ↔ (count (λ r. not (has_passed r)) results < count has_passed results))
unfolding aggregate
aggregate-meaning results = (
  (
    λ h. count-All results ((==_iff (count has_passed results) (length results)).0 h),
    λ h. (==_iff (count has_passed results) (length results)).1 (All-count results h),
  ),
  sym (any-count results),
  (
    λ h. let more = ltb→lt _ _ h in omega (arith, count-not results),
    λ h. lt→ltb _ _ (omega (arith, count-not results)),
  ),
)
