-- ===== src/Agents/Loop.antt =====
-- src/core/agents/loop-executor.ts. The n-th run of the driver, the reading of its output, and the
-- document that it leaves in the file are parameters.
use fluxaos.Prelude.{
  ==_iff, subst, ◌==◌, ◌∙◌, ap, ℕ, zero, suc, ◌+◌, ◌≤◌, ◌<◌, ◌≡◌, refl, String, Bool, true, false,
  Option, none, some, arith, Bool-cases, inl, inr, if◌then◌else◌, decimal, ◌+s◌,
}
use fluxaos.Executor.Ports.{DocVerdict, ResultDoc, GraphResult, threw, returned, given}

pub data Until : Type 0 where
  issue_out_of_active_state verdict_pass verdict_fail always other : Until

pub record LoopExecutorResult : Type 0 where
  pub completed : Bool
  pub iterations : ℕ
  pub last_ingest_output : String
  pub error : Option String

abbrev pub is_pass : DocVerdict → Bool
is_pass DocVerdict.pass = true
is_pass _ = false

abbrev pub is_fail : DocVerdict → Bool
is_fail DocVerdict.fail = true
is_fail _ = false

unfoldable pub check_until_condition : Until → Option ResultDoc → Bool
check_until_condition until none = false
check_until_condition Until.issue_out_of_active_state (some doc) = is_pass doc.verdict
check_until_condition Until.verdict_pass (some doc) = is_pass doc.verdict
check_until_condition Until.verdict_fail (some doc) = is_fail doc.verdict
check_until_condition Until.always (some doc) = false
check_until_condition Until.other (some doc) = false

abbrev pub is_always : Until → Bool
is_always Until.always = true
is_always _ = false

abbrev pub or_read : Option ResultDoc → Option ResultDoc → Option ResultDoc
or_read (some doc) file = some doc
or_read none file = file

module _ (run : ℕ → GraphResult) (read : String → Option ResultDoc) (file : ℕ → Option ResultDoc)
    (until : Until) (max_iterations : ℕ) where
  abbrev stop : ℕ → String → Option String → LoopExecutorResult
  stop n last error = record {
    completed = false;
    iterations = n;
    last_ingest_output = last;
    error = error;
  }

  abbrev after_output : ℕ → String → Option String → LoopExecutorResult → LoopExecutorResult
  after_output n output (some text) later = stop n output (some text)
  after_output n output none later =
      if check_until_condition until (or_read (read output) (file n))
      then record { completed = true; iterations = n; last_ingest_output = output; error = none }
      else later

  abbrev after_iteration :
      ℕ → String → GraphResult → (String → LoopExecutorResult) → LoopExecutorResult
  after_iteration n last (threw text) later =
      stop n last (some ("iteration " +s (decimal n +s (" threw: " +s text))))
  after_iteration n last (returned output error) later =
      after_output n output (given error) (later output)

  -- The loop from iteration `n`, with so many iterations left.
  unfoldable pub iterate : ℕ → ℕ → String → LoopExecutorResult
  unfolding check_until_condition
  iterate zero n last = record {
    completed = is_always until;
    iterations = max_iterations;
    last_ingest_output = last;
    error = none;
  }
  iterate (suc left) n last = after_iteration n last (run n) (λ output. iterate left (suc n) output)

  unfoldable pub run_loop_executor : LoopExecutorResult
  unfolding iterate
  run_loop_executor = iterate max_iterations 1 ""

  abbrev pub met_with : ℕ → String → Option String → Bool
  met_with n output (some text) = false
  met_with n output none = check_until_condition until (or_read (read output) (file n))

  abbrev pub met_by : ℕ → GraphResult → Bool
  met_by n (threw text) = false
  met_by n (returned output error) = met_with n output (given error)

  -- The n-th iteration ran without an error and met the condition.
  abbrev pub meets : ℕ → Bool
  meets n = met_by n (run n)

  -- What a loop that completes has met, from iteration `n` on.
  abbrev Met : ℕ → ℕ → LoopExecutorResult → Type 0
  Met n j r =
      (r.completed ≡ true → is_always until ≡ false → n ≤ j → j < r.iterations → meets j ≡ false)
      × (r.completed ≡ true → is_always until ≡ false → meets r.iterations ≡ true)
      × (r.completed ≡ true → is_always until ≡ false → n ≤ r.iterations)

  pub iterate-Met :
      (left n j : ℕ) (last : String)
      → left + n ≡ suc max_iterations
      → Met n j (iterate left n last) × ((iterate left n last).iterations ≤ max_iterations)
  unfolding iterate
  iterate-Met zero n j last h = (
    (λ c a. absurd (cc (c, a)), λ c a. absurd (cc (c, a)), λ c a. absurd (cc (c, a))),
    omega arith,
  )
  iterate-Met (suc left) n j last h =
      go (run n) refl (λ output. iterate-Met left (suc n) j output (omega arith))
    where
      go :
          (g : GraphResult)
          → run n ≡ g
          → ((output : String)
              → Met (suc n) j (iterate left (suc n) output)
                × ((iterate left (suc n) output).iterations ≤ max_iterations))
          → Met n j (after_iteration n last g (λ output. iterate left (suc n) output))
            × ((after_iteration n last g (λ output. iterate left (suc n) output)).iterations
                ≤ max_iterations)
      go (threw text) e ih =
          ((λ c. absurd (cc (c)), λ c. absurd (cc (c)), λ c. absurd (cc (c))), omega arith)
      go (returned output error) e ih = at_error (given error) refl
        where
          meets_n : (x : Option String) → given error ≡ x → meets n ≡ met_with n output x
          meets_n x f = ap (met_by n) e ∙ ap (met_with n output) f

          at_error :
              (x : Option String)
              → given error ≡ x
              → Met n j (after_output n output x (iterate left (suc n) output))
                × ((after_output n output x (iterate left (suc n) output)).iterations
                    ≤ max_iterations)
          at_error (some text) f =
              ((λ c. absurd (cc (c)), λ c. absurd (cc (c)), λ c. absurd (cc (c))), omega arith)
          at_error none f =
              let later = ih output in
              elim (Bool-cases (check_until_condition until (or_read (read output) (file n)))) [
                | inl c ↦ rw c (
                  (
                    λ d a le lt. absurd (omega arith),
                    λ d a. meets_n none f ∙ c,
                    λ d a. omega arith,
                  ),
                  omega arith,
                )
                | inr c ↦ rw c (
                  (
                    λ d a le lt. elim (Bool-cases (n == j)) [
                      | inl same ↦
                          subst (λ i. meets i ≡ false) ((==_iff n j).0 same) (meets_n none f ∙ c)
                      | inr differs ↦ later.0.0 d a (ground arith) lt
                    ],
                    later.0.1,
                    λ d a. let from = later.0.2 d a in omega (arith, from),
                  ),
                  later.1,
                )
              ]

  -- The loop makes at most `maxIterations` iterations.
  run_loop_executor-iterations : run_loop_executor.iterations ≤ max_iterations
  unfolding run_loop_executor
  run_loop_executor-iterations = (iterate-Met max_iterations 1 0 "" (omega arith)).1
