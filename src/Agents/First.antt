-- ===== src/Agents/First.antt =====
-- src/core/agents/loop-executor.ts: where a loop stops.
use fluxaos.Prelude.{
  ℕ, ◌≤◌, ◌<◌, ◌≡◌, refl, ap, ◌∙◌, String, true, false, Option, none, some, arith, Option-cases,
  inl, inr, ◌⊎◌,
}
use fluxaos.Executor.Ports.{DocVerdict, ResultDoc, GraphResult, threw, returned, given}
use fluxaos.Agents.Loop.{
  Until, check_until_condition, is_always, run_loop_executor, meets, is_pass, is_fail, or_read,
  met_with, met_by, iterate-Met,
}

-- The verdict on which a loop with the condition stops; with ALWAYS and unknown conditions none does.
abbrev pub Stops : Until → DocVerdict → Type 0
Stops Until.issue_out_of_active_state verdict = verdict ≡ DocVerdict.pass
Stops Until.verdict_pass verdict = verdict ≡ DocVerdict.pass
Stops Until.verdict_fail verdict = verdict ≡ DocVerdict.fail
Stops Until.always verdict = ⊥
Stops Until.other verdict = ⊥

pass_of : (v : DocVerdict) → is_pass v ≡ true → v ≡ DocVerdict.pass
pass_of DocVerdict.pass h = refl
pass_of DocVerdict.fail h = absurd (cc)
pass_of DocVerdict.blocked h = absurd (cc)

fail_of : (v : DocVerdict) → is_fail v ≡ true → v ≡ DocVerdict.fail
fail_of DocVerdict.fail h = refl
fail_of DocVerdict.pass h = absurd (cc)
fail_of DocVerdict.blocked h = absurd (cc)

check-Stops :
    (until : Until) (doc : ResultDoc)
    → check_until_condition until (some doc) ≡ true
    → Stops until doc.verdict
unfolding check_until_condition
check-Stops Until.issue_out_of_active_state doc h = pass_of doc.verdict h
check-Stops Until.verdict_pass doc h = pass_of doc.verdict h
check-Stops Until.verdict_fail doc h = fail_of doc.verdict h
check-Stops Until.always doc h = absurd (cc)
check-Stops Until.other doc h = absurd (cc)

Stops-check :
    (until : Until) (doc : ResultDoc)
    → Stops until doc.verdict
    → check_until_condition until (some doc) ≡ true
unfolding check_until_condition
Stops-check Until.issue_out_of_active_state doc h = ap is_pass h
Stops-check Until.verdict_pass doc h = ap is_pass h
Stops-check Until.verdict_fail doc h = ap is_fail h
Stops-check Until.always doc h = absurd h
Stops-check Until.other doc h = absurd h

no_doc : (until : Until) → check_until_condition until none ≡ false
unfolding check_until_condition
no_doc until = refl

module _ (run : ℕ → GraphResult) (read : String → Option ResultDoc) (file : ℕ → Option ResultDoc)
    (until : Until) (max_iterations : ℕ) where
  -- The document of an iteration: that of its output, or else that of the file.
  abbrev pub Reads : ℕ → String → ResultDoc → Type 0
  Reads n output doc = (read output ≡ some doc) ⊎ ((read output ≡ none) × (file n ≡ some doc))

  -- The n-th iteration ran without an error and left a document with a verdict on which the loop stops.
  abbrev pub IsMet : ℕ → Type 0
  IsMet n =
      (output : String) × (error : Option String) × (doc : ResultDoc) × (run n
        ≡ returned output error)
      × (given error ≡ none)
      × Reads n output doc
      × Stops until doc.verdict

  read-Reads :
      (n : ℕ) (output : String) (doc : ResultDoc)
      → or_read (read output) (file n) ≡ some doc
      → Reads n output doc
  read-Reads n output doc h = elim (Option-cases (read output)) [
    | inl e ↦ inr (e, rw e at h)
    | inr (own, e) ↦ inl (e ∙ (rw e at h))
  ]

  Reads-read :
      (n : ℕ) (output : String) (doc : ResultDoc)
      → Reads n output doc
      → or_read (read output) (file n) ≡ some doc
  Reads-read n output doc (inl e) = rw e refl
  Reads-read n output doc (inr (e, f)) = rw e f

  module _ (n : ℕ) where
    checked :
        (output : String) (o : Option ResultDoc)
        → or_read (read output) (file n) ≡ o
        → check_until_condition until o ≡ true
        → (doc : ResultDoc) × Reads n output doc × Stops until doc.verdict
    checked output none e h = absurd (cc (h, no_doc until))
    checked output (some doc) e h = (doc, read-Reads n output doc e, check-Stops until doc h)

    met_with-IsMet :
        (output : String) (error o : Option String)
        → run n ≡ returned output error
        → given error ≡ o
        → met_with run read file until max_iterations n output o ≡ true
        → IsMet n
    met_with-IsMet output error (some text) ran is_error h = absurd (cc)
    met_with-IsMet output error none ran is_error h =
        let (doc, reads, stops) = checked output (or_read (read output) (file n)) refl h in
        (output, error, doc, ran, is_error, reads, stops)

    met_by-IsMet :
        (g : GraphResult)
        → run n ≡ g
        → met_by run read file until max_iterations n g ≡ true
        → IsMet n
    met_by-IsMet (threw text) ran h = absurd (cc)
    met_by-IsMet (returned output error) ran h =
        met_with-IsMet output error (given error) ran refl h

    IsMet-meets : IsMet n → meets run read file until max_iterations n ≡ true
    IsMet-meets (output, error, doc, ran, no_error, reads, stops) =
        ap (met_by run read file until max_iterations n) ran
        ∙ ap (met_with run read file until max_iterations n output) no_error
        ∙ ap (check_until_condition until) (Reads-read n output doc reads)
        ∙ Stops-check until doc stops

  -- A loop that completes, with a condition other than ALWAYS, stops at an iteration between 1 and its limit: one
  -- that ran without an error and left a document with the verdict that the condition asks for, pass or fail; and no
  -- iteration before it did.
  pub run_loop_executor-first :
      (run_loop_executor run read file until max_iterations).completed ≡ true
      → is_always until ≡ false
      → (1 ≤ (run_loop_executor run read file until max_iterations).iterations)
        × ((run_loop_executor run read file until max_iterations).iterations ≤ max_iterations)
        × IsMet (run_loop_executor run read file until max_iterations).iterations
        × ((j : ℕ)
            → 1 ≤ j
            → j < (run_loop_executor run read file until max_iterations).iterations
            → IsMet j
            → ⊥)
  unfolding run_loop_executor
  run_loop_executor-first done not_always =
      let (met, bound) =
        iterate-Met run read file until max_iterations max_iterations 1 0 "" (omega arith) in
      (
        met.2 done not_always,
        bound,
        met_by-IsMet _ _ refl (met.1 done not_always),
        λ j from before is_met.
            let (others, limit) =
              iterate-Met run read file until max_iterations max_iterations 1 j "" (omega arith) in
            let missed = others.0 done not_always from before in
            let hit = IsMet-meets j is_met in absurd (cc (hit, missed)),
      )
