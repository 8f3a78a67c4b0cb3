-- ===== src/Executor/Prompt.antt =====
-- src/core/pipeline/prompt-composer.ts.
use fluxaos.Prelude.{String, Option, none, some, List, [], ◌∷◌, ◌++◌, map, ◌+s◌}

pub record SkillRef : Type 0 where
  pub name : String
  pub prompt_template : String

pub record IssueContext : Type 0 where
  pub title : String
  pub description : Option String
  pub stage_name : String
  pub project_name : String
  pub result_doc_path : String
  pub artifacts_dir : String

abbrev pub separator : String
separator = "\n\n---\n\n"

-- `parts.join(separator)`
unfoldable pub join : List String → String
join [] = ""
join (s ∷ []) = s
join (s ∷ t ∷ rest) = s +s (separator +s join (t ∷ rest))

abbrev pub result_doc_contract : String
result_doc_contract =
    "## Output Contract\n\nWhen your work is complete, write a result document to the path specified in your context.\nThe result document must be valid JSON with the following shape:\n\n{\n  \"verdict\": \"pass\" | \"fail\" | \"blocked\",\n  \"summary\": \"<one sentence describing what you did>\",\n  \"artifacts\": [\"<relative path to any files you created>\"]\n}\n\nVerdicts:\n- \"pass\" — work is complete and ready for the next stage\n- \"fail\" — work cannot be completed (ambiguous requirements, missing context)\n- \"blocked\" — you need operator input before continuing\n\nDo NOT transition issue states directly. Do NOT create git commits or branches unless your persona explicitly instructs it.\nWrite the result document, then stop."

abbrev pub skill_text : SkillRef → String
skill_text s = "### " +s (s.name +s ("\n\n" +s s.prompt_template))

abbrev pub text_or_empty : Option String → String
text_or_empty none = ""
text_or_empty (some s) = s

abbrev pub task_text : IssueContext → String
task_text c =
    "## Current Task\n\n**Issue:** "
    +s (c.title
        +s ("\n**Stage:** "
            +s (c.stage_name
                +s ("\n**Project:** "
                    +s (c.project_name
                        +s ("\n\n"
                            +s (text_or_empty c.description
                                +s ("\n\n**Result document path:** "
                                    +s (c.result_doc_path
                                        +s ("\n**Artifacts directory:** "
                                            +s c.artifacts_dir))))))))))

abbrev skill_parts : List SkillRef → List String
skill_parts [] = []
skill_parts (s ∷ rest) =
    ("## Available Tool References\n\n" +s join (skill_text s ∷ map skill_text rest)) ∷ []

unfoldable pub compose_prompt : String → List SkillRef → IssueContext → String
unfolding join
compose_prompt persona_soul skills issue_context =
    join ((persona_soul ∷ skill_parts skills) ++ task_text issue_context ∷ result_doc_contract ∷ [])
