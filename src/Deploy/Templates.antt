-- ===== src/Deploy/Templates.antt =====
-- src/core/deploy/templates.ts: the texts of a commit and of a pull request; ids are given as they are shown.
use fluxaos.Prelude.{ℕ, String, Option, none, some, List, [], ◌∷◌, decimal, ◌+s◌}

-- The character of a line feed.
abbrev newline : String
newline = "\n"

abbrev joined : List String → String
joined [] = ""
joined (line ∷ []) = line
joined (line ∷ next ∷ rest) = line +s newline +s joined (next ∷ rest)

abbrev or_fluxaos : Option String → String
or_fluxaos none = "fluxaos"
or_fluxaos (some name) = name

unfoldable pub build_commit_message :
    (title : String) (number : ℕ) (run_id : String) → Option String → String
build_commit_message title number run_id stage_name =
    or_fluxaos stage_name
    +s ": "
    +s title
    +s " (#"
    +s decimal number
    +s ")"
    +s newline
    +s newline
    +s "fluxaOS pipeline run "
    +s run_id

unfoldable pub build_pr_title : (title : String) (number : ℕ) → String
build_pr_title title number = title +s " (#" +s decimal number +s ")"

unfoldable pub build_pr_body :
    (title : String) (number : ℕ) (issue_id run_id commit_sha : String) → String
build_pr_body title number issue_id run_id commit_sha = joined (
    "## Issue"
    ∷ ""
    ∷ ("[#" +s decimal number +s " — " +s title +s "](fluxaos://issues/" +s issue_id +s ")")
    ∷ ""
    ∷ "## Pipeline Run"
    ∷ ""
    ∷ ("Run: [" +s run_id +s "](fluxaos://runs/" +s run_id +s ")")
    ∷ ""
    ∷ ("Commit: `" +s commit_sha +s "`")
    ∷ ""
    ∷ "## Generated by fluxaOS"
    ∷ [])
