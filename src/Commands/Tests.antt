-- ===== src/Commands/Tests.antt =====
-- src/core/orchestrator/command-builder.ts on a small template and a driver that takes its prompt by argv.
use Prim.Native.Char.{Char}
use fluxaos.Prelude.{
  ◌==◌, ◌≡◌, refl, true, Option, none, some, List, [], ◌∷◌, chars, every, length, ok, if◌then◌else◌,
}
use fluxaos.Commands.Template.{placeholder, word_run, after_word, render_from, render_template}
use fluxaos.Commands.Build.{DriverConfig, CommandOptions, dir_args, option_args, build_command}
use fluxaos.Commands.Rendered.{Part, text, variable, is_part, print, values, render_template-print}

abbrev vars : List Char → Option (List Char)
vars key = if length key == 4 then some (chars "X") else none

abbrev parts : List Part
parts =
    text (chars "Fix ")
    ∷ variable (chars "name")
    ∷ text (chars " in ")
    ∷ variable (chars "where")
    ∷ []

parts_hold : every is_part parts ≡ true
unfolding every
parts_hold = refl

render_template-print_example : render_template vars (print parts) ≡ values vars parts
render_template-print_example = render_template-print vars parts parts_hold

-- A brace that is not closed stays, and the match begins at the last two braces.
braces_stay : render_template vars (chars "{{{name}} {{na") ≡ chars "{X {{na"
unfolding render_template render_from placeholder word_run after_word
braces_stay = refl

abbrev agent : DriverConfig
agent = record {
  binary = "agent";
  default_args = some ("-p" ∷ []);
  model_flag = some "--model";
  dir_flag = some "--dir";
  session_name_flag = none;
  prompt_transport = "argv";
  output_format = "text";
  output_format_flag = none;
  env_vars = none;
}

abbrev options : CommandOptions
options = record {
  model = "m";
  workspace_path = "/w";
  prompt = "--help";
  session_name = some "s";
  additional_dirs = some ("/x" ∷ []);
}

prompt_is_last :
    build_command agent options
    ≡ ok (record {
      binary = "agent";
      args = "-p" ∷ "--model" ∷ "m" ∷ "--dir" ∷ "/w" ∷ "--dir" ∷ "/x" ∷ "--" ∷ "--help" ∷ [];
      env = [];
      stdin = none;
    })
unfolding build_command option_args dir_args
prompt_is_last = refl
