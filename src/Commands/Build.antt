-- ===== src/Commands/Build.antt =====
-- `buildCommand` of src/core/orchestrator/command-builder.ts.
use fluxaos.Prelude.{
  String, Option, none, some, List, [], ◌∷◌, ◌++◌, str_eq, if◌then◌else◌, Result, ok, err,
}
use fluxaos.Executor.Ports.{given}

-- `none` in `default_args` and `env_vars` is a json value of another form.
pub record DriverConfig : Type 0 where
  pub binary : String
  pub default_args : Option (List String)
  pub model_flag : Option String
  pub dir_flag : Option String
  pub session_name_flag : Option String
  pub prompt_transport : String
  pub output_format : String
  pub output_format_flag : Option String
  pub env_vars : Option (List (String × String))

pub record CommandOptions : Type 0 where
  pub model : String
  pub workspace_path : String
  pub prompt : String
  pub session_name : Option String
  pub additional_dirs : Option (List String)

pub record BuiltCommand : Type 0 where
  pub binary : String
  pub args : List String
  pub env : List (String × String)
  pub stdin : Option String

-- `if (flag && value) args.push(flag, value)`
abbrev pub flagged : Option String → Option String → List String
flagged (some flag) (some value) = flag ∷ value ∷ []
flagged _ _ = []

unfoldable pub dir_args : String → List String → List String
dir_args flag [] = []
dir_args flag (dir ∷ dirs) = flag ∷ dir ∷ dir_args flag dirs

abbrev pub additional_args : Option String → Option (List String) → List String
additional_args (some flag) (some dirs) = dir_args flag dirs
additional_args _ _ = []

abbrev pub or_empty : Option (List (String × String)) → List (String × String)
or_empty none = []
or_empty (some env) = env

-- The arguments before the prompt.
unfoldable pub option_args : DriverConfig → List String → CommandOptions → List String
unfolding dir_args
option_args driver default_args options =
    default_args
    ++ (flagged (given driver.output_format_flag) (given (some driver.output_format))
        ++ (flagged (given driver.model_flag) (given (some options.model))
            ++ (flagged (given driver.session_name_flag) (given options.session_name)
                ++ (flagged (given driver.dir_flag) (given (some options.workspace_path))
                    ++ additional_args (given driver.dir_flag) options.additional_dirs))))

abbrev pub prompt_args : String → String → List String
prompt_args transport prompt =
    if str_eq transport "argv"
    then "--" ∷ prompt ∷ []
    else if str_eq transport "stdin"
    then []
    else if str_eq transport "flag"
    then "--prompt" ∷ prompt ∷ []
    else []

abbrev pub prompt_stdin : String → String → Option String
prompt_stdin transport prompt = if str_eq transport "stdin" then some prompt else none

abbrev pub with_transport :
    DriverConfig → CommandOptions → List String → Option String → Result String BuiltCommand
with_transport driver options default_args none = err "driver has no promptTransport configured"
with_transport driver options default_args (some transport) = ok (record {
  binary = driver.binary;
  args = option_args driver default_args options ++ prompt_args transport options.prompt;
  env = or_empty driver.env_vars;
  stdin = prompt_stdin transport options.prompt;
})

abbrev pub with_default_args :
    DriverConfig → CommandOptions → Option (List String) → Result String BuiltCommand
with_default_args driver options none = err "driver defaultArgs must be a string array"
with_default_args driver options (some default_args) =
    with_transport driver options default_args (given (some driver.prompt_transport))

unfoldable pub build_command : DriverConfig → CommandOptions → Result String BuiltCommand
unfolding option_args
build_command driver options = with_default_args driver options driver.default_args
