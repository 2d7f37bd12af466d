-- ===== src/DeleteUser/Arguments.antt =====
-- `parseArgs`.
pub mod Rendering
pub mod Flags
use portal_conductor.Base.{
  String, ◌<>◌, ◌==◌, ◌≡◌, refl, Bool, true, false, not, ◌&&◌, ◌||◌, List, [], ◌∷◌, starts_with,
  if◌then◌else◌,
}
use portal_conductor.Base.Text.{trim_prefix}

-- `cliArgs`.
pub record CliArgs : Type 0 where
  pub username : String
  pub config_path : String
  pub dry_run : Bool
  pub help : Bool

pub data Parsed : Type 0 where
  parsed : CliArgs → Parsed
  usage_error : String → Parsed

-- The cases of the switch, in its order.
pub data Argument : Type 0 where
  help_flag dry_run_flag config_flag : Argument
  config_value : String → Argument
  unknown_flag plain : Argument

unfoldable pub classify : String → Argument
classify arg =
    if (arg == "-h") || (arg == "--help")
    then help_flag
    else if arg == "--dry-run"
    then dry_run_flag
    else if arg == "--config"
    then config_flag
    else if starts_with arg "--config="
    then config_value (trim_prefix arg "--config=")
    else if starts_with arg "-"
    then unknown_flag
    else plain

-- The test after the loop.
abbrev pub finish : CliArgs → Parsed
finish args =
    if not args.help && (args.username == "")
    then usage_error "the following arguments are required: username"
    else parsed args

-- The loop over the arguments that are left; the flag says that `--config` waits for its value.
unfoldable pub parse_loop : List String → Bool → CliArgs → Parsed
unfolding classify trim_prefix
parse_loop [] true args = usage_error "argument --config: expected one argument"
parse_loop [] false args = finish args
parse_loop (arg ∷ argv) true args = parse_loop argv false (record args { config_path = arg })
parse_loop (arg ∷ argv) false args = elim (classify arg) [
  | help_flag ↦ parse_loop argv false (record args { help = true })
  | dry_run_flag ↦ parse_loop argv false (record args { dry_run = true })
  | config_flag ↦ parse_loop argv true args
  | config_value path ↦ parse_loop argv false (record args { config_path = path })
  | unknown_flag ↦ usage_error ("unrecognized arguments: " <> arg)
  | plain ↦
      let rest = parse_loop argv false (record args { username = arg }) in
      if args.username == "" then rest else usage_error ("unrecognized arguments: " <> arg)
]

-- `parseArgs`, with the value of PORTAL_CONDUCTOR_CONFIG, empty where it is not set.
unfoldable pub parse_args : String → List String → Parsed
unfolding parse_loop
parse_args configured argv = parse_loop argv false (record {
  username = "";
  config_path = if configured == "" then "config.json" else configured;
  dry_run = false;
  help = false;
})

parse_args_tests :
    (parse_args "" ("ann" ∷ "--dry-run" ∷ "--config=x.json" ∷ [])
      ≡ parsed (record { username = "ann"; config_path = "x.json"; dry_run = true; help = false }))
    × (parse_args "c.json" ("--config" ∷ "--dry-run" ∷ "ann" ∷ [])
        ≡ parsed
            (record { username = "ann"; config_path = "--dry-run"; dry_run = false; help = false }))
    × (parse_args "" ("ann" ∷ "--config" ∷ [])
        ≡ usage_error "argument --config: expected one argument")
    × (parse_args "" ("ann" ∷ "bob" ∷ []) ≡ usage_error "unrecognized arguments: bob")
    × (parse_args "" ("--force" ∷ "ann" ∷ []) ≡ usage_error "unrecognized arguments: --force")
    × (parse_args "" [] ≡ usage_error "the following arguments are required: username")
unfolding parse_args
parse_args_tests = (refl, refl, refl, refl, refl, refl)
