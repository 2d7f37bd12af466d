-- ===== src/DeleteUser/Arguments/Flags.antt =====
-- Command lines that ask for a dry run.
use Prim.{⊥, absurd}
use portal_conductor.Base.{
  ◌<>◌, not, ◌&&◌, String, ◌==◌, ◌≡◌, refl, ap, ◌∙◌, Bool, true, false, ◌||◌, List, [], ◌∷◌, eq_iff,
  Bool-cases, inl, inr, if◌then◌else◌,
}
use portal_conductor.DeleteUser.Arguments.{
  CliArgs, parsed, usage_error, Argument, help_flag, dry_run_flag, config_flag, config_value,
  unknown_flag, plain, classify, finish, parse_loop, parse_args,
}

-- Whether `--dry-run` stands on a command line, other than as the value of `--config`; the flag says
-- that `--config` has come just before.
unfoldable pub asks_dry_run : Bool → List String → Bool
asks_dry_run waiting [] = false
asks_dry_run true (arg ∷ argv) = asks_dry_run false argv
asks_dry_run false (arg ∷ argv) = (arg == "--dry-run") || asks_dry_run (arg == "--config") argv

abbrev is_dry : Argument → Bool
is_dry dry_run_flag = true
is_dry _ = false

abbrev is_config : Argument → Bool
is_config config_flag = true
is_config _ = false

is_config-classify : (arg : String) → is_config (classify arg) ≡ (arg == "--config")
unfolding classify
is_config-classify arg = elim (Bool-cases (arg == "--config")) [
  | inl e ↦ rw ((eq_iff _ _).0 e) refl
  | inr e ↦ rw e (others _ (arg == "--dry-run") _ _ _)
]
  where
    others :
        (a b c d : Bool) (path : String)
        → is_config (
            if a
            then help_flag
            else if b
            then dry_run_flag
            else if false
            then config_flag
            else if c
            then config_value path
            else if d
            then unknown_flag
            else plain)
          ≡ false
    others true b c d path = refl
    others false true c d path = refl
    others false false true d path = refl
    others false false false true path = refl
    others false false false false path = refl

is_dry-classify : (arg : String) → is_dry (classify arg) ≡ (arg == "--dry-run")
unfolding classify
is_dry-classify arg = elim (Bool-cases (arg == "--dry-run")) [
  | inl e ↦ rw ((eq_iff _ _).0 e) refl
  | inr e ↦ rw e (others _ (arg == "--config") _ _ _)
]
  where
    others :
        (a b c d : Bool) (path : String)
        → is_dry (
            if a
            then help_flag
            else if false
            then dry_run_flag
            else if b
            then config_flag
            else if c
            then config_value path
            else if d
            then unknown_flag
            else plain)
          ≡ false
    others true b c d path = refl
    others false true c d path = refl
    others false false true d path = refl
    others false false false true path = refl
    others false false false false path = refl

finish-dry_run : (args r : CliArgs) → finish args ≡ parsed r → r.dry_run ≡ args.dry_run
finish-dry_run args r e = by_test (not args.help && (args.username == "")) e
  where
    by_test :
        (b : Bool)
        → (if b then usage_error "the following arguments are required: username" else parsed args)
          ≡ parsed r
        → r.dry_run ≡ args.dry_run
    by_test true e = cc
    by_test false e = cc

once_set : (b c : Bool) → (true || c) ≡ (b || (true || c))
once_set true c = refl
once_set false c = refl

or_false : (b : Bool) → b ≡ (b || false)
or_false true = refl
or_false false = refl

-- The loop over some arguments reads off whether they ask for a dry run.
abbrev ReadsFlag : List String → Type 0
ReadsFlag argv =
    (waiting : Bool) (args r : CliArgs)
    → parse_loop argv waiting args ≡ parsed r
    → r.dry_run ≡ (args.dry_run || asks_dry_run waiting argv)

by_kind :
    (arg : String) (argv : List String) (args r : CliArgs) (k : Argument)
    → ReadsFlag argv
    → (elim k [
      | help_flag ↦ parse_loop argv false (record args { help = true })
      | dry_run_flag ↦ parse_loop argv false (record args { dry_run = true })
      | config_flag ↦ parse_loop argv true args
      | config_value path ↦ parse_loop argv false (record args { config_path = path })
      | unknown_flag ↦ usage_error ("unrecognized arguments: " <> arg)
      | plain ↦
          let rest = parse_loop argv false (record args { username = arg }) in
          if args.username == "" then rest else usage_error ("unrecognized arguments: " <> arg)
    ])
      ≡ parsed r
    → r.dry_run ≡ (args.dry_run || (is_dry k || asks_dry_run (is_config k) argv))
by_kind arg argv args r help_flag f e = f false (record args { help = true }) r e
by_kind arg argv args r dry_run_flag f e =
    f false (record args { dry_run = true }) r e ∙ once_set args.dry_run (asks_dry_run false argv)
by_kind arg argv args r config_flag f e = f true args r e
by_kind arg argv args r (config_value path) f e = f false (record args { config_path = path }) r e
by_kind arg argv args r unknown_flag f e = cc
by_kind arg argv args r plain f e = elim (Bool-cases (args.username == "")) [
  | inl n ↦ f false (record args { username = arg }) r (rw n at e)
  | inr n ↦ absurd (refused (rw n at e))
]
  where
    refused : usage_error ("unrecognized arguments: " <> arg) ≡ parsed r → ⊥
    refused k = cc

ReadsFlag-all : (argv : List String) → ReadsFlag argv
unfolding parse_loop asks_dry_run
ReadsFlag-all [] true args r e = cc
ReadsFlag-all [] false args r e = finish-dry_run args r e ∙ or_false args.dry_run
ReadsFlag-all (arg ∷ argv) true args r e =
    ReadsFlag-all argv false (record args { config_path = arg }) r e
ReadsFlag-all (arg ∷ argv) false args r e =
    by_kind arg argv args r (classify arg) (ReadsFlag-all argv) e
    ∙ ap (λ b. args.dry_run || (b || asks_dry_run (is_config (classify arg)) argv))
        (is_dry-classify arg)
    ∙ ap (λ b. args.dry_run || ((arg == "--dry-run") || asks_dry_run b argv))
        (is_config-classify arg)

-- Every command line that is accepted is read as one for a dry run exactly where it asks for one.
pub parse_args-asks_dry_run :
    (configured : String) (argv : List String) (r : CliArgs)
    → parse_args configured argv ≡ parsed r
    → r.dry_run ≡ asks_dry_run false argv
unfolding parse_args
parse_args-asks_dry_run configured argv r e = ReadsFlag-all argv false _ r e
