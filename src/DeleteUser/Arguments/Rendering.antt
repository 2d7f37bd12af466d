-- ===== src/DeleteUser/Arguments/Rendering.antt =====
-- Command lines written from options and a name, and `parseArgs`.
use Prim.{absurd}
use text.Mathlib.TextPositions.{len-append, slice-append_right, starts_with-append}
use portal_conductor.Base.{
  String, ◌<>◌, ◌==◌, ◌≡◌, refl, sym, ap, ◌∙◌, Bool, true, false, ◌||◌, List, [], ◌∷◌, exists,
  starts_with, eq_iff, Bool-cases, inl, inr, if◌then◌else◌,
}
use portal_conductor.Base.Text.{trim_prefix}
use portal_conductor.DeleteUser.Arguments.{
  CliArgs, parsed, config_value, plain, classify, finish, parse_loop, parse_args,
}

pub data Word : Type 0 where
  short_help long_help dry_run : Word
  config_pair : String → Word  -- --config PATH
  config_joined : String → Word  -- --config=PATH
  name : String → Word

-- The arguments that a word stands for.
abbrev pub flatten : List Word → List String
flatten [] = []
flatten (short_help ∷ ws) = "-h" ∷ flatten ws
flatten (long_help ∷ ws) = "--help" ∷ flatten ws
flatten (dry_run ∷ ws) = "--dry-run" ∷ flatten ws
flatten (config_pair path ∷ ws) = "--config" ∷ path ∷ flatten ws
flatten (config_joined path ∷ ws) = ("--config=" <> path) ∷ flatten ws
flatten (name u ∷ ws) = u ∷ flatten ws

abbrev pub names : List Word → List String
names [] = []
names (name u ∷ ws) = u ∷ names ws
names (_ ∷ ws) = names ws

abbrev is_help : Word → Bool
is_help short_help = true
is_help long_help = true
is_help _ = false

abbrev is_dry_run : Word → Bool
is_dry_run dry_run = true
is_dry_run _ = false

-- The last path counts.
abbrev pub last_path : List Word → String → String
last_path [] path = path
last_path (config_pair p ∷ ws) path = last_path ws p
last_path (config_joined p ∷ ws) path = last_path ws p
last_path (_ ∷ ws) path = last_path ws path

-- The options of the words over those of `args`, whatever their order.
abbrev pub options : List Word → CliArgs → CliArgs
options ws args = record {
  username = args.username;
  config_path = last_path ws args.config_path;
  dry_run = exists is_dry_run ws || args.dry_run;
  help = exists is_help ws || args.help;
}

other-text : (p q s : String) → starts_with s p ≡ false → (p <> q == s) ≡ false
other-text p q s h = elim (Bool-cases (p <> q == s)) [
  | inl e ↦ absurd (clash (ap (λ t. starts_with t p) ((eq_iff (p <> q) s).0 e)))
  | inr e ↦ e
]
  where
    clash : starts_with (p <> q) p ≡ starts_with s p → ⊥
    clash e = different (sym (starts_with-append p q) ∙ e ∙ h)
      where
        different : true ≡ false → ⊥
        different k = cc

trim_prefix-append : (p q : String) → trim_prefix (p <> q) p ≡ q
unfolding trim_prefix
trim_prefix-append p q =
    rw (trim_prefix, starts_with-append p q, len-append p q) (slice-append_right p q)

classify-config : (path : String) → classify ("--config=" <> path) ≡ config_value path
unfolding classify
classify-config path =
    rw
      (
        classify,
        other-text "--config=" path "-h" refl,
        other-text "--config=" path "--help" refl,
        other-text "--config=" path "--dry-run" refl,
        other-text "--config=" path "--config" refl,
        starts_with-append "--config=" path,
        trim_prefix-append "--config=" path,
      )
      refl

or_true : (b : Bool) → (b || true) ≡ true
or_true true = refl
or_true false = refl

-- One word, where the name that it may give is read as one.
parse_loop-joined :
    (path : String) (argv : List String) (args : CliArgs)
    → parse_loop (("--config=" <> path) ∷ argv) false args
      ≡ parse_loop argv false (record args { config_path = path })
unfolding parse_loop
parse_loop-joined path argv args = rw (parse_loop, classify-config path) refl

parse_loop-name :
    (u : String) (argv : List String) (args : CliArgs)
    → classify u ≡ plain
    → (args.username == "") ≡ true
    → parse_loop (u ∷ argv) false args ≡ parse_loop argv false (record args { username = u })
unfolding parse_loop
parse_loop-name u argv args h e = rw (parse_loop, h, e) refl

with_help :
    (args : CliArgs) (b : Bool)
    → finish (record args { help = b || true }) ≡ finish (record args { help = true })
with_help args b = ap (λ c. finish (record args { help = c })) (or_true b)

with_dry_run :
    (args : CliArgs) (b : Bool)
    → finish (record args { dry_run = b || true }) ≡ finish (record args { dry_run = true })
with_dry_run args b = ap (λ c. finish (record args { dry_run = c })) (or_true b)

-- Options alone set what they name and leave the name as it was.
parse_loop-options :
    (ws : List Word) (args : CliArgs)
    → names ws ≡ []
    → parse_loop (flatten ws) false args ≡ finish (options ws args)
unfolding parse_loop classify
parse_loop-options [] args h = refl
parse_loop-options (short_help ∷ ws) args h =
    parse_loop-options ws (record args { help = true }) h
    ∙ with_help (options ws args) (exists is_help ws)
parse_loop-options (long_help ∷ ws) args h =
    parse_loop-options ws (record args { help = true }) h
    ∙ with_help (options ws args) (exists is_help ws)
parse_loop-options (dry_run ∷ ws) args h =
    parse_loop-options ws (record args { dry_run = true }) h
    ∙ with_dry_run (options ws args) (exists is_dry_run ws)
parse_loop-options (config_pair path ∷ ws) args h =
    parse_loop-options ws (record args { config_path = path }) h
parse_loop-options (config_joined path ∷ ws) args h =
    parse_loop-joined path (flatten ws) args
    ∙ parse_loop-options ws (record args { config_path = path }) h
parse_loop-options (name u ∷ ws) args h = cc

-- And with one name among them, that name.
parse_loop-named :
    (ws : List Word) (u : String) (args : CliArgs)
    → classify u ≡ plain
    → (args.username == "") ≡ true
    → names ws ≡ u ∷ []
    → parse_loop (flatten ws) false args ≡ finish (record (options ws args) { username = u })
unfolding parse_loop classify
parse_loop-named [] u args c e h = cc
parse_loop-named (short_help ∷ ws) u args c e h =
    parse_loop-named ws u (record args { help = true }) c e h
    ∙ with_help (record (options ws args) { username = u }) (exists is_help ws)
parse_loop-named (long_help ∷ ws) u args c e h =
    parse_loop-named ws u (record args { help = true }) c e h
    ∙ with_help (record (options ws args) { username = u }) (exists is_help ws)
parse_loop-named (dry_run ∷ ws) u args c e h =
    parse_loop-named ws u (record args { dry_run = true }) c e h
    ∙ with_dry_run (record (options ws args) { username = u }) (exists is_dry_run ws)
parse_loop-named (config_pair path ∷ ws) u args c e h =
    parse_loop-named ws u (record args { config_path = path }) c e h
parse_loop-named (config_joined path ∷ ws) u args c e h =
    parse_loop-joined path (flatten ws) args
    ∙ parse_loop-named ws u (record args { config_path = path }) c e h
parse_loop-named (name v ∷ ws) u args c e h =
    parse_loop-name v (flatten ws) args (ap classify same ∙ c) e
    ∙ parse_loop-options ws (record args { username = v }) none_left
    ∙ ap (λ n. finish (record (options ws args) { username = n })) same
  where
    same : v ≡ u
    same = cc

    none_left : names ws ≡ []
    none_left = cc

abbrev pub configured_or_default : String → String
configured_or_default configured = if configured == "" then "config.json" else configured

finish-named :
    (u path : String) (d h : Bool)
    → (u == "") ≡ false
    → finish (record { username = u; config_path = path; dry_run = d || false; help = h || false })
      ≡ parsed (record { username = u; config_path = path; dry_run = d; help = h })
finish-named u path true true n = refl
finish-named u path true false n = rw n refl
finish-named u path false true n = refl
finish-named u path false false n = rw n refl

-- A command line made of one name, which is not empty and does not look like a flag, and of any
-- options in any order is read back: the name, the path of the last `--config` in either form or else
-- the configured one, and whether `--dry-run` and a help flag occur.
pub parse_args-flatten :
    (configured : String) (ws : List Word) (u : String)
    → names ws ≡ u ∷ []
    → classify u ≡ plain
    → (u == "") ≡ false
    → parse_args configured (flatten ws)
      ≡ parsed (record {
        username = u;
        config_path = last_path ws (configured_or_default configured);
        dry_run = exists is_dry_run ws;
        help = exists is_help ws;
      })
unfolding parse_args
parse_args-flatten configured ws u h c n =
    parse_loop-named ws u _ c refl h
    ∙ finish-named u (last_path ws (configured_or_default configured)) (exists is_dry_run ws)
        (exists is_help ws) n
