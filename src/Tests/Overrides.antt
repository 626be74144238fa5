-- ===== src/Tests/Overrides.antt =====
-- src/cli/commands/config.rs with a few variables and files.
use palingenesis.Prelude.{
  ◌≡◌, refl, true, false, Option, none, some, [], ◌∷◌, ok, err, if◌then◌else◌,
}
use palingenesis.Prelude.Text.{
  Text, codes, text_eq, trim, trim_end, trim_start_by, is_whitespace, ascii_lower,
}
use palingenesis.Prelude.Number.{parse_uint, scan, is_digit}
use palingenesis.Prelude.Int.{ℤ}
use palingenesis.Cli.Config.Env.{apply_env, apply_parse_env, apply_bool_env, parse_bool}
use palingenesis.Cli.Config.Overrides.{
  apply_env_overrides, all_of, sections, daemon_overrides, monitoring_overrides, opencode_overrides,
  resume_overrides,
}
use palingenesis.Cli.Config.Files.{
  World, is_yes, confirm_overwrite, handle_init, line_col_from, line_col_from_offset,
}
use palingenesis.Tests.Floats.{floats}
use palingenesis.Tests.Daemon.{config}

abbrev env : Text → Option Text
env key =
    if text_eq key (codes "PALINGENESIS_HTTP_PORT")
    then some (codes "8080")
    else if text_eq key (codes "PALINGENESIS_RESUME_JITTER")
    then some (codes "yes")
    else none

abbrev why : Text → Text
why value = codes "invalid digit found in string"

abbrev no_float : Text → Option ℤ
no_float value = none

shown :
    let (outcome, s) = apply_env_overrides floats env why no_float config in
    (outcome ≡ err (codes "PALINGENESIS_RESUME_JITTER must be true/false"))
    × (s.overrides ≡ (codes "PALINGENESIS_HTTP_PORT", codes "8080") ∷ [])
    × (s.config.daemon.http_port ≡ 8080)
unfolding apply_env_overrides all_of sections daemon_overrides monitoring_overrides
    opencode_overrides resume_overrides apply_env apply_parse_env apply_bool_env parse_bool codes
    text_eq parse_uint scan is_digit
shown = (refl, refl, refl)

abbrev refusing : World
refusing = record {
  path = codes "config.toml";
  answer = ok (codes "n\n");
  has_parent = true;
  create_dir_all = none;
  write = none;
  set_dir_permissions = none;
  set_file_permissions = none;
}

kept :
    (handle_init false refusing (record { file = some (codes "mine"); printed = [] })).1.file
    ≡ some (codes "mine")
unfolding handle_init confirm_overwrite is_yes codes text_eq trim trim_end trim_start_by
    is_whitespace ascii_lower
kept = refl

second_line : line_col_from_offset (codes "a\nbc") 3 ≡ (2, 2)
unfolding line_col_from codes
second_line = refl
