-- ===== src/Cli/Config/Env.antt =====
-- The variables of the environment that override one value each: the helpers of
-- src/cli/commands/config.rs. The environment gives the value of a variable, if it is set to a text;
-- the reading of a float is a parameter.
use palingenesis.Prelude.{
  Bool, true, false, Option, none, some, List, [], ◌∷◌, ◌++◌, map, keep, not, ok, err,
  if◌then◌else◌,
}
use palingenesis.Prelude.Io.{Io}
use palingenesis.Prelude.Text.{Text, codes, text_eq, is_empty, split, trim}
use palingenesis.Config.Schema.{Config, OtelConfig}

-- What the overrides work on. The copy of the section `otel` is put back at the end.
pub record Shown (F : Type 0) : Type 0 where
  pub config : Config F
  pub overrides : List (Text × Text)
  pub otel_config : Option (OtelConfig F)
  pub otel_override : Bool

abbrev pub Step : Type 0 → Type 0
Step F = Io (Shown F) Text (Unit {0})

-- `value.parse::<bool>()`
unfoldable pub parse_bool : Text → Option Bool
unfolding codes text_eq
parse_bool value =
    if text_eq value (codes "true")
    then some true
    else if text_eq value (codes "false")
    then some false
    else none

-- The items of a list.
abbrev pub items : Text → List Text
items value = keep (λ item. not (is_empty item)) (map trim (split (codes ",") value))

module _ {F : Type 0} (env : Text → Option Text) where
  abbrev pub push : Text → Text → Shown F → Shown F
  push key value s = record s { overrides = s.overrides ++ (key, value) ∷ [] }

  -- A variable that is set is applied to the state.
  abbrev pub when_set : Option Text → (Text → Step F) → Step F
  when_set none apply s = (ok tt, s)
  when_set (some value) apply s = apply value s

  abbrev pub parsed_into :
      {A : Type 0} → Text → Text → Text → (A → Shown F → Shown F) → Option A → Step F
  parsed_into key value message set none s = (err message, s)
  parsed_into key value message set (some a) s = (ok tt, push key value (set a s))

  -- `apply_string_env`, `apply_path_env_option`, `apply_path_env_value`, `apply_list_env`: the
  -- value is taken as it is.
  unfoldable pub apply_env : Text → (Text → Shown F → Shown F) → Step F
  apply_env key set = when_set (env key) λ value s. (ok tt, push key value (set value s))

  -- `apply_parse_env` and `apply_option_parse_env`, with the message of a value that cannot be read.
  unfoldable pub apply_parse_env :
      {A : Type 0}
      → (Text → Option A)
      → (message : Text → Text) → Text
      → (A → Shown F → Shown F)
      → Step F
  apply_parse_env read message key set =
      when_set (env key) λ value. parsed_into key value (message value) set (read value)

  unfoldable pub apply_bool_env : Text → (Bool → Shown F → Shown F) → Step F
  unfolding parse_bool apply_parse_env
  apply_bool_env key set =
      apply_parse_env parse_bool (λ value. key ++ codes " must be true/false") key set
