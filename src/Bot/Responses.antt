-- ===== src/Bot/Responses.antt =====
-- src/bot/commands.rs: the answers to the platforms. The building of JSON values is a parameter; no
-- value is a panic, where a text is cut inside a character.
use palingenesis.Prelude.{
  ℕ, ◌-◌, Bool, Option, none, some, List, [], ◌∷◌, ◌++◌, map, leb, if◌then◌else◌,
}
use palingenesis.Prelude.Text.{utf8_len, Text, codes}
use palingenesis.Bot.Executor.{BotCommandField, BotCommandResult, cut_bytes}

-- What the code uses of `serde_json::json!`.
pub record Values (V : Type 0) : Type 0 where
  pub null : V
  pub bool : Bool → V
  pub number : ℕ → V
  pub string : Text → V
  pub array : List V → V
  pub object : List (Text × V) → V

abbrev with_dots : Option Text → Option Text
with_dots none = none
with_dots (some s) = some (s ++ codes "...")

unfoldable pub truncate : Text → ℕ → Option Text
unfolding cut_bytes codes
truncate value limit =
    if leb (utf8_len value) limit
    then some value
    else if leb limit 3
    then cut_bytes limit value
    else with_dots (cut_bytes (limit - 3) value)

abbrev on_some : {A B : Type 0} → Option A → (A → Option B) → Option B
on_some none f = none
on_some (some a) f = f a

module _ {V : Type 0} (json : Values V) where
  abbrev described : Option Text → Option V
  described none = some json.null
  described (some body) = on_some (truncate body 1_800) λ text. some (json.string text)

  abbrev discord_field : BotCommandField → Option V
  discord_field field = on_some (truncate field.name 256) λ name.
      on_some (truncate field.value 1_024) λ value. some (
        json.object (
          (codes "name", json.string name)
          ∷ (codes "value", json.string value)
          ∷ (codes "inline", json.bool field.inline)
          ∷ []))

  abbrev discord_list : List BotCommandField → Option (List V)
  discord_list [] = some []
  discord_list (field ∷ rest) =
      on_some (discord_field field) λ v. on_some (discord_list rest) λ vs. some (v ∷ vs)

  abbrev discord_fields : List BotCommandField → Option V
  discord_fields [] = some json.null
  discord_fields (field ∷ rest) = on_some (discord_list (field ∷ rest)) λ vs. some (json.array vs)

  unfoldable pub to_discord_response : BotCommandResult → Option V
  unfolding truncate
  to_discord_response r = on_some (truncate r.title 256) λ title.
      on_some (described r.body) λ description. on_some (discord_fields r.fields) λ fields.
        let embed = json.object (
          (codes "title", json.string title)
          ∷ (codes "description", description)
          ∷ (codes "fields", fields)
          ∷ []) in
        some (
          json.object (
            (codes "type", json.number 4)
            ∷ (codes "data", json.object ((codes "embeds", json.array (embed ∷ [])) ∷ []))
            ∷ []))

  abbrev markdown : Text → V
  markdown text =
      json.object
        ((codes "type", json.string (codes "mrkdwn")) ∷ (codes "text", json.string text) ∷ [])

  abbrev section : List V → V
  section fields =
      json.object
        ((codes "type", json.string (codes "section")) ∷ (codes "fields", json.array fields) ∷ [])

  abbrev slack_field : BotCommandField → V
  slack_field field = markdown (codes "*" ++ field.name ++ codes "*\n" ++ field.value)

  -- The fields stand only where there is no body.
  abbrev slack_blocks : Option Text → List BotCommandField → Option (List V)
  slack_blocks (some body) fields =
      on_some (truncate body 2_900) λ text. some (section (markdown text ∷ []) ∷ [])
  slack_blocks none [] = some []
  slack_blocks none (field ∷ rest) = some (section (map slack_field (field ∷ rest)) ∷ [])

  unfoldable pub to_slack_response : BotCommandResult → Option V
  unfolding truncate
  to_slack_response r = on_some (truncate r.title 150) λ title.
      on_some (slack_blocks r.body r.fields) λ blocks.
        let header = json.object (
          (codes "type", json.string (codes "header"))
          ∷ (
            codes "text",
            json.object (
                (codes "type", json.string (codes "plain_text"))
                ∷ (codes "text", json.string title)
                ∷ []),
          )
          ∷ []) in
        some (
          json.object (
            (codes "response_type", json.string (codes "ephemeral"))
            ∷ (codes "blocks", json.array (header ∷ blocks))
            ∷ []))
