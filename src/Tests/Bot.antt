-- ===== src/Tests/Bot.antt =====
-- src/bot and src/notify/dispatcher.rs at concrete commands and channels.
use palingenesis.Prelude.{
  ℕ, ◌+◌, ◌≡◌, refl, Bool, true, false, ◌&&◌, ◌||◌, List, [], ◌∷◌, any, keep, length, none, Result,
  ok, err,
}
use palingenesis.Prelude.Text.{Text, codes, text_eq, split_whitespace, ascii_lower}
use palingenesis.Prelude.Number.{parse_uint}
use palingenesis.Config.Schema.{BotConfig, discord, slack}
use palingenesis.Bot.Auth.{same_platform, for_platform, is_authorized, is_authorized-for_platform}
use palingenesis.Bot.Commands.{logs, from_str, parse_logs_command}
use palingenesis.Notify.Dispatcher.{
  NotificationChannel, dispatch, chunks, on_chunks, failed_names, outcomes_of, send_one, summary_of,
}
use palingenesis.Notify.Dispatcher.Summary.{failing, dispatch-failing}

abbrev config : BotConfig
config = record {
  enabled = true;
  allow_all_users = false;
  discord_application_id = none;
  discord_public_key = none;
  slack_signing_secret = none;
  authorized_users = record { platform = discord; user_id = codes "42" } ∷ [];
}

refused : is_authorized (for_platform config slack) (codes "42") ≡ false
unfolding is_authorized for_platform codes
refused = refl

is_authorized-for_platform_example : is_authorized (for_platform config discord) (codes "42") ≡ (
    config.allow_all_users
    || any
        (λ user. same_platform user.platform discord && text_eq (codes "42") user.user_id)
        config.authorized_users)
is_authorized-for_platform_example = is_authorized-for_platform config discord (codes "42")

command : from_str (codes "/Palin  logs --tail 25\n") ≡ ok (logs 25)
unfolding from_str codes split_whitespace text_eq ascii_lower parse_uint parse_logs_command
command = refl

abbrev earlier : List Text
earlier = codes "-t" ∷ codes "3" ∷ codes "now" ∷ []

accepted : parse_logs_command earlier ≡ ok (logs 3)
unfolding codes text_eq parse_uint parse_logs_command
accepted = refl

abbrev channel : Text → Bool → Result (Unit {0}) ℕ → NotificationChannel ℕ ℕ
channel name enabled answer = record { name = name; is_enabled = enabled; send = λ event. answer }

-- Five enabled channels, of which two fail, and one that is not enabled.
abbrev channels : List (NotificationChannel ℕ ℕ)
channels =
    channel (codes "a") true (ok tt)
    ∷ channel (codes "b") true (err 1)
    ∷ channel (codes "c") false (err 1)
    ∷ channel (codes "d") true (ok tt)
    ∷ channel (codes "e") true (ok tt)
    ∷ channel (codes "f") true (err 2)
    ∷ []

two_failed : (dispatch 0 channels).failed_channels ≡ codes "b" ∷ codes "f" ∷ []
unfolding dispatch chunks on_chunks failed_names outcomes_of send_one summary_of
two_failed = refl

dispatch-failing_example :
    ((dispatch 0 channels).failed_channels ≡ failing 0 (keep (λ c. c.is_enabled) channels))
    × ((dispatch 0 channels).total ≡ length (keep (λ c. c.is_enabled) channels))
    × ((dispatch 0 channels).successes + (dispatch 0 channels).failures
        ≡ (dispatch 0 channels).total)
dispatch-failing_example = dispatch-failing 0 channels
