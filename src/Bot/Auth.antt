-- ===== src/Bot/Auth.antt =====
-- src/bot/auth.rs: who may give commands to the bot. The set of identifiers is a list.
use palingenesis.Prelude.{
  ◌≡◌, refl, Bool, true, false, ◌&&◌, ◌||◌, List, [], ◌∷◌, map, keep, any, arith, if◌then◌else◌,
  inl, inr, Bool-cases,
}
use palingenesis.Config.Schema.{BotConfig, AuthorizedUser, BotPlatform, discord, slack}
use palingenesis.Prelude.Text.{Text, text_eq}

abbrev pub same_platform : BotPlatform → BotPlatform → Bool
same_platform discord discord = true
same_platform slack slack = true
same_platform _ _ = false

pub record BotAuth : Type 0 where
  pub allow_all : Bool
  pub allowed_users : List Text

unfoldable pub for_platform : BotConfig → BotPlatform → BotAuth
for_platform config platform = record {
  allow_all = config.allow_all_users;
  allowed_users =
      map (λ user. user.user_id)
        (keep (λ user. same_platform user.platform platform) config.authorized_users);
}

unfoldable pub is_authorized : BotAuth → Text → Bool
is_authorized auth user_id =
    if auth.allow_all then true else any (text_eq user_id) auth.allowed_users

allowed-users :
    (users : List AuthorizedUser) (platform : BotPlatform) (user_id : Text)
    → any
        (text_eq user_id)
        (map (λ user. user.user_id) (keep (λ user. same_platform user.platform platform) users))
      ≡ any (λ user. same_platform user.platform platform && text_eq user_id user.user_id) users
allowed-users [] platform user_id = refl
allowed-users (user ∷ users) platform user_id =
    elim (Bool-cases (same_platform user.platform platform)) [
      | inl same ↦ rw (same, allowed-users users platform user_id) refl
      | inr other ↦ rw (other, allowed-users users platform user_id) refl
    ]

-- A user may give commands on a platform exactly when the configuration allows all users, or has an
-- entry with that user's identifier for that very platform. An empty list allows nobody by itself.
pub is_authorized-for_platform :
    (config : BotConfig) (platform : BotPlatform) (user_id : Text)
    → is_authorized (for_platform config platform) user_id ≡ (
        config.allow_all_users
        || any
            (λ user. same_platform user.platform platform && text_eq user_id user.user_id)
            config.authorized_users)
unfolding is_authorized for_platform
is_authorized-for_platform config platform user_id =
    rw (allowed-users config.authorized_users platform user_id) (ground arith)
