-- ===== src/Notify/Dispatcher.antt =====
-- src/notify/dispatcher.rs: an event goes to all enabled channels, four at a time.
-- A channel is its name, whether it is enabled, and its answer to an event.
pub mod Summary
use palingenesis.Prelude.{ℕ, ◌-◌, Bool, List, [], ◌∷◌, ◌++◌, Result, ok, err, keep, length}
use palingenesis.Prelude.Text.{Text}

pub record NotificationChannel (E X : Type 0) : Type 0 where
  pub name : Text
  pub is_enabled : Bool
  pub send : E → Result (Unit {0}) X

pub record DispatchSummary : Type 0 where
  pub total : ℕ
  pub successes : ℕ
  pub failures : ℕ
  pub failed_channels : List Text

unfoldable pub summary_of : ℕ → List Text → DispatchSummary
summary_of total failures = record {
  total = total;
  successes = total - length failures;
  failures = length failures;
  failed_channels = failures;
}

-- `chunks(4)`
unfoldable pub chunks : {A : Type 0} → List A → List (List A)
chunks [] = []
chunks (a ∷ []) = (a ∷ []) ∷ []
chunks (a ∷ b ∷ []) = (a ∷ b ∷ []) ∷ []
chunks (a ∷ b ∷ c ∷ []) = (a ∷ b ∷ c ∷ []) ∷ []
chunks (a ∷ b ∷ c ∷ d ∷ rest) = (a ∷ b ∷ c ∷ d ∷ []) ∷ chunks rest

-- `ChannelOutcome`
abbrev pub Outcome : Type 0 → Type 0
Outcome X = Text × Result (Unit {0}) X

-- The names of the outcomes that failed.
unfoldable pub failed_names : {X : Type 0} → List (Outcome X) → List Text
failed_names [] = []
failed_names ((name, ok _) ∷ rest) = failed_names rest
failed_names ((name, err _) ∷ rest) = name ∷ failed_names rest

module _ {E X : Type 0} (event : E) where
  unfoldable pub send_one : NotificationChannel E X → Outcome X
  send_one channel = (channel.name, channel.send event)

  -- The outcomes of a chunk, in the order of its channels, by its length.
  unfoldable pub outcomes_of : List (NotificationChannel E X) → List (Outcome X)
  outcomes_of [] = []
  outcomes_of (a ∷ []) = send_one a ∷ []
  outcomes_of (a ∷ b ∷ []) = send_one a ∷ send_one b ∷ []
  outcomes_of (a ∷ b ∷ c ∷ []) = send_one a ∷ send_one b ∷ send_one c ∷ []
  outcomes_of (a ∷ b ∷ c ∷ d ∷ _) = send_one a ∷ send_one b ∷ send_one c ∷ send_one d ∷ []

  unfoldable pub on_chunks : List (List (NotificationChannel E X)) → List Text → List Text
  unfolding outcomes_of failed_names
  on_chunks [] failures = failures
  on_chunks (chunk ∷ rest) failures = on_chunks rest (failures ++ failed_names (outcomes_of chunk))

  unfoldable pub dispatch : List (NotificationChannel E X) → DispatchSummary
  unfolding on_chunks summary_of
  dispatch channels =
      let enabled = keep (λ channel. channel.is_enabled) channels in
      summary_of (length enabled) (on_chunks (chunks enabled) [])
