-- ===== src/Notify/Dispatcher/Summary.antt =====
-- The summary of `dispatch` in src/notify/dispatcher.rs.
use mathlib.Core.List.{append-nil, append_assoc}
use palingenesis.Prelude.{
  ◌+◌, ◌≤◌, ◌≡◌, ◌∙◌, refl, ap, sym, List, [], ◌∷◌, ◌++◌, ok, err, keep, length, arith,
}
use palingenesis.Prelude.Text.{Text}
use palingenesis.Notify.Dispatcher.{
  NotificationChannel, summary_of, chunks, send_one, outcomes_of, failed_names, on_chunks, dispatch,
}

module _ {E X : Type 0} (event : E) where
  -- The names of the channels that fail, one by one.
  abbrev pub failing : List (NotificationChannel E X) → List Text
  failing [] = []
  failing (channel ∷ rest) = elim (channel.send event) [
    | ok _ ↦ failing rest
    | err _ ↦ channel.name ∷ failing rest
  ]

  abbrev enabled : List (NotificationChannel E X) → List (NotificationChannel E X)
  enabled channels = keep (λ channel. channel.is_enabled) channels

  one_by_one :
      (channel : NotificationChannel E X) (rest : List (NotificationChannel E X))
      → failing (channel ∷ rest) ≡ failed_names (send_one event channel ∷ []) ++ failing rest
  unfolding failed_names send_one
  one_by_one channel rest = ground arith

  length-failing :
      (channels : List (NotificationChannel E X)) → length (failing channels) ≤ length channels
  length-failing [] = omega arith
  length-failing (channel ∷ rest) = ground (arith, length-failing rest)

  failing-append :
      (xs ys : List (NotificationChannel E X)) → failing (xs ++ ys) ≡ failing xs ++ failing ys
  failing-append [] ys = refl
  failing-append (channel ∷ xs) ys = ground (arith, failing-append xs ys)

  -- A chunk of at most four channels.
  chunk_outcomes :
      (chunk : List (NotificationChannel E X))
      → length chunk ≤ 4
      → failed_names (outcomes_of event chunk) ≡ failing chunk
  unfolding failed_names outcomes_of send_one
  chunk_outcomes [] h = refl
  chunk_outcomes (a ∷ []) h = ground arith
  chunk_outcomes (a ∷ b ∷ []) h = ground arith
  chunk_outcomes (a ∷ b ∷ c ∷ []) h = ground arith
  chunk_outcomes (a ∷ b ∷ c ∷ d ∷ []) h = ground arith
  chunk_outcomes (a ∷ b ∷ c ∷ d ∷ e ∷ rest) h = absurd (omega arith)

  collects :
      (channels : List (NotificationChannel E X)) (acc : List Text)
      → on_chunks event (chunks channels) acc ≡ acc ++ failing channels
  unfolding on_chunks chunks
  collects [] acc = sym (append-nil acc)
  collects (a ∷ []) acc = ap (λ ns. acc ++ ns) (chunk_outcomes (a ∷ []) (omega arith))
  collects (a ∷ b ∷ []) acc = ap (λ ns. acc ++ ns) (chunk_outcomes (a ∷ b ∷ []) (omega arith))
  collects (a ∷ b ∷ c ∷ []) acc =
      ap (λ ns. acc ++ ns) (chunk_outcomes (a ∷ b ∷ c ∷ []) (omega arith))
  collects (a ∷ b ∷ c ∷ d ∷ rest) acc =
      let chunk = a ∷ b ∷ c ∷ d ∷ [] in
      collects rest (acc ++ failed_names (outcomes_of event chunk))
      ∙ append_assoc acc (failed_names (outcomes_of event chunk)) (failing rest)
      ∙ ap (λ ns. acc ++ (ns ++ failing rest)) (chunk_outcomes chunk (omega arith))
      ∙ ap (λ ns. acc ++ ns) (sym (failing-append chunk rest))

  -- Sending four at a time gives what sending to the enabled channels one by one gives: the summary
  -- names exactly the enabled channels that fail, in their order, counts the enabled ones, and its
  -- successes and failures add up to them.
  pub dispatch-failing :
      (channels : List (NotificationChannel E X))
      → let summary = dispatch event channels in
        (summary.failed_channels ≡ failing (enabled channels))
        × (summary.total ≡ length (enabled channels))
        × (summary.successes + summary.failures ≡ summary.total)
  unfolding dispatch summary_of
  dispatch-failing channels =
      let all_failed = collects (enabled channels) [] in
      (all_failed, refl, rw all_failed (omega (arith, length-failing (enabled channels))))
