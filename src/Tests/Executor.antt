-- ===== src/Tests/Executor.antt =====
-- src/bot/executor.rs at small logs.
use palingenesis.Prelude.{◌≡◌, refl, none, some, [], ◌∷◌}
use palingenesis.Prelude.Text.{codes}
use palingenesis.Prelude.Number.{decimal, decimal_from}
use palingenesis.Bot.Responses.{truncate}
use palingenesis.Bot.Executor.{cut_bytes, truncate_from, truncate_log_lines, format_duration}

cut_lines :
    truncate_log_lines (codes "abcd" ∷ codes "efgh" ∷ codes "ij" ∷ []) 10
    ≡ some (codes "abcd\nefgh\n...(truncated)")
unfolding truncate_log_lines truncate_from cut_bytes codes
cut_lines = refl

-- A first line that is cut inside a character is a panic.
cut_inside : truncate_log_lines ((97 ∷ 233 ∷ 98 ∷ 98 ∷ []) ∷ []) 5 ≡ none
unfolding truncate_log_lines truncate_from cut_bytes codes
cut_inside = refl

one_hour : format_duration 3_725 ≡ codes "1h 2m 5s"
unfolding format_duration decimal decimal_from codes
one_hour = refl

-- The limit of three bytes is inside the second character.
truncated_inside : truncate (codes "aé€") 2 ≡ none
unfolding truncate cut_bytes codes
truncated_inside = refl

truncated_between : truncate (codes "abcdefgh") 5 ≡ some (codes "ab...")
unfolding truncate cut_bytes codes
truncated_between = refl
