-- ===== src/Opencode/Process/Lowest.antt =====
-- Which server the monitor of src/opencode/process.rs tracks.
use palingenesis.Prelude.{
  ℕ, ◌≡◌, ◌∙◌, refl, ap, Bool, true, false, Option, none, some, List, [], ◌∷◌, keep, ok, leb, ◌==◌,
  ==_iff, Bool-cases, inl, inr, if◌then◌else◌,
}
use palingenesis.Prelude.Text.{Text}
use palingenesis.Prelude.Int.{ℤ}
use palingenesis.Monitor.Events.{ProcessInfo}
use palingenesis.Monitor.Process.{ProcessEnumerator}
use palingenesis.Opencode.Process.{
  OpenCodeEvent, insert_by_pid, sort_by_pid, first, OpenCodeMonitorState, track, read, send_unless,
  is_serve, find_opencode_process, start_tracking, stop_tracking, poll_found, emit_exit_event,
  poll_once,
}

-- The lowest ID of a server in a listing.
abbrev pub lower : ℕ → Option ℕ → ℕ
lower n none = n
lower n (some m) = if leb n m then n else m

unfoldable pub lowest : (ProcessInfo → Bool) → List ProcessInfo → Option ℕ
lowest serves [] = none
lowest serves (p ∷ rest) =
    let later = lowest serves rest in if serves p then some (lower p.pid later) else later

abbrev pub pid_of : Option ProcessInfo → Option ℕ
pid_of none = none
pid_of (some p) = some p.pid

first-insert_by_pid :
    (p : ProcessInfo) (l : List ProcessInfo)
    → pid_of (first (insert_by_pid p l)) ≡ some (lower p.pid (pid_of (first l)))
unfolding insert_by_pid
first-insert_by_pid p [] = refl
first-insert_by_pid p (q ∷ rest) = elim (Bool-cases (leb p.pid q.pid)) [
  | inl low ↦ rw low refl
  | inr high ↦ rw high refl
]

first-sort_by_pid :
    (serves : ProcessInfo → Bool) (l : List ProcessInfo)
    → pid_of (first (sort_by_pid (keep serves l))) ≡ lowest serves l
unfolding sort_by_pid lowest
first-sort_by_pid serves [] = refl
first-sort_by_pid serves (p ∷ rest) = elim (Bool-cases (serves p)) [
  | inl serve ↦ rw serve (
      first-insert_by_pid p (sort_by_pid (keep serves rest))
      ∙ ap (λ o. some (lower p.pid o)) (first-sort_by_pid serves rest))
  | inr other ↦ rw other (first-sort_by_pid serves rest)
]

send_unless-tracked :
    (is_cancelled : Bool) (event : OpenCodeEvent) (s : OpenCodeMonitorState)
    → (send_unless is_cancelled event s).tracked_process ≡ s.tracked_process
unfolding send_unless
send_unless-tracked true event s = refl
send_unless-tracked false event s = refl

module _ (cancelled : ℕ → Bool) where
  pub start_tracking-some :
      (p : ProcessInfo) (s : OpenCodeMonitorState)
      → (start_tracking cancelled p s).tracked_process ≡ some p
  unfolding start_tracking
  start_tracking-some p s = send_unless-tracked (cancelled s.reads) _ (track (some p) s)

  pub stop_tracking-none :
      (exit_code : ℕ → Option ℤ) (p : ProcessInfo) (s : OpenCodeMonitorState)
      → (stop_tracking cancelled exit_code p s).tracked_process ≡ none
  unfolding stop_tracking emit_exit_event
  stop_tracking-none exit_code p s = send_unless-tracked (cancelled s.reads) _ (track none s)

module _ (cancelled : ℕ → Bool) where
  poll_found-pid :
      (exit_code : ℕ → Option ℤ) (tracked current : Option ProcessInfo) (s : OpenCodeMonitorState)
      → s.tracked_process ≡ tracked
      → pid_of (poll_found cancelled exit_code tracked current s).tracked_process ≡ pid_of current
  unfolding poll_found
  poll_found-pid exit_code none none s same = ap pid_of same
  poll_found-pid exit_code none (some p) s same = ap pid_of (start_tracking-some cancelled p s)
  poll_found-pid exit_code (some q) none s same =
      ap pid_of (stop_tracking-none cancelled exit_code q s)
  poll_found-pid exit_code (some q) (some p) s same = elim (Bool-cases (q.pid == p.pid)) [
    | inl one ↦ rw (poll_found, one, same) (ap some ((==_iff q.pid p.pid).0 one))
    | inr two ↦
        rw (poll_found, two)
          (ap pid_of (start_tracking-some cancelled p (stop_tracking cancelled exit_code q s)))
  ]

  -- A poll that is not cancelled when it begins, and whose listing works, leaves the server with
  -- the lowest ID of those listed tracked, and none if there is none.
  pub poll_once-lowest :
      (command_name_matches : Text → Bool) (enumerator : ProcessEnumerator)
      (processes : List ProcessInfo) (s : OpenCodeMonitorState)
      → cancelled s.reads ≡ false
      → enumerator.list_opencode_processes ≡ ok processes
      → pid_of (poll_once cancelled command_name_matches enumerator s).tracked_process
        ≡ lowest (is_serve command_name_matches) processes
  unfolding poll_once find_opencode_process
  poll_once-lowest command_name_matches enumerator processes s open_ listed =
      rw (poll_once, open_, find_opencode_process, listed)
        (poll_found-pid enumerator.try_get_exit_code s.tracked_process
            (first (sort_by_pid (keep (is_serve command_name_matches) processes))) (read s) refl
          ∙ first-sort_by_pid (is_serve command_name_matches) processes)
