-- ===== src/Opencode/Process/Tracking.antt =====
-- What the monitor of src/opencode/process.rs tracks, and what its events tell.
use palingenesis.Prelude.{
  ℕ, zero, suc, ◌≡◌, ◌⊎◌, ◌∙◌, refl, ap, arith, Bool, true, false, Option, none, some, List, [],
  ◌∷◌, ◌++◌, ◌==◌, is_some, Bool-cases, Result-cases, inl, inr, if◌then◌else◌,
}
use palingenesis.Prelude.Text.{Text}
use palingenesis.Prelude.Int.{ℤ, pos, negsuc}
use palingenesis.Monitor.Events.{ProcessInfo}
use palingenesis.Monitor.Process.{ProcessEnumerator}
use palingenesis.Opencode.Process.Lowest.{stop_tracking-none}
use palingenesis.Opencode.Process.{
  OpenCodeProcess, from_info, OpenCodeEvent, opencode_started, opencode_stopped, opencode_crashed,
  exit_event, OpenCodeMonitorState, new, track, read, send_unless, send_unless_cancelled,
  find_opencode_process, emit_existing_process, start_tracking, stop_tracking, poll_found,
  emit_exit_event, poll_once, ticks, run_loop,
}

-- What a listener to the events takes to run; there is no answer where the events contradict
-- each other: a start while one runs, or the end of one that does not run.
unfoldable pub heard : OpenCodeEvent → Option OpenCodeProcess → Option (Option OpenCodeProcess)
heard (opencode_started p) none = some (some p)
heard (opencode_started p) (some q) = none
heard (opencode_stopped p reason) none = none
heard (opencode_stopped p reason) (some q) = if p.pid == q.pid then some none else none
heard (opencode_crashed p code) none = none
heard (opencode_crashed p code) (some q) = if p.pid == q.pid then some none else none

abbrev pub then_heard :
    OpenCodeEvent → Option (Option OpenCodeProcess) → Option (Option OpenCodeProcess)
then_heard event none = none
then_heard event (some running) = heard event running

unfoldable pub replay :
    List OpenCodeEvent → Option (Option OpenCodeProcess) → Option (Option OpenCodeProcess)
unfolding heard
replay [] running = running
replay (event ∷ events) running = replay events (then_heard event running)

replay-append :
    (events : List OpenCodeEvent) (event : OpenCodeEvent)
    (running : Option (Option OpenCodeProcess))
    → replay (events ++ event ∷ []) running ≡ then_heard event (replay events running)
unfolding replay
replay-append [] event running = refl
replay-append (e ∷ events) event running = replay-append events event (then_heard e running)

abbrev pub running_of : Option ProcessInfo → Option OpenCodeProcess
running_of none = none
running_of (some p) = some (from_info p)

-- What the events sent so far tell.
abbrev pub told : OpenCodeMonitorState → Option (Option OpenCodeProcess)
told s = replay s.sent (some none)

same_pid : (n : ℕ) → (n == n) ≡ true
same_pid n = ground arith

heard-exit_event :
    (code : Option ℤ) (p : ProcessInfo)
    → heard (exit_event code (from_info p)) (some (from_info p)) ≡ some none
unfolding heard exit_event
heard-exit_event none p = rw (same_pid p.pid) refl
heard-exit_event (some (pos zero)) p = rw (same_pid p.pid) refl
heard-exit_event (some (pos (suc n))) p = rw (same_pid p.pid) refl
heard-exit_event (some (negsuc n)) p = rw (same_pid p.pid) refl

module _ (cancelled : ℕ → Bool) where
  -- The events tell what is tracked; or the token is cancelled, and they do not contradict each
  -- other.
  abbrev pub Tells : OpenCodeMonitorState → Type 0
  Tells s =
      (told s ≡ some (running_of s.tracked_process))
      ⊎ ((cancelled s.reads ≡ true) × (is_some (told s) ≡ true))

  module _ (stays : (n : ℕ) → cancelled n ≡ true → cancelled (suc n) ≡ true) where
    -- What an event that is sent makes of it, if the listener takes it.
    send_unless-Tells :
        (event : OpenCodeEvent) (s : OpenCodeMonitorState) (before after : Option ProcessInfo)
        → s.tracked_process ≡ before
        → then_heard event (some (running_of before)) ≡ some (running_of after)
        → Tells s
        → Tells (send_unless_cancelled cancelled event (track after s))
    unfolding send_unless
    send_unless-Tells event s before after same takes t = go (cancelled s.reads) refl t
      where
        go :
            (b : Bool)
            → cancelled s.reads ≡ b
            → Tells s
            → Tells (send_unless b event (track after s))
        go true c (inl told_) = inr (stays s.reads c, ap is_some told_)
        go true c (inr (c', v)) = inr (stays s.reads c', v)
        go false c (inr (c', v)) = ground (arith, c, c')
        go false c (inl told_) = inl (
            replay-append s.sent event (some none)
            ∙ ap (then_heard event) (told_ ∙ ap (λ o. some (running_of o)) same)
            ∙ takes)

    start_tracking-Tells :
        (p : ProcessInfo) (s : OpenCodeMonitorState)
        → s.tracked_process ≡ none
        → Tells s
        → Tells (start_tracking cancelled p s)
    unfolding start_tracking heard
    start_tracking-Tells p s free t =
        send_unless-Tells (opencode_started (from_info p)) s none (some p) free refl t

    stop_tracking-Tells :
        (exit_code : ℕ → Option ℤ) (p : ProcessInfo) (s : OpenCodeMonitorState)
        → s.tracked_process ≡ some p
        → Tells s
        → Tells (stop_tracking cancelled exit_code p s)
    unfolding stop_tracking emit_exit_event
    stop_tracking-Tells exit_code p s tracks t =
        send_unless-Tells (exit_event (exit_code p.pid) (from_info p)) s (some p) none tracks
          (heard-exit_event (exit_code p.pid) p) t

    poll_found-Tells :
        (exit_code : ℕ → Option ℤ) (tracked current : Option ProcessInfo) (s : OpenCodeMonitorState)
        → s.tracked_process ≡ tracked
        → Tells s
        → Tells (poll_found cancelled exit_code tracked current s)
    unfolding poll_found
    poll_found-Tells exit_code none none s same t = t
    poll_found-Tells exit_code none (some p) s same t = start_tracking-Tells p s same t
    poll_found-Tells exit_code (some q) none s same t = stop_tracking-Tells exit_code q s same t
    poll_found-Tells exit_code (some q) (some p) s same t = elim (Bool-cases (q.pid == p.pid)) [
      | inl one ↦ rw (poll_found, one) t
      | inr two ↦
          rw (poll_found, two)
            (start_tracking-Tells p (stop_tracking cancelled exit_code q s)
              (stop_tracking-none cancelled exit_code q s)
              (stop_tracking-Tells exit_code q s same t))
    ]

    read-Tells : (s : OpenCodeMonitorState) → Tells s → Tells (read s)
    read-Tells s (inl t) = inl t
    read-Tells s (inr (c, v)) = inr (stays s.reads c, v)

    module _ (command_name_matches : Text → Bool) where
      poll_once-Tells :
          (enumerator : ProcessEnumerator) (s : OpenCodeMonitorState)
          → Tells s
          → Tells (poll_once cancelled command_name_matches enumerator s)
      unfolding poll_once
      poll_once-Tells enumerator s t = elim (Bool-cases (cancelled s.reads)) [
        | inl c ↦ rw (poll_once, c) (read-Tells s t)
        | inr open_ ↦ elim (Result-cases (find_opencode_process command_name_matches enumerator)) [
          | inr (e, h) ↦ rw (poll_once, open_, h) (read-Tells s t)
          | inl (found, h) ↦
              rw (poll_once, open_, h)
                (poll_found-Tells enumerator.try_get_exit_code s.tracked_process found (read s) refl
                  (read-Tells s t))
        ]
      ]

      ticks-Tells :
          (polls : List ProcessEnumerator) (s : OpenCodeMonitorState)
          → Tells s
          → Tells (ticks cancelled command_name_matches polls s)
      unfolding ticks
      ticks-Tells [] s t = t
      ticks-Tells (enumerator ∷ polls) s t = elim (Bool-cases (cancelled s.reads)) [
        | inl c ↦ rw (ticks, c) (read-Tells s t)
        | inr open_ ↦
            rw (ticks, open_)
              (ticks-Tells polls _ (poll_once-Tells enumerator (read s) (read-Tells s t)))
      ]

      emit_existing_process-told :
          (enumerator : ProcessEnumerator)
          → let s = emit_existing_process command_name_matches enumerator new in
            told s ≡ some (running_of s.tracked_process)
      unfolding emit_existing_process replay heard
      emit_existing_process-told enumerator =
          elim (Result-cases (find_opencode_process command_name_matches enumerator)) [
            | inr (e, h) ↦ rw h refl
            | inl (none, h) ↦ rw h refl
            | inl (some p, h) ↦ rw h refl
          ]

      -- However the processes come and go, and whenever the monitor is cancelled (a token that is
      -- cancelled stays so), no start is sent while a server runs and no end but that of the
      -- server that was started last; and as long as it is not cancelled, who follows the events
      -- knows exactly the server that is tracked.
      pub run_loop-Tells :
          (first_listing : ProcessEnumerator) (polls : List ProcessEnumerator)
          → Tells (run_loop cancelled command_name_matches first_listing polls)
      unfolding run_loop
      run_loop-Tells first_listing polls =
          ticks-Tells polls (emit_existing_process command_name_matches first_listing new)
            (inl (emit_existing_process-told first_listing))
