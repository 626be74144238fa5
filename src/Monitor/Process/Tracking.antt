-- ===== src/Monitor/Process/Tracking.antt =====
-- What the process monitor of src/monitor/process.rs tracks, and what its events tell.
use palingenesis.Prelude.{
  ℕ, ◌≡◌, ◌∙◌, refl, sym, ap, arith, Bool, true, false, not, ◌&&◌, ◌||◌, Option, none, some, List,
  [], ◌∷◌, ◌++◌, ok, ◌==◌, ==_iff, any, Bool-cases, Option-cases, Result-cases, inl, inr,
}
use palingenesis.Prelude.Int.{ℤ}
use palingenesis.Monitor.Events.{ProcessInfo, ProcessEvent, started, stopped}
use palingenesis.Monitor.Process.{
  ProcessEnumerator, ProcessMonitorState, Tracked, has, insert, remove, new, send, track, read,
  find, emit_all, emit_existing_processes, start_new, stop_gone, gone, stop_unless, poll_once,
  poll_listed, ticks, run_loop,
}

-- What a listener to the events takes to run.
unfoldable pub heard : ProcessEvent → Tracked → Tracked
unfolding insert remove
heard (started info) tracked = insert info tracked
heard (stopped info exit_code) tracked = remove info.pid tracked

unfoldable pub replay : List ProcessEvent → Tracked → Tracked
unfolding heard
replay [] tracked = tracked
replay (event ∷ events) tracked = replay events (heard event tracked)

replay-append :
    (events : List ProcessEvent) (event : ProcessEvent) (tracked : Tracked)
    → replay (events ++ event ∷ []) tracked ≡ heard event (replay events tracked)
unfolding replay
replay-append [] event tracked = refl
replay-append (e ∷ events) event tracked = replay-append events event (heard e tracked)

-- The events sent so far tell exactly what is tracked.
abbrev Told : ProcessMonitorState → Type 0
Told s = replay s.sent [] ≡ s.tracked_processes

started-Told :
    (info : ProcessInfo) (s : ProcessMonitorState)
    → Told s
    → Told (send (started info) (read (track info s)))
unfolding heard
started-Told info s h = replay-append s.sent (started info) [] ∙ ap (insert info) h

emit_all-Told :
    (initial : List ProcessInfo) (s : ProcessMonitorState) → Told s → Told (emit_all initial s)
unfolding emit_all heard
emit_all-Told [] s h = h
emit_all-Told (info ∷ rest) s h =
    emit_all-Told rest _ (replay-append s.sent (started info) [] ∙ ap (insert info) h)

find-pid :
    (pid : ℕ) (tracked : Tracked) (info : ProcessInfo)
    → find pid tracked ≡ some info
    → info.pid ≡ pid
find-pid pid [] info h = cc
find-pid pid (first ∷ rest) info h = elim (Bool-cases (first.pid == pid)) [
  | inl same ↦ ground (arith, h)
  | inr differs ↦ find-pid pid rest info (ground arith)
]

has-remove :
    (pid q : ℕ) (tracked : Tracked) → has pid (remove q tracked) ≡ has pid tracked && not (q == pid)
unfolding remove
has-remove pid q [] = refl
has-remove pid q (info ∷ rest) = ground (arith, has-remove pid q rest)

has-insert :
    (pid : ℕ) (info : ProcessInfo) (tracked : Tracked)
    → has pid (insert info tracked) ≡ (info.pid == pid) || has pid tracked
unfolding insert
has-insert pid info tracked = ground (arith, has-remove pid info.pid tracked)

find-none : (pid : ℕ) (tracked : Tracked) → find pid tracked ≡ none → has pid tracked ≡ false
find-none pid [] h = refl
find-none pid (info ∷ rest) h = elim (Bool-cases (info.pid == pid)) [
  | inl same ↦ ground arith
  | inr differs ↦ rw differs (find-none pid rest (ground arith))
]

and_false : (b : Bool) → b && false ≡ false
and_false true = refl
and_false false = refl

-- The IDs that are tracked and not listed.
gone-any :
    (pid : ℕ) (current : List ProcessInfo) (tracked : Tracked)
    → any (λ q. q == pid) (gone current tracked) ≡ has pid tracked && not (has pid current)
gone-any pid current [] = refl
gone-any pid current (info ∷ rest) = elim (Bool-cases (info.pid == pid)) [
  | inl same ↦
      let listed : has info.pid current ≡ has pid current =
        ap (λ q. has q current) ((==_iff info.pid pid).0 same) in
      elim (Bool-cases (has pid current)) [
        | inl here ↦
            rw (listed, here)
              (gone-any pid current rest ∙ rw (here, same) (and_false (has pid rest)))
        | inr away ↦ rw (listed, away, same) refl
      ]
  | inr differs ↦ elim (Bool-cases (has info.pid current)) [
    | inl here ↦ rw (here, differs) (gone-any pid current rest)
    | inr away ↦ rw (away, differs) (gone-any pid current rest)
  ]
]

already : (a r same : Bool) → (same ≡ true → a ≡ true) → a || r ≡ a || (same || r)
already a r false h = refl
already a r true h = rw (h refl) refl

swap_or : (same a r : Bool) → (same || a) || r ≡ a || (same || r)
swap_or true true r = refl
swap_or true false r = refl
swap_or false a r = refl

untracked : (a r same : Bool) → (same ≡ true → a ≡ false) → a && not r ≡ a && not (same || r)
untracked a r false h = refl
untracked a r true h = rw (h refl) refl

both_gone : (a same r : Bool) → (a && not same) && not r ≡ a && not (same || r)
both_gone true true r = refl
both_gone true false r = refl
both_gone false same r = refl

listed_or : (a c : Bool) → (a || c) && not ((a || c) && not c) ≡ c
listed_or true true = refl
listed_or true false = refl
listed_or false true = refl
listed_or false false = refl

module _ (cancelled : ℕ → Bool) (running : (n : ℕ) → cancelled n ≡ false) where
  -- No poll returns early.
  start_new-runs :
      (current : List ProcessInfo) (s : ProcessMonitorState)
      → (start_new cancelled current s).0 ≡ false
  unfolding start_new
  start_new-runs [] s = refl
  start_new-runs (info ∷ rest) s = elim (Bool-cases (has info.pid s.tracked_processes)) [
    | inl tracked ↦ rw (start_new, tracked) (start_new-runs rest s)
    | inr fresh ↦ rw (start_new, fresh, running s.reads) (start_new-runs rest _)
  ]

  start_new-Told :
      (current : List ProcessInfo) (s : ProcessMonitorState)
      → Told s
      → Told (start_new cancelled current s).1
  unfolding start_new
  start_new-Told [] s h = h
  start_new-Told (info ∷ rest) s h = elim (Bool-cases (has info.pid s.tracked_processes)) [
    | inl tracked ↦ rw (start_new, tracked) (start_new-Told rest s h)
    | inr fresh ↦
        rw (start_new, fresh, running s.reads) (start_new-Told rest _ (started-Told info s h))
  ]

  start_new-has :
      (pid : ℕ) (current : List ProcessInfo) (s : ProcessMonitorState)
      → has pid (start_new cancelled current s).1.tracked_processes
        ≡ has pid s.tracked_processes || has pid current
  unfolding start_new
  start_new-has pid [] s = ground arith
  start_new-has pid (info ∷ rest) s = elim (Bool-cases (has info.pid s.tracked_processes)) [
    | inl tracked ↦
        rw (start_new, tracked)
          (start_new-has pid rest s
            ∙ already (has pid s.tracked_processes) (has pid rest) (info.pid == pid) (λ same.
              ap (λ q. has q s.tracked_processes) (sym ((==_iff info.pid pid).0 same)) ∙ tracked))
    | inr fresh ↦
        rw (start_new, fresh, running s.reads)
          (start_new-has pid rest _
            ∙ ap (λ b. b || has pid rest) (has-insert pid info s.tracked_processes)
            ∙ swap_or (info.pid == pid) (has pid s.tracked_processes) (has pid rest))
  ]

  stop_gone-has :
      (exit_code : ℕ → Option ℤ) (pid : ℕ) (l : List ℕ) (s : ProcessMonitorState)
      → has pid (stop_gone cancelled exit_code l s).tracked_processes
        ≡ has pid s.tracked_processes && not (any (λ q. q == pid) l)
  unfolding stop_gone
  stop_gone-has exit_code pid [] s = ground arith
  stop_gone-has exit_code pid (q ∷ rest) s = elim (Option-cases (find q s.tracked_processes)) [
    | inl absent ↦
        rw (stop_gone, absent)
          (stop_gone-has exit_code pid rest s
            ∙ untracked (has pid s.tracked_processes) (any (λ p. p == pid) rest) (q == pid) (λ same.
              ap (λ p. has p s.tracked_processes) (sym ((==_iff q pid).0 same))
              ∙ find-none q s.tracked_processes absent))
    | inr (info, here) ↦
        rw (stop_gone, here, running s.reads)
          (stop_gone-has exit_code pid rest _
            ∙ ap (λ b. b && not (any (λ p. p == pid) rest)) (has-remove pid q s.tracked_processes)
            ∙ both_gone (has pid s.tracked_processes) (q == pid) (any (λ p. p == pid) rest))
  ]

  stop_gone-Told :
      (exit_code : ℕ → Option ℤ) (l : List ℕ) (s : ProcessMonitorState)
      → Told s
      → Told (stop_gone cancelled exit_code l s)
  unfolding stop_gone heard
  stop_gone-Told exit_code [] s h = h
  stop_gone-Told exit_code (pid ∷ rest) s h = elim (Option-cases (find pid s.tracked_processes)) [
    | inl absent ↦ rw (stop_gone, absent) (stop_gone-Told exit_code rest s h)
    | inr (info, here) ↦
        let told =
          replay-append s.sent (stopped info (exit_code pid)) []
          ∙ ap (remove info.pid) h
          ∙ ap (λ q. remove q s.tracked_processes) (find-pid pid s.tracked_processes info here) in
        rw (stop_gone, here, running s.reads) (stop_gone-Told exit_code rest _ told)
  ]

  -- The second loop follows the first.
  poll_listed-ok :
      (exit_code : ℕ → Option ℤ) (current : List ProcessInfo) (s : ProcessMonitorState)
      → let found = (start_new cancelled current s).1 in
        poll_listed cancelled exit_code (ok current) s
        ≡ stop_gone cancelled exit_code (gone current found.tracked_processes) found
  poll_listed-ok exit_code current s =
      ap
        (λ early.
          stop_unless cancelled exit_code current (early, (start_new cancelled current s).1))
        (start_new-runs current s)

  -- After a poll that is not cancelled, and whose enumeration works, what is tracked is what was
  -- listed.
  poll_once-has :
      (enumerator : ProcessEnumerator) (current : List ProcessInfo) (s : ProcessMonitorState)
      → (pid : ℕ) → enumerator.list_opencode_processes ≡ ok current
      → has pid (poll_once cancelled enumerator s).tracked_processes ≡ has pid current
  unfolding poll_once
  poll_once-has enumerator current s pid listed =
      let exit_code = enumerator.try_get_exit_code in
      let found = (start_new cancelled current (read s)).1 in
      let polled : poll_once cancelled enumerator s
          ≡ poll_listed cancelled exit_code (ok current) (read s) =
        rw (poll_once, running s.reads, listed) refl in
      ap (λ t. has pid t.tracked_processes) (polled ∙ poll_listed-ok exit_code current (read s))
      ∙ stop_gone-has exit_code pid (gone current found.tracked_processes) found
      ∙ ap (λ b. has pid found.tracked_processes && not b)
          (gone-any pid current found.tracked_processes)
      ∙ ap (λ b. b && not (b && not (has pid current))) (start_new-has pid current (read s))
      ∙ listed_or (has pid s.tracked_processes) (has pid current)

  poll_once-Told :
      (enumerator : ProcessEnumerator) (s : ProcessMonitorState)
      → Told s
      → Told (poll_once cancelled enumerator s)
  unfolding poll_once
  poll_once-Told enumerator s h = elim (Result-cases enumerator.list_opencode_processes) [
    | inr (e, bad) ↦ rw (poll_once, running s.reads, bad) h
    | inl (current, listed) ↦
        let told =
          stop_gone-Told enumerator.try_get_exit_code _ _ (start_new-Told current (read s) h) in
        rw
          (
            poll_once,
            running s.reads,
            listed,
            poll_listed-ok enumerator.try_get_exit_code current (read s),
          )
          told
  ]

  ticks-Told :
      (polls : List ProcessEnumerator) (s : ProcessMonitorState)
      → Told s
      → Told (ticks cancelled polls s)
  unfolding ticks
  ticks-Told [] s h = h
  ticks-Told (enumerator ∷ rest) s h =
      rw (ticks, running s.reads) (ticks-Told rest _ (poll_once-Told enumerator (read s) h))

  -- As long as the monitor is not cancelled, its events alone tell exactly which processes it tracks,
  -- however often the enumeration fails.
  pub run_loop-replay :
      (first : ProcessEnumerator) (polls : List ProcessEnumerator)
      → let s = run_loop cancelled first polls in replay s.sent [] ≡ s.tracked_processes
  unfolding run_loop emit_existing_processes replay
  run_loop-replay first polls = elim (Result-cases first.list_opencode_processes) [
    | inl (initial, listed) ↦
        rw (run_loop, emit_existing_processes, listed)
          (ticks-Told polls (emit_all initial new) (emit_all-Told initial new refl))
    | inr (e, bad) ↦ rw (run_loop, emit_existing_processes, bad) (ticks-Told polls new refl)
  ]
