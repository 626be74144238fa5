-- ===== src/Daemon/Pid/Acquire.antt =====
-- How `acquire` of src/daemon/pid.rs ends.
use mathlib.Core.Path.{subst}
use palingenesis.Prelude.{
  ℕ, ◌≡◌, refl, Bool, true, false, Option, none, some, [], Result, ok, err, is_some, or_else,
  get_or, sym, arith, Bool-cases, Option-cases, Result-cases, inl, inr,
}
use palingenesis.Prelude.Io.{◌>>◌, then_run, call_step}
use palingenesis.Prelude.Text.{Text}
use palingenesis.Prelude.Number.{decimal}
use palingenesis.Monitor.Frontmatter.{IoError}
use palingenesis.Daemon.Pid.{
  PidError, already_running, io, PidFile, Look, Faults, Step, call, set_file, read_text, remove,
  handle_existing_pid_file, race, open_again, open_new, write_pid, check_existing, acquire,
}

-- The look at a file finds no process that runs.
abbrev pub Idle : (ℕ → Bool) → Look → Option Text → Type 0
Idle running look file = (pid : ℕ) → read_text look.read file ≡ ok pid → running pid ≡ false

-- The same of the second look, at a file that was there when the first opening failed.
abbrev pub IdleAgain : (ℕ → Bool) → Faults → Option Text → Type 0
IdleAgain running faults none = Unit
IdleAgain running faults (some text) =
    Idle running faults.second (get_or faults.changed (some text))

-- How an attempt ends: none of its looks found a process that runs, and the file holds the own ID,
-- or what others have replaced it with; or another process runs, whose ID the file holds; or a call
-- failed. Only the first sets the flag.
pub data AcquireEnd (running : ℕ → Bool) (own : ℕ) (faults : Faults) (s : PidFile)
    (p : Result (Unit {0}) PidError × PidFile) : Type 0 where
  got :
      p.0 ≡ ok tt
      → Idle running faults.first s.file
      → IdleAgain running faults faults.raced
      → p.1.file ≡ get_or faults.replaced (some (decimal own))
      → p.1.acquired ≡ true
      → AcquireEnd running own faults s p
  refused :
      (pid : ℕ)
      → p.0 ≡ err (already_running pid)
      → running pid ≡ true
      → read_text none p.1.file ≡ ok pid
      → p.1.acquired ≡ s.acquired
      → AcquireEnd running own faults s p
  failed :
      (e : IoError)
      → p.0 ≡ err (io e)
      → p.1.acquired ≡ s.acquired
      → AcquireEnd running own faults s p

read_text-ok :
    (fault : Option IoError) (text : Option Text) (pid : ℕ)
    → read_text fault text ≡ ok pid
    → read_text none text ≡ ok pid
unfolding read_text
read_text-ok none text pid h = h
read_text-ok (some e) text pid h = cc

no_file-Idle :
    (running : ℕ → Bool) (look : Look) (file : Option Text) → file ≡ none → Idle running look file
unfolding read_text
no_file-Idle running look file absent pid reads = elim (Option-cases look.read) [
  | inl works ↦ absurd (ground arith)
  | inr (e, bad) ↦ absurd (ground arith)
]

module _ (running : ℕ → Bool) (own : ℕ) (faults : Faults) (start : PidFile) where
  abbrev End : Result (Unit {0}) PidError × PidFile → Type 0
  End = AcquireEnd running own faults start

  -- The rest of an attempt ends well from a state without the file.
  abbrev EndsWithout : Step (Unit {0}) → Type 0
  EndsWithout k = (s : PidFile) → s.file ≡ none → s.acquired ≡ start.acquired → End (k s)

  call_end :
      (fault : Option IoError) (k : Step (Unit {0})) (s : PidFile)
      → s.acquired ≡ start.acquired
      → End (k s)
      → End ((call fault >> k) s)
  call_end fault k s h g = call_step End io fault k s (λ e. failed e refl h) g

  remove_end :
      (fault : Option IoError) (k : Step (Unit {0})) (s : PidFile)
      → s.acquired ≡ start.acquired
      → EndsWithout k
      → End ((remove fault >> k) s)
  unfolding remove
  remove_end fault k s h g = elim (Option-cases s.file) [
    | inl absent ↦ rw (remove, absent) (g s absent h)
    | inr (text, here) ↦ elim (Option-cases fault) [
      | inl works ↦ rw (remove, here, works) (g (record s { file = none }) refl h)
      | inr (e, bad) ↦ rw (remove, here, bad) (failed e refl h)
    ]
  ]

  look_end :
      (look : Look) (k : Step (Unit {0})) (s : PidFile)
      → s.acquired ≡ start.acquired
      → (Idle running look s.file → EndsWithout k)
      → End ((handle_existing_pid_file running own look >> k) s)
  unfolding handle_existing_pid_file
  look_end look k s h g = elim (Result-cases (read_text look.read s.file)) [
    | inr (e, bad) ↦
        rw (handle_existing_pid_file, bad)
          (remove_end look.remove k s h (g (λ pid reads. absurd cc)))
    | inl (pid, good) ↦ elim (Bool-cases (running pid)) [
      | inl alive ↦
          rw (handle_existing_pid_file, good, alive)
            (refused pid refl alive (read_text-ok look.read s.file pid good) h)
      | inr dead ↦
          rw (handle_existing_pid_file, good, dead)
            (remove_end look.remove k s h (g (λ other reads. cc)))
    ]
  ]

  check_end :
      (k : Step (Unit {0}))
      → (Idle running faults.first start.file → EndsWithout k)
      → End ((check_existing running own faults (is_some start.file) >> k) start)
  check_end k g = by_file start.file refl
    where
      by_file :
          (file : Option Text)
          → start.file ≡ file
          → End ((check_existing running own faults (is_some file) >> k) start)
      by_file none absent =
          g (no_file-Idle running faults.first start.file absent) start absent refl
      by_file (some text) here = look_end faults.first k start refl g

  -- The calls behind the opening.
  finish :
      Idle running faults.first start.file
      → IdleAgain running faults faults.raced
      → (s : PidFile) → s.acquired ≡ start.acquired
      → End (
          (do
            write_pid running own faults.replaced faults.write
            call faults.sync
            call faults.permissions
            λ s. (ok tt, record s { acquired = true }))
            s)
  finish idle again s h = written faults.write
    where
      done : PidFile
      done = record s { file = get_or faults.replaced (some (decimal own)) }

      written :
          (fault : Option (IoError × ℕ))
          → End (
              (do
                write_pid running own faults.replaced fault
                call faults.sync
                call faults.permissions
                λ s. (ok tt, record s { acquired = true }))
                s)
      written (some (e, n)) = failed e refl h
      written none =
          call_end faults.sync _ done h
            (call_end faults.permissions _ done h (got refl idle again refl refl))

  then_assoc :
      (p : Result (Unit {0}) PidError × PidFile) (a b : Step (Unit {0}))
      → End (then_run p (λ _. a >> b))
      → End (then_run (then_run p (λ _. a)) (λ _. b))
  then_assoc (ok u, s) a b e = e
  then_assoc (err x, s) a b e = e

  -- `create_new` where nothing stands in the way.
  create_end :
      (fault : Option IoError) (k : Step (Unit {0})) (s : PidFile)
      → s.acquired ≡ start.acquired
      → End (k (record s { file = some [] }))
      → End (((call fault >> set_file (some [])) >> k) s)
  create_end none k s h g = g
  create_end (some e) k s h g = failed e refl h

  again_end :
      (exists : Bool) (k : Step (Unit {0})) (s : PidFile)
      → s.acquired ≡ start.acquired
      → End (k (record s { file = some [] }))
      → End ((open_again running own faults exists >> k) s)
  again_end true k s h g = failed faults.exists_error refl h
  again_end false k s h g = create_end faults.open_second k s h g

  -- The opening, once another process may have created the file.
  open_end :
      (k : Step (Unit {0}))
      → (IdleAgain running faults faults.raced
          → (s : PidFile) → s.acquired ≡ start.acquired
          → End (k s))
      → (s : PidFile) → s.file ≡ faults.raced
      → s.acquired ≡ start.acquired
      → End ((open_new running own faults (is_some s.file) >> k) s)
  open_end k g s raced h = by_file s.file refl (sym raced)
    where
      seen : PidFile
      seen = record s { file = get_or faults.changed s.file }

      rest : Step (Unit {0})
      rest =
          race running own faults.raced_again
          >> (λ s. open_again running own faults (is_some s.file) s)

      by_file :
          (file : Option Text)
          → s.file ≡ file
          → faults.raced ≡ file
          → End ((open_new running own faults (is_some file) >> k) s)
      by_file none absent nobody =
          let again : IdleAgain running faults faults.raced =
            subst (IdleAgain running faults) (sym nobody) tt in
          create_end faults.open_first k s h (g again _ h)
      by_file (some text) here there =
          then_assoc (handle_existing_pid_file running own faults.second seen) rest k (
            look_end faults.second (rest >> k) seen h (λ idle s' absent h'.
              let found : Idle running faults.second (get_or faults.changed (some text)) =
                subst (λ f. Idle running faults.second (get_or faults.changed f)) here idle in
              let again : IdleAgain running faults faults.raced =
                subst (IdleAgain running faults) (sym there) found in
              again_end (is_some (or_else s'.file faults.raced_again)) k _ h' (g again _ h')))

-- Whatever fails, and whatever other processes do to the file before either opening, before the
-- second look at it and once it is created, an attempt to acquire it succeeds only if none of its
-- looks at the file found the ID of a process that runs, and leaves its own ID in the file, unless
-- others have removed or replaced the file since it was created, which it does not notice; it refuses
-- only for a process that runs and whose ID it finds in the file; and it is an error of the file
-- system otherwise, with the flag as it was.
pub acquire-AcquireEnd :
    (running : ℕ → Bool) (own : ℕ) (faults : Faults) (s : PidFile)
    → AcquireEnd running own faults s (acquire running own faults s)
unfolding acquire
acquire-AcquireEnd running own faults s = check_end running own faults s _ (λ idle s' absent h.
    call_end running own faults s faults.ensure_runtime_dir _ s' h (
      open_end running own faults s _ (λ again. finish running own faults s idle again)
        (record s' { file = or_else s'.file faults.raced }) (rw absent refl) h))

unread_too :
    (fault : Option IoError) (text : Text) (e : PidError)
    → read_text none (some text) ≡ err e
    → (x : PidError) × (read_text fault (some text) ≡ err x)
unfolding read_text
unread_too none text e h = (e, h)
unread_too (some x) text e h = (io x, refl)

-- A file whose text is no number does not keep a process out, even if the process that has just
-- created it is about to write its ID there: if no call fails and nobody else interferes, the file is
-- taken over.
pub acquire-unparsed :
    (running : ℕ → Bool) (own : ℕ) (faults : Faults) (text : Text) (e : PidError) (s : PidFile)
    → s.file ≡ some text
    → read_text none (some text) ≡ err e
    → faults.first.remove ≡ none
    → faults.ensure_runtime_dir ≡ none
    → faults.raced ≡ none
    → faults.replaced ≡ none
    → faults.open_first ≡ none
    → faults.write ≡ none
    → faults.sync ≡ none
    → faults.permissions ≡ none
    → acquire running own faults s ≡ (ok tt, record { file = some (decimal own); acquired = true })
unfolding acquire handle_existing_pid_file remove
acquire-unparsed running own faults text e s here unread r1 r2 r3 r4 r5 r6 r7 r8 =
    let (x, bad) = unread_too faults.first.read text e unread in
    rw (acquire, here, bad, r1, r2, r3, r4, r5, r6, r7, r8) refl
