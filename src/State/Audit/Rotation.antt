-- ===== src/State/Audit/Rotation.antt =====
-- The rotation of src/state/audit.rs loses nothing but the oldest file: its steps.
pub mod Recency
pub mod Logging
use mathlib.Core.List.{append-nil, append_assoc}
use palingenesis.Prelude.{
  ℕ, zero, suc, ◌≤◌, ◌<◌, ◌+◌, ◌≡◌, ◌∙◌, refl, sym, ap, arith, List, [], ◌∷◌, ◌++◌, Option, none,
  some, Result, ok, err, Bool, true, false, Option-cases, inl, inr, Bool-cases, ◌==◌, ==_iff,
  is_some,
}
use palingenesis.Prelude.Io.{◌>>=◌, ◌>>◌, then_run, call_step, give_step}
use palingenesis.Prelude.Text.{Text}
use palingenesis.State.Audit.{
  AuditConfig, AuditError, Log, Faults, Step, text_or_empty, set, move, shift, rename_current,
  remove_oldest, rotate, maybe_rotate, rename_rotated,
}

-- The texts of the rotated files from the n-th down, the oldest first.
abbrev pub rotated_text : (ℕ → Option Text) → ℕ → Text
rotated_text files zero = []
rotated_text files (suc n) = text_or_empty (files (suc n)) ++ rotated_text files n

-- All the log that is kept in n rotated files, and in the file itself.
abbrev pub history : ℕ → Log → Text
history n log = rotated_text log.rotated n ++ text_or_empty log.current

rotated_text_ext :
    (f g : ℕ → Option Text) (n : ℕ)
    → ((j : ℕ) → j ≤ n → f j ≡ g j)
    → rotated_text f n ≡ rotated_text g n
rotated_text_ext f g zero h = refl
rotated_text_ext f g (suc n) h =
    rw (h (suc n) (omega arith), rotated_text_ext f g n (λ j l. h j (omega arith))) refl

set_same : (i : ℕ) (text : Option Text) (files : ℕ → Option Text) → set i text files i ≡ text
set_same i text files = rw ((==_iff i i).1 refl) refl

set_below :
    (i j : ℕ) (text : Option Text) (files : ℕ → Option Text) → j < i → set i text files j ≡ files j
set_below i j text files l = ground arith

set_above :
    (i j : ℕ) (text : Option Text) (files : ℕ → Option Text) → i < j → set i text files j ≡ files j
set_above i j text files l = ground arith

module _ (i : ℕ) (files : ℕ → Option Text) where
  move_same : move i files i ≡ none
  move_same = set_same i none (set (suc i) (files i) files)

  move_next : move i files (suc i) ≡ files i
  move_next =
      set_above i (suc i) none (set (suc i) (files i) files) (omega arith)
      ∙ set_same (suc i) (files i) files

  move_below : (j : ℕ) → j < i → move i files j ≡ files j
  move_below j l =
      set_below i j none (set (suc i) (files i) files) l
      ∙ set_below (suc i) j (files i) files (omega arith)

  move_above : (j : ℕ) → suc i < j → move i files j ≡ files j
  move_above j l =
      set_above i j none (set (suc i) (files i) files) (omega arith)
      ∙ set_above (suc i) j (files i) files l

module _ (a : ℕ) (files : ℕ → Option Text) where
  -- A file moves up: the rest below it stays.
  moved_text :
      rotated_text (move (suc a) files) (suc (suc a))
      ≡ text_or_empty (files (suc a)) ++ rotated_text files a
  moved_text =
      rw
        (
          move_next (suc a) files,
          move_same (suc a) files,
          rotated_text_ext (move (suc a) files) files a
              (λ j l. move_below (suc a) files j (omega arith)),
        )
        refl

  -- A file moves to a free index: the text is the same.
  moved_to_free :
      (n : ℕ)
      → suc (suc a) ≤ n
      → files (suc (suc a)) ≡ none
      → rotated_text (move (suc a) files) n ≡ rotated_text files n
  moved_to_free zero l free = absurd (omega arith)
  moved_to_free (suc n) l free = elim (Bool-cases (n == suc a)) [
    | inl here ↦ rw ((==_iff n (suc a)).0 here, moved_text, free) refl
    | inr above ↦
        let far : suc a < n = ground arith in
        rw (move_above (suc a) files (suc n) (omega arith), moved_to_free n (omega arith) free) refl
  ]

-- Where the loop over the rotated files ends.
record Shifted (top : ℕ) (log : Log) (p : Result (Unit {0}) AuditError × Log) : Type 0 where
  text : rotated_text p.1.rotated top ≡ rotated_text log.rotated top
  current : p.1.current ≡ log.current
  -- The first index is free, unless it failed.
  first : p.0 ≡ ok tt → p.1.rotated 1 ≡ none

-- The loop from n on moves no file over another one when the index above n is free.
shift-Shifted :
    (faults : Faults) (top n : ℕ) (log : Log)
    → suc n ≤ top
    → log.rotated (suc n) ≡ none
    → Shifted top log (shift faults n log)
unfolding shift
shift-Shifted faults top zero log l free = record { text = refl; current = refl; first = λ _. free }
shift-Shifted faults top (suc a) log l free = elim (Option-cases (log.rotated (suc a))) [
  | inl none_here ↦ rw none_here (shift-Shifted faults top a log (omega arith) none_here)
  | inr (text, here) ↦ elim (Option-cases (faults.rename (suc a))) [
    | inr (e, bad) ↦
        rw (here, bad) (record { text = refl; current = refl; first = λ good. absurd cc })
    | inl works ↦
        let moved : Log = record log { rotated = move (suc a) log.rotated } in
        let rest = shift-Shifted faults top a moved (omega arith) (move_same (suc a) log.rotated) in
        let same : Shifted top log (shift faults a moved) = record {
          text = rest.text ∙ moved_to_free a log.rotated top l free;
          current = rest.current;
          first = rest.first;
        } in
        rw (here, works) same
  ]
]

set_text :
    (n : ℕ) (text : Option Text) (files : ℕ → Option Text)
    → files 1 ≡ none
    → rotated_text (set 1 text files) (suc n) ≡ rotated_text files (suc n) ++ text_or_empty text
set_text zero text files free = rw free (append-nil (text_or_empty text))
set_text (suc n) text files free =
    rw (set_above 1 (suc (suc n)) text files (omega arith), set_text n text files free)
      (sym (
        append_assoc (text_or_empty (files (suc (suc n)))) (rotated_text files (suc n))
          (text_or_empty text)))

-- What a text keeps of the n + 1 rotated files of a log, or of all its history.
pub data Recent (all but_oldest now : Text) : Type 0 where
  whole : now ≡ all → Recent all but_oldest now
  oldest_dropped : now ≡ but_oldest → Recent all but_oldest now

module _ {all but_oldest : Text} where
  Recent-as :
      (now now' : Text) → now' ≡ now → Recent all but_oldest now → Recent all but_oldest now'
  Recent-as now now' e (whole h) = whole (e ∙ h)
  Recent-as now now' e (oldest_dropped h) = oldest_dropped (e ∙ h)

  Recent-append :
      (now rest : Text)
      → Recent all but_oldest now
      → Recent (all ++ rest) (but_oldest ++ rest) (now ++ rest)
  Recent-append now rest (whole h) = whole (ap (λ t. t ++ rest) h)
  Recent-append now rest (oldest_dropped h) = oldest_dropped (ap (λ t. t ++ rest) h)

module _ (config : AuditConfig) (faults : Faults) (n : ℕ) (enough : config.max_files ≡ suc n) where
  -- The file beyond the last is no part of the history.
  remove_end :
      (log : Log) → history (suc n) (remove_oldest config faults log).1 ≡ history (suc n) log
  remove_end log =
      let oldest = suc config.max_files in
      elim (Bool-cases (is_some (log.rotated oldest))) [
        | inr absent ↦
            let same : (remove_oldest config faults log).1 ≡ log = rw absent refl in
            ap (history (suc n)) same
        | inl present ↦ elim (Option-cases faults.remove) [
          | inr (e, bad) ↦
              let same : (remove_oldest config faults log).1 ≡ log = rw (present, bad) refl in
              ap (history (suc n)) same
          | inl works ↦
              let left : Log = record log { rotated = set oldest none log.rotated } in
              let removed : (remove_oldest config faults log).1 ≡ left = rw (present, works) refl in
              ap (history (suc n)) removed
              ∙ ap (λ text. text ++ text_or_empty log.current)
                  (rotated_text_ext left.rotated log.rotated (suc n)
                    (λ j l. set_below oldest j none log.rotated (omega arith)))
        ]
      ]

  -- The log becomes the first rotated file, when the first index is free.
  rename_end :
      (log : Log)
      → log.rotated 1 ≡ none
      → history (suc n) ((rename_current (faults.rename 0) >> remove_oldest config faults) log).1
        ≡ history (suc n) log
  rename_end log free =
      let rest : Step = rename_current (faults.rename 0) >> remove_oldest config faults in
      elim (Option-cases (faults.rename 0)) [
        | inr (e, bad) ↦ let same : (rest log).1 ≡ log = rw bad refl in ap (history (suc n)) same
        | inl works ↦
            let moved : Log = record { current = none; rotated = set 1 log.current log.rotated } in
            let renamed : (rest log).1 ≡ (remove_oldest config faults moved).1 = rw works refl in
            (ap (history (suc n)) renamed
              ∙ remove_end moved
              ∙ append-nil (rotated_text moved.rotated (suc n))
              ∙ set_text n log.current log.rotated free)
      ]

  -- The loop has ended, with the text of the rotated files or with all but the oldest.
  after_shift :
      (before : Log) (p : Result (Unit {0}) AuditError × Log)
      → Recent
          (rotated_text before.rotated (suc n))
          (rotated_text before.rotated n)
          (rotated_text p.1.rotated (suc n))
      → p.1.current ≡ before.current
      → (p.0 ≡ ok tt → p.1.rotated 1 ≡ none)
      → Recent (history (suc n) before) (history n before) (
          history
            (suc n)
            (then_run p (λ _. rename_current (faults.rename 0) >> remove_oldest config faults)).1)
  after_shift before (err e, log) kept same free =
      let tail = text_or_empty before.current in
      Recent-as _ _ (ap (λ c. rotated_text log.rotated (suc n) ++ text_or_empty c) same)
        (Recent-append (rotated_text log.rotated (suc n)) tail kept)
  after_shift before (ok tt, log) kept same free =
      let tail = text_or_empty before.current in
      Recent-as _ _
        (rename_end log (free refl)
          ∙ ap (λ c. rotated_text log.rotated (suc n) ++ text_or_empty c) same)
        (Recent-append (rotated_text log.rotated (suc n)) tail kept)
