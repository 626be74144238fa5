-- ===== src/State/Audit/Rotation/Recency.antt =====
-- What a rotation of src/state/audit.rs keeps of the history of the log.
use mathlib.Core.List.{append-nil}
use palingenesis.Prelude.{
  ℕ, zero, suc, ◌-◌, ◌≡◌, ◌∙◌, refl, ap, arith, [], ◌++◌, none, Result, ok, Option-cases, inl, inr,
  Bool, true, false, ltb, if◌then◌else◌,
}
use palingenesis.Prelude.Text.{utf8_len}
use palingenesis.Prelude.Io.{◌>>◌, then_run, call_step}
use palingenesis.State.Audit.{
  AuditConfig, AuditError, io, Log, Faults, Step, text_or_empty, set, move, shift, rename_current,
  remove_oldest, rotate, maybe_rotate, rotate_text, done,
}
use palingenesis.State.Audit.Rotation.{
  rotated_text, history, Recent, whole, oldest_dropped, Recent-as, moved_text, move_same,
  shift-Shifted, after_shift, remove_end,
}

-- Where the loop ends when it starts at the last file that may move.
record Begun (a : ℕ) (log : Log) (p : Result (Unit {0}) AuditError × Log) : Type 0 where
  text :
      Recent
        (rotated_text log.rotated (suc (suc a)))
        (rotated_text log.rotated (suc a))
        (rotated_text p.1.rotated (suc (suc a)))
  current : p.1.current ≡ log.current
  first : p.0 ≡ ok tt → p.1.rotated 1 ≡ none

shift-Begun : (faults : Faults) (a : ℕ) (log : Log) → Begun a log (shift faults (suc a) log)
unfolding shift
shift-Begun faults a log = elim (Option-cases (log.rotated (suc a))) [
  | inl free ↦
      let rest = shift-Shifted faults (suc (suc a)) a log (omega arith) free in
      let begun : Begun a log (shift faults a log) = record {
        text = whole rest.text;
        current = rest.current;
        first = rest.first;
      } in
      rw free begun
  | inr (text, here) ↦ elim (Option-cases (faults.rename (suc a))) [
    | inr (e, bad) ↦
        rw (here, bad) (record { text = whole refl; current = refl; first = λ good. absurd cc })
    | inl works ↦
        let moved : Log = record log { rotated = move (suc a) log.rotated } in
        let rest =
          shift-Shifted faults (suc (suc a)) a moved (omega arith)
            (move_same (suc a) log.rotated) in
        let begun : Begun a log (shift faults a moved) = record {
          text = oldest_dropped (rest.text ∙ moved_text a log.rotated);
          current = rest.current;
          first = rest.first;
        } in
        rw (here, works) begun
  ]
]

unless_small :
    (P : Result (Unit {0}) AuditError × Log → Type 0) (b : Bool) (step : Step) (log : Log)
    → P (ok tt, log)
    → P (step log)
    → P ((if b then done else step) log)
unless_small P true step log h g = h
unless_small P false step log h g = g

-- The log that a program ends with has the history of a log, or all but its oldest file.
abbrev Keeps : ℕ → Log → Result (Unit {0}) AuditError × Log → Type 0
Keeps n log p = Recent (history (suc n) log) (history n log) (history (suc n) p.1)

module _ (config : AuditConfig) (faults : Faults) where
  -- The rotation behind the loop.
  abbrev rest : Step
  rest = rename_current (faults.rename 0) >> remove_oldest config faults

  rotate-then :
      (n : ℕ) (log : Log)
      → config.max_files ≡ suc n
      → rotate config faults log ≡ then_run (shift faults n log) (λ _. rest)
  unfolding rotate
  rotate-then n log enough =
      let index : config.max_files - 1 ≡ n = omega (arith, enough) in
      ap (λ i. then_run (shift faults i log) (λ _. rest)) index

  only_current :
      (log : Log)
      → config.max_files ≡ 1
      → Recent (history 1 log) (history 0 log) (history 1 (rest log).1)
  only_current log one = elim (Option-cases (faults.rename 0)) [
    | inr (e, bad) ↦ let same : (rest log).1 ≡ log = rw bad refl in whole (ap (history 1) same)
    | inl works ↦
        let moved : Log = record { current = none; rotated = set 1 log.current log.rotated } in
        let renamed : (rest log).1 ≡ (remove_oldest config faults moved).1 = rw works refl in
        oldest_dropped (
          ap (history 1) renamed
          ∙ remove_end config faults 0 one moved
          ∙ append-nil (text_or_empty log.current ++ [])
          ∙ append-nil (text_or_empty log.current))
  ]

  rotate-Recent :
      (n : ℕ) (log : Log)
      → config.max_files ≡ suc n
      → Recent (history (suc n) log) (history n log) (history (suc n) (rotate config faults log).1)
  unfolding shift
  rotate-Recent zero log enough =
      Recent-as _ _ (ap (λ p. history 1 p.1) (rotate-then 0 log enough)) (only_current log enough)
  rotate-Recent (suc a) log enough =
      let begun = shift-Begun faults a log in
      Recent-as _ _ (ap (λ p. history (suc (suc a)) p.1) (rotate-then (suc a) log enough)) (
        after_shift config faults (suc a) enough log (shift faults (suc a) log) begun.text
          begun.current begun.first)

  pub maybe_rotate-Recent :
      (n : ℕ) (log : Log)
      → config.max_files ≡ suc n
      → Recent
          (history (suc n) log)
          (history n log)
          (history (suc n) (maybe_rotate config faults log).1)
  unfolding maybe_rotate
  maybe_rotate-Recent n log enough = elim (Option-cases log.current) [
    | inl absent ↦
        let same : (maybe_rotate config faults log).1 ≡ log = rw absent refl in
        whole (ap (history (suc n)) same)
    | inr (text, here) ↦
        Recent-as _ _ (ap (λ c. history (suc n) (rotate_text config faults c log).1) here) (
          call_step (Keeps n log) io faults.metadata _ log (λ e. whole refl)
            (unless_small (Keeps n log) (ltb (utf8_len text) config.max_size) (rotate config faults)
              log (whole refl) (rotate-Recent n log enough)))
  ]
