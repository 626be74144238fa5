-- ===== src/State/Audit/Rotation/Logging.antt =====
-- A whole `log` of src/state/audit.rs: what is kept of the log, and what is written behind it.
use mathlib.Core.List.{append_assoc}
use palingenesis.Prelude.{
  ℕ, suc, ◌≡◌, refl, sym, arith, [], ◌∷◌, ◌++◌, Option, none, some, Result, ok, err, take,
}
use palingenesis.Prelude.Io.{◌>>=◌, ◌>>◌, then_run, give, call_step, give_step}
use palingenesis.Prelude.Text.{Text}
use palingenesis.Monitor.Frontmatter.{IoError}
use palingenesis.State.Audit.{
  AuditConfig, AuditError, io, Log, Faults, Step, EntryJson, call, text_or_empty, maybe_rotate,
  open_for_append, write_line, log_entry, serialized, append,
}
use palingenesis.State.Audit.Entries.{AuditEntry}
use palingenesis.State.Audit.Rotation.{rotated_text, history, Recent}
use palingenesis.State.Audit.Rotation.Recency.{maybe_rotate-Recent}

module _ (P : Result (Unit {0}) AuditError × Log → Type 0) where
  pub call_end :
      (fault : Option IoError) (log : Log)
      → ((e : IoError) → P (err (io e), log))
      → P (ok tt, log)
      → P (call fault log)
  call_end none log h g = g
  call_end (some e) log h g = h e

  pub write_step :
      (fault : Option (IoError × ℕ)) (line : Text) (k : Step) (log : Log)
      → ((e : IoError) (n : ℕ) → P (err (io e), append (take n line) log))
      → P (k (append line log))
      → P ((write_line fault line >> k) log)
  write_step none line k log h g = g
  write_step (some (e, n)) line k log h g = h e n

  pub open_step :
      (faults : Faults) (k : Step) (log : Log)
      → ((e : IoError) → P (err (io e), log))
      → ((e : IoError) → P (err (io e), record log { current = some (text_or_empty log.current) }))
      → P (k (record log { current = some (text_or_empty log.current) }))
      → P ((open_for_append faults >> k) log)
  unfolding open_for_append
  open_step faults k log h h' g = open_by (faults.open_file) (faults.permissions) k log h h' g
    where
      open_by :
          (open_fault fault : Option IoError) (k : Step) (log : Log)
          → ((e : IoError) → P (err (io e), log))
          → ((e : IoError)
              → P (err (io e), record log { current = some (text_or_empty log.current) }))
          → P (k (record log { current = some (text_or_empty log.current) }))
          → P (
              ((call open_fault
                    >> ((λ l. (ok tt, record l { current = some (text_or_empty l.current) }))
                        >> call fault))
                  >> k)
                log)
      open_by none none k log h h' g = g
      open_by none (some e) k log h h' g = h' e
      open_by (some e) fault k log h h' g = h e

-- How logging an entry ends: with an error and nothing written, with an error and a part of the
-- line, or with the whole line behind what is kept of the log.
pub data LogEnd (all but_oldest : Text) (text : Result Text Text) (n : ℕ)
    (p : Result (Unit {0}) AuditError × Log) : Type 0 where
  unwritten :
      (e : AuditError)
      → p.0 ≡ err e
      → Recent all but_oldest (history n p.1)
      → LogEnd all but_oldest text n p
  partly_written :
      (e : AuditError) (kept line : Text) (k : ℕ)
      → p.0 ≡ err e
      → text ≡ ok line
      → Recent all but_oldest kept
      → history n p.1 ≡ kept ++ take k (line ++ 10 ∷ [])
      → LogEnd all but_oldest text n p
  written :
      (kept line : Text)
      → text ≡ ok line
      → Recent all but_oldest kept
      → history n p.1 ≡ kept ++ (line ++ 10 ∷ [])
      → LogEnd all but_oldest text n p

serialized-ok : (r : Result Text Text) (line : Text) → serialized r ≡ ok line → r ≡ ok line
serialized-ok (ok t) line h = ground arith
serialized-ok (err e) line h = cc

module _ (all but_oldest : Text) (text : Result Text Text) (n : ℕ) where
  abbrev Ends : Result (Unit {0}) AuditError × Log → Type 0
  Ends = LogEnd all but_oldest text n

  -- The line is written behind a log that is kept.
  write_end :
      (faults : Faults) (line kept_text : Text) (rotated : ℕ → Option Text)
      → text ≡ ok line
      → Recent all but_oldest (history n (record { current = some kept_text; rotated = rotated }))
      → Ends (
          (do write_line faults.write (line ++ 10 ∷ []); call faults.flush; call faults.unlock)
            (record { current = some kept_text; rotated = rotated }))
  write_end faults line kept_text rotated t kept =
      let now : Log = record { current = some kept_text; rotated = rotated } in
      let wrote = λ (k : ℕ).
        sym (append_assoc (rotated_text rotated n) kept_text (take k (line ++ 10 ∷ []))) in
      let wrote_all = sym (append_assoc (rotated_text rotated n) kept_text (line ++ 10 ∷ [])) in
      let behind : Log = append (line ++ 10 ∷ []) now in
      write_step Ends faults.write (line ++ 10 ∷ []) _ now
        (λ e k. partly_written (io e) (history n now) line k refl t kept (wrote k))
        (call_step Ends io faults.flush _ behind
          (λ e. written (history n now) line t kept wrote_all)
          (call_end Ends faults.unlock behind (λ e. written (history n now) line t kept wrote_all)
            (written (history n now) line t kept wrote_all)))

  -- What follows a rotation.
  append_end :
      (faults : Faults) (p : Result (Unit {0}) AuditError × Log)
      → Recent all but_oldest (history n p.1)
      → Ends (
          then_run p (λ _. do
            line ← give (serialized text)
            open_for_append faults
            call faults.lock
            write_line faults.write (line ++ 10 ∷ [])
            call faults.flush
            call faults.unlock))
  append_end faults (err e, log) kept = unwritten e refl kept
  append_end faults (ok tt, log) kept =
      let opened : Log = record log { current = some (text_or_empty log.current) } in
      give_step Ends (serialized text) _ log (λ e. unwritten e refl kept)
        (λ line t.
          open_step Ends faults _ log (λ e. unwritten (io e) refl kept)
            (λ e. unwritten (io e) refl kept)
            (call_step Ends io faults.lock _ opened (λ e. unwritten (io e) refl kept)
              (write_end faults line (text_or_empty log.current) log.rotated
                (serialized-ok text line t) kept)))

module _ {V : Type 0} (json : EntryJson V) (config : AuditConfig) where
  -- Where the configuration keeps at least one rotated file, logging an entry loses nothing of the
  -- log but its oldest rotated file, whatever fails, and puts at most the entry's line behind the
  -- rest; it succeeds only with the whole line there.
  pub log_entry-LogEnd :
      (faults : Faults) (entry : AuditEntry V) (log : Log) (n : ℕ)
      → config.max_files ≡ suc n
      → LogEnd
          (history (suc n) log)
          (history n log)
          (json.to_string entry)
          (suc n)
          (log_entry json config faults entry log)
  unfolding log_entry
  log_entry-LogEnd faults entry log n enough =
      append_end (history (suc n) log) (history n log) (json.to_string entry) (suc n) faults
        (maybe_rotate config faults log) (maybe_rotate-Recent config faults n log enough)
