-- ===== src/State/Audit/Query/Logged.antt =====
-- A query of src/state/audit.rs behind a `log`.
use palingenesis.Prelude.{
  ◌≡◌, ◌∙◌, refl, ap, List, [], ◌∷◌, ◌++◌, Option, none, some, Result, ok, err, true, false, ltb,
  all, Bool-cases, Option-cases, inl, inr,
}
use palingenesis.Prelude.Io.{◌>>◌, then_run, call_step, give_step}
use palingenesis.Prelude.Text.{utf8_len, Text, lines, is_empty}
use palingenesis.Prelude.Text.Lines.{ends_line, stays, lines-append, lines-line}
use palingenesis.State.Audit.{
  AuditConfig, AuditError, io, Log, Faults, Step, EntryJson, text_or_empty, maybe_rotate,
  rotate_text, log_entry, serialized, append,
}
use palingenesis.State.Audit.Entries.{AuditEntry}
use palingenesis.State.Audit.Rotation.Logging.{call_end, write_step, open_step}
use palingenesis.State.Audit.Query.{AuditQuery, matches, parsed, collect, execute}

-- The line of an entry: it reads back, and is one line that is not empty.
pub record Printed {V : Type 0} (json : EntryJson V) (entry : AuditEntry V) (line : Text)
    : Type 0 where
  pub printed : json.to_string entry ≡ ok line
  pub reads : json.from_str line ≡ ok entry
  pub one_line : all stays line ≡ true
  pub not_empty : is_empty line ≡ false

module _ (config : AuditConfig) (faults : Faults) (log : Log) where
  -- A log that has fewer bytes than the limit is not rotated.
  small_step :
      (P : Result (Unit {0}) AuditError × Log → Type 0) (k : Step)
      → ltb (utf8_len (text_or_empty log.current)) config.max_size ≡ true
      → ((e : AuditError) → P (err e, log))
      → P (k log)
      → P ((maybe_rotate config faults >> k) log)
  unfolding maybe_rotate
  small_step P k small h g = by_text log.current small
    where
      by_text :
          (text : Option Text)
          → ltb (utf8_len (text_or_empty text)) config.max_size ≡ true
          → P (then_run (rotate_text config faults text log) (λ _. k))
      by_text none small = g
      by_text (some text) small = elim (Option-cases faults.metadata) [
        | inr (e, bad) ↦ rw bad (h (io e))
        | inl works ↦ rw (works, small) g
      ]

module _ {V : Type 0} (json : EntryJson V) (config : AuditConfig) where
  -- What a successful `log` leaves in the file, when it does not rotate.
  log_entry-current :
      (faults : Faults) (entry : AuditEntry V) (log : Log) (line : Text)
      → json.to_string entry ≡ ok line
      → ltb (utf8_len (text_or_empty log.current)) config.max_size ≡ true
      → (log_entry json config faults entry log).0 ≡ ok tt
      → (log_entry json config faults entry log).1.current
        ≡ some (text_or_empty log.current ++ (line ++ 10 ∷ []))
  unfolding log_entry
  log_entry-current faults entry log line printed small =
      let text = text_or_empty log.current in
      let opened : Log = record log { current = some text } in
      let behind : Log = append (line ++ 10 ∷ []) opened in
      small_step config faults log Left _ small (λ e good. absurd cc)
        (give_step Left (serialized (json.to_string entry)) _ log (λ e good. absurd cc)
          (λ line' made.
            let same : line' ≡ line = cc in
            open_step Left faults _ log (λ e good. absurd cc) (λ e good. absurd cc)
              (call_step Left io faults.lock _ opened (λ e good. absurd cc)
                (write_step Left faults.write (line' ++ 10 ∷ []) _ opened (λ e n good. absurd cc)
                  (call_step Left io faults.flush _ (append (line' ++ 10 ∷ []) opened)
                    (λ e good. absurd cc)
                    (call_end Left faults.unlock (append (line' ++ 10 ∷ []) opened)
                      (λ e good. absurd cc)
                      (λ good. ap (λ l. some (text ++ (l ++ 10 ∷ []))) same)))))))
    where
      Left : Result (Unit {0}) AuditError × Log → Type 0
      Left p = p.0 ≡ ok tt → p.1.current ≡ some (text_or_empty log.current ++ (line ++ 10 ∷ []))

  parsed_append :
      (query : AuditQuery) (r : Result (AuditEntry V) Text) (xs ys : List (AuditEntry V))
      → parsed query r (xs ++ ys) ≡ parsed query r xs ++ ys
  parsed_append query (err message) xs ys = refl
  parsed_append query (ok entry) xs ys = elim (Bool-cases (matches query entry)) [
    | inl h ↦ rw h refl
    | inr h ↦ rw h refl
  ]

  collect_append :
      (query : AuditQuery) (xs ys : List Text)
      → collect json query (xs ++ ys) ≡ collect json query xs ++ collect json query ys
  unfolding collect
  collect_append query [] ys = refl
  collect_append query (line ∷ xs) ys =
      rw (collect_append query xs ys) (elim (Bool-cases (is_empty line)) [
        | inl blank ↦ rw blank refl
        | inr full ↦ rw full (
            parsed_append query (json.from_str line) (collect json query xs)
              (collect json query ys))
      ])

  -- A query of a log is a query of its lines.
  execute-lines :
      (query : AuditQuery) (log : Log)
      → execute json query none none log
        ≡ ok (collect json query (lines (text_or_empty log.current)))
  unfolding execute collect lines
  execute-lines query log = elim (Option-cases log.current) [
    | inl absent ↦ rw absent refl
    | inr (text, here) ↦ rw here refl
  ]

  -- After an entry whose line reads back is logged, with success, to a file of whole lines that has
  -- fewer bytes than the limit for a rotation, every query that works gives what it gave before, and
  -- the entry behind it if it matches.
  pub execute-log_entry :
      (faults : Faults) (entry : AuditEntry V) (log : Log) (line : Text) (query : AuditQuery)
      → (found : List (AuditEntry V)) → Printed json entry line
      → ends_line (text_or_empty log.current) ≡ true
      → ltb (utf8_len (text_or_empty log.current)) config.max_size ≡ true
      → (log_entry json config faults entry log).0 ≡ ok tt
      → execute json query none none log ≡ ok found
      → execute json query none none (log_entry json config faults entry log).1
        ≡ ok (found ++ parsed query (ok entry) [])
  unfolding execute collect
  execute-log_entry faults entry log line query found p whole small good before =
      let text = text_or_empty log.current in
      let now = (log_entry json config faults entry log).1 in
      let added : lines (text ++ (line ++ 10 ∷ [])) ≡ lines text ++ (line ∷ []) =
        lines-append text (line ++ 10 ∷ []) whole
        ∙ ap (λ l. lines text ++ l) (lines-line line p.one_line) in
      let old : collect json query (lines text) ≡ found = cc (execute-lines query log, before) in
      let last : collect json query (line ∷ []) ≡ parsed query (ok entry) [] =
        rw (p.not_empty, p.reads) refl in
      execute-lines query now
      ∙ ap (λ c. ok (collect json query (lines (text_or_empty c))))
          (log_entry-current faults entry log line p.printed small good)
      ∙ ap (λ l. ok (collect json query l)) added
      ∙ ap ok (collect_append query (lines text) (line ∷ []))
      ∙ ap ok (rw (old, last) refl)
