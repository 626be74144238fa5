-- ===== src/State/Store/Atomic.antt =====
-- `save` of src/state/store.rs is atomic.
use palingenesis.Prelude.{ℕ, ◌≡◌, refl, Option, none, some, Result, ok, err, arith}
use palingenesis.Prelude.Text.{Text}
use palingenesis.Prelude.Io.{◌>>◌, call_step, give_step}
use palingenesis.Prelude.Float.{FloatOps}
use palingenesis.Monitor.Frontmatter.{IoError}
use palingenesis.State.Schema.{StateFile}
use palingenesis.State.Lock.{StateError, io, lock_with_timeout}
use palingenesis.State.Store.{
  Disk, Faults, Json, StateStore, Step, call, write_temp, rename_temp, serialized, open_lock_file,
  save,
}

-- How a save ends, from a disk to a disk: with an error and the old state file; or with the new one
-- in its place, complete, and with an error only if the permissions behind it fail.
pub data SaveEnd (text : Result Text Text) (permissions : Option IoError) (disk : Disk)
    (p : Result (Unit {0}) StateError × Disk) : Type 0 where
  kept :
      (e : StateError)
      → p.0 ≡ err e
      → p.1.state ≡ disk.state
      → p.1.backup ≡ disk.backup
      → SaveEnd text permissions disk p
  replaced :
      (contents : Text)
      → text ≡ ok contents
      → permissions ≡ none
      → p.0 ≡ ok tt
      → p.1.state ≡ some contents
      → p.1.backup ≡ disk.backup
      → SaveEnd text permissions disk p
  unprotected :
      (contents : Text) (e : IoError)
      → text ≡ ok contents
      → permissions ≡ some e
      → p.0 ≡ err (io e)
      → p.1.state ≡ some contents
      → p.1.backup ≡ disk.backup
      → SaveEnd text permissions disk p

module _ {A : Type 0} (P : Result A StateError × Disk → Type 0) where
  two_calls :
      (fault next : Option IoError) (k : Step A) (disk : Disk)
      → ((e : IoError) → P (err (io e), disk))
      → P (k disk)
      → P (((call fault >> call next) >> k) disk)
  two_calls none none k disk h g = g
  two_calls none (some e) k disk h g = h e
  two_calls (some e) next k disk h g = h e

serialized-ok :
    (r : Result Text Text) (contents : Text) → serialized r ≡ ok contents → r ≡ ok contents
serialized-ok (ok t) contents h = ground arith
serialized-ok (err e) contents h = cc

module _ (text : Result Text Text) (disk : Disk) where
  -- The end of `save`: the new text is written, and takes the place of the old.
  rename_end :
      (contents : Text) (permissions : Option IoError) (now : Disk)
      → text ≡ ok contents
      → now.temp ≡ some contents
      → now.backup ≡ disk.backup
      → SaveEnd text permissions disk ((rename_temp none >> call permissions) now)
  rename_end contents none now t h b = replaced contents t refl refl h b
  rename_end contents (some e) now t h b = unprotected contents e t refl refl h b

  write_end :
      (write : Option (IoError × ℕ)) (sync protect rename permissions : Option IoError)
      → (contents : Text) (now : Disk) → text ≡ ok contents
      → now.state ≡ disk.state
      → now.backup ≡ disk.backup
      → SaveEnd text permissions disk (
          (do
            write_temp write contents
            call sync
            call protect
            rename_temp rename
            call permissions)
            now)
  write_end (some (e, n)) sync protect rename permissions contents now t s b = kept (io e) refl s b
  write_end none sync protect (some x) permissions contents now t s b =
      call_step (SaveEnd text permissions disk) io sync _ _ (λ e. kept (io e) refl s b)
        (call_step (SaveEnd text permissions disk) io protect _ _ (λ e. kept (io e) refl s b)
          (kept (io x) refl s b))
  write_end none sync protect none permissions contents now t s b =
      call_step (SaveEnd text permissions disk) io sync _ _ (λ e. kept (io e) refl s b)
        (call_step (SaveEnd text permissions disk) io protect _ _ (λ e. kept (io e) refl s b)
          (rename_end contents permissions (record now { temp = some contents }) t refl b))

module _ {F : Type 0} (fl : FloatOps F) (json : Json F) (store : StateStore) where
  -- Whatever fails, and wherever, a save leaves the state file as it was or with the whole text of
  -- the new state, never in between; it succeeds only with the new one in place; and it never
  -- touches the backup.
  pub save-SaveEnd :
      (faults : Faults) (state : StateFile F) (disk : Disk)
      → SaveEnd
          (json.to_string_pretty state)
          faults.permissions
          disk
          (save fl json store faults state disk)
  unfolding save open_lock_file
  save-SaveEnd faults state disk =
      let text = json.to_string_pretty state in
      let End = SaveEnd text faults.permissions disk in
      call_step End io faults.create_dir _ disk (λ e. kept (io e) refl refl refl)
        (two_calls End faults.open_lock faults.lock_permissions _ disk
          (λ e. kept (io e) refl refl refl)
          (give_step End (lock_with_timeout faults.tries store.lock_timeout) _ disk
            (λ e. kept e refl refl refl)
            (λ u locked.
              call_step End io faults.open_temp _ disk (λ e. kept (io e) refl refl refl)
                (give_step End (serialized text) _ _ (λ e. kept e refl refl refl)
                  (λ contents t.
                    write_end text disk faults.write faults.sync faults.temp_permissions
                      faults.rename faults.permissions contents _ (serialized-ok text contents t)
                      refl refl)))))
