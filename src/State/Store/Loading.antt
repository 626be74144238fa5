-- ===== src/State/Store/Loading.antt =====
-- What `load` of src/state/store.rs gives back, and what a failed load does to the next save.
use palingenesis.Prelude.{◌≡◌, refl, none, some, Result, ok, err, arith, inl, inr, Option-cases}
use palingenesis.Prelude.Text.{Text}
use palingenesis.Prelude.Float.{FloatOps}
use palingenesis.Prelude.Time.{Duration}
use palingenesis.Resume.Effects.{Env, resumed_state}
use palingenesis.State.Schema.{StateFile, CurrentSession, default_state}
use palingenesis.State.Lock.{StateError, lock_with_timeout}
use palingenesis.State.Store.{
  Disk, Faults, Json, StateStore, open_lock_file, load_inner, load, save,
}
use palingenesis.State.Store.Atomic.{kept, replaced, unprotected, save-SaveEnd}

module _ {F : Type 0} (fl : FloatOps F) (json : Json F) (store : StateStore) where
  -- The calls of a load work, and the lock is got.
  pub record Readable (faults : Faults) : Type 0 where
    pub open_lock : faults.open_lock ≡ none
    pub lock_permissions : faults.lock_permissions ≡ none
    pub locked : lock_with_timeout faults.tries store.lock_timeout ≡ ok tt
    pub read : faults.read ≡ none

  load-text :
      (faults : Faults) (disk : Disk) (contents : Text) (state : StateFile F)
      → Readable faults
      → disk.state ≡ some contents
      → json.from_str contents ≡ ok state
      → load fl json store faults disk ≡ (state, disk)
  unfolding load load_inner open_lock_file
  load-text faults disk contents state good here parses =
      rw (here, good.open_lock, good.lock_permissions, good.locked, good.read, parses) refl

  -- A state whose JSON reads back to itself is what a load gives after a save that succeeded, and
  -- the load leaves the disk as it is.
  pub load-save :
      (saving loading : Faults) (disk : Disk) (state : StateFile F)
      → ((contents : Text)
          → json.to_string_pretty state ≡ ok contents
          → json.from_str contents ≡ ok state)
      → (save fl json store saving state disk).0 ≡ ok tt
      → Readable loading
      → let after = (save fl json store saving state disk).1 in
        load fl json store loading after ≡ (state, after)
  load-save saving loading disk state roundtrip saved good =
      elim (save-SaveEnd fl json store saving state disk) [
        | kept e failed _ _ ↦ absurd (ground arith)
        | unprotected contents e t p failed _ _ ↦ absurd (ground arith)
        | replaced contents t p done now _ ↦
            load-text loading _ contents state good now (roundtrip contents t)
      ]

  -- A load that does not get the lock, or cannot read, gives the default state although the file
  -- holds another one, and leaves the disk as it is.
  unread :
      (faults : Faults) (disk : Disk) (contents : Text) (e : StateError)
      → disk.state ≡ some contents
      → lock_with_timeout faults.tries store.lock_timeout ≡ err e
      → load fl json store faults disk ≡ (default_state fl, disk)
  unfolding load load_inner open_lock_file
  unread faults disk contents e here stuck = elim (Option-cases faults.open_lock) [
    | inr (x, bad) ↦ rw (here, bad) refl
    | inl opened ↦ elim (Option-cases faults.lock_permissions) [
      | inr (x, bad) ↦ rw (here, opened, bad) refl
      | inl protected ↦ rw (here, opened, protected, stuck) refl
    ]
  ]

  module _ (env : Env F) where
    -- What `update_state_on_resume` of both strategies does to the disk: it loads, and saves the
    -- changed state, under two separate locks.
    abbrev pub update :
        Faults → Faults → CurrentSession → Duration → Disk → Result (Unit {0}) StateError × Disk
    update loading saving session d disk =
        let (state, disk') = load fl json store loading disk in
        save fl json store saving (resumed_state fl env session d state) disk'

    -- If the lock is not got while the state is loaded, but is got while the changed state is
    -- saved, then the new state file is made from the default state: whatever statistics the old
    -- file held are lost.
    pub update-forgets :
        (loading saving : Faults) (session : CurrentSession) (d : Duration) (disk : Disk)
        → (contents : Text) (e : StateError) → disk.state ≡ some contents
        → lock_with_timeout loading.tries store.lock_timeout ≡ err e
        → (update loading saving session d disk).0 ≡ ok tt
        → (new : Text) × (json.to_string_pretty (resumed_state fl env session d (default_state fl))
            ≡ ok new)
          × ((update loading saving session d disk).1.state ≡ some new)
    update-forgets loading saving session d disk contents e here stuck saved =
        let forgotten = resumed_state fl env session d (default_state fl) in
        let failed_load = unread loading disk contents e here stuck in
        rw failed_load (elim (save-SaveEnd fl json store saving forgotten disk) [
          | kept x failed _ _ ↦ absurd (cc failed_load)
          | unprotected new x t p failed _ _ ↦ absurd (cc failed_load)
          | replaced new t p done now _ ↦ (new, t, now)
        ])
